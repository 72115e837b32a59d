-- ===== src/Frame/Tests.antt =====
-- Concrete streams.
use vguardrail.Base.{
  ◌≡◌, refl, ℕ, ◌^◌, ◌<◌, Option, none, some, List, [], ◌∷◌, concat, map, arith, ok,
}
use vguardrail.Frame.{big, write_u32, encode, push, feed}
use vguardrail.Frame.Loop.{drain-empty}
use vguardrail.Frame.Chunks.{feed-push}
use vguardrail.Frame.RoundTrip.{feed-frames}

-- A body of one byte stands for its value.
abbrev one_byte : ℕ → List ℕ
one_byte v = v ∷ []

abbrev read_byte : List ℕ → Option ℕ
read_byte (v ∷ []) = some v
read_byte _ = none

abbrev frames : List (List ℕ)
frames = (0 ∷ 0 ∷ 0 ∷ 1 ∷ 7 ∷ []) ∷ (0 ∷ 0 ∷ 0 ∷ 1 ∷ 9 ∷ []) ∷ []

abbrev chunks : List (List ℕ)
chunks = (0 ∷ 0 ∷ []) ∷ (0 ∷ 1 ∷ 7 ∷ 0 ∷ 0 ∷ 0 ∷ []) ∷ (1 ∷ 9 ∷ []) ∷ []

frames_encoded : map (encode big 4 one_byte) (7 ∷ 9 ∷ []) ≡ map ok frames
unfolding encode write_u32
frames_encoded = refl

small_cap : 4 < 2 ^ 32
small_cap = omega arith

feed-frames_example : (feed big 4 read_byte [] chunks).0 ≡ ok (7 ∷ 9 ∷ [])
feed-frames_example =
    feed-frames big 4 one_byte read_byte small_cap (λ v. refl) (7 ∷ 9 ∷ []) frames chunks
      frames_encoded refl

feed-push_example : (feed big 4 read_byte [] chunks).0 ≡ (push big 4 read_byte [] (concat chunks)).0
feed-push_example = feed-push big 4 read_byte chunks [] (drain-empty big 4 read_byte)
