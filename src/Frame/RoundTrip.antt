-- ===== src/Frame/RoundTrip.antt =====
-- What is encoded is decoded again, through any cutting of the stream into chunks.
use vguardrail.Base.{
  ℕ, zero, suc, ◌+◌, ◌≤◌, ◌<◌, ◌^◌, ◌≡◌, refl, ap, ◌∙◌, Option, some, List, [], ◌∷◌, ◌++◌,
  append_assoc, map, length, take, drop, concat, length-append, drop-length-append,
  take-length-append, Outcome, ok, arith,
}
use vguardrail.Frame.{
  ByteOrder, big, little, read_u32, write_u32, FrameError, prepend, drain, push, feed, encode,
}
use vguardrail.Frame.Loop.{drain-empty, step_frame}
use vguardrail.Frame.Chunks.{feed-push}

read-write :
    (order : ByteOrder) (n : ℕ) (rest : List ℕ)
    → n < 2 ^ 32
    → read_u32 order (write_u32 order n ++ rest) ≡ n
unfolding read_u32 write_u32
read-write big n rest h = omega arith
read-write little n rest h = omega arith

drop-write : (order : ByteOrder) (n : ℕ) (rest : List ℕ) → drop 4 (write_u32 order n ++ rest) ≡ rest
unfolding write_u32
drop-write big n rest = refl
drop-write little n rest = refl

length-write : (order : ByteOrder) (n : ℕ) → length (write_u32 order n) ≡ 4
unfolding write_u32
length-write big n = refl
length-write little n = refl

module _ {V : Type 0} (order : ByteOrder) (cap : ℕ) (stringify : V → List ℕ)
    (parse : List ℕ → Option V) where
  encode-eq-ok :
      (v : V) (frame : List ℕ)
      → encode order cap stringify v ≡ ok frame
      → (frame ≡ write_u32 order (length (stringify v)) ++ stringify v)
        × (length (stringify v) ≤ cap)
  unfolding encode
  encode-eq-ok v frame h = ground arith

  drain-frame :
      (f n : ℕ) (v : V) (body rest : List ℕ)
      → n ≡ length body
      → n ≤ cap
      → cap < 2 ^ 32
      → parse body ≡ some v
      → drain order cap parse (suc f) ((write_u32 order n ++ body) ++ rest)
        ≡ prepend (v ∷ []) (drain order cap parse f rest)
  drain-frame f n v body rest same fits small good =
      let b = (write_u32 order n ++ body) ++ rest in
      let size : read_u32 order b ≡ n =
        ap (read_u32 order) (append_assoc (write_u32 order n) body rest)
        ∙ read-write order n (body ++ rest) (omega arith) in
      let framed : length (write_u32 order n ++ body) ≡ 4 + n =
        omega (arith, length-append (write_u32 order n) body, length-write order n) in
      let whole : 4 + n ≤ length b =
        omega (arith, length-append (write_u32 order n ++ body) rest) in
      let inner : take n (drop 4 b) ≡ body =
        ap (λ t. take n (drop 4 t)) (append_assoc (write_u32 order n) body rest)
        ∙ ap (take n) (drop-write order n (body ++ rest))
        ∙ rw same (take-length-append body rest) in
      let after : drop (4 + n) b ≡ rest =
        rw (← framed) (drop-length-append (write_u32 order n ++ body) rest) in
      step_frame order cap parse b n size (omega arith) fits whole f v (ap parse inner ∙ good)
      ∙ ap (λ t. prepend (v ∷ []) (drain order cap parse f t)) after

  module _ (small : cap < 2 ^ 32) (parses : (v : V) → parse (stringify v) ≡ some v) where
    drain-frames :
        (vs : List V) (frames : List (List ℕ)) (f : ℕ)
        → map (encode order cap stringify) vs ≡ map ok frames
        → length (concat frames) ≤ f
        → drain order cap parse f (concat frames) ≡ (ok vs, [])
    drain-frames [] [] f h p = drain-empty order cap parse f
    drain-frames [] (x ∷ frames) f h p = cc
    drain-frames (v ∷ vs) [] f h p = cc
    drain-frames (v ∷ vs) (frame ∷ frames) zero h p =
        let (shape, fits) = encode-eq-ok v frame (cc) in
        let n = length (stringify v) in
        absurd (
          omega (
            arith,
            length-append frame (concat frames),
            ap length shape,
            length-append (write_u32 order n) (stringify v),
            length-write order n,
          ))
    drain-frames (v ∷ vs) (frame ∷ frames) (suc f) h p =
        let (shape, fits) = encode-eq-ok v frame (cc) in
        let n = length (stringify v) in
        let room : length (concat frames) ≤ f = omega (
          arith,
          length-append frame (concat frames),
          ap length shape,
          length-append (write_u32 order n) (stringify v),
          length-write order n,
        ) in
        ap (λ t. drain order cap parse (suc f) (t ++ concat frames)) shape
        ∙ drain-frame f n v (stringify v) (concat frames) refl fits small (parses v)
        ∙ ap (prepend (v ∷ [])) (drain-frames vs frames f (cc) room)

    -- Where the cap is below 2 ^ 32, `parse` undoes `stringify`, and all values are encoded: the
    -- values whose frames make up a stream are the values that `push` returns, in order, however
    -- the stream is cut into chunks. Nothing is lost, added, reordered or thrown.
    pub feed-frames :
        (vs : List V) (frames chunks : List (List ℕ))
        → map (encode order cap stringify) vs ≡ map ok frames
        → concat chunks ≡ concat frames
        → (feed order cap parse [] chunks).0 ≡ ok vs
    unfolding push
    feed-frames vs frames chunks encoded cut =
        feed-push order cap parse chunks [] (drain-empty order cap parse)
        ∙ ap (λ t. (drain order cap parse (length t) t).0) cut
        ∙ ap (λ (r : Outcome FrameError (List V) × List ℕ). r.0)
            (drain-frames vs frames (length (concat frames)) encoded (omega arith))
