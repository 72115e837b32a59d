-- ===== src/Frame/Chunks.antt =====
-- The chunks in which the bytes of a stream arrive make no difference to what is decoded.
use vguardrail.Base.{
  ℕ, ◌≡◌, refl, sym, ap, Option, List, [], ◌∷◌, ◌++◌, append_assoc, append-nil, length, concat,
  Outcome, ok, err, arith,
}
use vguardrail.Frame.{ByteOrder, FrameError, prepend, drain, push, feed, continue}
use vguardrail.Frame.Loop.{resume, drain-append, IsSettled, drain-IsSettled}

module _ {V : Type 0} (order : ByteOrder) (cap : ℕ) (parse : List ℕ → Option V) where
  push-append :
      (b c d : List ℕ)
      → push order cap parse b (c ++ d) ≡ resume order cap parse (push order cap parse b c) d
  unfolding push
  push-append b c d = rw (← append_assoc b c d) (
      drain-append order cap parse (length (b ++ c)) (length ((b ++ c) ++ d)) (b ++ c) d
        (omega arith) (omega arith))

  -- A buffer that a call of `push` can leave.
  abbrev pub IsRest : List ℕ → Type 0
  IsRest b = (g : ℕ) → drain order cap parse g b ≡ (ok [], b)

  push-IsSettled : (b c : List ℕ) → IsSettled order cap parse (push order cap parse b c)
  unfolding push
  push-IsSettled b c = drain-IsSettled order cap parse _ (b ++ c) (omega arith)

  prepend_ap :
      (vs : List V) (p q : Outcome FrameError (List V) × List ℕ)
      → p.0 ≡ q.0
      → (prepend vs p).0 ≡ (prepend vs q).0
  prepend_ap vs (ok ws, b) (ok us, c) h = ground arith
  prepend_ap vs (err e, b) (err d, c) h = h
  prepend_ap vs (ok ws, b) (err d, c) h = cc
  prepend_ap vs (err e, b) (ok us, c) h = cc

  after-push :
      (chunks : List (List ℕ)) (c : List ℕ) (r : Outcome FrameError (List V) × List ℕ)
      → IsSettled order cap parse r
      → ((b : List ℕ) → IsRest b → (feed order cap parse b chunks).0 ≡ (push order cap parse b c).0)
      → (continue r (λ rest. feed order cap parse rest chunks)).0 ≡ (resume order cap parse r c).0
  after-push chunks c (ok vs, rest) s ih = prepend_ap vs _ _ (ih rest s)
  after-push chunks c (err e, rest) s ih = refl

  -- From a buffer with no whole frame, however a stream is cut into chunks, the calls of `push`
  -- for them return together what one call for the whole stream returns, or one of them throws
  -- what that call throws.
  pub feed-push :
      (chunks : List (List ℕ)) (b : List ℕ)
      → IsRest b
      → (feed order cap parse b chunks).0 ≡ (push order cap parse b (concat chunks)).0
  unfolding feed push
  feed-push [] b h =
      rw (append-nil b)
        (ap (λ (r : Outcome FrameError (List V) × List ℕ). r.0) (sym (h (length b))))
  feed-push (c ∷ cs) b h =
      rw (push-append b c (concat cs))
        (after-push cs (concat cs) (push order cap parse b c) (push-IsSettled b c) (feed-push cs))
