-- ===== src/Frame/Loop.antt =====
-- The loop of `push`, a round at a time, and on a buffer that grows.
use vguardrail.Base.{
  ℕ, zero, suc, ◌+◌, ◌≤◌, ◌<◌, dec_lt, ◌≡◌, refl, sym, ap, subst, ◌∙◌, Option, none, some, List, [],
  ◌∷◌, ◌++◌, length, take, drop, take-append_of_le, drop-append_of_le, length-append, length-drop,
  Option-cases, inl, inr, Outcome, ok, err, arith,
}
use vguardrail.Frame.{
  ByteOrder, big, little, read_u32, FrameError, incoming_too_long, not_json, prepend, drain, push,
}

read_u32-append :
    (order : ByteOrder) (b c : List ℕ) → 4 ≤ length b → read_u32 order (b ++ c) ≡ read_u32 order b
unfolding read_u32
read_u32-append big (x ∷ y ∷ z ∷ w ∷ b) c h = refl
read_u32-append little (x ∷ y ∷ z ∷ w ∷ b) c h = refl
read_u32-append _ [] c h = absurd (omega arith)
read_u32-append _ (x ∷ []) c h = absurd (omega arith)
read_u32-append _ (x ∷ y ∷ []) c h = absurd (omega arith)
read_u32-append _ (x ∷ y ∷ z ∷ []) c h = absurd (omega arith)

module _ {V : Type 0} (order : ByteOrder) (cap : ℕ) (parse : List ℕ → Option V) where
  drain-fuel :
      (f g : ℕ) (b : List ℕ)
      → length b ≤ f
      → length b ≤ g
      → drain order cap parse f b ≡ drain order cap parse g b
  unfolding drain
  drain-fuel zero zero b p q = refl
  drain-fuel zero (suc g) [] p q = refl
  drain-fuel zero (suc g) (x ∷ b) p q = absurd (omega arith)
  drain-fuel (suc f) zero [] p q = refl
  drain-fuel (suc f) zero (x ∷ b) p q = absurd (omega arith)
  drain-fuel (suc f) (suc g) b p q =
      ground (
        arith,
        drain-fuel f g (drop (4 + read_u32 order b) b),
        length-drop (4 + read_u32 order b) b,
      )

  -- A run of the loop goes on when more bytes arrive.
  abbrev pub resume :
      Outcome FrameError (List V) × List ℕ → List ℕ → Outcome FrameError (List V) × List ℕ
  resume (ok vs, rest) c = prepend vs (push order cap parse rest c)
  resume (err e, rest) c = (err e, rest ++ c)

  prepend-nil : (r : Outcome FrameError (List V) × List ℕ) → prepend [] r ≡ r
  prepend-nil (ok vs, b) = refl
  prepend-nil (err e, b) = refl

  prepend-prepend :
      (v : V) (vs : List V) (r : Outcome FrameError (List V) × List ℕ)
      → prepend (v ∷ []) (prepend vs r) ≡ prepend (v ∷ vs) r
  prepend-prepend v vs (ok ws, b) = refl
  prepend-prepend v vs (err e, b) = refl

  resume-prepend :
      (v : V) (r : Outcome FrameError (List V) × List ℕ) (c : List ℕ)
      → resume (prepend (v ∷ []) r) c ≡ prepend (v ∷ []) (resume r c)
  resume-prepend v (ok ws, b) c = sym (prepend-prepend v ws _)
  resume-prepend v (err e, b) c = refl

  waiting :
      (f : ℕ) (b c : List ℕ) (g : ℕ)
      → drain order cap parse (suc f) b ≡ (ok [], b)
      → length (b ++ c) ≤ g
      → drain order cap parse g (b ++ c) ≡ resume (drain order cap parse (suc f) b) c
  unfolding push
  waiting f b c g e q =
      rw e (drain-fuel g (length (b ++ c)) (b ++ c) q (omega arith) ∙ sym (prepend-nil _))

  step_short : (f : ℕ) (b : List ℕ) → length b < 4 → drain order cap parse (suc f) b ≡ (ok [], b)
  unfolding drain
  step_short f b h = ground arith

  -- One round of the loop on a buffer that holds a header.
  module _ (b : List ℕ) (n : ℕ) (size : read_u32 order b ≡ n) (long : 4 ≤ length b) where
    step_over : (f : ℕ) → cap < n → drain order cap parse (suc f) b ≡ (err incoming_too_long, b)
    unfolding drain
    step_over f h = ground arith

    module _ (fits : n ≤ cap) where
      step_partial : (f : ℕ) → length b < 4 + n → drain order cap parse (suc f) b ≡ (ok [], b)
      unfolding drain
      step_partial f h = ground arith

      module _ (whole : 4 + n ≤ length b) where
        step_bad :
            (f : ℕ)
            → parse (take n (drop 4 b)) ≡ none
            → drain order cap parse (suc f) b ≡ (err not_json, drop (4 + n) b)
        unfolding drain
        step_bad f h = ground arith

        pub step_frame :
            (f : ℕ) (v : V)
            → parse (take n (drop 4 b)) ≡ some v
            → drain order cap parse (suc f) b
              ≡ prepend (v ∷ []) (drain order cap parse f (drop (4 + n) b))
        unfolding drain
        step_frame f v h = ground arith

  body-append :
      (b c : List ℕ) (n : ℕ) → 4 + n ≤ length b → take n (drop 4 (b ++ c)) ≡ take n (drop 4 b)
  body-append b c n h =
      rw (drop-append_of_le 4 b c (omega arith))
        (take-append_of_le n (drop 4 b) c (omega (arith, length-drop 4 b)))

  -- The same round on a longer buffer, where the shorter one holds a whole frame; `deeper` is what
  -- is known of the rounds after it.
  framed :
      (f g : ℕ) (b c : List ℕ) (n : ℕ)
      → read_u32 order b ≡ n
      → n ≤ cap
      → 4 + n ≤ length b
      → drain order cap parse g (drop (4 + n) b ++ c)
        ≡ resume (drain order cap parse f (drop (4 + n) b)) c
      → drain order cap parse (suc g) (b ++ c) ≡ resume (drain order cap parse (suc f) b) c
  framed f g b c n size fits whole deeper =
      let same : read_u32 order (b ++ c) ≡ n = read_u32-append order b c (omega arith) ∙ size in
      let long : 4 + n ≤ length (b ++ c) = omega (arith, length-append b c) in
      elim (Option-cases (parse (take n (drop 4 b)))) [
        | inl bad ↦ rw (step_bad b n size (omega arith) fits whole f bad) (
            step_bad (b ++ c) n same (omega arith) fits long g
              (ap parse (body-append b c n whole) ∙ bad)
            ∙ ap (λ t. (err not_json, t)) (drop-append_of_le (4 + n) b c whole))
        | inr (v, good) ↦ rw (step_frame b n size (omega arith) fits whole f v good) (
            step_frame (b ++ c) n same (omega arith) fits long g v
              (ap parse (body-append b c n whole) ∙ good)
            ∙ ap (λ t. prepend (v ∷ []) (drain order cap parse g t))
                (drop-append_of_le (4 + n) b c whole)
            ∙ ap (prepend (v ∷ [])) deeper
            ∙ sym (resume-prepend v _ c))
      ]

  -- What the loop does on a longer buffer is what it does on the shorter one, and then goes on.
  pub drain-append :
      (f g : ℕ) (b c : List ℕ)
      → length b ≤ f
      → length (b ++ c) ≤ g
      → drain order cap parse g (b ++ c) ≡ resume (drain order cap parse f b) c
  unfolding push drain
  drain-append zero g [] c p q = drain-fuel g (length c) c q (omega arith) ∙ sym (prepend-nil _)
  drain-append zero g (x ∷ b) c p q = absurd (omega arith)
  drain-append (suc f) zero [] c p q = waiting f [] c 0 (step_short f [] (omega arith)) q
  drain-append (suc f) zero (x ∷ b) c p q = absurd (omega arith)
  drain-append (suc f) (suc g) b c p q = elim (dec_lt (length b) 4) [
    | yes short ↦ waiting f b c (suc g) (step_short f b short) q
    | no long ↦
        let n = read_u32 order b in
        elim (dec_lt cap n) [
          | yes over ↦ rw (step_over b n refl (omega arith) f over) (
              step_over (b ++ c) n (read_u32-append order b c (omega arith))
                (omega (arith, length-append b c)) g over)
          | no fits ↦ elim (dec_lt (length b) (4 + n)) [
            | yes part ↦
                waiting f b c (suc g) (step_partial b n refl (omega arith) (omega arith) f part) q
            | no whole ↦ framed f g b c n refl (omega arith) (omega arith) (
                drain-append f g (drop (4 + n) b) c (omega (arith, length-drop (4 + n) b)) (
                  omega (
                    arith,
                    length-drop (4 + n) b,
                    length-append b c,
                    length-append (drop (4 + n) b) c,
                  )))
          ]
        ]
  ]

  -- The buffer that a run leaves holds no whole frame.
  abbrev pub IsSettled : Outcome FrameError (List V) × List ℕ → Type 0
  IsSettled (ok vs, r) = (g : ℕ) → drain order cap parse g r ≡ (ok [], r)
  IsSettled (err e, r) = Unit

  prepend-IsSettled :
      (v : V) (r : Outcome FrameError (List V) × List ℕ)
      → IsSettled r
      → IsSettled (prepend (v ∷ []) r)
  prepend-IsSettled v (ok ws, b) h = h
  prepend-IsSettled v (err e, b) h = tt

  pub drain-empty : (g : ℕ) → drain order cap parse g [] ≡ (ok [], [])
  unfolding drain
  drain-empty zero = refl
  drain-empty (suc g) = refl

  stopped-IsSettled :
      (f : ℕ) (b : List ℕ)
      → ((g : ℕ) → drain order cap parse (suc g) b ≡ (ok [], b))
      → IsSettled (drain order cap parse (suc f) b)
  unfolding drain
  stopped-IsSettled f b h = subst IsSettled (sym (h f)) (elim [ zero ↦ refl | suc g ↦ h g ])

  pub drain-IsSettled : (f : ℕ) (b : List ℕ) → length b ≤ f → IsSettled (drain order cap parse f b)
  drain-IsSettled zero [] p = subst IsSettled (sym (drain-empty 0)) drain-empty
  drain-IsSettled zero (x ∷ b) p = absurd (omega arith)
  drain-IsSettled (suc f) b p = elim (dec_lt (length b) 4) [
    | yes short ↦ stopped-IsSettled f b (λ g. step_short g b short)
    | no long ↦
        let n = read_u32 order b in
        elim (dec_lt cap n) [
          | yes over ↦ rw (step_over b n refl (omega arith) f over) tt
          | no fits ↦ elim (dec_lt (length b) (4 + n)) [
            | yes part ↦
                stopped-IsSettled f b
                  (λ g. step_partial b n refl (omega arith) (omega arith) g part)
            | no whole ↦ elim (Option-cases (parse (take n (drop 4 b)))) [
              | inl bad ↦ rw (step_bad b n refl (omega arith) (omega arith) (omega arith) f bad) tt
              | inr (v, good) ↦
                  rw (step_frame b n refl (omega arith) (omega arith) (omega arith) f v good) (
                    prepend-IsSettled v _
                      (drain-IsSettled f (drop (4 + n) b) (omega (arith, length-drop (4 + n) b))))
            ]
          ]
        ]
  ]
