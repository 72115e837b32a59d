-- ===== src/Cli/Line/Typing.antt =====
-- What the reconstructor makes of plain typing.
use vguardrail.Base.{
  ◌≡◌, refl, ap, ◌∙◌, sym, ℕ, zero, suc, ◌≤◌, false, List, [], ◌∷◌, ◌++◌, append_assoc, append-nil,
  ltb, ◌==◌, length, All, arith,
}
use vguardrail.Cli.Line.{Line, turn, turn_at, follow, go, typed, push_from, push}

-- A character that is put into the line: no control character, no DEL.
abbrev pub IsPlain : ℕ → Type 0
IsPlain c = (0x20 ≤ c) × ((c == 0x7f) ≡ false)

abbrev with_text : Line → List ℕ → Line
with_text l t = record l { buffer = l.buffer ++ t }

typed_plain : (l : Line) (c : ℕ) → IsPlain c → typed c l ≡ with_text l (c ∷ [])
unfolding typed
typed_plain l c (low, del) =
    let a : (c == 0x08) ≡ false = ground arith in
    let b : (c == 0x15) ≡ false = ground arith in
    let d : (c == 0x17) ≡ false = ground arith in
    let e : ltb c 0x20 ≡ false = ground arith in rw (a, del, b, d, e) refl

turn_at_plain :
    (l : Line) (c : ℕ) (r : List ℕ)
    → IsPlain c
    → turn_at false l c r ≡ go (with_text l (c ∷ [])) [] r
unfolding turn_at
turn_at_plain l c r (low, del) =
    let a : (c == 0x1b) ≡ false = ground arith in
    let b : (c == 0x0d) ≡ false = ground arith in
    let d : (c == 0x0a) ≡ false = ground arith in rw (a, b, d, typed_plain l c (low, del)) refl

turn_plain :
    (l : Line) (c : ℕ) (r : List ℕ)
    → l.pasting ≡ false
    → IsPlain c
    → turn l c r ≡ go (with_text l (c ∷ [])) [] r
unfolding turn
turn_plain l c r idle plain = ap (λ b. turn_at b l c r) idle ∙ turn_at_plain l c r plain

push_from_plain :
    (fuel : ℕ) (l : Line) (t : List ℕ)
    → length t ≤ fuel
    → l.pasting ≡ false
    → All IsPlain t
    → push_from fuel l t ≡ (with_text l t, [])
unfolding push_from
push_from_plain zero l [] fits idle plain =
    ap (λ b. (record l { buffer = b }, [])) (sym (append-nil l.buffer))
push_from_plain (suc f) l [] fits idle plain =
    ap (λ b. (record l { buffer = b }, [])) (sym (append-nil l.buffer))
push_from_plain zero l (c ∷ t) fits idle plain = absurd (omega arith)
push_from_plain (suc f) l (c ∷ t) fits idle (p, plain) =
    ap (follow (push_from f)) (turn_plain l c t idle p)
    ∙ push_from_plain f (with_text l (c ∷ [])) t (omega arith) idle plain
    ∙ ap (λ b. (record l { buffer = b }, [])) (append_assoc l.buffer (c ∷ []) t)

-- Plain characters are put at the end of the line, and submit nothing.
pub push_plain :
    (l : Line) (t : List ℕ)
    → l.pasting ≡ false
    → l.pending ≡ []
    → All IsPlain t
    → push l t ≡ (record l { buffer = l.buffer ++ t; pending = [] }, [])
unfolding push
push_plain l t idle clean plain =
    ap (λ p. push_from (length (p ++ t)) (record l { pending = [] }) (p ++ t)) clean
    ∙ push_from_plain (length t) (record l { pending = [] }) t (omega arith) idle plain

-- Enter submits the line as it stands, and starts a new one.
pub push_enter :
    (l : Line)
    → l.pasting ≡ false
    → l.pending ≡ []
    → push l (0x0d ∷ []) ≡ (
      record l { buffer = []; dirty = false; pending = [] },
      record { text = l.buffer; dirty = l.dirty } ∷ [],
    )
unfolding push push_from turn turn_at follow
push_enter l idle clean =
    ap (λ p. push_from (length (p ++ (0x0d ∷ []))) (record l { pending = [] }) (p ++ (0x0d ∷ [])))
      clean
    ∙ ap (λ b. follow (push_from 0) (turn_at b (record l { pending = [] }) 0x0d [])) idle
