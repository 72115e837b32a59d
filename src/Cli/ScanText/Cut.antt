-- ===== src/Cli/ScanText/Cut.antt =====
-- Cutting a text at a given length.
use vguardrail.Base.{
  ℕ, zero, suc, ap, [], ◌∷◌, leb→le, ◌+◌, ◌≤◌, ◌≡◌, refl, inl, inr, true, List, leb, length, take,
  length-take, length-append, take-append_of_le, Bool-cases, arith,
}
use vguardrail.Cli.ScanText.{cut, truncation_mark}

pub cut_short : (n : ℕ) (p : List ℕ) → length p ≤ n → cut n p ≡ p
unfolding cut
cut_short n p h = let short : leb (length p) n ≡ true = ground arith in rw short refl

pub length-cut-le : (n : ℕ) (p : List ℕ) → length (cut n p) ≤ n + length truncation_mark
unfolding cut
length-cut-le n p = elim (Bool-cases (leb (length p) n)) [
  | inl short ↦ rw short (ground arith)
  | inr long ↦ rw (long, length-append (take n p) truncation_mark, length-take n p) (omega arith)
]

pub take-take : (n : ℕ) (p : List ℕ) → take n (take n p) ≡ take n p
take-take zero p = refl
take-take (suc n) [] = refl
take-take (suc n) (x ∷ p) = ap (λ t. x ∷ t) (take-take n p)

pub take-cut : (n : ℕ) (p : List ℕ) → take n (cut n p) ≡ take n p
unfolding cut
take-cut n p = elim (Bool-cases (leb (length p) n)) [
  | inl short ↦ rw short refl
  | inr long ↦
      let enough : n ≤ length (take n p) =
        omega (arith, length-take n p, leb→le n (length p) (ground arith)) in
      rw (long, take-append_of_le n (take n p) truncation_mark enough) (take-take n p)
]
