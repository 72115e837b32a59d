-- ===== src/Base/Throws.antt =====
-- What a call that may throw leaves behind, and actions that also change a state.
use mathlib.Core.Path.{◌≡◌, refl}
use mathlib.Core.Logic.{◌⊎◌, inl, inr}

pub data Outcome {ℓ κ} (E : Type κ) (A : Type ℓ) : Type (ℓ ⊔ κ) where
  ok : A → Outcome E A
  err : E → Outcome E A

module _ {ℓ κ} {E : Type κ} {A : Type ℓ} where
  pub Outcome-cases : (r : Outcome E A) → ((a : A) × (r ≡ ok a)) ⊎ ((e : E) × (r ≡ err e))
  Outcome-cases (ok a) = inl (a, refl)
  Outcome-cases (err e) = inr (e, refl)

-- An asynchronous call: it runs on the state that it meets, to its end.
abbrev pub Act : Type 0 → Type 0 → Type 0 → Type 0
Act E S A = S → Outcome E A × S

module _ {E S A B : Type 0} where
  abbrev pub and_then : Outcome E A × S → (A → Act E S B) → Outcome E B × S
  and_then (ok a, s) next = next a s
  and_then (err e, s) next = (err e, s)

  infixl 5 ◌>>=◌
  unfoldable pub ◌>>=◌ : Act E S A → (A → Act E S B) → Act E S B
  ◌>>=◌ m next s = and_then (m s) next

module _ {E S A : Type 0} where
  -- `catch`
  abbrev pub or_handle : Outcome E A × S → (E → Act E S A) → Outcome E A × S
  or_handle (ok a, s) handler = (ok a, s)
  or_handle (err e, s) handler = handler e s

  abbrev pub return : A → Act E S A
  return a s = (ok a, s)

-- An action that leads from states with `P` to states with `Q`, whether it returns or throws.
pub record Leads {E S A : Type 0} (P Q : S → Type 0) (m : Act E S A) : Type 0 where
  pub apply : (s : S) → P s → Q (m s).1

and_then-Leads :
    {E S A B : Type 0} (P Q : S → Type 0) (m : Outcome E A × S) (next : A → Act E S B)
    → P m.1
    → ((s : S) → P s → Q s)
    → ((a : A) → Leads P Q (next a))
    → Q (and_then m next).1
and_then-Leads P Q (ok a, s) next h weaken rest = (rest a).apply s h
and_then-Leads P Q (err e, s) next h weaken rest = weaken s h

pub >>=-Leads :
    {E S A B : Type 0} {P Q R : S → Type 0} {m : Act E S A} {next : A → Act E S B}
    → Leads P Q m
    → ((s : S) → Q s → R s)
    → ((a : A) → Leads Q R (next a))
    → Leads P R (m >>= next)
unfolding ◌>>=◌
>>=-Leads {Q} {R} {m} {next} first weaken rest = record {
  apply = λ s h. and_then-Leads Q R (m s) next (first.apply s h) weaken rest;
}
