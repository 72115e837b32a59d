-- ===== src/Correlation/Balance.antt =====
-- Each request waits or is settled, and not both.
use vguardrail.Base.{
  ℕ, ◌+◌, ◌≤◌, ◌≡◌, refl, String, true, false, not, List, [], ◌∷◌, ◌++◌, map, keep, if◌then◌else◌,
  Bool-cases, inl, inr, subst, arith,
}
use vguardrail.Base.Text.{str_eq, eq_refl, eq_iff}
use vguardrail.Correlation.{Book, named, empty_book, awaits, refuse, enter, settle, settle_all}

-- How often an id stands in a list.
abbrev pub count : String → List String → ℕ
count id [] = 0
count id (i ∷ ids) = (if str_eq i id then 1 else 0) + count id ids

abbrev pub keys {ℓ} : {R : Type ℓ} → List (String × R) → List String
keys [] = []
keys ((i, r) ∷ rest) = i ∷ keys rest

-- No id was issued twice, and each that was is one that waits or one that is settled.
pub record IsBalanced {R : Type 0} (b : Book R) : Type 0 where
  pub once : (id : String) → count id b.issued ≤ 1
  pub accounted : (id : String) → count id b.issued ≡ count id b.waiting + count id (keys b.settled)

count-append : (id : String) (xs ys : List String) → count id (xs ++ ys) ≡ count id xs + count id ys
count-append id [] ys = omega arith
count-append id (x ∷ xs) ys = omega (arith, count-append id xs ys)

keys-append :
    {R : Type 0} (id : String) (xs ys : List (String × R))
    → count id (keys (xs ++ ys)) ≡ count id (keys xs) + count id (keys ys)
keys-append id [] ys = omega arith
keys-append id ((x, r) ∷ xs) ys = omega (arith, keys-append id xs ys)

keys-map :
    {R : Type 0} (id : String) (answer : String → R) (ids : List String)
    → count id (keys (map (λ i. (i, answer i)) ids)) ≡ count id ids
keys-map id answer [] = refl
keys-map id answer (i ∷ ids) = omega (arith, keys-map id answer ids)

pub count_unnamed : (id : String) (ids : List String) → named id ids ≡ false → count id ids ≡ 0
count_unnamed id [] h = refl
count_unnamed id (i ∷ ids) h =
    let rest : named id ids ≡ false = ground arith in ground (arith, count_unnamed id ids rest)

pub count-named : (id : String) (ids : List String) → named id ids ≡ true → 1 ≤ count id ids
count-named id [] h = absurd (ground arith)
count-named id (i ∷ ids) h = elim (Bool-cases (str_eq i id)) [
  | inl here ↦ ground arith
  | inr there ↦ ground (arith, count-named id ids (ground arith))
]

-- What `keep` leaves of the ids when `id` is taken out.
pub count-keep_same :
    (id : String) (ids : List String) → count id (keep (λ i. not (str_eq i id)) ids) ≡ 0
count-keep_same id [] = refl
count-keep_same id (i ∷ ids) = ground (arith, count-keep_same id ids)

distinct_ids :
    (i id other : String) → str_eq id other ≡ false → str_eq i id ≡ true → str_eq i other ≡ false
distinct_ids i id other h e = rw ((eq_iff i id).0 e) h

pub count-keep_other :
    (id other : String) (ids : List String)
    → str_eq id other ≡ false
    → count other (keep (λ i. not (str_eq i id)) ids) ≡ count other ids
count-keep_other id other [] h = refl
count-keep_other id other (i ∷ ids) h = elim (Bool-cases (str_eq i id)) [
  | inl same ↦ ground (arith, distinct_ids i id other h same, count-keep_other id other ids h)
  | inr differs ↦ ground (arith, count-keep_other id other ids h)
]

module _ {R : Type 0} where
  pub empty-IsBalanced : IsBalanced (empty_book {R = R})
  empty-IsBalanced = record { once = λ id. omega arith; accounted = λ id. refl }

  once-cons :
      (id : String) (b : Book R)
      → named id b.issued ≡ false
      → IsBalanced b
      → (j : String) → count j (id ∷ b.issued) ≤ 1
  once-cons id b fresh h j = elim (Bool-cases (str_eq id j)) [
    | inl same ↦
        let absent =
          count_unnamed j b.issued
            (subst (λ i. named i b.issued ≡ false) ((eq_iff id j).0 same) fresh) in
        ground (arith, absent)
    | inr differs ↦ ground (arith, h.once j)
  ]

  pub refuse-IsBalanced :
      (id : String) (r : R) (b : Book R)
      → named id b.issued ≡ false
      → IsBalanced b
      → IsBalanced (refuse id r b)
  unfolding refuse
  refuse-IsBalanced id r b fresh h = record {
    once = once-cons id b fresh h;
    accounted = λ j. omega (arith, h.accounted j);
  }

  pub enter-IsBalanced :
      (id : String) (b : Book R)
      → named id b.issued ≡ false
      → IsBalanced b
      → IsBalanced (enter id b)
  unfolding enter
  enter-IsBalanced id b fresh h = record {
    once = once-cons id b fresh h;
    accounted = λ j. omega (arith, h.accounted j);
  }

  -- An id that waits stands in the map once, and its promise is not settled.
  pub waiting_once :
      (id : String) (b : Book R)
      → awaits id b ≡ true
      → IsBalanced b
      → (count id b.waiting ≡ 1) × (count id (keys b.settled) ≡ 0)
  waiting_once id b h balanced =
      let there = count-named id b.waiting h in
      let once = balanced.once id in
      let sum = balanced.accounted id in
      (omega (arith, there, once, sum), omega (arith, there, once, sum))

  taken_out :
      (id : String) (b : Book R) (j : String)
      → awaits id b ≡ true
      → IsBalanced b
      → count j b.issued
        ≡ count j (keep (λ i. not (str_eq i id)) b.waiting) + count j (id ∷ keys b.settled)
  taken_out id b j h balanced = elim (Bool-cases (str_eq id j)) [
    | inl same ↦
        let e : id ≡ j = (eq_iff id j).0 same in
        subst
          (λ k.
            count k b.issued
            ≡ count k (keep (λ i. not (str_eq i id)) b.waiting) + count k (id ∷ keys b.settled))
          e
          (let there = waiting_once id b h balanced in
            ground
              (arith, eq_refl id, there.0, count-keep_same id b.waiting, balanced.accounted id))
    | inr differs ↦ ground (arith, count-keep_other id j b.waiting differs, balanced.accounted j)
  ]

  pub settle-IsBalanced :
      (id : String) (r : R) (b : Book R) → IsBalanced b → IsBalanced (settle id r b)
  unfolding settle
  settle-IsBalanced id r b h = elim (Bool-cases (awaits id b)) [
    | inl there ↦ rw there (record { once = h.once; accounted = λ j. taken_out id b j there h })
    | inr absent ↦ rw absent h
  ]

  pub settle_all-IsBalanced :
      (answer : String → R) (b : Book R) → IsBalanced b → IsBalanced (settle_all answer b)
  unfolding settle_all
  settle_all-IsBalanced answer b h = record {
    once = h.once;
    accounted = λ j. omega (
      arith,
      h.accounted j,
      keys-append j (map (λ i. (i, answer i)) b.waiting) b.settled,
      keys-map j answer b.waiting,
    );
  }
