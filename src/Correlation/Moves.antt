-- ===== src/Correlation/Moves.antt =====
-- The book seen as one small machine for each request: a promise is not there yet, waits, or is
-- settled for good.
use vguardrail.Base.{
  ◌≡◌, refl, sym, ap, ◌∙◌, subst, String, true, false, not, List, [], ◌∷◌, ◌++◌, map, keep,
  if◌then◌else◌, Bool-cases, inl, inr, arith,
}
use vguardrail.Base.Text.{str_eq, eq_refl, eq_iff}
use vguardrail.Correlation.{Book, named, awaits, refuse, enter, settle, settle_all}
use vguardrail.Correlation.Balance.{count, keys, IsBalanced, count-named, count_unnamed}

pub data Status (R : Type 0) : Type 0 where
  unknown waits : Status R
  done : R → Status R

-- What may happen to a promise; in particular nothing more to one that is settled.
pub data Moves {R : Type 0} : Status R → Status R → Type 0 where
  stays : {x : Status R} → Moves x x
  starts : Moves unknown waits
  refused : {r : R} → Moves unknown (done r)
  finishes : {r : R} → Moves waits (done r)

named-keep_same :
    (id : String) (ids : List String) → named id (keep (λ i. not (str_eq i id)) ids) ≡ false
named-keep_same id [] = refl
named-keep_same id (i ∷ ids) = ground (arith, named-keep_same id ids)

not_both : (i id j : String) → str_eq id j ≡ false → str_eq i id ≡ true → str_eq i j ≡ false
not_both i id j h e = rw ((eq_iff i id).0 e) h

named-keep_other :
    (id j : String) (ids : List String)
    → str_eq id j ≡ false
    → named j (keep (λ i. not (str_eq i id)) ids) ≡ named j ids
named-keep_other id j [] h = refl
named-keep_other id j (i ∷ ids) h = elim (Bool-cases (str_eq i id)) [
  | inl same ↦ ground (arith, not_both i id j h same, named-keep_other id j ids h)
  | inr differs ↦ ground (arith, named-keep_other id j ids h)
]

module _ {R : Type 0} where
  abbrev pub find : String → List (String × R) → Status R
  find id [] = unknown
  find id ((i, r) ∷ rest) = if str_eq i id then done r else find id rest

  unfoldable pub status : String → Book R → Status R
  status id b = if awaits id b then waits else find id b.settled

  find_absent :
      (id : String) (rs : List (String × R)) → count id (keys rs) ≡ 0 → find id rs ≡ unknown
  find_absent id [] h = refl
  find_absent id ((i, r) ∷ rs) h = elim (Bool-cases (str_eq i id)) [
    | inl same ↦ absurd (ground arith)
    | inr differs ↦ rw differs (find_absent id rs (ground arith))
  ]

  fresh_absent :
      (id : String) (b : Book R) → named id b.issued ≡ false → IsBalanced b → awaits id b ≡ false
  fresh_absent id b h balanced = elim (Bool-cases (awaits id b)) [
    | inl there ↦ absurd (
        omega (
          arith,
          count-named id b.waiting there,
          count_unnamed id b.issued h,
          balanced.accounted id,
        ))
    | inr absent ↦ absent
  ]

  fresh_unknown :
      (id : String) (b : Book R) → named id b.issued ≡ false → IsBalanced b → status id b ≡ unknown
  unfolding status
  fresh_unknown id b h balanced =
      rw (fresh_absent id b h balanced) (
        find_absent id b.settled
          (omega (arith, count_unnamed id b.issued h, balanced.accounted id)))

  -- Where nothing changes for an id.
  same_status :
      (j : String) (b c : Book R)
      → awaits j c ≡ awaits j b
      → find j c.settled ≡ find j b.settled
      → Moves (status j b) (status j c)
  unfolding status
  same_status j b c e f =
      subst (λ x. Moves (status j b) x)
        (sym (
          ap (λ w. if w then waits else find j c.settled) e
          ∙ ap (λ d. if awaits j b then waits else d) f))
        stays

  at_id :
      (id j : String) (b c : Book R)
      → str_eq id j ≡ true
      → Moves (status id b) (status id c)
      → Moves (status j b) (status j c)
  at_id id j b c same m = subst (λ k. Moves (status k b) (status k c)) ((eq_iff id j).0 same) m

  refuse_at :
      (id : String) (r : R) (b : Book R)
      → named id b.issued ≡ false
      → IsBalanced b
      → Moves (status id b) (status id (refuse id r b))
  unfolding status refuse
  refuse_at id r b fresh h =
      let absent = fresh_absent id b fresh h in
      rw (fresh_unknown id b fresh h) (rw (absent, eq_refl id) refused)

  pub refuse-Moves :
      (id : String) (r : R) (b : Book R)
      → named id b.issued ≡ false
      → IsBalanced b
      → (j : String) → Moves (status j b) (status j (refuse id r b))
  unfolding refuse
  refuse-Moves id r b fresh h j = elim (Bool-cases (str_eq id j)) [
    | inl same ↦ at_id id j b (refuse id r b) same (refuse_at id r b fresh h)
    | inr differs ↦ same_status j b (refuse id r b) refl (rw differs refl)
  ]

  enter_at :
      (id : String) (b : Book R)
      → named id b.issued ≡ false
      → IsBalanced b
      → Moves (status id b) (status id (enter id b))
  unfolding status enter
  enter_at id b fresh h = rw (fresh_unknown id b fresh h) (rw (eq_refl id) starts)

  pub enter-Moves :
      (id : String) (b : Book R)
      → named id b.issued ≡ false
      → IsBalanced b
      → (j : String) → Moves (status j b) (status j (enter id b))
  unfolding enter
  enter-Moves id b fresh h j = elim (Bool-cases (str_eq id j)) [
    | inl same ↦ at_id id j b (enter id b) same (enter_at id b fresh h)
    | inr differs ↦ same_status j b (enter id b) (rw differs refl) refl
  ]

  -- The book in which the promise `id`, which waited, is settled.
  abbrev taken : String → R → Book R → Book R
  taken id r b = record b {
    waiting = keep (λ i. not (str_eq i id)) b.waiting;
    settled = (id, r) ∷ b.settled;
  }

  pub status-taken : (id : String) (r : R) (b : Book R) → status id (taken id r b) ≡ done r
  unfolding status
  status-taken id r b = rw (named-keep_same id b.waiting, eq_refl id) refl

  status_waits : (id : String) (b : Book R) → awaits id b ≡ true → status id b ≡ waits
  unfolding status
  status_waits id b h = rw h refl

  taken-Moves :
      (id : String) (r : R) (b : Book R)
      → awaits id b ≡ true
      → (j : String) → Moves (status j b) (status j (taken id r b))
  taken-Moves id r b h j = elim (Bool-cases (str_eq id j)) [
    | inl same ↦
        at_id id j b (taken id r b) same (rw (status_waits id b h, status-taken id r b) finishes)
    | inr differs ↦
        same_status j b (taken id r b) (named-keep_other id j b.waiting differs) (rw differs refl)
  ]

  pub settle-Moves :
      (id : String) (r : R) (b : Book R) (j : String)
      → Moves (status j b) (status j (settle id r b))
  unfolding settle
  settle-Moves id r b j = elim (Bool-cases (awaits id b)) [
    | inl there ↦ rw there (taken-Moves id r b there j)
    | inr absent ↦ rw absent stays
  ]

  status-taken_other :
      (id j : String) (r : R) (b : Book R)
      → str_eq id j ≡ false
      → status j (taken id r b) ≡ status j b
  unfolding status
  status-taken_other id j r b h = rw (named-keep_other id j b.waiting h, h) refl

  status-settled_taken :
      (id : String) (r : R) (b : Book R) (j : String)
      → status j (taken id r b) ≡ (if str_eq id j then done r else status j b)
  status-settled_taken id r b j = elim (Bool-cases (str_eq id j)) [
    | inl same ↦
        rw same (
          subst (λ k. status k (taken id r b) ≡ done r) ((eq_iff id j).0 same)
            (status-taken id r b))
    | inr differs ↦ rw differs (status-taken_other id j r b differs)
  ]

  -- Settling one promise settles it if it waits, and changes no other.
  pub status-settle :
      (id : String) (r : R) (b : Book R) (j : String)
      → status j (settle id r b)
        ≡ (if awaits id b then (if str_eq id j then done r else status j b) else status j b)
  unfolding settle
  status-settle id r b j = elim (Bool-cases (awaits id b)) [
    | inl there ↦ rw there (status-settled_taken id r b j)
    | inr absent ↦ rw absent refl
  ]

  find-answers :
      (answer : String → R) (j : String) (ids : List String) (rest : List (String × R))
      → find j (map (λ i. (i, answer i)) ids ++ rest)
        ≡ (if named j ids then done (answer j) else find j rest)
  find-answers answer j [] rest = refl
  find-answers answer j (i ∷ ids) rest = elim (Bool-cases (str_eq i j)) [
    | inl same ↦ rw (same, (eq_iff i j).0 same) refl
    | inr differs ↦ rw differs (find-answers answer j ids rest)
  ]

  -- Settling all settles each promise that waits, with its own answer, and changes no other.
  pub status-settle_all :
      (answer : String → R) (b : Book R) (j : String)
      → status j (settle_all answer b) ≡ (if awaits j b then done (answer j) else status j b)
  unfolding status settle_all
  status-settle_all answer b j = elim (Bool-cases (awaits j b)) [
    | inl there ↦ rw there (find-answers answer j b.waiting b.settled ∙ rw there refl)
    | inr absent ↦ rw absent (find-answers answer j b.waiting b.settled ∙ rw absent refl)
  ]

  pub settle_all-Moves :
      (answer : String → R) (b : Book R) (j : String)
      → Moves (status j b) (status j (settle_all answer b))
  settle_all-Moves answer b j = elim (Bool-cases (awaits j b)) [
    | inl there ↦
        subst (λ x. Moves x (status j (settle_all answer b))) (sym (status_waits j b there))
          (subst (λ y. Moves waits y) (sym (status-settle_all answer b j ∙ rw there refl))
            (finishes {r = answer j}))
    | inr absent ↦
        subst (λ y. Moves (status j b) y) (sym (status-settle_all answer b j ∙ rw absent refl))
          stays
  ]
