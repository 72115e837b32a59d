-- ===== src/Correlation/Later.antt =====
-- What can become of a promise in the course of any number of moves.
use vguardrail.Base.{
  ◌≡◌, refl, ap, ◌∙◌, String, true, false, List, [], ◌∷◌, if◌then◌else◌, Bool-cases, inl, inr,
  arith, ◌≤◌,
}
use vguardrail.Base.Text.{str_eq, eq_refl}
use vguardrail.Correlation.{Book, named, awaits, refuse, enter, settle, settle_all}
use vguardrail.Correlation.Balance.{
  IsBalanced, refuse-IsBalanced, enter-IsBalanced, settle-IsBalanced, settle_all-IsBalanced, count,
  count_unnamed, count-named, keys,
}
use vguardrail.Correlation.Moves.{
  Status, unknown, waits, done, status, find, Moves, stays, starts, refused, finishes, refuse-Moves,
  enter-Moves, settle-Moves, settle_all-Moves, status-settle_all, status-settle,
}

-- A promise that is settled keeps its value, and one that waits does not vanish.
abbrev pub Later : {R : Type 0} → Status R → Status R → Type 0
Later unknown y = Unit
Later waits unknown = ⊥
Later waits y = Unit
Later (done r) y = y ≡ done r

module _ {R : Type 0} where
  pub Later-refl : (x : Status R) → Later x x
  Later-refl unknown = tt
  Later-refl waits = tt
  Later-refl (done r) = refl

  pub Later-trans : (x y z : Status R) → Later x y → Later y z → Later x z
  Later-trans unknown y z h g = tt
  Later-trans waits unknown z h g = absurd h
  Later-trans waits waits z h g = g
  Later-trans waits (done r) unknown h g = absurd (cc)
  Later-trans waits (done r) waits h g = tt
  Later-trans waits (done r) (done q) h g = tt
  Later-trans (done r) unknown z h g = absurd (cc)
  Later-trans (done r) waits z h g = absurd (cc)
  Later-trans (done r) (done q) z h g = g ∙ h

  pub Later-of_move : {x y : Status R} → Moves x y → Later x y
  Later-of_move {x} stays = Later-refl x
  Later-of_move starts = tt
  Later-of_move refused = tt
  Later-of_move finishes = tt

  -- From one book to a later one.
  abbrev pub Follows : Book R → Book R → Type 0
  Follows b c = (id : String) → Later (status id b) (status id c)

  pub Follows-trans : (a b c : Book R) → Follows a b → Follows b c → Follows a c
  Follows-trans a b c h g id = Later-trans (status id a) (status id b) (status id c) (h id) (g id)

  find_settled :
      (id : String) (rs : List (String × R))
      → 1 ≤ count id (keys rs)
      → (r : R) × (find id rs ≡ done r)
  find_settled id [] h = absurd (omega (arith, h))
  find_settled id ((i, r) ∷ rs) h = elim (Bool-cases (str_eq i id)) [
    | inl same ↦ (r, rw same refl)
    | inr differs ↦ let (q, e) = find_settled id rs (ground (arith, differs)) in (q, rw differs e)
  ]

  -- A promise that was made and does not wait is settled.
  pub issued_done :
      (id : String) (b : Book R)
      → IsBalanced b
      → named id b.issued ≡ true
      → awaits id b ≡ false
      → (r : R) × (status id b ≡ done r)
  unfolding status
  issued_done id b balanced made absent =
      let (r, e) = find_settled id b.settled (
        omega (
          arith,
          count-named id b.issued made,
          count_unnamed id b.waiting absent,
          balanced.accounted id,
        )) in
      (r, rw absent e)

  -- What every handler owes to the book.
  pub record IsSound (b c : Book R) : Type 0 where
    pub balanced : IsBalanced b → IsBalanced c
    pub follows : IsBalanced b → Follows b c

  pub IsSound-refl : (b : Book R) → IsSound b b
  IsSound-refl b = record { balanced = λ h. h; follows = λ h id. Later-refl (status id b) }

  pub IsSound-trans : (a b c : Book R) → IsSound a b → IsSound b c → IsSound a c
  IsSound-trans a b c f g = record {
    balanced = λ h. g.balanced (f.balanced h);
    follows = λ h. Follows-trans a b c (f.follows h) (g.follows (f.balanced h));
  }

  pub refuse-IsSound :
      (id : String) (r : R) (b : Book R) → named id b.issued ≡ false → IsSound b (refuse id r b)
  refuse-IsSound id r b fresh = record {
    balanced = refuse-IsBalanced id r b fresh;
    follows = λ h j. Later-of_move (refuse-Moves id r b fresh h j);
  }

  pub enter-IsSound :
      (id : String) (b : Book R) → named id b.issued ≡ false → IsSound b (enter id b)
  enter-IsSound id b fresh = record {
    balanced = enter-IsBalanced id b fresh;
    follows = λ h j. Later-of_move (enter-Moves id b fresh h j);
  }

  pub settle-IsSound : (id : String) (r : R) (b : Book R) → IsSound b (settle id r b)
  settle-IsSound id r b = record {
    balanced = settle-IsBalanced id r b;
    follows = λ h j. Later-of_move (settle-Moves id r b j);
  }

  pub settle_all-IsSound : (answer : String → R) (b : Book R) → IsSound b (settle_all answer b)
  settle_all-IsSound answer b = record {
    balanced = settle_all-IsBalanced answer b;
    follows = λ h j. Later-of_move (settle_all-Moves answer b j);
  }

  -- Once all are settled, so is each promise that was made.
  pub settle_all_done :
      (answer : String → R) (b : Book R) (id : String)
      → IsBalanced b
      → named id b.issued ≡ true
      → (r : R) × (status id (settle_all answer b) ≡ done r)
  settle_all_done answer b id balanced made = elim (Bool-cases (awaits id b)) [
    | inl there ↦ (
      answer id,
      status-settle_all answer b id ∙ ap (λ w. if w then done (answer id) else status id b) there,
    )
    | inr absent ↦
        let (r, e) = issued_done id b balanced made absent in
        (
          r,
          status-settle_all answer b id
              ∙ ap (λ w. if w then done (answer id) else status id b) absent
              ∙ e,
        )
  ]

  -- A promise that was made is settled once its own settling was called.
  pub settle_done :
      (id : String) (q : R) (b : Book R)
      → IsBalanced b
      → named id b.issued ≡ true
      → (r : R) × (status id (settle id q b) ≡ done r)
  settle_done id q b balanced made = elim (Bool-cases (awaits id b)) [
    | inl there ↦ (
      q,
      status-settle id q b id
          ∙ ap (λ w. if w then (if str_eq id id then done q else status id b) else status id b)
              there
          ∙ ap (λ w. if w then done q else status id b) (eq_refl id),
    )
    | inr absent ↦
        let (r, e) = issued_done id b balanced made absent in
        (
          r,
          status-settle id q b id
              ∙ ap (λ w. if w then (if str_eq id id then done q else status id b) else status id b)
                  absent
              ∙ e,
        )
  ]
