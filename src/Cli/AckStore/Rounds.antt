-- ===== src/Cli/AckStore/Rounds.antt =====
-- The rounds of the protocol in which a line is submitted again.
use vguardrail.Base.{
  ◌≡◌, refl, sym, subst, ap, ◌≤◌, ◌<◌, inl, inr, ℕ, ◌+◌, String, Bool, true, false, [], ◌∷◌, any,
  Bool-cases, arith,
}
use vguardrail.Base.Text.{str_eq, eq_refl}
use vguardrail.Cli.AckStore.{
  Store, ack_window_ms, prune, is_pending, delete, consume_within, consume_or_record_ack,
}

is_pending-delete : (key : String) (store : Store) → is_pending key (delete key store) ≡ false
unfolding is_pending delete
is_pending-delete key [] = refl
is_pending-delete key ((k, t) ∷ store) = ground (arith, is_pending-delete key store)

-- Deleting what has expired makes nothing pending.
is_pending-prune :
    (window now : ℕ) (key : String) (store : Store)
    → is_pending key store ≡ false
    → is_pending key (prune window now store) ≡ false
unfolding is_pending prune
is_pending-prune window now key [] h = refl
is_pending-prune window now key ((k, t) ∷ store) h =
    let rest : any (λ (e : String × ℕ). str_eq e.0 key) store ≡ false = ground arith in
    ground (arith, is_pending-prune window now key store rest)

module _ (window : ℕ) (key : String) where
  consume_pending :
      (now : ℕ) (store : Store)
      → is_pending key (prune window now store) ≡ true
      → consume_within window key now store ≡ (true, delete key (prune window now store))
  unfolding consume_within
  consume_pending now store h = rw h refl

  consume_new :
      (now : ℕ) (store : Store)
      → is_pending key (prune window now store) ≡ false
      → consume_within window key now store ≡ (false, (key, now) ∷ prune window now store)
  unfolding consume_within
  consume_new now store h = rw h refl

  not_pending :
      (now : ℕ) (store : Store)
      → (consume_within window key now store).0 ≡ false
      → is_pending key (prune window now store) ≡ false
  unfolding consume_within
  not_pending now store = elim (Bool-cases (is_pending key (prune window now store))) [
    | inl there ↦ rw there (λ h. absurd (ground arith))
    | inr absent ↦ λ h. absent
  ]

  -- The store after a first submission at `now`.
  abbrev after : ℕ → Store → Store
  after now store = (consume_within window key now store).1

  resubmit_pending :
      (now later : ℕ) (fresh : Store)
      → later ≤ now + window
      → is_pending key (prune window later ((key, now) ∷ fresh)) ≡ true
  unfolding is_pending prune
  resubmit_pending now later fresh h = ground (arith, eq_refl key)

  too_late :
      (now later : ℕ) (fresh : Store)
      → is_pending key fresh ≡ false
      → now + window < later
      → is_pending key (prune window later ((key, now) ∷ fresh)) ≡ false
  unfolding is_pending prune
  too_late now later fresh h lt = ground (arith, is_pending-prune window later key fresh h)

  -- What happens to a line that stands in the store since `now`.
  Remembered : ℕ → Store → Type 0
  Remembered now pending =
      ((later : ℕ)
        → later ≤ now + window
        → ((consume_within window key later pending).0 ≡ true)
          × ((again : ℕ) → (consume_within window key again (after later pending)).0 ≡ false))
      × ((later : ℕ) → now + window < later → (consume_within window key later pending).0 ≡ false)

  used :
      (later : ℕ) (pending : Store)
      → is_pending key (prune window later pending) ≡ true
      → ((consume_within window key later pending).0 ≡ true)
        × ((again : ℕ) → (consume_within window key again (after later pending)).0 ≡ false)
  used later pending there =
      let taken = consume_pending later pending there in
      (
        ap (λ (r : Bool × Store). r.0) taken,
        λ again.
            subst (λ (r : Bool × Store). (consume_within window key again r.1).0 ≡ false)
              (sym taken)
              (ap (λ (r : Bool × Store). r.0)
                (consume_new again _
                  (is_pending-prune window again key _ (is_pending-delete key _)))),
      )

  pending-Remembered :
      (now : ℕ) (fresh : Store) → is_pending key fresh ≡ false → Remembered now ((key, now) ∷ fresh)
  unfolding Remembered
  pending-Remembered now fresh absent = (
    λ later in_time. used later _ (resubmit_pending now later fresh in_time),
    λ later lt.
        ap (λ (r : Bool × Store). r.0) (consume_new later _ (too_late now later fresh absent lt)),
  )

  consume-Remembered :
      (now : ℕ) (store : Store)
      → (consume_within window key now store).0 ≡ false
      → Remembered now (after now store)
  consume-Remembered now store first =
      let absent = not_pending now store first in
      subst (λ (r : Bool × Store). Remembered now r.1) (sym (consume_new now store absent))
        (pending-Remembered now (prune window now store) absent)

-- A line whose submission is not acknowledged is remembered: submitted again within the window,
-- with no other line between, it is taken as acknowledged, and the submission after that one is
-- not; after the window it is not.
pub consume_or_record_ack_lem :
    (key : String) (now : ℕ) (store : Store)
    → (consume_or_record_ack key now store).0 ≡ false
    → ((later : ℕ)
        → later ≤ now + ack_window_ms
        → ((consume_or_record_ack key later (consume_or_record_ack key now store).1).0 ≡ true)
          × ((again : ℕ)
              → (consume_or_record_ack key again
                  (consume_or_record_ack key later (consume_or_record_ack key now store).1).1).0
                ≡ false))
      × ((later : ℕ)
          → now + ack_window_ms < later
          → (consume_or_record_ack key later (consume_or_record_ack key now store).1).0 ≡ false)
unfolding consume_or_record_ack Remembered
consume_or_record_ack_lem key now store first = consume-Remembered ack_window_ms key now store first
