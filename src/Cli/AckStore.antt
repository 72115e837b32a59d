-- ===== src/Cli/AckStore.antt =====
-- cli-connectors/framework/src/util/ack-store.ts. The store is the object that `load` reads, an
-- entry for each key; a file that cannot be read is the empty store. `key` is `ackKey`.
pub mod Rounds
use vguardrail.Base.{
  ℕ, ◌+◌, ◌-◌, String, Bool, true, false, not, Option, none, some, List, [], ◌∷◌, keep, any, leb,
  if◌then◌else◌,
}
use vguardrail.Base.Text.{str_eq}

abbrev pub Store : Type 0
Store = List (String × ℕ)

abbrev pub ack_window_ms : ℕ
ack_window_ms = 60_000

-- Entries that have not expired: `now - ts > ACK_WINDOW_MS` deletes one.
unfoldable pub prune : ℕ → ℕ → Store → Store
prune window now store = keep (λ (e : String × ℕ). leb now (e.1 + window)) store

-- `store[key] !== undefined`
unfoldable pub is_pending : String → Store → Bool
is_pending key store = any (λ (e : String × ℕ). str_eq e.0 key) store

-- `delete store[key]`
unfoldable pub delete : String → Store → Store
delete key store = keep (λ (e : String × ℕ). not (str_eq e.0 key)) store

-- `consumeOrRecordAck`, with the window as an argument
unfoldable pub consume_within : ℕ → String → ℕ → Store → Bool × Store
unfolding prune is_pending delete
consume_within window key now store =
    let fresh = prune window now store in
    if is_pending key fresh then (true, delete key fresh) else (false, (key, now) ∷ fresh)

-- `consumeOrRecordAck`
unfoldable pub consume_or_record_ack : String → ℕ → Store → Bool × Store
unfolding consume_within
consume_or_record_ack = consume_within ack_window_ms
