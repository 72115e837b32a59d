-- ===== src/Correlation.antt =====
-- Requests that wait for their replies, as connector-sdk/src/transport/xpc-bridge-transport.ts and
-- browser-connectors/chrome/extension/src/background/native-bridge.ts keep them: a promise for each
-- request, and a map from the ids of those that wait. A promise is named by its request's id; it is
-- settled once, by the language.
pub mod Balance
pub mod Moves
pub mod Later
use vguardrail.Base.{
  ℕ, ◌+◌, String, Bool, true, false, not, ◌&&◌, ◌||◌, Option, none, some, List, [], ◌∷◌, ◌++◌, map,
  keep, any, if◌then◌else◌,
}
use vguardrail.Base.Text.{str_eq}

pub record Book (R : Type 0) : Type 0 where
  pub issued : List String  -- the requests that were made
  pub waiting : List String  -- the keys of the map
  pub settled : List (String × R)  -- the promises that were resolved or rejected, the last first

abbrev pub named : String → List String → Bool
named id ids = any (λ i. str_eq i id) ids

module _ {R : Type 0} where
  abbrev pub empty_book : Book R
  empty_book = record { issued = []; waiting = []; settled = [] }

  -- `map.has(id)`
  abbrev pub awaits : String → Book R → Bool
  awaits id b = named id b.waiting

  -- A request that is settled before it waits.
  unfoldable pub refuse : String → R → Book R → Book R
  refuse id r b = record b { issued = id ∷ b.issued; settled = (id, r) ∷ b.settled }

  -- A request that waits from now on.
  unfoldable pub enter : String → Book R → Book R
  enter id b = record b { issued = id ∷ b.issued; waiting = id ∷ b.waiting }

  -- `map.delete(id)`, and its promise is settled if the map had it.
  unfoldable pub settle : String → R → Book R → Book R
  settle id r b =
      if awaits id b
      then record b {
        waiting = keep (λ i. not (str_eq i id)) b.waiting;
        settled = (id, r) ∷ b.settled;
      }
      else b

  -- The promises of all that wait are settled, and the map is cleared.
  unfoldable pub settle_all : (String → R) → Book R → Book R
  settle_all answer b = record b {
    waiting = [];
    settled = map (λ i. (i, answer i)) b.waiting ++ b.settled;
  }
