-- ===== src/NativeHost/Loop/Progress/Tests.antt =====
-- A host that is asked once, and whose handler settles after the end of its input.
use vguardrail.Base.{◌≡◌, ℕ, ◌==◌, false, not, ◌&&◌, Option, some, List, [], ◌∷◌, length}
use vguardrail.Json.{Json, obj, end, field, str}
use vguardrail.NativeHost.Loop.{Host, new_host, on_data, on_end}
use vguardrail.NativeHost.Loop.Progress.{here, next, reads, ends, reached_finishes}

abbrev a_status : List ℕ → Option Json
a_status bytes = some (obj (field "id" (str "a") (field "type" (str "status") end)))

-- One frame with one byte.
abbrev asked : Host
asked = on_data a_status (1 ∷ 0 ∷ 0 ∷ 0 ∷ 7 ∷ []) new_host

reached_finishes_example :
    (((on_end asked).finished && not (on_end asked).ended) ≡ false)
    × (((on_end asked).ended
          && ((on_end asked).settled == length (on_end asked).accepted
              && not (on_end asked).finished))
        ≡ false)
reached_finishes_example =
    reached_finishes a_status (next (next here (reads (1 ∷ 0 ∷ 0 ∷ 0 ∷ 7 ∷ []))) ends)
