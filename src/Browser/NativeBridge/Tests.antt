-- ===== src/Browser/NativeBridge/Tests.antt =====
-- A bridge with one request that waits.
use vguardrail.Base.{◌≡◌, refl, String, true, All}
use vguardrail.Correlation.{named, enter}
use vguardrail.Correlation.Balance.{IsBalanced}
use vguardrail.Correlation.Moves.{done, status}
use vguardrail.Correlation.Later.{Later}
use vguardrail.Browser.NativeBridge.{
  NativeResponse, response_id, NativeBridge, new_bridge, ensure_port, post, request_on, request,
  on_timeout, on_disconnect,
}
use vguardrail.Browser.NativeBridge.Answers.{
  Reach, here, next, requests, times_out, reached_answers, reached_settles,
}

abbrev waiting : NativeBridge
waiting = request true true "a" new_bridge

one_request : Reach new_bridge waiting
one_request = next here (requests true true "a" refl)

reached_answers_example :
    IsBalanced waiting.book
    × All (λ (e : String × NativeResponse). response_id e.1 ≡ e.0) waiting.book.settled
    × ((id : String) → Later (status id waiting.book) (status id (on_timeout "a" waiting).book))
reached_answers_example = reached_answers one_request (next here (times_out "a"))

waiting_a : named "a" waiting.book.issued ≡ true
unfolding request request_on ensure_port post enter
waiting_a = refl

reached_settles_example :
    ((r : NativeResponse) × (status "a" (on_timeout "a" waiting).book ≡ done r))
    × ((r : NativeResponse) × (status "a" (on_disconnect waiting).book ≡ done r))
reached_settles_example = reached_settles one_request "a" waiting_a
