-- ===== src/Sdk/Bridge/Tests.antt =====
-- A transport that starts its helper and sends one request.
use vguardrail.Base.{◌≡◌, refl, ℕ, String, true, false, Option, none, some, List, [], ◌∷◌, Outcome}
use vguardrail.Json.{Json, obj, end}
use vguardrail.Frame.{encode}
use vguardrail.Correlation.{named, enter}
use vguardrail.Correlation.Balance.{IsBalanced}
use vguardrail.Correlation.Moves.{done, status}
use vguardrail.Correlation.Later.{Later}
use vguardrail.Sdk.Errors.{Thrown}
use vguardrail.Sdk.Bridge.{
  Transport, new_transport, started, ReplyEnvelope, succeeded, connect, request, send, started_from,
  connect_from, on_stdout, on_exit,
}
use vguardrail.Sdk.Bridge.Settles.{
  Reach, here, next, connects, requests, reads, by_exit, reached_final, reached_settled,
}

abbrev no_bytes : Json → List ℕ
no_bytes j = []

abbrev an_object : List ℕ → Option Json
an_object bytes = some (obj end)

abbrev answer_a : Json → Option ReplyEnvelope
answer_a j = some (succeeded "a" j)

abbrev up : Transport
up = (connect "helper" started new_transport).1

abbrev asked : Transport
asked = request no_bytes an_object answer_a "a" "scan" (obj end) false false up

one_request : Reach no_bytes an_object answer_a new_transport asked
unfolding connect
one_request =
    next (next here (connects "helper" started)) (requests "a" "scan" (obj end) false false refl)

-- The helper answers with one frame.
abbrev reply : List ℕ
reply = 0 ∷ 0 ∷ 0 ∷ 1 ∷ 7 ∷ []

abbrev answered : Transport
answered = on_stdout no_bytes an_object answer_a reply asked

reached_final_example :
    IsBalanced asked.book × ((id : String) → Later (status id asked.book) (status id answered.book))
reached_final_example =
    reached_final no_bytes an_object answer_a one_request (next here (reads reply))

asked_a : named "a" asked.book.issued ≡ true
unfolding request send connect connect_from started_from encode enter
asked_a = refl

reached_settled_example :
    (r : Outcome Thrown Json) × (status "a" (on_exit (some 1) none asked).book ≡ done r)
reached_settled_example =
    reached_settled no_bytes an_object answer_a one_request (by_exit (some 1) none) "a" asked_a
