-- ===== src/Sdk/Bridge.antt =====
-- connector-sdk/src/transport/xpc-bridge-transport.ts, with the reply envelope of
-- protocol/envelope.ts. The helper process, its pipes and the signals of the callers are events that
-- call the handlers below; JSON text and the envelope's schema are parameters.
pub mod Settles
mod Tests
use Prim.Native.String
use vguardrail.Base.{
  ℕ, ◌*◌, String, Bool, true, false, not, ◌||◌, Option, none, some, List, [], ◌∷◌, Outcome, ok, err,
  if◌then◌else◌,
}
use vguardrail.Base.Decimal.{decimal}
use vguardrail.Json.{Json, obj, field, end, num, str}
use vguardrail.Base.Number.{of_ℕ}
use vguardrail.Frame.{big, encode, push, FrameError, outgoing_too_long, incoming_too_long, not_json}
use vguardrail.Correlation.{Book, refuse, enter, settle, settle_all, empty_book}
use vguardrail.Sdk.Errors.{
  Thrown, not_connected_error, transport_error, validation_error, connector_error_from_wire,
}

-- `MAX_FRAME_BYTES`
abbrev pub max_frame_bytes : ℕ
max_frame_bytes = 8 * 1024 * 1024

-- `ReplyEnvelope`
pub data ReplyEnvelope : Type 0 where
  succeeded : String → Json → ReplyEnvelope
  failed : String → String → String → ReplyEnvelope

-- The request envelope of `request`
unfoldable pub request_envelope : String → String → Json → Json
request_envelope id method params = obj (
    field "v" (num (of_ℕ 1))
      (field "id" (str id) (field "method" (str method) (field "params" params end))))

pub record Transport : Type 0 where
  pub running : Bool  -- `child !== undefined`
  pub buffer : List ℕ  -- the decoder's
  pub book : Book (Outcome Thrown Json)
  pub written : List (List ℕ)  -- the frames written to the helper, the last first

abbrev pub new_transport : Transport
new_transport = record { running = false; buffer = []; book = empty_book; written = [] }

-- How the helper starts: `spawn` throws, the child reports an error, or it runs.
pub data Start : Type 0 where
  not_spawned not_started started : Start

-- What the frames' errors are to the callers; the lengths in their messages are left out.
unfoldable pub frame_error : FrameError → Thrown
frame_error outgoing_too_long = validation_error "frame exceeds the cap"
frame_error incoming_too_long = validation_error "frame length exceeds the cap"
frame_error not_json = validation_error "frame body is not valid JSON"

-- What a reply settles a promise with.
unfoldable pub reply_id : ReplyEnvelope → String
reply_id (succeeded id result) = id
reply_id (failed id code message) = id

unfoldable pub reply_answer : ReplyEnvelope → Outcome Thrown Json
reply_answer (succeeded id result) = ok result
reply_answer (failed id code message) = err (connector_error_from_wire code message)

-- `failAll`
unfoldable pub fail_all : Thrown → Transport → Transport
fail_all e t = record t { book = settle_all (λ id. err e) t.book }

-- `close`; the kill of a child that still runs is left out.
unfoldable pub close : Transport → Transport
unfolding fail_all
close t = fail_all (not_connected_error "transport closed") (record t { running = false })

shown_code : Option ℕ → String
shown_code none = "null"
shown_code (some c) = decimal c

shown_signal : Option String → String
shown_signal none = "null"
shown_signal (some s) = s

-- `onExit`
unfoldable pub on_exit : Option ℕ → Option String → Transport → Transport
unfolding fail_all shown_code shown_signal
on_exit code signal t =
    fail_all
      (transport_error (
        String.◌++◌ "xpc-bridge exited (code=" (
          String.◌++◌ (shown_code code)
            (String.◌++◌ ", signal=" (String.◌++◌ (shown_signal signal) ")")))))
      (record t { running = false })

-- The listener of a running child's `error`
unfoldable pub on_error : Transport → Transport
unfolding fail_all
on_error t = fail_all (transport_error "xpc-bridge errored") t

unfoldable pub started_from : String → Start → Transport → Outcome Thrown (Unit {0}) × Transport
started_from helper not_spawned t = (
  err (transport_error (String.◌++◌ "failed to spawn xpc-bridge \"" (String.◌++◌ helper "\""))),
  t,
)
started_from helper not_started t =
    (err (transport_error (String.◌++◌ "xpc-bridge failed to start: " helper)), t)
started_from helper started t = (ok tt, record t { running = true })

unfoldable pub connect_from :
    Bool → String → Start → Transport → Outcome Thrown (Unit {0}) × Transport
unfolding started_from
connect_from true helper start t = (ok tt, t)
connect_from false helper start t = started_from helper start t

-- `connect`
unfoldable pub connect : String → Start → Transport → Outcome Thrown (Unit {0}) × Transport
unfolding connect_from
connect helper start t = connect_from t.running helper start t

-- The error of a request whose signal has fired.
unfoldable pub aborted : {A : Type 0} → String → Outcome Thrown A
aborted method = err (transport_error (String.◌++◌ "request \"" (String.◌++◌ method "\" aborted")))

-- `onAbort` of a request that waits
unfoldable pub on_abort : String → String → Transport → Transport
unfolding aborted
on_abort id method t = record t { book = settle id (aborted method) t.book }

-- The callback of a write that failed
unfoldable pub on_write_error : String → String → Transport → Transport
on_write_error id method t = record t {
  book =
      settle id
        (err (transport_error (String.◌++◌ "failed to write request \"" (String.◌++◌ method "\""))))
        t.book;
}

module _ (stringify : Json → List ℕ) (parse : List ℕ → Option Json)
    (parse_reply : Json → Option ReplyEnvelope) where
  -- `request`, when its frame is encoded
  unfoldable pub send : String → String → Bool → Outcome FrameError (List ℕ) → Transport → Transport
  unfolding frame_error aborted
  send id method fired (err e) t = record t { book = refuse id (err (frame_error e)) t.book }
  send id method fired (ok frame) t =
      if fired
      then record t { book = refuse id (aborted method) t.book }
      else record t { book = enter id t.book; written = frame ∷ t.written }

  -- `request`; `exited` says that the child has an exit code, whose event is still to come, and
  -- `fired` that the signal was aborted before the call.
  unfoldable pub request : String → String → Json → Bool → Bool → Transport → Transport
  unfolding send request_envelope
  request id method params exited fired t =
      if not t.running || exited
      then record t {
        book = refuse id (err (not_connected_error "transport is not connected")) t.book;
      }
      else send id method fired
          (encode big max_frame_bytes stringify (request_envelope id method params)) t

  -- `dispatch`
  unfoldable pub dispatch_reply : Option ReplyEnvelope → Transport → Transport
  unfolding reply_id reply_answer
  dispatch_reply none t = t
  dispatch_reply (some r) t = record t { book = settle (reply_id r) (reply_answer r) t.book }

  unfoldable pub dispatch_all : List Json → Transport → Transport
  unfolding dispatch_reply
  dispatch_all [] t = t
  dispatch_all (frame ∷ frames) t = dispatch_all frames (dispatch_reply (parse_reply frame) t)

  unfoldable pub received : Outcome FrameError (List Json) × List ℕ → Transport → Transport
  unfolding dispatch_all close frame_error
  received (ok frames, rest) t = dispatch_all frames (record t { buffer = rest })
  received (err e, rest) t = close (fail_all (frame_error e) (record t { buffer = rest }))

  -- `onStdout`
  unfoldable pub on_stdout : List ℕ → Transport → Transport
  unfolding received
  on_stdout chunk t = received (push big max_frame_bytes parse t.buffer chunk) t
