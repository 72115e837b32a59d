-- ===== src/NativeHost/Loop.antt =====
-- browser-connectors/chrome/native-host/src: parseRequest of protocol.ts and the loop of host.ts. The
-- chunks of stdin, its end and the handlers that settle are events. Replies are not
-- encoded here: a handler's reply that does not fit a frame is lost with a line in the log, and one to
-- a malformed request whose id is that long throws in the listener; both are left out.
pub mod Progress
use vguardrail.Base.{
  ℕ, ◌+◌, ◌-◌, ◌*◌, String, Bool, true, false, not, ◌&&◌, ◌||◌, Option, none, some, List, [], ◌∷◌,
  Outcome, ok, err, if◌then◌else◌, ◌==◌,
}
use vguardrail.Base.Text.{str_eq}
use vguardrail.Base.Units.{units}
use vguardrail.Json.{Json, null, bool, num, str, text, arr, obj, Fields, end, field}
use vguardrail.Frame.{little, push, FrameError}
use vguardrail.NativeHost.{
  HostRequest, scan_request, ack_request, status_request, HostResponse, error_reply,
}

-- `MAX_MESSAGE_BYTES`
abbrev pub max_message_bytes : ℕ
max_message_bytes = 1024 * 1024

-- What `parseRequest` gives: a request, or the id to answer to, if there is one.
pub data Parsed : Type 0 where
  request : HostRequest → Parsed
  invalid : Option String → Parsed

-- A property of an object; arrays and other values have none of those that are read here.
abbrev property : String → Fields → Option Json
property k end = none
property k (field i v r) = let rest = property k r in if str_eq i k then some v else rest

abbrev at : String → Option Json → Option Json
at k (some (obj fields)) = property k fields
at k _ = none

abbrev as_string : Option Json → Option String
as_string (some (str s)) = some s
as_string _ = none

abbrev as_units : Option Json → Option (List ℕ)
as_units (some (str s)) = some (units s)
as_units (some (text s)) = some s
as_units _ = none

abbrev as_bool : Option Json → Option Bool
as_bool (some (bool b)) = some b
as_bool _ = none

unfoldable pub scan_parsed : String → Option (List ℕ) → Option Json → Parsed
scan_parsed id none context = invalid (some id)
scan_parsed id (some t) context = request (
    scan_request id t (as_string (at "provider" context)) (as_string (at "model" context))
      (as_string (at "app" context)))

unfoldable pub ack_parsed : String → Option String → Option Bool → Parsed
ack_parsed id (some event_id) (some accepted) = request (ack_request id event_id accepted)
ack_parsed id none accepted = invalid (some id)
ack_parsed id (some event_id) none = invalid (some id)

unfoldable pub parsed_as : String → Option String → Option Json → Parsed
unfolding scan_parsed ack_parsed
parsed_as id none payload = invalid (some id)
parsed_as id (some kind) payload =
    if str_eq kind "scan"
    then scan_parsed id (as_units (at "text" payload)) (at "context" payload)
    else if str_eq kind "ack"
    then ack_parsed id (as_string (at "eventId" payload)) (as_bool (at "accepted" payload))
    else if str_eq kind "status"
    then request (status_request id)
    else invalid (some id)

unfoldable pub parsed_with : Option String → Json → Parsed
unfolding parsed_as
parsed_with none value = invalid none
parsed_with (some id) value =
    if str_eq id ""
    then invalid none
    else parsed_as id (as_string (at "type" (some value))) (at "payload" (some value))

-- `parseRequest`
unfoldable pub parse_request : Json → Parsed
unfolding parsed_with
parse_request value = parsed_with (as_string (at "id" (some value))) value

pub record Host : Type 0 where
  pub buffer : List ℕ  -- the decoder's
  pub ended : Bool
  pub in_flight : ℕ
  pub finished : Bool
  pub accepted : List HostRequest  -- the requests that handlers were started for
  pub settled : ℕ  -- the handlers that have settled
  pub written : List HostResponse

abbrev pub new_host : Host
new_host = record {
  buffer = [];
  ended = false;
  in_flight = 0;
  finished = false;
  accepted = [];
  settled = 0;
  written = [];
}

-- `maybeFinish`
unfoldable pub maybe_finish : Host → Host
maybe_finish h = record h { finished = h.finished || (h.ended && h.in_flight == 0) }

unfoldable pub dispatch_parsed : Parsed → Host → Host
dispatch_parsed (invalid none) h = h
dispatch_parsed (invalid (some id)) h = record h {
  written = error_reply id "BAD_REQUEST" "malformed request" ∷ h.written;
}
dispatch_parsed (request r) h = record h { in_flight = h.in_flight + 1; accepted = r ∷ h.accepted }

-- `dispatch`, for each message of a chunk
unfoldable pub dispatch_all : List Json → Host → Host
unfolding dispatch_parsed parse_request
dispatch_all [] h = h
dispatch_all (raw ∷ rest) h = dispatch_all rest (dispatch_parsed (parse_request raw) h)

-- The end of stdin, and its error
unfoldable pub on_end : Host → Host
unfolding maybe_finish
on_end h = maybe_finish (record h { ended = true })

unfoldable pub decoded : Outcome FrameError (List Json) × List ℕ → Host → Host
unfolding dispatch_all on_end
decoded (ok messages, rest) h = dispatch_all messages (record h { buffer = rest })
decoded (err e, rest) h = on_end (record h { buffer = rest })

-- The listener of `data`
unfoldable pub on_data : (List ℕ → Option Json) → List ℕ → Host → Host
unfolding decoded
on_data parse chunk h = decoded (push little max_message_bytes parse h.buffer chunk) h

-- A handler that has settled, with its reply or without
unfoldable pub on_settled : Option HostResponse → Host → Host
unfolding maybe_finish
on_settled none h = maybe_finish (record h { in_flight = h.in_flight - 1; settled = h.settled + 1 })
on_settled (some reply) h =
    maybe_finish (record h {
      in_flight = h.in_flight - 1;
      settled = h.settled + 1;
      written = reply ∷ h.written;
    })
