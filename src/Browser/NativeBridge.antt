-- ===== src/Browser/NativeBridge.antt =====
-- browser-connectors/chrome/extension/src/background/native-bridge.ts. The port, its events and the
-- timers are events that call the handlers below. The timer of a request is cleared when its promise
-- is settled, so that one fires only for a request that waits.
pub mod Answers
mod Tests
use vguardrail.Base.{String, Bool, true, false, not, Option, none, some, List, if◌then◌else◌}
use vguardrail.Browser.Contract.{Decision}
use vguardrail.Correlation.{Book, awaits, refuse, enter, settle, settle_all, empty_book}

-- `NativeResponse`
pub data NativeResponse : Type 0 where
  scan_response : String → Decision → NativeResponse
  ack_response : String → Bool → NativeResponse
  error_response : String → String → String → NativeResponse

abbrev pub response_id : NativeResponse → String
response_id (scan_response id d) = id
response_id (ack_response id accepted) = id
response_id (error_response id code message) = id

pub record NativeBridge : Type 0 where
  pub has_port : Bool  -- `this.port !== undefined`
  pub book : Book NativeResponse

abbrev pub new_bridge : NativeBridge
new_bridge = record { has_port = false; book = empty_book }

-- `ensurePort`: whether there is a port after it; `connects` says that a new one can be opened.
unfoldable pub ensure_port : Bool → Bool → Bool
ensure_port true connects = true
ensure_port false connects = connects

-- `request` with a port: the promise waits before the message is posted; `posts` says that
-- `postMessage` does not throw.
unfoldable pub post : Bool → String → NativeBridge → NativeBridge
post true id b = record b { book = enter id b.book }
post false id b = record b {
  book = settle id (error_response id "DISCONNECT" "native host write failed") (enter id b.book);
}

unfoldable pub request_on : Bool → Bool → String → NativeBridge → NativeBridge
unfolding post
request_on true posts id b = post posts id (record b { has_port = true })
request_on false posts id b = record b {
  book = refuse id (error_response id "DISCONNECT" "native host unavailable") b.book;
}

-- `request`
unfoldable pub request : Bool → Bool → String → NativeBridge → NativeBridge
unfolding request_on ensure_port
request connects posts id b = request_on (ensure_port b.has_port connects) posts id b

-- The callback of the timer
unfoldable pub on_timeout : String → NativeBridge → NativeBridge
on_timeout id b = record b {
  book = settle id (error_response id "TIMEOUT" "native host timeout") b.book;
}

-- `onMessage`; `none` is a message without a string as its id.
unfoldable pub on_message : Option NativeResponse → NativeBridge → NativeBridge
on_message none b = b
on_message (some r) b = record b { book = settle (response_id r) r b.book }

-- `onDisconnect`
unfoldable pub on_disconnect : NativeBridge → NativeBridge
on_disconnect b = record b {
  has_port = false;
  book = settle_all (λ id. error_response id "DISCONNECT" "native host disconnected") b.book;
}
