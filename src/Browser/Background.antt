-- ===== src/Browser/Background.antt =====
-- browser-connectors/chrome/extension/src/background/service-worker.ts, and the relay of file uploads
-- in content/content-script.ts, which calls it. `sendMessage` of the browser carries a message from
-- one to the other, and may fail.
pub mod Uploads
use vguardrail.Base.{
  String, Bool, true, false, not, Option, none, some, List, [], ◌∷◌, Outcome, ok, err,
  if◌then◌else◌,
}
use vguardrail.Base.Text.{str_eq}
use vguardrail.Browser.Contract.{Decision}
use vguardrail.Browser.Gate.{Deed, block_notice, distinct_categories}
use vguardrail.Browser.Upload.{should_block_upload}
use vguardrail.Browser.Transports.{
  NativeScanContext, ScanFile, ScanTransport, Calls, scan_through_transports,
  ack_through_transports, native_host_transport, safari_app_transport, http_backend_transport,
}

-- `flavor`
pub data Flavor : Type 0 where
  chromium safari safari_dev : Flavor

-- `ContentMessage`
pub data ContentMessage : Type 0 where
  scan_message : String → NativeScanContext → ContentMessage
  scan_file_message : ScanFile → NativeScanContext → ContentMessage
  ack_message : String → Bool → ContentMessage

-- `ScanReply` and `AckReply`
pub data Reply : Type 0 where
  scan_reply : Decision → Reply
  ack_reply : Bool → Reply

-- The file of a request of the page, as it comes.
pub record RawFile : Type 0 where
  pub name : Option String
  pub mime : Option String
  pub content_base64 : Option String

-- A string that JavaScript takes for true.
unfoldable pub truthy : Option String → Option String
truthy none = none
truthy (some s) = if str_eq s "" then none else some s

unfoldable pub file_from : Option String → Option String → Option String → Option ScanFile
file_from (some content) (some name) mime =
    some (record { name = name; mime = mime; content_base64 = content })
file_from _ _ _ = none

unfoldable pub file_of_raw : Option RawFile → Option ScanFile
unfolding file_from truthy
file_of_raw none = none
file_of_raw (some raw) = file_from (truthy raw.content_base64) (truthy raw.name) (truthy raw.mime)

-- What the relay does once the verdict is there: the notice, and whether the upload is allowed.
unfoldable pub verdict_as : Bool → Decision → List Deed × Bool
verdict_as true d =
    (block_notice (some "Upload blocked by policy") d.reason (distinct_categories d) ∷ [], false)
verdict_as false d = ([], true)

unfoldable pub verdict : {S : Type 0} → Outcome (Unit {0}) Decision × S → (List Deed × Bool) × S
unfolding verdict_as
verdict (ok d, s) = (verdict_as (should_block_upload d) d, s)
verdict (err e, s) = (([], true), s)

-- The listener for `scan-file-request`, where `send` is the message to the service worker.
unfoldable pub relay_as :
    {S : Type 0}
    → (ScanFile → S → Outcome (Unit {0}) Decision × S)
    → Option ScanFile
    → S
    → (List Deed × Bool) × S
unfolding verdict
relay_as send none s = (([], true), s)
relay_as send (some file) s = verdict (send file s)

unfoldable pub relay :
    {S : Type 0}
    → (ScanFile → S → Outcome (Unit {0}) Decision × S)
    → Option RawFile
    → S
    → (List Deed × Bool) × S
unfolding relay_as file_of_raw
relay send raw s = relay_as send (file_of_raw raw) s

module _ {S : Type 0} (calls : Calls S) where
  -- `transports`
  abbrev pub transports : Flavor → List (ScanTransport S)
  transports chromium = native_host_transport calls ∷ http_backend_transport calls ∷ []
  transports safari = safari_app_transport calls ∷ []
  transports safari_dev = http_backend_transport calls ∷ []

  -- `handleScan`
  unfoldable pub handle_scan : Flavor → String → NativeScanContext → S → Decision × S
  handle_scan flavor t context s =
      scan_through_transports calls (transports flavor) t context none s

  -- `handleScanFile`
  unfoldable pub handle_scan_file : Flavor → ScanFile → NativeScanContext → S → Decision × S
  handle_scan_file flavor file context s =
      scan_through_transports calls (transports flavor) "" context (some (file ∷ [])) s

  -- `handleAck`
  unfoldable pub handle_ack : Flavor → String → Bool → S → Bool × S
  handle_ack flavor event_id accepted s =
      ack_through_transports calls (transports flavor) event_id accepted s

  -- The listener for messages
  unfoldable pub handle_content_message : Flavor → ContentMessage → S → Reply × S
  unfolding handle_scan handle_scan_file handle_ack
  handle_content_message flavor (scan_message t context) s =
      let (d, s') = handle_scan flavor t context s in (scan_reply d, s')
  handle_content_message flavor (scan_file_message file context) s =
      let (d, s') = handle_scan_file flavor file context s in (scan_reply d, s')
  handle_content_message flavor (ack_message event_id accepted) s =
      let (recorded, s') = handle_ack flavor event_id accepted s in (ack_reply recorded, s')
