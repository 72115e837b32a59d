-- ===== src/Browser/Background/Uploads/Tests.antt =====
-- An upload at the calls of `Transports/Tests`, where the backend takes a second scan.
use vguardrail.Base.{◌≡◌, refl, true, none, some}
use vguardrail.Browser.Upload.{should_block_upload}
use vguardrail.Browser.Transports.{
  ScanFile, scan_through_transports, scan_next, native_host_transport, native_scan_as, has_files,
  http_backend_transport, http_scanned, registered,
}
use vguardrail.Browser.Transports.Tests.{offline, page}
use vguardrail.Browser.Background.{
  chromium, RawFile, truthy, file_from, file_of_raw, verdict_as, verdict, relay_as, relay,
  handle_scan_file,
}
use vguardrail.Browser.Background.Uploads.{arrives, Passed, relay-Passed}

abbrev notes : ScanFile
notes = record { name = "notes.txt"; mime = none; content_base64 = "aGk=" }

abbrev raw_notes : RawFile
raw_notes = record { name = some "notes.txt"; mime = some ""; content_base64 = some "aGk=" }

is_notes : file_of_raw (some raw_notes) ≡ some notes
unfolding file_of_raw file_from truthy
is_notes = refl

notes_pass : (relay (arrives offline page notes 2 chromium) (some raw_notes) 2).0.1 ≡ true
unfolding relay relay_as verdict verdict_as file_of_raw file_from truthy should_block_upload
    handle_scan_file scan_through_transports scan_next native_host_transport native_scan_as
    has_files http_backend_transport http_scanned registered
notes_pass = refl

relay-Passed_example : Passed offline page notes 2 chromium
relay-Passed_example =
    relay-Passed offline page notes 2 chromium (some raw_notes) is_notes notes_pass
