-- ===== src/Browser/Background/Uploads.antt =====
-- Which uploads the relay lets pass.
mod Tests
use vguardrail.Base.{◌≡◌, refl, subst, Bool, true, false, Option, some, List, [], ◌∷◌, Outcome, ok}
use vguardrail.Browser.Contract.{Decision}
use vguardrail.Browser.Upload.{should_block_upload, allowed_is_no_block}
use vguardrail.Browser.Transports.{
  NativeScanContext, ScanFile, Calls, scan_next, scan_through_transports, native_host_transport,
  native_scan_as, has_files, safari_app_transport,
}
use vguardrail.Browser.Transports.Chain.{Delivered, scan_through_transports_iff}
use vguardrail.Browser.Background.{
  Flavor, chromium, safari, safari_dev, RawFile, file_of_raw, transports, handle_scan,
  handle_scan_file, relay, relay_as, verdict, verdict_as,
}

verdict_passes : (b : Bool) (d : Decision) → (verdict_as b d).1 ≡ true → b ≡ false
unfolding verdict_as
verdict_passes true d h = absurd (cc)
verdict_passes false d h = refl

module _ {S : Type 0} (calls : Calls S) (context : NativeScanContext) (file : ScanFile)
    (s : S) where
  -- The relay, where the message to the service worker arrives.
  abbrev pub arrives : Flavor → ScanFile → S → Outcome (Unit {0}) Decision × S
  arrives flavor f s1 = let (d, s2) = handle_scan_file calls flavor f context s1 in (ok d, s2)

  abbrev pub Passed : Flavor → Type 0
  Passed flavor =
      (d : Decision) × (s' : S) × Delivered calls "" context (some (file ∷ [])) d s'
        (transports calls flavor) s
      × (should_block_upload d ≡ false)

  verdict_is_delivered :
      (flavor : Flavor) (out : Decision × S)
      → scan_through_transports calls (transports calls flavor) "" context (some (file ∷ [])) s
        ≡ out
      → (verdict_as (should_block_upload out.0) out.0).1 ≡ true
      → Passed flavor
  verdict_is_delivered flavor (d, s') same h =
      let fine : should_block_upload d ≡ false = verdict_passes (should_block_upload d) d h in
      (
        d,
        s',
        (scan_through_transports_iff calls "" context (some (file ∷ [])) d s'
              (allowed_is_no_block d fine) (transports calls flavor) s).0
            same,
        fine,
      )

  -- An upload that has a name and contents, and whose message to the service worker arrives, is
  -- allowed only if a transport delivered a decision that the rule for uploads lets pass.
  pub relay-Passed :
      (flavor : Flavor) (raw : Option RawFile)
      → file_of_raw raw ≡ some file
      → (relay (arrives flavor) raw s).0.1 ≡ true
      → Passed flavor
  unfolding relay relay_as verdict handle_scan_file
  relay-Passed flavor raw named h =
      verdict_is_delivered flavor
        (scan_through_transports calls (transports calls flavor) "" context (some (file ∷ [])) s)
        refl (subst (λ (o : Option ScanFile). (relay_as (arrives flavor) o s).0.1 ≡ true) named h)
