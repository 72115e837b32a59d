-- ===== src/Browser/Transports/Chain.antt =====
-- What comes out of a chain of transports.
use vguardrail.Base.{
  ◌≡◌, refl, sym, ◌∙◌, ap, ◌↔◌, ◌⊎◌, inl, inr, String, Option, List, [], ◌∷◌, Outcome, ok, err,
}
use vguardrail.Sdk.Enums.{block}
use vguardrail.Browser.Contract.{Decision, fail_closed_block}
use vguardrail.Browser.Transports.{
  NativeScanContext, ScanFile, ScanTransport, Calls, scan_next, scan_through_transports,
}

module _ {S : Type 0} (calls : Calls S) (t : String) (context : NativeScanContext)
    (files : Option (List ScanFile)) (d : Decision) (s' : S) where
  -- One of the transports gave this decision, after those before it had failed.
  unfoldable pub Delivered : List (ScanTransport S) → S → Type 0
  Delivered [] s = ⊥
  Delivered (transport ∷ rest) s =
      (transport.scan t context files s ≡ (ok d, s'))
      ⊎ ((s1 : S) × (transport.scan t context files s ≡ (err tt, s1)) × Delivered rest s1)

  chain_delivers :
      (transport : ScanTransport S) (rest : List (ScanTransport S)) (s : S)
      (out : Outcome (Unit {0}) Decision × S)
      → transport.scan t context files s ≡ out
      → ((s1 : S)
          → (scan_through_transports calls rest t context files s1 ≡ (d, s'))
          → Delivered rest s1)
      → scan_next out (λ s1. scan_through_transports calls rest t context files s1) ≡ (d, s')
      → Delivered (transport ∷ rest) s
  unfolding Delivered scan_next
  chain_delivers transport rest s (ok e, s1) same later h =
      inl (same ∙ ap (λ (p : Decision × S). (ok p.0, p.1)) h)
  chain_delivers transport rest s (err tt, s1) same later h = inr (s1, same, later s1 h)

  delivers :
      (d.action ≡ block → ⊥)
      → (ts : List (ScanTransport S)) (s : S)
      → scan_through_transports calls ts t context files s ≡ (d, s')
      → Delivered ts s
  unfolding Delivered scan_through_transports fail_closed_block
  delivers other [] s h = other (sym (ap (λ (p : Decision × S). p.0.action) h))
  delivers other (transport ∷ rest) s h =
      chain_delivers transport rest s (transport.scan t context files s) refl (delivers other rest)
        h

  returned :
      (ts : List (ScanTransport S)) (s : S)
      → Delivered ts s
      → scan_through_transports calls ts t context files s ≡ (d, s')
  unfolding Delivered scan_through_transports scan_next
  returned [] s h = absurd h
  returned (transport ∷ rest) s (inl same) = rw same refl
  returned (transport ∷ rest) s (inr (s1, same, later)) = rw same (returned rest s1 later)

  -- A chain of transports returns a decision other than to block exactly if one of the transports
  -- gave that decision and those before it had failed.
  pub scan_through_transports_iff :
      (d.action ≡ block → ⊥)
      → (ts : List (ScanTransport S)) (s : S)
      → (scan_through_transports calls ts t context files s ≡ (d, s')) ↔ Delivered ts s
  scan_through_transports_iff other ts s = (delivers other ts s, returned ts s)
