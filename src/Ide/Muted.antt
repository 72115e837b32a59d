-- ===== src/Ide/Muted.antt =====
-- The notice that the engine is away is not repeated.
use vguardrail.Base.{
  ◌≡◌, refl, arith, ℕ, ◌+◌, ◌≤◌, Bool, true, false, List, [], ◌∷◌, Outcome, ok, err, if◌then◌else◌,
  Option, none, some,
}
use vguardrail.Sdk.Decision.{ScanResponse}
use vguardrail.Sdk.Errors.{Thrown}
use vguardrail.Ide.Passive.{
  Notice, engine_down, flagged, after_scan, answered_with, report_engine_down, flagged_by,
  passive_message,
}

-- How many of these say that the engine is away.
abbrev downs : List Notice → ℕ
downs [] = 0
downs (engine_down ∷ ns) = 1 + downs ns
downs (flagged m ∷ ns) = downs ns

abbrev answers : Outcome Thrown ScanResponse → ℕ
answers (err e) = 0
answers (ok r) = if r.from_fallback then 0 else 1

-- The notices of some scans, one after the other, from whether the engine was reported away.
pub all_downs : List (Outcome Thrown ScanResponse) → Bool → ℕ
all_downs [] notified = 0
all_downs (out ∷ outs) notified =
    let (notices, after) = after_scan out notified in downs notices + all_downs outs after

pub all_answers : List (Outcome Thrown ScanResponse) → ℕ
all_answers [] = 0
all_answers (out ∷ outs) = answers out + all_answers outs

abbrev spare : Bool → ℕ
spare true = 0
spare false = 1

flagged_downs : (o : Option _) → downs (flagged_by o) ≡ 0
unfolding flagged_by
flagged_downs none = refl
flagged_downs (some m) = refl

report_spare : (notified : Bool) → downs (report_engine_down notified).0 ≡ spare notified
unfolding report_engine_down
report_spare true = refl
report_spare false = refl

answered_spare :
    (b : Bool) (r : ScanResponse) (notified : Bool)
    → downs (answered_with b r notified).0 + spare (answered_with b r notified).1
      ≤ (if b then 0 else 1) + spare notified
unfolding answered_with report_engine_down
answered_spare true r notified = omega (arith, report_spare notified)
answered_spare false r notified = omega (arith, flagged_downs (passive_message r))

scan_spare :
    (out : Outcome Thrown ScanResponse) (notified : Bool)
    → downs (after_scan out notified).0 + spare (after_scan out notified).1
      ≤ answers out + spare notified
unfolding after_scan report_engine_down
scan_spare (err e) notified = omega (arith, report_spare notified)
scan_spare (ok r) notified = answered_spare r.from_fallback r notified

-- However scans end, the engine is reported away at most once more than it answered.
pub all_downs_le :
    (outs : List (Outcome Thrown ScanResponse)) (notified : Bool)
    → all_downs outs notified ≤ all_answers outs + spare notified
unfolding all_downs all_answers
all_downs_le [] notified = omega arith
all_downs_le (out ∷ outs) notified =
    omega (arith, scan_spare out notified, all_downs_le outs (after_scan out notified).1)
