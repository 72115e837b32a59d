-- ===== src/Browser/Tests.antt =====
-- Concrete decisions at the gate.
use vguardrail.Base.{◌≡◌, refl, ◌↔◌, ℕ, true, false, not, none, some, [], ok}
use vguardrail.Base.Number.{of_ℕ}
use vguardrail.Base.Units.{units}
use vguardrail.Sdk.Enums.{warn, RiskLevel}
use vguardrail.Browser.Contract.{Decision}
use vguardrail.Browser.Gate.{GateDeps, decide, on_keydown, on_click, Sight, stopped, act_on}
use vguardrail.Browser.Gate.Sends.{sends, Records, MaySend, decide_iff, decide-Records}
use vguardrail.Browser.Gate.Captures.{Submits, on_event_iff}
use vguardrail.Browser.Upload.{should_block_upload, agreeable, should_block_upload_lem}

abbrev scored : Decision
scored = record {
  request_id = "r1";
  action = warn;
  risk_level = RiskLevel.high;
  risk_score = some (of_ℕ 40);
  confidence = none;
  matched_rule_id = none;
  severity = none;
  findings = [];
  reason = "key";
}

-- A scan that warns, and a user who says no to the first question only.
abbrev wary : GateDeps ℕ
wary = record {
  scan = λ text s. (ok scored, s);
  warn = λ content s. elim s [ ℕ.zero ↦ (false, 1) | ℕ.suc n ↦ (true, n) ];
}

decide_iff_example :
    (sends (decide wary (units "hi") 1).0 ≡ true)
    ↔ ((d : Decision) × (s' : ℕ) × (wary.scan (units "hi") 1 ≡ (ok d, s')) × MaySend wary s' d)
decide_iff_example = decide_iff wary (units "hi") 1

decide-Records_example :
    Records scored (sends (decide wary (units "hi") 0).0) (decide wary (units "hi") 0).0
decide-Records_example = decide-Records wary (units "hi") 0 scored 0 refl

abbrev enter : Sight
enter = record { input = some (units "hi"); is_submit_key = true; on_send_button = false }

on_event_iff_example :
    ((on_keydown false enter ≡ stopped (units "hi"))
      ↔ Submits false true (some (units "hi")) (units "hi"))
    × ((on_click false enter ≡ stopped (units "hi"))
        ↔ Submits false false (some (units "hi")) (units "hi"))
on_event_iff_example = on_event_iff false enter (units "hi")

should_block_upload_lem_example :
    should_block_upload scored ≡ not (sends (act_on agreeable warn scored tt).0)
should_block_upload_lem_example = should_block_upload_lem scored (of_ℕ 40) refl
