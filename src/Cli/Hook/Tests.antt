-- ===== src/Cli/Hook/Tests.antt =====
-- Events with a prompt and with a command.
use vguardrail.Base.{◌≡◌, refl, ◌↔◌, ℕ, true, false, not, ◌&&◌, none, some, [], ok}
use vguardrail.Base.Units.{units}
use vguardrail.Sdk.Enums.{warn, Role}
use vguardrail.Sdk.Client.Tests.{decision}
use vguardrail.Cli.Hook.{HookInput, missing, text, other, event, HookDeps, State, main, scan_text}
use vguardrail.Cli.Hook.Contract.{blocks, denies}
use vguardrail.Cli.Hook.Passes.{Passes, main_iff, denies-main, deniable}
use vguardrail.Cli.Hook.Closed.{unreadable, main_closed}

abbrev deps : HookDeps ℕ
deps = record {
  user = record { user_id = "u"; role = Role.user; groups = [] };
  scan = λ request s. (ok (decision warn), s);
  acknowledge_bypass = λ id s. s;
  now_ms = λ s. (s, s);
  saves = λ store s. (true, s);
  ack_key = λ scope prompt. "key";
}

abbrev state : State ℕ
state = record { store = []; world = 0 }

abbrev typed : HookInput
typed = record {
  hook_event_name = some "UserPromptSubmit";
  session_id = some "s";
  prompt = text (units "hi");
  tool_name = none;
  command = missing;
}

abbrev command : HookInput
command = record typed {
  hook_event_name = some "PreToolUse";
  tool_name = some "Bash";
  command = text (units "ls");
}

main_iff_example :
    (blocks (main deps (event typed) state).0 ≡ false)
    ↔ Passes deps (some "s") (units "hi") state (scan_text deps (units "hi") 0)
main_iff_example = main_iff deps typed (units "hi") state refl refl refl

denies-main_example :
    denies (main deps (event command) state).0 ≡ deniable deps (scan_text deps (units "ls") 0).0
denies-main_example = denies-main deps command (units "ls") state refl refl refl refl

abbrev untyped : HookInput
untyped = record typed { prompt = other }

main_closed_example :
    ((main deps (event untyped) state).0.exit_code ≡ 0)
    × ((unreadable deps (event untyped) && not (blocks (main deps (event untyped) state).0))
        ≡ false)
main_closed_example = main_closed deps (event untyped) state
