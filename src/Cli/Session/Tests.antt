-- ===== src/Cli/Session/Tests.antt =====
-- A session with concrete lines.
use vguardrail.Base.{
  ◌≡◌, refl, ◌↔◌, ◌≤◌, ◌<◌, ◌+◌, ℕ, true, false, none, [], ◌∷◌, ◌++◌, ok, if◌then◌else◌, arith,
}
use vguardrail.Base.Units.{units}
use vguardrail.Sdk.Enums.{warn, Role}
use vguardrail.Sdk.Client.Tests.{decision}
use vguardrail.Cli.AckStore.{
  ack_window_ms, consume_or_record_ack, consume_within, prune, is_pending,
}
use vguardrail.Cli.AckStore.Rounds.{consume_or_record_ack_lem}
use vguardrail.Cli.Line.{new_line}
use vguardrail.Cli.Session.{
  Options, State, bytes, enter, clear, clear_sequence, gate_line, process_slice,
}
use vguardrail.Cli.Session.Gating.{MaySubmit, gate_line_iff}
use vguardrail.Cli.Session.Typed.{taken, process_slice-typed}

abbrev options : Options ℕ
options = record {
  tool = record {
    name = "aider";
    display_name = "Aider";
    executable_path = "/usr/bin/aider";
    provider = none;
    default_model = none;
    clear_input_sequence = none;
    is_interactive = true;
  };
  user = record { user_id = "u"; role = Role.user; groups = [] };
  repo = none;
  scan = λ request s. (ok (decision warn), s);
  now_ms = λ s. (s, s);
  ack_key = λ text. "key";
}

abbrev state : State ℕ
state = record { line = new_line; store = []; world = 0 }

gate_line_iff_example :
    ((gate_line options (units "hi") state).0 ≡ true) ↔ MaySubmit options (units "hi") state
gate_line_iff_example = gate_line_iff options (units "hi") state

process_slice-typed_example : process_slice options ((104 ∷ 105 ∷ []) ++ (0x0d ∷ [])) state ≡ (
    let out = gate_line options (104 ∷ 105 ∷ []) (taken options state) in
    (
      bytes (104 ∷ 105 ∷ []) ∷ (if out.0 then enter else clear (clear_sequence options)) ∷ [],
      out.1,
    ))
process_slice-typed_example =
    process_slice-typed options 104 (105 ∷ []) state refl refl
      ((omega arith, refl), ((omega arith, refl), tt)) refl

new_key : (consume_or_record_ack "key" 0 []).0 ≡ false
unfolding consume_or_record_ack consume_within prune is_pending
new_key = refl

consume_or_record_ack_lem_example :
    ((later : ℕ)
      → later ≤ 0 + ack_window_ms
      → ((consume_or_record_ack "key" later (consume_or_record_ack "key" 0 []).1).0 ≡ true)
        × ((again : ℕ)
            → (consume_or_record_ack "key" again
                (consume_or_record_ack "key" later (consume_or_record_ack "key" 0 []).1).1).0
              ≡ false))
    × ((later : ℕ)
        → 0 + ack_window_ms < later
        → (consume_or_record_ack "key" later (consume_or_record_ack "key" 0 []).1).0 ≡ false)
consume_or_record_ack_lem_example = consume_or_record_ack_lem "key" 0 [] new_key
