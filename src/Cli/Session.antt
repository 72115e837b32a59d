-- ===== src/Cli/Session.antt =====
-- cli-connectors/framework/src/process/pty-session.ts: what becomes of the bytes that a user types
-- into a guarded session. The queue hands on one slice after the other. What the terminal shows is
-- left out.
pub mod Gating
pub mod Typed
mod Tests
use vguardrail.Base.{
  ℕ, zero, suc, String, Bool, true, false, not, ◌&&◌, ◌||◌, Option, none, some, List, [], ◌∷◌, ◌++◌,
  ◌==◌, length, Outcome, ok, err, if◌then◌else◌,
}
use vguardrail.Base.Units.{is_blank, is_empty, starts_with}
use vguardrail.Sdk.Enums.{Action, allow, warn, block, RiskLevel}
use vguardrail.Sdk.Decision.{Decision, or_else}
use vguardrail.Sdk.Errors.{Thrown}
use vguardrail.Sdk.ScanRequest.{ScanRequest, UserContext, RepoContext}
use vguardrail.Cli.ScanText.{Tool, build_scan_request, create_extraction_context}
use vguardrail.Cli.Enforcement.{WarnTier, block_tier, prompt_tier, notice_tier, warn_tier}
use vguardrail.Cli.AckStore.{Store, consume_or_record_ack}
use vguardrail.Cli.Line.{Line, SubmittedLine, push}

-- `PtySessionOptions`, with the calls of the session that act on a world `S`; `ack_key` is `ackKey`
-- at the scope of the tool.
pub record Options (S : Type 0) : Type 0 where
  pub tool : Tool
  pub user : UserContext
  pub repo : Option RepoContext
  pub scan : ScanRequest → S → Outcome Thrown Decision × S
  pub now_ms : S → ℕ × S
  pub ack_key : List ℕ → String

-- The reconstructor, the store of acknowledgements, and the world.
pub record State (S : Type 0) : Type 0 where
  pub line : Line
  pub store : Store
  pub world : S

-- What is written to the child: bytes as they are, the Enter key, or the sequence that clears its
-- input.
pub data Write : Type 0 where
  bytes : List ℕ → Write
  enter : Write
  clear : List ℕ → Write

-- The bytes before the first CR or LF, that byte, and those after it; `firstNewline`
pub split_newline : List ℕ → Option (List ℕ × ℕ × List ℕ)
split_newline [] = none
split_newline (c ∷ r) =
    let further = split_newline r in
    if c == 0x0d || c == 0x0a
    then some ([], c, r)
    else elim further [ none ↦ none | some (before, n, after) ↦ some (c ∷ before, n, after) ]

-- The line that must be scanned: not one that is missing, blank or a slash command.
unfoldable pub to_scan : List SubmittedLine → Option (List ℕ)
to_scan [] = none
to_scan (l ∷ _) = if is_blank l.text || starts_with (0x2f ∷ []) l.text then none else some l.text

module _ {S : Type 0} (options : Options S) where
  -- The question to the store of acknowledgements, whose file is taken to be writable: where it is not,
  -- the source throws before it types the key that ends the line.
  unfoldable pub resubmitted : List ℕ → State S → Bool × State S
  resubmitted text s =
      let (now, w) = options.now_ms s.world in
      let (acknowledged, store) = consume_or_record_ack (options.ack_key text) now s.store in
      (acknowledged, record s { store = store; world = w })

  unfoldable pub gate_tier : WarnTier → List ℕ → State S → Bool × State S
  unfolding resubmitted
  gate_tier block_tier text s = (false, s)
  gate_tier notice_tier text s = (true, s)
  gate_tier prompt_tier text s = resubmitted text s

  unfoldable pub gate_action : Action → Decision → List ℕ → State S → Bool × State S
  unfolding gate_tier warn_tier
  gate_action allow d text s = (true, s)
  gate_action block d text s = (false, s)
  gate_action warn d text s = gate_tier (warn_tier (some d.risk_level)) text s

  unfoldable pub gate_decided : Outcome Thrown Decision × S → List ℕ → State S → Bool × State S
  unfolding gate_action
  gate_decided (err e, w) text s = (false, record s { world = w })
  gate_decided (ok d, w) text s = gate_action d.action d text (record s { world = w })

  -- `gateLine`
  unfoldable pub gate_line : List ℕ → State S → Bool × State S
  unfolding gate_decided
  gate_line text s =
      let context = create_extraction_context text none none in
      gate_decided
        (options.scan (build_scan_request context options.tool options.user options.repo) s.world)
        text s

  abbrev pub clear_sequence : List ℕ
  clear_sequence = or_else options.tool.clear_input_sequence (0x15 ∷ [])

  -- Bytes that go to the reconstructor and to the child, if there are any.
  unfoldable pub pass : List ℕ → State S → List Write × State S
  pass [] s = ([], s)
  pass (c ∷ r) s = (bytes (c ∷ r) ∷ [], record s { line = (push s.line (c ∷ r)).0 })

  unfoldable pub gated : Option (List ℕ) → State S → Write × State S
  unfolding gate_line
  gated none s = (enter, s)
  gated (some text) s =
      let (proceed, s') = gate_line text s in (if proceed then enter else clear clear_sequence, s')

  -- The newline: the reconstructor is given it, and the line that it yields is gated.
  unfoldable pub end_line : ℕ → State S → Write × State S
  unfolding gated to_scan
  end_line newline s =
      let (line, submitted) = push s.line (newline ∷ []) in
      gated (to_scan submitted) (record s { line = line })

  -- One turn of the loop, and the turns after it.
  unfoldable pub one_line :
      (List ℕ → State S → List Write × State S)
      → Option (List ℕ × ℕ × List ℕ)
      → List ℕ
      → State S
      → List Write × State S
  unfolding pass end_line
  one_line loop none rest s = pass rest s
  one_line loop (some (before, newline, after)) rest s =
      let (w, s1) = pass before s in
      let (e, s2) = end_line newline s1 in let (more, s3) = loop after s2 in (w ++ (e ∷ more), s3)

  -- The loop of `processSlice`: each turn takes a newline, so that one more than the length of the
  -- slice is enough fuel.
  unfoldable pub process_from : ℕ → List ℕ → State S → List Write × State S
  unfolding one_line split_newline
  process_from zero rest s = ([], s)
  process_from (suc fuel) rest s = one_line (process_from fuel) (split_newline rest) rest s

  -- `processSlice`
  unfoldable pub process_slice : List ℕ → State S → List Write × State S
  unfolding process_from
  process_slice chunk s = process_from (suc (length chunk)) chunk s
