-- ===== src/Ide/Passive.antt =====
-- ide-connectors/vscode/src/passive-scan.ts: pastes that are scanned after a quiet time. The timers of
-- the documents are events that call `flush`; a new change of a document replaces its timer.
use Prim.Native.String
use vguardrail.Base.{
  ℕ, ◌*◌, String, Bool, true, false, not, ◌||◌, Option, none, some, List, [], ◌∷◌, ◌++◌, keep, ltb,
  length, Outcome, ok, err, if◌then◌else◌,
}
use vguardrail.Base.Text.{str_eq}
use vguardrail.Base.Units.{join, is_empty}
use vguardrail.Sdk.Enums.{Action, allow, warn, block}
use vguardrail.Sdk.Decision.{Decision, ScanResponse}
use vguardrail.Sdk.Errors.{Thrown}
use vguardrail.Ide.{EditorPromptContext, warn_message, block_message}

abbrev pub paste_threshold_chars : ℕ
paste_threshold_chars = 200

abbrev pub max_document_bytes : ℕ
max_document_bytes = 256 * 1024

-- `PassiveDocument`
pub record PassiveDocument : Type 0 where
  pub uri : String
  pub scheme : String
  pub byte_length : ℕ
  pub context : EditorPromptContext

-- `PendingScan`
pub record PendingScan : Type 0 where
  pub ctx : EditorPromptContext
  pub text : List ℕ

pub record Controller : Type 0 where
  pub pending : List (String × PendingScan)
  pub engine_down_notified : Bool
  pub disposed : Bool

unfoldable pub get : String → List (String × PendingScan) → Option PendingScan
get uri [] = none
get uri ((k, p) ∷ rest) = let further = get uri rest in if str_eq k uri then some p else further

unfoldable pub delete : String → List (String × PendingScan) → List (String × PendingScan)
delete uri pending = keep (λ (e : String × PendingScan). not (str_eq e.0 uri)) pending

-- The scans that wait, with this one in the place of the document's last.
unfoldable pub set :
    String → PendingScan → List (String × PendingScan) → List (String × PendingScan)
unfolding delete
set uri p pending = delete uri pending ++ ((uri, p) ∷ [])

unfoldable pub with_existing : Option PendingScan → List (List ℕ) → List (List ℕ)
with_existing none pasted = pasted
with_existing (some p) pasted = p.text ∷ pasted

-- `SCANNABLE_SCHEMES`, and the cap on documents
abbrev is_scannable : PassiveDocument → Bool
is_scannable d =
    if str_eq d.scheme "file" || str_eq d.scheme "untitled"
    then not (ltb max_document_bytes d.byte_length)
    else false

unfoldable pub add : PassiveDocument → List (List ℕ) → Controller → Controller
unfolding set get with_existing
add d pasted c = record c {
  pending =
      set d.uri
        (record {
          ctx = d.context;
          text = join (10 ∷ []) (with_existing (get d.uri c.pending) pasted);
        })
        c.pending;
}

-- `handleChange`
unfoldable pub handle_change : Bool → PassiveDocument → List (List ℕ) → Controller → Controller
unfolding add
handle_change enabled d inserted c =
    if c.disposed || not enabled
    then c
    else if not (is_scannable d)
    then c
    else (let pasted = keep (λ t. ltb paste_threshold_chars (length t)) inserted in
        if is_empty pasted then c else add d pasted c)

-- `dispose`
unfoldable pub dispose : Controller → Controller
dispose c = record c { pending = []; disposed = true }

unfoldable pub message_as : Action → Decision → Option String
unfolding warn_message block_message
message_as allow d = none
message_as warn d = some (String.◌++◌ "Pasted content — " (warn_message d))
message_as block d = some (String.◌++◌ "Pasted content — " (block_message d))

-- `passiveMessage`
unfoldable pub passive_message : ScanResponse → Option String
unfolding message_as
passive_message r = message_as r.decision.action r.decision

-- What is shown: that the engine is away, or what a paste was flagged for.
pub data Notice : Type 0 where
  engine_down : Notice
  flagged : String → Notice

unfoldable pub flagged_by : Option String → List Notice
flagged_by none = []
flagged_by (some m) = flagged m ∷ []

-- `reportEngineDown`: what is shown, and that it was.
unfoldable pub report_engine_down : Bool → List Notice × Bool
report_engine_down notified = (if notified then [] else engine_down ∷ [], true)

unfoldable pub answered_with : Bool → ScanResponse → Bool → List Notice × Bool
unfolding report_engine_down flagged_by passive_message
answered_with true r notified = report_engine_down notified
answered_with false r notified = (flagged_by (passive_message r), false)

-- The end of `flush`, on what its scan gave
unfoldable pub after_scan : Outcome Thrown ScanResponse → Bool → List Notice × Bool
unfolding answered_with report_engine_down
after_scan (err e) notified = report_engine_down notified
after_scan (ok r) notified = answered_with r.from_fallback r notified

module _ {S : Type 0}
    (scan : List ℕ → EditorPromptContext → S → Outcome Thrown ScanResponse × S) where
  unfoldable pub flushed : Option PendingScan → Controller → S → (List Notice × Controller) × S
  unfolding after_scan
  flushed none c s = (([], c), s)
  flushed (some p) c s =
      if c.disposed
      then (([], c), s)
      else (let (out, s') = scan p.text p.ctx s in
          let (notices, notified) = after_scan out c.engine_down_notified in
          ((notices, record c { engine_down_notified = notified }), s'))

  -- `flush`
  unfoldable pub flush : String → Controller → S → (List Notice × Controller) × S
  unfolding flushed get delete
  flush uri c s = flushed (get uri c.pending) (record c { pending = delete uri c.pending }) s
