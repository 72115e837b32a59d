-- ===== src/Cli/Adapters/Covered.antt =====
-- What the adapters read from stdin is scanned.
use vguardrail.Base.{
  ◌≡◌, if◌then◌else◌, refl, subst, ◌≤◌, Bool, true, false, ◌&&◌, Option, none, some, List, [],
  length, take, leb, ℕ, length-take, arith, Bool-cases, inl, inr,
}
use vguardrail.Base.Units.{is_empty}
use vguardrail.Sdk.ScanRequest.{UserContext, RepoContext}
use vguardrail.Cli.ScanText.{
  ExtractionContext, Tool, build_scan_request, compose_scan_text, max_prompt_length,
  create_extraction_context,
}
use vguardrail.Cli.ScanText.Coverage.{Occurs, build_scan_request-covers}
use vguardrail.Cli.Connector.{ExtractionResult}
use vguardrail.Cli.Adapters.{
  Word, is, Host, found_unless_empty, with_stdin, max_stdin_size, captured, read_stdin, stdin_of,
}
use vguardrail.Cli.Adapters.Codex
use vguardrail.Cli.Adapters.Ollama
use vguardrail.Cli.Adapters.Sgpt
use vguardrail.Cli.Adapters.Gemini
use vguardrail.Cli.Adapters.Mlx

-- A context, if there is one, has this standard input.
abbrev Holds : Word → Option ExtractionContext → Type 0
Holds stdin none = Unit
Holds stdin (some c) = c.stdin_data ≡ some stdin

found-Holds : (prompt stdin : Word) → Holds stdin (found_unless_empty prompt (some stdin)).context
unfolding found_unless_empty create_extraction_context
found-Holds prompt stdin = elim (Bool-cases (is_empty prompt && is_empty stdin)) [
  | inl empty ↦ rw empty tt
  | inr filled ↦ rw filled refl
]

with_stdin-Holds :
    (prompt : Word) (host : Host)
    → host.piped ≡ true
    → Holds (stdin_of host) (with_stdin prompt host).context
unfolding with_stdin
with_stdin-Holds prompt host piped = rw piped (found-Holds _ (stdin_of host))

-- The adapters that read what is piped.
pub data Reader : Type 0 where
  codex ollama sgpt gemini mlx : Reader

unfoldable pub extract_by : Reader → List Word → Host → ExtractionResult
extract_by codex = Codex.extract_context
extract_by ollama = Ollama.extract_context
extract_by sgpt = Sgpt.extract_context
extract_by gemini = Gemini.extract_context
extract_by mlx = Mlx.extract_context

-- Whether stdin is read at all, once something is piped: the others always do, and mlx if the prompt
-- that its loop finds is `-`.
abbrev pub is_dash : Option Word → Bool
is_dash none = false
is_dash (some prompt) = is "-" prompt

unfoldable pub reads_stdin : Reader → List Word → Bool
reads_stdin mlx args = is_dash (Mlx.collected false none args)
reads_stdin _ args = true

codex-Holds :
    (o : Option (List Word)) (host : Host)
    → host.piped ≡ true
    → Holds (stdin_of host) (Codex.extracted_from o host).context
unfolding Codex.extracted_from
codex-Holds none host piped = tt
codex-Holds (some ws) host piped = with_stdin-Holds _ host piped

ollama-Holds :
    (o : Option (Word × List Word)) (host : Host)
    → host.piped ≡ true
    → Holds (stdin_of host) (Ollama.extracted_from o host).context
unfolding Ollama.extracted_from
ollama-Holds none host piped = tt
ollama-Holds (some (name, args)) host piped = elim (Bool-cases (is "run" name)) [
  | inl run ↦ rw run (with_stdin-Holds _ host piped)
  | inr other ↦ rw other tt
]

sgpt-Holds :
    (o : Option Word) (host : Host)
    → host.piped ≡ true
    → Holds (stdin_of host) (Sgpt.extracted_from o host).context
unfolding Sgpt.extracted_from
sgpt-Holds none host piped = tt
sgpt-Holds (some prompt) host piped = with_stdin-Holds prompt host piped

gemini-Holds :
    (o : Option (Word × List Word)) (host : Host)
    → host.piped ≡ true
    → Holds (stdin_of host) (Gemini.extracted_from o host).context
unfolding Gemini.extracted_from
gemini-Holds none host piped = tt
gemini-Holds (some (flag, ws)) host piped = with_stdin-Holds _ host piped

mlx-Holds :
    (o : Option Word) (host : Host)
    → host.piped ≡ true
    → is_dash o ≡ true
    → Holds (stdin_of host) (Mlx.extracted_from o host).context
unfolding Mlx.extracted_from create_extraction_context
mlx-Holds none host piped dash = tt
mlx-Holds (some prompt) host piped dash = elim (Bool-cases (is_empty (stdin_of host))) [
  | inl empty ↦ rw (dash, piped, empty) tt
  | inr filled ↦ rw (dash, piped, filled) refl
]

extract_by-Holds :
    (reader : Reader) (args : List Word) (host : Host)
    → host.piped ≡ true
    → reads_stdin reader args ≡ true
    → Holds (stdin_of host) (extract_by reader args host).context
unfolding extract_by Codex.extract_context Ollama.extract_context Sgpt.extract_context
    Gemini.extract_context Mlx.extract_context reads_stdin
extract_by-Holds codex args host piped reads =
    codex-Holds (Codex.positional false false args) host piped
extract_by-Holds ollama args host piped reads =
    ollama-Holds (Ollama.subcommand false args) host piped
extract_by-Holds sgpt args host piped reads =
    sgpt-Holds (Sgpt.positional_prompt false [] args) host piped
extract_by-Holds gemini args host piped reads =
    gemini-Holds (Gemini.collected Gemini.argument [] args) host piped
extract_by-Holds mlx args host piped reads =
    mlx-Holds (Mlx.collected false none args) host piped reads

cut_bounds : (n : ℕ) (xs : List ℕ) → length (if leb (length xs) n then xs else take n xs) ≤ n
cut_bounds n xs = ground (arith, length-take n xs)

stdin_bounds : (host : Host) → length (stdin_of host) ≤ max_stdin_size
unfolding stdin_of read_stdin
stdin_bounds host =
    cut_bounds max_stdin_size (host.decode_utf8 (captured max_stdin_size 0 host.chunks))

held :
    (stdin : Word) (o : Option ExtractionContext) (c : ExtractionContext)
    → Holds stdin o
    → o ≡ some c
    → c.stdin_data ≡ some stdin
held stdin none c h e = absurd (cc)
held stdin (some d) c h e = subst (λ o. Holds stdin o) e h

-- Where stdin is piped, the adapter reads it (codex, ollama, sgpt and gemini always do, mlx for the
-- prompt `-`) and it finds something to scan, the tool is given on its standard input what
-- `readStdin` captured, no less and no more, which is at most 1024 * 1024 UTF-16 units; and all of
-- that stands in the text that is scanned, if the composed text is no longer than the cut.
pub extract_by-covers :
    (reader : Reader) (args : List Word) (host : Host) (c : ExtractionContext) (tool : Tool)
    (user : UserContext) (repo : Option RepoContext)
    → host.piped ≡ true
    → reads_stdin reader args ≡ true
    → (extract_by reader args host).context ≡ some c
    → length (compose_scan_text c) ≤ max_prompt_length
    → (c.stdin_data ≡ some (stdin_of host))
      × (length (stdin_of host) ≤ max_stdin_size)
      × Occurs (stdin_of host) (build_scan_request c tool user repo).text
extract_by-covers reader args host c tool user repo piped reads found short =
    let whole = held (stdin_of host) _ c (extract_by-Holds reader args host piped reads) found in
    (
      whole,
      stdin_bounds host,
      (build_scan_request-covers c tool user repo short).1 (stdin_of host) whole,
    )
