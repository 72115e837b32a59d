-- ===== src/Cli/Tests/Adapters.antt =====
-- Concrete command lines.
use vguardrail.Base.{◌≡◌, refl, ◌≤◌, List, [], ◌∷◌, none, some, true, arith, length}
use vguardrail.Base.Units.{units}
use vguardrail.Cli.ScanText.{
  ExtractionContext, build_scan_request, compose_scan_text, create_extraction_context,
  max_prompt_length,
}
use vguardrail.Cli.ScanText.Coverage.{Occurs}
use vguardrail.Cli.Adapters.{Host, max_stdin_size, captured, read_stdin, stdin_of}
use vguardrail.Cli.Adapters.Codex
use vguardrail.Cli.Adapters.Codex.Words.{
  Item, valued, word, print, words, asked, extract_context-print,
}
use vguardrail.Cli.Adapters.Mlx
use vguardrail.Cli.Adapters.Covered.{mlx, extract_by, reads_stdin, extract_by-covers}
use vguardrail.Cli.Adapters.Files
use vguardrail.Cli.Tests.{tool, someone}

abbrev host : Host
host = record {
  piped = true;
  chunks = units "i" ∷ units "n" ∷ [];
  decode_utf8 = λ bytes. bytes;
  resolve_path = λ path. path;
  entry_at = λ path. some (true, units "key");
}

abbrev parts_of_line : List Item
parts_of_line = valued (units "-m") (units "o3") ∷ word (units "exec") ∷ word (units "hi") ∷ []

extract_context-print_example :
    Codex.extract_context (print parts_of_line (some (units "-C"))) host
    ≡ asked (words parts_of_line) host
unfolding Codex.takes_value Codex.is_switch
extract_context-print_example =
    extract_context-print parts_of_line (some (units "-C")) host
      (refl, ((refl, refl), ((refl, refl), tt))) refl

abbrev context : ExtractionContext
context = create_extraction_context (units "in") none (some (units "in"))

found_in : (extract_by mlx (units "--prompt" ∷ units "-" ∷ []) host).context ≡ some context
unfolding extract_by Mlx.extract_context Mlx.extracted_from Mlx.collected stdin_of read_stdin
    captured
found_in = refl

asks_stdin : reads_stdin mlx (units "--prompt" ∷ units "-" ∷ []) ≡ true
unfolding reads_stdin Mlx.collected
asks_stdin = refl

short : length (compose_scan_text context) ≤ max_prompt_length
unfolding compose_scan_text create_extraction_context
short = omega arith

extract_by-covers_example :
    (context.stdin_data ≡ some (stdin_of host))
    × (length (stdin_of host) ≤ max_stdin_size)
    × Occurs (stdin_of host) (build_scan_request context tool someone none).text
extract_by-covers_example =
    extract_by-covers mlx (units "--prompt" ∷ units "-" ∷ []) host context tool someone none refl
      asks_stdin found_in short

abbrev file_line : List Files.Item
file_line = Files.other (units "--yes") ∷ Files.named (units "--message-file") (units "a") ∷ []
