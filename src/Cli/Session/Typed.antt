-- ===== src/Cli/Session/Typed.antt =====
-- A line that is typed and submitted.
use vguardrail.Base.{
  ◌≡◌, refl, ap, ◌∙◌, ℕ, suc, Bool, false, none, some, List, [], ◌∷◌, ◌++◌, ◌==◌, length, All,
  arith, if◌then◌else◌, ◌||◌,
}
use vguardrail.Base.Units.{is_blank, starts_with}
use vguardrail.Cli.Line.{Line, SubmittedLine}
use vguardrail.Cli.Line.Typing.{IsPlain, push_plain, push_enter}
use vguardrail.Cli.Session.{
  Options, State, Write, bytes, enter, clear, split_newline, to_scan, gate_line, clear_sequence,
  pass, gated, end_line, one_line, process_from, process_slice,
}

split-plain : (t : List ℕ) → All IsPlain t → split_newline (t ++ (0x0d ∷ [])) ≡ some (t, 0x0d, [])
unfolding split_newline
split-plain [] plain = refl
split-plain (c ∷ t) ((low, del), plain) =
    let a : (c == 0x0d) ≡ false = ground arith in
    let b : (c == 0x0a) ≡ false = ground arith in rw (a, b, split-plain t plain) refl

module _ {S : Type 0} (options : Options S) where
  -- The state in which a line has just been taken over.
  abbrev pub taken : State S → State S
  taken s = record s { line = record s.line { buffer = []; dirty = false; pending = [] } }

  pass_plain :
      (c : ℕ) (r : List ℕ) (s : State S)
      → s.line.pasting ≡ false
      → s.line.pending ≡ []
      → All IsPlain (c ∷ r)
      → pass options (c ∷ r) s ≡ (
        bytes (c ∷ r) ∷ [],
        record s { line = record s.line { buffer = s.line.buffer ++ (c ∷ r); pending = [] } },
      )
  unfolding pass
  pass_plain c r s idle clean plain =
      ap (λ (p : Line × List SubmittedLine). (bytes (c ∷ r) ∷ [], record s { line = p.0 }))
        (push_plain s.line (c ∷ r) idle clean plain)

  end_line_scanned :
      (s : State S)
      → s.line.pasting ≡ false
      → s.line.pending ≡ []
      → to_scan (record { text = s.line.buffer; dirty = s.line.dirty } ∷ []) ≡ some s.line.buffer
      → end_line options 0x0d s ≡ gated options (some s.line.buffer) (taken s)
  unfolding end_line
  end_line_scanned s idle clean scanned =
      ap (λ (p : Line × List SubmittedLine). gated options (to_scan p.1) (record s { line = p.0 }))
        (push_enter s.line idle clean)
      ∙ ap (λ o. gated options o (taken s)) scanned

  finish : (n : ℕ) (ws : List Write) (e : Write × State S) → List Write × State S
  finish n ws (e, s) = let (more, s') = process_from options n [] s in (ws ++ (e ∷ more), s')

  finish_lem :
      (n : ℕ) (ws : List Write) (e : Write × State S)
      → finish (suc n) ws e ≡ (ws ++ (e.0 ∷ []), e.1)
  unfolding finish process_from one_line split_newline pass
  finish_lem n ws (e, s) = refl

  -- A line of plain characters and then Enter, where no paste or escape sequence is under way and
  -- the whole line, with what was typed of it earlier, is neither blank nor a slash command: the
  -- characters go to the child at once; the whole line is given to the gate, the reconstructor
  -- having started an empty line; and the Enter key goes to the child if the gate lets the line
  -- through, else the child's input is cleared.
  pub process_slice-typed :
      (c : ℕ) (r : List ℕ) (s : State S)
      → s.line.pasting ≡ false
      → s.line.pending ≡ []
      → All IsPlain (c ∷ r)
      → (is_blank (s.line.buffer ++ (c ∷ r)) || starts_with (0x2f ∷ []) (s.line.buffer ++ (c ∷ r)))
        ≡ false
      → process_slice options ((c ∷ r) ++ (0x0d ∷ [])) s ≡ (
          let out = gate_line options (s.line.buffer ++ (c ∷ r)) (taken s) in
          (bytes (c ∷ r) ∷ (if out.0 then enter else clear (clear_sequence options)) ∷ [], out.1))
  unfolding process_slice process_from one_line finish gated to_scan
  process_slice-typed c r s idle clean plain must =
      let line = s.line.buffer ++ (c ∷ r) in
      let chunk = (c ∷ r) ++ (0x0d ∷ []) in
      let s1 : State S = record s { line = record s.line { buffer = line; pending = [] } } in
      ap (λ o. one_line options (process_from options (length chunk)) o chunk s)
        (split-plain (c ∷ r) plain)
      ∙ ap (λ (p : List Write × State S). finish (length chunk) p.0 (end_line options 0x0d p.1))
          (pass_plain c r s idle clean plain)
      ∙ ap (finish (length chunk) (bytes (c ∷ r) ∷ []))
          (end_line_scanned s1 idle refl (ap (λ (b : Bool). if b then none else some line) must))
      ∙ finish_lem (length (r ++ (0x0d ∷ []))) (bytes (c ∷ r) ∷ [])
          (gated options (some line) (taken s))
