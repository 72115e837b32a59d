-- ===== src/Cli/ScanText/Coverage.antt =====
-- Nothing that the tool is given escapes the scanned text.
use vguardrail.Base.{
  ℕ, ◌+◌, ◌≤◌, ◌≡◌, refl, sym, ap, ◌∙◌, ◌⊎◌, inl, inr, true, Option, some, List, [], ◌∷◌, ◌++◌,
  append_assoc, append-nil, length, take, Bool-cases, not, ◌&&◌, ==_iff, arith,
}
use vguardrail.Base.Units.{units, units_eq, starts_with, includes, is_empty, join}
use vguardrail.Sdk.ScanRequest.{UserContext, RepoContext}
use vguardrail.Cli.ScanText.Cut.{cut_short, length-cut-le, take-cut}
use vguardrail.Cli.ScanText.{
  ScannedFile, ExtractionContext, max_prompt_length, truncation_mark, prompt_part, stdin_part,
  file_text, file_parts, compose_scan_text, truncate_prompt, Tool, build_scan_request,
}

-- One string stands somewhere in another.
abbrev pub Occurs : List ℕ → List ℕ → Type 0
Occurs p s = (before : List ℕ) × (after : List ℕ) × (s ≡ before ++ (p ++ after))

abbrev pub In : {A : Type 0} → A → List A → Type 0
In x [] = ⊥
In x (y ∷ ys) = (x ≡ y) ⊎ In x ys

starts_with_sound : (p s : List ℕ) → starts_with p s ≡ true → (after : List ℕ) × (s ≡ p ++ after)
starts_with_sound [] s h = (s, refl)
starts_with_sound (a ∷ p) [] h = cc
starts_with_sound (a ∷ p) (b ∷ s) h =
    let (after, e) = starts_with_sound p s (ground arith) in (after, ground (arith, ==_iff a b))

includes_sound : (p s : List ℕ) → includes p s ≡ true → Occurs p s
includes_sound p [] h = let (after, e) = starts_with_sound p [] h in ([], after, e)
includes_sound p (b ∷ s) h = elim (Bool-cases (starts_with p (b ∷ s))) [
  | inl here ↦ let (after, e) = starts_with_sound p (b ∷ s) here in ([], after, e)
  | inr not_here ↦
      let (before, after, e) = includes_sound p s (ground arith) in
      (b ∷ before, after, ap (λ t. b ∷ t) e)
]

Occurs-trans : (p q s : List ℕ) → Occurs p q → Occurs q s → Occurs p s
Occurs-trans p q s (c, d, e) (a, b, f) =
    (a ++ c, d ++ b, f ∙ ap (λ t. a ++ (t ++ b)) e ∙ (simp append_assoc))

Occurs-refl : (p : List ℕ) → Occurs p p
Occurs-refl p = ([], [], sym (append-nil p))

Occurs-tail : (x p : List ℕ) → Occurs p (x ++ p)
Occurs-tail x p = (x, [], ap (λ t. x ++ t) (sym (append-nil p)))

Occurs-skip : (p s x : List ℕ) → Occurs p s → Occurs p (x ++ s)
Occurs-skip p s x (a, b, e) = (x ++ a, b, ap (λ t. x ++ t) e ∙ sym (append_assoc x a (p ++ b)))

join-Occurs : (sep p : List ℕ) (ps : List (List ℕ)) → In p ps → Occurs p (join sep ps)
join-Occurs sep p [] h = absurd h
join-Occurs sep p (q ∷ []) (inl e) = ([], [], sym (append-nil p ∙ e))
join-Occurs sep p (q ∷ []) (inr h) = absurd h
join-Occurs sep p (q ∷ r ∷ ps) (inl e) =
    let rest = sep ++ join sep (r ∷ ps) in ([], rest, ap (λ t. t ++ rest) (sym e))
join-Occurs sep p (q ∷ r ∷ ps) (inr h) =
    let deeper = join-Occurs sep p (r ∷ ps) h in
    Occurs-skip p _ q (Occurs-skip p (join sep (r ∷ ps)) sep deeper)

In-append_left : {A : Type 0} (x : A) (xs ys : List A) → In x xs → In x (xs ++ ys)
In-append_left x [] ys h = absurd h
In-append_left x (z ∷ xs) ys (inl e) = inl e
In-append_left x (z ∷ xs) ys (inr h) = inr (In-append_left x xs ys h)

In-append_right : {A : Type 0} (x : A) (xs ys : List A) → In x ys → In x (xs ++ ys)
In-append_right x [] ys h = h
In-append_right x (z ∷ xs) ys h = inr (In-append_right x xs ys h)

-- A part of the text, or a piece of the prompt.
abbrev IsKept : List ℕ → List (List ℕ) → List ℕ → Type 0
IsKept prompt parts p = Occurs p prompt ⊎ ((q : List ℕ) × In q parts × Occurs p q)

file_text-Occurs : (f : ScannedFile) → Occurs f.content (file_text f)
unfolding file_text
file_text-Occurs f = Occurs-skip f.content _ (units "--- file: ") (
    Occurs-skip f.content _ f.path
      (Occurs-skip f.content _ (units " ---") (Occurs-tail (10 ∷ []) f.content)))

IsKept-cons :
    (prompt : List ℕ) (x : List ℕ) (parts : List (List ℕ)) (p : List ℕ)
    → IsKept prompt parts p
    → IsKept prompt (x ∷ parts) p
IsKept-cons prompt x parts p (inl h) = inl h
IsKept-cons prompt x parts p (inr (q, m, o)) = inr (q, inr m, o)

file_parts-IsKept :
    (prompt : List ℕ) (fs : List ScannedFile) (f : ScannedFile)
    → In f fs
    → IsKept prompt (file_parts prompt fs) f.content
unfolding file_parts
file_parts-IsKept prompt [] f h = absurd h
file_parts-IsKept prompt (g ∷ fs) f (inl e) =
    elim (Bool-cases (not (is_empty prompt) && includes g.content prompt)) [
      | inl skipped ↦ rw skipped (inl (includes_sound f.content prompt (rw e (ground arith))))
      | inr kept ↦ rw kept (inr (file_text g, inl refl, rw (← e) (file_text-Occurs f)))
    ]
file_parts-IsKept prompt (g ∷ fs) f (inr h) =
    elim (Bool-cases (not (is_empty prompt) && includes g.content prompt)) [
      | inl skipped ↦ rw skipped (file_parts-IsKept prompt fs f h)
      | inr kept ↦
          rw kept (IsKept-cons prompt (file_text g) _ f.content (file_parts-IsKept prompt fs f h))
    ]

units_eq_sound : (s t : List ℕ) → units_eq s t ≡ true → s ≡ t
units_eq_sound [] [] h = refl
units_eq_sound [] (b ∷ t) h = cc
units_eq_sound (a ∷ s) [] h = cc
units_eq_sound (a ∷ s) (b ∷ t) h = ground (arith, ==_iff a b, units_eq_sound s t)

stdin_part-IsKept :
    (prompt stdin : List ℕ) → IsKept prompt (stdin_part prompt (some stdin)) stdin ⊎ (stdin ≡ [])
unfolding stdin_part
stdin_part-IsKept prompt [] = inr refl
stdin_part-IsKept prompt (u ∷ stdin) =
    elim (Bool-cases (not (units_eq (u ∷ stdin) prompt) && not (includes (u ∷ stdin) prompt))) [
      | inl added ↦ inl (
          rw added
            (inr (_, inl refl, Occurs-tail (units "--- stdin ---" ++ (10 ∷ [])) (u ∷ stdin))))
      | inr kept ↦ inl (
          rw kept (
            inl (elim (Bool-cases (units_eq (u ∷ stdin) prompt)) [
              | inl same ↦ rw (← units_eq_sound (u ∷ stdin) prompt same) (Occurs-refl (u ∷ stdin))
              | inr other ↦ includes_sound (u ∷ stdin) prompt (ground arith)
            ])))
    ]

prompt_part-In : (prompt : List ℕ) → (prompt ≡ []) ⊎ In prompt (prompt_part prompt)
unfolding prompt_part
prompt_part-In [] = inl refl
prompt_part-In (u ∷ prompt) = inr (inl refl)

Occurs-nil : (p s : List ℕ) → p ≡ [] → Occurs p s
Occurs-nil p s e = ([], s, ap (λ t. t ++ s) (sym e))

module _ (c : ExtractionContext) where
  text : List ℕ
  text = compose_scan_text c

  part-Occurs :
      (q : List ℕ)
      → In q (
          prompt_part c.prompt ++ (stdin_part c.prompt c.stdin_data ++ file_parts c.prompt c.files))
      → Occurs q text
  unfolding text compose_scan_text
  part-Occurs q h = join-Occurs (10 ∷ 10 ∷ []) q _ h

  prompt-Occurs : Occurs c.prompt text
  prompt-Occurs = elim (prompt_part-In c.prompt) [
    | inl e ↦ Occurs-nil c.prompt text e
    | inr h ↦ part-Occurs c.prompt (In-append_left c.prompt (prompt_part c.prompt) _ h)
  ]

  -- What was kept is in the text, if the parts in which it was kept are.
  kept-Occurs :
      (parts : List (List ℕ)) (p : List ℕ)
      → ((q : List ℕ) → In q parts → Occurs q text)
      → IsKept c.prompt parts p
      → Occurs p text
  kept-Occurs parts p h (inl o) = Occurs-trans p c.prompt text o prompt-Occurs
  kept-Occurs parts p h (inr (q, m, o)) = Occurs-trans p q text o (h q m)

  file-Occurs : (f : ScannedFile) → In f c.files → Occurs f.content text
  file-Occurs f m =
      kept-Occurs (file_parts c.prompt c.files) f.content
        (λ q h. part-Occurs q (
          In-append_right q (prompt_part c.prompt) _
            (In-append_right q (stdin_part c.prompt c.stdin_data) _ h)))
        (file_parts-IsKept c.prompt c.files f m)

  stdin-Occurs : (s : List ℕ) → c.stdin_data ≡ some s → Occurs s text
  stdin-Occurs s e = elim (stdin_part-IsKept c.prompt s) [
    | inl k ↦
        kept-Occurs (stdin_part c.prompt (some s)) s
          (λ q h. part-Occurs q (
            In-append_right q (prompt_part c.prompt) _
              (In-append_left q (stdin_part c.prompt c.stdin_data) _ (rw e h))))
          k
    | inr none_given ↦ Occurs-nil s text none_given
  ]

-- If the composed text is no longer than the cut, each piece of what the tool is given stands in
-- the text of the request as it is: the prompt, the captured standard input and the content of
-- every file.
pub build_scan_request-covers :
    (c : ExtractionContext) (tool : Tool) (user : UserContext) (repo : Option RepoContext)
    → length (compose_scan_text c) ≤ max_prompt_length
    → Occurs c.prompt (build_scan_request c tool user repo).text
      × ((s : List ℕ) → c.stdin_data ≡ some s → Occurs s (build_scan_request c tool user repo).text)
      × ((f : ScannedFile)
          → In f c.files
          → Occurs f.content (build_scan_request c tool user repo).text)
unfolding build_scan_request text truncate_prompt
build_scan_request-covers c tool user repo short =
    let whole = cut_short max_prompt_length (compose_scan_text c) short in
    rw whole (prompt-Occurs c, stdin-Occurs c, file-Occurs c)

-- The scanned text is never longer than the cut and its mark, and agrees with the whole text up to
-- the cut.
pub truncate_prompt_bounds :
    (p : List ℕ)
    → (length (truncate_prompt p) ≤ max_prompt_length + length truncation_mark)
      × (take max_prompt_length (truncate_prompt p) ≡ take max_prompt_length p)
unfolding truncate_prompt
truncate_prompt_bounds p = (length-cut-le max_prompt_length p, take-cut max_prompt_length p)
