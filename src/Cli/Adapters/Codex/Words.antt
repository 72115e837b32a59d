-- ===== src/Cli/Adapters/Codex/Words.antt =====
-- What the adapter makes of any command line of the tool.
use vguardrail.Base.{
  ◌≡◌, refl, ap, arith, ◌∙◌, true, false, not, Option, none, some, List, [], ◌∷◌, if◌then◌else◌,
  keep, All, Bool-cases, inl, inr,
}
use vguardrail.Base.Units.{units, join}
use vguardrail.Cli.Connector.{ExtractionResult}
use vguardrail.Cli.Adapters.{Word, is, Host, not_found, with_stdin}
use vguardrail.Cli.Adapters.Codex.{
  takes_value, carries_none, is_switch, with_word, positional, extracted_from, extract_context,
}

-- The parts of a command line: a flag with its value, a flag without, and a word.
pub data Item : Type 0 where
  valued : Word → Word → Item
  switch : Word → Item
  word : Word → Item

-- A command line: its parts, and then the flag at the end whose value is missing, if there is one.
pub print : List Item → Option Word → List Word
print [] none = []
print [] (some flag) = flag ∷ []
print (valued flag value ∷ items) last = flag ∷ value ∷ print items last
print (switch flag ∷ items) last = flag ∷ print items last
print (word w ∷ items) last = w ∷ print items last

abbrev pub IsItem : Item → Type 0
IsItem (valued flag value) = takes_value flag ≡ true
IsItem (switch flag) = (takes_value flag ≡ false) × (is_switch flag ≡ true)
IsItem (word w) = (takes_value w ≡ false) × (is_switch w ≡ false)

pub words : List Item → List Word
words [] = []
words (valued flag value ∷ items) = words items
words (switch flag ∷ items) = words items
words (word w ∷ items) = w ∷ words items

-- The prompt that these words are: `-` is not of it.
abbrev pub prompt_of : List Word → Word
prompt_of ws = join (units " ") (keep (λ w. not (is "-" w)) ws)

-- What the words of a command line ask for.
abbrev pub asked : List Word → Host → ExtractionResult
asked [] host = with_stdin [] host
asked (first ∷ rest) host =
    if is "exec" first
    then with_stdin (prompt_of rest) host
    else if carries_none first
    then not_found
    else with_stdin (prompt_of (first ∷ rest)) host

-- A flag at the end whose value is missing.
abbrev pub IsDangling : Option Word → Type 0
IsDangling none = Unit
IsDangling (some flag) = takes_value flag ≡ true

with_word-keep :
    (w : Word) (ws : List Word)
    → with_word w (some (keep (λ v. not (is "-" v)) ws))
      ≡ some (keep (λ v. not (is "-" v)) (w ∷ ws))
unfolding with_word
with_word-keep w ws = ground arith

positional_seen :
    (items : List Item) (last : Option Word)
    → All IsItem items
    → IsDangling last
    → positional false true (print items last) ≡ some (keep (λ v. not (is "-" v)) (words items))
unfolding positional print words
positional_seen [] none h e = refl
positional_seen [] (some flag) h e = rw e refl
positional_seen (valued flag value ∷ items) last (f, h) e = rw f (positional_seen items last h e)
positional_seen (switch flag ∷ items) last ((f, g), h) e =
    rw (f, g) (positional_seen items last h e)
positional_seen (word w ∷ items) last ((f, g), h) e =
    rw (f, g, positional_seen items last h e) (with_word-keep w (words items))

-- The words that go into the prompt, or none for a subcommand without a prompt.
abbrev taken : List Word → Option (List Word)
taken [] = some []
taken (first ∷ rest) =
    if is "exec" first
    then some (keep (λ v. not (is "-" v)) rest)
    else if carries_none first
    then none
    else some (keep (λ v. not (is "-" v)) (first ∷ rest))

positional_fresh :
    (items : List Item) (last : Option Word)
    → All IsItem items
    → IsDangling last
    → positional false false (print items last) ≡ taken (words items)
unfolding positional print words
positional_fresh [] none h e = refl
positional_fresh [] (some flag) h e = rw e refl
positional_fresh (valued flag value ∷ items) last (f, h) e = rw f (positional_fresh items last h e)
positional_fresh (switch flag ∷ items) last ((f, g), h) e =
    rw (f, g) (positional_fresh items last h e)
positional_fresh (word w ∷ items) last ((f, g), h) e =
    rw (f, g, positional_seen items last h e)
      (elim (Bool-cases (is "exec" w)) [
        | inl exec ↦ rw exec refl
        | inr other ↦ rw other (elim (Bool-cases (carries_none w)) [
          | inl none_there ↦ rw none_there refl
          | inr prompt ↦ rw prompt (with_word-keep w (words items))
        ])
      ])

taken-asked : (ws : List Word) (host : Host) → extracted_from (taken ws) host ≡ asked ws host
unfolding extracted_from
taken-asked [] host = refl
taken-asked (first ∷ rest) host = elim (Bool-cases (is "exec" first)) [
  | inl exec ↦ rw exec refl
  | inr other ↦ rw other (elim (Bool-cases (carries_none first)) [
    | inl none_there ↦ rw none_there refl
    | inr prompt ↦ rw prompt refl
  ])
]

abbrev pub Printed : List Word → Type 0
Printed args =
    (items : List Item) × (last : Option Word) × All IsItem items
    × IsDangling last
    × (print items last ≡ args)

with_plain :
    (w : Word) (args : List Word) → takes_value w ≡ false → Printed args → Printed (w ∷ args)
unfolding print
with_plain w args plain (items, last, h, e, same) = elim (Bool-cases (is_switch w)) [
  | inl on ↦ (switch w ∷ items, last, ((plain, on), h), e, ap (λ (t : List Word). w ∷ t) same)
  | inr off ↦ (word w ∷ items, last, ((plain, off), h), e, ap (λ (t : List Word). w ∷ t) same)
]

with_flag :
    (flag value : Word) (args : List Word)
    → takes_value flag ≡ true
    → Printed args
    → Printed (flag ∷ value ∷ args)
unfolding print
with_flag flag value args takes (items, last, h, e, same) =
    (valued flag value ∷ items, last, (takes, h), e, ap (λ (t : List Word). flag ∷ value ∷ t) same)

-- Every command line is made of such parts.
pub args-Printed : (args : List Word) → Printed args
unfolding print
args-Printed [] = ([], none, tt, tt, refl)
args-Printed (w ∷ []) = elim (Bool-cases (takes_value w)) [
  | inl takes ↦ ([], some w, tt, takes, refl)
  | inr plain ↦ with_plain w [] plain ([], none, tt, tt, refl)
]
args-Printed (w ∷ v ∷ args) =
    let after = args-Printed args in
    let next = args-Printed (v ∷ args) in
    elim (Bool-cases (takes_value w)) [
      | inl takes ↦ with_flag w v args takes after
      | inr plain ↦ with_plain w (v ∷ args) plain next
    ]

-- For every command line, which consists of flags with values, flags without, words, and maybe a last
-- flag whose value is missing, in any order: after `exec` as the first word, all further words but
-- `-` make the prompt; a first word that is a subcommand without a prompt asks for nothing; otherwise
-- all words but `-` make it. What is piped goes with the prompt.
pub extract_context-print :
    (items : List Item) (last : Option Word) (host : Host)
    → All IsItem items
    → IsDangling last
    → extract_context (print items last) host ≡ asked (words items) host
unfolding extract_context
extract_context-print items last host h e =
    ap (λ o. extracted_from o host) (positional_fresh items last h e)
    ∙ taken-asked (words items) host
