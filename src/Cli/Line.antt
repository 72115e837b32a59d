-- ===== src/Cli/Line.antt =====
-- cli-connectors/framework/src/process/line-reconstructor.ts. A chunk is a list of bytes, which
-- Node's encoding 'binary' turns into as many characters.
pub mod Typing
use vguardrail.Base.{
  ℕ, zero, suc, Bool, true, false, not, ◌&&◌, ◌||◌, Option, none, some, List, [], ◌∷◌, ◌++◌, ltb,
  leb, ◌==◌, length, drop, if◌then◌else◌,
}
use vguardrail.Base.Units.{units, starts_with, is_space}

-- The constants
abbrev pub paste_start : List ℕ
paste_start = 0x1b ∷ units "[200~"

abbrev pub paste_end : List ℕ
paste_end = 0x1b ∷ units "[201~"

pub record SubmittedLine : Type 0 where
  pub text : List ℕ
  pub dirty : Bool

-- The fields of `LineReconstructor`
pub record Line : Type 0 where
  pub buffer : List ℕ
  pub dirty : Bool
  pub pasting : Bool
  pub pending : List ℕ

abbrev pub new_line : Line
new_line = record { buffer = []; dirty = false; pasting = false; pending = [] }

-- The text up to a mark and the text after it, if the mark stands in the text.
pub split_at : List ℕ → List ℕ → Option (List ℕ × List ℕ)
split_at mark [] = none
split_at mark (c ∷ r) =
    let further = split_at mark r in
    if starts_with mark (c ∷ r)
    then some ([], drop (length mark) (c ∷ r))
    else elim further [ none ↦ none | some (before, after) ↦ some (c ∷ before, after) ]

-- The parameters and the final byte of a control sequence.
pub after_csi : List ℕ → Option (List ℕ)
after_csi [] = none
after_csi (c ∷ r) =
    let further = after_csi r in if leb 0x40 c && leb c 0x7e then some r else further

after_ss3 : List ℕ → Option (List ℕ)
after_ss3 [] = none
after_ss3 (c ∷ r) = some r

-- `escapeSequenceEnd`, given what follows the ESC: what follows the sequence, if it is complete
unfoldable pub after_escape : List ℕ → Option (List ℕ)
unfolding after_csi after_ss3
after_escape [] = none
after_escape (second ∷ r) =
    if second == 0x5b then after_csi r else if second == 0x4f then after_ss3 r else some r

abbrev pub drop_last : List ℕ → List ℕ
drop_last [] = []
drop_last (c ∷ []) = []
drop_last (c ∷ d ∷ r) = c ∷ drop_last (d ∷ r)

-- Whether a text is characters that are no spaces, one at least, and then spaces: /\S+\s*$/ at its
-- start.
abbrev pub spaces_only : List ℕ → Bool
spaces_only [] = true
spaces_only (c ∷ r) = is_space c && spaces_only r

unfoldable pub word_ends : List ℕ → Bool
word_ends [] = false
word_ends (c ∷ r) = not (is_space c) && (spaces_only r || word_ends r)

-- `buffer.replace(/\S+\s*$/, '')`
unfoldable pub kill_word : List ℕ → List ℕ
kill_word [] = []
kill_word (c ∷ r) = let rest = kill_word r in if word_ends (c ∷ r) then [] else c ∷ rest

-- What the character `c`, which neither starts a sequence nor ends the line, makes of the line.
unfoldable pub typed : ℕ → Line → Line
unfolding kill_word
typed c l =
    if c == 0x08 || c == 0x7f
    then record l { buffer = drop_last l.buffer }
    else if c == 0x15
    then record l { buffer = []; dirty = false }
    else if c == 0x17
    then record l { buffer = kill_word l.buffer }
    else if ltb c 0x20
    then (if c == 0x03 then record l { buffer = []; dirty = false } else record l { dirty = true })
    else record l { buffer = l.buffer ++ (c ∷ []) }

-- Whether a turn of the loop returns or goes on: with the line, what it submits, and the text left.
pub data Turn : Type 0 where
  stop : Line → Turn
  go : Line → List SubmittedLine → List ℕ → Turn

pasted : Line → List ℕ → Option (List ℕ × List ℕ) → Turn
pasted l text none = stop (record l { buffer = l.buffer ++ text })
pasted l text (some (before, after)) =
    go (record l { buffer = l.buffer ++ before; pasting = false }) [] after

escaped : Line → List ℕ → Option (List ℕ) → Turn
escaped l text none = stop (record l { pending = text })
escaped l text (some r) = go (record l { dirty = true }) [] r

-- A LF right after a CR is swallowed.
abbrev pub skip_lf : ℕ → List ℕ → List ℕ
skip_lf c [] = []
skip_lf c (d ∷ r) = if c == 0x0d && d == 0x0a then r else d ∷ r

unfoldable pub turn_at : Bool → Line → ℕ → List ℕ → Turn
unfolding pasted escaped split_at after_escape
turn_at true l c r = pasted l (c ∷ r) (split_at paste_end (c ∷ r))
turn_at false l c r =
    if c == 0x1b
    then (if starts_with paste_start (c ∷ r)
        then go (record l { pasting = true }) [] (drop (length paste_start) (c ∷ r))
        else escaped l (c ∷ r) (after_escape r))
    else if c == 0x0d || c == 0x0a
    then go (record l { buffer = []; dirty = false })
        (record { text = l.buffer; dirty = l.dirty } ∷ []) (skip_lf c r)
    else go (typed c l) [] r

-- One turn of the loop at the character `c`, with the text `r` after it.
unfoldable pub turn : Line → ℕ → List ℕ → Turn
unfolding turn_at
turn l c r = turn_at l.pasting l c r

unfoldable pub follow :
    (Line → List ℕ → Line × List SubmittedLine) → Turn → Line × List SubmittedLine
follow loop (stop l) = (l, [])
follow loop (go l out rest) = let (l', more) = loop l rest in (l', out ++ more)

-- The loop of `push`: each turn that goes on takes a character at least, so that the length of the
-- text is enough fuel.
unfoldable pub push_from : ℕ → Line → List ℕ → Line × List SubmittedLine
unfolding turn follow
push_from zero l text = (l, [])
push_from (suc fuel) l [] = (l, [])
push_from (suc fuel) l (c ∷ r) = follow (push_from fuel) (turn l c r)

-- `push`
unfoldable pub push : Line → List ℕ → Line × List SubmittedLine
unfolding push_from
push l chunk =
    let text = l.pending ++ chunk in push_from (length text) (record l { pending = [] }) text
