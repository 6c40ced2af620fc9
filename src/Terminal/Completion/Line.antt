-- ===== src/Terminal/Completion/Line.antt =====
-- `Completer::complete` of src/terminal/completion.rs: the suggestions for a line. None is a panic. A
-- suggestion stands without the fields that are the same in all.
use rustion.Prelude.{
  ℕ, suc, ◌-◌, Bool, ◌&&◌, Option, none, some, List, [], ◌∷◌, ◌++◌, leb, ltb, ◌==◌, if◌then◌else◌,
  keep, map,
}
use rustion.Prelude.Options.{◌>>=◌, minus}
use rustion.Prelude.Text.{Text, split, is_empty, text_eq}
use rustion.Prelude.Trim.{byte_len}
use rustion.Terminal.Completion.{CompletionNode, collect, complete, BastionCompleter}
use rustion.Terminal.Completion.Order.{natural_cmp, sort_by}

pub record Suggestion : Type 0 where
  pub value : Text
  pub start : ℕ
  pub end : ℕ

-- `&line[..pos]`: `pos` stands between two characters.
unfoldable pub cut_at : ℕ → Text → Option Text
cut_at pos [] = if pos == 0 then some [] else none
cut_at pos (c ∷ s) =
    let rest = cut_at (pos - byte_len (c ∷ [])) s in
    let longer = (do t ← rest; some (c ∷ t)) in
    if pos == 0 then some [] else if leb (byte_len (c ∷ [])) pos then longer else none

unfoldable pub up_to_cursor : ℕ → Text → Option Text
unfolding cut_at
up_to_cursor pos line = if ltb pos (byte_len line) then cut_at pos line else some line

-- `replace("\r\n", "  ")`, and `replace('\n', " ")`.
unfoldable pub replace_crlf : Text → Text
replace_crlf [] = []
replace_crlf (c ∷ []) = c ∷ []
replace_crlf (c ∷ d ∷ s) =
    let both = b' ' ∷ b' ' ∷ replace_crlf s in
    let one = c ∷ replace_crlf (d ∷ s) in if c == 0xd && d == 0xa then both else one

unfoldable pub replace_newline : Text → Text
replace_newline [] = []
replace_newline (c ∷ s) = (if c == 0xa then b' ' else c) ∷ replace_newline s

-- `map` with a closure that may panic.
unfoldable pub each : (Text → Option Suggestion) → List Text → Option (List Suggestion)
each f [] = some []
each f (x ∷ xs) = do y ← f x; ys ← each f xs; some (y ∷ ys)

-- The filter: the value is longer than what it stands for.
abbrev pub is_longer : Suggestion → Bool
is_longer t = ltb (t.end - t.start) (byte_len t.value)

-- The span of a suggestion.
unfoldable pub suggest : ℕ → Text → ℕ → Text → Option Suggestion
suggest pos span_line whitespaces ext = do
  rest ← minus pos (byte_len span_line)
  start ← minus rest whitespaces
  some (record { value = span_line ++ ext; start = start; end = pos })

-- The suggestions for the words from one on.
unfoldable pub suggestions : CompletionNode → ℕ → Text → ℕ → Option (List Suggestion)
unfolding suggest each
suggestions root pos span_line whitespaces = elim (complete span_line root) [
  | none ↦ some []
  | some extensions ↦ (do
    let sorted = sort_by (λ a b. natural_cmp (span_line ++ a) (span_line ++ b)) extensions
    made ← each (suggest pos span_line whitespaces) sorted
    some (keep is_longer made))
]

-- One word, from the back, in front of those before.
abbrev pub span_with : Text → Text → Text
span_with s span_line = if is_empty span_line then s else s ++ (b' ' ∷ span_line)

-- The words of the line, the last first.
unfoldable pub over_words : CompletionNode → ℕ → List Text → Text → ℕ → Option (List Suggestion)
unfolding suggestions
over_words root pos [] span_line whitespaces = some []
over_words root pos (s ∷ words) span_line whitespaces =
    let blank = over_words root pos words span_line (suc whitespaces) in
    let behind = over_words root pos words (span_with s span_line) whitespaces in
    let word = (do
      first ← suggestions root pos (span_with s span_line) whitespaces
      rest ← behind
      some (first ++ rest)) in
    if is_empty s then blank else word

abbrev pub suggestion_eq : Suggestion → Suggestion → Bool
suggestion_eq a b = text_eq a.value b.value && (a.start == b.start && a.end == b.end)

-- `dedup`: behind an item, those that are the same are taken out.
unfoldable pub dedup_from : Suggestion → List Suggestion → List Suggestion
dedup_from last [] = []
dedup_from last (x ∷ xs) =
    let fresh = x ∷ dedup_from x xs in
    let same = dedup_from last xs in if suggestion_eq x last then same else fresh

unfoldable pub dedup : List Suggestion → List Suggestion
unfolding dedup_from
dedup [] = []
dedup (x ∷ xs) = x ∷ dedup_from x xs

abbrev pub reverse_onto : List Text → List Text → List Text
reverse_onto acc [] = acc
reverse_onto acc (x ∷ xs) = reverse_onto (x ∷ acc) xs

-- The parts of the line between its spaces, the last first.
unfoldable pub words_of : Text → List Text
unfolding replace_crlf replace_newline
words_of line = reverse_onto [] (split b' ' (replace_newline (replace_crlf line)))

-- The suggestions for an empty line.
unfoldable pub suggest_all : CompletionNode → ℕ → List Suggestion
suggest_all root pos = keep is_longer (
    map (λ ext. record { value = ext; start = pos; end = pos })
      (sort_by natural_cmp (collect [] root)))

unfoldable pub complete_line : BastionCompleter → Text → ℕ → Option (List Suggestion)
unfolding up_to_cursor over_words words_of suggest_all dedup
complete_line b line pos = do
  line ← up_to_cursor pos line
  let many = over_words b.root pos (words_of line) [] 0
  completions ← if is_empty line then some (suggest_all b.root pos) else many
  some (dedup completions)
