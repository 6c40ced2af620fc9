-- ===== src/Terminal/Completion/Tests.antt =====
-- Completion on concrete words.

use rustion.Prelude.{
  ℕ, ◌-◌, ◌<◌, ◌≤◌, ◌≡◌, ◌↔◌, refl, Bool, ◌&&◌, ◌||◌, some, none, List, [], ◌∷◌, ◌++◌, leb, All,
  Memᴰ,
}
use rustion.Prelude.Text.{Text, codes}
use rustion.Terminal.Completion.{
  is_allowed, insert, insert_words, with_inclusions, set_min_word_len, new_node, entry, collect,
  complete, get, BastionCompleter,
}
use rustion.Terminal.Completion.Exact.{IsAnswer, IsOffered, filled, complete_iff}
use rustion.Terminal.Completion.Order.{
  sort_by, natural_cmp, split_alpha_num, split_at_digit, text_cmp,
}
use rustion.Terminal.Completion.Line.{
  Suggestion, complete_line, up_to_cursor, cut_at, over_words, suggestions, suggest, each, words_of,
  replace_crlf, replace_newline, dedup, dedup_from, suggest_all,
}
use rustion.Terminal.Completion.Offered.{Fits, complete_line-Fits}

abbrev is_alphanumeric : ℕ → Bool
is_alphanumeric c = leb b'0' c && leb c b'9' || leb b'A' c && leb c b'Z' || leb b'a' c && leb c b'z'

abbrev words : List Text
words = codes "web-10" ∷ codes "web-2" ∷ codes "we.b" ∷ codes "db" ∷ []

abbrev completer : BastionCompleter
completer = filled is_alphanumeric (b'-' ∷ []) 0 words

complete_test :
    complete (codes "we") completer.root ≡ some (codes "" ∷ codes "b-10" ∷ codes "b-2" ∷ [])
unfolding complete get insert_words with_inclusions set_min_word_len insert is_allowed entry
    new_node collect rustion.Prelude.Text.split_on
complete_test = refl

complete_iff_example :
    IsAnswer
      (IsOffered (is_allowed is_alphanumeric (b'-' ∷ [])) 0 words)
      (codes "we")
      (complete (codes "we") completer.root)
complete_iff_example = complete_iff is_alphanumeric (b'-' ∷ []) 0 words (codes "we")

-- By number, not by text, and for the last word too.
complete_line_test :
    complete_line completer (codes "to web?") 6
    ≡ some (
        record { value = codes "web-2"; start = 3; end = 6 }
        ∷ record { value = codes "web-10"; start = 3; end = 6 }
        ∷ [])
unfolding complete get insert_words with_inclusions set_min_word_len insert is_allowed entry
    new_node collect rustion.Prelude.Text.split_on complete_line up_to_cursor cut_at over_words
    suggestions suggest each words_of replace_crlf replace_newline dedup dedup_from suggest_all
    sort_by natural_cmp split_alpha_num split_at_digit text_cmp
    rustion.Prelude.Decimal.parse_unsigned
complete_line_test = refl

complete_line-Fits_example :
    (gs : List Suggestion) × (complete_line completer (codes "to web?") 6 ≡ some gs)
    × All (Fits (IsOffered (is_allowed is_alphanumeric (b'-' ∷ [])) 0 words) 6) gs
complete_line-Fits_example =
    complete_line-Fits is_alphanumeric (b'-' ∷ []) 0 words (codes "to web?") (codes "to web") 6 cut
  where
    cut : up_to_cursor 6 (codes "to web?") ≡ some (codes "to web")
    cut = unfold up_to_cursor in unfold cut_at in refl
