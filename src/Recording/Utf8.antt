-- ===== src/Recording/Utf8.antt =====
-- `Utf8Decoder` of src/asciinema/util.rs, over `std::str::from_utf8`.
mod Front
pub mod Chunks
pub mod Many
use rustion.Prelude.{
  ℕ, zero, suc, ◌+◌, ◌-◌, ◌*◌, Bool, ◌&&◌, Option, none, some, List, [], ◌∷◌, ◌++◌, ltb, leb, ◌==◌,
  if◌then◌else◌, length,
}
use rustion.Prelude.Text.{Text}

abbrev pub Bytes : Type 0
Bytes = List ℕ

-- What stands at the front of some bytes: nothing, a character and what is behind it, a sequence of
-- so many bytes that is none, or the start of one that breaks off.
pub data Head : Type 0 where
  end : Head
  char : ℕ → Bytes → Head
  bad : ℕ → Head
  cut : Head

is_continuation : ℕ → Bool
is_continuation b = leb 0x80 b && leb b 0xbf

two : ℕ → Bytes → Head
unfolding is_continuation
two a [] = cut
two a (b ∷ s) = if is_continuation b then char ((a - 0xc0) * 64 + (b - 0x80)) s else bad 1

-- The second byte after the first of three, and of four.
second_of_three : ℕ → ℕ → Bool
second_of_three a b =
    if a == 0xe0
    then leb 0xa0 b && leb b 0xbf
    else if a == 0xed
    then leb 0x80 b && leb b 0x9f
    else leb 0x80 b && leb b 0xbf

second_of_four : ℕ → ℕ → Bool
second_of_four a b =
    if a == 0xf0
    then leb 0x90 b && leb b 0xbf
    else if a == 0xf4
    then leb 0x80 b && leb b 0x8f
    else leb 0x80 b && leb b 0xbf

three : ℕ → Bytes → Head
unfolding is_continuation second_of_three
three a [] = cut
three a (b ∷ []) = if second_of_three a b then cut else bad 1
three a (b ∷ c ∷ s) =
    if second_of_three a b
    then if is_continuation c
      then char ((a - 0xe0) * 4096 + (b - 0x80) * 64 + (c - 0x80)) s
      else bad 2
    else bad 1

-- The last byte of four.
last_of_four : ℕ → ℕ → ℕ → Bytes → Head
unfolding is_continuation
last_of_four a b c [] = cut
last_of_four a b c (d ∷ s) =
    if is_continuation d
    then char ((a - 0xf0) * 262144 + (b - 0x80) * 4096 + (c - 0x80) * 64 + (d - 0x80)) s
    else bad 3

four : ℕ → Bytes → Head
unfolding is_continuation second_of_four last_of_four
four a [] = cut
four a (b ∷ []) = if second_of_four a b then cut else bad 1
four a (b ∷ c ∷ s) =
    if second_of_four a b then if is_continuation c then last_of_four a b c s else bad 2 else bad 1

unfoldable pub next_char : Bytes → Head
unfolding two three four
next_char [] = end
next_char (a ∷ s) =
    if ltb a 0x80
    then char a s
    else if leb 0xc2 a && leb a 0xdf
    then two a s
    else if leb 0xe0 a && leb a 0xef
    then three a s
    else if leb 0xf0 a && leb a 0xf4
    then four a s
    else bad 1

-- `Result<&str, Utf8Error>`: the text; or the text up to `valid_up_to`, the bytes from there on, and
-- `error_len`.
pub data Utf8 : Type 0 where
  valid : Text → Utf8
  invalid : Text → Bytes → Option ℕ → Utf8

abbrev pub prepend : ℕ → Utf8 → Utf8
prepend c (valid t) = valid (c ∷ t)
prepend c (invalid t rest n) = invalid (c ∷ t) rest n

-- `std::str::from_utf8`; the number of the bytes is fuel enough.
unfoldable pub from_utf8 : ℕ → Bytes → Utf8
from_utf8 zero bytes = valid []
from_utf8 (suc fuel) bytes = elim (next_char bytes) [
  | end ↦ valid []
  | char c rest ↦ prepend c (from_utf8 fuel rest)
  | bad n ↦ invalid [] bytes (some n)
  | cut ↦ invalid [] bytes none
]

abbrev pub drop : ℕ → Bytes → Bytes
drop zero s = s
drop (suc n) [] = []
drop (suc n) (x ∷ s) = drop n s

abbrev pub replacement : ℕ
replacement = 0xfffd

-- The loop of `feed`: the output and the bytes that are kept. Each round takes a byte away.
unfoldable pub feed_loop : ℕ → Bytes → Text × Bytes
unfolding from_utf8
feed_loop zero bytes = ([], bytes)
feed_loop (suc fuel) [] = ([], [])
feed_loop (suc fuel) (a ∷ s) = elim (from_utf8 (length (a ∷ s)) (a ∷ s)) [
  | valid text ↦ (text, [])
  | invalid text rest error_len ↦ elim error_len [
    | some len ↦
        let (more, kept) = feed_loop fuel (drop len rest) in (text ++ (replacement ∷ more), kept)
    | none ↦ (text, rest)
  ]
]

-- `feed`: the decoder is the bytes that it keeps.
unfoldable pub feed : Bytes → Bytes → Text × Bytes
unfolding feed_loop
feed kept input = let all = kept ++ input in feed_loop (suc (length all)) all
