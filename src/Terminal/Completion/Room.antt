-- ===== src/Terminal/Completion/Room.antt =====
-- The bytes of a line and of its words, in src/terminal/completion.rs.

use rustion.Prelude.{
  ℕ, suc, ◌+◌, ◌-◌, ◌≤◌, ◌≡◌, refl, none, some, List, [], ◌∷◌, ◌++◌, leb, ltb, ◌==◌, if◌then◌else◌,
  arith, Bool-cases, inl, inr,
}
use rustion.Prelude.Options.{bind-eq-some}
use rustion.Prelude.Text.{Text, split, split_on, cons_head}
use rustion.Prelude.Trim.{byte_len}
use rustion.Terminal.Completion.Line.{
  cut_at, up_to_cursor, replace_crlf, replace_newline, words_of, reverse_onto,
}

pub byte_len-append : (s t : Text) → byte_len (s ++ t) ≡ byte_len s + byte_len t
byte_len-append [] t = omega arith
byte_len-append (c ∷ s) t = omega (arith, byte_len-append s t)

byte_len-cut_at : (pos : ℕ) (s t : Text) → cut_at pos s ≡ some t → byte_len t ≡ pos
unfolding cut_at
byte_len-cut_at pos [] t h = elim (Bool-cases (pos == 0)) [
  | inl e ↦
      let done : some [] ≡ some t = rw e at h in let q : [] ≡ t = cc in rw (← q) (ground arith)
  | inr e ↦ let no : none ≡ some t = rw e at h in absurd (cc)
]
byte_len-cut_at pos (c ∷ s) t h = elim (Bool-cases (pos == 0)) [
  | inl e ↦
      let done : some [] ≡ some t = rw e at h in let q : [] ≡ t = cc in rw (← q) (ground arith)
  | inr e ↦ elim (Bool-cases (leb (byte_len (c ∷ [])) pos)) [
    | inl f ↦
        let (u, found, q) =
          bind-eq-some (cut_at (pos - byte_len (c ∷ [])) s) (λ u. some (c ∷ u)) (rw (e, f) at h) in
        let same : c ∷ u ≡ t = cc in
        let ih = byte_len-cut_at (pos - byte_len (c ∷ [])) s u found in rw (← same) (ground arith)
    | inr f ↦ let no : none ≡ some t = rw (e, f) at h in absurd (cc)
  ]
]

pub byte_len-up_to_cursor : (pos : ℕ) (s t : Text) → up_to_cursor pos s ≡ some t → byte_len t ≤ pos
unfolding up_to_cursor
byte_len-up_to_cursor pos s t h = elim (Bool-cases (ltb pos (byte_len s))) [
  | inl e ↦ let q = byte_len-cut_at pos s t (rw e at h) in omega arith
  | inr e ↦ let done : some s ≡ some t = rw e at h in let q : s ≡ t = cc in rw (← q) (ground arith)
]

byte_len-replace_crlf : (s : Text) → byte_len (replace_crlf s) ≡ byte_len s
unfolding replace_crlf
byte_len-replace_crlf [] = refl
byte_len-replace_crlf (c ∷ []) = refl
byte_len-replace_crlf (c ∷ d ∷ s) =
    let two = byte_len-replace_crlf s in let one = byte_len-replace_crlf (d ∷ s) in ground arith

byte_len-replace_newline : (s : Text) → byte_len (replace_newline s) ≡ byte_len s
unfolding replace_newline
byte_len-replace_newline [] = refl
byte_len-replace_newline (c ∷ s) = let one = byte_len-replace_newline s in ground arith

-- The bytes of the words, each with a space.
abbrev pub room : List Text → ℕ
room [] = 0
room (w ∷ ws) = suc (byte_len w) + room ws

room-split : (s : Text) → room (split b' ' s) ≡ suc (byte_len s)
unfolding split_on
room-split [] = refl
room-split (c ∷ s) = go (split b' ' s) (room-split s)
  where
    go :
        (ws : List Text)
        → room ws ≡ suc (byte_len s)
        → room (if c == b' ' then [] ∷ ws else cons_head c ws) ≡ suc (byte_len (c ∷ s))
    go [] h = absurd (omega arith)
    go (w ∷ ws) h = ground arith

room-reverse_onto : (acc ws : List Text) → room (reverse_onto acc ws) ≡ room acc + room ws
room-reverse_onto acc [] = omega arith
room-reverse_onto acc (w ∷ ws) = omega (arith, room-reverse_onto (w ∷ acc) ws)

pub room-words_of : (line : Text) → room (words_of line) ≡ suc (byte_len line)
unfolding words_of
room-words_of line =
    let ready = replace_newline (replace_crlf line) in
    let a = room-reverse_onto [] (split b' ' ready) in
    let b = room-split ready in
    let c = byte_len-replace_newline (replace_crlf line) in
    let d = byte_len-replace_crlf line in omega arith
