-- ===== src/Recording/Utf8/Many.antt =====
-- Many chunks fed to the decoder of src/asciinema/util.rs, one after the other.
use rustion.Prelude.{◌≡◌, refl, sym, ap, ◌∙◌, List, [], ◌∷◌, ◌++◌}
use mathlib.Core.List.{append-nil, append_assoc}
use rustion.Prelude.Text.{Text}
use rustion.Recording.Utf8.{Bytes, feed}
use rustion.Recording.Utf8.Chunks.{feed-append}

-- The chunks as one.
abbrev pub concat : List Bytes → Bytes
concat [] = []
concat (b ∷ bs) = b ++ concat bs

-- Chunks fed one after the other.
unfoldable pub feed_all : Bytes → List Bytes → Text × Bytes
feed_all d [] = ([], d)
feed_all d (b ∷ bs) =
    let (text, kept) = feed d b in let (more, last) = feed_all kept bs in (text ++ more, last)

self_append : (t u : Text) → t ≡ t ++ u → u ≡ []
self_append [] u e = sym e
self_append (c ∷ t) u e = self_append t u (cc)

-- What was kept gives nothing by itself.
feed-kept : (d b : Bytes) → feed (feed d b).1 [] ≡ ([], (feed d b).1)
feed-kept d b =
    let e : feed d b ≡ ((feed d b).0 ++ (feed (feed d b).1 []).0, (feed (feed d b).1 []).1) =
      ap (feed d) (sym (append-nil b)) ∙ feed-append d b [] in
    let nothing = self_append (feed d b).0 (feed (feed d b).1 []).0 (ap (λ p. p.0) e) in
    let same = ap (λ p. p.1) e in λ i. (nothing i, sym same i)

pub feed_all-concat :
    (d : Bytes) (bs : List Bytes) → feed d [] ≡ ([], d) → feed_all d bs ≡ feed d (concat bs)
unfolding feed_all
feed_all-concat d [] h = sym h
feed_all-concat d (b ∷ bs) h =
    let ih = feed_all-concat (feed d b).1 bs (feed-kept d b) in
    ap (λ p. ((feed d b).0 ++ p.0, p.1)) ih ∙ sym (feed-append d b (concat bs))

pub feed_all-append :
    (d : Bytes) (bs cs : List Bytes)
    → feed_all d (bs ++ cs)
      ≡ ((feed_all d bs).0 ++ (feed_all (feed_all d bs).1 cs).0, (feed_all (feed_all d bs).1 cs).1)
unfolding feed_all
feed_all-append d [] cs = refl
feed_all-append d (b ∷ bs) cs =
    let first = feed d b in
    let middle = feed_all first.1 bs in
    let last = feed_all middle.1 cs in
    ap (λ p. (first.0 ++ p.0, p.1)) (feed_all-append first.1 bs cs)
    ∙ ap (λ x. (x, last.1)) (sym (append_assoc first.0 middle.0 last.0))

pub feed-nil : feed [] [] ≡ ([], [])
unfolding feed
feed-nil = refl
