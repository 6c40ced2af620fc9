-- ===== src/Recording/Session/Acts.antt =====
-- Calls of a recorder in a sequence, and what the events that come of them say.
use rustion.Prelude.{ℕ, ◌≤◌, Option, some, List, [], ◌∷◌, ◌++◌}
use rustion.Prelude.Int.{ℤ}
use rustion.Prelude.Text.{Text}
use rustion.Recording.Utf8.{Bytes}
use rustion.Prelude.Options.{◌>>=◌}
use rustion.Recording.Session.{
  TtySize, Event, output, input, marker, resize, exit, Session, handle_output, handle_input,
  handle_resize, handle_exit, handle_marker,
}

pub data Act : Type 0 where
  wrote typed : Bytes → Act
  resized : TtySize → Act
  exited : ℤ → Act
  marked : Text → Act

-- The call for an act, without its answer.
unfoldable pub handle : ℕ → Act → Session → Option (List Event × Session)
handle now (wrote bytes) s = do (es, _, s') ← handle_output now bytes s; some (es, s')
handle now (typed bytes) s = do (es, _, s') ← handle_input now bytes s; some (es, s')
handle now (resized size) s = do (es, _, s') ← handle_resize now size s; some (es, s')
handle now (exited status) s = do (es, _, s') ← handle_exit now status s; some (es, s')
handle now (marked label) s = do (es, _, s') ← handle_marker now label s; some (es, s')

-- The acts one after the other, each with the time at which it comes.
unfoldable pub run : Session → List (ℕ × Act) → Option (List Event × Session)
run s [] = some ([], s)
run s ((now, a) ∷ acts) = do
  (first, s') ← handle now a s
  (later, s'') ← run s' acts
  some (first ++ later, s'')

-- The text of the output events, and of the input events.
abbrev pub printed : List Event → Text
printed [] = []
printed (output _ t ∷ es) = t ++ printed es
printed (input _ _ ∷ es) = printed es
printed (marker _ _ ∷ es) = printed es
printed (resize _ _ ∷ es) = printed es
printed (exit _ _ ∷ es) = printed es

abbrev pub entered : List Event → Text
entered [] = []
entered (input _ t ∷ es) = t ++ entered es
entered (output _ _ ∷ es) = entered es
entered (marker _ _ ∷ es) = entered es
entered (resize _ _ ∷ es) = entered es
entered (exit _ _ ∷ es) = entered es

abbrev pub time_of : Event → ℕ
time_of (output t _) = t
time_of (input t _) = t
time_of (marker t _) = t
time_of (resize t _) = t
time_of (exit t _) = t

-- The bytes that the acts wrote, and that they typed.
abbrev pub written_by : Act → List Bytes
written_by (wrote bytes) = bytes ∷ []
written_by (typed _) = []
written_by (resized _) = []
written_by (exited _) = []
written_by (marked _) = []

abbrev pub typed_by : Act → List Bytes
typed_by (typed bytes) = bytes ∷ []
typed_by (wrote _) = []
typed_by (resized _) = []
typed_by (exited _) = []
typed_by (marked _) = []

abbrev pub all_bytes : (Act → List Bytes) → List (ℕ × Act) → List Bytes
all_bytes f [] = []
all_bytes f ((_, a) ∷ acts) = f a ++ all_bytes f acts

-- Times that do not go back, from a first one on.
abbrev pub Ordered {ℓ} : {A : Type ℓ} → (A → ℕ) → ℕ → List A → Type 0
Ordered f t [] = Unit
Ordered f t (x ∷ xs) = (t ≤ f x) × Ordered f (f x) xs
