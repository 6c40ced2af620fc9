-- ===== src/Recording/Session/Steps.antt =====
-- One call of a recorder that is not paused.
use rustion.Prelude.{
  ℕ, ◌≡◌, refl, arith, All, Bool, true, false, none, some, List, [], ◌∷◌, if◌then◌else◌, Bool-cases,
  inl, inr,
}
use rustion.Prelude.Text.{Text, is_empty}
use rustion.Recording.Utf8.{Bytes, feed}
use rustion.Recording.Session.{
  TtySize, Event, output, input, marker, resize, exit, Session, elapsed_time, handle_output,
  handle_input, handle_resize, handle_exit, handle_marker, size_eq, record_bytes,
}
use rustion.Recording.Utf8.Many.{feed_all}
use rustion.Recording.Session.Acts.{
  Act, wrote, typed, resized, exited, marked, handle, printed, entered, time_of, written_by,
  typed_by,
}

-- A session that is not paused, and never was.
abbrev pub live : Bytes → Bytes → Bool → Bool → TtySize → Session
live i o p r z = record {
  input_decoder = i;
  output_decoder = o;
  pause_time = none;
  prefix_mode = p;
  record_input = r;
  time_offset = 0;
  tty_size = z;
}

elapsed-live :
    (now : ℕ) (i o : Bytes) (p r : Bool) (z : TtySize)
    → elapsed_time now (live i o p r z) ≡ some now
unfolding elapsed_time
elapsed-live now i o p r z = ground arith

-- One call: what it sends, and the session behind it.
pub record Stepped (now : ℕ) (a : Act) (i o : Bytes) (p r : Bool) (z : TtySize) : Type 0 where
  pub events : List Event
  pub input_kept : Bytes
  pub output_kept : Bytes
  pub prefix : Bool
  pub size : TtySize
  pub runs :
      handle now a (live i o p r z) ≡ some (events, live input_kept output_kept prefix r size)
  pub prints : (printed events, output_kept) ≡ feed_all o (written_by a)
  pub enters : (entered events, input_kept) ≡ (if r then feed_all i (typed_by a) else ([], i))
  pub timed : All (λ e. time_of e ≡ now) events

pub if-same {ℓ} : {A : Type ℓ} (b : Bool) (x : A) → x ≡ (if b then x else x)
if-same true x = refl
if-same false x = refl

empty_text : (t : Text) → is_empty t ≡ true → t ≡ []
empty_text [] e = refl
empty_text (c ∷ t) e = cc

-- No key is set, so that the bytes go on to be recorded.
input-live :
    (now : ℕ) (bytes i o : Bytes) (p r : Bool) (z : TtySize)
    → handle_input now bytes (live i o p r z) ≡ record_bytes now bytes (live i o false r z)
unfolding handle_input
input-live now bytes i o true r z = refl
input-live now bytes i o false r z = refl

pub handle-Stepped :
    (now : ℕ) (a : Act) (i o : Bytes) (p r : Bool) (z : TtySize) → Stepped now a i o p r z
unfolding handle feed_all
handle-Stepped now (wrote bytes) i o p r z =
    let text = (feed o bytes).0 in
    let kept = (feed o bytes).1 in
    elim (Bool-cases (is_empty text)) [
      | inl e ↦ record {
        events = [];
        input_kept = i;
        output_kept = kept;
        prefix = p;
        size = z;
        runs = unfold handle_output in rw e;
        prints = rw (empty_text text e);
        enters = if-same r _;
        timed = tt;
      }
      | inr e ↦ record {
        events = output now text ∷ [];
        input_kept = i;
        output_kept = kept;
        prefix = p;
        size = z;
        runs = unfold handle_output in rw (e, elapsed-live now i kept p r z);
        prints = refl;
        enters = if-same r _;
        timed = (refl, tt);
      }
    ]
handle-Stepped now (typed bytes) i o p false z = record {
  events = [];
  input_kept = i;
  output_kept = o;
  prefix = false;
  size = z;
  runs = unfold record_bytes in rw (input-live now bytes i o p false z);
  prints = refl;
  enters = refl;
  timed = tt;
}
handle-Stepped now (typed bytes) i o p true z =
    let text = (feed i bytes).0 in
    let kept = (feed i bytes).1 in
    elim (Bool-cases (is_empty text)) [
      | inl e ↦ record {
        events = [];
        input_kept = kept;
        output_kept = o;
        prefix = false;
        size = z;
        runs = unfold record_bytes in rw (input-live now bytes i o p true z, e);
        prints = refl;
        enters = rw (empty_text text e);
        timed = tt;
      }
      | inr e ↦ record {
        events = input now text ∷ [];
        input_kept = kept;
        output_kept = o;
        prefix = false;
        size = z;
        runs =
            unfold record_bytes in
            rw (input-live now bytes i o p true z, e, elapsed-live now kept o false true z);
        prints = refl;
        enters = refl;
        timed = (refl, tt);
      }
    ]
handle-Stepped now (resized size) i o p r z = elim (Bool-cases (size_eq size z)) [
  | inl e ↦ record {
    events = [];
    input_kept = i;
    output_kept = o;
    prefix = p;
    size = z;
    runs = unfold handle_resize in rw e;
    prints = refl;
    enters = if-same r _;
    timed = tt;
  }
  | inr e ↦ record {
    events = resize now size ∷ [];
    input_kept = i;
    output_kept = o;
    prefix = p;
    size = size;
    runs = unfold handle_resize in rw (e, elapsed-live now i o p r z);
    prints = refl;
    enters = if-same r _;
    timed = (refl, tt);
  }
]
handle-Stepped now (exited status) i o p r z = record {
  events = exit now status ∷ [];
  input_kept = i;
  output_kept = o;
  prefix = p;
  size = z;
  runs = unfold handle_exit in rw (elapsed-live now i o p r z);
  prints = refl;
  enters = if-same r _;
  timed = (refl, tt);
}
handle-Stepped now (marked label) i o p r z = record {
  events = marker now label ∷ [];
  input_kept = i;
  output_kept = o;
  prefix = p;
  size = z;
  runs = unfold handle_marker in rw (elapsed-live now i o p r z);
  prints = refl;
  enters = if-same r _;
  timed = (refl, tt);
}
