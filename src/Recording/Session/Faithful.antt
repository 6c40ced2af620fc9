-- ===== src/Recording/Session/Faithful.antt =====
-- What a new recorder records of a sequence of calls.
use rustion.Prelude.{
  ℕ, ◌≤◌, ◌≡◌, refl, sym, ap, ◌∙◌, arith, All, Bool, true, false, some, List, [], ◌∷◌, ◌++◌,
  if◌then◌else◌,
}
use mathlib.Core.List.{append_assoc}
use rustion.Prelude.Text.{Text}
use rustion.Recording.Utf8.{Bytes, feed}
use rustion.Recording.Session.{
  TtySize, Event, output, input, marker, resize, exit, Session, new_session,
}
use rustion.Recording.Utf8.Many.{concat, feed_all, feed_all-concat, feed_all-append, feed-nil}
use rustion.Recording.Session.Acts.{
  Act, run, printed, entered, time_of, written_by, typed_by, all_bytes, Ordered,
}
use rustion.Recording.Session.Steps.{live, if-same, handle-Stepped}

printed-append : (es fs : List Event) → printed (es ++ fs) ≡ printed es ++ printed fs
printed-append [] fs = refl
printed-append (output _ t ∷ es) fs =
    ap (λ x. t ++ x) (printed-append es fs) ∙ sym (append_assoc t (printed es) (printed fs))
printed-append (input _ _ ∷ es) fs = printed-append es fs
printed-append (marker _ _ ∷ es) fs = printed-append es fs
printed-append (resize _ _ ∷ es) fs = printed-append es fs
printed-append (exit _ _ ∷ es) fs = printed-append es fs

entered-append : (es fs : List Event) → entered (es ++ fs) ≡ entered es ++ entered fs
entered-append [] fs = refl
entered-append (input _ t ∷ es) fs =
    ap (λ x. t ++ x) (entered-append es fs) ∙ sym (append_assoc t (entered es) (entered fs))
entered-append (output _ _ ∷ es) fs = entered-append es fs
entered-append (marker _ _ ∷ es) fs = entered-append es fs
entered-append (resize _ _ ∷ es) fs = entered-append es fs
entered-append (exit _ _ ∷ es) fs = entered-append es fs

-- Events of one time, in front of later ones.
Ordered-append :
    (t now : ℕ) (es fs : List Event)
    → t ≤ now
    → All (λ e. time_of e ≡ now) es
    → Ordered time_of now fs
    → Ordered time_of t (es ++ fs)
Ordered-append t now [] [] h all o = tt
Ordered-append t now [] (f ∷ fs) h all o = (omega (arith, o.0), o.1)
Ordered-append t now (e ∷ es) fs h all o =
    let same = all.0 in (omega arith, Ordered-append (time_of e) now es fs (omega arith) all.1 o)

-- All of it from any session that is not paused.
record Ran (acts : List (ℕ × Act)) (i o : Bytes) (p r : Bool) (z : TtySize) : Type 0 where
  events : List Event
  last : Session
  runs : run (live i o p r z) acts ≡ some (events, last)
  prints : printed events ≡ (feed_all o (all_bytes written_by acts)).0
  enters : entered events ≡ (if r then (feed_all i (all_bytes typed_by acts)).0 else [])
  ordered : (t : ℕ) → Ordered (λ (x : ℕ × Act). x.0) t acts → Ordered time_of t events

joined :
    (d k : Bytes) (w c : List Bytes) (t u : Text)
    → (t, k) ≡ feed_all d w
    → u ≡ (feed_all k c).0
    → t ++ u ≡ (feed_all d (w ++ c)).0
joined d k w c t u e f =
    ap (λ x. t ++ x) f
    ∙ (ap (λ q. q.0 ++ (feed_all q.1 c).0) e ∙ sym (ap (λ q. q.0) (feed_all-append d w c)))

joined_if :
    (r : Bool) (d k : Bytes) (w c : List Bytes) (t u : Text)
    → (t, k) ≡ (if r then feed_all d w else ([], d))
    → u ≡ (if r then (feed_all k c).0 else [])
    → t ++ u ≡ (if r then (feed_all d (w ++ c)).0 else [])
joined_if true d k w c t u e f = joined d k w c t u e f
joined_if false d k w c t u e f = rw (ap (λ q. q.0) e) f

run-Ran : (acts : List (ℕ × Act)) (i o : Bytes) (p r : Bool) (z : TtySize) → Ran acts i o p r z
unfolding run
run-Ran [] i o p r z = record {
  events = [];
  last = live i o p r z;
  runs = refl;
  prints = unfold feed_all in refl;
  enters = unfold feed_all in if-same r _;
  ordered = λ t h. tt;
}
run-Ran ((now, a) ∷ acts) i o p r z =
    let one = handle-Stepped now a i o p r z in
    let rest = run-Ran acts one.input_kept one.output_kept one.prefix r one.size in
    record {
      events = one.events ++ rest.events;
      last = rest.last;
      runs = rw (one.runs, rest.runs);
      prints =
          printed-append one.events rest.events
          ∙ joined o one.output_kept (written_by a) _ _ _ one.prints rest.prints;
      enters =
          entered-append one.events rest.events
          ∙ joined_if r i one.input_kept (typed_by a) _ _ _ one.enters rest.enters;
      ordered =
          λ t h. Ordered-append t now one.events rest.events h.0 one.timed (rest.ordered now h.1);
    }

-- A new session handles every sequence of calls whose times do not go back without a panic: the
-- output events hold the text that all the written bytes give as one, the input
-- events that of all the typed bytes if input is recorded, and nothing otherwise; and the times of
-- the events do not go back.
pub run-new_session :
    (size : TtySize) (record_input : Bool) (acts : List (ℕ × Act)) (t : ℕ)
    → Ordered (λ (x : ℕ × Act). x.0) t acts
    → (es : List Event) × (last : Session) × (run (new_session size record_input) acts
        ≡ some (es, last))
      × (printed es ≡ (feed [] (concat (all_bytes written_by acts))).0)
      × (entered es ≡ (if record_input then (feed [] (concat (all_bytes typed_by acts))).0 else []))
      × Ordered time_of t es
unfolding new_session
run-new_session size record_input acts t h =
    let r = run-Ran acts [] [] false record_input size in
    let whole = λ (bs : List Bytes). ap (λ q. q.0) (feed_all-concat [] bs feed-nil) in
    (
      r.events,
      r.last,
      r.runs,
      r.prints ∙ whole (all_bytes written_by acts),
      rw (← whole (all_bytes typed_by acts)) r.enters,
      r.ordered t h,
    )
