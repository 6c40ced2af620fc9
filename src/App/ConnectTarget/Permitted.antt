-- ===== src/App/ConnectTarget/Permitted.antt =====
-- Connecting to a target keeps the trace justified, once the action was granted.
use rustion.Prelude.{
  ℕ, ◌≡◌, refl, sym, ap, ◌∙◌, ◌⊎◌, inl, inr, Bool, true, false, not, Option, none, some, Result, ok,
  err, ◌∷◌,
}
use mathlib.Core.Option
use rustion.Prelude.Actions.{Outcome, returned, failed}
use rustion.Casbin.Rules.{
  Uuid, Error, RusshError, administratively_prohibited, send_error, channel_open_failure,
  other_russh,
}
use rustion.Server.User.{User}
use rustion.App.World.{
  World, InternalUuids, TargetSecretName, Request, Call, open_channel, Event, connected, Trace,
  replied, close, Modes, Window, request_pty,
}
use rustion.Prelude.Text.{Text}
use rustion.App.Method.{Run, perform, note, set_this, pure, ◌>>◌}
use rustion.App.Method.Keeps.{
  Keeps, Keeps-pure, Keeps-fail_with, Keeps-panic, Keeps-answer, Keeps-if_let, Keeps-if, Keeps-bind,
  Keeps-then, Keeps-get_this,
}
use rustion.App.Permission.{Granted, Granted-cons, action_for, wants, Wanted, Fits, Justified}
use rustion.App.ConnectTarget.{
  ConnectTarget, call, do_connect_to_target, open_on, keep_channel, expect_channel, open_again,
  accept_channel, request_target_channel, connect_to_target_without_pty, keep_recording,
  start_recording, connect_to_target_with_pty,
}

-- The ids of the user and of the secret that a target application acts for.
abbrev pub who : ConnectTarget → Option Uuid
who c = Option.map (λ (u : User). u.id) c.user

abbrev pub what : ConnectTarget → Option Uuid
what c = Option.map (λ (t : TargetSecretName). t.id) c.target_sec_name

module _ (uuids : InternalUuids) (w o : Option Uuid) (a : Uuid) where
  pub record Ready (s : Run ConnectTarget) : Type 0 where
    pub for_user : who s.this ≡ w
    pub for_secret : what s.this ≡ o
    pub granted : Granted w o a s.trace
    pub justified : Justified uuids s.trace

  pub set_this-Ready : (c : ConnectTarget) → who c ≡ w → what c ≡ o → Keeps Ready (set_this c)
  unfolding set_this
  set_this-Ready c p q = record {
    at = λ s h. record {
      for_user = p;
      for_secret = q;
      granted = h.granted;
      justified = h.justified;
    };
  }

  pub Ready-cons :
      (e : Event) (s : Run ConnectTarget)
      → Ready s
      → Fits uuids e s.trace
      → Ready (record s { trace = e ∷ s.trace })
  unfolding Justified
  Ready-cons e s h f = record {
    for_user = h.for_user;
    for_secret = h.for_secret;
    granted = Granted-cons w o a e s.trace h.granted;
    justified = (f, h.justified);
  }

  pub note-Ready :
      (e : Event) → ((t : Trace) → Granted w o a t → Fits uuids e t) → Keeps Ready (note e)
  unfolding note
  note-Ready e f = record { at = λ s h. Ready-cons e s h (f s.trace h.granted) }

  module _ {Ip : Type 0} (W : World Ip) where
    pub perform-Ready :
        (e : Event) → ((t : Trace) → Granted w o a t → Fits uuids e t) → Keeps Ready (perform W e)
    unfolding perform
    perform-Ready e f = record { at = λ s h. go s (W.refuses s.trace e) h }
      where
        go :
            (s : Run ConnectTarget) (r : Option Error)
            → Ready s
            → let q : Outcome Error (Unit {0}) × Run ConnectTarget = elim r [
              | none ↦ (returned tt, record s { trace = e ∷ s.trace })
              | some x ↦ (failed x, s)
            ] in
              Ready q.1
        go s none h = Ready-cons e s h (f s.trace h.granted)
        go s (some x) h = h

    -- A call that needs no permission, or the one that was granted.
    pub call-Fits :
        (c : ConnectTarget) (channel : ℕ) (x : Call)
        → who c ≡ w
        → what c ≡ o
        → (wants uuids x ≡ none) ⊎ (wants uuids x ≡ some a)
        → (t : Trace) → Granted w o a t
        → Fits uuids (call c channel x) t
    unfolding Fits Wanted wants
    call-Fits c channel x p q (inl e) t g = rw e tt
    call-Fits c channel x p q (inr e) t g = rw e (rw p (rw q g))

    -- A connection for the user and the secret, once something was granted.
    connected-Fits :
        (c : ConnectTarget) (tsn : TargetSecretName)
        → who c ≡ w
        → what c ≡ o
        → c.target_sec_name ≡ some tsn
        → (t : Trace) → Granted w o a t
        → Fits uuids (connected (who c) tsn.id) t
    unfolding Fits
    connected-Fits c tsn p q e t g =
        let same : some tsn.id ≡ o =
          sym (ap (λ x. Option.map (λ (y : TargetSecretName). y.id) x) e) ∙ q in
        (a, rw p (rw same g))

    pub do_connect_to_target-Ready : Keeps Ready (do_connect_to_target W)
    unfolding do_connect_to_target
    do_connect_to_target-Ready = Keeps-get_this _ (λ s h. Keeps-if_let _ _ _ (Keeps-pure tt) (λ t _.
        Keeps-if_let _ _ _ (Keeps-pure tt) (λ tsn e.
          Keeps-then _ _ (note-Ready _ (connected-Fits s.this tsn h.for_user h.for_secret e)) (
            Keeps-bind _ _ (Keeps-answer _) (λ handle. set_this-Ready _ h.for_user h.for_secret)))))

    keep_channel-Ready : (channel : ℕ) → Keeps Ready (keep_channel W channel)
    unfolding keep_channel
    keep_channel-Ready channel =
        Keeps-get_this _
          (λ s h. Keeps-then _ _ (set_this-Ready _ h.for_user h.for_secret) (Keeps-pure true))

    expect_channel-Ready :
        (channel : ℕ) (r : Result RusshError (Unit {0})) → Keeps Ready (expect_channel W channel r)
    unfolding expect_channel
    expect_channel-Ready channel (ok _) = keep_channel-Ready channel
    expect_channel-Ready channel (err e) = Keeps-fail_with _

    module _ (channel : ℕ) (request : Request) (same : action_for uuids request ≡ a) where
      open_on-Ready : (handle : ℕ) → Keeps Ready (open_on W channel request handle)
      unfolding open_on wants
      open_on-Ready handle = record {
        at = λ s h. go s (W.open_channel_on s.trace handle request) h;
      }
        where
          go :
              (s : Run ConnectTarget) (r : Result RusshError (Unit {0}))
              → Ready s
              → let q : Outcome Error (Result RusshError (Unit {0})) × Run ConnectTarget = elim r [
                | err e ↦ (returned (err e), s)
                | ok _ ↦ (
                  returned (ok tt),
                  record s { trace = call s.this channel (open_channel request) ∷ s.trace },
                )
              ] in
                Ready q.1
          go s (err e) h = h
          go s (ok _) h = Ready-cons _ s h (
              call-Fits s.this channel (open_channel request) h.for_user h.for_secret
                (inr (ap some same)) s.trace h.granted)

      open_again-Ready : Keeps Ready (open_again W channel request)
      unfolding open_again
      open_again-Ready = Keeps-then _ _ do_connect_to_target-Ready (
          Keeps-get_this _ (λ s h.
            Keeps-if_let _ _ _ (Keeps-pure false)
              (λ handle _. Keeps-bind _ _ (open_on-Ready handle) (expect_channel-Ready channel))))

      accept_channel-Ready :
          (r : Result RusshError (Unit {0})) → Keeps Ready (accept_channel W channel request r)
      unfolding accept_channel
      accept_channel-Ready (ok _) = keep_channel-Ready channel
      accept_channel-Ready (err administratively_prohibited) = open_again-Ready
      accept_channel-Ready (err send_error) = open_again-Ready
      accept_channel-Ready (err (channel_open_failure n)) = Keeps-fail_with _
      accept_channel-Ready (err (other_russh n)) = Keeps-fail_with _

      request_target_channel-Ready : Keeps Ready (request_target_channel W channel request)
      unfolding request_target_channel
      request_target_channel-Ready = Keeps-then _ _ do_connect_to_target-Ready (
          Keeps-get_this _ (λ s h.
            Keeps-if_let _ _ _ (Keeps-pure false)
              (λ handle _. Keeps-bind _ _ (open_on-Ready handle) accept_channel-Ready)))

      refused-Ready : Keeps Ready (perform W (replied channel close) >> pure false)
      unfolding Fits
      refused-Ready = Keeps-then _ _ (perform-Ready _ (λ t g. tt)) (Keeps-pure false)

      pub connect_to_target_without_pty-Ready :
          Keeps Ready (connect_to_target_without_pty W channel request)
      unfolding connect_to_target_without_pty
      connect_to_target_without_pty-Ready =
          Keeps-bind _ _ request_target_channel-Ready
            (λ opened. Keeps-if opened _ _ (Keeps-pure true) refused-Ready)

      keep_recording-Ready :
          (recording : Uuid) (stored : Bool)
          → Keeps Ready (keep_recording W channel recording stored)
      unfolding keep_recording
      keep_recording-Ready recording stored = Keeps-get_this _ (λ s h.
          Keeps-if (not stored) _ _ (Keeps-fail_with _) (
            Keeps-then _ _ (set_this-Ready _ h.for_user h.for_secret)
              (Keeps-if_let _ _ _ (Keeps-pure true) (λ _ _. Keeps-fail_with _))))

      start_recording-Ready : Keeps Ready (start_recording W channel)
      unfolding start_recording Fits
      start_recording-Ready = Keeps-get_this _ (λ s h. Keeps-if_let _ _ _ Keeps-panic (λ tsn _.
          Keeps-if_let _ _ _ Keeps-panic (λ u _. Keeps-bind _ _ (Keeps-answer _) (λ recording.
            Keeps-then _ _ (perform-Ready _ (λ t g. tt))
              (Keeps-bind _ _ (Keeps-answer _) (keep_recording-Ready recording))))))

      pub connect_to_target_with_pty-Ready :
          (term : Text) (window : Window) (modes : Modes)
          → Keeps Ready (connect_to_target_with_pty W term window modes channel request)
      unfolding connect_to_target_with_pty wants
      connect_to_target_with_pty-Ready term window modes =
          Keeps-bind _ _ request_target_channel-Ready (λ opened.
            Keeps-if (not opened) _ _ refused-Ready (
              Keeps-get_this _ (λ s h. Keeps-if_let _ _ _ Keeps-panic (λ _ _.
                Keeps-then _ _
                  (perform-Ready _ (
                    call-Fits s.this channel (request_pty term window modes) h.for_user h.for_secret
                      (inl refl)))
                  (Keeps-if W.enable_record _ _ start_recording-Ready (Keeps-pure true))))))
