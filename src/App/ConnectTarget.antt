-- ===== src/App/ConnectTarget.antt =====
-- `ConnectTarget` of src/server/app/connect_target.rs until a channel to the target is open.
pub mod Permitted
pub mod Checked
pub mod Requests
use rustion.Prelude.{
  ℕ, ◌%◌, Bool, true, false, not, ◌&&◌, Option, none, some, Result, ok, err, List, [], ◌∷◌, ◌==◌,
  find, if◌then◌else◌,
}
use mathlib.Core.Option
use rustion.Prelude.Actions.{Outcome, returned, failed, panicked}
use rustion.Prelude.Map.{HashMap, get, insert, remove}
use rustion.Prelude.Text.{Text, codes, text_eq}
use rustion.Casbin.Rules.{
  Uuid, Error, russh, app, RusshError, administratively_prohibited, send_error,
  channel_open_failure, other_russh, channel_record_exists, init_record_error,
  channel_notify_exists,
}
use rustion.Server.User.{User}
use rustion.App.World.{
  World, Target, TargetSecretName, Request, shell, exec, open_direct_tcpip, Window, Call,
  open_channel, request_pty, request_shell, request_exec, send, send_eof, change_window, Event,
  success, failure, close, called, replied, connected, recorder_made, recorded, logged, Modes,
  handle_input, handle_marker, handle_resize,
}
use rustion.App.Method.{
  Run, Method, pure, fail_with, panic, get_this, set_this, if_let, answer, note, perform, ask,
  match_result, ◌>>=◌, ◌>>◌,
}

-- A channel to the target, whole or only its write half.
pub data TargetChannel : Type 0 where
  channel_full channel_write_half : TargetChannel

pub record ConnectTarget : Type 0 where
  pub user : Option User
  pub target : Option Target
  pub target_channel : HashMap TargetChannel
  pub target_handle : Option ℕ
  pub target_sec_name : Option TargetSecretName
  -- The channels that have a sender in `notify`.
  pub notify : HashMap (Unit {0})
  pub record_session : HashMap Uuid

unfoldable pub new_connect_target : Option User → ConnectTarget
new_connect_target user = record {
  user = user;
  target = none;
  target_channel = [];
  target_handle = none;
  target_sec_name = none;
  notify = [];
  record_session = [];
}

unfoldable pub with_target : Option Target → ConnectTarget → ConnectTarget
with_target val c = record c { target = val }

unfoldable pub with_target_sec_name : Option TargetSecretName → ConnectTarget → ConnectTarget
with_target_sec_name val c = record c { target_sec_name = val }

-- The call of the trace that `c` makes on a channel.
abbrev pub call : ConnectTarget → ℕ → Call → Event
call c channel x =
    called (Option.map (λ (u : User). u.id) c.user)
      (Option.map (λ (t : TargetSecretName). t.id) c.target_sec_name) channel x

abbrev pub Self : Type 0 → Type 0
Self B = Method ConnectTarget B

module _ {Ip : Type 0} (W : World Ip) where
  unfoldable pub data_in : ℕ → Text → Self (Unit {0})
  unfolding perform
  data_in channel bytes = do
    c ← get_this
    if_let (get channel c.target_channel) (pure tt) (λ _. perform W (call c channel (send bytes)))
    if_let (get channel c.record_session) (pure tt) (λ r. note (recorded r (handle_input bytes)))

  unfoldable pub channel_eof : ℕ → Self (Unit {0})
  unfolding perform
  channel_eof channel = do
    c ← get_this
    if_let (get channel c.target_channel) (pure tt) (λ _. perform W (call c channel send_eof))

  unfoldable pub init_target : Text → Text → Self Bool
  init_target target_user target_name = do
    c ← get_this
    if_let c.user (pure false) (λ u. do
      targets ← answer (λ t. W.list_targets_for_user t u.id)
      if_let
          (find
            (λ (t : TargetSecretName).
              text_eq t.target_name target_name && text_eq t.secret_user target_user)
            targets)
          (pure false)
          (λ tsn. do
            found ← answer (λ t. W.get_target_by_id t tsn.target_id)
            if_let found (pure false) (λ t. do
              set_this (record c { target = some t; target_sec_name = some tsn })
              pure true)))

  unfoldable pub check_permission : Uuid → Option Ip → Self Bool
  unfolding ask
  check_permission action_uuid ip = do
    c ← get_this
    if_let c.user (pure false) (λ u.
        if_let c.target_sec_name (pure false)
          (λ tsn. if_let c.target (pure false) (λ t. ask W u.id tsn.id action_uuid ip)))

  unfoldable pub do_connect_to_target : Self (Unit {0})
  do_connect_to_target = do
    c ← get_this
    if_let c.target (pure tt) (λ t. if_let c.target_sec_name (pure tt) (λ tsn. do
      note (connected (Option.map (λ (u : User). u.id) c.user) tsn.id)
      handle ← answer (λ tr. W.connect_to_target tr t tsn.id)
      set_this (record c { target_handle = handle })))

  -- `handle.channel_open_session()` or `handle.channel_open_direct_tcpip(…)`, and what is kept of the
  -- channel that it gives.
  unfoldable pub open_on : ℕ → Request → ℕ → Method ConnectTarget (Result RusshError (Unit {0}))
  open_on channel request handle s = elim (W.open_channel_on s.trace handle request) [
    | err e ↦ (returned (err e), s)
    | ok _ ↦ (
      returned (ok tt),
      record s { trace = call s.this channel (open_channel request) ∷ s.trace },
    )
  ]

  unfoldable pub keep_channel : ℕ → Self Bool
  keep_channel channel = do
    c ← get_this
    set_this (record c { target_channel = insert channel channel_full c.target_channel })
    pure true

  -- `….await?` on the channel.
  unfoldable pub expect_channel : ℕ → Result RusshError (Unit {0}) → Self Bool
  unfolding keep_channel
  expect_channel channel (ok _) = keep_channel channel
  expect_channel channel (err e) = fail_with (russh e)

  -- The second attempt, after the connection was made again.
  unfoldable pub open_again : ℕ → Request → Self Bool
  unfolding do_connect_to_target open_on expect_channel
  open_again channel request = do
    do_connect_to_target
    c ← get_this
    if_let c.target_handle (pure false)
        (λ handle. do opened ← open_on channel request handle; expect_channel channel opened)

  -- The match on the first attempt.
  unfoldable pub accept_channel : ℕ → Request → Result RusshError (Unit {0}) → Self Bool
  unfolding keep_channel open_again
  accept_channel channel request (ok _) = keep_channel channel
  accept_channel channel request (err administratively_prohibited) = open_again channel request
  accept_channel channel request (err send_error) = open_again channel request
  accept_channel channel request (err (channel_open_failure n)) =
      fail_with (russh (channel_open_failure n))
  accept_channel channel request (err (other_russh n)) = fail_with (russh (other_russh n))

  unfoldable pub request_target_channel : ℕ → Request → Self Bool
  unfolding do_connect_to_target open_on accept_channel
  request_target_channel channel request = do
    do_connect_to_target
    c ← get_this
    if_let c.target_handle (pure false) (λ handle. do
      opened ← open_on channel request handle
      accept_channel channel request opened)

  unfoldable pub connect_to_target_without_pty : ℕ → Request → Self Bool
  unfolding request_target_channel perform
  connect_to_target_without_pty channel request = do
    opened ← request_target_channel channel request
    if opened then pure true else (perform W (replied channel close) >> pure false)

  -- The end of it: the row was stored, or not, and the recorder is kept.
  unfoldable pub keep_recording : ℕ → Uuid → Bool → Self Bool
  keep_recording channel recording stored = do
    c ← get_this
    if not stored then fail_with (app init_record_error) else (do
      set_this (record c { record_session = insert channel recording c.record_session })
      if_let (get channel c.record_session) (pure true)
          (λ _. fail_with (app channel_record_exists)))

  -- `SessionRecording::new`, the recorder, and the row in the database.
  unfoldable pub start_recording : ℕ → Self Bool
  unfolding perform keep_recording
  start_recording channel = do
    c ← get_this
    if_let c.target_sec_name panic (λ tsn. if_let c.user panic (λ u. do
      recording ← answer (λ t. ok (W.new_recording t))
      perform W (recorder_made channel recording)
      stored ← answer (λ t. ok (W.recording_stored t recording))
      keep_recording channel recording stored))

  unfoldable pub connect_to_target_with_pty : Text → Window → Modes → ℕ → Request → Self Bool
  unfolding request_target_channel perform start_recording
  connect_to_target_with_pty term window modes channel request = do
    opened ← request_target_channel channel request
    if not opened then (perform W (replied channel close) >> pure false) else (do
      c ← get_this
      if_let (get channel c.target_channel) panic (λ _. do
        perform W (call c channel (request_pty term window modes))
        if W.enable_record then start_recording channel else pure true))
