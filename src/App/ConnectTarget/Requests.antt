-- ===== src/App/ConnectTarget/Requests.antt =====
-- The requests of `ConnectTarget` in src/server/app/connect_target.rs, up to the task that `bridge`
-- starts.
pub mod Permitted
use rustion.Prelude.{
  ℕ, ◌%◌, Bool, true, false, not, ◌&&◌, Option, none, some, Result, ok, err, List, [], ◌∷◌, ◌==◌,
  find, if◌then◌else◌,
}
use mathlib.Core.Option
use rustion.Prelude.Actions.{Outcome, returned, failed, panicked}
use rustion.Prelude.Map.{HashMap, get, insert, remove}
use rustion.Prelude.Text.{Text, codes, text_eq}
use rustion.Casbin.Rules.{
  Uuid, Error, russh, app, RusshError, administratively_prohibited, send_error,
  channel_open_failure, other_russh, channel_record_exists, init_record_error,
  channel_notify_exists,
}
use rustion.Server.User.{User}
use rustion.App.World.{
  World, Target, TargetSecretName, Request, shell, exec, open_direct_tcpip, Window, Call,
  open_channel, request_pty, request_shell, request_exec, send, send_eof, change_window, Event,
  success, failure, close, called, replied, connected, recorder_made, recorded, logged, Modes,
  handle_input, handle_marker, handle_resize,
}
use rustion.App.Method.{
  Run, Method, pure, fail_with, panic, get_this, set_this, if_let, answer, note, perform, ask,
  match_result, ◌>>=◌, ◌>>◌,
}
use rustion.App.ConnectTarget.{
  TargetChannel, channel_full, channel_write_half, ConnectTarget, call, Self,
  connect_to_target_with_pty, connect_to_target_without_pty,
}

module _ {Ip : Type 0} (W : World Ip) where
  -- The request on the target's channel.
  unfoldable pub send_request : ℕ → Request → Self (Unit {0})
  unfolding perform
  send_request channel request = do
    c ← get_this
    elim request [
      | shell ↦ perform W (call c channel request_shell)
      | exec bytes ↦ perform W (call c channel (request_exec bytes))
      | open_direct_tcpip host port from from_port ↦ pure tt
    ]

  -- The channel is taken out of the map, split, and its write half put back; `unreachable!` unless it
  -- was whole.
  unfoldable pub split_channel : ℕ → Self (Unit {0})
  split_channel channel = do
    c ← get_this
    if_let (get channel c.target_channel) panic (λ whole. do
      set_this (record c { target_channel = remove channel c.target_channel })
      elim whole [
        | channel_full ↦ set_this (record c {
          target_channel = insert channel channel_write_half (remove channel c.target_channel);
        })
        | channel_write_half ↦ panic
      ])

  unfoldable pub add_notify : ℕ → Self (Unit {0})
  add_notify channel = do
    c ← get_this
    set_this (record c { notify = insert channel tt c.notify })
    if_let (get channel c.notify) (pure tt) (λ _. fail_with (app channel_notify_exists))

  -- `bridge`, whose task runs on by itself.
  unfoldable pub bridge : ℕ → Request → Self (Unit {0})
  unfolding split_channel send_request add_notify
  bridge channel request = do
    split_channel channel
    c ← get_this
    if_let c.target panic
        (λ t. do send_request channel request; add_notify channel; note (logged request t))

  unfoldable pub do_exec_request :
      Text → Option Text → Option Window → Option Modes → ℕ → Self (Unit {0})
  unfolding connect_to_target_with_pty connect_to_target_without_pty bridge
  do_exec_request bytes (some term) (some window) (some modes) channel = do
    ready ← connect_to_target_with_pty W term window modes channel (exec bytes)
    if ready then bridge channel (exec bytes) else pure tt
  do_exec_request bytes term window modes channel = do
    ready ← connect_to_target_without_pty W channel (exec bytes)
    if ready then bridge channel (exec bytes) else pure tt

  -- The match on the result that `exec_request` and `shell_request` make.
  unfoldable pub reply_after : ℕ → Self (Unit {0}) → Self (Unit {0})
  unfolding perform
  reply_after channel m =
      match_result m (λ _. perform W (replied channel success))
        (λ e. perform W (replied channel failure) >> fail_with e)

  unfoldable pub exec_request :
      ℕ → Text → Option Text → Option Window → Option Modes → Self (Unit {0})
  unfolding reply_after do_exec_request
  exec_request channel bytes term window modes =
      reply_after channel (do_exec_request bytes term window modes channel)

  unfoldable pub connect_to_target_with_shell : Text → Window → Modes → ℕ → Self (Unit {0})
  unfolding connect_to_target_with_pty bridge
  connect_to_target_with_shell term window modes channel = do
    ready ← connect_to_target_with_pty W term window modes channel shell
    if ready then bridge channel shell else pure tt

  unfoldable pub shell_request : ℕ → Text → Window → Modes → Self (Unit {0})
  unfolding reply_after connect_to_target_with_shell
  shell_request channel term window modes =
      reply_after channel (connect_to_target_with_shell term window modes channel)

  unfoldable pub do_channel_open_direct_tcpip : ℕ → Request → Self Bool
  unfolding connect_to_target_without_pty bridge
  do_channel_open_direct_tcpip channel request = do
    ready ← connect_to_target_without_pty W channel request
    if ready then (bridge channel request >> pure true) else pure false

  -- A channel that the target does not open is no error.
  unfoldable pub forgive : Error → Self Bool
  forgive (russh administratively_prohibited) = pure false
  forgive (russh (channel_open_failure n)) = pure false
  forgive e = fail_with e

  unfoldable pub channel_open_direct_tcpip : ℕ → Text → ℕ → Text → ℕ → Self Bool
  unfolding do_channel_open_direct_tcpip forgive
  channel_open_direct_tcpip channel host port from from_port =
      match_result
        (do_channel_open_direct_tcpip channel (open_direct_tcpip host port from from_port)) pure
        forgive

  -- A window that is told to the target is answered by success, and then by failure.
  unfoldable pub window_change_request : ℕ → Window → Self (Unit {0})
  unfolding perform
  window_change_request channel window = do
    c ← get_this
    if_let (get channel c.target_channel) (pure tt) (λ _. do
      perform W (call c channel (change_window window))
      perform W (replied channel success))
    if_let (get channel c.record_session) (pure tt) (λ r. do
      note (recorded r (handle_marker (codes "window change")))
      note (recorded r (handle_resize (window.col_width % 65536) (window.row_height % 65536))))
    perform W (replied channel failure)
