-- ===== src/App/Bastion/Requests.antt =====
-- The requests on an open channel in src/server/bastion_handler.rs, which the application answers,
-- and the forwarding of a port, which opens one.
use rustion.Prelude.{ℕ, Bool, true, false, Option, some, if◌then◌else◌}
use rustion.Prelude.Text.{Text}
use rustion.Casbin.Rules.{Uuid}
use rustion.Server.Login.{
  LoginMode, target_selector, password, player, admin, target, target_with_user, parse_mode,
}
use rustion.App.World.{World, InternalUuids, Window, Modes, success, close, replied}
use rustion.App.Method.{
  Method, pure, panic, get_this, set_this, if_let, perform, ◌>>=◌, ◌>>◌, alone,
}
use rustion.App.ConnectTarget
use rustion.App.ConnectTarget.Requests
use rustion.App.Screen
use rustion.App.Password
use rustion.App.TargetSelector
use rustion.App.Bastion.{
  Application, connect_target, change_password, selector, admin_app, player_app, no_app, Bastion,
  on_connect_target, on_change_password, on_selector, on_admin, on_player, refuse, if_allowed,
  take_user, set_app, match_app,
}

module _ (uuids : InternalUuids) {Ip : Type 0} (W : World Ip) where
  abbrev M : Type 0 → Type 0
  M B = Method (Bastion Ip) B

  -- `if app.check_permission(action)? { m } else { n }`.
  unfoldable pub if_permitted :
      {B : Type 0}
      → Uuid
      → Option Ip
      → Method ConnectTarget.ConnectTarget B
      → Method ConnectTarget.ConnectTarget B
      → Method ConnectTarget.ConnectTarget B
  if_permitted action ip m n = do
    granted ← ConnectTarget.check_permission W action ip
    if granted then m else n

  unfoldable pub channel_eof : ℕ → M (Unit {0})
  channel_eof channel = match_app (λ h a. elim a [
    | connect_target c ↦ on_connect_target c (ConnectTarget.channel_eof W channel)
    | change_password c ↦ refuse W channel
    | selector c ↦ refuse W channel
    | admin_app c ↦ refuse W channel
    | player_app c ↦ refuse W channel
    | no_app ↦ refuse W channel
  ])

  unfoldable pub data_in : ℕ → Text → M (Unit {0})
  data_in channel bytes = match_app (λ h a. elim a [
    | connect_target c ↦ on_connect_target c (ConnectTarget.data_in W channel bytes)
    | change_password c ↦ on_change_password c (Password.data_in W bytes)
    | selector c ↦ on_selector c (TargetSelector.data_in W bytes)
    | admin_app c ↦ on_admin c (Screen.data_in W bytes)
    | player_app c ↦ on_player c (Screen.data_in W bytes)
    | no_app ↦ pure tt
  ])

  unfoldable pub window_change_request : ℕ → Window → M (Unit {0})
  window_change_request channel window = match_app (λ h a. do
    set_this (record h { window_size = some window })
    elim a [
      | connect_target c ↦ on_connect_target c (Requests.window_change_request W channel window)
      | change_password c ↦ on_change_password c (Password.window_change_request W channel window)
      | selector c ↦ on_selector c (TargetSelector.window_change_request W channel window)
      | admin_app c ↦ on_admin c (Screen.window_change_request W channel window)
      | player_app c ↦ on_player c (Screen.window_change_request W channel window)
      | no_app ↦ pure tt
    ])

  unfoldable pub exec_request : ℕ → Text → M (Unit {0})
  exec_request channel bytes = match_app (λ h a. elim a [
    | connect_target c ↦ on_connect_target c (
        if_permitted uuids.act_exec h.client_ip
          (Requests.exec_request W channel bytes h.pty_term h.window_size h.pty_modes)
          (refuse W channel))
    | change_password c ↦ refuse W channel
    | selector c ↦ refuse W channel
    | admin_app c ↦ refuse W channel
    | player_app c ↦ refuse W channel
    | no_app ↦ refuse W channel
  ])

  -- The end of `pty_request`, where no arm returned.
  unfoldable pub keep_pty : ℕ → Text → Window → Modes → M (Unit {0})
  keep_pty channel term window modes = do
    h ← get_this
    set_this (record h { pty_modes = some modes; pty_term = some term; window_size = some window })
    perform W (replied channel success)

  unfoldable pub pty_request : ℕ → Text → Window → Modes → M (Unit {0})
  unfolding keep_pty
  pty_request channel term window modes = match_app (λ h a. elim a [
    | connect_target c ↦ (do
      granted ← on_connect_target c (ConnectTarget.check_permission W uuids.act_pty h.client_ip)
      if granted then keep_pty channel term window modes else refuse W channel)
    | change_password c ↦ (do
      on_change_password c (Password.pty_request W window)
      keep_pty channel term window modes)
    | selector c ↦ keep_pty channel term window modes
    | admin_app c ↦ (do
      on_admin c (Screen.pty_request W window)
      keep_pty channel term window modes)
    | player_app c ↦ (do
      on_player c (Screen.pty_request W window)
      keep_pty channel term window modes)
    | no_app ↦ keep_pty channel term window modes
  ])

  -- The match of `shell_request`, with the terminal that was asked for.
  unfoldable pub open_shell : ℕ → Text → Window → Modes → M (Unit {0})
  open_shell channel term window modes = match_app (λ h a. elim a [
    | connect_target c ↦ on_connect_target c (
        if_permitted uuids.act_shell h.client_ip
          (Requests.shell_request W channel term window modes) (refuse W channel))
    | change_password c ↦ on_change_password c (Password.shell_request W channel)
    | selector c ↦ on_selector c (TargetSelector.shell_request W channel window)
    | admin_app c ↦ on_admin c (Screen.admin_shell_request W channel)
    | player_app c ↦ on_player c (Screen.player_shell_request W channel)
    | no_app ↦ pure tt
  ])

  unfoldable pub shell_request : ℕ → M (Unit {0})
  unfolding open_shell
  shell_request channel = do
    h ← get_this
    if_let h.pty_term (refuse W channel) (λ term. if_let h.pty_modes (refuse W channel) (λ modes.
        if_let h.window_size (refuse W channel) (λ window. open_shell channel term window modes)))

  -- A target given by the login name, and the forwarding on it.
  unfoldable pub forward_on :
      Text → Text → ℕ → Text → ℕ → Text → ℕ → Option Ip → Method ConnectTarget.ConnectTarget Bool
  unfolding if_permitted
  forward_on target_user name channel host port from from_port ip = do
    found ← ConnectTarget.init_target W target_user name
    if found
        then if_permitted uuids.act_direct_tcpip ip
            (Requests.channel_open_direct_tcpip W channel host port from from_port) (pure false)
        else pure false

  unfoldable pub forward_first : LoginMode → ℕ → Text → ℕ → Text → ℕ → M Bool
  unfolding forward_on
  forward_first (target_with_user target_user name) channel host port from from_port = do
    h ← get_this
    u ← take_user
    res ←
        alone (ConnectTarget.new_connect_target u)
          (forward_on target_user name channel host port from from_port h.client_ip)
    if res.0 then (set_app (connect_target res.1) >> pure true) else pure false
  forward_first target_selector channel host port from from_port = pure false
  forward_first password channel host port from from_port = pure false
  forward_first player channel host port from from_port = pure false
  forward_first admin channel host port from from_port = pure false
  forward_first (target name) channel host port from from_port = pure false

  unfoldable pub forward_in : Bastion Ip → Application → ℕ → Text → ℕ → Text → ℕ → M Bool
  unfolding forward_first if_permitted
  forward_in h (connect_target c) channel host port from from_port = on_connect_target c (
      if_permitted uuids.act_direct_tcpip h.client_ip
        (Requests.channel_open_direct_tcpip W channel host port from from_port) (pure false))
  forward_in h no_app channel host port from from_port = if_allowed W uuids (
      if_let h.user (pure false) (λ u.
        if u.force_init_pass
        then pure false
        else if_let h.login_parse (pure false)
            (λ l. forward_first (parse_mode l) channel host port from from_port)))
  forward_in h (change_password _) channel host port from from_port = pure false
  forward_in h (selector _) channel host port from from_port = pure false
  forward_in h (admin_app _) channel host port from from_port = pure false
  forward_in h (player_app _) channel host port from from_port = pure false

  unfoldable pub channel_open_direct_tcpip : ℕ → Text → ℕ → Text → ℕ → M Bool
  unfolding forward_in
  channel_open_direct_tcpip channel host port from from_port =
      match_app (λ h a. forward_in h a channel host port from from_port)

  -- `process`, for an application that a task sent.
  unfoldable pub run_shell : ConnectTarget.ConnectTarget → ℕ → M (Unit {0})
  unfolding if_permitted
  run_shell c channel = do
    h ← get_this
    on_connect_target c (
        if_permitted uuids.act_pty h.client_ip
          (if_permitted uuids.act_shell h.client_ip
            (if_let h.pty_term panic (λ term. if_let h.window_size panic (λ window.
              if_let h.pty_modes panic
                (λ modes. Requests.shell_request W channel term window modes))))
            (perform W (replied channel close)))
          (perform W (replied channel close)))

  unfoldable pub process : ℕ → Application → M (Unit {0})
  unfolding run_shell
  process channel (connect_target c) = set_app (connect_target c) >> run_shell c channel
  process channel (change_password c) = set_app (change_password c)
  process channel (selector c) = set_app (selector c)
  process channel (admin_app c) = set_app (admin_app c)
  process channel (player_app c) = set_app (player_app c)
  process channel no_app = set_app no_app
