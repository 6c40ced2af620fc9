-- ===== src/App/Bastion/Answered.antt =====
-- The requests of a client and the applications of the tasks keep the trace justified.
use rustion.Prelude.{ℕ, refl, true, false, Option}
use rustion.Prelude.Text.{Text}
use rustion.Server.Login.{
  LoginMode, target_selector, password, player, admin, target, target_with_user, parse_mode,
}
use rustion.App.World.{World, InternalUuids, Window, Modes, replied, close}
use rustion.App.Method.{Method, perform}
use rustion.App.Method.Keeps.{
  Keeps, Keeps-pure, Keeps-panic, Keeps-if_let, Keeps-if, Keeps-bind, Keeps-then, Keeps-get_this,
  Keeps-alone,
}
use rustion.App.Permission.{Justified}
use rustion.App.ConnectTarget
use rustion.App.ConnectTarget.Requests.Permitted.{
  exec_request-Ready, shell_request-Ready, channel_open_direct_tcpip-Ready,
}
use rustion.App.Harmless
use rustion.App.Bastion.{
  Application, connect_target, change_password, selector, admin_app, player_app, no_app,
  on_connect_target, on_change_password, on_selector, on_admin, on_player,
}
use rustion.App.Bastion.Requests.{
  if_permitted, channel_eof, data_in, window_change_request, exec_request, keep_pty, pty_request,
  open_shell, shell_request, forward_on, forward_first, forward_in, channel_open_direct_tcpip,
  run_shell, process,
}
use rustion.App.Bastion.Opened

module _ (uuids : InternalUuids) {Ip : Type 0} (W : World Ip) (unset : Window) where
  abbrev J : {A B : Type 0} → Method A B → Type 0
  J m = Keeps (λ s. Justified uuids s.trace) m

  pub channel_eof-J : (channel : ℕ) → J (channel_eof uuids W channel)
  unfolding channel_eof on_connect_target
  channel_eof-J channel =
      Opened.match_app-J uuids W unset _
        (λ h c. Opened.part-J uuids W unset _ c _ (Harmless.channel_eof-J uuids W channel))
        (λ h c. Opened.refuse-J uuids W unset channel)
        (λ h c. Opened.refuse-J uuids W unset channel)
        (λ h c. Opened.refuse-J uuids W unset channel)
        (λ h c. Opened.refuse-J uuids W unset channel) (λ h. Opened.refuse-J uuids W unset channel)

  pub data_in-J : (channel : ℕ) (bytes : Text) → J (data_in uuids W channel bytes)
  unfolding data_in on_connect_target on_change_password on_selector on_admin on_player
  data_in-J channel bytes =
      Opened.match_app-J uuids W unset _
        (λ h c. Opened.part-J uuids W unset _ c _ (Harmless.data_in-J uuids W channel bytes))
        (λ h c. Opened.part-J uuids W unset _ c _ (Harmless.password_data-J uuids W bytes))
        (λ h c. Opened.part-J uuids W unset _ c _ (Harmless.selector_data-J uuids W bytes))
        (λ h c. Opened.part-J uuids W unset _ c _ (Harmless.screen_data-J uuids W bytes))
        (λ h c. Opened.part-J uuids W unset _ c _ (Harmless.screen_data-J uuids W bytes))
        (λ h. Keeps-pure tt)

  pub window_change_request-J :
      (channel : ℕ) (window : Window) → J (window_change_request uuids W channel window)
  unfolding window_change_request on_connect_target on_change_password on_selector on_admin
      on_player
  window_change_request-J channel window =
      Opened.match_app-J uuids W unset _
        (λ h c. Keeps-then _ _ (Harmless.J-set_this uuids W _) (
          Opened.part-J uuids W unset _ c _
            (Harmless.window_change_request-J uuids W channel window)))
        (λ h c.
          Keeps-then _ _ (Harmless.J-set_this uuids W _)
            (Opened.part-J uuids W unset _ c _ (Harmless.password_window-J uuids W channel window)))
        (λ h c.
          Keeps-then _ _ (Harmless.J-set_this uuids W _)
            (Opened.part-J uuids W unset _ c _ (Harmless.selector_window-J uuids W channel window)))
        (λ h c.
          Keeps-then _ _ (Harmless.J-set_this uuids W _)
            (Opened.part-J uuids W unset _ c _ (Harmless.screen_window-J uuids W channel window)))
        (λ h c.
          Keeps-then _ _ (Harmless.J-set_this uuids W _)
            (Opened.part-J uuids W unset _ c _ (Harmless.screen_window-J uuids W channel window)))
        (λ h. Keeps-then _ _ (Harmless.J-set_this uuids W _) (Keeps-pure tt))

  pub exec_request-J : (channel : ℕ) (bytes : Text) → J (exec_request uuids W channel bytes)
  unfolding exec_request on_connect_target
  exec_request-J channel bytes =
      Opened.match_app-J uuids W unset _
        (λ h c. Opened.part-J uuids W unset _ c _ (
          Opened.if_permitted-J uuids W unset _ _ _ _
            (λ w o.
              exec_request-Ready uuids w o _ W channel bytes h.pty_term h.window_size h.pty_modes
                refl)
            (Opened.refuse-J uuids W unset channel)))
        (λ h c. Opened.refuse-J uuids W unset channel)
        (λ h c. Opened.refuse-J uuids W unset channel)
        (λ h c. Opened.refuse-J uuids W unset channel)
        (λ h c. Opened.refuse-J uuids W unset channel) (λ h. Opened.refuse-J uuids W unset channel)

  pub keep_pty-J :
      (channel : ℕ) (term : Text) (window : Window) (modes : Modes)
      → J (keep_pty uuids W channel term window modes)
  unfolding keep_pty
  keep_pty-J channel term window modes =
      Keeps-get_this _ (λ s h.
        Keeps-then _ _ (Harmless.J-set_this uuids W _) (Harmless.J-replied uuids W channel _))

  pub pty_request-J :
      (channel : ℕ) (term : Text) (window : Window) (modes : Modes)
      → J (pty_request uuids W channel term window modes)
  unfolding pty_request on_connect_target on_change_password on_selector on_admin on_player
  pty_request-J channel term window modes =
      let kept = keep_pty-J channel term window modes in
      Opened.match_app-J uuids W unset _
        (λ h c.
          Keeps-bind _ _ (Opened.part-J uuids W unset _ c _ (Opened.check-J uuids W unset _ _))
            (λ granted. Keeps-if granted _ _ kept (Opened.refuse-J uuids W unset channel)))
        (λ h c.
          Keeps-then _ _
            (Opened.part-J uuids W unset _ c _ (Harmless.password_pty-J uuids W window)) kept)
        (λ h c. kept)
        (λ h c.
          Keeps-then _ _ (Opened.part-J uuids W unset _ c _ (Harmless.screen_pty-J uuids W window))
            kept)
        (λ h c.
          Keeps-then _ _ (Opened.part-J uuids W unset _ c _ (Harmless.screen_pty-J uuids W window))
            kept)
        (λ h. kept)

  pub open_shell-J :
      (channel : ℕ) (term : Text) (window : Window) (modes : Modes)
      → J (open_shell uuids W channel term window modes)
  unfolding open_shell on_connect_target on_change_password on_selector on_admin on_player
  open_shell-J channel term window modes =
      Opened.match_app-J uuids W unset _
        (λ h c. Opened.part-J uuids W unset _ c _ (
          Opened.if_permitted-J uuids W unset _ _ _ _
            (λ w o. shell_request-Ready uuids w o _ W channel term window modes refl)
            (Opened.refuse-J uuids W unset channel)))
        (λ h c. Opened.part-J uuids W unset _ c _ (Harmless.password_shell-J uuids W channel))
        (λ h c.
          Opened.part-J uuids W unset _ c _ (Harmless.selector_shell-J uuids W channel window))
        (λ h c. Opened.part-J uuids W unset _ c _ (Harmless.admin_shell-J uuids W channel))
        (λ h c. Opened.part-J uuids W unset _ c _ (Harmless.player_shell-J uuids W channel))
        (λ h. Keeps-pure tt)

  pub shell_request-J : (channel : ℕ) → J (shell_request uuids W channel)
  unfolding shell_request
  shell_request-J channel = Keeps-get_this _ (λ s h.
      Keeps-if_let _ _ _ (Opened.refuse-J uuids W unset channel) (λ term _.
        Keeps-if_let _ _ _ (Opened.refuse-J uuids W unset channel) (λ modes _.
          Keeps-if_let _ _ _ (Opened.refuse-J uuids W unset channel)
            (λ window _. open_shell-J channel term window modes))))

  pub forward_on-J :
      (user name : Text) (channel : ℕ) (host : Text) (port : ℕ) (from : Text) (from_port : ℕ)
      (ip : Option Ip)
      → J (forward_on uuids W user name channel host port from from_port ip)
  unfolding forward_on
  forward_on-J user name channel host port from from_port ip =
      Keeps-bind _ _ (Harmless.init_target-J uuids W user name) (λ found.
        Keeps-if found _ _
          (Opened.if_permitted-J uuids W unset _ _ _ _
            (λ w o.
              channel_open_direct_tcpip-Ready uuids w o _ W channel host port from from_port refl)
            (Keeps-pure false))
          (Keeps-pure false))

  pub forward_first-J :
      (mode : LoginMode) (channel : ℕ) (host : Text) (port : ℕ) (from : Text) (from_port : ℕ)
      → J (forward_first uuids W mode channel host port from from_port)
  unfolding forward_first
  forward_first-J (target_with_user user name) channel host port from from_port =
      Keeps-get_this _ (λ s h. Keeps-bind _ _ (Opened.take_user-J uuids W unset) (λ u.
        Keeps-bind _ _
          (Keeps-alone (Justified uuids) _ _
            (forward_on-J user name channel host port from from_port s.this.client_ip))
          (λ res.
            Keeps-if res.0 _ _ (Keeps-then _ _ (Opened.set_app-J uuids W unset _) (Keeps-pure true))
              (Keeps-pure false))))
  forward_first-J target_selector channel host port from from_port = Keeps-pure false
  forward_first-J password channel host port from from_port = Keeps-pure false
  forward_first-J player channel host port from from_port = Keeps-pure false
  forward_first-J admin channel host port from from_port = Keeps-pure false
  forward_first-J (target name) channel host port from from_port = Keeps-pure false

  pub channel_open_direct_tcpip-J :
      (channel : ℕ) (host : Text) (port : ℕ) (from : Text) (from_port : ℕ)
      → J (channel_open_direct_tcpip uuids W channel host port from from_port)
  unfolding channel_open_direct_tcpip forward_in on_connect_target
  channel_open_direct_tcpip-J channel host port from from_port =
      Opened.match_app-J uuids W unset
        (λ h a. forward_in uuids W h a channel host port from from_port)
        (λ h c. Opened.part-J uuids W unset _ c _ (
          Opened.if_permitted-J uuids W unset _ _ _ _
            (λ w o.
              channel_open_direct_tcpip-Ready uuids w o _ W channel host port from from_port refl)
            (Keeps-pure false)))
        (λ h c. Keeps-pure false) (λ h c. Keeps-pure false) (λ h c. Keeps-pure false)
        (λ h c. Keeps-pure false)
        (λ h. Opened.if_allowed-J uuids W unset _ (
          Keeps-if_let _ _ _ (Keeps-pure false) (λ u _.
            Keeps-if u.force_init_pass _ _ (Keeps-pure false) (
              Keeps-if_let _ _ _ (Keeps-pure false)
                (λ l _. forward_first-J (parse_mode l) channel host port from from_port)))))

  pub close-J : {A : Type 0} (channel : ℕ) → J (perform {A = A} W (replied channel close))
  close-J channel = Harmless.J-replied uuids W channel close

  pub run_shell-J :
      (c : ConnectTarget.ConnectTarget) (channel : ℕ) → J (run_shell uuids W c channel)
  unfolding run_shell on_connect_target if_permitted
  run_shell-J c channel = Keeps-get_this _ (λ s h. Opened.part-J uuids W unset _ c _ (
      Keeps-bind _ _ (Opened.check-J uuids W unset _ _) (λ granted.
        Keeps-if granted _ _
          (Opened.if_permitted-J uuids W unset _ _ _ _
            (λ w o. Keeps-if_let _ _ _ Keeps-panic (λ term _.
              Keeps-if_let _ _ _ Keeps-panic (λ window _.
                Keeps-if_let _ _ _ Keeps-panic
                  (λ modes _. shell_request-Ready uuids w o _ W channel term window modes refl))))
            (close-J channel))
          (close-J channel))))

  pub process-J : (channel : ℕ) (a : Application) → J (process uuids W channel a)
  unfolding process
  process-J channel (connect_target c) =
      Keeps-then _ _ (Opened.set_app-J uuids W unset _) (run_shell-J c channel)
  process-J channel (change_password c) = Opened.set_app-J uuids W unset _
  process-J channel (selector c) = Opened.set_app-J uuids W unset _
  process-J channel (admin_app c) = Opened.set_app-J uuids W unset _
  process-J channel (player_app c) = Opened.set_app-J uuids W unset _
  process-J channel no_app = Opened.set_app-J uuids W unset _
