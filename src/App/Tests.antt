-- ===== src/App/Tests.antt =====
-- Runs of a connection on concrete inputs.
use rustion.Prelude.{ℕ, ◌≡◌, ◌↔◌, refl, Bool, true, false, Option, none, some, List, [], ◌∷◌}
use rustion.Prelude.Text.{codes}
use rustion.Prelude.Actions.{panicked}
use rustion.Server.Sample.{alice}
use rustion.App.World.{
  enforced, called, replied, connected, logged, success, open_channel, request_pty, request_shell,
  shell, close, started, select_target, World,
}
use rustion.App.Method.{Run}
use rustion.App.Permission.{Justified}
use rustion.App.Sample.{sample_uuids, web, root_on_web, world, window, logged_in}
use rustion.App.Bastion.{Bastion, channel_open_session, change_password, connect_target}
use rustion.App.Bastion.Steps.{
  Input, session_channel, pty, shell_on, message, after, Reachable, start, step,
  Reachable-Justified,
}
use rustion.App.Bastion.Second.{Exclusive, channel_open_session-panics}
use rustion.App.Password.{new_change_password}
use rustion.Server.Login
use rustion.App.Screen
use rustion.App.TargetSelector
use rustion.App.Method
use rustion.App.ConnectTarget
use rustion.App.ConnectTarget.Requests as Target
use rustion.App.Bastion as Channels
use rustion.App.Bastion.Requests.{channel_open_direct_tcpip}
use rustion.App.Bastion.Requests as Handler

-- The run of `inputs`, newest first.
run : World ℕ → Bastion ℕ → List Input → Run (Bastion ℕ)
unfolding Method.pure Method.fail_with Method.panic Method.◌>>=◌ Method.◌>>◌ Method.get_this
    Method.set_this Method.answer Method.if_let Method.note Method.perform Method.ask
    Method.match_result Method.within Method.alone ConnectTarget.data_in ConnectTarget.channel_eof
    ConnectTarget.init_target ConnectTarget.check_permission ConnectTarget.do_connect_to_target
    ConnectTarget.open_on ConnectTarget.keep_channel ConnectTarget.expect_channel
    ConnectTarget.open_again ConnectTarget.accept_channel ConnectTarget.request_target_channel
    ConnectTarget.connect_to_target_without_pty ConnectTarget.keep_recording
    ConnectTarget.start_recording ConnectTarget.connect_to_target_with_pty Target.send_request
    Target.split_channel Target.add_notify Target.bridge Target.do_exec_request Target.reply_after
    Target.exec_request Target.connect_to_target_with_shell Target.shell_request
    Target.do_channel_open_direct_tcpip Target.forgive Target.channel_open_direct_tcpip
    Target.window_change_request Channels.on_connect_target Channels.on_change_password
    Channels.on_selector Channels.on_admin Channels.on_player Channels.match_app Channels.take_user
    Channels.set_app Channels.refuse Channels.init_session Channels.if_allowed
    Channels.open_change_password Channels.open_app Channels.open_mode Channels.open_first
    Channels.open_session_in Channels.channel_open_session Handler.if_permitted Handler.channel_eof
    Handler.data_in Handler.window_change_request Handler.exec_request Handler.keep_pty
    Handler.pty_request Handler.open_shell Handler.shell_request Handler.forward_on
    Handler.forward_first Handler.forward_in Handler.channel_open_direct_tcpip Handler.run_shell
    Handler.process after Login.parse_mode ConnectTarget.new_connect_target rustion.Prelude.Map.get
    rustion.Prelude.Map.insert TargetSelector.new_target_selector
    TargetSelector.channel_open_session TargetSelector.shell_request Screen.window_change
    ConnectTarget.with_target ConnectTarget.with_target_sec_name
run W h [] = record { this = h; trace = [] }
run W h (i ∷ before) = let s = run W h before in after sample_uuids W window s i

run-Reachable :
    (W : World ℕ) (h : Bastion ℕ) (inputs : List Input)
    → Reachable sample_uuids W window (run W h inputs)
unfolding run
run-Reachable W h [] = start h
run-Reachable W h (i ∷ before) = step (run-Reachable W h before) i

abbrev shell_run : List Input
shell_run = shell_on 3 ∷ pty 3 (codes "xterm") window [] ∷ session_channel ∷ []

-- A shell on a target, from the login to the log row.
shell_run_trace :
    (run (world 0) (logged_in (codes "root") (codes "web")) shell_run).trace
    ≡ replied 3 success
      ∷ logged shell web
      ∷ called (some 1) (some 61) 3 request_shell
      ∷ called (some 1) (some 61) 3 (request_pty (codes "xterm") window [])
      ∷ called (some 1) (some 61) 3 (open_channel shell)
      ∷ connected (some 1) 61
      ∷ enforced 1 61 104 true
      ∷ replied 3 success
      ∷ enforced 1 61 105 true
      ∷ enforced 1 101 107 true
      ∷ []
unfolding run
shell_run_trace = refl

abbrev chosen : ConnectTarget.ConnectTarget
chosen =
    ConnectTarget.with_target_sec_name (some root_on_web)
      (ConnectTarget.with_target (some web) (ConnectTarget.new_connect_target (some alice)))

-- The target was chosen on a screen; `enforce` refuses the terminal, and the second session channel
-- gets one.
pty_refused_run_trace :
    (run (world 105) (logged_in [] []) (
      shell_on 4
      ∷ session_channel
      ∷ message 3 (connect_target chosen)
      ∷ shell_on 3
      ∷ pty 3 (codes "xterm") window []
      ∷ session_channel
      ∷ [])).trace
    ≡ replied 4 success
      ∷ logged shell web
      ∷ called (some 1) (some 61) 4 request_shell
      ∷ called (some 1) (some 61) 4 (request_pty (codes "xterm") window [])
      ∷ called (some 1) (some 61) 4 (open_channel shell)
      ∷ connected (some 1) 61
      ∷ enforced 1 61 104 true
      ∷ replied 3 close
      ∷ enforced 1 61 105 false
      ∷ replied 3 success
      ∷ started (select_target alice (root_on_web ∷ []) 3)
      ∷ replied 3 success
      ∷ enforced 1 101 107 true
      ∷ []
unfolding run ConnectTarget.with_target ConnectTarget.with_target_sec_name
pty_refused_run_trace = refl

Reachable-Justified_example :
    Justified sample_uuids (run (world 0) (logged_in (codes "root") (codes "web")) shell_run).trace
Reachable-Justified_example =
    Reachable-Justified sample_uuids (world 0) window
      (run (world 0) (logged_in (codes "root") (codes "web")) shell_run)
      (run-Reachable (world 0) (logged_in (codes "root") (codes "web")) shell_run)

abbrev in_password : Run (Bastion ℕ)
in_password = record {
  this = record (logged_in [] []) {
    app = change_password (new_change_password window (some alice));
  };
  trace = [];
}

channel_open_session-panics_example :
    ((channel_open_session sample_uuids (world 0) window in_password).0 ≡ panicked)
    ↔ Exclusive in_password.this.app
channel_open_session-panics_example =
    channel_open_session-panics sample_uuids (world 0) window in_password
