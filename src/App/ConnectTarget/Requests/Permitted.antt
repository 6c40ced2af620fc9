-- ===== src/App/ConnectTarget/Requests/Permitted.antt =====
-- The requests keep the trace justified, once their action was granted.
use rustion.Prelude.{ℕ, ◌≡◌, ap, inr, Bool, true, false, Option, none, some, if◌then◌else◌}
use rustion.Prelude.Map.{insert, remove}
use rustion.Casbin.Rules.{
  Uuid, Error, administratively_prohibited, send_error, channel_open_failure, other_russh, russh,
  app, sqlx, invalid_rule_group, extend_policy_parse, invalid_login_name,
}
use rustion.App.World.{World, InternalUuids, Request, Modes, Window}
use rustion.Prelude.Text.{Text}
use rustion.App.Method.{Run, Method, set_this, pure, ◌>>=◌, panic}
use rustion.App.Method.Keeps.{
  Keeps, Keeps-pure, Keeps-fail_with, Keeps-panic, Keeps-if_let, Keeps-if, Keeps-bind, Keeps-then,
  Keeps-get_this, Keeps-match_result,
}
use rustion.App.Permission.{action_for, wants, Fits}
use rustion.App.ConnectTarget.{ConnectTarget, connect_to_target_without_pty}
use rustion.App.World.{shell, exec, open_direct_tcpip, request_shell, request_exec}
use rustion.App.ConnectTarget.{channel_full, channel_write_half, TargetChannel}
use rustion.App.ConnectTarget.Permitted.{
  Ready, set_this-Ready, note-Ready, perform-Ready, call-Fits, connect_to_target_without_pty-Ready,
  connect_to_target_with_pty-Ready,
}
use rustion.App.ConnectTarget.Requests.{
  send_request, split_channel, add_notify, bridge, do_exec_request, reply_after, exec_request,
  connect_to_target_with_shell, shell_request, do_channel_open_direct_tcpip, forgive,
  channel_open_direct_tcpip,
}

module _ (uuids : InternalUuids) (w o : Option Uuid) (a : Uuid) {Ip : Type 0} (W : World Ip) where
  abbrev K : {B : Type 0} → Method ConnectTarget B → Type 0
  K m = Keeps (Ready uuids w o a) m

  split_channel-Ready : (channel : ℕ) → K (split_channel W channel)
  unfolding split_channel
  split_channel-Ready channel = Keeps-get_this _ (λ s h. Keeps-if_let _ _ _ Keeps-panic (λ whole _.
      Keeps-then _ _ (set_this-Ready uuids w o a _ h.for_user h.for_secret) (part s h whole)))
    where
      part :
          (s : Run ConnectTarget)
          → Ready uuids w o a s
          → (whole : TargetChannel)
          → K (elim whole [
            | channel_full ↦ set_this (record s.this {
              target_channel =
                  insert channel channel_write_half (remove channel s.this.target_channel);
            })
            | channel_write_half ↦ panic
          ])
      part s h channel_full = set_this-Ready uuids w o a _ h.for_user h.for_secret
      part s h channel_write_half = Keeps-panic

  add_notify-Ready : (channel : ℕ) → K (add_notify W channel)
  unfolding add_notify
  add_notify-Ready channel = Keeps-get_this _ (λ s h.
      Keeps-then _ _ (set_this-Ready uuids w o a _ h.for_user h.for_secret)
        (Keeps-if_let _ _ _ (Keeps-pure tt) (λ _ _. Keeps-fail_with _)))

  send_request-Ready :
      (channel : ℕ) (request : Request)
      → action_for uuids request ≡ a
      → K (send_request W channel request)
  unfolding send_request wants action_for
  send_request-Ready channel shell e = Keeps-get_this _ (λ s h. perform-Ready uuids w o a W _ (
      call-Fits uuids w o a W s.this channel request_shell h.for_user h.for_secret
        (inr (ap some e))))
  send_request-Ready channel (exec bytes) e = Keeps-get_this _ (λ s h.
      perform-Ready uuids w o a W _ (
        call-Fits uuids w o a W s.this channel (request_exec bytes) h.for_user h.for_secret
          (inr (ap some e))))
  send_request-Ready channel (open_direct_tcpip host port from from_port) e =
      Keeps-get_this _ (λ s h. Keeps-pure tt)

  bridge-Ready :
      (channel : ℕ) (request : Request)
      → action_for uuids request ≡ a
      → K (bridge W channel request)
  unfolding bridge Fits
  bridge-Ready channel request e = Keeps-then _ _ (split_channel-Ready channel) (
      Keeps-get_this _ (λ s h. Keeps-if_let _ _ _ Keeps-panic (λ t _.
        Keeps-then _ _ (send_request-Ready channel request e)
          (Keeps-then _ _ (add_notify-Ready channel) (note-Ready uuids w o a _ (λ t g. tt))))))

  reply_after-Ready :
      (channel : ℕ) (m : Method ConnectTarget (Unit {0})) → K m → K (reply_after W channel m)
  unfolding reply_after Fits
  reply_after-Ready channel m k =
      Keeps-match_result m _ _ k (λ _. perform-Ready uuids w o a W _ (λ t g. tt))
        (λ e. Keeps-then _ _ (perform-Ready uuids w o a W _ (λ t g. tt)) (Keeps-fail_with e))

  pub exec_request-Ready :
      (channel : ℕ) (bytes : Text) (term : Option Text) (window : Option Window)
      (modes : Option Modes)
      → uuids.act_exec ≡ a
      → K (exec_request W channel bytes term window modes)
  unfolding exec_request do_exec_request action_for
  exec_request-Ready channel bytes term window modes e =
      reply_after-Ready channel _ (run term window modes)
    where
      bridged : (ready : Bool) → K (if ready then bridge W channel (exec bytes) else pure tt)
      bridged ready = Keeps-if ready _ _ (bridge-Ready channel (exec bytes) e) (Keeps-pure tt)

      plain : K (
          connect_to_target_without_pty W channel (exec bytes) >>= λ ready.
          if ready then bridge W channel (exec bytes) else pure tt)
      plain =
          Keeps-bind _ _ (connect_to_target_without_pty-Ready uuids w o a W channel (exec bytes) e)
            bridged

      run :
          (term : Option Text) (window : Option Window) (modes : Option Modes)
          → K (do_exec_request W bytes term window modes channel)
      run (some t) (some v) (some m) =
          Keeps-bind _ _
            (connect_to_target_with_pty-Ready uuids w o a W channel (exec bytes) e t v m) bridged
      run (some t) (some v) none = plain
      run (some t) none m = plain
      run none v m = plain

  pub shell_request-Ready :
      (channel : ℕ) (term : Text) (window : Window) (modes : Modes)
      → uuids.act_shell ≡ a
      → K (shell_request W channel term window modes)
  unfolding shell_request connect_to_target_with_shell action_for
  shell_request-Ready channel term window modes e = reply_after-Ready channel _ (
      Keeps-bind _ _
        (connect_to_target_with_pty-Ready uuids w o a W channel shell e term window modes)
        (λ ready. Keeps-if ready _ _ (bridge-Ready channel shell e) (Keeps-pure tt)))

  forgive-Ready : (e : Error) → K (forgive W e)
  unfolding forgive
  forgive-Ready (russh administratively_prohibited) = Keeps-pure false
  forgive-Ready (russh (channel_open_failure n)) = Keeps-pure false
  forgive-Ready (russh send_error) = Keeps-fail_with _
  forgive-Ready (russh (other_russh n)) = Keeps-fail_with _
  forgive-Ready (app e) = Keeps-fail_with _
  forgive-Ready (sqlx t) = Keeps-fail_with _
  forgive-Ready invalid_rule_group = Keeps-fail_with _
  forgive-Ready (extend_policy_parse e) = Keeps-fail_with _
  forgive-Ready invalid_login_name = Keeps-fail_with _

  pub channel_open_direct_tcpip-Ready :
      (channel : ℕ) (host : Text) (port : ℕ) (from : Text) (from_port : ℕ)
      → uuids.act_direct_tcpip ≡ a
      → K (channel_open_direct_tcpip W channel host port from from_port)
  unfolding channel_open_direct_tcpip do_channel_open_direct_tcpip action_for
  channel_open_direct_tcpip-Ready channel host port from from_port e =
      let request = open_direct_tcpip host port from from_port in
      Keeps-match_result _ _ _
        (Keeps-bind _ _ (connect_to_target_without_pty-Ready uuids w o a W channel request e)
          (λ ready.
            Keeps-if ready _ _ (Keeps-then _ _ (bridge-Ready channel request e) (Keeps-pure true))
              (Keeps-pure false)))
        (λ b. Keeps-pure b) forgive-Ready
