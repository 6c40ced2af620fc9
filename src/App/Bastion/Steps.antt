-- ===== src/App/Bastion/Steps.antt =====
-- What a client and the tasks make a connection do, one method of the handler in
-- src/server/bastion_handler.rs at a time.
use rustion.Prelude.{ℕ, []}
use rustion.Prelude.Text.{Text}
use rustion.App.World.{World, InternalUuids, Window, Modes}
use rustion.App.Method.{Run}
use rustion.App.Permission.{Justified}
use rustion.App.Bastion.{Application, Bastion, channel_open_session}
use rustion.App.Bastion.Requests.{
  channel_eof, data_in, window_change_request, exec_request, pty_request, shell_request,
  channel_open_direct_tcpip, process,
}
use rustion.App.Bastion.Opened
use rustion.App.Bastion.Answered

-- The methods that russh calls, and the messages of the tasks: `process` may get any application.
pub data Input : Type 0 where
  session_channel : Input
  forwarding : ℕ → Text → ℕ → Text → ℕ → Input
  bytes_in : ℕ → Text → Input
  eof : ℕ → Input
  new_window : ℕ → Window → Input
  command : ℕ → Text → Input
  pty : ℕ → Text → Window → Modes → Input
  shell_on : ℕ → Input
  message : ℕ → Application → Input

module _ (uuids : InternalUuids) {Ip : Type 0} (W : World Ip) (unset : Window) where
  -- The state after an input, whether its method returned, failed or panicked.
  unfoldable pub after : Run (Bastion Ip) → Input → Run (Bastion Ip)
  after s session_channel = (channel_open_session uuids W unset s).1
  after s (forwarding channel host port from from_port) =
      (channel_open_direct_tcpip uuids W channel host port from from_port s).1
  after s (bytes_in channel bytes) = (data_in uuids W channel bytes s).1
  after s (eof channel) = (channel_eof uuids W channel s).1
  after s (new_window channel window) = (window_change_request uuids W channel window s).1
  after s (command channel bytes) = (exec_request uuids W channel bytes s).1
  after s (pty channel term window modes) = (pty_request uuids W channel term window modes s).1
  after s (shell_on channel) = (shell_request uuids W channel s).1
  after s (message channel a) = (process uuids W channel a s).1

  -- What a connection comes to be, from any state that nothing has reached a target in.
  pub data Reachable : Run (Bastion Ip) → Type 0 where
    start : (h : Bastion Ip) → Reachable (record { this = h; trace = [] })
    step : {s : Run (Bastion Ip)} → Reachable s → (i : Input) → Reachable (after s i)

  after-Justified :
      (s : Run (Bastion Ip)) (i : Input)
      → Justified uuids s.trace
      → Justified uuids (after s i).trace
  unfolding after
  after-Justified s session_channel h = (Opened.channel_open_session-J uuids W unset).at s h
  after-Justified s (forwarding channel host port from from_port) h =
      (Answered.channel_open_direct_tcpip-J uuids W unset channel host port from from_port).at s h
  after-Justified s (bytes_in channel bytes) h =
      (Answered.data_in-J uuids W unset channel bytes).at s h
  after-Justified s (eof channel) h = (Answered.channel_eof-J uuids W unset channel).at s h
  after-Justified s (new_window channel window) h =
      (Answered.window_change_request-J uuids W unset channel window).at s h
  after-Justified s (command channel bytes) h =
      (Answered.exec_request-J uuids W unset channel bytes).at s h
  after-Justified s (pty channel term window modes) h =
      (Answered.pty_request-J uuids W unset channel term window modes).at s h
  after-Justified s (shell_on channel) h = (Answered.shell_request-J uuids W unset channel).at s h
  after-Justified s (message channel a) h = (Answered.process-J uuids W unset channel a).at s h

  -- In every state that a connection reaches, each channel opened on a target, each shell and each
  -- command that went to it, and each connection made to it, came after `enforce` granted that user
  -- the action for that secret of the target.
  pub Reachable-Justified : (s : Run (Bastion Ip)) → Reachable s → Justified uuids s.trace
  unfolding Justified
  Reachable-Justified _ (start h) = tt
  Reachable-Justified _ (step {s} r i) = after-Justified s i (Reachable-Justified s r)
