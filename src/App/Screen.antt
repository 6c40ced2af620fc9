-- ===== src/App/Screen.antt =====
-- The applications with a screen of their own: `Admin` of src/server/app/admin.rs and `Player` of
-- src/server/app/player.rs, up to the tasks that they start. `Admin` and `Player` have the same fields and the same methods but for the
-- object they ask permission for, the task and the log row.
use rustion.Prelude.{ℕ, ◌%◌, Bool, true, false, Option, none, some, [], ◌∷◌, ◌++◌, if◌then◌else◌}
use rustion.Prelude.Decimal.{digits}
use rustion.Prelude.Text.{Text, codes}
use rustion.Casbin.Rules.{Uuid}
use rustion.Server.User.{User}
use rustion.App.World.{
  World, Window, success, failure, Event, replied, typed, started, wrote, request_failed,
  admin_shell, player_screen,
}
use rustion.App.Method.{
  Method, pure, panic, get_this, set_this, if_let, note, perform, ask, ◌>>=◌, ◌>>◌,
}

-- `window_change` of src/terminal/mod.rs: the window that the tty has then, and the bytes that tell it.
unfoldable pub window_change : Window → Window × Text
unfolding digits
window_change w =
    let columns = w.col_width % 65536 in
    let rows = w.row_height % 65536 in
    (
      record {
        col_width = columns;
        row_height = rows;
        pix_width = w.pix_width % 65536;
        pix_height = w.pix_height % 65536;
      },
      27 ∷ b'[' ∷ b'W' ∷ digits 5 columns ++ (b';' ∷ digits 5 rows) ++ (b'R' ∷ []),
    )

-- `Admin` and `Player`, with the window of the tty.
pub record Screen : Type 0 where
  pub user : Option User
  pub tty : Option Window
  pub send_to_tty : Bool
  pub recv_from_tty : Bool

unfoldable pub new_screen : Option User → Screen
new_screen user = record { user = user; tty = none; send_to_tty = false; recv_from_tty = false }

module _ {Ip : Type 0} (W : World Ip) where
  unfoldable pub data_in : Text → Method Screen (Unit {0})
  data_in bytes = do s ← get_this; if s.send_to_tty then perform W (typed bytes) else pure tt

  unfoldable pub pty_request : Window → Method Screen (Unit {0})
  unfolding window_change
  pty_request window = do
    s ← get_this
    set_this
        (record s { tty = some (window_change window).0; send_to_tty = true; recv_from_tty = true })

  -- A window that the tty takes is answered by success, and then by failure.
  unfoldable pub window_change_request : ℕ → Window → Method Screen (Unit {0})
  unfolding window_change
  window_change_request channel window = do
    s ← get_this
    if_let s.tty (pure tt) (λ _. do
      set_this (record s { tty = some (window_change window).0 })
      if s.send_to_tty then perform W (typed (window_change window).1) else pure tt
      perform W (replied channel success))
    perform W (replied channel failure)

  unfoldable pub check_permission : Uuid → Uuid → Option Ip → Method Screen Bool
  check_permission object action ip = do
    s ← get_this
    if_let s.user (pure false) (λ u. ask W u.id object action ip)

  -- `channel_open_session` of `Admin` and of `Player`, without the log line of a refusal.
  unfoldable pub channel_open_session : Uuid → Uuid → Option Ip → Method Screen Bool
  unfolding check_permission
  channel_open_session object action ip = do
    granted ← check_permission object action ip
    if granted then pure true else pure false

  -- `shell_request` of both: the task `start`, and a row `line`.
  unfoldable pub open_shell : (User → Event) → (User → Event) → ℕ → Method Screen (Unit {0})
  open_shell start line channel = do
    s ← get_this
    set_this (record s { user = none })
    if_let s.user panic (λ u. if_let s.tty (note request_failed) (λ _.
        if s.recv_from_tty
        then (do note (start u); perform W (replied channel success); note (line u))
        else note request_failed))

  unfoldable pub admin_shell_request : ℕ → Method Screen (Unit {0})
  unfolding open_shell
  admin_shell_request =
      open_shell (λ u. started (admin_shell u.id))
        (λ u.
          wrote (codes "admin") (codes "User: " ++ u.username ++ codes " login to admin system"))

  unfoldable pub player_shell_request : ℕ → Method Screen (Unit {0})
  unfolding open_shell
  player_shell_request =
      open_shell (λ u. started (player_screen u.id))
        (λ u. wrote (codes "player") (codes "User: " ++ u.username ++ codes " login to player"))
