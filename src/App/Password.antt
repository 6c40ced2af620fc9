-- ===== src/App/Password.antt =====
-- `ChangePassword` of src/server/app/change_password.rs, up to the task that its shell starts.
use rustion.Prelude.{ℕ, Option, none}
use rustion.Prelude.Text.{Text}
use rustion.Server.User.{User}
use rustion.App.World.{World, Window, success, replied, typed, started, prompt_password}
use rustion.App.Method.{Method, panic, get_this, set_this, if_let, note, perform, ◌>>=◌, ◌>>◌}
use rustion.App.Screen.{window_change}

pub record ChangePassword : Type 0 where
  pub user : Option User
  pub tty : Window

-- The window of a tty that has none set yet is crossterm's own.
unfoldable pub new_change_password : Window → Option User → ChangePassword
new_change_password window user = record { user = user; tty = window }

module _ {Ip : Type 0} (W : World Ip) where
  unfoldable pub data_in : Text → Method ChangePassword (Unit {0})
  data_in bytes = perform W (typed bytes)

  unfoldable pub pty_request : Window → Method ChangePassword (Unit {0})
  unfolding window_change
  pty_request window = do s ← get_this; set_this (record s { tty = (window_change window).0 })

  unfoldable pub window_change_request : ℕ → Window → Method ChangePassword (Unit {0})
  unfolding window_change
  window_change_request channel window = do
    s ← get_this
    set_this (record s { tty = (window_change window).0 })
    perform W (typed (window_change window).1)

  unfoldable pub shell_request : ℕ → Method ChangePassword (Unit {0})
  shell_request channel = do
    s ← get_this
    set_this (record s { user = none })
    if_let s.user panic
        (λ u. do note (started (prompt_password u)); perform W (replied channel success))
