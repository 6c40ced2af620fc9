-- ===== src/App/Bastion.antt =====
-- The channels of `BastionHandler` in src/server/bastion_handler.rs: the application that a
-- connection opens, and the requests that it passes on to it.
pub mod Requests
pub mod Opened
pub mod Answered
pub mod Steps
pub mod Second
use rustion.Prelude.{ℕ, Bool, true, false, ◌||◌, Option, none, some, List, [], ◌∷◌, if◌then◌else◌}
use rustion.Prelude.Text.{Text}
use rustion.Casbin.Rules.{Uuid}
use rustion.Server.User.{User}
use rustion.Server.Login.{
  LoginParse, LoginMode, target_selector, password, player, admin, target, target_with_user,
  parse_mode,
}
use rustion.App.World.{World, InternalUuids, Window, Modes, success, failure, close, replied}
use rustion.App.Method.{
  Method, pure, panic, get_this, set_this, if_let, perform, ask, ◌>>=◌, ◌>>◌, within, alone,
}
use rustion.App.ConnectTarget
use rustion.App.Screen
use rustion.App.Password
use rustion.App.TargetSelector

pub data Application : Type 0 where
  connect_target : ConnectTarget.ConnectTarget → Application
  change_password : Password.ChangePassword → Application
  selector : TargetSelector.TargetSelector → Application
  admin_app player_app : Screen.Screen → Application
  no_app : Application

pub record Bastion (Ip : Type 0) : Type 0 where
  pub user : Option User
  pub login_parse : Option LoginParse
  pub client_ip : Option Ip
  pub app : Application
  pub window_size : Option Window
  pub pty_modes : Option Modes
  pub pty_term : Option Text

module _ {Ip : Type 0} where
  -- `Application::X(ref mut app) => …`.
  unfoldable pub on_connect_target :
      {B : Type 0}
      → ConnectTarget.ConnectTarget
      → Method ConnectTarget.ConnectTarget B
      → Method (Bastion Ip) B
  on_connect_target = within (λ a h. record h { app = connect_target a })

  unfoldable pub on_change_password :
      {B : Type 0}
      → Password.ChangePassword
      → Method Password.ChangePassword B
      → Method (Bastion Ip) B
  on_change_password = within (λ a h. record h { app = change_password a })

  unfoldable pub on_selector :
      {B : Type 0}
      → TargetSelector.TargetSelector
      → Method TargetSelector.TargetSelector B
      → Method (Bastion Ip) B
  on_selector = within (λ a h. record h { app = selector a })

  unfoldable pub on_admin :
      {B : Type 0} → Screen.Screen → Method Screen.Screen B → Method (Bastion Ip) B
  on_admin = within (λ a h. record h { app = admin_app a })

  unfoldable pub on_player :
      {B : Type 0} → Screen.Screen → Method Screen.Screen B → Method (Bastion Ip) B
  on_player = within (λ a h. record h { app = player_app a })

  -- `match self.app`.
  unfoldable pub match_app :
      {B : Type 0} → (Bastion Ip → Application → Method (Bastion Ip) B) → Method (Bastion Ip) B
  match_app arms = do h ← get_this; arms h h.app

  -- `self.user.take()`.
  unfoldable pub take_user : Method (Bastion Ip) (Option User)
  take_user = do h ← get_this; set_this (record h { user = none }); pure h.user

  unfoldable pub set_app : Application → Method (Bastion Ip) (Unit {0})
  set_app a = do h ← get_this; set_this (record h { app = a })

module _ {Ip : Type 0} (W : World Ip) where
  unfoldable pub refuse : {A : Type 0} → ℕ → Method A (Unit {0})
  refuse channel = perform W (replied channel failure) >> perform W (replied channel close)

  unfoldable pub init_session : InternalUuids → Method (Bastion Ip) Bool
  init_session uuids = do
    h ← get_this
    if_let h.user (pure false) (λ u. ask W u.id uuids.obj_login uuids.act_login h.client_ip)

  -- `if !self.init_session()? { return Ok(false); } m`.
  unfoldable pub if_allowed : InternalUuids → Method (Bastion Ip) Bool → Method (Bastion Ip) Bool
  unfolding init_session
  if_allowed uuids m = do allowed ← init_session uuids; if allowed then m else pure false

module _ (uuids : InternalUuids) {Ip : Type 0} (W : World Ip) (unset : Window) where
  unfoldable pub open_change_password : Method (Bastion Ip) Bool
  unfolding take_user set_app
  open_change_password = do
    u ← take_user
    set_app (change_password (Password.new_change_password unset u))
    pure true

  -- An application of its own is opened by `m`, and kept whatever `m` returns.
  unfoldable pub open_app :
      {A : Type 0}
      → (Option User → A)
      → (A → Application)
      → Method A Bool
      → Method (Bastion Ip) Bool
  unfolding take_user set_app
  open_app new as_app m = do
    u ← take_user
    res ← alone (new u) m
    set_app (as_app res.1)
    pure res.0

  unfoldable pub open_mode : LoginMode → Option Ip → Method (Bastion Ip) Bool
  unfolding open_app open_change_password
  open_mode target_selector ip =
      open_app TargetSelector.new_target_selector selector (TargetSelector.channel_open_session W)
  open_mode password ip = open_change_password
  open_mode player ip =
      open_app Screen.new_screen player_app
        (Screen.channel_open_session W uuids.obj_player uuids.act_login ip)
  open_mode admin ip =
      open_app Screen.new_screen admin_app
        (Screen.channel_open_session W uuids.obj_admin uuids.act_login ip)
  open_mode (target_with_user target_user name) ip =
      open_app ConnectTarget.new_connect_target connect_target
        (ConnectTarget.init_target W target_user name)
  open_mode (target name) ip =
      open_app TargetSelector.new_target_selector selector
        (TargetSelector.channel_open_with_target_name W name)

  -- The arm of `Application::None`.
  unfoldable pub open_first : Method (Bastion Ip) Bool
  unfolding if_allowed open_mode open_change_password
  open_first = if_allowed W uuids (do
    h ← get_this
    if_let h.user (pure false) (λ u. if_let h.login_parse (pure false) (λ l.
        if u.force_init_pass then open_change_password else open_mode (parse_mode l) h.client_ip)))

  unfoldable pub open_session_in : Application → Method (Bastion Ip) Bool
  unfolding open_first
  open_session_in (connect_target _) = pure true
  open_session_in (change_password _) = panic
  open_session_in (selector _) = panic
  open_session_in (admin_app _) = panic
  open_session_in (player_app _) = panic
  open_session_in no_app = open_first

  unfoldable pub channel_open_session : Method (Bastion Ip) Bool
  unfolding open_session_in match_app
  channel_open_session = match_app (λ h a. open_session_in a)
