-- ===== src/App/Bastion/Opened.antt =====
-- Opening an application keeps the trace justified.
use rustion.Prelude.{ℕ, Bool, true, false, Option}
use rustion.Casbin.Rules.{Uuid}
use rustion.Server.User.{User}
use rustion.Server.Login.{
  LoginMode, target_selector, password, player, admin, target, target_with_user, parse_mode,
}
use rustion.App.World.{World, InternalUuids, Window}
use rustion.App.Method.{Method, within}
use rustion.App.Method.Keeps.{
  Keeps, Keeps-pure, Keeps-panic, Keeps-if_let, Keeps-if, Keeps-bind, Keeps-then, Keeps-get_this,
  Keeps-within, Keeps-alone,
}
use rustion.App.Permission.{Justified}
use rustion.App.ConnectTarget
use rustion.App.ConnectTarget.Permitted.{Ready}
use rustion.App.ConnectTarget.Checked.{if_checked-Justified, check_permission-Checked}
use rustion.App.Harmless
use rustion.App.Screen
use rustion.App.Password
use rustion.App.TargetSelector
use rustion.App.Bastion.{
  Application, connect_target, change_password, selector, admin_app, player_app, no_app, Bastion,
  refuse, init_session, if_allowed, take_user, set_app, open_change_password, open_app, open_mode,
  open_first, open_session_in, match_app, channel_open_session,
}
use rustion.App.Bastion.Requests.{if_permitted}

module _ (uuids : InternalUuids) {Ip : Type 0} (W : World Ip) (unset : Window) where
  abbrev pub J : {A B : Type 0} → Method A B → Type 0
  J m = Keeps (λ s. Justified uuids s.trace) m

  pub part-J :
      {A B : Type 0} (put : A → Bastion Ip → Bastion Ip) (a : A) (m : Method A B)
      → J m
      → J (within put a m)
  part-J put a m k = Keeps-within (Justified uuids) put a m k

  pub refuse-J : {A : Type 0} (channel : ℕ) → J (refuse W {A = A} channel)
  unfolding refuse
  refuse-J channel =
      Keeps-then _ _ (Harmless.J-replied uuids W channel _) (Harmless.J-replied uuids W channel _)

  pub set_app-J : (a : Application) → J {A = Bastion Ip} (set_app a)
  unfolding set_app
  set_app-J a = Keeps-get_this _ (λ s h. Harmless.J-set_this uuids W _)

  pub take_user-J : J {A = Bastion Ip} take_user
  unfolding take_user
  take_user-J =
      Keeps-get_this _ (λ s h. Keeps-then _ _ (Harmless.J-set_this uuids W _) (Keeps-pure _))

  pub init_session-J : J (init_session W uuids)
  unfolding init_session
  init_session-J =
      Keeps-get_this _
        (λ s h. Keeps-if_let _ _ _ (Keeps-pure false) (λ u _. Harmless.J-ask uuids W _ _ _ _))

  pub if_allowed-J : (m : Method (Bastion Ip) Bool) → J m → J (if_allowed W uuids m)
  unfolding if_allowed
  if_allowed-J m k =
      Keeps-bind _ _ init_session-J (λ allowed. Keeps-if allowed _ _ k (Keeps-pure false))

  open_change_password-J : J (open_change_password uuids W unset)
  unfolding open_change_password
  open_change_password-J =
      Keeps-bind _ _ take_user-J (λ u. Keeps-then _ _ (set_app-J _) (Keeps-pure true))

  open_app-J :
      {A : Type 0} (new : Option User → A) (as_app : A → Application) (m : Method A Bool)
      → J m
      → J (open_app uuids W unset new as_app m)
  unfolding open_app
  open_app-J new as_app m k = Keeps-bind _ _ take_user-J (λ u.
      Keeps-bind _ _ (Keeps-alone (Justified uuids) (new u) m k)
        (λ res. Keeps-then _ _ (set_app-J _) (Keeps-pure res.0)))

  open_mode-J : (mode : LoginMode) (ip : Option Ip) → J (open_mode uuids W unset mode ip)
  unfolding open_mode
  open_mode-J target_selector ip = open_app-J _ _ _ (Harmless.selector_open-J uuids W)
  open_mode-J password ip = open_change_password-J
  open_mode-J player ip = open_app-J _ _ _ (Harmless.screen_open-J uuids W _ _ ip)
  open_mode-J admin ip = open_app-J _ _ _ (Harmless.screen_open-J uuids W _ _ ip)
  open_mode-J (target_with_user user name) ip =
      open_app-J _ _ _ (Harmless.init_target-J uuids W user name)
  open_mode-J (target name) ip = open_app-J _ _ _ (Harmless.selector_name-J uuids W name)

  open_first-J : J (open_first uuids W unset)
  unfolding open_first
  open_first-J = if_allowed-J _ (
      Keeps-get_this _ (λ s h. Keeps-if_let _ _ _ (Keeps-pure false) (λ u _.
        Keeps-if_let _ _ _ (Keeps-pure false) (λ l _.
          Keeps-if u.force_init_pass _ _ open_change_password-J
            (open_mode-J (parse_mode l) s.this.client_ip)))))

  pub match_app-J :
      {B : Type 0} (arms : Bastion Ip → Application → Method (Bastion Ip) B)
      → ((h : Bastion Ip) (c : ConnectTarget.ConnectTarget) → J (arms h (connect_target c)))
      → ((h : Bastion Ip) (c : Password.ChangePassword) → J (arms h (change_password c)))
      → ((h : Bastion Ip) (c : TargetSelector.TargetSelector) → J (arms h (selector c)))
      → ((h : Bastion Ip) (c : Screen.Screen) → J (arms h (admin_app c)))
      → ((h : Bastion Ip) (c : Screen.Screen) → J (arms h (player_app c)))
      → ((h : Bastion Ip) → J (arms h no_app))
      → J (match_app arms)
  unfolding match_app
  match_app-J {B} arms kc kp ks ka kl kn = Keeps-get_this _ (λ s h. go s.this s.this.app)
    where
      go : (h : Bastion Ip) (a : Application) → J (arms h a)
      go h (connect_target c) = kc h c
      go h (change_password c) = kp h c
      go h (selector c) = ks h c
      go h (admin_app c) = ka h c
      go h (player_app c) = kl h c
      go h no_app = kn h

  pub channel_open_session-J : J (channel_open_session uuids W unset)
  unfolding channel_open_session
  channel_open_session-J =
      match_app-J (λ h a. open_session_in uuids W unset a) (λ h c. Keeps-pure true)
        (λ h c. Keeps-panic) (λ h c. Keeps-panic) (λ h c. Keeps-panic) (λ h c. Keeps-panic)
        (λ h. open_first-J)

  -- What runs after the check of its own action.
  pub if_permitted-J :
      {B : Type 0} (action : Uuid) (ip : Option Ip) (m n : Method ConnectTarget.ConnectTarget B)
      → ((w o : Option Uuid) → Keeps (Ready uuids w o action) m)
      → J n
      → J (if_permitted uuids W action ip m n)
  unfolding if_permitted
  if_permitted-J action ip m n km kn = if_checked-Justified uuids W action ip m n km kn

  pub check-J : (action : Uuid) (ip : Option Ip) → J (ConnectTarget.check_permission W action ip)
  check-J action ip = record {
    at = λ s h. (check_permission-Checked uuids W action ip s h).justified;
  }
