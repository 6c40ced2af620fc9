-- ===== src/App/Bastion/Second.antt =====
-- What a second session channel of a connection meets in src/server/bastion_handler.rs.
use rustion.Prelude.{◌≡◌, refl, ◌↔◌, Bool, true, false, Option}
use rustion.Prelude.Actions.{panicked}
use rustion.Prelude.Text.{Text}
use rustion.Casbin.Rules.{Uuid}
use rustion.Server.User.{User}
use rustion.Server.Login.{
  LoginMode, target_selector, password, player, admin, target, target_with_user, parse_mode,
}
use rustion.App.World.{World, InternalUuids, Window}
use rustion.App.Method.{Run, Method, pure, panic, ◌>>=◌, get_this}
use rustion.App.Method.Calm.{
  Calm, Calm-pure, Calm-set_this, Calm-get_this, Calm-answer, Calm-ask, Calm-if_let, Calm-if,
  Calm-bind, Calm-then, Calm-alone,
}
use rustion.App.ConnectTarget
use rustion.App.Screen
use rustion.App.TargetSelector
use rustion.App.Bastion.{
  Application, connect_target, change_password, selector, admin_app, player_app, no_app, Bastion,
  match_app, take_user, set_app, init_session, if_allowed, open_app, open_mode,
  open_change_password, open_first, open_session_in, channel_open_session,
}

-- The applications that take a connection for one session channel.
unfoldable pub Exclusive : Application → Type 0
Exclusive (change_password _) = Unit
Exclusive (selector _) = Unit
Exclusive (admin_app _) = Unit
Exclusive (player_app _) = Unit
Exclusive (connect_target _) = ⊥
Exclusive no_app = ⊥

module _ (uuids : InternalUuids) {Ip : Type 0} (W : World Ip) (unset : Window) where
  set_app-Calm : (a : Application) → Calm {A = Bastion Ip} (set_app a)
  unfolding set_app
  set_app-Calm a = Calm-bind _ _ Calm-get_this (λ h. Calm-set_this _)

  take_user-Calm : Calm {A = Bastion Ip} take_user
  unfolding take_user
  take_user-Calm = Calm-bind _ _ Calm-get_this (λ h. Calm-then _ _ (Calm-set_this _) (Calm-pure _))

  open_app-Calm :
      {A : Type 0} (new : Option User → A) (as_app : A → Application) (m : Method A Bool)
      → Calm m
      → Calm (open_app uuids W unset new as_app m)
  unfolding open_app
  open_app-Calm new as_app m k = Calm-bind _ _ take_user-Calm (λ u.
      Calm-bind _ _ (Calm-alone (new u) m k)
        (λ res. Calm-then _ _ (set_app-Calm _) (Calm-pure res.0)))

  open_change_password-Calm : Calm (open_change_password uuids W unset)
  unfolding open_change_password
  open_change_password-Calm =
      Calm-bind _ _ take_user-Calm (λ u. Calm-then _ _ (set_app-Calm _) (Calm-pure true))

  init_target-Calm : (user name : Text) → Calm (ConnectTarget.init_target W user name)
  unfolding ConnectTarget.init_target
  init_target-Calm user name = Calm-bind _ _ Calm-get_this (λ c.
      Calm-if_let _ _ _ (Calm-pure false) (λ u. Calm-bind _ _ (Calm-answer _) (λ targets.
        Calm-if_let _ _ _ (Calm-pure false) (λ tsn. Calm-bind _ _ (Calm-answer _) (λ found.
          Calm-if_let _ _ _ (Calm-pure false)
            (λ t. Calm-then _ _ (Calm-set_this _) (Calm-pure true)))))))

  screen_open-Calm :
      (object action : Uuid) (ip : Option Ip)
      → Calm (Screen.channel_open_session W object action ip)
  unfolding Screen.channel_open_session Screen.check_permission
  screen_open-Calm object action ip =
      Calm-bind _ _
        (Calm-bind _ _ Calm-get_this
          (λ s. Calm-if_let _ _ _ (Calm-pure false) (λ u. Calm-ask W u.id object action ip)))
        (λ granted. Calm-if granted _ _ (Calm-pure true) (Calm-pure false))

  selector_open-Calm : Calm (TargetSelector.channel_open_session W)
  unfolding TargetSelector.channel_open_session
  selector_open-Calm = Calm-bind _ _ Calm-get_this (λ s. Calm-if_let _ _ _ (Calm-pure false) (λ u.
      Calm-bind _ _ (Calm-answer _) (λ allowed.
        Calm-if _ _ _ (Calm-pure false) (Calm-then _ _ (Calm-set_this _) (Calm-pure true)))))

  selector_name-Calm : (name : Text) → Calm (TargetSelector.channel_open_with_target_name W name)
  unfolding TargetSelector.channel_open_with_target_name
  selector_name-Calm name = Calm-bind _ _ Calm-get_this (λ s.
      Calm-if_let _ _ _ (Calm-pure false) (λ u. Calm-bind _ _ (Calm-answer _) (λ allowed.
        Calm-if _ _ _ (Calm-pure false) (Calm-then _ _ (Calm-set_this _) (Calm-pure true)))))

  open_mode-Calm : (mode : LoginMode) (ip : Option Ip) → Calm (open_mode uuids W unset mode ip)
  unfolding open_mode
  open_mode-Calm target_selector ip = open_app-Calm _ _ _ selector_open-Calm
  open_mode-Calm password ip = open_change_password-Calm
  open_mode-Calm player ip = open_app-Calm _ _ _ (screen_open-Calm _ _ ip)
  open_mode-Calm admin ip = open_app-Calm _ _ _ (screen_open-Calm _ _ ip)
  open_mode-Calm (target_with_user user name) ip = open_app-Calm _ _ _ (init_target-Calm user name)
  open_mode-Calm (target name) ip = open_app-Calm _ _ _ (selector_name-Calm name)

  init_session-Calm : Calm (init_session W uuids)
  unfolding init_session
  init_session-Calm =
      Calm-bind _ _ Calm-get_this
        (λ h. Calm-if_let _ _ _ (Calm-pure false) (λ u. Calm-ask W _ _ _ _))

  open_first-Calm : Calm (open_first uuids W unset)
  unfolding open_first if_allowed
  open_first-Calm = Calm-bind _ _ init_session-Calm (λ allowed.
      Calm-if allowed _ _
        (Calm-bind _ _ Calm-get_this (λ h. Calm-if_let _ _ _ (Calm-pure false) (λ u.
          Calm-if_let _ _ _ (Calm-pure false) (λ l.
            Calm-if u.force_init_pass _ _ open_change_password-Calm
              (open_mode-Calm (parse_mode l) h.client_ip)))))
        (Calm-pure false))

  -- Opening a session channel panics exactly when the connection is already in an application other
  -- than one on a target: the first channel never does, and neither does a further one to a target.
  pub channel_open_session-panics :
      (s : Run (Bastion Ip))
      → ((channel_open_session uuids W unset s).0 ≡ panicked) ↔ Exclusive s.this.app
  unfolding channel_open_session open_session_in match_app ◌>>=◌ get_this pure panic Exclusive
  channel_open_session-panics s = go s.this.app
    where
      go : (a : Application) → ((open_session_in uuids W unset a s).0 ≡ panicked) ↔ Exclusive a
      go (change_password _) = (λ e. tt, λ _. refl)
      go (selector _) = (λ e. tt, λ _. refl)
      go (admin_app _) = (λ e. tt, λ _. refl)
      go (player_app _) = (λ e. tt, λ _. refl)
      go (connect_target _) = (λ e. cc, λ x. absurd x)
      go no_app = (λ e. open_first-Calm.at s e, λ x. absurd x)
