-- ===== src/App/Harmless.antt =====
-- The applications but for the requests on a target add no event that has to be justified.
use rustion.Prelude.{ℕ, Bool, true, false, Option, List, if◌then◌else◌}
use rustion.Prelude.Text.{Text}
use rustion.Casbin.Rules.{Uuid}
use rustion.Server.User.{User}
use rustion.App.World.{World, InternalUuids, Window, Event, replied, typed}
use rustion.App.Method.{Method, pure, set_this, note, perform, ask}
use rustion.App.Method.Keeps.{
  Keeps, Keeps-pure, Keeps-fail_with, Keeps-panic, Keeps-answer, Keeps-if_let, Keeps-if, Keeps-bind,
  Keeps-then, Keeps-get_this, Keeps-set_this, Keeps-note, Keeps-perform, Keeps-ask,
}
use rustion.App.Permission.{Fits, Justified, wants, Wanted}
use rustion.App.ConnectTarget
use rustion.App.ConnectTarget.Requests
use rustion.App.Screen
use rustion.App.Password
use rustion.App.TargetSelector

module _ (uuids : InternalUuids) {Ip : Type 0} (W : World Ip) where
  -- The trace stays justified.
  abbrev pub J : {A B : Type 0} → Method A B → Type 0
  J m = Keeps (λ s. Justified uuids s.trace) m

  module _ {A : Type 0} where
    pub J-set_this : (a : A) → J (set_this a)
    J-set_this a = Keeps-set_this a (λ s h. h)

    J-note : (e : Event) → ((t : List Event) → Fits uuids e t) → J (note {A = A} e)
    unfolding Justified
    J-note e f = Keeps-note e (λ s h. (f s.trace, h))

    pub J-perform : (e : Event) → ((t : List Event) → Fits uuids e t) → J (perform {A = A} W e)
    unfolding Justified
    J-perform e f = Keeps-perform W e (λ s h. (f s.trace, h))

    pub J-replied : (channel : ℕ) (r : _) → J (perform {A = A} W (replied channel r))
    unfolding Fits
    J-replied channel r = J-perform _ (λ t. tt)

    J-typed : (bytes : Text) → J (perform {A = A} W (typed bytes))
    unfolding Fits
    J-typed bytes = J-perform _ (λ t. tt)

    pub J-ask : (sub obj act : Uuid) (ip : Option Ip) → J (ask {A = A} W sub obj act ip)
    unfolding Justified Fits
    J-ask sub obj act ip = Keeps-ask W sub obj act ip (λ s granted h. (tt, h))

  -- `ConnectTarget` without a permission.
  pub init_target-J :
      (target_user target_name : Text) → J (ConnectTarget.init_target W target_user target_name)
  unfolding ConnectTarget.init_target
  init_target-J target_user target_name = Keeps-get_this _ (λ s h.
      Keeps-if_let _ _ _ (Keeps-pure false) (λ u _. Keeps-bind _ _ (Keeps-answer _) (λ targets.
        Keeps-if_let _ _ _ (Keeps-pure false) (λ tsn _. Keeps-bind _ _ (Keeps-answer _) (λ found.
          Keeps-if_let _ _ _ (Keeps-pure false)
            (λ t _. Keeps-then _ _ (J-set_this _) (Keeps-pure true)))))))

  pub channel_eof-J : (channel : ℕ) → J (ConnectTarget.channel_eof W channel)
  unfolding ConnectTarget.channel_eof Fits wants Wanted
  channel_eof-J channel =
      Keeps-get_this _ (λ s h. Keeps-if_let _ _ _ (Keeps-pure tt) (λ _ _. J-perform _ (λ t. tt)))

  pub data_in-J : (channel : ℕ) (bytes : Text) → J (ConnectTarget.data_in W channel bytes)
  unfolding ConnectTarget.data_in Fits wants Wanted
  data_in-J channel bytes = Keeps-get_this _ (λ s h.
      Keeps-then _ _ (Keeps-if_let _ _ _ (Keeps-pure tt) (λ _ _. J-perform _ (λ t. tt)))
        (Keeps-if_let _ _ _ (Keeps-pure tt) (λ _ _. J-note _ (λ t. tt))))

  pub window_change_request-J :
      (channel : ℕ) (window : Window) → J (Requests.window_change_request W channel window)
  unfolding Requests.window_change_request Fits wants Wanted
  window_change_request-J channel window = Keeps-get_this _ (λ s h.
      Keeps-then _ _
        (Keeps-if_let _ _ _ (Keeps-pure tt)
          (λ _ _. Keeps-then _ _ (J-perform _ (λ t. tt)) (J-replied channel _)))
        (Keeps-then _ _
          (Keeps-if_let _ _ _ (Keeps-pure tt)
            (λ _ _. Keeps-then _ _ (J-note _ (λ t. tt)) (J-note _ (λ t. tt))))
          (J-replied channel _)))

  -- `Admin` and `Player`.
  type_if-J :
      {A : Type 0} (b : Bool) (bytes : Text)
      → J (if b then perform {A = A} W (typed bytes) else pure tt)
  type_if-J b bytes = Keeps-if b _ _ (J-typed bytes) (Keeps-pure tt)

  module _ where
    pub screen_data-J : (bytes : Text) → J (Screen.data_in W bytes)
    unfolding Screen.data_in
    screen_data-J bytes = Keeps-get_this _ (λ s h. type_if-J s.this.send_to_tty bytes)

    pub screen_pty-J : (window : Window) → J (Screen.pty_request W window)
    unfolding Screen.pty_request
    screen_pty-J window = Keeps-get_this _ (λ s h. J-set_this _)

    pub screen_window-J :
        (channel : ℕ) (window : Window) → J (Screen.window_change_request W channel window)
    unfolding Screen.window_change_request
    screen_window-J channel window = Keeps-get_this _ (λ s h.
        Keeps-then _ _
          (Keeps-if_let _ _ _ (Keeps-pure tt) (λ _ _.
            Keeps-then _ _ (J-set_this _)
              (Keeps-then _ _ (type_if-J s.this.send_to_tty _) (J-replied channel _))))
          (J-replied channel _))

    pub screen_open-J :
        (object action : Uuid) (ip : Option Ip) → J (Screen.channel_open_session W object action ip)
    unfolding Screen.channel_open_session Screen.check_permission
    screen_open-J object action ip =
        Keeps-bind _ _
          (Keeps-get_this _
            (λ s h. Keeps-if_let _ _ _ (Keeps-pure false) (λ u _. J-ask u.id object action ip)))
          (λ granted. Keeps-if granted _ _ (Keeps-pure true) (Keeps-pure false))

    open_shell-J :
        (start line : User → Event) (channel : ℕ)
        → ((u : User) (t : List Event) → Fits uuids (start u) t)
        → ((u : User) (t : List Event) → Fits uuids (line u) t)
        → J (Screen.open_shell W start line channel)
    unfolding Screen.open_shell Fits
    open_shell-J start line channel fs fl = Keeps-get_this _ (λ s h. Keeps-then _ _ (J-set_this _) (
        Keeps-if_let _ _ _ Keeps-panic (λ u _. Keeps-if_let _ _ _ (J-note _ (λ t. tt)) (λ _ _.
          Keeps-if s.this.recv_from_tty _ _
            (Keeps-then _ _ (J-note _ (fs u))
              (Keeps-then _ _ (J-replied channel _) (J-note _ (fl u))))
            (J-note _ (λ t. tt))))))

    pub admin_shell-J : (channel : ℕ) → J (Screen.admin_shell_request W channel)
    unfolding Screen.admin_shell_request Fits
    admin_shell-J channel = open_shell-J _ _ channel (λ u t. tt) (λ u t. tt)

    pub player_shell-J : (channel : ℕ) → J (Screen.player_shell_request W channel)
    unfolding Screen.player_shell_request Fits
    player_shell-J channel = open_shell-J _ _ channel (λ u t. tt) (λ u t. tt)

  -- `ChangePassword`.
  pub password_data-J : (bytes : Text) → J (Password.data_in W bytes)
  unfolding Password.data_in
  password_data-J bytes = J-typed bytes

  pub password_pty-J : (window : Window) → J (Password.pty_request W window)
  unfolding Password.pty_request
  password_pty-J window = Keeps-get_this _ (λ s h. J-set_this _)

  pub password_window-J :
      (channel : ℕ) (window : Window) → J (Password.window_change_request W channel window)
  unfolding Password.window_change_request
  password_window-J channel window =
      Keeps-get_this _ (λ s h. Keeps-then _ _ (J-set_this _) (J-typed _))

  pub password_shell-J : (channel : ℕ) → J (Password.shell_request W channel)
  unfolding Password.shell_request Fits
  password_shell-J channel = Keeps-get_this _ (λ s h. Keeps-then _ _ (J-set_this _) (
      Keeps-if_let _ _ _ Keeps-panic
        (λ u _. Keeps-then _ _ (J-note _ (λ t. tt)) (J-replied channel _))))

  -- `TargetSelector`.
  pub selector_data-J : (bytes : Text) → J (TargetSelector.data_in W bytes)
  unfolding TargetSelector.data_in
  selector_data-J bytes = Keeps-get_this _ (λ s h. type_if-J s.this.send_to_tty bytes)

  pub selector_name-J : (name : Text) → J (TargetSelector.channel_open_with_target_name W name)
  unfolding TargetSelector.channel_open_with_target_name
  selector_name-J name = Keeps-get_this _ (λ s h. Keeps-if_let _ _ _ (Keeps-pure false) (λ u _.
      Keeps-bind _ _ (Keeps-answer _) (λ allowed.
        Keeps-if _ _ _ (Keeps-pure false) (Keeps-then _ _ (J-set_this _) (Keeps-pure true)))))

  pub selector_open-J : J (TargetSelector.channel_open_session W)
  unfolding TargetSelector.channel_open_session
  selector_open-J = Keeps-get_this _ (λ s h. Keeps-if_let _ _ _ (Keeps-pure false) (λ u _.
      Keeps-bind _ _ (Keeps-answer _) (λ allowed.
        Keeps-if _ _ _ (Keeps-pure false) (Keeps-then _ _ (J-set_this _) (Keeps-pure true)))))

  pub selector_window-J :
      (channel : ℕ) (window : Window) → J (TargetSelector.window_change_request W channel window)
  unfolding TargetSelector.window_change_request
  selector_window-J channel window = Keeps-get_this _ (λ s h.
      Keeps-then _ _
        (Keeps-if_let _ _ _ (Keeps-pure tt) (λ _ _.
          Keeps-then _ _ (J-set_this _)
            (Keeps-then _ _ (type_if-J s.this.send_to_tty _) (J-replied channel _))))
        (J-replied channel _))

  pub selector_shell-J :
      (channel : ℕ) (window : Window) → J (TargetSelector.shell_request W channel window)
  unfolding TargetSelector.shell_request Fits
  selector_shell-J channel window = Keeps-get_this _ (λ s h. Keeps-then _ _ (J-set_this _) (
      Keeps-if_let _ _ _ Keeps-panic (λ u _. Keeps-then _ _ (J-set_this _) (
        Keeps-if_let _ _ _ Keeps-panic (λ allowed _. Keeps-if _ _ _ (Keeps-fail_with _) (
          Keeps-then _ _ (J-set_this _)
            (Keeps-then _ _ (J-note _ (λ t. tt)) (J-replied channel _))))))))
