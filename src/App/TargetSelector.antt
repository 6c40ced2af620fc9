-- ===== src/App/TargetSelector.antt =====
-- `TargetSelector` of src/server/app/target_selector.rs, up to the task that its shell starts.
use rustion.Prelude.{ℕ, Bool, true, false, Option, none, some, List, [], ◌∷◌, keep, if◌then◌else◌}
use rustion.Prelude.Text.{Text, text_eq}
use rustion.Casbin.Rules.{app, no_target_available}
use rustion.Server.User.{User}
use rustion.App.World.{
  World, TargetSecretName, Window, success, failure, replied, typed, started, select_target,
}
use rustion.App.Method.{
  Method, pure, panic, fail_with, get_this, set_this, if_let, answer, note, perform, ◌>>=◌, ◌>>◌,
}
use rustion.App.Screen.{window_change}

pub record TargetSelector : Type 0 where
  pub user : Option User
  pub allowed_targets : Option (List TargetSecretName)
  pub tty : Option Window
  pub send_to_tty : Bool

unfoldable pub new_target_selector : Option User → TargetSelector
new_target_selector user = record {
  user = user;
  allowed_targets = none;
  tty = none;
  send_to_tty = false;
}

abbrev none_left : List TargetSecretName → Bool
none_left [] = true
none_left (_ ∷ _) = false

module _ {Ip : Type 0} (W : World Ip) where
  unfoldable pub data_in : Text → Method TargetSelector (Unit {0})
  data_in bytes = do s ← get_this; if s.send_to_tty then perform W (typed bytes) else pure tt

  unfoldable pub channel_open_with_target_name : Text → Method TargetSelector Bool
  channel_open_with_target_name target_name = do
    s ← get_this
    if_let s.user (pure false) (λ u. do
      allowed_targets ← answer (λ t. W.list_targets_for_user t u.id)
      let named = keep (λ (t : TargetSecretName). text_eq t.target_name target_name) allowed_targets
      if none_left named
          then pure false
          else (do set_this (record s { allowed_targets = some named }); pure true))

  unfoldable pub channel_open_session : Method TargetSelector Bool
  channel_open_session = do
    s ← get_this
    if_let s.user (pure false) (λ u. do
      allowed_targets ← answer (λ t. W.list_targets_for_user t u.id)
      if none_left allowed_targets
          then pure false
          else (do set_this (record s { allowed_targets = some allowed_targets }); pure true))

  unfoldable pub window_change_request : ℕ → Window → Method TargetSelector (Unit {0})
  window_change_request channel window = do
    s ← get_this
    if_let s.tty (pure tt) (λ _. do
      set_this (record s { tty = some (window_change window).0 })
      if s.send_to_tty then perform W (typed (window_change window).1) else pure tt
      perform W (replied channel success))
    perform W (replied channel failure)

  unfoldable pub shell_request : ℕ → Window → Method TargetSelector (Unit {0})
  shell_request channel window = do
    s ← get_this
    set_this (record s { user = none })
    if_let s.user panic (λ u. do
      set_this (record s { user = none; allowed_targets = none })
      if_let s.allowed_targets panic (λ allowed_targets.
          if none_left allowed_targets then fail_with (app no_target_available) else (do
            set_this (record s {
              user = none;
              allowed_targets = none;
              tty = some (window_change window).0;
              send_to_tty = true;
            })
            note (started (select_target u allowed_targets channel))
            perform W (replied channel success))))
