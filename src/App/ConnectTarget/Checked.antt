-- ===== src/App/ConnectTarget/Checked.antt =====
-- The check of a permission before a request.
use rustion.Prelude.{
  if◌then◌else◌, ap, ◌≡◌, refl, Bool, true, false, Option, none, some, Result, ok, err, ◌∷◌, Memᴰ,
}
use rustion.Prelude.Actions.{Outcome, returned, failed, panicked}
use rustion.Casbin.Rules.{Uuid, Error}
use rustion.Server.User.{User}
use rustion.App.World.{World, InternalUuids, Target, TargetSecretName, enforced}
use rustion.App.Method.{Run, Method, pure, if_let, ask, get_this, ◌>>=◌}
use rustion.App.Method.Keeps.{Keeps}
use rustion.App.Permission.{Granted, Fits, Justified}
use rustion.App.ConnectTarget.{ConnectTarget, check_permission}
use rustion.App.ConnectTarget.Permitted.{who, what, Ready}

module _ (uuids : InternalUuids) {Ip : Type 0} (W : World Ip) (action : Uuid) (ip : Option Ip) where
  -- What a check leaves behind of the state `c`.
  pub record Checked (c : ConnectTarget) (p : Outcome Error Bool × Run ConnectTarget) : Type 0 where
    pub same : p.1.this ≡ c
    pub justified : Justified uuids p.1.trace
    pub granted : p.0 ≡ returned true → Granted (who c) (what c) action p.1.trace

  pub check_permission-Checked :
      (s : Run ConnectTarget)
      → Justified uuids s.trace
      → Checked s.this (check_permission W action ip s)
  unfolding check_permission ◌>>=◌ get_this if_let pure ask Granted Fits Justified
  check_permission-Checked s h = go s.this.user s.this.target_sec_name s.this.target refl refl
    where
      c : ConnectTarget
      c = s.this

      refused : Checked c (returned false, s)
      refused = record { same = refl; justified = h; granted = λ e. cc }

      asked :
          (u : User) (tsn : TargetSecretName) (r : Result Error Bool)
          → c.user ≡ some u
          → c.target_sec_name ≡ some tsn
          → Checked c (elim r [
            | ok granted ↦ (
              returned granted,
              record s { trace = enforced u.id tsn.id action granted ∷ s.trace },
            )
            | err e ↦ (failed e, s)
          ])
      asked u tsn (ok true) p q = record {
        same = refl;
        justified = (tt, h);
        granted = λ _. rw p (rw q (Memᴰ.head refl));
      }
      asked u tsn (ok false) p q = record { same = refl; justified = (tt, h); granted = λ e. cc }
      asked u tsn (err e) p q = record { same = refl; justified = h; granted = λ e. cc }

      go :
          (user : Option User) (sec : Option TargetSecretName) (target : Option Target)
          → c.user ≡ user
          → c.target_sec_name ≡ sec
          → Checked c (
              if_let user
                (pure false)
                (λ u.
                  if_let sec
                    (pure false)
                    (λ tsn. if_let target (pure false) (λ t. ask W u.id tsn.id action ip)))
                s)
      go none sec target p q = refused
      go (some u) none target p q = refused
      go (some u) (some tsn) none p q = refused
      go (some u) (some tsn) (some t) p q =
          asked u tsn (W.enforce s.trace u.id tsn.id action ip) p q

  -- A method that runs only after the check returned true, and another that runs else.
  pub if_checked-Justified :
      {B : Type 0} (m n : Method ConnectTarget B)
      → ((w o : Option Uuid) → Keeps (Ready uuids w o action) m)
      → Keeps (λ s. Justified uuids s.trace) n
      → Keeps
          (λ s. Justified uuids s.trace)
          (check_permission W action ip >>= λ granted. if granted then m else n)
  unfolding ◌>>=◌
  if_checked-Justified {B} m n km kn = record {
    at = λ s h. go s.this (check_permission W action ip s) (check_permission-Checked s h);
  }
    where
      go :
          (c : ConnectTarget) (p : Outcome Error Bool × Run ConnectTarget)
          → Checked c p
          → let q : Outcome Error B × Run ConnectTarget = elim p.0 [
            | returned b ↦ (if b then m else n) p.1
            | failed e ↦ (failed e, p.1)
            | panicked ↦ (panicked, p.1)
          ] in
            Justified uuids q.1.trace
      go c (returned true, t) k =
          ((km (who c) (what c)).at t (record {
            for_user = ap who k.same;
            for_secret = ap what k.same;
            granted = k.granted refl;
            justified = k.justified;
          })).justified
      go c (returned false, t) k = kn.at t k.justified
      go c (failed e, t) k = k.justified
      go c (panicked, t) k = k.justified
