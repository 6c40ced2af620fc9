-- ===== src/App/Method/Calm.antt =====
-- Methods that never panic: one rule for each way to build a method.
use rustion.Prelude.{
  ◌≢◌, refl, Bool, true, false, Option, none, some, Result, ok, err, ◌∷◌, if◌then◌else◌,
}
use rustion.Prelude.Actions.{Outcome, returned, failed, panicked}
use rustion.Casbin.Rules.{Uuid, Error}
use rustion.App.World.{World, Trace, enforced}
use rustion.App.Method.{
  Run, Method, pure, ◌>>=◌, ◌>>◌, get_this, set_this, answer, if_let, ask, alone,
}

pub record Calm {A B : Type 0} (m : Method A B) : Type 0 where
  pub at : (s : Run A) → (m s).0 ≢ panicked

module _ {A : Type 0} where
  pub Calm-pure : {B : Type 0} (b : B) → Calm (pure {A = A} b)
  unfolding pure
  Calm-pure b = record { at = λ s e. cc }

  pub Calm-set_this : (a : A) → Calm (set_this a)
  unfolding set_this
  Calm-set_this a = record { at = λ s e. cc }

  pub Calm-get_this : Calm (get_this {A = A})
  unfolding get_this
  Calm-get_this = record { at = λ s e. cc }

  pub Calm-answer : {B : Type 0} (f : Trace → Result Error B) → Calm (answer {A = A} f)
  unfolding answer
  Calm-answer {B} f = record { at = λ s. go s (f s.trace) }
    where
      go :
          (s : Run A) (r : Result Error B)
          → let q : Outcome Error B × Run A = elim r [
            | ok b ↦ (returned b, s)
            | err e ↦ (failed e, s)
          ] in
            q.0 ≢ panicked
      go s (ok b) e = cc
      go s (err x) e = cc

  pub Calm-ask :
      {Ip : Type 0} (W : World Ip) (sub obj act : Uuid) (ip : Option Ip)
      → Calm (ask {A = A} W sub obj act ip)
  unfolding ask
  Calm-ask W sub obj act ip = record { at = λ s. go s (W.enforce s.trace sub obj act ip) }
    where
      go :
          (s : Run A) (r : Result Error Bool)
          → let q : Outcome Error Bool × Run A = elim r [
            | ok granted ↦
                (returned granted, record s { trace = enforced sub obj act granted ∷ s.trace })
            | err e ↦ (failed e, s)
          ] in
            q.0 ≢ panicked
      go s (ok b) e = cc
      go s (err x) e = cc

  pub Calm-if_let :
      {X B : Type 0} (o : Option X) (d : Method A B) (f : X → Method A B)
      → Calm d
      → ((x : X) → Calm (f x))
      → Calm (if_let o d f)
  unfolding if_let
  Calm-if_let none d f kd kf = kd
  Calm-if_let (some x) d f kd kf = kf x

  pub Calm-if :
      {B : Type 0} (b : Bool) (m n : Method A B) → Calm m → Calm n → Calm (if b then m else n)
  Calm-if true m n km kn = km
  Calm-if false m n km kn = kn

  pub Calm-bind :
      {B C : Type 0} (m : Method A B) (f : B → Method A C)
      → Calm m
      → ((b : B) → Calm (f b))
      → Calm (m >>= f)
  unfolding ◌>>=◌
  Calm-bind {B} {C} m f km kf = record { at = λ s. go (m s) (km.at s) }
    where
      go :
          (p : Outcome Error B × Run A)
          → p.0 ≢ panicked
          → let q : Outcome Error C × Run A = elim p.0 [
            | returned b ↦ f b p.1
            | failed e ↦ (failed e, p.1)
            | panicked ↦ (panicked, p.1)
          ] in
            q.0 ≢ panicked
      go (returned b, t) h = (kf b).at t
      go (failed x, t) h = λ e. cc
      go (panicked, t) h = λ e. h refl

  pub Calm-then : {B C : Type 0} (m : Method A B) (n : Method A C) → Calm m → Calm n → Calm (m >> n)
  unfolding ◌>>◌
  Calm-then m n km kn = Calm-bind m (λ _. n) km (λ _. kn)

  pub Calm-alone : {H B : Type 0} (a : A) (m : Method A B) → Calm m → Calm (alone {H = H} a m)
  unfolding alone
  Calm-alone {H} {B} a m k = record {
    at = λ s. go s (m _) (k.at (record { this = a; trace = s.trace }));
  }
    where
      go :
          (s : Run H) (p : Outcome Error B × Run A)
          → p.0 ≢ panicked
          → let s'' : Run H = record { this = s.this; trace = p.1.trace } in
            let q : Outcome Error (B × A) × Run H = elim p.0 [
              | returned b ↦ (returned (b, p.1.this), s'')
              | failed e ↦ (failed e, s'')
              | panicked ↦ (panicked, s'')
            ] in
            q.0 ≢ panicked
      go s (returned b, t) h = λ e. cc
      go s (failed x, t) h = λ e. cc
      go s (panicked, t) h = λ e. h refl
