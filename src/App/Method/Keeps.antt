-- ===== src/App/Method/Keeps.antt =====
-- Invariants of methods: one rule for each way to build a method.
use rustion.Prelude.{
  ◌≡◌, refl, Bool, true, false, Option, none, some, Result, ok, err, ◌∷◌, if◌then◌else◌,
}
use rustion.Prelude.Actions.{Outcome, returned, failed, panicked}
use rustion.Casbin.Rules.{Uuid, Error}
use rustion.App.World.{World, Trace, Event, enforced}
use rustion.App.Method.{
  Run, Method, pure, fail_with, panic, ◌>>=◌, ◌>>◌, get_this, set_this, answer, if_let, note,
  perform, ask, match_result, within, alone,
}

-- `m` keeps `P`, however it ends.
pub record Keeps {A B : Type 0} (P : Run A → Type 0) (m : Method A B) : Type 0 where
  pub at : (s : Run A) → P s → P (m s).1

module _ {A : Type 0} {P : Run A → Type 0} where
  pub Keeps-pure : {B : Type 0} (b : B) → Keeps P (pure b)
  unfolding pure
  Keeps-pure b = record { at = λ s h. h }

  pub Keeps-fail_with : {B : Type 0} (e : Error) → Keeps P (fail_with {B = B} e)
  unfolding fail_with
  Keeps-fail_with e = record { at = λ s h. h }

  pub Keeps-panic : {B : Type 0} → Keeps P (panic {B = B})
  unfolding panic
  Keeps-panic = record { at = λ s h. h }

  pub Keeps-answer : {B : Type 0} (f : Trace → Result Error B) → Keeps P (answer f)
  unfolding answer
  Keeps-answer {B} f = record { at = λ s h. go s (f s.trace) h }
    where
      go :
          (s : Run A) (r : Result Error B)
          → P s
          → let q : Outcome Error B × Run A = elim r [
            | ok b ↦ (returned b, s)
            | err e ↦ (failed e, s)
          ] in
            P q.1
      go s (ok b) h = h
      go s (err e) h = h

  pub Keeps-if_let :
      {X B : Type 0} (o : Option X) (d : Method A B) (f : X → Method A B)
      → Keeps P d
      → ((x : X) → o ≡ some x → Keeps P (f x))
      → Keeps P (if_let o d f)
  unfolding if_let
  Keeps-if_let none d f kd kf = kd
  Keeps-if_let (some x) d f kd kf = kf x refl

  pub Keeps-if :
      {B : Type 0} (b : Bool) (m n : Method A B)
      → Keeps P m
      → Keeps P n
      → Keeps P (if b then m else n)
  Keeps-if true m n km kn = km
  Keeps-if false m n km kn = kn

  pub Keeps-match_result :
      {B C : Type 0} (m : Method A B) (f : B → Method A C) (g : Error → Method A C)
      → Keeps P m
      → ((b : B) → Keeps P (f b))
      → ((e : Error) → Keeps P (g e))
      → Keeps P (match_result m f g)
  unfolding match_result
  Keeps-match_result {B} {C} m f g km kf kg = record { at = λ s h. go (m s) (km.at s h) }
    where
      go :
          (p : Outcome Error B × Run A)
          → P p.1
          → let q : Outcome Error C × Run A = elim p.0 [
            | returned b ↦ f b p.1
            | failed e ↦ g e p.1
            | panicked ↦ (panicked, p.1)
          ] in
            P q.1
      go (returned b, t) h = (kf b).at t h
      go (failed e, t) h = (kg e).at t h
      go (panicked, t) h = h

  pub Keeps-bind :
      {B C : Type 0} (m : Method A B) (f : B → Method A C)
      → Keeps P m
      → ((b : B) → Keeps P (f b))
      → Keeps P (m >>= f)
  unfolding ◌>>=◌
  Keeps-bind {B} {C} m f km kf = record { at = λ s h. go (m s) (km.at s h) }
    where
      go :
          (p : Outcome Error B × Run A)
          → P p.1
          → let q : Outcome Error C × Run A = elim p.0 [
            | returned b ↦ f b p.1
            | failed e ↦ (failed e, p.1)
            | panicked ↦ (panicked, p.1)
          ] in
            P q.1
      go (returned b, t) h = (kf b).at t h
      go (failed e, t) h = h
      go (panicked, t) h = h

  pub Keeps-then :
      {B C : Type 0} (m : Method A B) (n : Method A C) → Keeps P m → Keeps P n → Keeps P (m >> n)
  unfolding ◌>>◌
  Keeps-then m n km kn = Keeps-bind m (λ _. n) km (λ _. kn)

  -- What is read of `self` is known of it.
  pub Keeps-get_this :
      {C : Type 0} (f : A → Method A C)
      → ((s : Run A) → P s → Keeps P (f s.this))
      → Keeps P (get_this >>= f)
  unfolding ◌>>=◌ get_this
  Keeps-get_this f kf = record { at = λ s h. (kf s h).at s h }

  pub Keeps-set_this :
      (a : A) → ((s : Run A) → P s → P (record s { this = a })) → Keeps P (set_this a)
  unfolding set_this
  Keeps-set_this a h = record { at = h }

  pub Keeps-note :
      (e : Event) → ((s : Run A) → P s → P (record s { trace = e ∷ s.trace })) → Keeps P (note e)
  unfolding note
  Keeps-note e h = record { at = h }

  module _ {Ip : Type 0} (W : World Ip) where
    pub Keeps-perform :
        (e : Event)
        → ((s : Run A) → P s → P (record s { trace = e ∷ s.trace }))
        → Keeps P (perform W e)
    unfolding perform
    Keeps-perform e after = record { at = λ s h. go s (W.refuses s.trace e) h }
      where
        go :
            (s : Run A) (r : Option Error)
            → P s
            → let q : Outcome Error (Unit {0}) × Run A = elim r [
              | none ↦ (returned tt, record s { trace = e ∷ s.trace })
              | some x ↦ (failed x, s)
            ] in
              P q.1
        go s none h = after s h
        go s (some x) h = h

    pub Keeps-ask :
        (sub obj act : Uuid) (ip : Option Ip)
        → ((s : Run A) (granted : Bool)
            → P s
            → P (record s { trace = enforced sub obj act granted ∷ s.trace }))
        → Keeps P (ask W sub obj act ip)
    unfolding ask
    Keeps-ask sub obj act ip after = record {
      at = λ s h. go s (W.enforce s.trace sub obj act ip) h;
    }
      where
        go :
            (s : Run A) (r : Result Error Bool)
            → P s
            → let q : Outcome Error Bool × Run A = elim r [
              | ok granted ↦
                  (returned granted, record s { trace = enforced sub obj act granted ∷ s.trace })
              | err e ↦ (failed e, s)
            ] in
              P q.1
        go s (ok granted) h = after s granted h
        go s (err e) h = h

-- A part keeps what the whole keeps, when that is said of the trace alone.
module _ {A H : Type 0} (T : Trace → Type 0) where
  pub Keeps-within :
      {B : Type 0} (put : A → H → H) (a : A) (m : Method A B)
      → Keeps (λ s. T s.trace) m
      → Keeps (λ s. T s.trace) (within put a m)
  unfolding within
  Keeps-within put a m k = record { at = λ s h. k.at (record { this = a; trace = s.trace }) h }

  pub Keeps-alone :
      {B : Type 0} (a : A) (m : Method A B)
      → Keeps (λ s. T s.trace) m
      → Keeps {A = H} (λ s. T s.trace) (alone a m)
  unfolding alone
  Keeps-alone {B} a m k = record {
    at = λ s h. go s (m (record { this = a; trace = s.trace })) (k.at _ h);
  }
    where
      go :
          (s : Run H) (p : Outcome Error B × Run A)
          → T p.1.trace
          → let s'' : Run H = record { this = s.this; trace = p.1.trace } in
            let q : Outcome Error (B × A) × Run H = elim p.0 [
              | returned b ↦ (returned (b, p.1.this), s'')
              | failed e ↦ (failed e, s'')
              | panicked ↦ (panicked, s'')
            ] in
            T q.1.trace
      go s (returned b, t) h = h
      go s (failed e, t) h = h
      go s (panicked, t) h = h
