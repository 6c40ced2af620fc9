-- ===== src/App/Method.antt =====
-- Methods of the applications: a state and the trace passed on, and a result, an error by `?`, or a
-- panic. The operations are shut, so that proofs go by their rules.
pub mod Keeps
pub mod Calm
use rustion.Prelude.{
  Bool, true, false, Option, none, some, Result, ok, err, List, [], ◌∷◌, ℕ, ◌≡◌, ap,
}
use rustion.Prelude.Actions.{Outcome, returned, failed, panicked}
use rustion.Casbin.Rules.{Uuid, Error, RusshError}
use rustion.App.World.{World, Trace, Event, enforced}

-- The state of a component, and the trace.
pub record Run (A : Type 0) : Type 0 where
  pub this : A
  pub trace : Trace

abbrev pub Method : Type 0 → Type 0 → Type 0
Method A B = Run A → Outcome Error B × Run A

module _ {A : Type 0} where
  unfoldable pub pure : {B : Type 0} → B → Method A B
  pure b s = (returned b, s)

  unfoldable pub fail_with : {B : Type 0} → Error → Method A B
  fail_with e s = (failed e, s)

  unfoldable pub panic : {B : Type 0} → Method A B
  panic s = (panicked, s)

  infixl 5 ◌>>=◌ ◌>>◌
  unfoldable pub ◌>>=◌ : {B C : Type 0} → Method A B → (B → Method A C) → Method A C
  ◌>>=◌ m next s =
      let (r, s') = m s in
      elim r [ returned b ↦ next b s' | failed e ↦ (failed e, s') | panicked ↦ (panicked, s') ]

  unfoldable pub ◌>>◌ : {B C : Type 0} → Method A B → Method A C → Method A C
  unfolding ◌>>=◌
  ◌>>◌ m next = m >>= λ _. next

  -- What follows a method that returned.
  pub >>=-returned :
      {B C : Type 0} (m : Method A B) (next : B → Method A C) (s t : Run A) (b : B)
      → m s ≡ (returned b, t)
      → (m >>= next) s ≡ next b t
  unfolding ◌>>=◌
  >>=-returned {C} m next s t b e =
      ap
        (λ q. elim q.0 as (λ _. Outcome Error C × Run A) [
          | returned x ↦ next x q.1
          | failed x ↦ (failed x, q.1)
          | panicked ↦ (panicked, q.1)
        ])
        e

  -- Reading and writing `self`.
  unfoldable pub get_this : Method A A
  get_this s = (returned s.this, s)

  unfoldable pub set_this : A → Method A (Unit {0})
  set_this a s = (returned tt, record s { this = a })

  -- `f?` for an answer that depends on what has happened.
  unfoldable pub answer : {B : Type 0} → (Trace → Result Error B) → Method A B
  answer f s = elim (f s.trace) [ ok b ↦ (returned b, s) | err e ↦ (failed e, s) ]

  -- `if let Some(x) = o { f(x) } else { d }`.
  unfoldable pub if_let : {X B : Type 0} → Option X → Method A B → (X → Method A B) → Method A B
  if_let none d f = d
  if_let (some x) d f = f x

  unfoldable pub note : Event → Method A (Unit {0})
  note e s = (returned tt, record s { trace = e ∷ s.trace })

  module _ {Ip : Type 0} (W : World Ip) where
    -- A call whose error is passed on by `?`.
    unfoldable pub perform : Event → Method A (Unit {0})
    perform e s = elim (W.refuses s.trace e) [
      | none ↦ (returned tt, record s { trace = e ∷ s.trace })
      | some x ↦ (failed x, s)
    ]

    unfoldable pub ask : Uuid → Uuid → Uuid → Option Ip → Method A Bool
    ask sub obj act ip s = elim (W.enforce s.trace sub obj act ip) [
      | ok granted ↦ (returned granted, record s { trace = enforced sub obj act granted ∷ s.trace })
      | err e ↦ (failed e, s)
    ]

  -- A match on the result of `m`: `f` on a value, `g` on an error.
  unfoldable pub match_result :
      {B C : Type 0} → Method A B → (B → Method A C) → (Error → Method A C) → Method A C
  match_result m f g s =
      let (r, s') = m s in
      elim r [ returned b ↦ f b s' | failed e ↦ g e s' | panicked ↦ (panicked, s') ]

-- A method of a part of `self`, which `put` writes back, also after an error; and one of a value of
-- its own, which comes with the result.
module _ {A H : Type 0} where
  unfoldable pub within : {B : Type 0} → (A → H → H) → A → Method A B → Method H B
  within put a m s =
      let (r, s') = m (record { this = a; trace = s.trace }) in
      (r, record { this = put s'.this s.this; trace = s'.trace })

  unfoldable pub alone : {B : Type 0} → A → Method A B → Method H (B × A)
  alone a m s =
      let (r, s') = m (record { this = a; trace = s.trace }) in
      let s'' : Run H = record { this = s.this; trace = s'.trace } in
      elim r [
        | returned b ↦ (returned (b, s'.this), s'')
        | failed e ↦ (failed e, s'')
        | panicked ↦ (panicked, s'')
      ]
