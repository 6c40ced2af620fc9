-- ===== src/Server/User/Validate.antt =====
-- `User::validate` of src/database/models/user.rs, and the methods that set and show credentials. The
-- regular expression for an address is a parameter, as the crate regex is.
use rustion.Prelude.{
  ℕ, ◌+◌, ◌≤◌, ◌≡◌, ◌↔◌, refl, inl, inr, Bool, true, false, not, Option, none, some, Result, ok,
  err, List, [], ◌∷◌, All, ltb, arith, if◌then◌else◌, Option-cases,
}
use mathlib.Core.Path.{subst}
use rustion.Prelude.Text.{Text, is_empty}
use rustion.Prelude.Trim.{trim, byte_len}
use rustion.Server.User.{User, Crypto}

pub data ValidateError : Type 0 where
  username_empty username_too_long email_invalid : ValidateError
  authorized_key_invalid : List ℕ → ValidateError

abbrev pub max_username_len : ℕ
max_username_len = 40

module _ (K : Crypto) (is_email : Text → Bool) where
  -- The numbers, from `i` on, of the lines that do not parse.
  pub invalid_keys : ℕ → List Text → List ℕ
  invalid_keys i [] = []
  invalid_keys i (k ∷ ks) =
      let rest = invalid_keys (i + 1) ks in elim (K.parse_key k) [ none ↦ i ∷ rest | some _ ↦ rest ]

  pub email_fails : Option Text → Bool
  email_fails none = false
  email_fails (some e) = not (is_email e)

  abbrev keys_result : List ℕ → Result ValidateError (Unit {0})
  keys_result [] = ok tt
  keys_result (i ∷ is) = err (authorized_key_invalid (i ∷ is))

  pub check_keys : Option (List Text) → Result ValidateError (Unit {0})
  unfolding invalid_keys
  check_keys none = ok tt
  check_keys (some keys) = keys_result (invalid_keys 0 keys)

  pub validate : User → Result ValidateError (Unit {0})
  unfolding email_fails check_keys
  validate u =
      let username = trim u.username in
      if is_empty username
      then err username_empty
      else if ltb max_username_len (byte_len username)
      then err username_too_long
      else if email_fails u.email
      then err email_invalid
      else check_keys u.authorized_keys

  -- `u` has a name of one to forty bytes when trimmed, an address only if it is one, and only keys
  -- that parse.
  pub record IsValid (u : User) : Type 0 where
    pub named : is_empty (trim u.username) ≡ false
    pub short : byte_len (trim u.username) ≤ 40
    pub email : (e : Text) → u.email ≡ some e → is_email e ≡ true
    pub keys :
        (ks : List Text)
        → u.authorized_keys ≡ some ks
        → All (λ k. (p : K.PublicKey) × (K.parse_key k ≡ some p)) ks

  invalid_keys-All :
      (i : ℕ) (ks : List Text)
      → (invalid_keys i ks ≡ []) ↔ All (λ k. (p : K.PublicKey) × (K.parse_key k ≡ some p)) ks
  unfolding invalid_keys
  invalid_keys-All i [] = (λ e. tt, λ a. refl)
  invalid_keys-All i (k ∷ ks) = elim (Option-cases (K.parse_key k)) [
    | inl e ↦ (λ h. absurd (refused e h), λ a. absurd (unparsed e a.0))
    | inr (p, e) ↦
        let (to, from) = invalid_keys-All (i + 1) ks in
        (λ h. ((p, e), to (cc (e, h))), λ a. let rest = from a.1 in cc (e, rest))
  ]
    where
      refused : K.parse_key k ≡ none → invalid_keys i (k ∷ ks) ≡ [] → ⊥
      refused e h = cc (e, h)

      unparsed : K.parse_key k ≡ none → (p : K.PublicKey) × (K.parse_key k ≡ some p) → ⊥
      unparsed e (p, f) = cc (e, f)

  check_keys_iff :
      (o : Option (List Text))
      → (check_keys o ≡ ok tt) ↔ (
          (ks : List Text)
          → o ≡ some ks
          → All (λ k. (p : K.PublicKey) × (K.parse_key k ≡ some p)) ks)
  unfolding check_keys
  check_keys_iff none = (λ h ks e. absurd (cc), λ f. refl)
  check_keys_iff (some keys) = (sound, complete)
    where
      Parse : Text → Type 0
      Parse k = (p : K.PublicKey) × (K.parse_key k ≡ some p)

      none_left : (xs : List ℕ) → keys_result xs ≡ ok tt → xs ≡ []
      none_left [] g = refl
      none_left (i ∷ is) g = cc

      sound : check_keys (some keys) ≡ ok tt → (ks : List Text) → some keys ≡ some ks → All Parse ks
      sound h ks e =
          let same : keys ≡ ks = cc e in
          subst (All Parse) same ((invalid_keys-All 0 keys).0 (none_left (invalid_keys 0 keys) h))

      complete :
          ((ks : List Text) → some keys ≡ some ks → All Parse ks) → check_keys (some keys) ≡ ok tt
      complete f = let clean = (invalid_keys-All 0 keys).1 (f keys refl) in cc clean

  email_fails_iff :
      (o : Option Text) → (email_fails o ≡ false) ↔ ((e : Text) → o ≡ some e → is_email e ≡ true)
  unfolding email_fails
  email_fails_iff none = (λ h e f. absurd (cc), λ g. refl)
  email_fails_iff (some a) = (
    λ h e f. let same : a ≡ e = cc f in subst (λ x. is_email x ≡ true) same (ground arith),
    λ g. let good = g a refl in rw good refl,
  )

  -- A user is valid exactly when the trimmed name has one to forty bytes, the address, if there is
  -- one, is one, and all keys parse.
  pub validate_iff : (u : User) → (validate u ≡ ok tt) ↔ IsValid u
  unfolding validate
  validate_iff u = (sound, complete)
    where
      sound : validate u ≡ ok tt → IsValid u
      sound h = record {
        named = ground arith;
        short = ground arith;
        email = (email_fails_iff u.email).0 (ground arith);
        keys = (check_keys_iff u.authorized_keys).0 (ground arith);
      }

      complete : IsValid u → validate u ≡ ok tt
      complete v =
          let a = v.named in
          let b = v.short in
          let c = (email_fails_iff u.email).1 v.email in
          let d = (check_keys_iff u.authorized_keys).1 v.keys in ground arith
