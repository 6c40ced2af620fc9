-- ===== src/Server/User.antt =====
-- `User` and its credentials: src/database/models/user.rs. The crates argon2 and ssh-key are
-- parameters.
mod Tests
pub mod Validate
pub mod Credentials
use rustion.Prelude.{
  ℕ, Bool, true, false, Option, none, some, List, [], ◌∷◌, ◌++◌, ◌≡◌, ◌↔◌, refl, All, arith,
  if◌then◌else◌, Bool-cases, Option-cases, ap, inl, inr,
}
use rustion.Prelude.Text.{Text}
use rustion.Casbin.Rules.{Uuid}

pub record User : Type 0 where
  pub id : Uuid
  pub username : Text
  pub email : Option Text
  pub password_hash : Option Text
  pub authorized_keys : Option (List Text)
  pub force_init_pass : Bool
  pub is_active : Bool
  pub updated_by : Uuid
  pub updated_at : ℕ

-- `PasswordHash::new`, `Argon2::verify_password`, `PublicKey::from_str`, and the equality of key data.
pub record Crypto : Type 1 where
  pub Hash : Type 0
  pub PublicKey : Type 0
  pub parse_hash : Text → Option Hash
  pub verify : Text → Hash → Bool
  pub parse_key : Text → Option PublicKey
  pub same_key_data : PublicKey → PublicKey → Bool

module _ (K : Crypto) where
  unfoldable pub verify_password : User → Text → Bool
  verify_password u password = elim u.password_hash [
    | none ↦ false
    | some h ↦ elim (K.parse_hash h) [ none ↦ false | some hash ↦ K.verify password hash ]
  ]

  -- The loop over the stored lines, which ends at the first that does not parse.
  verify_keys : List Text → K.PublicKey → Bool
  verify_keys [] pub_key = false
  verify_keys (line ∷ lines) pub_key =
      let later = verify_keys lines pub_key in
      elim (K.parse_key line) [
        | none ↦ false
        | some k ↦ if K.same_key_data k pub_key then true else later
      ]

  pub verify_authorized_keys : User → K.PublicKey → Bool
  unfolding verify_keys
  verify_authorized_keys u pub_key = elim u.authorized_keys [
    | none ↦ false
    | some lines ↦ verify_keys lines pub_key
  ]

  -- The line holds a key that differs from the one presented.
  abbrev pub IsOther : K.PublicKey → Text → Type 0
  IsOther pub_key line =
      (k : K.PublicKey) × (K.parse_key line ≡ some k) × (K.same_key_data k pub_key ≡ false)

  -- The stored line that lets the key in, behind lines that all hold other keys.
  pub record Authorizes (lines : List Text) (pub_key : K.PublicKey) : Type 0 where
    pub before : List Text
    pub line : Text
    pub after : List Text
    pub key : K.PublicKey
    pub split_at : lines ≡ before ++ (line ∷ after)
    pub others : All (IsOther pub_key) before
    pub parsed : K.parse_key line ≡ some key
    pub same : K.same_key_data key pub_key ≡ true

  verify_keys_sound :
      (lines : List Text) (pub_key : K.PublicKey)
      → verify_keys lines pub_key ≡ true
      → Authorizes lines pub_key
  unfolding verify_keys
  verify_keys_sound [] pub_key h = cc
  verify_keys_sound (line ∷ lines) pub_key h = elim (Option-cases (K.parse_key line)) [
    | inl e ↦ absurd (ground arith)
    | inr (k, e) ↦ elim (Bool-cases (K.same_key_data k pub_key)) [
      | inl same ↦ record {
        before = [];
        line = line;
        after = lines;
        key = k;
        split_at = refl;
        others = tt;
        parsed = e;
        same = same;
      }
      | inr other ↦
          let a = verify_keys_sound lines pub_key (ground arith) in
          record {
            before = line ∷ a.before;
            line = a.line;
            after = a.after;
            key = a.key;
            split_at = ap (λ r. line ∷ r) a.split_at;
            others = ((k, e, other), a.others);
            parsed = a.parsed;
            same = a.same;
          }
    ]
  ]

  keys_before :
      (before rest : List Text) (pub_key : K.PublicKey)
      → All (IsOther pub_key) before
      → verify_keys (before ++ rest) pub_key ≡ verify_keys rest pub_key
  unfolding verify_keys
  keys_before [] rest pub_key h = refl
  keys_before (line ∷ before) rest pub_key ((k, e, other), h) =
      rw (e, verify_keys) (rw other (keys_before before rest pub_key h))

  -- A key is accepted exactly when the user has stored keys and one of the lines holds it behind
  -- lines that all parse and hold other keys: a line that does not parse shuts out the keys
  -- behind it.
  pub verify_authorized_keys_iff :
      (u : User) (pub_key : K.PublicKey)
      → (verify_authorized_keys u pub_key ≡ true)
        ↔ ((lines : List Text) × (u.authorized_keys ≡ some lines) × Authorizes lines pub_key)
  unfolding verify_authorized_keys
  verify_authorized_keys_iff u pub_key = (sound, complete)
    where
      sound :
          verify_authorized_keys u pub_key ≡ true
          → (lines : List Text) × (u.authorized_keys ≡ some lines) × Authorizes lines pub_key
      sound h = elim (Option-cases u.authorized_keys) [
        | inl e ↦ absurd (ground arith)
        | inr (lines, e) ↦ (lines, e, verify_keys_sound lines pub_key (ground arith))
      ]

      complete :
          (lines : List Text) × (u.authorized_keys ≡ some lines) × Authorizes lines pub_key
          → verify_authorized_keys u pub_key ≡ true
      complete (lines, e, a) =
          rw (e, verify_authorized_keys)
            (rw a.split_at (
              rw (keys_before a.before (a.line ∷ a.after) pub_key a.others)
                (rw (a.parsed, verify_keys) (rw a.same refl))))
