-- ===== src/Server/User/Tests.antt =====
-- The keys of a user.
use rustion.Prelude.{ok, ◌≡◌, ◌↔◌, refl, true, false, some, List, [], ◌∷◌}
use rustion.Prelude.Text.{Text, codes}
use rustion.Server.User.Validate.{validate, IsValid, validate_iff}
use rustion.Server.User.Credentials.{
  take_password_hash, set_password_hash, print_password, print_authorized_keys,
  with_authorized_keys,
}
use rustion.Server.Sample.{sample_crypto, alice}
use rustion.Server.User.{
  Authorizes, verify_password, verify_authorized_keys, verify_authorized_keys_iff,
}

verify_authorized_keys_iff_example :
    (verify_authorized_keys sample_crypto alice (codes "key b") ≡ true) ↔ (
      (lines : List Text) × (alice.authorized_keys ≡ some lines)
      × Authorizes sample_crypto lines (codes "key b"))
verify_authorized_keys_iff_example = verify_authorized_keys_iff sample_crypto alice (codes "key b")

second_key : verify_authorized_keys sample_crypto alice (codes "key b") ≡ true
unfolding verify_authorized_keys
second_key = refl

-- A line that does not parse shuts out the key behind it.
behind_a_fault :
    verify_authorized_keys sample_crypto
      (record alice { authorized_keys = some ([] ∷ codes "key b" ∷ []) })
      (codes "key b")
    ≡ false
unfolding verify_authorized_keys
behind_a_fault = refl

validate_iff_example :
    (validate sample_crypto (λ e. false) alice ≡ ok tt) ↔ IsValid sample_crypto (λ e. false) alice
validate_iff_example = validate_iff sample_crypto (λ e. false) alice

-- The hash that was set decides, and nothing does once it is taken.
set_password_hash_test :
    verify_password sample_crypto (set_password_hash (codes "new") alice) (codes "new") ≡ true
unfolding verify_password set_password_hash
set_password_hash_test = refl

take_password_hash_test :
    verify_password sample_crypto (take_password_hash alice).1 (codes "secret") ≡ false
unfolding verify_password take_password_hash
take_password_hash_test = refl

print_password_test : print_password (set_password_hash (codes "new") alice) ≡ codes "********"
unfolding print_password set_password_hash
print_password_test = refl

print_authorized_keys_test :
    print_authorized_keys (with_authorized_keys [] alice) ≡ codes "********"
unfolding print_authorized_keys with_authorized_keys
print_authorized_keys_test = refl
