-- ===== src/Casbin/Names.antt =====
-- `CasbinName` and `PermissionPolicy` of src/database/models/casbin_rule.rs, and the names of the
-- group types in src/server/casbin.rs.
mod Tests
use rustion.Prelude.{
  ℕ, ◌≡◌, ◌↔◌, ◌⊎◌, refl, inl, inr, Bool, true, false, not, ◌==◌, ◌&&◌, ◌||◌, Option, none, some,
  Result, ok, err, List, [], ◌∷◌, arith, if◌then◌else◌, Bool-cases,
}
use rustion.Prelude.Text.{Text, codes, is_empty, text_eq, text_eq_sound, text_eq_self}
use rustion.Prelude.Trim.{trim}
use rustion.Casbin.Rules.{Uuid, CasbinRule, GroupType, subject, object, action}

pub data NameError : Type 0 where
  ptype_empty ptype_invalid name_empty name_starts_with_underscore : NameError
  internal_type_modification : NameError

pub record CasbinName : Type 0 where
  pub id : Uuid
  pub ptype : Text
  pub name : Text
  pub is_active : Bool
  pub updated_by : Uuid
  pub updated_at : ℕ

-- `From<GroupType> for &str`, and the same text as `Display` gives.
pub group_type_name : GroupType → Text
group_type_name subject = codes "g1"
group_type_name object = codes "g2"
group_type_name action = codes "g3"

unfoldable pub is_internal : CasbinName → Bool
is_internal n =
    text_eq n.ptype (codes "__internal_action_type")
    || text_eq n.ptype (codes "__internal_object_type")

abbrev pub starts_with_underscore : Text → Bool
starts_with_underscore [] = false
starts_with_underscore (c ∷ s) = c == b'_'

pub validate_name : CasbinName → Result NameError (Unit {0})
validate_name n =
    if is_empty (trim n.ptype)
    then err ptype_empty
    else if not (
        text_eq n.ptype (codes "g1")
        || text_eq n.ptype (codes "g2")
        || text_eq n.ptype (codes "g3"))
    then err ptype_invalid
    else if is_empty (trim n.name)
    then err name_empty
    else if starts_with_underscore n.name
    then err name_starts_with_underscore
    else ok tt

-- A name is valid exactly when its type is the text of a group type, and its name is not blank and
-- does not start with an underscore; a valid name is never of an internal type.
pub validate_name_iff :
    (n : CasbinName)
    → ((validate_name n ≡ ok tt) ↔ (
        ((t : GroupType) × (n.ptype ≡ group_type_name t))
        × (is_empty (trim n.name) ≡ false)
        × (starts_with_underscore n.name ≡ false)))
      × (validate_name n ≡ ok tt → is_internal n ≡ false)
unfolding validate_name is_internal group_type_name
validate_name_iff n = ((sound, complete), outside)
  where
    typed :
        (text_eq n.ptype (codes "g1")
            || text_eq n.ptype (codes "g2")
            || text_eq n.ptype (codes "g3"))
          ≡ true
        → (t : GroupType) × (n.ptype ≡ group_type_name t)
    typed h = elim (Bool-cases (text_eq n.ptype (codes "g1"))) [
      | inl e ↦ (subject, text_eq_sound n.ptype (codes "g1") e)
      | inr e ↦ elim (Bool-cases (text_eq n.ptype (codes "g2"))) [
        | inl f ↦ (object, text_eq_sound n.ptype (codes "g2") f)
        | inr f ↦ (action, text_eq_sound n.ptype (codes "g3") (ground arith))
      ]
    ]

    external : (t : GroupType) → n.ptype ≡ group_type_name t → is_internal n ≡ false
    external subject e = rw e refl
    external object e = rw e refl
    external action e = rw e refl

    sound :
        validate_name n ≡ ok tt
        → ((t : GroupType) × (n.ptype ≡ group_type_name t))
          × (is_empty (trim n.name) ≡ false)
          × (starts_with_underscore n.name ≡ false)
    sound h = (typed (ground arith), ground arith, ground arith)

    complete :
        ((t : GroupType) × (n.ptype ≡ group_type_name t))
          × (is_empty (trim n.name) ≡ false)
          × (starts_with_underscore n.name ≡ false)
        → validate_name n ≡ ok tt
    complete ((subject, e), a, b) = rw e (rw a (rw b refl))
    complete ((object, e), a, b) = rw e (rw a (rw b refl))
    complete ((action, e), a, b) = rw e (rw a (rw b refl))

    outside : validate_name n ≡ ok tt → is_internal n ≡ false
    outside h = let (t, e) = (sound h).0 in external t e

pub record PermissionPolicy : Type 0 where
  pub rule : CasbinRule
  pub user_role : Text
  pub target_group : Text
  pub action_group : Text

pub data PermissionPolicyEmptyError : Type 0 where
  empty_user_role empty_target_group empty_action_group : PermissionPolicyEmptyError

pub verify_policy : PermissionPolicy → Result PermissionPolicyEmptyError (Unit {0})
verify_policy p =
    if text_eq p.user_role []
    then err empty_user_role
    else if text_eq p.target_group []
    then err empty_target_group
    else if text_eq p.action_group []
    then err empty_action_group
    else ok tt
