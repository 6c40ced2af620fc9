-- ===== src/Casbin/Rules.antt =====
-- The data of src/server/casbin.rs and src/database/models/casbin_rule.rs: policy rows, grouping
-- rows, and the graph's node weights made from them. A `Uuid` is its 128-bit number.
use rustion.Prelude.{ℕ, Option, none, some, Result, ok, err, ◌>>=◌}
use rustion.Prelude.Text.{Text}

abbrev pub Uuid : Type 0
Uuid = ℕ

pub record CasbinRule : Type 0 where
  pub id : Uuid
  pub ptype : Text
  pub v0 : Uuid
  pub v1 : Uuid
  pub v2 : Uuid
  pub v3 : Text
  pub v4 : Text
  pub v5 : Text
  pub updated_by : Uuid
  pub updated_at : ℕ

pub record CasbinRuleGroup : Type 0 where
  pub id : Uuid
  pub v0 : Uuid
  pub v0_object_label : Option Text
  pub v0_group_label : Option Text
  pub v1 : Uuid
  pub v1_object_label : Option Text
  pub v1_group_label : Option Text

-- The errors of the modelled code: those of src/server/error.rs that it raises, and the failures of
-- the database and of russh, which it passes on.
pub data ExtendPolicyParseError : Type 0 where
  invalid_ip_policy : Text → ExtendPolicyParseError
  invalid_time_format : Text → ExtendPolicyParseError
  time_consistency_error : Text → ExtendPolicyParseError
  invalid_expire_date_format : Text → ExtendPolicyParseError

-- `russh::Error`, as far as the code tells its cases apart.
pub data RusshError : Type 0 where
  administratively_prohibited send_error : RusshError
  channel_open_failure : ℕ → RusshError
  other_russh : ℕ → RusshError

-- `AppError` of src/server/app/error.rs.
pub data AppError : Type 0 where
  no_target_available channel_record_exists init_record_error channel_notify_exists : AppError

pub data Error : Type 0 where
  invalid_rule_group : Error
  extend_policy_parse : ExtendPolicyParseError → Error
  invalid_login_name : Error
  sqlx : Text → Error
  russh : RusshError → Error
  app : AppError → Error

pub data GroupType : Type 0 where
  subject object action : GroupType

-- `Type` of the source.
pub data NodeType : Type 0 where
  object group : NodeType

pub data Label : Type 0 where
  object group : Text → Label

pub record Group : Type 0 where
  pub id : Uuid
  pub v : Uuid
  pub label : Label

pub data RuleGroup : Type 0 where
  v0 v1 : Group → RuleGroup

-- The match that `Label::from_v0` and `Label::from_v1` make on their pair of labels.
abbrev pub of_labels : Option Text → Option Text → Result Error Label
of_labels (some s) none = ok (Label.object s)
of_labels none (some s) = ok (Label.group s)
of_labels _ _ = err invalid_rule_group

unfoldable pub label_from_v0 : CasbinRuleGroup → Result Error Label
label_from_v0 r = of_labels r.v0_object_label r.v0_group_label

unfoldable pub label_from_v1 : CasbinRuleGroup → Result Error Label
label_from_v1 r = of_labels r.v1_object_label r.v1_group_label

unfoldable pub rule_group_from_v0 : CasbinRuleGroup → Result Error RuleGroup
unfolding label_from_v0
rule_group_from_v0 r = do
  l ← label_from_v0 r
  ok (RuleGroup.v0 (record { id = r.id; v = r.v0; label = l }))

unfoldable pub rule_group_from_v1 : CasbinRuleGroup → Result Error RuleGroup
unfolding label_from_v1
rule_group_from_v1 r = do
  l ← label_from_v1 r
  ok (RuleGroup.v1 (record { id = r.id; v = r.v1; label = l }))

unfoldable pub fetch_role : RuleGroup → Uuid
fetch_role (RuleGroup.v0 g) = g.v
fetch_role (RuleGroup.v1 g) = g.v

unfoldable pub get_type : RuleGroup → NodeType
get_type (RuleGroup.v0 g) = elim g.label [
  | Label.object _ ↦ NodeType.object
  | Label.group _ ↦ NodeType.group
]
get_type (RuleGroup.v1 g) = elim g.label [
  | Label.object _ ↦ NodeType.object
  | Label.group _ ↦ NodeType.group
]

-- Exactly one label of the pair is there.
abbrev pub IsOne {ℓ} : {A : Type ℓ} → Option A → Option A → Type 0
IsOne (some _) none = Unit
IsOne none (some _) = Unit
IsOne (some _) (some _) = ⊥
IsOne none none = ⊥

-- What the graph needs of a grouping row.
pub record IsLabelled (r : CasbinRuleGroup) : Type 0 where
  pub left : IsOne r.v0_object_label r.v0_group_label
  pub right : IsOne r.v1_object_label r.v1_group_label
