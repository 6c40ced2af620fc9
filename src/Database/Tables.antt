-- ===== src/Database/Tables.antt =====
-- The tables that decide what a user can reach, and the queries that decide it, of
-- src/database/sqlite.rs. The rows are those of src/database/models/target.rs, target_secret.rs and
-- casbin_rule.rs. A query that fails is left out.
use rustion.Prelude.{
  ℕ, Bool, true, false, not, ◌&&◌, ◌||◌, Option, List, [], ◌∷◌, ◌++◌, ◌==◌, if◌then◌else◌, any,
  length,
}
use rustion.Prelude.Text.{Text, codes, text_eq}
use rustion.Casbin.Rules.{Uuid, CasbinRule}
use rustion.Casbin.Names.{CasbinName}
use rustion.App.World.{Target, TargetSecretName}

pub record TargetSecret : Type 0 where
  pub id : Uuid
  pub target_id : Uuid
  pub secret_id : Uuid
  pub is_active : Bool
  pub updated_by : Uuid
  pub updated_at : ℕ

pub record Secret : Type 0 where
  pub id : Uuid
  pub name : Text
  pub user : Text
  pub password : Option Text
  pub private_key : Option Text
  pub public_key : Option Text
  pub is_active : Bool
  pub updated_by : Uuid
  pub updated_at : ℕ

pub record Tables : Type 0 where
  pub targets : List Target
  pub secrets : List Secret
  pub target_secrets : List TargetSecret
  pub casbin_rule : List CasbinRule
  pub casbin_names : List CasbinName

-- A loop over the rows of a table, with rows for each of them.
abbrev pub from_each {ℓ κ} : {A : Type ℓ} {B : Type κ} → List A → (A → List B) → List B
from_each [] rows = []
from_each (x ∷ xs) rows = rows x ++ from_each xs rows

abbrev pub where_row {ℓ} : {A : Type ℓ} → Bool → A → List A
where_row b x = if b then x ∷ [] else []

-- `FROM target_secrets ts INNER JOIN targets t ON .. INNER JOIN secrets s ON ..`
abbrev pub from_joined {ℓ} :
    {A : Type ℓ} → Tables → (TargetSecret → Target → Secret → List A) → List A
from_joined D rows = from_each D.target_secrets (λ ts. from_each D.targets (λ t.
    from_each D.secrets
      (λ s. if ts.target_id == t.id && ts.secret_id == s.id then rows ts t s else [])))

abbrev pub all_active : TargetSecret → Target → Secret → Bool
all_active ts t s = ts.is_active && (t.is_active && s.is_active)

-- The active target secrets with an id, and the active internal objects.
unfoldable pub active_target_secrets : Tables → Uuid → List TargetSecret
active_target_secrets D id =
    from_joined D (λ ts t s. where_row (all_active ts t s && ts.id == id) ts)

unfoldable pub active_internal_objects : Tables → Uuid → List CasbinName
active_internal_objects D id = from_each D.casbin_names (λ n.
    where_row (text_eq n.ptype (codes "__internal_object_type") && n.is_active && n.id == id) n)

unfoldable pub check_object_active : Tables → Uuid → Bool
check_object_active D id =
    if length (active_target_secrets D id) == 1
    then true
    else if length (active_internal_objects D id) == 1
    then true
    else false

unfoldable pub list_casbin_rules_by_ptype : Tables → Text → List CasbinRule
list_casbin_rules_by_ptype D ptype =
    from_each D.casbin_rule (λ r. where_row (text_eq r.ptype ptype) r)

-- The columns that are selected.
abbrev pub name_row : Uuid → TargetSecret → Target → Secret → TargetSecretName
name_row pid ts t s = record {
  pid = pid;
  id = ts.id;
  target_id = t.id;
  target_name = t.name;
  secret_id = s.id;
  secret_user = s.user;
}

-- Without ids, the answer is empty at once.
unfoldable pub list_targets_by_ids : Tables → List Uuid → Uuid → Bool → List TargetSecretName
list_targets_by_ids D [] pid active_only = []
list_targets_by_ids D (i ∷ ids) pid active_only = from_joined D (λ ts t s.
    where_row (any (λ x. x == ts.id) (i ∷ ids) && (not active_only || all_active ts t s))
      (name_row pid ts t s))
