-- ===== src/Server/Enforce/Tests.antt =====
-- A request that reaches its policy through groups on all three sides.
use rustion.Prelude.{◌≡◌, ◌↔◌, refl, inl, inr, Bool, true, none, some, ok, List, [], ◌∷◌, Memᴰ}
use mathlib.Core.List.Memᴰ
use rustion.Prelude.Text.{codes}
use rustion.Casbin.Rules.{CasbinRule}
use rustion.Casbin.Graph.{here, step}
use rustion.Casbin.Roles.Tests.{
  sample_graph, row, user_rows, object_rows, action_rows, sample_manager, sample_manager-built,
}
use rustion.Casbin.Roles.Match.{IsMember}
use rustion.Casbin.Policy.{Clocks, ExtendPolicyReq}
use rustion.Casbin.Policy.Sample.{sample_ips, sample_times}
use rustion.Casbin.Policy.Tests.{from_str-nil}
use rustion.Server.Enforce.{Queries, enforce}
use rustion.Server.Enforce.Sound.{Permits, IsReadable, enforce_sound, enforce_iff}

abbrev pub policy : CasbinRule
policy = record {
  id = 100;
  ptype = codes "p";
  v0 = 11;
  v1 = 20;
  v2 = 30;
  v3 = [];
  v4 = [];
  v5 = [];
  updated_by = 0;
  updated_at = 0;
}

abbrev db : Queries
db = record {
  list_casbin_rules_by_ptype = λ _. ok (policy ∷ []);
  check_object_active = λ _. ok true;
}

abbrev pub request : ExtendPolicyReq sample_ips sample_times
request = record { ip = some 4; now = 1300 }

abbrev pub parsed_at : CasbinRule → Clocks
parsed_at p = (0, 0)

-- The subject 1 is in the group 10, which is in the group 11.
pub subject-IsMember : IsMember user_rows 1 11
subject-IsMember = (
  (10, inl (row 1 10, Memᴰ.head refl, refl, refl)),
  step (step here (row 1 10, Memᴰ.head refl, refl, refl))
      (row 10 11, Memᴰ.tail (Memᴰ.head refl), refl, refl),
)

pub object-IsMember : IsMember object_rows 20 2
object-IsMember = (
  (2, inl (row 20 2, Memᴰ.head refl, refl, refl)),
  step here (row 20 2, Memᴰ.head refl, refl, refl),
)

pub action-IsMember : IsMember action_rows 30 3
action-IsMember = (
  (3, inl (row 30 3, Memᴰ.head refl, refl, refl)),
  step here (row 30 3, Memᴰ.head refl, refl, refl),
)

policy-Permits :
    Permits sample_graph sample_ips sample_times db sample_manager parsed_at user_rows object_rows
      action_rows sample_manager-built 1 2 3 request policy
policy-Permits = record {
  subject_covered = inr subject-IsMember;
  object_covered = inr object-IsMember;
  object_active = refl;
  action_covered = inr action-IsMember;
  admits = (
    record { ip_policy = none; start_time = none; end_time = none; expire_date = none },
    from_str-nil,
    record { address = tt; period = tt; live = tt },
  );
}

policy-IsReadable :
    IsReadable sample_graph sample_ips sample_times db sample_manager parsed_at user_rows
      object_rows action_rows sample_manager-built 1 2 3 request
      (policy ∷ [])
policy-IsReadable = record {
  active = (true, refl);
  parses = λ pol i. rw (Memᴰ.eq_of_singleton i) (
    record { ip_policy = none; start_time = none; end_time = none; expire_date = none },
    from_str-nil,
  );
}

enforce_iff_example :
    ((granted : Bool) × (enforce sample_graph sample_ips sample_times db sample_manager parsed_at 1
          2 3 request
        ≡ ok granted))
    × ((enforce sample_graph sample_ips sample_times db sample_manager parsed_at 1 2 3 request
          ≡ ok true)
        ↔ ((pol : CasbinRule) × Memᴰ pol (policy ∷ [])
            × Permits sample_graph sample_ips sample_times db sample_manager parsed_at user_rows
                object_rows action_rows sample_manager-built 1 2 3 request pol))
enforce_iff_example =
    enforce_iff sample_graph sample_ips sample_times db sample_manager parsed_at user_rows
      object_rows action_rows sample_manager-built 1 2 3 request (policy ∷ []) refl
      policy-IsReadable

granted :
    enforce sample_graph sample_ips sample_times db sample_manager parsed_at 1 2 3 request ≡ ok true
granted =
    (enforce_iff sample_graph sample_ips sample_times db sample_manager parsed_at user_rows
        object_rows action_rows sample_manager-built 1 2 3 request (policy ∷ []) refl
        policy-IsReadable).1.1
      (policy, Memᴰ.head refl, policy-Permits)

enforce_sound_example :
    (policies : List CasbinRule) × (db.list_casbin_rules_by_ptype (codes "p") ≡ ok policies)
    × (pol : CasbinRule) × Memᴰ pol policies
    × Permits sample_graph sample_ips sample_times db sample_manager parsed_at user_rows object_rows
        action_rows sample_manager-built 1 2 3 request pol
enforce_sound_example =
    enforce_sound sample_graph sample_ips sample_times db sample_manager parsed_at user_rows
      object_rows action_rows sample_manager-built 1 2 3 request granted
