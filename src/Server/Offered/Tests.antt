-- ===== src/Server/Offered/Tests.antt =====
-- The theorems about the offered targets at concrete tables.
use rustion.Prelude.{◌≡◌, ◌↔◌, refl, inr, true, none, some, ok, List, [], ◌∷◌, Memᴰ}
use mathlib.Core.List.Memᴰ
use rustion.Prelude.Text.{codes, text_eq}
use rustion.Casbin.Rules.{CasbinRule}
use rustion.Casbin.Roles.Tests.{
  sample_graph, user_rows, object_rows, action_rows, sample_manager, sample_manager-built,
}
use rustion.Casbin.Policy.{ExtendPolicy}
use rustion.Casbin.Policy.Sample.{sample_ips, sample_times}
use rustion.Casbin.Policy.Tests.{from_str-nil}
use rustion.App.World.{Target, TargetSecretName}
use rustion.Database.Tables.{Tables, TargetSecret, Secret, check_object_active, name_row}
use rustion.Database.Joins.{HasKeys}
use rustion.Database.Objects.{Memᴰ-list_casbin_rules_by_ptype}
use rustion.Server.Enforce.{enforce}
use rustion.Server.Enforce.Covered.{Covers}
use rustion.Server.Enforce.Tests.{
  policy, request, parsed_at, subject-IsMember, object-IsMember, action-IsMember,
}
use rustion.Server.Offered.{list_targets_for_user}
use rustion.Server.Offered.Exact.{IsOfferedBy, list_targets_for_user_iff}
use rustion.Server.Offered.Granted.{queries, Parse, IsFor, list_targets_for_user-enforce}

abbrev web : Target
web = record {
  id = 50;
  name = codes "web";
  hostname = codes "web.local";
  port = 22;
  server_public_key = [];
  description = none;
  is_active = true;
  updated_by = 1;
  updated_at = 0;
}

abbrev root : Secret
root = record {
  id = 60;
  name = codes "root";
  user = codes "root";
  password = none;
  private_key = none;
  public_key = none;
  is_active = true;
  updated_by = 1;
  updated_at = 0;
}

-- The object 2, which is in the group 20 of the policy.
abbrev root_on_web : TargetSecret
root_on_web = record {
  id = 2;
  target_id = 50;
  secret_id = 60;
  is_active = true;
  updated_by = 1;
  updated_at = 0;
}

abbrev tables : Tables
tables = record {
  targets = web ∷ [];
  secrets = root ∷ [];
  target_secrets = root_on_web ∷ [];
  casbin_rule = policy ∷ [];
  casbin_names = [];
}

abbrev offered : TargetSecretName
offered = name_row 100 root_on_web web root

tables-HasKeys : HasKeys tables
tables-HasKeys = record {
  targets = (tt, tt);
  secrets = (tt, tt);
  target_secrets = (tt, tt);
  casbin_names = tt;
}

list_targets_for_user_iff_example :
    (res : List TargetSecretName) × (list_targets_for_user sample_graph tables sample_manager 1 true
      ≡ some res)
    × ((r : TargetSecretName)
        → Memᴰ r res ↔ (
            (p : CasbinRule) × Memᴰ p (policy ∷ [])
            × (text_eq p.ptype (codes "p") ≡ true)
            × Covers user_rows 1 p.v0
            × IsOfferedBy tables object_rows true p r))
list_targets_for_user_iff_example =
    list_targets_for_user_iff sample_graph user_rows object_rows action_rows sample_manager
      sample_manager-built tables true 1

-- The user 1 is offered the object 2, through a chain of two user rows and an object row.
offered-listed : Memᴰ offered list_targets_for_user_iff_example.0
offered-listed = (list_targets_for_user_iff_example.2 offered).1 (
  policy,
  Memᴰ.head refl,
  refl,
  inr subject-IsMember,
  (
    root_on_web,
    web,
    root,
    record {
      link = Memᴰ.head refl;
      target = Memᴰ.head refl;
      secret = Memᴰ.head refl;
      to_target = refl;
      to_secret = refl;
    },
    inr object-IsMember,
    refl,
    refl,
  ),
)

abbrev free : ExtendPolicy sample_ips sample_times
free = record { ip_policy = none; start_time = none; end_time = none; expire_date = none }

parse :
    Parse sample_graph sample_ips sample_times user_rows object_rows action_rows sample_manager
      sample_manager-built tables parsed_at
parse pol i =
    let (among, _) = (Memᴰ-list_casbin_rules_by_ptype tables (codes "p") pol).0 i in
    rw (Memᴰ.eq_of_singleton among) (free, from_str-nil)

-- The policy covers the action 3.
offering :
    (pol : CasbinRule)
    → Memᴰ pol (policy ∷ [])
    → pol.id ≡ 100
    → IsFor sample_graph sample_ips sample_times user_rows object_rows action_rows sample_manager
        sample_manager-built tables parsed_at 3 request pol
offering pol i same =
    rw (Memᴰ.eq_of_singleton i)
      (inr action-IsMember, free, from_str-nil, record { address = tt; period = tt; live = tt })

list_targets_for_user-enforce_example :
    (check_object_active tables 2 ≡ true)
    × (enforce sample_graph sample_ips sample_times
          (queries tables)
          sample_manager
          parsed_at
          1
          2
          3
          request
        ≡ ok true)
list_targets_for_user-enforce_example =
    list_targets_for_user-enforce sample_graph sample_ips sample_times user_rows object_rows
      action_rows sample_manager sample_manager-built tables parsed_at 1 3 request
      list_targets_for_user_iff_example.0 offered tables-HasKeys list_targets_for_user_iff_example.1
      offered-listed parse offering
