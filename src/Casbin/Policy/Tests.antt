-- ===== src/Casbin/Policy/Tests.antt =====
-- The theorems about policy extensions at concrete ones.
use rustion.Prelude.{ℕ, ◌≡◌, ◌↔◌, refl, true, none, some, ok, err, [], arith}
use rustion.Prelude.Text.{Text, split_on}
use rustion.Casbin.Rules.{time_consistency_error}
use rustion.Casbin.Policy.{
  deny, ExtendPolicy, ExtendPolicyReq, is_in_period, from_str, to_string, serialize,
  verify_extend_policy,
}
use rustion.Casbin.Policy.Period.{Admits, InPeriod, is_in_period_iff, verify_extend_policy_iff}
use rustion.Casbin.Policy.RoundTrip.{
  IsConsistent, from_str-IsConsistent, from_str-serialize, IsPrintable,
}
use rustion.Casbin.Policy.Sample.{
  Moment, sample_ips, sample_times, sample_ip_laws, sample_time_laws,
}

abbrev moment : ℕ → Moment
moment m = record { minute = m; offset = 60 }

-- From 20:30 to 06:30, for all addresses but one, until a later date.
abbrev pub night : ExtendPolicy sample_ips sample_times
night = record {
  ip_policy = some (deny 7);
  start_time = some (moment 1230);
  end_time = some (moment 390);
  expire_date = some (moment 5000);
}

is_in_period_iff_example :
    (is_in_period sample_ips sample_times 1300 (some (moment 1230)) (some (moment 390)) ≡ true)
    ↔ InPeriod sample_ips sample_times 1300 (some (moment 1230)) (some (moment 390))
is_in_period_iff_example =
    is_in_period_iff sample_ips sample_times 1300 (some (moment 1230)) (some (moment 390))

abbrev request : ExtendPolicyReq sample_ips sample_times
request = record { ip = some 4; now = 1300 }

verify_extend_policy_iff_example :
    (verify_extend_policy sample_ips sample_times (0, 0) request [] ≡ ok true) ↔ (
      (ext : ExtendPolicy sample_ips sample_times) × (from_str sample_ips sample_times (0, 0) []
        ≡ ok ext)
      × Admits sample_ips sample_times request ext)
verify_extend_policy_iff_example =
    verify_extend_policy_iff sample_ips sample_times (0, 0) request []

-- The empty text is the extension without any condition.
pub from_str-nil :
    from_str sample_ips sample_times (0, 0) []
    ≡ ok (record { ip_policy = none; start_time = none; end_time = none; expire_date = none })
unfolding from_str split_on
from_str-nil = refl

night-IsPrintable : IsPrintable sample_ips sample_times sample_ip_laws sample_time_laws (0, 0) night
night-IsPrintable = record {
  start = (omega arith, refl);
  end = (omega arith, refl);
  expire = (omega arith, tt);
}

from_str-serialize_example :
    ((s : Text)
      → serialize sample_ips sample_times night ≡ ok s
      → from_str sample_ips sample_times (0, 0) s ≡ ok night)
    × ((m : Text)
        → serialize sample_ips sample_times night ≡ err m
        → from_str sample_ips sample_times (0, 0) (to_string sample_ips sample_times night)
          ≡ err (time_consistency_error m))
from_str-serialize_example =
    from_str-serialize sample_ips sample_times sample_ip_laws sample_time_laws (0, 0) night
      night-IsPrintable

night-serialize :
    serialize sample_ips sample_times night ≡ ok (to_string sample_ips sample_times night)
unfolding serialize
night-serialize = refl

night-from_str :
    from_str sample_ips sample_times (0, 0) (to_string sample_ips sample_times night) ≡ ok night
night-from_str =
    (from_str-serialize sample_ips sample_times sample_ip_laws sample_time_laws (0, 0) night
        night-IsPrintable).0
      (to_string sample_ips sample_times night) night-serialize

from_str-IsConsistent_example : IsConsistent sample_ips sample_times night
from_str-IsConsistent_example =
    from_str-IsConsistent sample_ips sample_times (0, 0) (to_string sample_ips sample_times night)
      night night-from_str
