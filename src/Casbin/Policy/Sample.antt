-- ===== src/Casbin/Policy/Sample.antt =====
-- Small libraries of addresses and times that meet the laws: an address or a network is a number,
-- and a time is a minute with an offset. Examples run on them.
use rustion.Prelude.{
  ℕ, ◌+◌, ◌-◌, ◌*◌, ◌/◌, ◌%◌, ◌<◌, ◌≡◌, refl, ap, false, Result, ok, err, [], ◌∷◌, arith, ◌==◌,
}
use rustion.Prelude.Text.{Text, codes, is_whitespace}
use rustion.Casbin.Policy.{IpLib, TimeLib}
use rustion.Casbin.Policy.RoundTrip.{IpLaws, TimeLaws}

abbrev sample_error : Text
sample_error = codes "bad"

abbrev parse_code : Text → Result Text ℕ
parse_code [] = err sample_error
parse_code (c ∷ _) = ok (c - 200)

abbrev pub sample_ips : IpLib
sample_ips = record {
  IpAddr = ℕ;
  IpNetwork = ℕ;
  contains = λ n a. n == a;
  parse_network = parse_code;
  show_network = λ n. (n + 200) ∷ [];
}

pub record Moment : Type 0 where
  pub minute : ℕ
  pub offset : ℕ

abbrev parse_moment : Text → Result Text Moment
parse_moment (a ∷ b ∷ _) = ok (record { minute = a - 200; offset = b - 200 })
parse_moment _ = err sample_error

abbrev pub sample_times : TimeLib
sample_times = record {
  Offset = ℕ;
  NaiveTime = ℕ;
  DateTime = Moment;
  offset_eq = λ a b. a == b;
  instant = λ t. t.minute;
  timezone = λ t. t.offset;
  with_time = λ now z t. record { minute = now / 1440 * 1440 + t; offset = z };
  parse_naive_time = parse_code;
  parse_offset = parse_code;
  parse_datetime = parse_moment;
  format_hm = λ t. (t.minute % 1440 + 200) ∷ [];
  format_offset = λ z. (z % 1000 + 200) ∷ [];
  format_datetime = λ t. (t.minute + 200) ∷ (t.offset + 200) ∷ [];
}

pub add_sub : (n : ℕ) → ◌≡◌ {A = Result Text ℕ} (ok (n + 200 - 200)) (ok n)
add_sub n = ap ok (omega arith)

pub sample_show : (n : ℕ) → parse_code ((n + 200) ∷ []) ≡ ok n
sample_show n = add_sub n

pub not_comma : (n : ℕ) → (n + 200 == b',') ≡ false
not_comma n = ground arith

pub not_bang : (n : ℕ) → (n + 200 == b'!') ≡ false
not_bang n = ground arith

not_space : (n : ℕ) → n < 2000 → is_whitespace (n + 200) ≡ false
unfolding is_whitespace
not_space n h = ground arith

pub not_space_hm : (n : ℕ) → is_whitespace (n % 1440 + 200) ≡ false
not_space_hm n = not_space (n % 1440) (omega arith)

pub not_space_offset : (n : ℕ) → is_whitespace (n % 1000 + 200) ≡ false
not_space_offset n = not_space (n % 1000) (omega arith)

pub same_offset : (z : ℕ) → z < 1000 → ◌≡◌ {A = Result Text ℕ} (ok (z % 1000 + 200 - 200)) (ok z)
same_offset z h = ap ok (omega arith)

pub same_moment :
    (t : Moment)
    → ◌≡◌ {A = Result Text Moment}
        (ok (record { minute = t.minute + 200 - 200; offset = t.offset + 200 - 200 }))
        (ok t)
same_moment t = ground arith

abbrev pub sample_ip_laws : IpLaws sample_ips
sample_ip_laws = record {
  parse-show = sample_show;
  full = λ n. refl;
  plain = not_bang;
  lacks = λ n. (not_comma n, tt);
}

abbrev pub sample_time_laws : TimeLaws sample_times
sample_time_laws = record {
  IsWholeMinute = λ z. z < 1000;
  IsWholeSecond = λ t. Unit;
  clock_time = λ t. t.minute % 1440;
  parse_naive_time-format = λ t h. add_sub (t.minute % 1440);
  parse_offset-format = same_offset;
  parse_datetime-format = λ t h k. same_moment t;
  hm_full = λ t. refl;
  hm_word = λ t. (not_space_hm t.minute, tt);
  hm_lacks = λ t. (not_comma (t.minute % 1440), tt);
  offset_full = λ z. refl;
  offset_word = λ z. (not_space_offset z, tt);
  offset_lacks = λ z. (not_comma (z % 1000), tt);
  datetime_full = λ t. refl;
  datetime_lacks = λ t. (not_comma t.minute, (not_comma t.offset, tt));
}
