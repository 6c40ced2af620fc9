-- ===== src/Casbin/Policy.antt =====
-- Policy extensions of src/server/casbin.rs: `ExtendPolicy`, its text form, and the checks made with
-- it. The crates ipnetwork and chrono are parameters.
pub mod Period
pub mod RoundTrip
pub mod Sample
pub mod Tests
use rustion.Prelude.{
  ℕ, Bool, true, false, not, ◌&&◌, ◌||◌, Option, none, some, Result, ok, err, ◌>>=◌, ◌>>◌, map_err,
  List, [], ◌∷◌, ◌++◌, get_elem?, leb, ltb, ◌==◌, if◌then◌else◌,
}
use rustion.Prelude.Text.{Text, codes, is_empty, split, split_whitespace, join}
use rustion.Casbin.Rules.{
  ExtendPolicyParseError, invalid_ip_policy, invalid_time_format, time_consistency_error,
  invalid_expire_date_format, Error, extend_policy_parse,
}

-- What the code uses of ipnetwork and of the standard library's addresses.
pub record IpLib : Type 1 where
  pub IpAddr : Type 0
  pub IpNetwork : Type 0
  pub contains : IpNetwork → IpAddr → Bool
  pub parse_network : Text → Result Text IpNetwork
  pub show_network : IpNetwork → Text

-- What the code uses of chrono. A `DateTime` is compared by its instant, here a number of
-- nanoseconds; `with_time now z t` is the time `t` of the day that `now` falls on in `z`.
pub record TimeLib : Type 1 where
  pub Offset : Type 0
  pub NaiveTime : Type 0
  pub DateTime : Type 0
  pub offset_eq : Offset → Offset → Bool
  pub instant : DateTime → ℕ
  pub timezone : DateTime → Offset
  pub with_time : ℕ → Offset → NaiveTime → DateTime
  pub parse_naive_time : Text → Result Text NaiveTime
  pub parse_offset : Text → Result Text Offset
  pub parse_datetime : Text → Result Text DateTime
  -- `%H:%M`, `%z` and `%Y-%m-%d %H:%M:%S %z`.
  pub format_hm : DateTime → Text
  pub format_offset : Offset → Text
  pub format_datetime : DateTime → Text

-- The readings of the clock while an extension is parsed: for its start, and for its end.
abbrev pub Clocks : Type 0
Clocks = ℕ × ℕ

abbrev comma : ℕ
comma = b','

-- `parts.len() > i && !parts[i].is_empty()`, and then `parts[i]`.
abbrev pub part : List Text → ℕ → Option Text
part parts i = elim (get_elem? parts i) [
  | none ↦ none
  | some p ↦ if is_empty p then none else some p
]

-- A value that is parsed only if its part is there.
abbrev pub optional {ℓ κ} :
    {E : Type ℓ} {A : Type κ} → Option Text → (Text → Result E A) → Result E (Option A)
optional none f = ok none
optional (some p) f = f p >>= λ a. ok (some a)

abbrev pub text_of {ℓ} : {A : Type ℓ} → Option A → (A → Text) → Text
text_of none f = []
text_of (some a) f = f a

module _ (I : IpLib) (C : TimeLib) where
  open I use {IpAddr, IpNetwork, contains, parse_network, show_network}
  open C use {
    Offset, DateTime, offset_eq, instant, timezone, with_time, parse_naive_time, parse_offset,
    parse_datetime, format_hm, format_offset, format_datetime,
  }

  pub data IpPolicy : Type 0 where
    allow deny : IpNetwork → IpPolicy

  pub record ExtendPolicy : Type 0 where
    pub ip_policy : Option IpPolicy
    pub start_time : Option DateTime
    pub end_time : Option DateTime
    pub expire_date : Option DateTime

  pub record ExtendPolicyReq : Type 0 where
    pub ip : Option IpAddr
    pub now : ℕ

  pub is_in_period : ℕ → Option DateTime → Option DateTime → Bool
  is_in_period t none none = true
  is_in_period t (some _) none = false
  is_in_period t none (some _) = false
  is_in_period t (some s) (some e) =
      if leb (instant s) (instant e)
      then leb (instant s) t && ltb t (instant e)
      else leb (instant s) t || ltb t (instant e)

  pub is_ip_in_cidr : Option IpAddr → Option IpPolicy → Bool
  is_ip_in_cidr ip none = true
  is_ip_in_cidr none (some _) = false
  is_ip_in_cidr (some ip) (some (allow cidr)) = contains cidr ip
  is_ip_in_cidr (some ip) (some (deny cidr)) = not (contains cidr ip)

  -- `now` is what `Utc::now()` returns while the text is parsed.
  pub parse_time : ℕ → Text → Result Text DateTime
  parse_time now time_str = do
    s ← parse_naive_time time_str
    s_tz ←
        parse_offset
          (elim (get_elem? (split_whitespace time_str) 1) [ none ↦ codes "+0000" | some w ↦ w ])
    ok (with_time now s_tz s)

  pub parse_ip_policy : Text → Result ExtendPolicyParseError IpPolicy
  parse_ip_policy [] = map_err invalid_ip_policy (parse_network []) >>= λ n. ok (allow n)
  parse_ip_policy (c ∷ rest) =
      if c == b'!'
      then (map_err invalid_ip_policy (parse_network rest) >>= λ n. ok (deny n))
      else (map_err invalid_ip_policy (parse_network (c ∷ rest)) >>= λ n. ok (allow n))

  abbrev both_or_neither : Text
  both_or_neither = codes "start_time and end_time must both be present or both absent"

  abbrev same_timezone : Text
  same_timezone = codes "timezone of start_time and end_time must be equal"

  -- The match that `from_str` and `serialize` make: the message of the fault, if there is one.
  pub time_fault : Option DateTime → Option DateTime → Option Text
  time_fault none none = none
  time_fault (some _) none = some both_or_neither
  time_fault none (some _) = some both_or_neither
  time_fault (some s) (some e) =
      if offset_eq (timezone s) (timezone e) then none else some same_timezone

  check_times : Option DateTime → Option DateTime → Result ExtendPolicyParseError (Unit {0})
  unfolding time_fault
  check_times s e = elim (time_fault s e) [ none ↦ ok tt | some m ↦ err (time_consistency_error m) ]

  -- The clock is read once for each of the two times.
  pub from_str : Clocks → Text → Result ExtendPolicyParseError ExtendPolicy
  unfolding check_times parse_ip_policy parse_time
  from_str now s = do
    let parts = split comma s
    ip_policy ← optional (part parts 0) parse_ip_policy
    start_time ← optional (part parts 1) (λ p. map_err invalid_time_format (parse_time now.0 p))
    end_time ← optional (part parts 2) (λ p. map_err invalid_time_format (parse_time now.1 p))
    check_times start_time end_time
    expire_date ←
        optional (part parts 3) (λ p. map_err invalid_expire_date_format (parse_datetime p))
    ok (record {
      ip_policy = ip_policy;
      start_time = start_time;
      end_time = end_time;
      expire_date = expire_date;
    })

  pub show_ip_policy : IpPolicy → Text
  show_ip_policy (allow v) = show_network v
  show_ip_policy (deny v) = b'!' ∷ show_network v

  -- `t.format("%H:%M %z")`.
  abbrev pub show_time : DateTime → Text
  show_time t = format_hm t ++ (b' ' ∷ format_offset (timezone t))

  pub to_string : ExtendPolicy → Text
  unfolding show_ip_policy
  to_string ext = join (comma ∷ []) (
      text_of ext.ip_policy show_ip_policy
      ∷ text_of ext.start_time show_time
      ∷ text_of ext.end_time show_time
      ∷ text_of ext.expire_date format_datetime
      ∷ [])

  pub serialize : ExtendPolicy → Result Text Text
  unfolding time_fault
  serialize ext = elim (time_fault ext.start_time ext.end_time) [
    | none ↦ ok (to_string ext)
    | some m ↦ err m
  ]

  -- `if let Some(ep) = ext.expire_date && ext_req.now >= ep`.
  abbrev pub is_expired : ℕ → Option DateTime → Bool
  is_expired now none = false
  is_expired now (some ep) = leb (instant ep) now

  -- `parsed_at` is the clock while `ext_str` is parsed, which is not `ext_req.now`.
  pub verify_extend_policy : Clocks → ExtendPolicyReq → Text → Result Error Bool
  verify_extend_policy parsed_at ext_req ext_str = do
    ext ← map_err extend_policy_parse (from_str parsed_at ext_str)
    if not (is_ip_in_cidr ext_req.ip ext.ip_policy)
        then ok false
        else if not (is_in_period ext_req.now ext.start_time ext.end_time)
        then ok false
        else if is_expired ext_req.now ext.expire_date
        then ok false
        else ok true
