-- ===== src/Casbin/Policy/RoundTrip.antt =====
-- Parsing an extension after printing it.
use rustion.Prelude.{
  ℕ, ◌≡◌, refl, inl, inr, Bool, true, false, Option, none, some, ok, err, bind-eq-ok, ◌>>=◌,
  map_err, [], ◌∷◌, ◌++◌, arith, ◌==◌, if◌then◌else◌, All-append, keep, Option-cases, Bool-cases,
}
use rustion.Prelude.Text.{
  Text, Lacks, Free, is_empty, is_whitespace, split, split_on-one, split_on-more, split_whitespace,
  split-join,
}
use rustion.Casbin.Rules.{time_consistency_error, invalid_time_format, invalid_expire_date_format}
use rustion.Casbin.Policy.{
  IpLib, TimeLib, IpPolicy, allow, deny, ExtendPolicy, part, optional, text_of, parse_time, Clocks,
  parse_ip_policy, time_fault, check_times, from_str, show_ip_policy, show_time, to_string,
  serialize,
}

abbrev pub IsFull : Text → Type 0
IsFull t = is_empty t ≡ false

abbrev pub is_bang : Text → Bool
is_bang [] = false
is_bang (c ∷ _) = c == b'!'

-- What ipnetwork documents: a network prints as `address/prefix`, which parses back.
pub record IpLaws (I : IpLib) : Type 0 where
  pub parse-show : (n : I.IpNetwork) → I.parse_network (I.show_network n) ≡ ok n
  pub full : (n : I.IpNetwork) → IsFull (I.show_network n)
  pub plain : (n : I.IpNetwork) → is_bang (I.show_network n) ≡ false
  pub lacks : (n : I.IpNetwork) → Lacks b',' (I.show_network n)

-- What chrono documents of the formats. `%z` shows whole minutes of an offset, `%H:%M` shows the
-- time down to the minute, and the date format shows whole seconds.
pub record TimeLaws (C : TimeLib) : Type 1 where
  pub IsWholeMinute : C.Offset → Type 0
  pub IsWholeSecond : C.DateTime → Type 0
  pub clock_time : C.DateTime → C.NaiveTime
  pub parse_naive_time-format :
      (t : C.DateTime)
      → IsWholeMinute (C.timezone t)
      → C.parse_naive_time (C.format_hm t ++ (b' ' ∷ C.format_offset (C.timezone t)))
        ≡ ok (clock_time t)
  pub parse_offset-format :
      (z : C.Offset) → IsWholeMinute z → C.parse_offset (C.format_offset z) ≡ ok z
  pub parse_datetime-format :
      (t : C.DateTime)
      → IsWholeMinute (C.timezone t)
      → IsWholeSecond t
      → C.parse_datetime (C.format_datetime t) ≡ ok t
  pub hm_full : (t : C.DateTime) → IsFull (C.format_hm t)
  pub hm_word : (t : C.DateTime) → Free is_whitespace (C.format_hm t)
  pub hm_lacks : (t : C.DateTime) → Lacks b',' (C.format_hm t)
  pub offset_full : (z : C.Offset) → IsFull (C.format_offset z)
  pub offset_word : (z : C.Offset) → Free is_whitespace (C.format_offset z)
  pub offset_lacks : (z : C.Offset) → Lacks b',' (C.format_offset z)
  pub datetime_full : (t : C.DateTime) → IsFull (C.format_datetime t)
  pub datetime_lacks : (t : C.DateTime) → Lacks b',' (C.format_datetime t)

module _ (I : IpLib) (C : TimeLib) where
  -- Both times or none, and both in one zone.
  abbrev pub InOneZone : Option C.DateTime → Option C.DateTime → Type 0
  InOneZone none none = Unit
  InOneZone (some start) (some end) = C.offset_eq (C.timezone start) (C.timezone end) ≡ true
  InOneZone (some _) none = ⊥
  InOneZone none (some _) = ⊥

  abbrev pub IsConsistent : ExtendPolicy I C → Type 0
  IsConsistent ext = InOneZone ext.start_time ext.end_time

  check_times-ok :
      (s e : Option C.DateTime) {u : Unit {0}} → check_times I C s e ≡ ok u → InOneZone s e
  unfolding check_times time_fault
  check_times-ok none none h = tt
  check_times-ok (some s) none h = absurd (cc)
  check_times-ok none (some e) h = absurd (cc)
  check_times-ok (some s) (some e) h =
      elim (Bool-cases (C.offset_eq (C.timezone s) (C.timezone e))) [
        | inl p ↦ p
        | inr p ↦ absurd (let q = rw (p, check_times) at h in cc)
      ]

  -- Whatever parses has both times or none, and both in one zone.
  pub from_str-IsConsistent :
      (now : Clocks) (s : Text) (ext : ExtendPolicy I C)
      → from_str I C now s ≡ ok ext
      → IsConsistent ext
  unfolding from_str
  from_str-IsConsistent now s ext h =
      let (ip, _, h1) = bind-eq-ok (optional (part (split b',' s) 0) (parse_ip_policy I C)) _ h in
      let time = λ (clock i : ℕ).
        optional (part (split b',' s) i)
          (λ p. map_err invalid_time_format (parse_time I C clock p)) in
      let (start, _, h2) = bind-eq-ok (time now.0 1) _ h1 in
      let (end, _, h3) = bind-eq-ok (time now.1 2) _ h2 in
      let (u, fine, h4) = bind-eq-ok (check_times I C start end) _ h3 in
      let (expire, _, h5) =
        bind-eq-ok
          (optional (part (split b',' s) 3)
            (λ p. map_err invalid_expire_date_format (C.parse_datetime p)))
          _ h4 in
      let same : (start ≡ ext.start_time) × (end ≡ ext.end_time) = (cc h5, cc h5) in
      rw (← same.0) (rw (← same.1) (check_times-ok start end fine))

  module _ (X : IpLaws I) (Y : TimeLaws C) where
    open Y use {IsWholeMinute, IsWholeSecond, clock_time}

    words_of_time :
        (t : C.DateTime)
        → split_whitespace (show_time I C t) ≡ C.format_hm t ∷ C.format_offset (C.timezone t) ∷ []
    unfolding split_whitespace
    words_of_time t =
        let space : is_whitespace 32 ≡ true = unfold is_whitespace in refl in
        rw
          (split_on-more is_whitespace (C.format_hm t) 32 (C.format_offset (C.timezone t))
            (Y.hm_word t) space)
          (rw
            (split_on-one is_whitespace (C.format_offset (C.timezone t))
              (Y.offset_word (C.timezone t)))
            (rw (Y.hm_full t, keep) (rw (Y.offset_full (C.timezone t), keep) refl)))

    -- The time is that of a whole minute of the day of `now`.
    abbrev pub IsOfDay : ℕ → C.DateTime → Type 0
    IsOfDay now t =
        IsWholeMinute (C.timezone t) × (C.with_time now (C.timezone t) (clock_time t) ≡ t)

    parse_time-show_time :
        (now : ℕ) (t : C.DateTime) → IsOfDay now t → parse_time I C now (show_time I C t) ≡ ok t
    unfolding parse_time
    parse_time-show_time now t (whole, same) =
        rw (Y.parse_naive_time-format t whole)
          (rw (words_of_time t) (rw (Y.parse_offset-format (C.timezone t) whole) (rw same)))

    -- Every value of the option, if there is one.
    abbrev pub Each {ℓ κ} : {A : Type ℓ} → (A → Type κ) → Option A → Type κ
    Each P none = Unit
    Each P (some a) = P a

    -- What the text of an extension can carry.
    pub record IsPrintable (now : Clocks) (ext : ExtendPolicy I C) : Type 0 where
      pub start : Each (IsOfDay now.0) ext.start_time
      pub end : Each (IsOfDay now.1) ext.end_time
      pub expire : Each (λ t. IsWholeMinute (C.timezone t) × IsWholeSecond t) ext.expire_date

    abbrev full : Text → Option Text
    full p = if is_empty p then none else some p

    parse_ip_policy-show : (p : IpPolicy I C) → parse_ip_policy I C (show_ip_policy I C p) ≡ ok p
    unfolding parse_ip_policy show_ip_policy
    parse_ip_policy-show (allow n) = allowed (I.show_network n) (X.plain n) (X.parse-show n)
      where
        allowed :
            (s : Text)
            → is_bang s ≡ false
            → I.parse_network s ≡ ok n
            → parse_ip_policy I C s ≡ ok (allow n)
        allowed [] b e = rw e
        allowed (c ∷ s) b e = rw b (rw e)
    parse_ip_policy-show (deny n) = rw (X.parse-show n)

    bang_is_full : (s : Text) → IsFull (b'!' ∷ s)
    bang_is_full s = refl

    full_of : (p : Text) → IsFull p → full p ≡ some p
    full_of p h = rw h refl

    show_ip_policy-IsFull : (p : IpPolicy I C) → IsFull (show_ip_policy I C p)
    unfolding show_ip_policy
    show_ip_policy-IsFull (allow n) = X.full n
    show_ip_policy-IsFull (deny n) = refl

    append-IsFull : (s t : Text) → IsFull s → IsFull (s ++ t)
    append-IsFull [] t h = cc
    append-IsFull (c ∷ s) t h = refl

    ip_back :
        (p : Option (IpPolicy I C))
        → optional (full (text_of p (show_ip_policy I C))) (parse_ip_policy I C) ≡ ok p
    ip_back none = refl
    ip_back (some p) =
        rw (full_of (show_ip_policy I C p) (show_ip_policy-IsFull p)) (rw (parse_ip_policy-show p))

    time_back :
        (now : ℕ) (t : Option C.DateTime)
        → Each (IsOfDay now) t
        → optional
            (full (text_of t (show_time I C)))
            (λ p. map_err invalid_time_format (parse_time I C now p))
          ≡ ok t
    time_back now none h = refl
    time_back now (some t) h =
        rw
          (full_of (show_time I C t)
            (append-IsFull (C.format_hm t) (b' ' ∷ C.format_offset (C.timezone t)) (Y.hm_full t)))
          (rw (parse_time-show_time now t h))

    date_back :
        (t : Option C.DateTime)
        → Each (λ t. IsWholeMinute (C.timezone t) × IsWholeSecond t) t
        → optional
            (full (text_of t C.format_datetime))
            (λ p. map_err invalid_expire_date_format (C.parse_datetime p))
          ≡ ok t
    date_back none h = refl
    date_back (some t) h =
        rw (full_of (C.format_datetime t) (Y.datetime_full t))
          (rw (Y.parse_datetime-format t h.0 h.1))

    ip-Lacks : (p : Option (IpPolicy I C)) → Lacks b',' (text_of p (show_ip_policy I C))
    unfolding show_ip_policy
    ip-Lacks none = tt
    ip-Lacks (some (allow n)) = X.lacks n
    ip-Lacks (some (deny n)) = (refl, X.lacks n)

    time-Lacks : (t : Option C.DateTime) → Lacks b',' (text_of t (show_time I C))
    time-Lacks none = tt
    time-Lacks (some t) =
        All-append (λ x. (x == b',') ≡ false) (C.format_hm t) _ (Y.hm_lacks t)
          (refl, Y.offset_lacks (C.timezone t))

    date-Lacks : (t : Option C.DateTime) → Lacks b',' (text_of t C.format_datetime)
    date-Lacks none = tt
    date-Lacks (some t) = Y.datetime_lacks t

    split-to_string :
        (ext : ExtendPolicy I C)
        → split b',' (to_string I C ext)
          ≡ text_of ext.ip_policy (show_ip_policy I C)
            ∷ text_of ext.start_time (show_time I C)
            ∷ text_of ext.end_time (show_time I C)
            ∷ text_of ext.expire_date C.format_datetime
            ∷ []
    unfolding to_string
    split-to_string ext =
        split-join b',' (text_of ext.ip_policy (show_ip_policy I C))
          (text_of ext.start_time (show_time I C)
            ∷ text_of ext.end_time (show_time I C)
            ∷ text_of ext.expire_date C.format_datetime
            ∷ [])
          (ip-Lacks ext.ip_policy)
          (time-Lacks ext.start_time, (time-Lacks ext.end_time, (date-Lacks ext.expire_date, tt)))

    from_str-to_string :
        (now : Clocks) (ext : ExtendPolicy I C)
        → IsPrintable now ext
        → from_str I C now (to_string I C ext)
          ≡ (check_times I C ext.start_time ext.end_time >>= λ _. ok ext)
    unfolding from_str
    from_str-to_string now ext h = rw (split-to_string ext) (
        rw (ip_back ext.ip_policy) (
          rw (time_back now.0 ext.start_time h.start) (
            rw (time_back now.1 ext.end_time h.end)
              (rw (date_back ext.expire_date h.expire) refl))))

    -- For an extension that its text can carry: what `serialize` writes parses back to it, and where
    -- `serialize` refuses with a message, the displayed text is refused by the parser with the same
    -- message, as a time consistency error.
    pub from_str-serialize :
        (now : Clocks) (ext : ExtendPolicy I C)
        → IsPrintable now ext
        → ((s : Text) → serialize I C ext ≡ ok s → from_str I C now s ≡ ok ext)
          × ((m : Text)
              → serialize I C ext ≡ err m
              → from_str I C now (to_string I C ext) ≡ err (time_consistency_error m))
    unfolding serialize check_times
    from_str-serialize now ext h =
        let back = from_str-to_string now ext h in
        elim (Option-cases (time_fault I C ext.start_time ext.end_time)) [
          | inl p ↦
              let done : from_str I C now (to_string I C ext) ≡ ok ext = ground arith in
              (
                λ s e. let same : to_string I C ext ≡ s = ground arith in rw (← same) done,
                λ m e. absurd (ground arith),
              )
          | inr (n, p) ↦ (λ s e. absurd (ground arith), λ m e. ground arith)
        ]
