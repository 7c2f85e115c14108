-- ===== src/Policy.antt =====
-- controller/internal/app/store.go, `PolicyStatus`: whether a user may launch now, and for how long;
-- controller/internal/app/types.go, `AccessPolicy` and `PolicyStatus`.
-- The zone database is no part of the program: a zone gives the wall clock at an instant, as the
-- seconds since 1970-01-01T00:00 of that clock, and the instant of the last local midnight.
-- `int(ended.Sub(started).Seconds())` goes through a float64; here it is the whole seconds.
-- The reason is kept as data, without the English text around it.
pub mod Window
pub mod Limits
use thin_pi.Prelude.{
  ℕ, zero, suc, ◌+◌, ◌-◌, ◌*◌, ◌/◌, ◌%◌, ◌^◌, ◌≤◌, ◌<◌, max, String, ◌≡◌, refl, sym, ap, ◌∙◌, subst,
  ◌≢◌, ◌↔◌, ◌⊎◌, inl, inr, Bool, true, false, not, ◌&&◌, ◌||◌, Option, none, some, List, [], ◌∷◌,
  ◌++◌, map, arith, str_eq, str_eq_iff, ltb, leb, ◌==◌, if◌then◌else◌, ltb→lt, lt→ltb, leb→le,
  ==_iff, ==_refl, Bool-cases, Option-cases, &&_left, &&_right, is_some, length, length-append,
  is_nil, find, any, select, count_where, update_where, All, Bytes, bytes, text_eq, text_lt,
  lower_byte, to_lower, is_space, trim_left, trim_space, contains_byte, contains_any, text_eq_iff,
  Result, ok, err, Exec, pure, raise, continue, ◌>>=◌, ◌>>◌, gets, modify, require, or_fail, lift,
  roll_back, transact,
}
use thin_pi.Stamp.{Stamp, stamp_lt, stamp, parse_stamp, second}

pub record Zone : Type 0 where
  pub wall : ℕ → ℕ
  pub midnight : ℕ → ℕ

pub record AccessPolicy : Type 0 where
  pub user_id : ℕ
  pub timezone : String
  pub allowed_days_mask : ℕ
  pub access_start_minute : ℕ
  pub access_end_minute : ℕ
  pub daily_limit_minutes : ℕ
  pub max_session_minutes : ℕ
  pub idle_logout_minutes : ℕ

pub data Reason : Type 0 where
  no_reason : Reason
  wrong_day : ℕ → Reason
  outside_window : ℕ → ℕ → Reason
  allowance_used : Reason

pub record PolicyStatus : Type 0 where
  pub allowed : Bool
  pub reason : Reason
  pub timezone : String
  pub daily_used_minutes : ℕ
  pub daily_limit_minutes : ℕ
  pub max_session_minutes : ℕ
  pub effective_max_seconds : ℕ
  pub idle_logout_minutes : ℕ

-- A row of session_usage.
pub record Usage : Type 0 where
  pub ticket_id : ℕ
  pub user_id : ℕ
  pub device_id : ℕ
  pub connection_id : ℕ
  pub started_at : Stamp
  pub ended_at : Option Stamp
  pub duration_seconds : ℕ

-- local.Weekday(), 0 for Sunday: 1970-01-01 was a Thursday.
unfoldable pub weekday : Zone → ℕ → ℕ
weekday z now = (z.wall now / 86400 + 4) % 7

-- local.Hour()*60 + local.Minute()
unfoldable pub minute_of_day : Zone → ℕ → ℕ
minute_of_day z now = z.wall now % 86400 / 60

-- AllowedDaysMask & (1 << ((weekday + 6) % 7)) != 0
unfoldable pub day_allowed : ℕ → ℕ → Bool
day_allowed mask day = mask / 2 ^ ((day + 6) % 7) % 2 == 1

unfoldable pub in_window : ℕ → ℕ → ℕ → Bool
in_window start end now =
    let whole = start == 0 && end == 1440 in
    if not whole && ltb start end
    then leb start now && ltb now end
    else if not whole && ltb end start
    then leb start now || ltb now end
    else whole

-- One row of the loop; a row that is still open lasts until now.
unfoldable pub row_seconds : ℕ → Usage → ℕ
unfolding parse_stamp
row_seconds now u =
    let started = parse_stamp u.started_at in
    let ended : ℕ = elim u.ended_at [ none ↦ now | some e ↦ parse_stamp e ] in
    if ltb started ended then (ended - started) / second else 0

unfoldable pub used_seconds : ℕ → List Usage → ℕ
unfolding row_seconds
used_seconds now [] = 0
used_seconds now (u ∷ us) = row_seconds now u + used_seconds now us

-- The rows of SELECT ... FROM session_usage WHERE user_id=? AND started_at>=?
unfoldable pub usage_today : ℕ → Stamp → List Usage → List Usage
unfolding select stamp_lt
usage_today user start = select (λ u. u.user_id == user && not (stamp_lt u.started_at start))

-- remainingSeconds, where what has run over the limit counts as 0: the code tests only whether it
-- is positive.
unfoldable pub remaining_seconds : ℕ → ℕ → ℕ
remaining_seconds limit used = if ltb 0 limit then limit * 60 - used else 0

unfoldable pub effective_max : ℕ → ℕ → ℕ
effective_max session_minutes remaining =
    let session : ℕ = if ltb 0 session_minutes then session_minutes * 60 else 0 in
    if ltb 0 remaining && (session == 0 || ltb remaining session) then remaining else session

-- The three tests in order; the first that fails gives the reason.
unfoldable pub verdict : AccessPolicy → ℕ → ℕ → ℕ → Reason
unfolding day_allowed in_window remaining_seconds
verdict p day now used =
    if not (day_allowed p.allowed_days_mask day)
    then wrong_day day
    else if not (in_window p.access_start_minute p.access_end_minute now)
    then outside_window p.access_start_minute p.access_end_minute
    else if ltb 0 p.daily_limit_minutes && (remaining_seconds p.daily_limit_minutes used == 0)
    then allowance_used
    else no_reason

abbrev pub is_allowed : Reason → Bool
is_allowed no_reason = true
is_allowed _ = false

-- PolicyStatus, once the policy, the zone and the day's usage have been read.
unfoldable pub evaluate : AccessPolicy → Zone → ℕ → ℕ → PolicyStatus
unfolding verdict effective_max weekday minute_of_day
evaluate p z now used =
    let why = verdict p (weekday z now) (minute_of_day z now) used in
    record {
      allowed = is_allowed why;
      reason = why;
      timezone = p.timezone;
      daily_used_minutes = (used + 59) / 60;
      daily_limit_minutes = p.daily_limit_minutes;
      max_session_minutes = p.max_session_minutes;
      effective_max_seconds =
          effective_max p.max_session_minutes (remaining_seconds p.daily_limit_minutes used);
      idle_logout_minutes = p.idle_logout_minutes;
    }
