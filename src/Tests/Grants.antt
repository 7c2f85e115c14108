-- ===== src/Tests/Grants.antt =====
-- Policies, the times of the household, and what its accounts may do.
use thin_pi.Prelude.{
  ℕ, ◌+◌, ◌-◌, ◌*◌, ◌%◌, ◌≤◌, ◌<◌, ◌≡◌, refl, ◌↔◌, ◌⊎◌, true, arith, ltb, ◌==◌, any, count_where,
}
use thin_pi.Stamp.{second, minute, stamp, stamp_lt}
use thin_pi.Stamp.RoundTrip.{parse_stamp-stamp}
use thin_pi.Stamp.Order.{stamp_lt-whole_second}
use thin_pi.Stamp.{parse_stamp}
use thin_pi.Policy.{in_window, evaluate, verdict, day_allowed, weekday, minute_of_day}
use thin_pi.Policy.Window.{in_window_arc, evaluate_allowed}
use thin_pi.Policy.Limits.{evaluate_limit}
use thin_pi.Store.Access.{connections_for_user, can_launch}
use thin_pi.Store.Access.Grants.{connections_for_user-can_launch}
use thin_pi.Tests.World.{home, utc, school_nights}

parse_stamp-stamp_example : parse_stamp (stamp (minute + 20)) ≡ minute + 20
parse_stamp-stamp_example = parse_stamp-stamp (minute + 20)

stamp_lt-whole_second_example : stamp_lt (stamp (3 * second + 5)) (stamp (3 * second)) ≡ true
stamp_lt-whole_second_example = stamp_lt-whole_second 3 5 (omega arith) (omega arith)

-- From ten in the evening to six in the morning, at midnight.
in_window_arc_example :
    in_window 1320 360 0 ≡ ltb ((0 + 1440 - 1320) % 1440) ((360 + 1440 - 1320) % 1440)
in_window_arc_example =
    in_window_arc 1320 360 0 (omega arith) (omega arith) (omega arith) (omega arith)
      (λ whole. omega (arith, whole.0))

abbrev eight_am : ℕ
eight_am = 8 * 60 * minute

evaluate_allowed_example : ((evaluate school_nights utc eight_am 600).allowed ≡ true) ↔ (
    (day_allowed 31 (weekday utc eight_am) ≡ true)
    × (in_window 420 1260 (minute_of_day utc eight_am) ≡ true)
    × ((school_nights.daily_limit_minutes ≡ 0) ⊎ (600 < 60 * 60)))
evaluate_allowed_example = evaluate_allowed school_nights utc eight_am 600

evaluate_limit_example :
    (((evaluate school_nights utc eight_am 600).effective_max_seconds ≡ 0)
      → (school_nights.daily_limit_minutes ≡ 0) × (school_nights.max_session_minutes ≡ 0))
    × (0 < school_nights.daily_limit_minutes
        → 600 + (evaluate school_nights utc eight_am 600).effective_max_seconds ≤ 60 * 60)
    × (0 < school_nights.max_session_minutes
        → (evaluate school_nights utc eight_am 600).effective_max_seconds ≤ 30 * 60)
    × (((evaluate school_nights utc eight_am 600).effective_max_seconds ≡ 30 * 60)
        ⊎ ((evaluate school_nights utc eight_am 600).effective_max_seconds + 600 ≡ 60 * 60))
unfolding evaluate verdict day_allowed weekday minute_of_day in_window
evaluate_limit_example = evaluate_limit school_nights utc eight_am 600 refl

connections_for_user-can_launch_example :
    (any (λ c. c.id == 1) (connections_for_user home 1) ≡ can_launch home 1 1)
    × (count_where (λ c. c.id == 1) (connections_for_user home 1) ≤ 1)
connections_for_user-can_launch_example = connections_for_user-can_launch home 1 1
