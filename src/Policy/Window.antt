-- ===== src/Policy/Window.antt =====
-- The access window, and the three tests of a policy.
use thin_pi.Prelude.{ℕ, ◌+◌, ◌-◌, ◌*◌, ◌%◌, ◌≤◌, ◌<◌, ◌≡◌, refl, ◌↔◌, ◌⊎◌, true, arith, ltb}
use thin_pi.Policy.{
  AccessPolicy, Zone, weekday, minute_of_day, day_allowed, in_window, verdict, evaluate,
}

-- For the bounds that a policy may have (start 0 to 1439, end 1 to 1440) other than the whole day,
-- a minute is in the window exactly if it lies less than the window's length after the start, on
-- the clock of 1440 minutes.
pub in_window_arc :
    (start end now : ℕ)
    → start < 1440
    → 0 < end
    → end ≤ 1440
    → now < 1440
    → ¬ ((start ≡ 0) × (end ≡ 1440))
    → in_window start end now ≡ ltb ((now + 1440 - start) % 1440) ((end + 1440 - start) % 1440)
unfolding in_window
in_window_arc start end now hs he ht hn part = ground arith

-- Every minute lies in the window of the whole day.
pub in_window_whole : (now : ℕ) → in_window 0 1440 now ≡ true
unfolding in_window
in_window_whole now = refl

-- A policy allows an instant exactly if the local day is in the mask, the local minute is in the
-- window, and either there is no daily limit or less than it has been used.
pub evaluate_allowed :
    (p : AccessPolicy) (z : Zone) (now used : ℕ)
    → ((evaluate p z now used).allowed ≡ true) ↔ (
        (day_allowed p.allowed_days_mask (weekday z now) ≡ true)
        × (in_window p.access_start_minute p.access_end_minute (minute_of_day z now) ≡ true)
        × ((p.daily_limit_minutes ≡ 0) ⊎ (used < p.daily_limit_minutes * 60)))
unfolding evaluate verdict
evaluate_allowed p z now used = ground arith
