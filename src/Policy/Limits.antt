-- ===== src/Policy/Limits.antt =====
-- How long a session may last.
use thin_pi.Prelude.{ℕ, ◌+◌, ◌*◌, ◌≤◌, ◌<◌, ◌≡◌, ◌⊎◌, true, arith}
use thin_pi.Policy.{AccessPolicy, Zone, effective_max, evaluate, verdict}

-- Where a policy allows a launch, the session's limit in seconds is 0, which means none, only if
-- the policy sets neither limit; it keeps the session inside the configured length and what is
-- left of the day's allowance, and it is one of these two.
pub evaluate_limit :
    (p : AccessPolicy) (z : Zone) (now used : ℕ)
    → let st = evaluate p z now used in
      st.allowed ≡ true
      → ((st.effective_max_seconds ≡ 0) → (p.daily_limit_minutes ≡ 0) × (p.max_session_minutes ≡ 0))
        × (0 < p.daily_limit_minutes → used + st.effective_max_seconds ≤ p.daily_limit_minutes * 60)
        × (0 < p.max_session_minutes → st.effective_max_seconds ≤ p.max_session_minutes * 60)
        × ((st.effective_max_seconds ≡ p.max_session_minutes * 60)
            ⊎ (st.effective_max_seconds + used ≡ p.daily_limit_minutes * 60))
unfolding evaluate verdict effective_max
evaluate_limit p z now used h = (ground arith, ground arith, ground arith, ground arith)
