-- ===== src/Store/Access/Idle.antt =====
-- The idle timeout of a session.
use thin_pi.Prelude.{
  ℕ, ◌*◌, ◌/◌, ◌≤◌, ◌≡◌, refl, Bool, Option, none, some, List, arith, ◌==◌, find-All, find, All,
}
use thin_pi.Stamp.{minute}
use thin_pi.Db.{Db, Config}
use thin_pi.Policy.{AccessPolicy}
use thin_pi.Store.Access.{idle_minutes, policy_minutes, user_idle_timeout}

abbrev InRange : Option AccessPolicy → Type 0
InRange none = Unit
InRange (some p) = (1 ≤ p.idle_logout_minutes) × (p.idle_logout_minutes ≤ 1440)

found-InRange :
    (q : AccessPolicy → Bool) (ps : List AccessPolicy)
    → All (λ p. (1 ≤ p.idle_logout_minutes) × (p.idle_logout_minutes ≤ 1440)) ps
    → (o : Option AccessPolicy) → find q ps ≡ o
    → InRange o
found-InRange q ps h none e = tt
found-InRange q ps h (some p) e =
    find-All (λ p. (1 ≤ p.idle_logout_minutes) × (p.idle_logout_minutes ≤ 1440)) q ps h p e

idle_minutes_bounds :
    (fallback : ℕ) (o : Option AccessPolicy)
    → InRange o
    → (1 ≤ idle_minutes fallback (policy_minutes o))
      × (idle_minutes fallback (policy_minutes o) ≤ 1440)
unfolding idle_minutes policy_minutes
idle_minutes_bounds fallback none h = ground arith
idle_minutes_bounds fallback (some p) h = ground arith

-- If the minutes of every policy are in the range that the schema checks, the timeout of every
-- user lies between one minute and one day.
pub user_idle_timeout_bounds :
    (cfg : Config) (db : Db) (user : ℕ)
    → All (λ p. (1 ≤ p.idle_logout_minutes) × (p.idle_logout_minutes ≤ 1440)) db.policies
    → (minute ≤ user_idle_timeout cfg db user) × (user_idle_timeout cfg db user ≤ 1440 * minute)
unfolding user_idle_timeout
user_idle_timeout_bounds cfg db user h =
    let o = find (λ p. p.user_id == user) db.policies in
    let b =
      idle_minutes_bounds (cfg.session_idle / minute) o (found-InRange _ db.policies h o refl) in
    (omega (arith, b), omega (arith, b))
