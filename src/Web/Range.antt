-- ===== src/Web/Range.antt =====
-- controller/internal/web/server.go: the bounds of the access policies, and the rules by which an action
-- keeps every stored policy within them.
pub mod Creation
pub mod Changes
pub mod Requests
pub mod Timeouts
use thin_pi.Prelude.{
  ℕ, zero, suc, ◌+◌, ◌-◌, ◌*◌, ◌/◌, ◌%◌, ◌^◌, ◌≤◌, ◌<◌, max, String, ◌≡◌, refl, sym, ap, ◌∙◌, subst,
  ◌≢◌, ◌↔◌, ◌⊎◌, inl, inr, Bool, true, false, not, ◌&&◌, ◌||◌, Option, none, some, List, [], ◌∷◌,
  ◌++◌, map, arith, str_eq, str_eq_iff, ltb, leb, ◌==◌, if◌then◌else◌, ltb→lt, lt→ltb, leb→le,
  ==_iff, ==_refl, Bool-cases, Option-cases, &&_left, &&_right, is_some, length, length-append,
  find-All, map_option, find-update_where, any-true, find-append, any_weaken, count_where-append,
  count_where_none, find_sound, find-any, any-false, All-update_where, All-append, All-map, is_nil,
  find, take, any, select, count_where, update_where, All, Bytes, bytes, text_eq, text_lt,
  lower_byte, to_lower, is_space, trim_left, trim_space, contains_byte, contains_any, text_eq_iff,
  Result, ok, err, Exec, pure, raise, continue, ◌>>=◌, ◌>>◌, gets, modify, require, or_fail, lift,
  roll_back, transact, Result-cases,
}
use thin_pi.Policy.{AccessPolicy}
use thin_pi.Db.{Db, Action, Error, Detail}
use thin_pi.Store.Audit.{audit, record_event}
use thin_pi.Web.Update.{policy_in_range}

-- No stored policy is out of range.
unfoldable pub in_range : Db → Bool
unfolding any policy_in_range
in_range db = not (any (λ p. not (policy_in_range p)) db.policies)

pub continue-in_range :
    {A B : Type 0} (r : Result Error A × Db) (f : A → Action B)
    → in_range r.1 ≡ true
    → ((a : A) (db : Db) → in_range db ≡ true → in_range (f a db).1 ≡ true)
    → in_range (continue r f).1 ≡ true
continue-in_range (ok a, db) f h k = k a db h
continue-in_range (err e, db) f h k = h

pub require-in_range :
    (b : Bool) (e : Error) (db : Db) → in_range db ≡ true → in_range (require b e db).1 ≡ true
require-in_range true e db h = h
require-in_range false e db h = h

pub or_fail-in_range :
    {A : Type 0} (o : Option A) (e : Error) (db : Db)
    → in_range db ≡ true
    → in_range (or_fail o e db).1 ≡ true
or_fail-in_range none e db h = h
or_fail-in_range (some a) e db h = h

pub if-in_range :
    {A : Type 0} (b : Bool) (m n : A × Db)
    → in_range m.1 ≡ true
    → in_range n.1 ≡ true
    → in_range (if b then m else n).1 ≡ true
if-in_range true m n h k = h
if-in_range false m n h k = k

pub audit-in_range :
    (now : ℕ) (user device : Option ℕ) (event : String) (connection : Option ℕ) (source : Bytes)
    (result : String) (metadata : Detail) (db : Db)
    → in_range db ≡ true
    → in_range (audit now user device event connection source result metadata db).1 ≡ true
unfolding audit record_event in_range
audit-in_range now user device event connection source result metadata db h = ground arith

pub ruleset range_rules =
    (continue-in_range, require-in_range, or_fail-in_range, if-in_range, audit-in_range)
