-- ===== src/Store/Access.antt =====
-- store.go, who may launch what: `CanLaunch`, `ConnectionsForUser`, `AccessPolicy`, `PolicyStatus`,
-- `UserIdleTimeout`, and the credential that a launch is given.
pub mod Grants
pub mod Idle
use thin_pi.Prelude.{
  int_ltb, int_eq, ℕ, zero, suc, ◌+◌, ◌-◌, ◌*◌, ◌/◌, ◌%◌, ◌^◌, ◌≤◌, ◌<◌, max, String, ◌≡◌, refl,
  sym, ap, ◌∙◌, subst, ◌≢◌, ◌↔◌, ◌⊎◌, inl, inr, Bool, true, false, not, ◌&&◌, ◌||◌, Option, none,
  some, List, [], ◌∷◌, ◌++◌, map, arith, str_eq, str_eq_iff, ltb, leb, ◌==◌, if◌then◌else◌, ltb→lt,
  lt→ltb, leb→le, ==_iff, ==_refl, Bool-cases, Option-cases, &&_left, &&_right, is_some, length,
  length-append, is_nil, find, any, select, count_where, update_where, All, Bytes, bytes, text_eq,
  text_lt, lower_byte, to_lower, is_space, trim_left, trim_space, contains_byte, contains_any,
  text_eq_iff, Result, ok, err, Exec, pure, raise, continue, ◌>>=◌, ◌>>◌, gets, modify, require,
  or_fail, lift, roll_back, transact,
}
use thin_pi.Stamp.{Stamp, stamp, minute}
use thin_pi.Policy.{AccessPolicy, PolicyStatus, evaluate, usage_today, used_seconds, Zone}
use thin_pi.Db.{
  Db, Action, read, Config, Connection, Permission, Membership, invalid_timezone, Error,
}

-- EXISTS(SELECT 1 FROM user_groups WHERE user_id=? AND group_id=?)
unfoldable pub in_group : Db → ℕ → ℕ → Bool
unfolding any
in_group db user group = any (λ m. m.user_id == user && m.group_id == group) db.user_groups

-- The two EXISTS of `CanLaunch`, which RedeemLaunchTicket tests again.
unfoldable pub permitted : Db → ℕ → ℕ → Bool
unfolding any in_group
permitted db user connection =
    any (λ p. p.subject_id == user && p.connection_id == connection && p.can_launch)
      db.user_permissions
    || any (λ p. in_group db user p.subject_id && p.connection_id == connection && p.can_launch)
        db.group_permissions

unfoldable pub can_launch : Db → ℕ → ℕ → Bool
unfolding any permitted
can_launch db user connection =
    any (λ c. c.id == connection && (c.enabled && permitted db user c.id)) db.connections

-- ORDER BY c.sort_order,c.name
unfoldable pub before : Connection → Connection → Bool
unfolding text_lt int_ltb int_eq
before a b =
    int_ltb a.sort_order b.sort_order
    || (int_eq a.sort_order b.sort_order && not (text_lt b.name a.name))

unfoldable pub insert_sorted : Connection → List Connection → List Connection
unfolding before
insert_sorted c [] = c ∷ []
insert_sorted c (d ∷ ds) = if before c d then c ∷ d ∷ ds else d ∷ insert_sorted c ds

unfoldable pub sort_connections : List Connection → List Connection
unfolding insert_sorted
sort_connections [] = []
sort_connections (c ∷ cs) = insert_sorted c (sort_connections cs)

-- The rows that a LEFT JOIN gives for the matches of one row: NULL if there are none.
unfoldable pub or_null {ℓ} : {A : Type ℓ} → List A → List (Option A)
or_null [] = none ∷ []
or_null (y ∷ ys) = some y ∷ map some ys

unfoldable pub left_join {ℓ₁ ℓ₂} :
    {A : Type ℓ₁} {B : Type ℓ₂} → (A → B → Bool) → List B → List A → List (A × Option B)
unfolding or_null select
left_join on ys [] = []
left_join on ys (x ∷ xs) = map (λ y. (x, y)) (or_null (select (on x) ys)) ++ left_join on ys xs

-- A row of connections c, user_connection_permissions up, group_connection_permissions gp and
-- user_groups ug.
abbrev pub JoinedRow : Type 0
JoinedRow = ((Connection × Option Permission) × Option Permission) × Option Membership

-- ug.group_id=gp.group_id AND ug.user_id=?
abbrev pub of_group : ℕ → Option Permission → Membership → Bool
of_group user none m = false
of_group user (some gp) m = m.group_id == gp.subject_id && m.user_id == user

unfoldable pub joined_rows : Db → ℕ → List JoinedRow
unfolding left_join
joined_rows db user =
    left_join (λ row m. of_group user row.1 m) db.user_groups
      (left_join (λ row gp. gp.connection_id == row.0.id) db.group_permissions
        (left_join (λ (c : Connection) up. up.connection_id == c.id && up.subject_id == user)
          db.user_permissions db.connections))

abbrev pub launches : Option Permission → Bool
launches none = false
launches (some p) = p.can_launch

-- c.enabled=1 AND ((up.can_launch=1) OR (gp.can_launch=1 AND ug.user_id IS NOT NULL))
abbrev pub row_launches : JoinedRow → Bool
row_launches (((c, up), gp), ug) = c.enabled && (launches up || (launches gp && is_some ug))

abbrev pub row_connection : JoinedRow → Connection
row_connection row = row.0.0.0

-- DISTINCT; the columns are those of one row of connections, whose key is the id.
unfoldable pub distinct : List Connection → List Connection
unfolding any
distinct [] = []
distinct (c ∷ cs) =
    let rest = distinct cs in if any (λ d. d.id == c.id) rest then rest else c ∷ rest

unfoldable pub connections_for_user : Db → ℕ → List Connection
unfolding select sort_connections joined_rows distinct
connections_for_user db user =
    sort_connections (distinct (map row_connection (select row_launches (joined_rows db user))))

-- The policy that holds for a user with no row in user_policies.
abbrev pub default_policy : ℕ → AccessPolicy
default_policy user = record {
  user_id = user;
  timezone = "Australia/Sydney";
  allowed_days_mask = 127;
  access_start_minute = 0;
  access_end_minute = 1440;
  daily_limit_minutes = 0;
  max_session_minutes = 0;
  idle_logout_minutes = 30;
}

abbrev pub or_else {ℓ} : {A : Type ℓ} → Option A → A → A
or_else none d = d
or_else (some a) d = a

unfoldable pub access_policy : Db → ℕ → AccessPolicy
unfolding find
access_policy db user = or_else (find (λ p. p.user_id == user) db.policies) (default_policy user)

unfoldable pub status_in : Db → ℕ → ℕ → AccessPolicy → Zone → PolicyStatus
unfolding usage_today used_seconds evaluate stamp
status_in db user now p z =
    evaluate p z now (used_seconds now (usage_today user (stamp (z.midnight now)) db.session_usage))

unfoldable pub policy_status : Config → Db → ℕ → ℕ → Result Error PolicyStatus
unfolding access_policy status_in
policy_status cfg db user now =
    let p = access_policy db user in
    elim (cfg.zones p.timezone) [
      | none ↦ err invalid_timezone
      | some z ↦ ok (status_in db user now p z)
    ]

-- The minutes of `UserIdleTimeout`: 30 if no row is found, and the configured time in place of
-- minutes that are missing or out of range, if that is in range itself.
unfoldable pub idle_minutes : ℕ → Option ℕ → ℕ
idle_minutes fallback row =
    let minutes : ℕ = or_else row 30 in
    if not (is_some row) || ltb minutes 1 || ltb 1440 minutes
    then (if leb 1 fallback && leb fallback 1440 then fallback else minutes)
    else minutes

unfoldable pub policy_minutes : Option AccessPolicy → Option ℕ
policy_minutes none = none
policy_minutes (some p) = some p.idle_logout_minutes

-- UserIdleTimeout, in nanoseconds
unfoldable pub user_idle_timeout : Config → Db → ℕ → ℕ
unfolding idle_minutes find policy_minutes
user_idle_timeout cfg db user =
    idle_minutes (cfg.session_idle / minute)
      (policy_minutes (find (λ p. p.user_id == user) db.policies))
    * minute

-- ORDER BY gp.group_id LIMIT 1
unfoldable pub least_group : List Permission → Option Permission
least_group [] = none
least_group (p ∷ ps) = elim (least_group ps) [
  | none ↦ some p
  | some q ↦ if leb p.subject_id q.subject_id then some p else some q
]

abbrev credential_of : Option Permission → Option ℕ
credential_of none = none
credential_of (some p) = p.credential_id

abbrev pub coalesce {ℓ} : {A : Type ℓ} → Option A → Option A → Option A
coalesce none b = b
coalesce (some a) b = some a

-- COALESCE(the user's credential, that of the first group that has one, the connection's)
unfoldable pub launch_credential : Db → ℕ → Connection → Option ℕ
unfolding find select least_group in_group
launch_credential db user c =
    coalesce
      (credential_of (
        find
          (λ p.
            p.subject_id == user
            && p.connection_id == c.id
            && p.can_launch
            && is_some p.credential_id)
          db.user_permissions))
      (coalesce
        (credential_of (
          least_group (
            select
              (λ p.
                in_group db user p.subject_id
                && p.connection_id == c.id
                && p.can_launch
                && is_some p.credential_id)
              db.group_permissions)))
        c.credential_id)
