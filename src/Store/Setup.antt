-- ===== src/Store/Setup.antt =====
-- What an administrator sets up, and the rules by which an action of the store leaves it as it was.
pub mod Logins
pub mod Tickets
pub mod Terminals
use thin_pi.Prelude.{
  ℕ, zero, suc, ◌+◌, ◌-◌, ◌*◌, ◌/◌, ◌%◌, ◌^◌, ◌≤◌, ◌<◌, max, String, ◌≡◌, refl, sym, ap, ◌∙◌, subst,
  ◌≢◌, ◌↔◌, ◌⊎◌, inl, inr, Bool, true, false, not, ◌&&◌, ◌||◌, Option, none, some, List, [], ◌∷◌,
  ◌++◌, map, arith, str_eq, str_eq_iff, ltb, leb, ◌==◌, if◌then◌else◌, ltb→lt, lt→ltb, leb→le,
  ==_iff, ==_refl, Bool-cases, Option-cases, &&_left, &&_right, is_some, length, length-append,
  find-All, map_option, find-update_where, any-true, find-append, any_weaken, count_where-append,
  count_where_none, find_sound, find-any, any-false, All-update_where, All-append, All-map, is_nil,
  find, take, any, select, count_where, update_where, All, Bytes, bytes, text_eq, text_lt,
  lower_byte, to_lower, is_space, trim_left, trim_space, contains_byte, contains_any, text_eq_iff,
  Result, ok, err, Exec, pure, raise, continue, ◌>>=◌, ◌>>◌, gets, modify, require, or_fail, lift,
  roll_back, transact, Result-cases,
}
use thin_pi.Policy.{AccessPolicy}
use thin_pi.Db.{Db, Action, Error, Connection, Group, Permission, Membership, Credential, Detail}
use thin_pi.Store.Audit.{audit, record_event}

-- The tables that say who may use which connection, with which credential and when, and the settings of
-- the terminals.
pub record Setup : Type 0 where
  pub connections : List Connection
  pub groups : List Group
  pub user_permissions : List Permission
  pub group_permissions : List Permission
  pub user_groups : List Membership
  pub credentials : List Credential
  pub policies : List AccessPolicy
  pub terminal_theme : Option String
  pub screen_sleep_minutes : ℕ
  pub show_user_list : Bool
  pub client_theme : String

unfoldable pub setup : Db → Setup
setup db = record {
  connections = db.connections;
  groups = db.groups;
  user_permissions = db.user_permissions;
  group_permissions = db.group_permissions;
  user_groups = db.user_groups;
  credentials = db.credentials;
  policies = db.policies;
  terminal_theme = db.terminal_theme;
  screen_sleep_minutes = db.screen_sleep_minutes;
  show_user_list = db.show_user_list;
  client_theme = db.client_theme;
}

-- The rules are for a state with the setup `v`.
module _ {v : Setup} where
  pub continue-setup :
      {A B : Type 0} (r : Result Error A × Db) (f : A → Action B)
      → setup r.1 ≡ v
      → ((a : A) (db : Db) → setup db ≡ v → setup (f a db).1 ≡ v)
      → setup (continue r f).1 ≡ v
  continue-setup (ok a, db) f h k = k a db h
  continue-setup (err e, db) f h k = h

  pub roll_back-setup :
      {A : Type 0} (db : Db) (r : Result Error A × Db)
      → setup db ≡ v
      → setup r.1 ≡ v
      → setup (roll_back db r).1 ≡ v
  roll_back-setup db (ok a, t) h k = k
  roll_back-setup db (err e, t) h k = h

  pub require-setup : (b : Bool) (e : Error) (db : Db) → setup db ≡ v → setup (require b e db).1 ≡ v
  require-setup true e db h = h
  require-setup false e db h = h

  pub or_fail-setup :
      {A : Type 0} (o : Option A) (e : Error) (db : Db)
      → setup db ≡ v
      → setup (or_fail o e db).1 ≡ v
  or_fail-setup none e db h = h
  or_fail-setup (some a) e db h = h

  pub if-setup :
      {A : Type 0} (b : Bool) (m n : A × Db)
      → setup m.1 ≡ v
      → setup n.1 ≡ v
      → setup (if b then m else n).1 ≡ v
  if-setup true m n h k = h
  if-setup false m n h k = k

  pub audit-setup :
      (now : ℕ) (user device : Option ℕ) (event : String) (connection : Option ℕ) (source : Bytes)
      (result : String) (metadata : Detail) (db : Db)
      → setup db ≡ v
      → setup (audit now user device event connection source result metadata db).1 ≡ v
  unfolding audit record_event setup
  audit-setup now user device event connection source result metadata db h = ground arith

pub ruleset setup_rules =
    (continue-setup, roll_back-setup, require-setup, or_fail-setup, if-setup, audit-setup)
