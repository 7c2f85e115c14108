-- ===== src/Store/Sessions.antt =====
-- store.go, the users' sessions: `Session`, `Logout` and `Authenticate`.
pub mod Expiry
pub mod Login
use thin_pi.Prelude.{
  ℕ, zero, suc, ◌+◌, ◌-◌, ◌*◌, ◌/◌, ◌%◌, ◌^◌, ◌≤◌, ◌<◌, max, String, ◌≡◌, refl, sym, ap, ◌∙◌, subst,
  ◌≢◌, ◌↔◌, ◌⊎◌, inl, inr, Bool, true, false, not, ◌&&◌, ◌||◌, Option, none, some, List, [], ◌∷◌,
  ◌++◌, map, arith, str_eq, str_eq_iff, ltb, leb, ◌==◌, if◌then◌else◌, ltb→lt, lt→ltb, leb→le,
  ==_iff, ==_refl, Bool-cases, Option-cases, &&_left, &&_right, is_some, length, length-append,
  find-All, any-true, find-append, any_weaken, count_where-append, count_where_none, find_sound,
  find-any, any-false, All-update_where, All-append, All-map, is_nil, find, any, select,
  count_where, update_where, All, Bytes, bytes, text_eq, text_lt, lower_byte, to_lower, is_space,
  trim_left, trim_space, contains_byte, contains_any, text_eq_iff, Result, ok, err, Exec, pure,
  raise, continue, ◌>>=◌, ◌>>◌, gets, modify, require, or_fail, lift, roll_back, transact,
  Result-cases,
}
use thin_pi.Stamp.{Stamp, stamp, stamp_lt, parse_stamp, minute}
use thin_pi.Db.{
  Db, Action, Error, read, Config, User, UserRow, SessionRow, Session, LoginAttempt, unauthorised,
  rate_limited, random_failed, constraint_failed, invalid_profile, invalid_password, no_rows,
  no_detail, same_name, has_user,
}
use thin_pi.Store.Audit.{audit}
use thin_pi.Store.Access.{user_idle_timeout}

-- JOIN users u ON u.id=s.user_id WHERE s.token_hash=?
abbrev pub user_with : Db → ℕ → Option UserRow
user_with db id = find (λ u. u.id == id) db.users

abbrev pub session_with : Db → String → Option SessionRow
session_with db hash =
    find (λ s. str_eq s.token_hash hash && is_some (user_with db s.user_id)) db.sessions

unfoldable pub touch_session : ℕ → Stamp → Stamp → Db → Db
unfolding update_where
touch_session id seen expires db = record db {
  sessions =
      update_where (λ s. s.id == id) (λ s. record s { last_seen_at = seen; expires_at = expires })
        db.sessions;
}

-- The checks on a row, and the slide of its expiry.
unfoldable pub admit_session : Config → ℕ → ℕ → SessionRow → UserRow → Action Session
admit_session cfg now later row u = do
  require (not (is_some row.revoked_at) && u.enabled) unauthorised
  require (ltb now (parse_stamp row.expires_at)) unauthorised
  db ← read
  modify (touch_session row.id (stamp later) (stamp (later + user_idle_timeout cfg db u.id)))
  pure (record { id = row.id; user = u.user; csrf_hash = row.csrf_hash })

-- Session: `now` is read for the expiry, `later` for the stamps.
unfoldable pub session : Config → String → ℕ → ℕ → Action Session
session cfg token now later db =
    if str_eq token ""
    then (err unauthorised, db)
    else (do
      row ← or_fail (session_with db (cfg.token_hash token)) unauthorised
      u ← or_fail (user_with db row.user_id) unauthorised
      admit_session cfg now later row u)
        db

unfoldable pub revoke_where : (SessionRow → Bool) → Stamp → Db → Db
unfolding update_where
revoke_where p at db = record db {
  sessions = update_where p (λ s. record s { revoked_at = some at }) db.sessions;
}

-- Logout
unfoldable pub logout : ℕ → ℕ → Bytes → ℕ → Action (Unit {0})
unfolding revoke_where audit
logout id user source now = do
  modify (revoke_where (λ s. s.id == id) (stamp now))
  audit now (some user) none "logout" none source "success" no_detail

-- INSERT INTO sessions: token_hash is UNIQUE and user_id a foreign key.
unfoldable pub insert_session : String → String → ℕ → ℕ → ℕ → Action (Unit {0})
unfolding any has_user
insert_session token_hash csrf_hash user now idle db =
    if any (λ s. str_eq s.token_hash token_hash) db.sessions || not (has_user db user)
    then (err constraint_failed, db)
    else (
      ok tt,
      record db {
        sessions =
            db.sessions
            ++ (record {
              id = db.next_session;
              token_hash = token_hash;
              csrf_hash = csrf_hash;
              user_id = user;
              expires_at = stamp (now + idle);
              last_seen_at = stamp now;
              revoked_at = none;
              created_at = stamp now;
            }
                ∷ []);
        next_session = suc db.next_session;
      },
    )

abbrev pub ten_minutes : ℕ
ten_minutes = 10 * minute

abbrev pub login_key : Bytes → Bytes → Bytes
login_key username source = to_lower (trim_space username) ++ (b'|' ∷ source)

unfoldable pub recent_failures : Bytes → ℕ → Db → ℕ
unfolding count_where text_eq stamp_lt stamp
recent_failures key now db =
    count_where
      (λ a.
        text_eq a.source_key key
        && (not a.success && stamp_lt (stamp (now - ten_minutes)) a.attempted_at))
      db.login_attempts

unfoldable pub log_attempt : Bytes → ℕ → Bool → Db → Db
log_attempt key now valid db = record db {
  login_attempts =
      db.login_attempts
      ++ (record { source_key = key; attempted_at = stamp now; success = valid } ∷ []);
}

unfoldable pub mark_login : ℕ → ℕ → Db → Db
unfolding update_where
mark_login id now db = record db {
  users =
      update_where (λ u. u.id == id)
        (λ u. record u { last_login_at = some (stamp now); updated_at = stamp now }) db.users;
}

-- The rest of `Authenticate` for a user whose password was right.
unfoldable pub open_session :
    Config → UserRow → Bytes → ℕ → Option String → Option String → Action (String × String × User)
open_session cfg u source now token csrf = do
  tok ← or_fail token random_failed
  form ← or_fail csrf random_failed
  db ← read
  insert_session (cfg.token_hash tok) (cfg.token_hash form) u.id now (user_idle_timeout cfg db u.id)
  modify (mark_login u.id now)
  audit now (some u.id) none "login_success" none source "success" no_detail
  pure (tok, form, u.user)

-- A user of the name, if the account is enabled and the password is right.
abbrev pub accepts : Config → Option UserRow → Bytes → Option UserRow
accepts cfg none password = none
accepts cfg (some u) password =
    if u.enabled && cfg.verify_password u.password_hash password then some u else none

abbrev pub user_named : Db → Bytes → Option UserRow
user_named db username = find (λ u. same_name u.username (trim_space username)) db.users

-- The branch on `valid`; the attempt is recorded on both sides.
unfoldable pub settle_login :
    Config
    → Option UserRow
    → Bytes
    → Bytes
    → ℕ
    → Option String
    → Option String
    → Action (String × String × User)
settle_login cfg none key source now token csrf = do
  modify (log_attempt key now false)
  audit now none none "login_failed" none source "denied" no_detail
  raise unauthorised
settle_login cfg (some u) key source now token csrf = do
  modify (log_attempt key now true)
  open_session cfg u source now token csrf

-- Authenticate
unfoldable pub authenticate :
    Config
    → Bytes
    → Bytes
    → Bytes
    → ℕ
    → Option String
    → Option String
    → Action (String × String × User)
authenticate cfg username password source now token csrf db =
    let key = login_key username source in
    if leb 8 (recent_failures key now db)
    then (do
      audit now none none "login_failed" none source "rate_limited" no_detail
      raise rate_limited)
        db
    else settle_login cfg (accepts cfg (user_named db username) password) key source now token csrf
        db
