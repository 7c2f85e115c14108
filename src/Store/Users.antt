-- ===== src/Store/Users.antt =====
-- store.go, accounts: `identifierPattern`, `CreateUser` and `UpdateOwnProfile`.
pub mod Profile
pub mod Names
use thin_pi.Prelude.{
  ℕ, zero, suc, ◌+◌, ◌-◌, ◌*◌, ◌/◌, ◌%◌, ◌^◌, ◌≤◌, ◌<◌, max, String, ◌≡◌, refl, sym, ap, ◌∙◌, subst,
  ◌≢◌, ◌↔◌, ◌⊎◌, inl, inr, Bool, true, false, not, ◌&&◌, ◌||◌, Option, none, some, List, [], ◌∷◌,
  ◌++◌, map, arith, str_eq, str_eq_iff, ltb, leb, ◌==◌, if◌then◌else◌, ltb→lt, lt→ltb, leb→le,
  ==_iff, ==_refl, Bool-cases, Option-cases, &&_left, &&_right, is_some, length, length-append,
  find-All, map_option, find-update_where, any-true, find-append, any_weaken, count_where-append,
  count_where_none, find_sound, find-any, any-false, All-update_where, All-append, All-map, is_nil,
  find, any, select, count_where, update_where, All, Bytes, bytes, text_eq, text_lt, lower_byte,
  to_lower, is_space, trim_left, trim_space, contains_byte, contains_any, text_eq_iff, Result, ok,
  err, Exec, pure, raise, continue, ◌>>=◌, ◌>>◌, gets, modify, require, or_fail, lift, roll_back,
  transact, Result-cases,
}
use thin_pi.Stamp.{Stamp, stamp}
use thin_pi.Db.{
  Db, Action, Error, read, Config, User, UserRow, SessionRow, invalid_user, invalid_profile,
  invalid_password, constraint_failed, unauthorised, no_rows, no_detail, same_name,
}
use thin_pi.Store.Audit.{audit}
use thin_pi.Store.Sessions.{user_with, revoke_where}

unfoldable pub is_alnum : ℕ → Bool
is_alnum c =
    (leb b'A' c && leb c b'Z') || ((leb b'a' c && leb c b'z') || (leb b'0' c && leb c b'9'))

unfoldable pub is_identifier_byte : ℕ → Bool
unfolding is_alnum
is_identifier_byte c = is_alnum c || (c == b'.' || (c == b'_' || c == b'-'))

unfoldable pub every : (ℕ → Bool) → Bytes → Bool
every p [] = true
every p (c ∷ s) = p c && every p s

-- ^[A-Za-z0-9][A-Za-z0-9._-]{0,127}$
unfoldable pub is_identifier : Bytes → Bool
unfolding is_alnum is_identifier_byte every
is_identifier [] = false
is_identifier (c ∷ s) = is_alnum c && (every is_identifier_byte s && leb (length s) 127)

abbrev pub line_breaks : Bytes
line_breaks = 13 ∷ 10 ∷ 0 ∷ []

-- displayName == "" || len(displayName) > 128 || strings.ContainsAny(displayName, "\r\n\x00")
unfoldable pub valid_name : Bytes → Bool
unfolding contains_any
valid_name s = not (is_nil s) && (leb (length s) 128 && not (contains_any line_breaks s))

unfoldable pub valid_account : Bytes → Bytes → Bool
unfolding is_identifier valid_name
valid_account username display_name =
    is_identifier username && (leb (length username) 64 && valid_name display_name)

abbrev pub clean_username : Bytes → Bytes
clean_username s = trim_space (to_lower s)

-- users.username is UNIQUE COLLATE NOCASE.
unfoldable pub name_taken : Db → (UserRow → Bool) → Bytes → Bool
unfolding any same_name
name_taken db other username = any (λ u. other u && same_name u.username username) db.users

unfoldable pub insert_user : UserRow → Action ℕ
unfolding name_taken
insert_user u db =
    if name_taken db (λ _. true) u.username
    then (err constraint_failed, db)
    else (ok u.id, record db { users = db.users ++ (u ∷ []); next_user = suc db.next_user })

-- CreateUser; `salt` is what HashPassword draws.
unfoldable pub create_user : Config → Bytes → Bytes → Bytes → Bool → Bool → Bytes → ℕ → Action ℕ
unfolding valid_account insert_user
create_user cfg username display_name password admin enabled salt now = do
  let name = clean_username username
  let display = trim_space display_name
  require (valid_account name display) invalid_user
  hash ← or_fail (cfg.hash_password salt password) invalid_password
  db ← read
  insert_user (record {
    user = record {
      id = db.next_user;
      username = name;
      display_name = display;
      is_admin = admin;
      enabled = enabled;
    };
    password_hash = hash;
    last_login_at = none;
    photo = none;
    created_at = stamp now;
    updated_at = stamp now;
  })

-- A new password is hashed; without one the hash stays.
abbrev pub next_hash : Config → String → Bytes → Bytes → Option String
next_hash cfg current salt [] = some current
next_hash cfg current salt (c ∷ s) = cfg.hash_password salt (c ∷ s)

unfoldable pub write_profile : ℕ → Bytes → Bytes → String → ℕ → Action (Unit {0})
unfolding name_taken update_where
write_profile id username display_name hash now db =
    if name_taken db (λ u. not (u.id == id)) username then (err constraint_failed, db) else (
      ok tt,
      record db {
        users =
            update_where (λ u. u.id == id)
              (λ u. record u {
                user = record (u.user) { username = username; display_name = display_name };
                password_hash = hash;
                updated_at = stamp now;
              })
              db.users;
      },
    )

-- user_id=? AND id<>? AND revoked_at IS NULL
abbrev pub other_open : ℕ → ℕ → SessionRow → Bool
other_open user keep s = s.user_id == user && (not (s.id == keep) && not (is_some s.revoked_at))

unfoldable pub revoke_others : Bool → ℕ → ℕ → ℕ → Action (Unit {0})
unfolding revoke_where
revoke_others needed user keep now db =
    (ok tt, if needed then revoke_where (other_open user keep) (stamp now) db else db)

unfoldable pub profile_transaction : ℕ → ℕ → Bytes → Bytes → String → Bool → ℕ → Action (Unit {0})
unfolding write_profile revoke_others
profile_transaction user keep username display_name hash needed now = do
  write_profile user username display_name hash now
  revoke_others needed user keep now

-- UpdateOwnProfile
unfoldable pub update_own_profile :
    Config → ℕ → ℕ → Bytes → Bytes → Bytes → Bytes → Bytes → ℕ → Action User
unfolding valid_account
update_own_profile cfg user keep username display_name current_password new_password salt now = do
  let name = clean_username username
  let display = trim_space display_name
  require (valid_account name display && not (is_nil current_password)) invalid_profile
  db ← read
  u ← or_fail (user_with db user) no_rows
  require (cfg.verify_password u.password_hash current_password) unauthorised
  hash ← or_fail (next_hash cfg u.password_hash salt new_password) invalid_password
  let needed = not (text_eq name u.username) || not (is_nil new_password)
  transact (profile_transaction user keep name display hash needed now)
  audit now (some user) none "profile_updated" none (bytes "self_service") "success" no_detail
  pure (record (u.user) { username = name; display_name = display })
