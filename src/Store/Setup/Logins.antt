-- ===== src/Store/Setup/Logins.antt =====
-- controller/internal/app/store.go: signing in and out leaves what an administrator set up.
use thin_pi.Prelude.{ℕ, String, ◌≡◌, Bool, Option, none, some, arith, Bytes}
use thin_pi.Db.{Db, Config, UserRow, SessionRow}
use thin_pi.Stamp.{Stamp}
use thin_pi.Store.Sessions.{
  session, admit_session, touch_session, logout, revoke_where, insert_session, log_attempt,
  mark_login, open_session, settle_login, authenticate,
}
use thin_pi.Store.Users.{write_profile, revoke_others, profile_transaction, update_own_profile}
use thin_pi.Store.Setup.{Setup, setup, setup_rules}

module _ {v : Setup} where
  touch_session-setup :
      (id : ℕ) (seen expires : Stamp) (db : Db)
      → setup db ≡ v
      → setup (touch_session id seen expires db) ≡ v
  unfolding touch_session setup
  touch_session-setup id seen expires db h = h

  revoke_where-setup :
      (p : SessionRow → Bool) (at : Stamp) (db : Db)
      → setup db ≡ v
      → setup (revoke_where p at db) ≡ v
  unfolding revoke_where setup
  revoke_where-setup p at db h = h

  log_attempt-setup :
      (key : Bytes) (now : ℕ) (valid : Bool) (db : Db)
      → setup db ≡ v
      → setup (log_attempt key now valid db) ≡ v
  unfolding log_attempt setup
  log_attempt-setup key now valid db h = h

  mark_login-setup : (id now : ℕ) (db : Db) → setup db ≡ v → setup (mark_login id now db) ≡ v
  unfolding mark_login setup
  mark_login-setup id now db h = h

  pub insert_session-setup :
      (token_hash csrf_hash : String) (user now idle : ℕ) (db : Db)
      → setup db ≡ v
      → setup (insert_session token_hash csrf_hash user now idle db).1 ≡ v
  unfolding insert_session setup
  insert_session-setup token_hash csrf_hash user now idle db h = ground arith

  admit_session-setup :
      (cfg : Config) (now later : ℕ) (row : SessionRow) (u : UserRow) (db : Db)
      → setup db ≡ v
      → setup (admit_session cfg now later row u db).1 ≡ v
  unfolding admit_session
  admit_session-setup cfg now later row u db h = search (setup_rules, touch_session-setup)

  pub session-setup :
      (cfg : Config) (token : String) (now later : ℕ) (db : Db)
      → setup db ≡ v
      → setup (session cfg token now later db).1 ≡ v
  unfolding session
  session-setup cfg token now later db h = search (setup_rules, admit_session-setup)

  pub logout-setup :
      (id user : ℕ) (source : Bytes) (now : ℕ) (db : Db)
      → setup db ≡ v
      → setup (logout id user source now db).1 ≡ v
  unfolding logout
  logout-setup id user source now db h = search (setup_rules, revoke_where-setup)

  open_session-setup :
      (cfg : Config) (u : UserRow) (source : Bytes) (now : ℕ) (token csrf : Option String) (db : Db)
      → setup db ≡ v
      → setup (open_session cfg u source now token csrf db).1 ≡ v
  unfolding open_session
  open_session-setup cfg u source now token csrf db h =
      search (setup_rules, insert_session-setup, mark_login-setup) depth 10

  settle_login-setup :
      (cfg : Config) (o : Option UserRow) (key source : Bytes) (now : ℕ)
      (token csrf : Option String) (db : Db)
      → setup db ≡ v
      → setup (settle_login cfg o key source now token csrf db).1 ≡ v
  unfolding settle_login
  settle_login-setup cfg none key source now token csrf db h =
      search (setup_rules, log_attempt-setup)
  settle_login-setup cfg (some u) key source now token csrf db h =
      search (open_session-setup, log_attempt-setup)

  pub authenticate-setup :
      (cfg : Config) (username password source : Bytes) (now : ℕ) (token csrf : Option String)
      (db : Db)
      → setup db ≡ v
      → setup (authenticate cfg username password source now token csrf db).1 ≡ v
  unfolding authenticate
  authenticate-setup cfg username password source now token csrf db h =
      search (setup_rules, settle_login-setup)

  write_profile-setup :
      (id : ℕ) (username display_name : Bytes) (hash : String) (now : ℕ) (db : Db)
      → setup db ≡ v
      → setup (write_profile id username display_name hash now db).1 ≡ v
  unfolding write_profile setup
  write_profile-setup id username display_name hash now db h = ground arith

  revoke_others-setup :
      (needed : Bool) (user keep now : ℕ) (db : Db)
      → setup db ≡ v
      → setup (revoke_others needed user keep now db).1 ≡ v
  unfolding revoke_others revoke_where setup
  revoke_others-setup needed user keep now db h = ground arith

  profile_transaction-setup :
      (user keep : ℕ) (username display_name : Bytes) (hash : String) (needed : Bool) (now : ℕ)
      (db : Db)
      → setup db ≡ v
      → setup (profile_transaction user keep username display_name hash needed now db).1 ≡ v
  unfolding profile_transaction
  profile_transaction-setup user keep username display_name hash needed now db h =
      search (setup_rules, write_profile-setup, revoke_others-setup)

  pub update_own_profile-setup :
      (cfg : Config) (user keep : ℕ) (username display_name current new salt : Bytes) (now : ℕ)
      (db : Db)
      → setup db ≡ v
      → setup (update_own_profile cfg user keep username display_name current new salt now db).1 ≡ v
  unfolding update_own_profile
  update_own_profile-setup cfg user keep username display_name current new salt now db h =
      search (setup_rules, profile_transaction-setup) depth 10
