-- ===== src/Store/Sessions/Expiry.antt =====
-- How long a session lasts.
use thin_pi.Prelude.{
  update_where, ℕ, ◌+◌, ◌<◌, String, ◌≡◌, refl, sym, ap, ◌∙◌, subst, inl, inr, Bool, true, false,
  ◌&&◌, none, some, arith, str_eq, ◌==◌, if◌then◌else◌, ==_refl, Option-cases, is_some, map_option,
  find-update_where, Bytes, ok, err,
}
use thin_pi.Stamp.{Stamp, stamp, parse_stamp}
use thin_pi.Stamp.RoundTrip.{parse_stamp-stamp}
use thin_pi.Db.{Db, Config, UserRow, SessionRow, Session, unauthorised}
use thin_pi.Store.Audit.{audit}
use thin_pi.Store.Access.{user_idle_timeout}
use thin_pi.Store.Sessions.{
  user_with, session_with, touch_session, admit_session, session, revoke_where, logout,
}

-- What a session token must satisfy to be admitted.
pub record IsLive (cfg : Config) (token : String) (now : ℕ) (db : Db) (row : SessionRow)
    (u : UserRow) : Type 0 where
  pub nonempty : str_eq token "" ≡ false
  pub row_of_token : session_with db (cfg.token_hash token) ≡ some row
  pub user_of_row : user_with db row.user_id ≡ some u
  pub not_revoked : row.revoked_at ≡ none
  pub enabled : u.enabled ≡ true
  pub in_time : now < parse_stamp row.expires_at

-- A token that is admitted is not empty, its row is not revoked and not expired, and the row's user
-- is enabled; the session is that of the row and the user, and all that is written is that the
-- row's expiry moves to one idle timeout from now and its last use to now.
pub session_sound :
    (cfg : Config) (token : String) (now later : ℕ) (db db' : Db) (s : Session)
    → session cfg token now later db ≡ (ok s, db')
    → (row : SessionRow) × (u : UserRow) × IsLive cfg token now db row u
      × (s ≡ record { id = row.id; user = u.user; csrf_hash = row.csrf_hash })
      × (db' ≡ record db {
        sessions =
            update_where
              (λ r. r.id == row.id)
              (λ (r : SessionRow). record r {
                last_seen_at = stamp later;
                expires_at = stamp (later + user_idle_timeout cfg db u.id);
              })
              db.sessions;
      })
unfolding session admit_session touch_session
session_sound cfg token now later db db' s h =
    elim (Option-cases (session_with db (cfg.token_hash token))) [
      | inl missing ↦ absurd (ground arith)
      | inr (row, found) ↦ elim (Option-cases (user_with db row.user_id)) [
        | inl missing ↦ absurd (ground arith)
        | inr (u, owner) ↦ (
          row,
          u,
          record {
            nonempty = ground arith;
            row_of_token = found;
            user_of_row = owner;
            not_revoked = ground arith;
            enabled = ground arith;
            in_time = ground arith;
          },
          ground arith,
          ground arith,
        )
      ]
    ]

-- Conversely every token that meets these conditions is admitted, as the session of its row.
session_complete :
    (cfg : Config) (token : String) (now later : ℕ) (db : Db) (row : SessionRow) (u : UserRow)
    → IsLive cfg token now db row u
    → (session cfg token now later db).0
      ≡ ok (record { id = row.id; user = u.user; csrf_hash = row.csrf_hash })
unfolding session admit_session
session_complete cfg token now later db row u live = ground (
  arith, live.nonempty, live.row_of_token, live.user_of_row, live.not_revoked, live.enabled,
  live.in_time,
)

abbrev refreshed : Stamp → Stamp → SessionRow → SessionRow
refreshed seen expires row = record row { last_seen_at = seen; expires_at = expires }

session_with-touch_session :
    (db : Db) (hash : String) (row : SessionRow) (seen expires : Stamp)
    → session_with db hash ≡ some row
    → session_with (touch_session row.id seen expires db) hash ≡ some (refreshed seen expires row)
unfolding touch_session
session_with-touch_session db hash row seen expires found =
    find-update_where (λ s. str_eq s.token_hash hash && is_some (user_with db s.user_id))
      (λ s. s.id == row.id) (refreshed seen expires) db.sessions (λ s. refl)
    ∙ ap (map_option (λ s. if s.id == row.id then refreshed seen expires s else s)) found
    ∙ rw (==_refl row.id)

-- A session that is used is good for one more idle timeout: the token is admitted again at every
-- instant before that, as the same session.
pub session_slides :
    (cfg : Config) (token : String) (now later now' later' : ℕ) (db db' : Db) (s : Session)
    → session cfg token now later db ≡ (ok s, db')
    → now' < later + user_idle_timeout cfg db s.user.id
    → (session cfg token now' later' db').0 ≡ ok s
unfolding touch_session
session_slides cfg token now later now' later' db db' s h in_time =
    let (row, u, live, what, left) = session_sound cfg token now later db db' s h in
    let until = later + user_idle_timeout cfg db u.id in
    let same_user : s.user.id ≡ u.id = ap (λ (r : Session). r.user.id) what in
    let before : now' < until =
      subst (λ k. now' < later + user_idle_timeout cfg db k) same_user in_time in
    subst (λ d. (session cfg token now' later' d).0 ≡ ok s) (sym left)
      (session_complete cfg token now' later' (touch_session row.id (stamp later) (stamp until) db)
          (refreshed (stamp later) (stamp until) row) u
          (record {
            nonempty = live.nonempty;
            row_of_token =
                session_with-touch_session db (cfg.token_hash token) row (stamp later) (stamp until)
                  live.row_of_token;
            user_of_row = live.user_of_row;
            not_revoked = live.not_revoked;
            enabled = live.enabled;
            in_time = subst (λ e. now' < e) (sym (parse_stamp-stamp until)) before;
          })
        ∙ ap ok (sym what))

session_with-revoke_where :
    (db : Db) (hash : String) (row : SessionRow) (at : Stamp) (p : SessionRow → Bool)
    → session_with db hash ≡ some row
    → p row ≡ true
    → session_with (revoke_where p at db) hash ≡ some (record row { revoked_at = some at })
unfolding revoke_where
session_with-revoke_where db hash row at p found hit =
    find-update_where (λ s. str_eq s.token_hash hash && is_some (user_with db s.user_id)) p
      (λ s. record s { revoked_at = some at }) db.sessions (λ s. refl)
    ∙ ap (map_option (λ s. if p s then record s { revoked_at = some at } else s)) found
    ∙ rw hit

revoked_refused :
    (cfg : Config) (token : String) (now later : ℕ) (db : Db) (row : SessionRow) (at : Stamp)
    → session_with db (cfg.token_hash token) ≡ some row
    → row.revoked_at ≡ some at
    → session cfg token now later db ≡ (err unauthorised, db)
unfolding session admit_session
revoked_refused cfg token now later db row at found gone = ground arith

pub session_with_same :
    (d e : Db) (hash : String)
    → d.sessions ≡ e.sessions
    → d.users ≡ e.users
    → session_with d hash ≡ session_with e hash
session_with_same d e hash p q = simp (p, q)

logout_tables :
    (id user : ℕ) (source : Bytes) (at : ℕ) (db : Db)
    → ((logout id user source at db).1.sessions
        ≡ (revoke_where (λ s. s.id == id) (stamp at) db).sessions)
      × ((logout id user source at db).1.users ≡ db.users)
unfolding logout revoke_where audit
logout_tables id user source at db = ground arith

-- Once a session has been logged out its token is refused at every instant, and nothing is written.
pub logout_revokes :
    (cfg : Config) (token : String) (user : ℕ) (source : Bytes) (at now later : ℕ) (db : Db)
    (row : SessionRow)
    → session_with db (cfg.token_hash token) ≡ some row
    → let db' = (logout row.id user source at db).1 in
      session cfg token now later db' ≡ (err unauthorised, db')
unfolding revoke_where
logout_revokes cfg token user source at now later db row found =
    revoked_refused cfg token now later (logout row.id user source at db).1
      (record row { revoked_at = some (stamp at) }) (stamp at)
      (session_with_same (logout row.id user source at db).1
          (revoke_where (λ s. s.id == row.id) (stamp at) db) (cfg.token_hash token) tables.0
          tables.1
        ∙ session_with-revoke_where db (cfg.token_hash token) row (stamp at) (λ s. s.id == row.id)
            found (==_refl row.id))
      refl
  where
    tables :
        ((logout row.id user source at db).1.sessions
          ≡ (revoke_where (λ s. s.id == row.id) (stamp at) db).sessions)
        × ((logout row.id user source at db).1.users ≡ db.users)
    tables = logout_tables row.id user source at db
