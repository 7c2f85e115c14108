-- ===== src/Store/Handoffs.antt =====
-- store.go, `CreateAdminHandoff` and `RedeemAdminHandoff`: a code that takes an administrator from
-- the kiosk to a browser, once, within 45 seconds.
pub mod Once
use thin_pi.Prelude.{
  ℕ, zero, suc, ◌+◌, ◌-◌, ◌*◌, ◌/◌, ◌%◌, ◌^◌, ◌≤◌, ◌<◌, max, String, ◌≡◌, refl, sym, ap, ◌∙◌, subst,
  ◌≢◌, ◌↔◌, ◌⊎◌, inl, inr, Bool, true, false, not, ◌&&◌, ◌||◌, Option, none, some, List, [], ◌∷◌,
  ◌++◌, map, arith, str_eq, str_eq_iff, ltb, leb, ◌==◌, if◌then◌else◌, ltb→lt, lt→ltb, leb→le,
  ==_iff, ==_refl, Bool-cases, Option-cases, &&_left, &&_right, is_some, length, length-append,
  find-All, map_option, find-update_where, any-true, find-append, any_weaken, count_where-append,
  count_where_none, find_sound, find-any, any-false, All-update_where, All-append, All-map, is_nil,
  find, any, select, count_where, update_where, All, Bytes, bytes, text_eq, text_lt, lower_byte,
  to_lower, is_space, trim_left, trim_space, contains_byte, contains_any, text_eq_iff, Result, ok,
  err, Exec, pure, raise, continue, ◌>>=◌, ◌>>◌, gets, modify, require, or_fail, lift, roll_back,
  transact, Result-cases,
}
use thin_pi.Stamp.{stamp, stamp_lt, parse_stamp, minute, second}
use thin_pi.Policy.{AccessPolicy}
use thin_pi.Db.{
  Db, Action, Error, read, Config, Handoff, UserRow, unauthorised, random_failed, constraint_failed,
  no_detail, has_user,
}
use thin_pi.Store.Audit.{audit}
use thin_pi.Store.Access.{or_else}
use thin_pi.Store.Sessions.{insert_session}

unfoldable pub active_admin : Db → ℕ → Bool
unfolding any
active_admin db id = any (λ u. u.id == id && (u.is_admin && u.enabled)) db.users

-- now.Add(-time.Hour); the clock is past the first hour of 1970
abbrev pub hour : ℕ
hour = 60 * minute

-- DELETE FROM admin_handoffs WHERE expires_at<? OR redeemed_at IS NOT NULL
unfoldable pub purge_handoffs : ℕ → Db → Db
unfolding select stamp_lt stamp
purge_handoffs now db = record db {
  handoffs =
      select (λ h. not (stamp_lt h.expires_at (stamp (now - hour)) || is_some h.redeemed_at))
        db.handoffs;
}

-- INSERT INTO admin_handoffs: token_hash is the primary key and user_id a foreign key.
unfoldable pub insert_handoff : Handoff → Action (Unit {0})
unfolding any has_user
insert_handoff h db =
    if any (λ g. str_eq g.token_hash h.token_hash) db.handoffs || not (has_user db h.user_id)
    then (err constraint_failed, db)
    else (ok tt, record db { handoffs = db.handoffs ++ (h ∷ []) })

-- CreateAdminHandoff
unfoldable pub create_admin_handoff : Config → ℕ → Bytes → ℕ → Option String → Action String
unfolding active_admin purge_handoffs insert_handoff audit
create_admin_handoff cfg user source now token = do
  db ← read
  require (active_admin db user) unauthorised
  tok ← or_fail token random_failed
  modify (purge_handoffs now)
  insert_handoff (record {
    token_hash = cfg.token_hash tok;
    user_id = user;
    expires_at = stamp (now + 45 * second);
    redeemed_at = none;
    created_at = stamp now;
  })
  audit now (some user) none "admin_handoff_created" none source "success" no_detail
  pure tok

-- JOIN users u ON u.id=h.user_id WHERE h.token_hash=? AND u.is_admin=1 AND u.enabled=1
unfoldable pub handoff_with : Db → String → Option Handoff
unfolding find active_admin
handoff_with db hash = find (λ h. str_eq h.token_hash hash && active_admin db h.user_id) db.handoffs

-- COALESCE(p.idle_logout_minutes,30), and 30 for minutes that are out of range
unfoldable pub handoff_minutes : Db → ℕ → ℕ
unfolding find
handoff_minutes db user =
    let stored =
      or_else (map_option (λ p. p.idle_logout_minutes) (find (λ p. p.user_id == user) db.policies))
        30 in
    if ltb stored 1 || ltb 1440 stored then 30 else stored

-- token_hash=? AND redeemed_at IS NULL
abbrev pub open_handoff : String → Handoff → Bool
open_handoff hash h = str_eq h.token_hash hash && not (is_some h.redeemed_at)

unfoldable pub redeem_handoff_row : String → ℕ → Action (Unit {0})
unfolding count_where update_where stamp
redeem_handoff_row hash now db =
    if count_where (open_handoff hash) db.handoffs == 1
    then (
      ok tt,
      record db {
        handoffs =
            update_where (open_handoff hash) (λ h. record h { redeemed_at = some (stamp now) })
              db.handoffs;
      },
    )
    else (err unauthorised, db)

unfoldable pub redeem_handoff_transaction : Config → String → String → String → ℕ → ℕ → Action ℕ
redeem_handoff_transaction cfg token session_token csrf now later db =
    (do
      h ← or_fail (handoff_with db (cfg.token_hash token)) unauthorised
      require (not (is_some h.redeemed_at) && ltb now (parse_stamp h.expires_at)) unauthorised
      redeem_handoff_row (cfg.token_hash token) later
      insert_session (cfg.token_hash session_token) (cfg.token_hash csrf) h.user_id later
          (handoff_minutes db h.user_id * minute)
      pure h.user_id)
      db

-- RedeemAdminHandoff: `now` is read for the expiry, `later` for the stamps.
unfoldable pub redeem_admin_handoff :
    Config → String → Bytes → ℕ → ℕ → Option String → Option String → Action String
redeem_admin_handoff cfg token source now later session_token csrf = do
  require (not (str_eq token "")) unauthorised
  tok ← or_fail session_token random_failed
  form ← or_fail csrf random_failed
  user ← transact (redeem_handoff_transaction cfg token tok form now later)
  audit later (some user) none "admin_handoff_redeemed" none source "success" no_detail
  pure tok
