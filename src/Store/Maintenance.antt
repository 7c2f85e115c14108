-- ===== src/Store/Maintenance.antt =====
-- store.go, `CreateMaintenanceTicket` and `RedeemMaintenanceTicket`.
pub mod Once
use thin_pi.Prelude.{
  ℕ, zero, suc, ◌+◌, ◌-◌, ◌*◌, ◌/◌, ◌%◌, ◌^◌, ◌≤◌, ◌<◌, max, String, ◌≡◌, refl, sym, ap, ◌∙◌, subst,
  ◌≢◌, ◌↔◌, ◌⊎◌, inl, inr, Bool, true, false, not, ◌&&◌, ◌||◌, Option, none, some, List, [], ◌∷◌,
  ◌++◌, map, arith, str_eq, str_eq_iff, ltb, leb, ◌==◌, if◌then◌else◌, ltb→lt, lt→ltb, leb→le,
  ==_iff, ==_refl, Bool-cases, Option-cases, &&_left, &&_right, is_some, length, length-append,
  find-All, map_option, find-update_where, any-true, find-append, any_weaken, count_where-append,
  count_where_none, find_sound, find-any, any-false, All-update_where, All-append, All-map, is_nil,
  find, any, select, count_where, update_where, All, Bytes, bytes, text_eq, text_lt, lower_byte,
  to_lower, is_space, trim_left, trim_space, contains_byte, contains_any, text_eq_iff, Result, ok,
  err, Exec, pure, raise, continue, ◌>>=◌, ◌>>◌, gets, modify, require, or_fail, lift, roll_back,
  transact, Result-cases,
}
use thin_pi.Stamp.{stamp, parse_stamp}
use thin_pi.Db.{
  Db, Action, Error, read, Config, MaintenanceTicket, unauthorised, random_failed,
  constraint_failed, ticket_invalid, no_detail,
}
use thin_pi.Store.Audit.{audit}
use thin_pi.Store.Handoffs.{active_admin}

-- INSERT INTO maintenance_tickets: token_hash is the primary key. The user and the device have just
-- been read.
unfoldable pub insert_maintenance : MaintenanceTicket → Action (Unit {0})
unfolding any
insert_maintenance t db =
    if any (λ u. str_eq u.token_hash t.token_hash) db.maintenance_tickets
    then (err constraint_failed, db)
    else (ok tt, record db { maintenance_tickets = db.maintenance_tickets ++ (t ∷ []) })

abbrev pub new_maintenance : Config → ℕ → ℕ → ℕ → String → MaintenanceTicket
new_maintenance cfg user device now tok = record {
  token_hash = cfg.token_hash tok;
  user_id = user;
  device_id = device;
  expires_at = stamp (now + cfg.ticket_ttl);
  redeemed_at = none;
  created_at = stamp now;
}

-- CreateMaintenanceTicket
unfoldable pub create_maintenance_ticket :
    Config → ℕ → Bytes → Bytes → ℕ → Option String → Action String
unfolding active_admin insert_maintenance audit find text_eq
create_maintenance_ticket cfg user device source now token = do
  db ← read
  require (active_admin db user) unauthorised
  d ← or_fail (find (λ d. text_eq d.identifier device && d.enabled) db.devices) unauthorised
  tok ← or_fail token random_failed
  insert_maintenance (new_maintenance cfg user d.id now tok)
  audit now (some user) (some d.id) "maintenance_authorised" none source "success" no_detail
  pure tok

-- JOIN users u ON u.id=t.user_id WHERE t.token_hash=? AND t.device_id=? AND u.enabled=1 AND u.is_admin=1
unfoldable pub maintenance_with : Db → String → ℕ → Option MaintenanceTicket
unfolding find active_admin
maintenance_with db hash device =
    find (λ t. str_eq t.token_hash hash && (t.device_id == device && active_admin db t.user_id))
      db.maintenance_tickets

abbrev pub open_maintenance : String → MaintenanceTicket → Bool
open_maintenance hash t = str_eq t.token_hash hash && not (is_some t.redeemed_at)

unfoldable pub redeem_maintenance_row : String → ℕ → Action (Unit {0})
unfolding count_where update_where stamp
redeem_maintenance_row hash now db =
    if count_where (open_maintenance hash) db.maintenance_tickets == 1
    then (
      ok tt,
      record db {
        maintenance_tickets =
            update_where (open_maintenance hash) (λ t. record t { redeemed_at = some (stamp now) })
              db.maintenance_tickets;
      },
    )
    else (err ticket_invalid, db)

unfoldable pub redeem_maintenance_transaction : Config → String → ℕ → ℕ → ℕ → Action ℕ
redeem_maintenance_transaction cfg token device now later db =
    (do
      t ← or_fail (maintenance_with db (cfg.token_hash token) device) ticket_invalid
      require (not (is_some t.redeemed_at)) ticket_invalid
      require (ltb now (parse_stamp t.expires_at)) ticket_invalid
      redeem_maintenance_row (cfg.token_hash token) later
      pure t.user_id)
      db

-- RedeemMaintenanceTicket: `now` is read for the expiry, `later` for the stamps.
unfoldable pub redeem_maintenance_ticket : Config → String → ℕ → Bytes → ℕ → ℕ → Action (Unit {0})
redeem_maintenance_ticket cfg token device source now later = do
  user ← transact (redeem_maintenance_transaction cfg token device now later)
  audit later (some user) (some device) "maintenance_started" none source "success" no_detail
