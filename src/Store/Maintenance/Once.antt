-- ===== src/Store/Maintenance/Once.antt =====
-- A maintenance ticket is for one administrator and one device, and good for one use.
use thin_pi.Prelude.{
  find, ℕ, ◌<◌, String, ◌≡◌, sym, ◌∙◌, subst, inl, inr, true, ◌&&◌, none, some, List, [], ◌∷◌,
  arith, str_eq, str_eq_iff, ◌==◌, Option-cases, &&_left, is_some, find-All, find_sound,
  update_where, All, Bytes, ok, err,
}
use thin_pi.Stamp.{stamp, parse_stamp}
use thin_pi.Db.{Db, Config, MaintenanceTicket, ticket_invalid}
use thin_pi.Store.Audit.{audit}
use thin_pi.Store.Handoffs.{active_admin}
use thin_pi.Store.Maintenance.{
  maintenance_with, open_maintenance, redeem_maintenance_row, redeem_maintenance_transaction,
  redeem_maintenance_ticket,
}

abbrev pub AllSpent : String → List MaintenanceTicket → Type 0
AllSpent hash = All (λ t. t.token_hash ≡ hash → is_some t.redeemed_at ≡ true)

abbrev pub redeemed_maintenance : String → ℕ → List MaintenanceTicket → List MaintenanceTicket
redeemed_maintenance hash now =
    update_where (open_maintenance hash) (λ t. record t { redeemed_at = some (stamp now) })

redeemed-AllSpent :
    (hash : String) (now : ℕ) (ts : List MaintenanceTicket)
    → AllSpent hash (redeemed_maintenance hash now ts)
unfolding update_where
redeemed-AllSpent hash now [] = tt
redeemed-AllSpent hash now (t ∷ ts) =
    (λ e. ground (arith, str_eq_iff t.token_hash hash), redeemed-AllSpent hash now ts)

matched :
    (db : Db) (hash : String) (device : ℕ) (t : MaintenanceTicket)
    → maintenance_with db hash device ≡ some t
    → (t.token_hash ≡ hash) × (t.device_id ≡ device) × (active_admin db t.user_id ≡ true)
unfolding maintenance_with
matched db hash device t found =
    let hit =
      find_sound
        (λ u. str_eq u.token_hash hash && (u.device_id == device && active_admin db u.user_id))
        db.maintenance_tickets t found in
    (
      (str_eq_iff t.token_hash hash).0
          (&&_left _ (t.device_id == device && active_admin db t.user_id) hit),
      ground arith,
      ground arith,
    )

-- A redemption that succeeds found in the table a ticket of this token and this device, unused and unexpired,
-- of a user who is an enabled administrator now; every ticket of the token is marked redeemed.
pub redeem_maintenance_ticket_sound :
    (cfg : Config) (token : String) (device : ℕ) (source : Bytes) (now later : ℕ) (db db' : Db)
    → redeem_maintenance_ticket cfg token device source now later db ≡ (ok tt, db')
    → (t : MaintenanceTicket) × (find
          (λ u.
            str_eq u.token_hash (cfg.token_hash token)
            && (u.device_id == device && active_admin db u.user_id))
          db.maintenance_tickets
        ≡ some t)
      × (t.token_hash ≡ cfg.token_hash token)
      × (t.device_id ≡ device)
      × (active_admin db t.user_id ≡ true)
      × (t.redeemed_at ≡ none)
      × (now < parse_stamp t.expires_at)
      × (db'.maintenance_tickets
          ≡ redeemed_maintenance (cfg.token_hash token) later db.maintenance_tickets)
unfolding redeem_maintenance_ticket redeem_maintenance_transaction redeem_maintenance_row audit
redeem_maintenance_ticket_sound cfg token device source now later db db' h =
    elim (Option-cases (maintenance_with db (cfg.token_hash token) device)) [
      | inl missing ↦ absurd (ground arith)
      | inr (t, found) ↦
          let (hash, bound, admin) = matched db (cfg.token_hash token) device t found in
          (
            t,
            unfold maintenance_with in found,
            hash,
            bound,
            admin,
            ground arith,
            ground arith,
            ground arith,
          )
    ]

spent_refused :
    (cfg : Config) (token : String) (device : ℕ) (source : Bytes) (now later : ℕ) (db : Db)
    → AllSpent (cfg.token_hash token) db.maintenance_tickets
    → redeem_maintenance_ticket cfg token device source now later db ≡ (err ticket_invalid, db)
unfolding redeem_maintenance_ticket redeem_maintenance_transaction audit
spent_refused cfg token device source now later db spent =
    elim (Option-cases (maintenance_with db (cfg.token_hash token) device)) [
      | inl missing ↦ ground arith
      | inr (t, found) ↦ let used = use_of t found in ground arith
    ]
  where
    use_of :
        (t : MaintenanceTicket)
        → maintenance_with db (cfg.token_hash token) device ≡ some t
        → is_some t.redeemed_at ≡ true
    use_of t found =
        unfold maintenance_with in
        find-All (λ u. u.token_hash ≡ cfg.token_hash token → is_some u.redeemed_at ≡ true)
          (λ u.
            str_eq u.token_hash (cfg.token_hash token)
            && (u.device_id == device && active_admin db u.user_id))
          db.maintenance_tickets spent t found (matched db (cfg.token_hash token) device t found).0

-- After a redemption that succeeds, the token is refused on every device and at every time, as long
-- as the maintenance tickets are as the redemption left them; nothing is written then.
pub redeem_maintenance_ticket_once :
    (cfg : Config) (token : String) (device device' : ℕ) (source source' : Bytes)
    (now later now' later' : ℕ) (db db' db'' : Db)
    → redeem_maintenance_ticket cfg token device source now later db ≡ (ok tt, db')
    → db''.maintenance_tickets ≡ db'.maintenance_tickets
    → redeem_maintenance_ticket cfg token device' source' now' later' db''
      ≡ (err ticket_invalid, db'')
redeem_maintenance_ticket_once cfg token device device' source source' now later now' later' db db'
      db'' h same =
    spent_refused cfg token device' source' now' later' db'' (
      subst (AllSpent (cfg.token_hash token))
        (sym
          (same ∙ (redeem_maintenance_ticket_sound cfg token device source now later db db' h).7))
        (redeemed-AllSpent (cfg.token_hash token) later db.maintenance_tickets))
