-- ===== src/Store/Setup/Tickets.antt =====
-- controller/internal/app/store.go: the tickets and the handoffs leave what an administrator set up.
use thin_pi.Prelude.{ℕ, String, ◌≡◌, inl, inr, Option, none, some, arith, Bool-cases, Bytes}
use thin_pi.Policy.{PolicyStatus}
use thin_pi.Db.{Db, Config, Connection, Ticket, Handoff, Manifest, MaintenanceTicket}
use thin_pi.Store.Launch.{
  insert_ticket, issue_ticket, create_allowed, create_launch_ticket, with_credential, redeem_row,
  redeem_found, redeem_transaction, redeem_launch_ticket,
}
use thin_pi.Store.Maintenance.{
  insert_maintenance, create_maintenance_ticket, redeem_maintenance_row,
  redeem_maintenance_transaction, redeem_maintenance_ticket,
}
use thin_pi.Store.Handoffs.{
  purge_handoffs, insert_handoff, create_admin_handoff, redeem_handoff_row,
  redeem_handoff_transaction, redeem_admin_handoff,
}
use thin_pi.Store.Setup.{Setup, setup, setup_rules}
use thin_pi.Store.Setup.Logins.{insert_session-setup}

module _ {v : Setup} where
  insert_ticket-setup : (t : Ticket) (db : Db) → setup db ≡ v → setup (insert_ticket t db).1 ≡ v
  unfolding insert_ticket setup
  insert_ticket-setup t db h = ground arith

  issue_ticket-setup :
      (cfg : Config) (user connection device : ℕ) (policy : PolicyStatus) (source : Bytes)
      (now later : ℕ) (token : Option String) (db : Db)
      → setup db ≡ v
      → setup (issue_ticket cfg user connection device policy source now later token db).1 ≡ v
  unfolding issue_ticket
  issue_ticket-setup cfg user connection device policy source now later token db h =
      search (setup_rules, insert_ticket-setup)

  create_allowed-setup :
      (cfg : Config) (user connection : ℕ) (device : Bytes) (policy : PolicyStatus) (source : Bytes)
      (now later : ℕ) (token : Option String) (db : Db)
      → setup db ≡ v
      → setup (create_allowed cfg user connection device policy source now later token db).1 ≡ v
  unfolding create_allowed
  create_allowed-setup cfg user connection device policy source now later token db h =
      elim (Bool-cases policy.allowed) [
        | inl allowed ↦ rw allowed (search (setup_rules, issue_ticket-setup))
        | inr refused ↦ rw refused (search setup_rules)
      ]

  pub create_launch_ticket-setup :
      (cfg : Config) (user connection : ℕ) (device source : Bytes) (checked now later : ℕ)
      (token : Option String) (db : Db)
      → setup db ≡ v
      → setup (create_launch_ticket cfg user connection device source checked now later token db).1
        ≡ v
  unfolding create_launch_ticket
  create_launch_ticket-setup cfg user connection device source checked now later token db h =
      search (setup_rules, create_allowed-setup)

  with_credential-setup :
      (cfg : Config) (o : Option ℕ) (m : Manifest) (db : Db)
      → setup db ≡ v
      → setup (with_credential cfg o m db).1 ≡ v
  unfolding with_credential
  with_credential-setup cfg none m db h = h
  with_credential-setup cfg (some id) m db h = search setup_rules

  redeem_row-setup : (id now : ℕ) (db : Db) → setup db ≡ v → setup (redeem_row id now db).1 ≡ v
  unfolding redeem_row setup
  redeem_row-setup id now db h = ground arith

  redeem_found-setup :
      (cfg : Config) (now later : ℕ) (t : Ticket) (c : Connection) (db : Db)
      → setup db ≡ v
      → setup (redeem_found cfg now later t c db).1 ≡ v
  unfolding redeem_found
  redeem_found-setup cfg now later t c db h =
      search (setup_rules, with_credential-setup, redeem_row-setup) depth 10

  redeem_transaction-setup :
      (cfg : Config) (token : String) (device now later : ℕ) (db : Db)
      → setup db ≡ v
      → setup (redeem_transaction cfg token device now later db).1 ≡ v
  unfolding redeem_transaction
  redeem_transaction-setup cfg token device now later db h =
      search (setup_rules, redeem_found-setup)

  pub redeem_launch_ticket-setup :
      (cfg : Config) (token : String) (device : ℕ) (source : Bytes) (now later : ℕ) (db : Db)
      → setup db ≡ v
      → setup (redeem_launch_ticket cfg token device source now later db).1 ≡ v
  unfolding redeem_launch_ticket
  redeem_launch_ticket-setup cfg token device source now later db h =
      search (setup_rules, redeem_transaction-setup)

  insert_maintenance-setup :
      (t : MaintenanceTicket) (db : Db) → setup db ≡ v → setup (insert_maintenance t db).1 ≡ v
  unfolding insert_maintenance setup
  insert_maintenance-setup t db h = ground arith

  pub create_maintenance_ticket-setup :
      (cfg : Config) (user : ℕ) (device source : Bytes) (now : ℕ) (token : Option String) (db : Db)
      → setup db ≡ v
      → setup (create_maintenance_ticket cfg user device source now token db).1 ≡ v
  unfolding create_maintenance_ticket
  create_maintenance_ticket-setup cfg user device source now token db h =
      search (setup_rules, insert_maintenance-setup) depth 10

  redeem_maintenance_row-setup :
      (hash : String) (now : ℕ) (db : Db)
      → setup db ≡ v
      → setup (redeem_maintenance_row hash now db).1 ≡ v
  unfolding redeem_maintenance_row setup
  redeem_maintenance_row-setup hash now db h = ground arith

  redeem_maintenance_transaction-setup :
      (cfg : Config) (token : String) (device now later : ℕ) (db : Db)
      → setup db ≡ v
      → setup (redeem_maintenance_transaction cfg token device now later db).1 ≡ v
  unfolding redeem_maintenance_transaction
  redeem_maintenance_transaction-setup cfg token device now later db h =
      search (setup_rules, redeem_maintenance_row-setup)

  pub redeem_maintenance_ticket-setup :
      (cfg : Config) (token : String) (device : ℕ) (source : Bytes) (now later : ℕ) (db : Db)
      → setup db ≡ v
      → setup (redeem_maintenance_ticket cfg token device source now later db).1 ≡ v
  unfolding redeem_maintenance_ticket
  redeem_maintenance_ticket-setup cfg token device source now later db h =
      search (setup_rules, redeem_maintenance_transaction-setup)

  purge_handoffs-setup : (now : ℕ) (db : Db) → setup db ≡ v → setup (purge_handoffs now db) ≡ v
  unfolding purge_handoffs setup
  purge_handoffs-setup now db h = h

  insert_handoff-setup : (t : Handoff) (db : Db) → setup db ≡ v → setup (insert_handoff t db).1 ≡ v
  unfolding insert_handoff setup
  insert_handoff-setup t db h = ground arith

  pub create_admin_handoff-setup :
      (cfg : Config) (user : ℕ) (source : Bytes) (now : ℕ) (token : Option String) (db : Db)
      → setup db ≡ v
      → setup (create_admin_handoff cfg user source now token db).1 ≡ v
  unfolding create_admin_handoff
  create_admin_handoff-setup cfg user source now token db h =
      search (setup_rules, purge_handoffs-setup, insert_handoff-setup) depth 10

  redeem_handoff_row-setup :
      (hash : String) (now : ℕ) (db : Db)
      → setup db ≡ v
      → setup (redeem_handoff_row hash now db).1 ≡ v
  unfolding redeem_handoff_row setup
  redeem_handoff_row-setup hash now db h = ground arith

  redeem_handoff_transaction-setup :
      (cfg : Config) (token session_token csrf : String) (now later : ℕ) (db : Db)
      → setup db ≡ v
      → setup (redeem_handoff_transaction cfg token session_token csrf now later db).1 ≡ v
  unfolding redeem_handoff_transaction
  redeem_handoff_transaction-setup cfg token session_token csrf now later db h =
      search (setup_rules, redeem_handoff_row-setup, insert_session-setup)

  pub redeem_admin_handoff-setup :
      (cfg : Config) (token : String) (source : Bytes) (now later : ℕ)
      (session_token csrf : Option String) (db : Db)
      → setup db ≡ v
      → setup (redeem_admin_handoff cfg token source now later session_token csrf db).1 ≡ v
  unfolding redeem_admin_handoff
  redeem_admin_handoff-setup cfg token source now later session_token csrf db h =
      search (setup_rules, redeem_handoff_transaction-setup) depth 10
