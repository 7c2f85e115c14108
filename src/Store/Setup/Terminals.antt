-- ===== src/Store/Setup/Terminals.antt =====
-- controller/internal/app/store.go: what the terminals do leaves what an administrator set up.
use thin_pi.Prelude.{ℕ, String, ◌≡◌, inl, inr, Option, none, some, arith, str_eq, Bool-cases, Bytes}
use thin_pi.Policy.{Usage}
use thin_pi.Db.{Db, Config, Device, DeviceRow, Ticket}
use thin_pi.Store.Devices.{
  insert_device, spend_enrolment, enrol_transaction, enrol_device, heartbeat, device_by_token,
}
use thin_pi.Store.Events.{
  start_usage, close_usage, close_found, end_usage, apply_event, settle_event, session_event,
}
use thin_pi.Store.Setup.{Setup, setup, setup_rules}

module _ {v : Setup} where
  insert_device-setup : (d : DeviceRow) (db : Db) → setup db ≡ v → setup (insert_device d db).1 ≡ v
  unfolding insert_device setup
  insert_device-setup d db h = ground arith

  spend_enrolment-setup :
      (id now : ℕ) (db : Db) → setup db ≡ v → setup (spend_enrolment id now db) ≡ v
  unfolding spend_enrolment setup
  spend_enrolment-setup id now db h = h

  enrol_transaction-setup :
      (cfg : Config) (token : String) (identifier name : Bytes) (now later : ℕ)
      (credential : Option String) (db : Db)
      → setup db ≡ v
      → setup (enrol_transaction cfg token identifier name now later credential db).1 ≡ v
  unfolding enrol_transaction
  enrol_transaction-setup cfg token identifier name now later credential db h =
      search (setup_rules, insert_device-setup, spend_enrolment-setup)

  pub enrol_device-setup :
      (cfg : Config) (token : String) (identifier name source : Bytes) (now later : ℕ)
      (credential : Option String) (db : Db)
      → setup db ≡ v
      → setup (enrol_device cfg token identifier name source now later credential db).1 ≡ v
  unfolding enrol_device
  enrol_device-setup cfg token identifier name source now later credential db h =
      search (setup_rules, enrol_transaction-setup)

  pub heartbeat-setup :
      (d : Device) (source : Bytes) (versions : Option String) (now later : ℕ) (db : Db)
      → setup db ≡ v
      → setup (heartbeat d source versions now later db) ≡ v
  unfolding heartbeat setup
  heartbeat-setup d source versions now later db h = h

  start_usage-setup :
      (t : Ticket) (now : ℕ) (db : Db) → setup db ≡ v → setup (start_usage t now db) ≡ v
  unfolding start_usage setup
  start_usage-setup t now db h = ground arith

  close_found-setup :
      (id now : ℕ) (o : Option Usage) (db : Db) → setup db ≡ v → setup (close_found id now o db) ≡ v
  unfolding close_found close_usage setup
  close_found-setup id now none db h = h
  close_found-setup id now (some u) db h = h

  apply_event-setup :
      (t : Ticket) (event : String) (now : ℕ) (db : Db)
      → setup db ≡ v
      → setup (apply_event t event now db) ≡ v
  unfolding apply_event end_usage
  apply_event-setup t event now db h = elim (Bool-cases (str_eq event "session_started")) [
    | inl started ↦ rw started (start_usage-setup t now db h)
    | inr ended ↦ rw ended (close_found-setup t.id now _ db h)
  ]

  settle_event-setup :
      (o found : Option Ticket) (d : Device) (connection : Option ℕ) (event result : String)
      (source : Bytes) (metadata : Option String) (now later : ℕ) (db : Db)
      → setup db ≡ v
      → setup (settle_event o found d connection event result source metadata now later db).1 ≡ v
  unfolding settle_event
  settle_event-setup none found d connection event result source metadata now later db h =
      search setup_rules
  settle_event-setup (some t) found d connection event result source metadata now later db h =
      search (setup_rules, apply_event-setup)

  pub session_event-setup :
      (d : Device) (id : ℕ) (connection : Option ℕ) (event result : String) (source : Bytes)
      (metadata : Option String) (now later : ℕ) (db : Db)
      → setup db ≡ v
      → setup (session_event d id connection event result source metadata now later db).1 ≡ v
  unfolding session_event
  session_event-setup d id connection event result source metadata now later db h =
      search settle_event-setup

  pub device_by_token-setup :
      (cfg : Config) (token : String) (db : Db)
      → setup db ≡ v
      → setup (device_by_token cfg token db).1 ≡ v
  unfolding device_by_token
  device_by_token-setup cfg token db h = search setup_rules
