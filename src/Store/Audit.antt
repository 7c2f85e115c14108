-- ===== src/Store/Audit.antt =====
-- store.go, `audit`: append to audit_events; an error of the INSERT is dropped, and the INSERT
-- fails where an id names no row of its table.
use thin_pi.Prelude.{
  ℕ, String, ◌≡◌, inl, inr, Bool, ◌&&◌, Option, [], ◌∷◌, ◌++◌, if◌then◌else◌, Bool-cases, Bytes,
  modify,
}
use thin_pi.Stamp.{stamp}
use thin_pi.Db.{Db, Action, AuditEvent, Detail, has_user, has_device, has_connection, refers}

-- The foreign keys of an event.
unfoldable pub event_fits : Db → AuditEvent → Bool
unfolding has_user has_device has_connection
event_fits db e =
    refers (has_user db) e.actor_user_id
    && refers (has_device db) e.device_id
    && refers (has_connection db) e.connection_id

unfoldable pub record_event : AuditEvent → Db → Db
unfolding event_fits
record_event e db =
    if event_fits db e then record db { audit_events = db.audit_events ++ (e ∷ []) } else db

unfoldable pub audit :
    ℕ → Option ℕ → Option ℕ → String → Option ℕ → Bytes → String → Detail → Action (Unit {0})
unfolding record_event
audit now user device event connection source result metadata = modify (
    record_event (record {
      timestamp = stamp now;
      actor_user_id = user;
      device_id = device;
      event_type = event;
      connection_id = connection;
      source_ip = source;
      result = result;
      metadata = metadata;
    }))

-- An event changes no other table.
pub record_event_frame :
    (e : AuditEvent) (db : Db)
    → record_event e db ≡ record db { audit_events = (record_event e db).audit_events }
unfolding record_event
record_event_frame e db = elim (Bool-cases (event_fits db e)) [
  | inl fits ↦ rw fits
  | inr broken ↦ rw broken
]
