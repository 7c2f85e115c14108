-- ===== src/Store/Events.antt =====
-- store.go, `SessionEvent`: what an agent's reports do to session_usage. A report names its event
-- as a text; the metadata are `none` where they are empty or no JSON. The user, the device and the
-- connection of a ticket exist, since deleting one deletes its tickets (ON DELETE CASCADE), so the
-- INSERT meets no foreign key but its own conflict.
pub mod Accounting
use thin_pi.Prelude.{
  ℕ, zero, suc, ◌+◌, ◌-◌, ◌*◌, ◌/◌, ◌%◌, ◌^◌, ◌≤◌, ◌<◌, max, String, ◌≡◌, refl, sym, ap, ◌∙◌, subst,
  ◌≢◌, ◌↔◌, ◌⊎◌, inl, inr, Bool, true, false, not, ◌&&◌, ◌||◌, Option, none, some, List, [], ◌∷◌,
  ◌++◌, map, arith, str_eq, str_eq_iff, ltb, leb, ◌==◌, if◌then◌else◌, ltb→lt, lt→ltb, leb→le,
  ==_iff, ==_refl, Bool-cases, Option-cases, &&_left, &&_right, is_some, length, length-append,
  find-All, map_option, find-update_where, any-true, find-append, any_weaken, count_where-append,
  count_where_none, find_sound, find-any, any-false, All-update_where, All-append, All-map, is_nil,
  find, any, select, count_where, update_where, All, Bytes, bytes, text_eq, text_lt, lower_byte,
  to_lower, is_space, trim_left, trim_space, contains_byte, contains_any, text_eq_iff, Result, ok,
  err, Exec, pure, raise, continue, ◌>>=◌, ◌>>◌, gets, modify, require, or_fail, lift, roll_back,
  transact, Result-cases,
}
use thin_pi.Stamp.{stamp, parse_stamp, second}
use thin_pi.Policy.{Usage}
use thin_pi.Db.{Db, Action, read, Device, Ticket, Detail, no_detail, reported}
use thin_pi.Store.Audit.{audit}

-- SELECT user_id,connection_id FROM launch_tickets WHERE id=? AND device_id=? AND redeemed_at IS NOT NULL
unfoldable pub reported_ticket : Db → Device → ℕ → Option Ticket
unfolding find
reported_ticket db d id =
    find (λ t. t.id == id && (t.device_id == d.id && is_some t.redeemed_at)) db.launch_tickets

-- INSERT INTO session_usage ... ON CONFLICT(ticket_id) DO NOTHING
unfoldable pub start_usage : Ticket → ℕ → Db → Db
unfolding any
start_usage t now db = if any (λ u. u.ticket_id == t.id) db.session_usage then db else record db {
  session_usage =
      db.session_usage
      ++ (record {
        ticket_id = t.id;
        user_id = t.user_id;
        device_id = t.device_id;
        connection_id = t.connection_id;
        started_at = stamp now;
        ended_at = none;
        duration_seconds = 0;
      }
          ∷ []);
}

abbrev pub open_usage : ℕ → Usage → Bool
open_usage id u = u.ticket_id == id && not (is_some u.ended_at)

-- UPDATE session_usage SET ended_at=?,duration_seconds=? WHERE ticket_id=? AND ended_at IS NULL
unfoldable pub close_usage : ℕ → ℕ → ℕ → Db → Db
unfolding update_where
close_usage id now seconds db = record db {
  session_usage =
      update_where (open_usage id)
        (λ u. record u { ended_at = some (stamp now); duration_seconds = seconds })
        db.session_usage;
}

-- The seconds since a start; an end before the start is the duration 0.
unfoldable pub duration : ℕ → Usage → ℕ
duration now u = (now - parse_stamp u.started_at) / second

unfoldable pub close_found : ℕ → ℕ → Option Usage → Db → Db
close_found id now none db = db
close_found id now (some u) db = close_usage id now (duration now u) db

unfoldable pub end_usage : ℕ → ℕ → Db → Db
unfolding find
end_usage id now db = close_found id now (find (λ u. u.ticket_id == id) db.session_usage) db

abbrev pub allowed_event : String → Bool
allowed_event event =
    str_eq event "session_started"
    || (str_eq event "session_exited" || str_eq event "session_failed")

-- !allowed[event] || ticketErr != nil || connectionID == nil || *connectionID != ticketConnectionID
unfoldable pub accepted_ticket : Option Ticket → Option ℕ → String → Option Ticket
accepted_ticket (some t) (some connection) event =
    if allowed_event event && connection == t.connection_id then some t else none
accepted_ticket (some t) none event = none
accepted_ticket none connection event = none

unfoldable pub apply_event : Ticket → String → ℕ → Db → Db
apply_event t event now db =
    if str_eq event "session_started" then start_usage t now db else end_usage t.id now db

abbrev pub reporter : Option Ticket → Option ℕ
reporter none = none
reporter (some t) = some t.user_id

abbrev pub details : Option String → Detail
details none = no_detail
details (some m) = reported m

unfoldable pub settle_event :
    Option Ticket
    → Option Ticket
    → Device
    → Option ℕ
    → String
    → String
    → Bytes
    → Option String
    → ℕ
    → ℕ
    → Action (Unit {0})
settle_event none found d connection event result source metadata now later =
    audit later (reporter found) (some d.id) "session_event_rejected" connection source "invalid"
      (details metadata)
settle_event (some t) found d connection event result source metadata now later = do
  modify (apply_event t event now)
  audit later (reporter found) (some d.id) event connection source result (details metadata)

-- SessionEvent: `now` is read for the usage, `later` for the event.
unfoldable pub session_event :
    Device → ℕ → Option ℕ → String → String → Bytes → Option String → ℕ → ℕ → Action (Unit {0})
session_event d id connection event result source metadata now later = do
  db ← read
  settle_event (accepted_ticket (reported_ticket db d id) connection event)
      (reported_ticket db d id) d connection event result source metadata now later
