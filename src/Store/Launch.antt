-- ===== src/Store/Launch.antt =====
-- store.go, `CreateLaunchTicket` and `RedeemLaunchTicket`: one-use tickets that carry a user's
-- permission to a device.
pub mod SingleUse
pub mod Gate
pub mod Redeem
pub mod RoundTrip
use thin_pi.Prelude.{
  ℕ, zero, suc, ◌+◌, ◌-◌, ◌*◌, ◌/◌, ◌%◌, ◌^◌, ◌≤◌, ◌<◌, max, String, ◌≡◌, refl, sym, ap, ◌∙◌, subst,
  ◌≢◌, ◌↔◌, ◌⊎◌, inl, inr, Bool, true, false, not, ◌&&◌, ◌||◌, Option, none, some, List, [], ◌∷◌,
  ◌++◌, map, arith, str_eq, str_eq_iff, ltb, leb, ◌==◌, if◌then◌else◌, ltb→lt, lt→ltb, leb→le,
  ==_iff, ==_refl, Bool-cases, Option-cases, &&_left, &&_right, is_some, length, length-append,
  find-All, is_nil, find, any, select, count_where, update_where, All, Bytes, bytes, text_eq,
  text_lt, lower_byte, to_lower, is_space, trim_left, trim_space, contains_byte, contains_any,
  text_eq_iff, Result, ok, err, Exec, pure, raise, continue, ◌>>=◌, ◌>>◌, gets, modify, require,
  or_fail, lift, roll_back, transact,
}
use thin_pi.Stamp.{stamp, parse_stamp}
use thin_pi.Policy.{PolicyStatus}
use thin_pi.Db.{
  Db, Action, Error, read, Config, Security, Connection, Ticket, Manifest, Credential, unauthorised,
  policy_restricted, random_failed, constraint_failed, ticket_invalid, no_rows, decrypt_failed,
  no_detail, refused, has_user, has_device, has_connection,
}
use thin_pi.Store.Audit.{audit}
use thin_pi.Store.Access.{can_launch, policy_status, permitted, launch_credential}

-- INSERT INTO launch_tickets: token_hash is UNIQUE, and the three ids are foreign keys.
unfoldable pub insert_ticket : Ticket → Action (Unit {0})
unfolding any has_user has_device has_connection
insert_ticket t db =
    if any (λ u. str_eq u.token_hash t.token_hash) db.launch_tickets
      || not (
          has_user db t.user_id && (has_device db t.device_id && has_connection db t.connection_id))
    then (err constraint_failed, db)
    else (
      ok tt,
      record db {
        launch_tickets = db.launch_tickets ++ (t ∷ []);
        next_ticket = suc db.next_ticket;
      },
    )

abbrev pub new_ticket : Config → ℕ → ℕ → ℕ → PolicyStatus → ℕ → ℕ → String → Ticket
new_ticket cfg user connection device policy now id tok = record {
  id = id;
  token_hash = cfg.token_hash tok;
  user_id = user;
  device_id = device;
  connection_id = connection;
  expires_at = stamp (now + cfg.ticket_ttl);
  redeemed_at = none;
  created_at = stamp now;
  max_session_seconds = policy.effective_max_seconds;
}

-- The ticket is stored with the status's limit; the event is recorded after the insert.
unfoldable pub issue_ticket :
    Config → ℕ → ℕ → ℕ → PolicyStatus → Bytes → ℕ → ℕ → Option String → Action String
issue_ticket cfg user connection device policy source now later token = do
  tok ← or_fail token random_failed
  db ← read
  insert_ticket (new_ticket cfg user connection device policy now db.next_ticket tok)
  audit later (some user) (some device) "launch_approved" (some connection) source "success"
      no_detail
  pure tok

unfoldable pub create_allowed :
    Config → ℕ → ℕ → Bytes → PolicyStatus → Bytes → ℕ → ℕ → Option String → Action String
create_allowed cfg user connection device policy source now later token =
    if policy.allowed
    then (do
      db ← read
      d ← or_fail (find (λ d. text_eq d.identifier device && d.enabled) db.devices) unauthorised
      issue_ticket cfg user connection d.id policy source now later token)
    else (do
      audit later (some user) none "launch_denied" (some connection) source "policy"
          (refused policy.reason)
      raise policy_restricted)

-- CreateLaunchTicket: the policy is evaluated at `checked`, the ticket is written at `now` and the event is
-- recorded at `later`.
unfoldable pub create_launch_ticket :
    Config → ℕ → ℕ → Bytes → Bytes → ℕ → ℕ → ℕ → Option String → Action String
create_launch_ticket cfg user connection device source checked now later token db =
    if can_launch db user connection
    then (do
      policy ← lift (policy_status cfg db user checked)
      create_allowed cfg user connection device policy source now later token)
        db
    else (do
      audit later (some user) none "launch_denied" (some connection) source "denied" no_detail
      raise unauthorised)
        db

-- The row of the join: a ticket of this token and device whose connection is enabled.
abbrev pub enabled_connection : Db → ℕ → Option Connection
enabled_connection db id = find (λ c. c.id == id && c.enabled) db.connections

unfoldable pub ticket_matches : Config → Db → String → ℕ → Ticket → Bool
unfolding find
ticket_matches cfg db token device t =
    str_eq t.token_hash (cfg.token_hash token)
    && (t.device_id == device && is_some (enabled_connection db t.connection_id))

abbrev pub secret_of : Security → Option Bytes → Result Error Bytes
secret_of sec none = ok []
secret_of sec (some []) = ok []
secret_of sec (some (b ∷ bs)) = elim (sec.decrypt (b ∷ bs)) [
  | none ↦ err decrypt_failed
  | some plain ↦ ok plain
]

abbrev pub text_or_empty : Option Bytes → Bytes
text_or_empty none = []
text_or_empty (some s) = s

unfoldable pub with_credential : Config → Option ℕ → Manifest → Action Manifest
unfolding find
with_credential cfg none m db = (ok m, db)
with_credential cfg (some id) m db =
    (do
      c ← or_fail (find (λ c. c.id == id) db.credentials) no_rows
      plain ← lift (secret_of cfg.security c.encrypted_secret)
      pure (record m {
        username = text_or_empty c.username;
        password = plain;
        credential_type = c.secret_type;
      }))
      db

-- UPDATE launch_tickets SET redeemed_at=? WHERE id=? AND redeemed_at IS NULL; one row must change.
unfoldable pub open_ticket : ℕ → Ticket → Bool
open_ticket id t = t.id == id && not (is_some t.redeemed_at)

unfoldable pub redeem_row : ℕ → ℕ → Action (Unit {0})
unfolding count_where update_where open_ticket stamp
redeem_row id now db =
    if count_where (open_ticket id) db.launch_tickets == 1
    then (
      ok tt,
      record db {
        launch_tickets =
            update_where (open_ticket id) (λ t. record t { redeemed_at = some (stamp now) })
              db.launch_tickets;
      },
    )
    else (err ticket_invalid, db)

abbrev pub manifest_of : Ticket → Connection → String → Manifest
manifest_of t c theme = record {
  ticket_id = t.id;
  connection_id = t.connection_id;
  name = c.name;
  protocol = c.protocol;
  host = c.host;
  port = c.port;
  username = [];
  password = [];
  credential_type = "";
  config = c.protocol_config;
  max_session_seconds = t.max_session_seconds;
  terminal_theme = theme;
}

-- What the transaction does with the row that it found.
unfoldable pub redeem_found : Config → ℕ → ℕ → Ticket → Connection → Action Manifest
redeem_found cfg now later t c = do
  require (not (is_some t.redeemed_at)) ticket_invalid
  db ← read
  theme ← or_fail db.terminal_theme no_rows
  require (ltb now (parse_stamp t.expires_at)) ticket_invalid
  require (permitted db t.user_id t.connection_id) ticket_invalid
  m ← with_credential cfg (launch_credential db t.user_id c) (manifest_of t c theme)
  redeem_row t.id later
  pure m

unfoldable pub redeem_transaction : Config → String → ℕ → ℕ → ℕ → Action (Manifest × ℕ)
redeem_transaction cfg token device now later db =
    (do
      t ← or_fail (find (ticket_matches cfg db token device) db.launch_tickets) ticket_invalid
      c ← or_fail (enabled_connection db t.connection_id) ticket_invalid
      m ← redeem_found cfg now later t c
      pure (m, t.user_id))
      db

-- RedeemLaunchTicket: `now` is read for the expiry, `later` for the stamps.
unfoldable pub redeem_launch_ticket : Config → String → ℕ → Bytes → ℕ → ℕ → Action Manifest
redeem_launch_ticket cfg token device source now later = do
  (m, user) ← transact (redeem_transaction cfg token device now later)
  audit later (some user) (some device) "launch_ticket_redeemed" (some m.connection_id) source
      "success" no_detail
  pure m
