-- ===== src/Store/Launch/Redeem.antt =====
-- When a ticket can be redeemed, and what redeeming it changes.
use thin_pi.Prelude.{
  ℕ, ◌<◌, String, ◌≡◌, refl, ◌∙◌, inl, inr, true, Option, none, some, List, arith, str_eq_iff,
  Option-cases, &&_left, find_sound, find, count_where, update_where, Bytes, ok, err,
}
use thin_pi.Stamp.{stamp, parse_stamp}
use thin_pi.Db.{Db, Error, Config, Connection, Ticket, Manifest}
use thin_pi.Store.Audit.{audit}
use thin_pi.Store.Access.{permitted, launch_credential}
use thin_pi.Store.Launch.{
  enabled_connection, ticket_matches, with_credential, open_ticket, redeem_row, manifest_of,
  redeem_found, redeem_transaction, redeem_launch_ticket,
}

-- A redemption that fails leaves the whole database as it was.
redeem_launch_ticket_rolls_back :
    (cfg : Config) (token : String) (device : ℕ) (source : Bytes) (now later : ℕ) (db db' : Db)
    (e : Error)
    → redeem_launch_ticket cfg token device source now later db ≡ (err e, db')
    → db' ≡ db
unfolding redeem_launch_ticket audit
redeem_launch_ticket_rolls_back cfg token device source now later db db' e h = ground arith

with_credential_state :
    (cfg : Config) (o : Option ℕ) (m : Manifest) (db : Db) → (with_credential cfg o m db).1 ≡ db
unfolding with_credential
with_credential_state cfg none m db = refl
with_credential_state cfg (some id) m db = ground arith

with_credential_keeps :
    (cfg : Config) (o : Option ℕ) (m m' : Manifest) (db : Db)
    → (with_credential cfg o m db).0 ≡ ok m'
    → (m'.ticket_id ≡ m.ticket_id)
      × (m'.connection_id ≡ m.connection_id)
      × (m'.max_session_seconds ≡ m.max_session_seconds)
      × (m'.protocol ≡ m.protocol)
      × (m'.host ≡ m.host)
      × (m'.port ≡ m.port)
unfolding with_credential
with_credential_keeps cfg none m m' db h = ground arith
with_credential_keeps cfg (some id) m m' db h = ground arith

-- What a ticket must satisfy to be redeemed.
pub record IsRedeemable (db : Db) (now : ℕ) (t : Ticket) (c : Connection) : Type 0 where
  pub connection : enabled_connection db t.connection_id ≡ some c
  pub unused : t.redeemed_at ≡ none
  pub fresh : now < parse_stamp t.expires_at
  pub granted : permitted db t.user_id t.connection_id ≡ true

abbrev pub redeemed_tickets : ℕ → ℕ → List Ticket → List Ticket
redeemed_tickets id now =
    update_where (open_ticket id) (λ t. record t { redeemed_at = some (stamp now) })

-- What a redemption does: the ticket could be redeemed, the manifest is for its connection and
-- carries its limit, and the rows of the ticket's id that were open are stamped.
pub record Redeemed (cfg : Config) (now later : ℕ) (db db' : Db) (t : Ticket) (c : Connection)
    (m : Manifest) : Type 0 where
  pub redeemable : IsRedeemable db now t c
  pub ticket : m.ticket_id ≡ t.id
  pub target : m.connection_id ≡ t.connection_id
  pub protocol : m.protocol ≡ c.protocol
  pub host : m.host ≡ c.host
  pub port : m.port ≡ c.port
  pub limit : m.max_session_seconds ≡ t.max_session_seconds
  pub written : db'.launch_tickets ≡ redeemed_tickets t.id later db.launch_tickets

redeem_found_sound :
    (cfg : Config) (now later : ℕ) (db db' : Db) (t : Ticket) (c : Connection) (m : Manifest)
    → enabled_connection db t.connection_id ≡ some c
    → redeem_found cfg now later t c db ≡ (ok m, db')
    → Redeemed cfg now later db db' t c m
unfolding redeem_found redeem_row
redeem_found_sound cfg now later db db' t c m e h = elim (Option-cases db.terminal_theme) [
  | inl missing ↦ ground arith
  | inr (theme, set) ↦
      let o = launch_credential db t.user_id c in
      ground (
        arith,
        with_credential_state cfg o (manifest_of t c theme) db,
        with_credential_keeps cfg o (manifest_of t c theme) m db,
      )
]

pub ticket_matches_lem :
    (cfg : Config) (db : Db) (token : String) (device : ℕ) (t : Ticket)
    → ticket_matches cfg db token device t ≡ true
    → (t.token_hash ≡ cfg.token_hash token) × (t.device_id ≡ device)
unfolding ticket_matches
ticket_matches_lem cfg db token device t h =
    ((str_eq_iff t.token_hash (cfg.token_hash token)).0 (&&_left _ _ h), ground arith)

-- A redemption that succeeds found a ticket of this token and device, unused, unexpired, whose
-- connection is enabled and whose user still has permission; the manifest names that ticket, its
-- connection, host, port, protocol and session limit; and in the tickets' table exactly the open
-- row of that ticket is marked redeemed.
pub redeem_launch_ticket_sound :
    (cfg : Config) (token : String) (device : ℕ) (source : Bytes) (now later : ℕ) (db db' : Db)
    (m : Manifest)
    → redeem_launch_ticket cfg token device source now later db ≡ (ok m, db')
    → (t : Ticket) × (c : Connection) × (find (ticket_matches cfg db token device) db.launch_tickets
        ≡ some t)
      × (t.token_hash ≡ cfg.token_hash token)
      × (t.device_id ≡ device)
      × Redeemed cfg now later db db' t c m
unfolding redeem_launch_ticket redeem_transaction audit
redeem_launch_ticket_sound cfg token device source now later db db' m h =
    elim (Option-cases (find (ticket_matches cfg db token device) db.launch_tickets)) [
      | inl missing ↦ absurd (ground arith)
      | inr (t, found) ↦ elim (Option-cases (enabled_connection db t.connection_id)) [
        | inl missing ↦ absurd (ground arith)
        | inr (c, enabled) ↦
            let (db₁, ran, kept) = transaction t c found enabled in
            let (hash, bound) =
              ticket_matches_lem cfg db token device t
                (find_sound (ticket_matches cfg db token device) db.launch_tickets t found) in
            let r = redeem_found_sound cfg now later db db₁ t c m enabled ran in
            (
              t,
              c,
              found,
              hash,
              bound,
              record {
                redeemable = r.redeemable;
                ticket = r.ticket;
                target = r.target;
                protocol = r.protocol;
                host = r.host;
                port = r.port;
                limit = r.limit;
                written = kept ∙ r.written;
              },
            )
      ]
    ]
  where
    transaction :
        (t : Ticket) (c : Connection)
        → find (ticket_matches cfg db token device) db.launch_tickets ≡ some t
        → enabled_connection db t.connection_id ≡ some c
        → (db₁ : Db) × (redeem_found cfg now later t c db ≡ (ok m, db₁))
          × (db'.launch_tickets ≡ db₁.launch_tickets)
    transaction t c found enabled =
        ((redeem_found cfg now later t c db).1, ground arith, ground arith)

-- Conversely a ticket that is found and can be redeemed is redeemed, where its id is a key of the
-- table, the settings row is there, and the credential can be read and decrypted.
pub redeem_launch_ticket_complete :
    (cfg : Config) (token : String) (device : ℕ) (source : Bytes) (now later : ℕ) (db : Db)
    (t : Ticket) (c : Connection) (theme : String) (m : Manifest)
    → find (ticket_matches cfg db token device) db.launch_tickets ≡ some t
    → IsRedeemable db now t c
    → count_where (open_ticket t.id) db.launch_tickets ≡ 1
    → db.terminal_theme ≡ some theme
    → (with_credential cfg (launch_credential db t.user_id c) (manifest_of t c theme) db).0 ≡ ok m
    → (redeem_launch_ticket cfg token device source now later db).0 ≡ ok m
unfolding redeem_launch_ticket redeem_transaction redeem_found redeem_row audit
redeem_launch_ticket_complete cfg token device source now later db t c theme m found ready key set
      read =
    ground (
      arith,
      with_credential_state cfg (launch_credential db t.user_id c) (manifest_of t c theme) db,
      ready.connection,
      ready.unused,
      ready.fresh,
      ready.granted,
    )
