-- ===== src/Store/Launch/Gate.antt =====
-- Who is given a launch ticket.
use thin_pi.Prelude.{
  ◌+◌, ℕ, String, ◌≡◌, inl, inr, true, false, ◌&&◌, Option, none, some, [], ◌∷◌, ◌++◌, arith,
  str_eq, Option-cases, find, any, Bytes, text_eq, ok, err, Result-cases,
}
use thin_pi.Stamp.{stamp}
use thin_pi.Policy.{PolicyStatus}
use thin_pi.Db.{Db, Error, Config, DeviceRow}
use thin_pi.Store.Audit.{audit}
use thin_pi.Store.Access.{can_launch, policy_status}
use thin_pi.Store.Launch.{
  new_ticket, insert_ticket, issue_ticket, create_allowed, create_launch_ticket,
}

abbrev pub device_named : Bytes → Db → Option DeviceRow
device_named name db = find (λ d. text_eq d.identifier name && d.enabled) db.devices

-- What a ticket rests on: the permission, a policy that allows this instant, an enabled device of
-- the name, and a hash that no ticket has; and the one row that is written, at the end.
pub record Issued (cfg : Config) (user connection : ℕ) (name : Bytes) (checked now : ℕ)
    (db db' : Db) (tok : String) (policy : PolicyStatus) (d : DeviceRow) : Type 0 where
  pub granted : can_launch db user connection ≡ true
  pub evaluated : policy_status cfg db user checked ≡ ok policy
  pub in_time : policy.allowed ≡ true
  pub device : device_named name db ≡ some d
  pub fresh : any (λ u. str_eq u.token_hash (cfg.token_hash tok)) db.launch_tickets ≡ false
  pub written :
      db'.launch_tickets
      ≡ db.launch_tickets
        ++ (record {
          id = db.next_ticket;
          token_hash = cfg.token_hash tok;
          user_id = user;
          device_id = d.id;
          connection_id = connection;
          expires_at = stamp (now + cfg.ticket_ttl);
          redeemed_at = none;
          created_at = stamp now;
          max_session_seconds = policy.effective_max_seconds;
        }
            ∷ [])

issue_ticket_sound :
    (cfg : Config) (user connection device : ℕ) (policy : PolicyStatus) (source : Bytes)
    (now later : ℕ) (token : Option String) (db db' : Db) (tok : String)
    → issue_ticket cfg user connection device policy source now later token db ≡ (ok tok, db')
    → (any (λ u. str_eq u.token_hash (cfg.token_hash tok)) db.launch_tickets ≡ false)
      × (db'.launch_tickets
          ≡ db.launch_tickets
            ++ (new_ticket cfg user connection device policy now db.next_ticket tok ∷ []))
unfolding issue_ticket insert_ticket audit
issue_ticket_sound cfg user connection device policy source now later none db db' tok h =
    absurd (ground arith)
issue_ticket_sound cfg user connection device policy source now later (some k) db db' tok h =
    ground arith

-- A launch ticket is issued only to a user who may launch the connection and whose policy allows the instant
-- at which it is evaluated, for an enabled device of that name; the one row that is added has the token's
-- hash, these ids, the policy's session limit and an expiry one lifetime after it is written.
pub create_launch_ticket_sound :
    (cfg : Config) (user connection : ℕ) (name source : Bytes) (checked now later : ℕ)
    (token : Option String) (db db' : Db) (tok : String)
    → create_launch_ticket cfg user connection name source checked now later token db
      ≡ (ok tok, db')
    → (policy : PolicyStatus) × (d : DeviceRow) × Issued cfg user connection name checked now db db'
        tok policy d
unfolding create_launch_ticket create_allowed
create_launch_ticket_sound cfg user connection name source checked now later token db db' tok h =
    elim (Result-cases (policy_status cfg db user checked)) [
      | inr (e, failed) ↦ absurd (ground arith)
      | inl (policy, evaluated) ↦ elim (Option-cases (device_named name db)) [
        | inl missing ↦ absurd (ground arith)
        | inr (d, found) ↦
            let (fresh, written) =
              issue_ticket_sound cfg user connection d.id policy source now later token db db' tok
                (ground arith) in
            (
              policy,
              d,
              record {
                granted = ground arith;
                evaluated = evaluated;
                in_time = ground arith;
                device = found;
                fresh = fresh;
                written = written;
              },
            )
      ]
    ]

-- A request that is refused writes no ticket, whatever the reason.
create_launch_ticket_refused :
    (cfg : Config) (user connection : ℕ) (name source : Bytes) (checked now later : ℕ)
    (token : Option String) (db db' : Db) (e : Error)
    → create_launch_ticket cfg user connection name source checked now later token db ≡ (err e, db')
    → (db'.launch_tickets ≡ db.launch_tickets) × (db'.next_ticket ≡ db.next_ticket)
unfolding create_launch_ticket create_allowed issue_ticket insert_ticket audit
create_launch_ticket_refused cfg user connection name source checked now later token db db' e h =
    ground arith
