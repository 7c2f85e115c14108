-- ===== src/Store/Launch/RoundTrip.antt =====
-- A ticket that was issued can be redeemed.
use thin_pi.Prelude.{
  ℕ, ◌+◌, ◌<◌, String, ◌≡◌, refl, sym, ap, ◌∙◌, subst, true, false, ◌&&◌, Option, none, some, [],
  ◌∷◌, ◌++◌, arith, str_eq, str_eq_iff, ◌==◌, ==_iff, &&_left, &&_right, any-true, find-append,
  any_weaken, count_where-append, count_where_none, All-map, find, any, count_where, All, Bytes, ok,
}
use thin_pi.Stamp.RoundTrip.{parse_stamp-stamp}
use thin_pi.Policy.{PolicyStatus}
use thin_pi.Db.{Db, Config, Connection, DeviceRow, Ticket, Manifest}
use thin_pi.Store.Audit.{audit}
use thin_pi.Store.Access.{can_launch, permitted, in_group, launch_credential}
use thin_pi.Store.Launch.{
  new_ticket, insert_ticket, issue_ticket, create_allowed, create_launch_ticket, enabled_connection,
  ticket_matches, open_ticket, with_credential, manifest_of, redeem_launch_ticket,
}
use thin_pi.Store.Launch.Gate.{Issued}
use thin_pi.Store.Launch.Redeem.{ticket_matches_lem, redeem_launch_ticket_complete}

-- The tables that a redemption reads and that issuing a ticket leaves alone.
record SameGrants (db db' : Db) : Type 0 where
  connections : db'.connections ≡ db.connections
  user_permissions : db'.user_permissions ≡ db.user_permissions
  group_permissions : db'.group_permissions ≡ db.group_permissions
  user_groups : db'.user_groups ≡ db.user_groups
  credentials : db'.credentials ≡ db.credentials
  theme : db'.terminal_theme ≡ db.terminal_theme

create_keeps_grants :
    (cfg : Config) (user connection : ℕ) (name source : Bytes) (checked now later : ℕ)
    (token : Option String) (db db' : Db) (tok : String)
    → create_launch_ticket cfg user connection name source checked now later token db
      ≡ (ok tok, db')
    → SameGrants db db'
unfolding create_launch_ticket create_allowed issue_ticket insert_ticket audit
create_keeps_grants cfg user connection name source checked now later token db db' tok h =
    ground arith

module _ {db db' : Db} (same : SameGrants db db') where
  permitted_same :
      (user connection : ℕ) → permitted db' user connection ≡ permitted db user connection
  unfolding permitted in_group
  permitted_same user connection =
      simp (same.user_permissions, same.group_permissions, same.user_groups)

  launch_credential_same :
      (user : ℕ) (c : Connection) → launch_credential db' user c ≡ launch_credential db user c
  unfolding launch_credential in_group
  launch_credential_same user c =
      simp (same.user_permissions, same.group_permissions, same.user_groups)

  with_credential_same :
      (cfg : Config) (o : Option ℕ) (m : Manifest)
      → (with_credential cfg o m db').0 ≡ (with_credential cfg o m db).0
  unfolding with_credential
  with_credential_same cfg none m = refl
  with_credential_same cfg (some id) m = ground (arith, same.credentials)

can_launch-permitted :
    (db : Db) (user connection : ℕ)
    → can_launch db user connection ≡ true
    → permitted db user connection ≡ true
unfolding can_launch
can_launch-permitted db user connection h =
    let (c, hit) = any-true _ db.connections h in
    subst (λ k. permitted db user k ≡ true)
      ((==_iff c.id connection).0 (&&_left (c.id == connection) _ hit))
      (&&_right c.enabled _ (&&_right (c.id == connection) _ hit))

module _ (cfg : Config) (user connection device now : ℕ) (policy : PolicyStatus)
    (tok : String) where
  new_in : Db → Ticket
  new_in db = new_ticket cfg user connection device policy now db.next_ticket tok

  new_matches :
      (db db' : Db) (c : Connection)
      → enabled_connection db' connection ≡ some c
      → find (ticket_matches cfg db' tok device) (new_in db ∷ []) ≡ some (new_in db)
  unfolding new_in ticket_matches find
  new_matches db db' c enabled =
      ground (arith, (str_eq_iff (cfg.token_hash tok) (cfg.token_hash tok)).1 refl, enabled)

  new_found :
      (db db' : Db) (c : Connection)
      → db'.launch_tickets ≡ db.launch_tickets ++ (new_in db ∷ [])
      → any (λ u. str_eq u.token_hash (cfg.token_hash tok)) db.launch_tickets ≡ false
      → enabled_connection db' connection ≡ some c
      → find (ticket_matches cfg db' tok device) db'.launch_tickets ≡ some (new_in db)
  new_found db db' c written fresh enabled =
      ap (find (ticket_matches cfg db' tok device)) written
      ∙ find-append (ticket_matches cfg db' tok device) db.launch_tickets (new_in db ∷ []) (
          any_weaken (ticket_matches cfg db' tok device)
            (λ u. str_eq u.token_hash (cfg.token_hash tok)) db.launch_tickets
            (λ u h.
              (str_eq_iff u.token_hash (cfg.token_hash tok)).1
                (ticket_matches_lem cfg db' tok device u h).0)
            fresh)
      ∙ new_matches db db' c enabled

  new_counted :
      (db db' : Db)
      → db'.launch_tickets ≡ db.launch_tickets ++ (new_in db ∷ [])
      → All (λ t. t.id < db.next_ticket) db.launch_tickets
      → count_where (open_ticket db.next_ticket) db'.launch_tickets ≡ 1
  unfolding new_in open_ticket count_where
  new_counted db db' written ids =
      ap (count_where (open_ticket db.next_ticket)) written
      ∙ count_where-append (open_ticket db.next_ticket) db.launch_tickets (new_in db ∷ [])
      ∙ omega (
        arith,
        count_where_none (open_ticket db.next_ticket) db.launch_tickets (
            All-map (λ t. t.id < db.next_ticket) (λ t. open_ticket db.next_ticket t ≡ false)
              db.launch_tickets (λ t h. ground arith) ids),
        alone,
      )
    where
      alone : count_where (open_ticket db.next_ticket) (new_in db ∷ []) ≡ 1
      alone = ground arith

-- A ticket that was issued for a connection and a device is redeemed by that device at any time
-- before its lifetime is over, with the manifest of that connection; assumed are that the ids of
-- the table lie below the next id, that the settings row is there, and that the credential that
-- goes with the connection can be read.
pub create_redeem :
    (cfg : Config) (user connection : ℕ) (name source source' : Bytes)
    (checked now after now' later : ℕ) (token : Option String) (db db' : Db) (tok : String)
    (policy : PolicyStatus) (d : DeviceRow) (c : Connection) (theme : String) (m : Manifest)
    → create_launch_ticket cfg user connection name source checked now after token db
      ≡ (ok tok, db')
    → Issued cfg user connection name checked now db db' tok policy d
    → enabled_connection db connection ≡ some c
    → All (λ t. t.id < db.next_ticket) db.launch_tickets
    → db.terminal_theme ≡ some theme
    → (with_credential cfg
        (launch_credential db user c)
        (manifest_of (new_ticket cfg user connection d.id policy now db.next_ticket tok) c theme)
        db).0
      ≡ ok m
    → now' < now + cfg.ticket_ttl
    → (redeem_launch_ticket cfg tok d.id source' now' later db').0 ≡ ok m
unfolding new_in
create_redeem cfg user connection name source source' checked now after now' later token db db' tok
      policy d c theme m created issued enabled ids set read in_time =
    redeem_launch_ticket_complete cfg tok d.id source' now' later db'
      (new_in cfg user connection d.id now policy tok db) c theme m
      (new_found cfg user connection d.id now policy tok db db' c issued.written issued.fresh
        enabled')
      (record {
        connection = enabled';
        unused = refl;
        fresh = subst (λ e. now' < e) (sym (parse_stamp-stamp (now + cfg.ticket_ttl))) in_time;
        granted =
            permitted_same same user connection
            ∙ can_launch-permitted db user connection issued.granted;
      })
      (new_counted cfg user connection d.id now policy tok db db' issued.written ids)
      (same.theme ∙ set)
      (ap
          (λ o.
            (with_credential cfg o
              (manifest_of (new_ticket cfg user connection d.id policy now db.next_ticket tok) c
                theme)
              db').0)
          (launch_credential_same same user c)
        ∙ with_credential_same same cfg (launch_credential db user c) _
        ∙ read)
  where
    same : SameGrants db db'
    same =
        create_keeps_grants cfg user connection name source checked now after token db db' tok
          created

    enabled' : enabled_connection db' connection ≡ some c
    enabled' = ap (find (λ k. k.id == connection && k.enabled)) same.connections ∙ enabled
