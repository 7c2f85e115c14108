-- ===== src/Store/Launch/SingleUse.antt =====
-- A launch ticket is good for one redemption.
use mathlib.Core.Option.{some-injective}
use thin_pi.Prelude.{
  ℕ, String, ◌≡◌, refl, sym, ap, ◌∙◌, subst, ◌≢◌, inl, inr, Bool, true, false, some, List, [], ◌∷◌,
  arith, if◌then◌else◌, Bool-cases, Option-cases, is_some, find-All, find_sound, All-update_where,
  All-map, find, update_where, All, Bytes, ok, err,
}
use thin_pi.Stamp.{stamp}
use thin_pi.Db.{Db, Connection, Config, Ticket, Manifest, ticket_invalid}
use thin_pi.Store.Audit.{audit}
use thin_pi.Store.Launch.{
  ticket_matches, open_ticket, redeem_found, redeem_transaction, redeem_launch_ticket,
}
use thin_pi.Store.Launch.Redeem.{
  redeemed_tickets, ticket_matches_lem, redeem_launch_ticket_sound, Redeemed,
}

-- Every ticket of the hash has been redeemed.
abbrev pub AllSpent : String → List Ticket → Type 0
AllSpent h = All (λ t. t.token_hash ≡ h → is_some t.redeemed_at ≡ true)

-- No two tickets have one hash, which the UNIQUE constraint keeps.
abbrev pub UniqueHashes : List Ticket → Type 0
UniqueHashes [] = Unit
UniqueHashes (t ∷ ts) = All (λ u. u.token_hash ≢ t.token_hash) ts × UniqueHashes ts

-- A token whose tickets are all redeemed is refused, on every device and at every time.
pub spent_refused :
    (cfg : Config) (token : String) (device : ℕ) (source : Bytes) (now later : ℕ) (db : Db)
    → AllSpent (cfg.token_hash token) db.launch_tickets
    → redeem_launch_ticket cfg token device source now later db ≡ (err ticket_invalid, db)
unfolding redeem_launch_ticket redeem_transaction redeem_found audit
spent_refused cfg token device source now later db spent =
    elim (Option-cases (find (ticket_matches cfg db token device) db.launch_tickets)) [
      | inl missing ↦ ground arith
      | inr (t, found) ↦
          let used =
            find-All (λ u. u.token_hash ≡ cfg.token_hash token → is_some u.redeemed_at ≡ true)
              (ticket_matches cfg db token device) db.launch_tickets spent t found
              (ticket_matches_lem cfg db token device t
                (find_sound (ticket_matches cfg db token device) db.launch_tickets t found)).0 in
          ground arith
    ]

-- In the part of the table behind a row, the row's hash does not occur, and an update keeps it so.
absent-AllSpent :
    (h : String) (q : Ticket → Bool) (f : Ticket → Ticket) (ts : List Ticket)
    → ((t : Ticket) → (f t).token_hash ≡ t.token_hash)
    → All (λ u. u.token_hash ≢ h) ts
    → AllSpent h (update_where q f ts)
absent-AllSpent h q f ts keeps absent =
    All-map (λ u. u.token_hash ≢ h) (λ t. t.token_hash ≡ h → is_some t.redeemed_at ≡ true)
      (update_where q f ts) (λ t ne e. absurd (ne e))
      (All-update_where (λ u. u.token_hash ≢ h) q f ts (λ t ne e. ne (sym (keeps t) ∙ e)) absent)

found-hash :
    (h : String) (p : Ticket → Bool) (ts : List Ticket) (t : Ticket)
    → ((u : Ticket) → p u ≡ true → u.token_hash ≡ h)
    → find p ts ≡ some t
    → All (λ u. u.token_hash ≢ h) ts
    → ⊥
found-hash h p ts t hashes found absent =
    find-All (λ u. u.token_hash ≢ h) p ts absent t found (hashes t (find_sound p ts t found))

mark : ℕ → Ticket → Ticket
mark later t = record t { redeemed_at = some (stamp later) }

marked-hash :
    (b : Bool) (later : ℕ) (t : Ticket) → (if b then mark later t else t).token_hash ≡ t.token_hash
unfolding mark
marked-hash true later t = refl
marked-hash false later t = refl

redeemed-AllSpent :
    (h : String) (later : ℕ) (p : Ticket → Bool) (ts : List Ticket) (t : Ticket)
    → ((u : Ticket) → p u ≡ true → u.token_hash ≡ h)
    → UniqueHashes ts
    → find p ts ≡ some t
    → AllSpent h (redeemed_tickets t.id later ts)
unfolding find update_where open_ticket mark
redeemed-AllSpent h later p [] t hashes unique found = tt
redeemed-AllSpent h later p (u ∷ us) t hashes unique found = elim (Bool-cases (p u)) [
  | inl hit ↦
      let same : u.id ≡ t.id = ap (λ r. r.id) (some-injective _ _ (rw hit at found)) in
      (
        λ _. ground arith,
        absent-AllSpent h (open_ticket t.id) (mark later) us (λ _. refl)
            (subst (λ k. All (λ v. v.token_hash ≢ k) us) (hashes u hit) unique.0),
      )
  | inr miss ↦
      let rest : find p us ≡ some t = rw miss at found in
      (
        λ e. absurd (
            found-hash h p us t hashes rest (
              subst (λ k. All (λ v. v.token_hash ≢ k) us)
                (sym (marked-hash (open_ticket t.id u) later u) ∙ e) unique.0)),
        redeemed-AllSpent h later p us t hashes unique.1 rest,
      )
]

-- After a redemption that succeeds, every later redemption of the token is refused, on every device
-- and at every time, as long as the tickets' table is as the redemption left it; the hashes of the
-- table are assumed distinct.
pub redeem_launch_ticket_once :
    (cfg : Config) (token : String) (device device' : ℕ) (source source' : Bytes)
    (now later now' later' : ℕ) (db db' db'' : Db) (m : Manifest)
    → UniqueHashes db.launch_tickets
    → redeem_launch_ticket cfg token device source now later db ≡ (ok m, db')
    → db''.launch_tickets ≡ db'.launch_tickets
    → redeem_launch_ticket cfg token device' source' now' later' db'' ≡ (err ticket_invalid, db'')
redeem_launch_ticket_once cfg token device device' source source' now later now' later' db db' db''
      m unique h same =
    spent_refused cfg token device' source' now' later' db'' (
      subst (AllSpent (cfg.token_hash token)) (sym (same ∙ written)) (
        redeemed-AllSpent (cfg.token_hash token) later (ticket_matches cfg db token device)
          db.launch_tickets t (λ u e. (ticket_matches_lem cfg db token device u e).0) unique found))
  where
    sound :
        (t : Ticket) × (c : Connection) × (find
            (ticket_matches cfg db token device)
            db.launch_tickets
          ≡ some t)
        × (t.token_hash ≡ cfg.token_hash token)
        × (t.device_id ≡ device)
        × Redeemed cfg now later db db' t c m
    sound = redeem_launch_ticket_sound cfg token device source now later db db' m h

    t : Ticket
    t = sound.0

    found : find (ticket_matches cfg db token device) db.launch_tickets ≡ some t
    found = sound.2

    written : db'.launch_tickets ≡ redeemed_tickets t.id later db.launch_tickets
    written = sound.5.written
