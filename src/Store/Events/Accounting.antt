-- ===== src/Store/Events/Accounting.antt =====
-- The usage of a ticket is started once and ended once, by the device of the ticket.
use thin_pi.Prelude.{
  ℕ, String, ◌≡◌, refl, ap, ◌∙◌, ◌⊎◌, inl, inr, Bool, true, ◌&&◌, Option, none, some, List, [], ◌∷◌,
  ◌++◌, arith, str_eq, ◌==◌, ==_iff, Bool-cases, Option-cases, &&_left, &&_right, is_some,
  find-update_where, find_sound, find, any, Bytes,
}
use thin_pi.Stamp.{stamp}
use thin_pi.Policy.{Usage}
use thin_pi.Db.{Db, Device, Ticket}
use thin_pi.Store.Audit.{audit}
use thin_pi.Store.Events.{
  reported_ticket, start_usage, close_usage, end_usage, close_found, duration, accepted_ticket,
  apply_event, settle_event, session_event, allowed_event, open_usage,
}

find-found {ℓ} :
    {A : Type ℓ} (p : A → Bool) (xs ys : List A) (x : A)
    → find p xs ≡ some x
    → find p (xs ++ ys) ≡ some x
unfolding find
find-found p [] ys x h = absurd (ground arith)
find-found p (y ∷ xs) ys x h = elim (Bool-cases (p y)) [
  | inl hit ↦ ground arith
  | inr miss ↦ rw miss (find-found p xs ys x (rw miss at h))
]

event_usage :
    (d : Device) (id : ℕ) (connection : Option ℕ) (event result : String) (source : Bytes)
    (metadata : Option String) (now later : ℕ) (db : Db)
    → ((session_event d id connection event result source metadata now later db).1.session_usage
        ≡ db.session_usage)
      ⊎ ((t : Ticket) × (reported_ticket db d id ≡ some t)
          × (connection ≡ some t.connection_id)
          × (allowed_event event ≡ true)
          × ((session_event d id connection event result source metadata now later
                db).1.session_usage
              ≡ (apply_event t event now db).session_usage))
unfolding session_event settle_event accepted_ticket audit
event_usage d id none event result source metadata now later db =
    elim (Option-cases (reported_ticket db d id)) [
      | inl missing ↦ inl (ground arith)
      | inr (t, found) ↦ inl (ground arith)
    ]
event_usage d id (some c) event result source metadata now later db =
    elim (Option-cases (reported_ticket db d id)) [
      | inl missing ↦ inl (ground arith)
      | inr (t, found) ↦ elim (Bool-cases (allowed_event event && c == t.connection_id)) [
        | inl fits ↦ inr (
          t,
          found,
          ap some ((==_iff c t.connection_id).0 (&&_right (allowed_event event) _ fits)),
          &&_left _ _ fits,
          ground arith,
        )
        | inr unfit ↦ inl (ground arith)
      ]
    ]

-- A report changes the usage only if its event is one of the three that are allowed and the table of
-- tickets has a redeemed ticket with the id that is named, of the device that reports and of the connection
-- that is named; then the usage is what the event makes of it for the first such ticket of the table.
pub session_event_sound :
    (d : Device) (id : ℕ) (connection : Option ℕ) (event result : String) (source : Bytes)
    (metadata : Option String) (now later : ℕ) (db : Db)
    → ((session_event d id connection event result source metadata now later db).1.session_usage
        ≡ db.session_usage)
      ⊎ ((t : Ticket) × (find
              (λ x. x.id == id && (x.device_id == d.id && is_some x.redeemed_at))
              db.launch_tickets
            ≡ some t)
          × (t.id ≡ id)
          × (t.device_id ≡ d.id)
          × (is_some t.redeemed_at ≡ true)
          × (connection ≡ some t.connection_id)
          × (allowed_event event ≡ true)
          × ((session_event d id connection event result source metadata now later
                db).1.session_usage
              ≡ (apply_event t event now db).session_usage))
unfolding reported_ticket
session_event_sound d id connection event result source metadata now later db =
    elim (event_usage d id connection event result source metadata now later db) [
      | inl same ↦ inl same
      | inr (t, found, named, allowed, left) ↦
          let hit =
            find_sound (λ t. t.id == id && (t.device_id == d.id && is_some t.redeemed_at))
              db.launch_tickets t found in
          inr (t, found, ground arith, ground arith, ground arith, named, allowed, left)
    ]

-- A row of usage that has ended is never changed by a report: it is found as it was.
pub session_event_ended :
    (d : Device) (id : ℕ) (connection : Option ℕ) (event result : String) (source : Bytes)
    (metadata : Option String) (now later : ℕ) (db : Db) (u : Usage)
    → find (λ v. v.ticket_id == u.ticket_id) db.session_usage ≡ some u
    → is_some u.ended_at ≡ true
    → find
        (λ v. v.ticket_id == u.ticket_id)
        (session_event d id connection event result source metadata now later db).1.session_usage
      ≡ some u
session_event_ended d id connection event result source metadata now later db u there over =
    elim (event_usage d id connection event result source metadata now later db) [
      | inl same ↦ ap (find (λ v. v.ticket_id == u.ticket_id)) same ∙ there
      | inr (t, found, named, allowed, left) ↦
          ap (find (λ v. v.ticket_id == u.ticket_id)) left ∙ applied t
    ]
  where
    closed :
        (id : ℕ) (o : Option Usage)
        → find (λ v. v.ticket_id == u.ticket_id) (close_found id now o db).session_usage ≡ some u
    closed id none = unfold close_found in there
    closed id (some v) =
        unfold close_found close_usage in
        find-update_where (λ v. v.ticket_id == u.ticket_id) (open_usage id)
          (λ w. record w { ended_at = some (stamp now); duration_seconds = duration now v })
          db.session_usage (λ w. refl)
        ∙ rw there (ground arith)

    ended :
        (t : Ticket)
        → find (λ v. v.ticket_id == u.ticket_id) (end_usage t.id now db).session_usage ≡ some u
    ended t = unfold end_usage in closed t.id (find (λ v. v.ticket_id == t.id) db.session_usage)

    started :
        (t : Ticket)
        → find (λ v. v.ticket_id == u.ticket_id) (start_usage t now db).session_usage ≡ some u
    started t =
        unfold start_usage in
        elim (Bool-cases (any (λ v. v.ticket_id == t.id) db.session_usage)) [
          | inl known ↦ rw known there
          | inr free ↦
              rw free (find-found (λ v. v.ticket_id == u.ticket_id) db.session_usage _ u there)
        ]

    applied :
        (t : Ticket)
        → find (λ v. v.ticket_id == u.ticket_id) (apply_event t event now db).session_usage ≡ some u
    applied t =
        unfold apply_event in
        elim (Bool-cases (str_eq event "session_started")) [
          | inl start ↦ rw start (started t)
          | inr finish ↦ rw finish (ended t)
        ]
