-- ===== src/Store/Handoffs/Once.antt =====
-- A handoff code opens one session, for the administrator that it was made for.
use thin_pi.Prelude.{
  ℕ, ◌+◌, ◌*◌, ◌<◌, String, ◌≡◌, sym, ◌∙◌, subst, inl, inr, true, ◌&&◌, none, some, List, [], ◌∷◌,
  ◌++◌, arith, str_eq, str_eq_iff, Option-cases, &&_left, &&_right, is_some, find-All, find_sound,
  update_where, All, Bytes, ok, err, Result-cases,
}
use thin_pi.Stamp.{stamp, parse_stamp, minute}
use thin_pi.Db.{Db, Config, Handoff, SessionRow, unauthorised}
use thin_pi.Store.Audit.{audit}
use thin_pi.Store.Sessions.{insert_session}
use thin_pi.Store.Handoffs.{
  active_admin, handoff_with, handoff_minutes, open_handoff, redeem_handoff_row,
  redeem_handoff_transaction, redeem_admin_handoff,
}

abbrev pub AllSpent : String → List Handoff → Type 0
AllSpent hash = All (λ h. h.token_hash ≡ hash → is_some h.redeemed_at ≡ true)

abbrev pub redeemed_handoffs : String → ℕ → List Handoff → List Handoff
redeemed_handoffs hash now =
    update_where (open_handoff hash) (λ h. record h { redeemed_at = some (stamp now) })

redeemed-AllSpent :
    (hash : String) (now : ℕ) (hs : List Handoff) → AllSpent hash (redeemed_handoffs hash now hs)
unfolding update_where
redeemed-AllSpent hash now [] = tt
redeemed-AllSpent hash now (h ∷ hs) =
    (λ e. ground (arith, str_eq_iff h.token_hash hash), redeemed-AllSpent hash now hs)

abbrev pub opened : Config → Db → Handoff → ℕ → String → String → SessionRow
opened cfg db h later tok form = record {
  id = db.next_session;
  token_hash = cfg.token_hash tok;
  csrf_hash = cfg.token_hash form;
  user_id = h.user_id;
  expires_at = stamp (later + handoff_minutes db h.user_id * minute);
  last_seen_at = stamp later;
  revoked_at = none;
  created_at = stamp later;
}

inserted :
    (token_hash csrf_hash : String) (user now idle : ℕ) (db db' : Db)
    → insert_session token_hash csrf_hash user now idle db ≡ (ok tt, db')
    → (db'.sessions
        ≡ db.sessions
          ++ (record {
            id = db.next_session;
            token_hash = token_hash;
            csrf_hash = csrf_hash;
            user_id = user;
            expires_at = stamp (now + idle);
            last_seen_at = stamp now;
            revoked_at = none;
            created_at = stamp now;
          }
              ∷ []))
      × (db'.handoffs ≡ db.handoffs)
unfolding insert_session
inserted token_hash csrf_hash user now idle db db' h = (ground arith, ground arith)

module _ (cfg : Config) (token tok form : String) (now later : ℕ) (db : Db) (h : Handoff)
    (found : handoff_with db (cfg.token_hash token) ≡ some h) where
  abbrev marked : Db
  marked = record db { handoffs = redeemed_handoffs (cfg.token_hash token) later db.handoffs }

  transaction_sound :
      (user : ℕ) (db' : Db)
      → redeem_handoff_transaction cfg token tok form now later db ≡ (ok user, db')
      → (user ≡ h.user_id)
        × (h.redeemed_at ≡ none)
        × (now < parse_stamp h.expires_at)
        × (insert_session
              (cfg.token_hash tok)
              (cfg.token_hash form)
              h.user_id
              later
              (handoff_minutes db h.user_id * minute)
              marked
            ≡ (ok tt, db'))
  unfolding redeem_handoff_transaction redeem_handoff_row
  transaction_sound user db' e =
      (ground (arith, found), ground (arith, found), ground (arith, found), ground (arith, found))

  handoff_admin : active_admin db h.user_id ≡ true
  unfolding handoff_with
  handoff_admin = &&_right (str_eq h.token_hash (cfg.token_hash token)) _ (
      find_sound (λ g. str_eq g.token_hash (cfg.token_hash token) && active_admin db g.user_id)
        db.handoffs h found)

after_audit :
    (cfg : Config) (token : String) (source : Bytes) (now later : ℕ) (tok form k : String)
    (db db' : Db)
    → redeem_admin_handoff cfg token source now later (some tok) (some form) db ≡ (ok k, db')
    → (user : ℕ) × (db₁ : Db) × (redeem_handoff_transaction cfg token tok form now later db
        ≡ (ok user, db₁))
      × (k ≡ tok)
      × (db'.sessions ≡ db₁.sessions)
      × (db'.handoffs ≡ db₁.handoffs)
unfolding redeem_admin_handoff audit
after_audit cfg token source now later tok form k db db' e =
    elim (Result-cases (redeem_handoff_transaction cfg token tok form now later db).0) [
      | inr (x, failed) ↦ absurd (ground arith)
      | inl (user, ran) ↦ (
        user,
        (redeem_handoff_transaction cfg token tok form now later db).1,
        ground arith,
        ground arith,
        ground arith,
        ground arith,
      )
    ]

-- A redemption that succeeds found the code unused and unexpired, of a user who is an enabled
-- administrator; the one session that it adds is of that user and lasts that user's idle minutes,
-- and every handoff of the code is marked redeemed.
pub redeem_admin_handoff_sound :
    (cfg : Config) (token : String) (source : Bytes) (now later : ℕ) (tok form k : String)
    (db db' : Db)
    → redeem_admin_handoff cfg token source now later (some tok) (some form) db ≡ (ok k, db')
    → (h : Handoff) × (handoff_with db (cfg.token_hash token) ≡ some h)
      × (active_admin db h.user_id ≡ true)
      × (h.redeemed_at ≡ none)
      × (now < parse_stamp h.expires_at)
      × (db'.sessions ≡ db.sessions ++ (opened cfg db h later tok form ∷ []))
      × (db'.handoffs ≡ redeemed_handoffs (cfg.token_hash token) later db.handoffs)
redeem_admin_handoff_sound cfg token source now later tok form k db db' e =
    let (user, db₁, ran, same, sessions, handoffs) =
      after_audit cfg token source now later tok form k db db' e in
    elim (Option-cases (handoff_with db (cfg.token_hash token))) [
      | inl missing ↦ absurd (no_handoff user db₁ missing ran)
      | inr (h, found) ↦
          let (owner, unused, fresh, added) =
            transaction_sound cfg token tok form now later db h found user db₁ ran in
          let (written, kept) =
            inserted (cfg.token_hash tok) (cfg.token_hash form) h.user_id later
              (handoff_minutes db h.user_id * minute)
              (marked cfg token tok form now later db h found) db₁ added in
          (
            h,
            found,
            handoff_admin cfg token tok form now later db h found,
            unused,
            fresh,
            sessions ∙ written,
            handoffs ∙ kept,
          )
    ]
  where
    no_handoff :
        (user : ℕ) (db₁ : Db)
        → handoff_with db (cfg.token_hash token) ≡ none
        → redeem_handoff_transaction cfg token tok form now later db ≡ (ok user, db₁)
        → ⊥
    no_handoff user db₁ missing ran = unfold redeem_handoff_transaction in ground arith

-- A code whose handoffs are all redeemed is refused at every time.
spent_refused :
    (cfg : Config) (token : String) (source : Bytes) (now later : ℕ) (tok csrf : String) (db : Db)
    → AllSpent (cfg.token_hash token) db.handoffs
    → redeem_admin_handoff cfg token source now later (some tok) (some csrf) db
      ≡ (err unauthorised, db)
unfolding redeem_admin_handoff redeem_handoff_transaction audit
spent_refused cfg token source now later tok csrf db spent =
    elim (Option-cases (handoff_with db (cfg.token_hash token))) [
      | inl missing ↦ ground arith
      | inr (g, found) ↦ let used = use_of g found in ground arith
    ]
  where
    use_of :
        (g : Handoff)
        → handoff_with db (cfg.token_hash token) ≡ some g
        → is_some g.redeemed_at ≡ true
    use_of g found =
        unfold handoff_with in
        find-All (λ h. h.token_hash ≡ cfg.token_hash token → is_some h.redeemed_at ≡ true)
          (λ h. str_eq h.token_hash (cfg.token_hash token) && active_admin db h.user_id) db.handoffs
          spent g found
          ((str_eq_iff g.token_hash (cfg.token_hash token)).0 (
            &&_left _ (active_admin db g.user_id) (
              find_sound
                (λ h. str_eq h.token_hash (cfg.token_hash token) && active_admin db h.user_id)
                db.handoffs g found)))

-- After a redemption that succeeds, the code is refused at every time, as long as the handoffs are
-- as the redemption left them; nothing is written then.
pub redeem_admin_handoff_once :
    (cfg : Config) (token : String) (source source' : Bytes) (now later now' later' : ℕ)
    (tok form k again form' : String) (db db' db'' : Db)
    → redeem_admin_handoff cfg token source now later (some tok) (some form) db ≡ (ok k, db')
    → db''.handoffs ≡ db'.handoffs
    → redeem_admin_handoff cfg token source' now' later' (some again) (some form') db''
      ≡ (err unauthorised, db'')
redeem_admin_handoff_once cfg token source source' now later now' later' tok form k again form' db
      db' db'' h same =
    spent_refused cfg token source' now' later' again form' db'' (
      subst (AllSpent (cfg.token_hash token))
        (sym (same ∙ (redeem_admin_handoff_sound cfg token source now later tok form k db db' h).6))
        (redeemed-AllSpent (cfg.token_hash token) later db.handoffs))
