-- ===== src/Store/Devices/Enrolment.antt =====
-- An enrolment token enrols one device, and the device's credential then authenticates it.
use thin_pi.Prelude.{
  update_where, ℕ, ◌<◌, String, ◌≡◌, refl, sym, ap, ◌∙◌, subst, inl, inr, true, false, not, ◌&&◌,
  ◌||◌, Option, none, some, [], ◌∷◌, ◌++◌, arith, str_eq, str_eq_iff, ◌==◌, if◌then◌else◌, ==_refl,
  Bool-cases, Option-cases, is_some, map_option, find-update_where, find-append, any_weaken, find,
  any, Bytes, text_eq, ok, err,
}
use thin_pi.Stamp.{stamp, parse_stamp}
use thin_pi.Db.{Db, Config, Device, DeviceRow, EnrolmentToken, Error, unauthorised, invalid_device}
use thin_pi.Store.Audit.{audit}
use thin_pi.Store.Devices.{
  device_by_token, insert_device, new_device, spend_enrolment, enrolment_with, enrol_transaction,
  enrol_device, valid_device,
}

-- What an enrolment that succeeds has found and written.
pub record Enrolled (cfg : Config) (token : String) (identifier name : Bytes) (now later : ℕ)
    (db db' : Db) (key : String) (d : Device) (t : EnrolmentToken) : Type 0 where
  pub valid : valid_device identifier name ≡ true
  pub found : enrolment_with db (cfg.token_hash token) ≡ some t
  pub unused : t.redeemed_at ≡ none
  pub fresh : now < parse_stamp t.expires_at
  pub device : d ≡ (new_device cfg db.next_device identifier name key later).device
  pub unknown :
      any
        (λ e. text_eq e.identifier identifier || str_eq e.token_hash (cfg.token_hash key))
        db.devices
      ≡ false
  pub added :
      db'.devices ≡ db.devices ++ (new_device cfg db.next_device identifier name key later ∷ [])
  pub spent :
      db'.enrolment_tokens
      ≡ update_where
          (λ u. u.id == t.id && not (is_some u.redeemed_at))
          (λ (u : EnrolmentToken). record u { redeemed_at = some (stamp later) })
          db.enrolment_tokens

inserted :
    (r : DeviceRow) (db db' : Db)
    → insert_device r db ≡ (ok tt, db')
    → (any (λ e. text_eq e.identifier r.identifier || str_eq e.token_hash r.token_hash) db.devices
        ≡ false)
      × (db'.devices ≡ db.devices ++ (r ∷ []))
      × (db'.enrolment_tokens ≡ db.enrolment_tokens)
unfolding insert_device
inserted r db db' h = (ground arith, ground arith, ground arith)

module _ (cfg : Config) (token : String) (identifier name : Bytes) (now later : ℕ) (db : Db) where
  transaction_sound :
      (k key : String) (d : Device) (t : EnrolmentToken) (db' : Db)
      → enrolment_with db (cfg.token_hash token) ≡ some t
      → enrol_transaction cfg token identifier name now later (some k) db ≡ (ok (key, d), db')
      → (t.redeemed_at ≡ none)
        × (now < parse_stamp t.expires_at)
        × (key ≡ k)
        × (d ≡ (new_device cfg db.next_device identifier name k later).device)
        × ((mid : Db) × (insert_device (new_device cfg db.next_device identifier name k later) db
              ≡ (ok tt, mid))
            × (db' ≡ spend_enrolment t.id later mid))
  unfolding enrol_transaction
  transaction_sound k key d t db' found h = (
    ground (arith, found),
    ground (arith, found),
    ground (arith, found),
    ground (arith, found),
    (
      (insert_device (new_device cfg db.next_device identifier name k later) db).1,
      ground (arith, found),
      ground (arith, found),
    ),
  )

  after_audit :
      (source : Bytes) (credential : Option String) (key : String) (d : Device) (db' : Db)
      → enrol_device cfg token identifier name source now later credential db ≡ (ok (key, d), db')
      → (valid_device identifier name ≡ true)
        × ((db₁ : Db) × (enrol_transaction cfg token identifier name now later credential db
              ≡ (ok (key, d), db₁))
            × (db'.devices ≡ db₁.devices)
            × (db'.enrolment_tokens ≡ db₁.enrolment_tokens))
  unfolding enrol_device audit
  after_audit source credential key d db' h = (
    ground arith,
    (
      (enrol_transaction cfg token identifier name now later credential db).1,
      ground arith,
      ground arith,
      ground arith,
    ),
  )

  needs_credential :
      (r : String × Device) (db' : Db)
      → enrol_transaction cfg token identifier name now later none db ≡ (ok r, db')
      → ⊥
  unfolding enrol_transaction
  needs_credential r db' h = ground arith

  needs_token :
      (credential : Option String) (r : String × Device) (db' : Db)
      → enrolment_with db (cfg.token_hash token) ≡ none
      → enrol_transaction cfg token identifier name now later credential db ≡ (ok r, db')
      → ⊥
  unfolding enrol_transaction
  needs_token credential r db' missing h = ground (arith, missing)

  spent_same :
      (id : ℕ) (mid : Db)
      → mid.enrolment_tokens ≡ db.enrolment_tokens
      → (spend_enrolment id later mid).enrolment_tokens
        ≡ update_where
            (λ u. u.id == id && not (is_some u.redeemed_at))
            (λ (u : EnrolmentToken). record u { redeemed_at = some (stamp later) })
            db.enrolment_tokens
  unfolding spend_enrolment
  spent_same id mid e = rw e

  spend_keeps : (id : ℕ) (mid : Db) → (spend_enrolment id later mid).devices ≡ mid.devices
  unfolding spend_enrolment
  spend_keeps id mid = refl

-- An enrolment that succeeds had a valid identifier and name and a token unused and unexpired; it
-- adds one enabled device, whose identifier and credential no device had, and spends the token.
pub enrol_device_sound :
    (cfg : Config) (token : String) (identifier name source : Bytes) (now later : ℕ)
    (credential : Option String) (db db' : Db) (key : String) (d : Device)
    → enrol_device cfg token identifier name source now later credential db ≡ (ok (key, d), db')
    → (t : EnrolmentToken) × Enrolled cfg token identifier name now later db db' key d t
enrol_device_sound cfg token identifier name source now later credential db db' key d h =
    let (valid, (db₁, ran, devices, tokens)) =
      after_audit cfg token identifier name now later db source credential key d db' h in
    elim (Option-cases (enrolment_with db (cfg.token_hash token))) [
      | inl missing ↦
          absurd
            (needs_token cfg token identifier name now later db credential (key, d) db₁ missing ran)
      | inr (t, found) ↦ (t, enrolled t found valid db₁ credential ran devices tokens)
    ]
  where
    enrolled :
        (t : EnrolmentToken)
        → enrolment_with db (cfg.token_hash token) ≡ some t
        → valid_device identifier name ≡ true
        → (db₁ : Db) (c : Option String)
        → enrol_transaction cfg token identifier name now later c db ≡ (ok (key, d), db₁)
        → db'.devices ≡ db₁.devices
        → db'.enrolment_tokens ≡ db₁.enrolment_tokens
        → Enrolled cfg token identifier name now later db db' key d t
    enrolled t found valid db₁ none ran devices tokens =
        absurd (needs_credential cfg token identifier name now later db (key, d) db₁ ran)
    enrolled t found valid db₁ (some k) ran devices tokens =
        let (unused, fresh, same, device, (mid, added, left)) =
          transaction_sound cfg token identifier name now later db k key d t db₁ found ran in
        let row = λ (c : String). new_device cfg db.next_device identifier name c later in
        let (unknown, written, kept) = inserted (row k) db mid added in
        record {
          valid = valid;
          found = found;
          unused = unused;
          fresh = fresh;
          device = device ∙ ap (λ c. (row c).device) (sym same);
          unknown =
              subst
                (λ c.
                  any
                    (λ e. text_eq e.identifier identifier || str_eq e.token_hash (cfg.token_hash c))
                    db.devices
                  ≡ false)
                (sym same) unknown;
          added =
              devices
              ∙ ap (λ (x : Db). x.devices) left
              ∙ spend_keeps cfg token identifier name now later db t.id mid
              ∙ written
              ∙ ap (λ c. db.devices ++ (row c ∷ [])) (sym same);
          spent =
              tokens
              ∙ ap (λ (x : Db). x.enrolment_tokens) left
              ∙ spent_same cfg token identifier name now later db t.id mid kept;
        }

-- An enrolment that fails changes nothing.
enrol_device_rolls_back :
    (cfg : Config) (token : String) (identifier name source : Bytes) (now later : ℕ)
    (credential : Option String) (db db' : Db) (e : Error)
    → enrol_device cfg token identifier name source now later credential db ≡ (err e, db')
    → db' ≡ db
unfolding enrol_device audit
enrol_device_rolls_back cfg token identifier name source now later credential db db' e h =
    ground arith

-- The credential that an enrolment returns authenticates the device that it returns.
pub enrol_device_authenticates :
    (cfg : Config) (token : String) (identifier name source : Bytes) (now later : ℕ)
    (credential : Option String) (db db' : Db) (key : String) (d : Device)
    → enrol_device cfg token identifier name source now later credential db ≡ (ok (key, d), db')
    → device_by_token cfg key db' ≡ (ok d, db')
unfolding device_by_token
enrol_device_authenticates cfg token identifier name source now later credential db db' key d h =
    let (t, e) =
      enrol_device_sound cfg token identifier name source now later credential db db' key d h in
    let row = new_device cfg db.next_device identifier name key later in
    let found : find (λ r. str_eq r.token_hash (cfg.token_hash key)) db'.devices ≡ some row =
      ap (find (λ r. str_eq r.token_hash (cfg.token_hash key))) e.added
      ∙ find-append (λ r. str_eq r.token_hash (cfg.token_hash key)) db.devices (row ∷ [])
          (any_weaken (λ r. str_eq r.token_hash (cfg.token_hash key))
            (λ r. text_eq r.identifier identifier || str_eq r.token_hash (cfg.token_hash key))
            db.devices (λ r hit. ground arith) e.unknown)
      ∙ alone row refl in
    rw found (ground (arith, e.device))
  where
    alone :
        (r : DeviceRow)
        → r.token_hash ≡ cfg.token_hash key
        → find (λ q. str_eq q.token_hash (cfg.token_hash key)) (r ∷ []) ≡ some r
    alone r same = unfold find in rw ((str_eq_iff r.token_hash (cfg.token_hash key)).1 same)

-- The token of an enrolment that succeeded is refused in every state whose table of enrolment tokens is
-- as that enrolment left it, whoever presents it and whenever, and nothing is written.
pub enrol_device_once :
    (cfg : Config) (token : String) (identifier identifier' name name' source source' : Bytes)
    (now later now' later' : ℕ) (credential credential' : Option String) (db db' db'' : Db)
    (key : String) (d : Device)
    → enrol_device cfg token identifier name source now later credential db ≡ (ok (key, d), db')
    → db''.enrolment_tokens ≡ db'.enrolment_tokens
    → (e : Error) × (enrol_device cfg token identifier' name' source' now' later' credential' db''
        ≡ (err e, db''))
unfolding spend_enrolment
enrol_device_once cfg token identifier identifier' name name' source source' now later now' later'
      credential credential' db db' db'' key d h same =
    let (t, e) =
      enrol_device_sound cfg token identifier name source now later credential db db' key d h in
    refused (record t { redeemed_at = some (stamp later) }) refl
      (ap (find (λ t. str_eq t.token_hash (cfg.token_hash token))) (same ∙ e.spent)
        ∙ spent_row t e.found e.unused)
  where
    spent_row :
        (t : EnrolmentToken)
        → enrolment_with db (cfg.token_hash token) ≡ some t
        → t.redeemed_at ≡ none
        → enrolment_with (spend_enrolment t.id later db) (cfg.token_hash token)
          ≡ some (record t { redeemed_at = some (stamp later) })
    spent_row t found unused =
        unfold spend_enrolment in
        find-update_where (λ t. str_eq t.token_hash (cfg.token_hash token))
          (λ u. u.id == t.id && not (is_some u.redeemed_at))
          (λ u. record u { redeemed_at = some (stamp later) }) db.enrolment_tokens (λ u. refl)
        ∙ ap
            (map_option (λ u.
              if u.id == t.id && not (is_some u.redeemed_at)
              then record u { redeemed_at = some (stamp later) }
              else u))
            found
        ∙ rw (==_refl t.id, unused)

    refused :
        (t : EnrolmentToken)
        → is_some t.redeemed_at ≡ true
        → enrolment_with db'' (cfg.token_hash token) ≡ some t
        → (e : Error) × (enrol_device cfg token identifier' name' source' now' later' credential'
              db''
            ≡ (err e, db''))
    refused t used found = elim (Bool-cases (valid_device identifier' name')) [
      | inl good ↦ (unauthorised, unfold enrol_device enrol_transaction audit in ground arith)
      | inr bad ↦ (invalid_device, unfold enrol_device audit in ground arith)
    ]
