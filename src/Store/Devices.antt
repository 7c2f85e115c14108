-- ===== src/Store/Devices.antt =====
-- store.go, devices: `DeviceByToken`, `CreateEnrolmentToken`, `EnrolDevice` and `Heartbeat`.
pub mod Enrolment
use thin_pi.Prelude.{
  ℕ, zero, suc, ◌+◌, ◌-◌, ◌*◌, ◌/◌, ◌%◌, ◌^◌, ◌≤◌, ◌<◌, max, String, ◌≡◌, refl, sym, ap, ◌∙◌, subst,
  ◌≢◌, ◌↔◌, ◌⊎◌, inl, inr, Bool, true, false, not, ◌&&◌, ◌||◌, Option, none, some, List, [], ◌∷◌,
  ◌++◌, map, arith, str_eq, str_eq_iff, ltb, leb, ◌==◌, if◌then◌else◌, ltb→lt, lt→ltb, leb→le,
  ==_iff, ==_refl, Bool-cases, Option-cases, &&_left, &&_right, is_some, length, length-append,
  find-All, map_option, find-update_where, any-true, find-append, any_weaken, count_where-append,
  count_where_none, find_sound, find-any, any-false, All-update_where, All-append, All-map, is_nil,
  find, any, select, count_where, update_where, All, Bytes, bytes, text_eq, text_lt, lower_byte,
  to_lower, is_space, trim_left, trim_space, contains_byte, contains_any, text_eq_iff, Result, ok,
  err, Exec, pure, raise, continue, ◌>>=◌, ◌>>◌, gets, modify, require, or_fail, lift, roll_back,
  transact, Result-cases,
}
use thin_pi.Stamp.{stamp, parse_stamp}
use thin_pi.Db.{
  Db, Action, Error, read, Config, Device, DeviceRow, EnrolmentToken, unauthorised, random_failed,
  constraint_failed, invalid_device, no_detail,
}
use thin_pi.Store.Audit.{audit}
use thin_pi.Store.Users.{is_identifier, line_breaks}

-- DeviceByToken
unfoldable pub device_by_token : Config → String → Action Device
unfolding find
device_by_token cfg token db =
    (do
      d ← or_fail (find (λ d. str_eq d.token_hash (cfg.token_hash token)) db.devices) unauthorised
      require d.enabled unauthorised
      pure d.device)
      db

-- INSERT INTO enrolment_tokens: token_hash is UNIQUE.
unfoldable pub insert_enrolment : EnrolmentToken → Action (Unit {0})
unfolding any
insert_enrolment t db =
    if any (λ u. str_eq u.token_hash t.token_hash) db.enrolment_tokens
    then (err constraint_failed, db)
    else (
      ok tt,
      record db {
        enrolment_tokens = db.enrolment_tokens ++ (t ∷ []);
        next_enrolment = suc db.next_enrolment;
      },
    )

-- CreateEnrolmentToken
unfoldable pub create_enrolment_token : Config → Bytes → ℕ → ℕ → Option String → Action String
unfolding insert_enrolment
create_enrolment_token cfg name ttl now token = do
  tok ← or_fail token random_failed
  db ← read
  insert_enrolment (record {
    id = db.next_enrolment;
    token_hash = cfg.token_hash tok;
    name = trim_space name;
    expires_at = stamp (now + ttl);
    redeemed_at = none;
    created_at = stamp now;
  })
  pure tok

-- !identifierPattern.MatchString(identifier) || name == "" || len(name) > 128 || ...
unfoldable pub valid_device : Bytes → Bytes → Bool
unfolding is_identifier contains_any
valid_device identifier name =
    is_identifier identifier
    && (not (is_nil name) && (leb (length name) 128 && not (contains_any line_breaks name)))

-- INSERT INTO devices: device_identifier and token_hash are UNIQUE.
unfoldable pub insert_device : DeviceRow → Action (Unit {0})
unfolding any text_eq
insert_device d db =
    if any (λ e. text_eq e.identifier d.identifier || str_eq e.token_hash d.token_hash) db.devices
    then (err constraint_failed, db)
    else (ok tt, record db { devices = db.devices ++ (d ∷ []); next_device = suc db.next_device })

abbrev pub new_device : Config → ℕ → Bytes → Bytes → String → ℕ → DeviceRow
new_device cfg id identifier name credential now = record {
  device = record { id = id; name = name; identifier = identifier; enabled = true };
  token_hash = cfg.token_hash credential;
  last_seen_at = none;
  last_ip = none;
  client_versions = "{}";
  created_at = stamp now;
  updated_at = stamp now;
}

-- UPDATE enrolment_tokens SET redeemed_at=? WHERE id=? AND redeemed_at IS NULL
unfoldable pub spend_enrolment : ℕ → ℕ → Db → Db
unfolding update_where
spend_enrolment id now db = record db {
  enrolment_tokens =
      update_where (λ t. t.id == id && not (is_some t.redeemed_at))
        (λ t. record t { redeemed_at = some (stamp now) }) db.enrolment_tokens;
}

abbrev pub enrolment_with : Db → String → Option EnrolmentToken
enrolment_with db hash = find (λ t. str_eq t.token_hash hash) db.enrolment_tokens

unfoldable pub enrol_transaction :
    Config → String → Bytes → Bytes → ℕ → ℕ → Option String → Action (String × Device)
enrol_transaction cfg token identifier name now later credential db =
    (do
      t ← or_fail (enrolment_with db (cfg.token_hash token)) unauthorised
      require (not (is_some t.redeemed_at) && ltb now (parse_stamp t.expires_at)) unauthorised
      key ← or_fail credential random_failed
      insert_device (new_device cfg db.next_device identifier name key later)
      modify (spend_enrolment t.id later)
      pure (
        key,
        record { id = db.next_device; name = name; identifier = identifier; enabled = true },
      ))
      db

-- EnrolDevice: `now` is read for the expiry, `later` for the stamps.
unfoldable pub enrol_device :
    Config → String → Bytes → Bytes → Bytes → ℕ → ℕ → Option String → Action (String × Device)
unfolding valid_device
enrol_device cfg token identifier name source now later credential = do
  require (valid_device identifier name) invalid_device
  (key, d) ← transact (enrol_transaction cfg token identifier name now later credential)
  audit later none (some d.id) "device_enrolled" none source "success" no_detail
  pure (key, d)

-- Heartbeat; `versions` is `none` where the text is empty or no JSON.
unfoldable pub heartbeat : Device → Bytes → Option String → ℕ → ℕ → Db → Db
unfolding update_where
heartbeat d source versions now later db = record db {
  devices =
      update_where (λ r. r.id == d.id && r.enabled)
        (λ r. record r {
          last_seen_at = some (stamp now);
          last_ip = some source;
          client_versions = elim versions [ none ↦ "{}" | some v ↦ v ];
          updated_at = stamp later;
        })
        db.devices;
}
