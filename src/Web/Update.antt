-- ===== src/Web/Update.antt =====
-- controller/internal/web/server.go, `adminUpdate`. No update is a transaction: what was written before
-- an error stays.
pub mod Outcomes
use thin_pi.Prelude.{
  ℕ, zero, suc, ◌+◌, ◌-◌, ◌*◌, ◌/◌, ◌%◌, ◌^◌, ◌≤◌, ◌<◌, max, String, ◌≡◌, refl, sym, ap, ◌∙◌, subst,
  ◌≢◌, ◌↔◌, ◌⊎◌, inl, inr, Bool, true, false, not, ◌&&◌, ◌||◌, Option, none, some, List, [], ◌∷◌,
  ◌++◌, map, arith, str_eq, str_eq_iff, ltb, leb, ◌==◌, if◌then◌else◌, ltb→lt, lt→ltb, leb→le,
  ==_iff, ==_refl, Bool-cases, Option-cases, &&_left, &&_right, is_some, length, length-append,
  find-All, map_option, find-update_where, any-true, find-append, any_weaken, count_where-append,
  count_where_none, find_sound, find-any, any-false, All-update_where, All-append, All-map, is_nil,
  find, any, select, count_where, update_where, All, Bytes, bytes, text_eq, text_lt, lower_byte,
  to_lower, is_space, trim_left, trim_space, contains_byte, contains_any, text_eq_iff, Result, ok,
  err, Exec, pure, raise, continue, ◌>>=◌, ◌>>◌, gets, modify, require, or_fail, lift, roll_back,
  transact, Result-cases,
}
use thin_pi.Stamp.{stamp}
use thin_pi.Policy.{AccessPolicy, Usage}
use thin_pi.Db.{
  Db, Action, Error, Config, UserRow, DeviceRow, Connection, Group, Ticket, invalid_request,
  invalid_password, constraint_failed, invalid_timezone, has_user, same_name, no_detail, changed,
}
use thin_pi.Store.Audit.{audit}
use thin_pi.Store.Credentials.{replace_credential}
use thin_pi.Web.Validate.{valid_label, decode_profile_photo}
use thin_pi.Web.Bodies.{
  UserBody, GroupBody, ConnectionBody, CredentialBody, DeviceBody, SettingsBody, Readers, decode,
}
use thin_pi.Web.Create.{Moment, Server, valid_group, valid_connection, connection_of}
use thin_pi.Web.Records.{
  update_user, update_group, update_connection, update_credential, update_device,
}

-- DELETE FROM launch_tickets WHERE ...; the usage of a ticket goes with it.
unfoldable pub delete_tickets : (Ticket → Bool) → Db → Db
unfolding select any
delete_tickets p db = record db {
  launch_tickets = select (λ t. not (p t)) db.launch_tickets;
  session_usage =
      select (λ (u : Usage). not (any (λ t. p t && t.id == u.ticket_id) db.launch_tickets))
        db.session_usage;
}

-- The bounds of a policy.
unfoldable pub policy_in_range : AccessPolicy → Bool
policy_in_range q =
    leb q.allowed_days_mask 127
    && (leb q.access_start_minute 1439
        && ((leb 1 q.access_end_minute && leb q.access_end_minute 1440)
            && (leb q.daily_limit_minutes 1440
                && (leb q.max_session_minutes 720
                    && (leb 1 q.idle_logout_minutes && leb q.idle_logout_minutes 1440)))))

-- INSERT INTO user_policies ... ON CONFLICT(user_id) DO UPDATE
unfoldable pub write_policy : AccessPolicy → Db → Db
unfolding any update_where
write_policy q db =
    if any (λ (p : AccessPolicy). p.user_id == q.user_id) db.policies
    then record db {
      policies = update_where (λ (p : AccessPolicy). p.user_id == q.user_id) (λ p. q) db.policies;
    }
    else record db { policies = db.policies ++ (q ∷ []) }

abbrev pub open_for : ℕ → Ticket → Bool
open_for user t = t.user_id == user && not (is_some t.redeemed_at)

unfoldable pub update_policy : Server → ℕ → AccessPolicy → Action Bool
unfolding policy_in_range has_user write_policy delete_tickets
update_policy s id q db =
    (do
      require (q.user_id == id && policy_in_range q) invalid_request
      require (is_some (s.config.zones q.timezone)) invalid_timezone
      require (has_user db id) constraint_failed
      modify (write_policy q)
      modify (delete_tickets (open_for id))
      pure false)
      db

abbrev pub client_theme_known : String → Bool
client_theme_known t =
    str_eq t "ocean"
    || (str_eq t "graphite"
        || (str_eq t "forest" || (str_eq t "sunset" || str_eq t "high-contrast")))

unfoldable pub write_settings : SettingsBody → Db → Db
write_settings q db =
    if is_some db.terminal_theme
    then record db {
      terminal_theme = some q.terminal_theme;
      screen_sleep_minutes = q.screen_sleep_minutes;
      show_user_list = q.show_user_list;
      client_theme = q.client_theme;
    }
    else db

unfoldable pub update_settings : ℕ → SettingsBody → Action Bool
unfolding write_settings
update_settings id q = do
  require
      (id == 1
        && (leb q.screen_sleep_minutes 1440
            && ((str_eq q.terminal_theme "dark" || str_eq q.terminal_theme "light")
                && client_theme_known q.client_theme)))
      invalid_request
  modify (write_settings q)
  pure false

unfoldable pub write_photo : ℕ → Option (String × Bytes) → ℕ → Db → Db
unfolding update_where
write_photo id photo now db = record db {
  users =
      update_where (λ u. u.id == id)
        (λ (u : UserRow). record u { photo = photo; updated_at = stamp now }) db.users;
}

unfoldable pub update_photo : Server → Moment → ℕ → Bytes → Action Bool
unfolding decode_profile_photo write_photo
update_photo s at id url db =
    if is_nil url
    then (ok false, write_photo id none at.now db)
    else (do
      photo ← or_fail (decode_profile_photo s.readers.codec url) invalid_request
      modify (write_photo id (some photo) at.now)
      pure false)
        db

unfoldable pub with_change : {A : Type 0} → Option A → (A → Action Bool) → Action Bool
with_change none f db = (err invalid_request, db)
with_change (some q) f db = f q db

unfoldable pub update_resource : Server → Moment → String → ℕ → Bytes → Action Bool
update_resource s at resource id body db =
    if str_eq resource "users"
    then with_change (decode s.readers.user_change body) (update_user s at id) db
    else if str_eq resource "groups"
    then with_change (decode s.readers.group_body body) (update_group id) db
    else if str_eq resource "connections"
    then with_change (decode s.readers.connection_body body) (update_connection s id) db
    else if str_eq resource "credentials"
    then with_change (decode s.readers.credential_change body) (update_credential s at id) db
    else if str_eq resource "devices"
    then with_change (decode s.readers.device_body body) (update_device at id) db
    else if str_eq resource "policies"
    then with_change (decode s.readers.policy_body body) (update_policy s id) db
    else if str_eq resource "settings"
    then with_change (decode s.readers.settings_body body) (update_settings id) db
    else with_change (decode s.readers.photo_body body) (update_photo s at id) db

abbrev pub updatable : String → Bool
updatable r =
    str_eq r "users"
    || (str_eq r "groups"
        || (str_eq r "connections"
            || (str_eq r "credentials"
                || (str_eq r "devices"
                    || (str_eq r "policies"
                        || (str_eq r "settings" || str_eq r "profile-photos"))))))

-- The status of the answer.
unfoldable pub updated : Moment → ℕ → String → ℕ → Result Error Bool × Db → ℕ × Db
unfolding audit
updated at user resource id (err e, db) = (400, db)
updated at user resource id (ok revoked, db) = (
  204,
  (audit at.later (some user) none "admin_change" none at.source "success" (changed resource id) (
      if revoked
      then (audit at.later (some user) (some id) "device_revocation" none at.source "success"
          no_detail db).1
      else db)).1,
)

-- adminUpdate; an id that is no number is `none`.
unfoldable pub admin_update : Server → Moment → ℕ → String → Option ℕ → Bytes → Db → ℕ × Db
admin_update s at user resource none body db = (400, db)
admin_update s at user resource (some id) body db =
    if updatable resource
    then updated at user resource id (update_resource s at resource id body db)
    else (404, db)
