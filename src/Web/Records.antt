-- ===== src/Web/Records.antt =====
-- controller/internal/web/server.go, `adminUpdate`: the users, groups, connections, credentials and devices.
use thin_pi.Prelude.{
  ℕ, String, Bool, true, false, not, ◌&&◌, Option, none, some, ◌==◌, if◌then◌else◌, is_nil, any,
  update_where, Bytes, ok, pure, ◌>>=◌, ◌>>◌, modify, require, or_fail,
}
use thin_pi.Stamp.{stamp}
use thin_pi.Db.{
  Db, Action, Config, UserRow, DeviceRow, Group, invalid_request, invalid_password,
  constraint_failed, same_name,
}
use thin_pi.Store.Credentials.{replace_credential}
use thin_pi.Web.Validate.{valid_label}
use thin_pi.Web.Bodies.{UserBody, GroupBody, ConnectionBody, CredentialBody, DeviceBody}
use thin_pi.Web.Create.{Moment, Server, valid_group, valid_connection, connection_of}

-- UPDATE users SET display_name=?,is_admin=?,enabled=?,updated_at=? WHERE id=?
unfoldable pub write_user : ℕ → UserBody → ℕ → Db → Db
unfolding update_where
write_user id q now db = record db {
  users =
      update_where (λ u. u.id == id)
        (λ (u : UserRow). record u {
          user = record u.user {
            display_name = q.display_name;
            is_admin = q.is_admin;
            enabled = q.enabled;
          };
          updated_at = stamp now;
        })
        db.users;
}

-- UPDATE users SET password_hash=?,updated_at=? WHERE id=?
unfoldable pub write_password : ℕ → String → ℕ → Db → Db
unfolding update_where
write_password id hash now db = record db {
  users =
      update_where (λ u. u.id == id)
        (λ (u : UserRow). record u { password_hash = hash; updated_at = stamp now }) db.users;
}

unfoldable pub set_password : Config → ℕ → Bytes → Bytes → ℕ → Action (Unit {0})
unfolding write_password
set_password cfg id password salt now db =
    if is_nil password
    then (ok tt, db)
    else (do
      hash ← or_fail (cfg.hash_password salt password) invalid_password
      modify (write_password id hash now))
        db

unfoldable pub update_user : Server → Moment → ℕ → UserBody → Action Bool
unfolding valid_label write_user set_password
update_user s at id q = do
  require (valid_label q.display_name 128) invalid_request
  modify (write_user id q at.now)
  set_password s.config id q.password at.salt at.now
  pure false

-- UPDATE groups: name is UNIQUE.
unfoldable pub update_group : ℕ → GroupBody → Action Bool
unfolding valid_group any update_where same_name
update_group id q db =
    (do
      require (valid_group q) invalid_request
      require
          (not (
            any (λ g. not (g.id == id) && same_name g.name q.name) db.groups
            && any (λ g. g.id == id) db.groups))
          constraint_failed
      modify (λ d. record d {
        groups =
            update_where (λ g. g.id == id)
              (λ (g : Group). record g { name = q.name; description = q.description }) d.groups;
      })
      pure false)
      db

unfoldable pub update_connection : Server → ℕ → ConnectionBody → Action Bool
unfolding valid_connection update_where
update_connection s id q db =
    (do
      require (valid_connection s db q) invalid_request
      modify (λ d. record d {
        connections = update_where (λ c. c.id == id) (λ c. connection_of c.id q) d.connections;
      })
      pure false)
      db

unfoldable pub update_credential : Server → Moment → ℕ → CredentialBody → Action Bool
unfolding replace_credential
update_credential s at id q = do
  require (not (is_nil q.secret)) invalid_request
  replace_credential s.config s.parse_key id q.username q.secret at.nonce at.now
  pure false

unfoldable pub write_device : ℕ → (DeviceRow → DeviceRow) → Db → Db
unfolding update_where
write_device id f db = record db { devices = update_where (λ d. d.id == id) f db.devices }

abbrev pub label_or_absent : Option Bytes → Bool
label_or_absent none = true
label_or_absent (some name) = valid_label name 128

unfoldable pub rename_device : ℕ → Option Bytes → ℕ → Db → Db
unfolding write_device
rename_device id none now db = db
rename_device id (some name) now db =
    write_device id
      (λ (d : DeviceRow). record d {
        device = record d.device { name = name };
        updated_at = stamp now;
      })
      db

unfoldable pub enable_device : ℕ → Option Bool → ℕ → Db → Db
unfolding write_device
enable_device id none now db = db
enable_device id (some enabled) now db =
    write_device id
      (λ (d : DeviceRow). record d {
        device = record d.device { enabled = enabled };
        updated_at = stamp now;
      })
      db

abbrev pub disables : Option Bool → Bool
disables none = false
disables (some enabled) = not enabled

-- The answer is whether a device was revoked.
unfoldable pub update_device : Moment → ℕ → DeviceBody → Action Bool
unfolding valid_label rename_device enable_device
update_device at id q = do
  require (label_or_absent q.name) invalid_request
  modify (rename_device id q.name at.now)
  modify (enable_device id q.enabled at.now)
  pure (disables q.enabled)
