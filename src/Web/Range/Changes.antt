-- ===== src/Web/Range/Changes.antt =====
-- controller/internal/web/server.go: `adminUpdate` keeps the access policies in range.
use thin_pi.Prelude.{
  ℕ, String, ◌≡◌, refl, inl, inr, Bool, true, false, not, ◌&&◌, Option, none, some, List, [], ◌∷◌,
  ◌++◌, arith, ◌==◌, Bool-cases, any, update_where, Bytes, Result, ok, err,
}
use thin_pi.Policy.{AccessPolicy}
use thin_pi.Db.{Db, Action, Error, Config, DeviceRow, Ticket}
use thin_pi.Store.Credentials.{replace_credential, write_secret}
use thin_pi.Web.Bodies.{
  UserBody, GroupBody, ConnectionBody, CredentialBody, DeviceBody, SettingsBody,
}
use thin_pi.Web.Create.{Moment, Server}
use thin_pi.Web.Records.{
  write_user, write_password, set_password, update_user, update_group, update_connection,
  update_credential, write_device, rename_device, enable_device, update_device,
}
use thin_pi.Web.Update.{
  delete_tickets, policy_in_range, write_policy, update_policy, write_settings, update_settings,
  write_photo, update_photo, with_change, update_resource, updated, admin_update,
}
use thin_pi.Web.Range.{in_range, range_rules, if-in_range}
use thin_pi.Web.Range.Creation.{sealed-in_range}

write_user-in_range :
    (id : ℕ) (q : UserBody) (now : ℕ) (db : Db)
    → in_range db ≡ true
    → in_range (write_user id q now db) ≡ true
unfolding write_user in_range
write_user-in_range id q now db h = h

write_password-in_range :
    (id : ℕ) (hash : String) (now : ℕ) (db : Db)
    → in_range db ≡ true
    → in_range (write_password id hash now db) ≡ true
unfolding write_password in_range
write_password-in_range id hash now db h = h

set_password-in_range :
    (cfg : Config) (id : ℕ) (password salt : Bytes) (now : ℕ) (db : Db)
    → in_range db ≡ true
    → in_range (set_password cfg id password salt now db).1 ≡ true
unfolding set_password
set_password-in_range cfg id password salt now db h = search (range_rules, write_password-in_range)

update_user-in_range :
    (s : Server) (at : Moment) (id : ℕ) (q : UserBody) (db : Db)
    → in_range db ≡ true
    → in_range (update_user s at id q db).1 ≡ true
unfolding update_user
update_user-in_range s at id q db h =
    search (range_rules, write_user-in_range, set_password-in_range) depth 8

update_group-in_range :
    (id : ℕ) (q : GroupBody) (db : Db)
    → in_range db ≡ true
    → in_range (update_group id q db).1 ≡ true
unfolding update_group in_range
update_group-in_range id q db h = search range_rules depth 8

update_connection-in_range :
    (s : Server) (id : ℕ) (q : ConnectionBody) (db : Db)
    → in_range db ≡ true
    → in_range (update_connection s id q db).1 ≡ true
unfolding update_connection in_range
update_connection-in_range s id q db h = search range_rules depth 8

write_secret-in_range :
    (id : ℕ) (username : Bytes) (encrypted : Option Bytes) (now : ℕ) (db : Db)
    → in_range db ≡ true
    → in_range (write_secret id username encrypted now db) ≡ true
unfolding write_secret in_range
write_secret-in_range id username encrypted now db h = h

replace_credential-in_range :
    (cfg : Config) (parse_key : Bytes → Bool) (id : ℕ) (username secret : Bytes) (iv : Option Bytes)
    (now : ℕ) (db : Db)
    → in_range db ≡ true
    → in_range (replace_credential cfg parse_key id username secret iv now db).1 ≡ true
unfolding replace_credential
replace_credential-in_range cfg parse_key id username secret iv now db h =
    search (range_rules, sealed-in_range, write_secret-in_range) depth 10

update_credential-in_range :
    (s : Server) (at : Moment) (id : ℕ) (q : CredentialBody) (db : Db)
    → in_range db ≡ true
    → in_range (update_credential s at id q db).1 ≡ true
unfolding update_credential
update_credential-in_range s at id q db h =
    search (range_rules, replace_credential-in_range) depth 8

write_device-in_range :
    (id : ℕ) (f : DeviceRow → DeviceRow) (db : Db)
    → in_range db ≡ true
    → in_range (write_device id f db) ≡ true
unfolding write_device in_range
write_device-in_range id f db h = h

rename_device-in_range :
    (id : ℕ) (o : Option Bytes) (now : ℕ) (db : Db)
    → in_range db ≡ true
    → in_range (rename_device id o now db) ≡ true
unfolding rename_device
rename_device-in_range id none now db h = h
rename_device-in_range id (some name) now db h = write_device-in_range id _ db h

enable_device-in_range :
    (id : ℕ) (o : Option Bool) (now : ℕ) (db : Db)
    → in_range db ≡ true
    → in_range (enable_device id o now db) ≡ true
unfolding enable_device
enable_device-in_range id none now db h = h
enable_device-in_range id (some b) now db h = write_device-in_range id _ db h

update_device-in_range :
    (at : Moment) (id : ℕ) (q : DeviceBody) (db : Db)
    → in_range db ≡ true
    → in_range (update_device at id q db).1 ≡ true
unfolding update_device
update_device-in_range at id q db h =
    search (range_rules, rename_device-in_range, enable_device-in_range) depth 8

write_settings-in_range :
    (q : SettingsBody) (db : Db) → in_range db ≡ true → in_range (write_settings q db) ≡ true
unfolding write_settings in_range
write_settings-in_range q db h = ground arith

update_settings-in_range :
    (id : ℕ) (q : SettingsBody) (db : Db)
    → in_range db ≡ true
    → in_range (update_settings id q db).1 ≡ true
unfolding update_settings
update_settings-in_range id q db h = search (range_rules, write_settings-in_range) depth 8

write_photo-in_range :
    (id : ℕ) (photo : Option (String × Bytes)) (now : ℕ) (db : Db)
    → in_range db ≡ true
    → in_range (write_photo id photo now db) ≡ true
unfolding write_photo in_range
write_photo-in_range id photo now db h = h

update_photo-in_range :
    (s : Server) (at : Moment) (id : ℕ) (url : Bytes) (db : Db)
    → in_range db ≡ true
    → in_range (update_photo s at id url db).1 ≡ true
unfolding update_photo
update_photo-in_range s at id url db h = search (range_rules, write_photo-in_range) depth 8

delete_tickets-in_range :
    (p : Ticket → Bool) (db : Db) → in_range db ≡ true → in_range (delete_tickets p db) ≡ true
unfolding delete_tickets in_range
delete_tickets-in_range p db h = h

policies_after :
    (q : AccessPolicy) (ps : List AccessPolicy)
    → any (λ p. not (policy_in_range p)) ps ≡ false
    → policy_in_range q ≡ true
    → any
        (λ p. not (policy_in_range p))
        (update_where (λ (p : AccessPolicy). p.user_id == q.user_id) (λ p. q) ps)
      ≡ false
unfolding any update_where
policies_after q [] h k = refl
policies_after q (p ∷ ps) h k = ground (arith, policies_after q ps)

policies_added :
    (q : AccessPolicy) (ps : List AccessPolicy)
    → any (λ p. not (policy_in_range p)) ps ≡ false
    → policy_in_range q ≡ true
    → any (λ p. not (policy_in_range p)) (ps ++ (q ∷ [])) ≡ false
unfolding any
policies_added q [] h k = ground arith
policies_added q (p ∷ ps) h k = ground (arith, policies_added q ps)

write_policy-in_range :
    (q : AccessPolicy) (db : Db)
    → in_range db ≡ true
    → policy_in_range q ≡ true
    → in_range (write_policy q db) ≡ true
unfolding write_policy in_range
write_policy-in_range q db h k =
    ground (arith, policies_after q db.policies, policies_added q db.policies)

pub update_policy-in_range :
    (s : Server) (id : ℕ) (q : AccessPolicy) (db : Db)
    → in_range db ≡ true
    → in_range (update_policy s id q db).1 ≡ true
unfolding update_policy
update_policy-in_range s id q db h = elim (Bool-cases (q.user_id == id && policy_in_range q)) [
  | inl bounded ↦
      let within : policy_in_range q ≡ true = ground arith in
      rw bounded
        (search (range_rules, write_policy-in_range, delete_tickets-in_range, within) depth 8)
  | inr beyond ↦ rw beyond h
]

with_change-in_range :
    {A : Type 0} (o : Option A) (f : A → Action Bool) (db : Db)
    → ((q : A) → in_range (f q db).1 ≡ true)
    → in_range db ≡ true
    → in_range (with_change o f db).1 ≡ true
unfolding with_change
with_change-in_range none f db k h = h
with_change-in_range (some q) f db k h = k q

update_resource-in_range :
    (s : Server) (at : Moment) (resource : String) (id : ℕ) (body : Bytes) (db : Db)
    → in_range db ≡ true
    → in_range (update_resource s at resource id body db).1 ≡ true
unfolding update_resource
update_resource-in_range s at resource id body db h =
    search
      (
        range_rules, with_change-in_range, update_user-in_range, update_group-in_range,
        update_connection-in_range, update_credential-in_range, update_device-in_range,
        update_policy-in_range, update_settings-in_range, update_photo-in_range,
      )
      depth 14

updated-in_range :
    (at : Moment) (user : ℕ) (resource : String) (id : ℕ) (x : Result Error Bool × Db)
    → in_range x.1 ≡ true
    → in_range (updated at user resource id x).1 ≡ true
unfolding updated
updated-in_range at user resource id (err e, db) h = h
updated-in_range at user resource id (ok true, db) h = search range_rules
updated-in_range at user resource id (ok false, db) h = search range_rules

pub admin_update-in_range :
    (s : Server) (at : Moment) (user : ℕ) (resource : String) (id : Option ℕ) (body : Bytes)
    (db : Db)
    → in_range db ≡ true
    → in_range (admin_update s at user resource id body db).1 ≡ true
unfolding admin_update
admin_update-in_range s at user resource none body db h = h
admin_update-in_range s at user resource (some id) body db h =
    if-in_range _ _ _
      (updated-in_range at user resource id _ (update_resource-in_range s at resource id body db h))
      h
