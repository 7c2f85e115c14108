-- ===== src/Web/Delete.antt =====
-- controller/internal/web/server.go, `adminDelete`, with what the schema deletes and clears along with
-- a row (ON DELETE CASCADE and SET NULL). No reference keeps a row, so the DELETE does not fail.
use thin_pi.Prelude.{
  ℕ, String, Bool, not, ◌||◌, Option, none, some, List, map, str_eq, ◌==◌, if◌then◌else◌, select,
}
use thin_pi.Policy.{Usage}
use thin_pi.Db.{Db, Connection, Permission, AuditEvent, Credential, Group, Membership, changed}
use thin_pi.Store.Audit.{audit}
use thin_pi.Web.Create.{Moment}
use thin_pi.Web.Update.{delete_tickets}

abbrev pub other_than : ℕ → Option ℕ → Option ℕ
other_than id none = none
other_than id (some k) = if k == id then none else some k

unfoldable pub delete_group : ℕ → Db → Db
unfolding select
delete_group id db = record db {
  groups = select (λ (g : Group). not (g.id == id)) db.groups;
  user_groups = select (λ (g : Membership). not (g.group_id == id)) db.user_groups;
  group_permissions = select (λ (p : Permission). not (p.subject_id == id)) db.group_permissions;
}

unfoldable pub clear_events : ℕ → List AuditEvent → List AuditEvent
clear_events id events =
    map (λ (e : AuditEvent). record e { connection_id = other_than id e.connection_id }) events

unfoldable pub delete_connection : ℕ → Db → Db
unfolding select delete_tickets clear_events
delete_connection id db =
    let left = delete_tickets (λ t. t.connection_id == id) db in
    record left {
      connections = select (λ (c : Connection). not (c.id == id)) left.connections;
      user_permissions =
          select (λ (p : Permission). not (p.connection_id == id)) left.user_permissions;
      group_permissions =
          select (λ (p : Permission). not (p.connection_id == id)) left.group_permissions;
      session_usage = select (λ (u : Usage). not (u.connection_id == id)) left.session_usage;
      audit_events = clear_events id left.audit_events;
    }

abbrev pub clear_permission : ℕ → Permission → Permission
clear_permission id p = record p { credential_id = other_than id p.credential_id }

unfoldable pub delete_credential : ℕ → Db → Db
unfolding select
delete_credential id db = record db {
  credentials = select (λ (c : Credential). not (c.id == id)) db.credentials;
  connections =
      map (λ (c : Connection). record c { credential_id = other_than id c.credential_id })
        db.connections;
  user_permissions = map (clear_permission id) db.user_permissions;
  group_permissions = map (clear_permission id) db.group_permissions;
}

abbrev pub deletable : String → Bool
deletable r = str_eq r "groups" || (str_eq r "connections" || str_eq r "credentials")

unfoldable pub delete_resource : String → ℕ → Db → Db
unfolding delete_group delete_connection delete_credential
delete_resource resource id db =
    if str_eq resource "groups"
    then delete_group id db
    else if str_eq resource "connections"
    then delete_connection id db
    else delete_credential id db

-- adminDelete: the status of the answer
unfoldable pub admin_delete : Moment → ℕ → String → Option ℕ → Db → ℕ × Db
admin_delete at user resource none db = (400, db)
admin_delete at user resource (some id) db =
    if deletable resource
    then (
      204,
      (audit at.later (some user) none "admin_change" none at.source "success" (changed resource id)
          (delete_resource resource id db)).1,
    )
    else (405, db)
