-- ===== src/Web/Range/Creation.antt =====
-- controller/internal/web/server.go: `adminCreate` and `adminDelete` keep the access policies in range.
use thin_pi.Prelude.{
  ℕ, String, ◌≡◌, Bool, true, Option, none, some, List, arith, Bytes, Result, ok, err,
}
use thin_pi.Db.{Db, Action, Error, Config, UserRow, Permission, EnrolmentToken}
use thin_pi.Store.Users.{create_user, insert_user}
use thin_pi.Store.Credentials.{create_credential, sealed}
use thin_pi.Store.Devices.{create_enrolment_token, insert_enrolment}
use thin_pi.Web.Bodies.{
  UserBody, GroupBody, ConnectionBody, PermissionBody, MembershipBody, TokenBody,
}
use thin_pi.Web.Create.{
  Moment, Server, Created, made, token_made, not_made, insert_group, insert_connection,
  write_permission, set_permission, set_membership, answered, audited, token_answer, make_token,
  make_user, make_group, make_connection, make_permission, with_body, create_resource, admin_create,
}
use thin_pi.Web.Delete.{
  delete_group, delete_connection, delete_credential, delete_resource, admin_delete,
}
use thin_pi.Web.Update.{delete_tickets}
use thin_pi.Web.Range.{in_range, range_rules, if-in_range}

insert_user-in_range :
    (u : UserRow) (db : Db) → in_range db ≡ true → in_range (insert_user u db).1 ≡ true
unfolding insert_user in_range
insert_user-in_range u db h = ground arith

create_user-in_range :
    (cfg : Config) (username display_name password : Bytes) (admin enabled : Bool) (salt : Bytes)
    (now : ℕ) (db : Db)
    → in_range db ≡ true
    → in_range (create_user cfg username display_name password admin enabled salt now db).1 ≡ true
unfolding create_user
create_user-in_range cfg username display_name password admin enabled salt now db h =
    search (range_rules, insert_user-in_range) depth 8

insert_group-in_range :
    (q : GroupBody) (db : Db) → in_range db ≡ true → in_range (insert_group q db).1 ≡ true
unfolding insert_group in_range
insert_group-in_range q db h = ground arith

insert_connection-in_range :
    (q : ConnectionBody) (db : Db) → in_range db ≡ true → in_range (insert_connection q db).1 ≡ true
unfolding insert_connection in_range
insert_connection-in_range q db h = h

write_permission-in_range :
    (q : PermissionBody) (f : List Permission → List Permission) (db : Db)
    → in_range db ≡ true
    → in_range (write_permission q f db) ≡ true
unfolding write_permission in_range
write_permission-in_range q f db h = ground arith

set_permission-in_range :
    (q : PermissionBody) (db : Db) → in_range db ≡ true → in_range (set_permission q db).1 ≡ true
unfolding set_permission
set_permission-in_range q db h = search (range_rules, write_permission-in_range) depth 8

set_membership-in_range :
    (q : MembershipBody) (db : Db) → in_range db ≡ true → in_range (set_membership q db).1 ≡ true
unfolding set_membership in_range
set_membership-in_range q db h = ground arith

insert_enrolment-in_range :
    (t : EnrolmentToken) (db : Db) → in_range db ≡ true → in_range (insert_enrolment t db).1 ≡ true
unfolding insert_enrolment in_range
insert_enrolment-in_range t db h = ground arith

create_enrolment_token-in_range :
    (cfg : Config) (name : Bytes) (ttl now : ℕ) (token : Option String) (db : Db)
    → in_range db ≡ true
    → in_range (create_enrolment_token cfg name ttl now token db).1 ≡ true
unfolding create_enrolment_token
create_enrolment_token-in_range cfg name ttl now token db h =
    search (range_rules, insert_enrolment-in_range) depth 8

pub sealed-in_range :
    (cfg : Config) (secret : Bytes) (iv : Option Bytes) (db : Db)
    → in_range db ≡ true
    → in_range (sealed cfg secret iv db).1 ≡ true
unfolding sealed
sealed-in_range cfg secret iv db h = search range_rules

create_credential-in_range :
    (cfg : Config) (parse_key : Bytes → Bool) (name username secret : Bytes) (kind : String)
    (iv : Option Bytes) (now : ℕ) (db : Db)
    → in_range db ≡ true
    → in_range (create_credential cfg parse_key name username secret kind iv now db).1 ≡ true
unfolding create_credential in_range
create_credential-in_range cfg parse_key name username secret kind iv now db h =
    search (range_rules, sealed-in_range) depth 12

answered-in_range : (x : Result Error ℕ × Db) → in_range x.1 ≡ true → in_range (answered x).1 ≡ true
unfolding answered
answered-in_range (ok id, db) h = h
answered-in_range (err e, db) h = h

token_answer-in_range :
    (x : Result Error String × Db) → in_range x.1 ≡ true → in_range (token_answer x).1 ≡ true
unfolding token_answer
token_answer-in_range (ok t, db) h = h
token_answer-in_range (err e, db) h = h

audited-in_range :
    (at : Moment) (user : ℕ) (resource : String) (x : Created × Db)
    → in_range x.1 ≡ true
    → in_range (audited at user resource x).1 ≡ true
unfolding audited
audited-in_range at user resource (made id, db) h = search range_rules
audited-in_range at user resource (token_made t, db) h = h
audited-in_range at user resource (not_made status code, db) h = h

make_token-in_range :
    (s : Server) (at : Moment) (o : Option TokenBody) (db : Db)
    → in_range db ≡ true
    → in_range (make_token s at o db).1 ≡ true
unfolding make_token
make_token-in_range s at none db h = h
make_token-in_range s at (some q) db h = if-in_range _ _ _ h (
    token_answer-in_range _
      (create_enrolment_token-in_range s.config q.name _ at.now at.token db h))

with_body-in_range :
    {A : Type 0} (o : Option A) (f : A → Action ℕ) (db : Db)
    → ((q : A) → in_range (f q db).1 ≡ true)
    → in_range db ≡ true
    → in_range (with_body o f db).1 ≡ true
unfolding with_body
with_body-in_range none f db k h = h
with_body-in_range (some q) f db k h = answered-in_range (f q db) (k q)

make_user-in_range :
    (s : Server) (at : Moment) (q : UserBody) (db : Db)
    → in_range db ≡ true
    → in_range (make_user s at q db).1 ≡ true
unfolding make_user
make_user-in_range s at q db h = create_user-in_range s.config _ _ _ _ _ _ _ db h

make_group-in_range :
    (q : GroupBody) (db : Db) → in_range db ≡ true → in_range (make_group q db).1 ≡ true
unfolding make_group
make_group-in_range q db h = search (range_rules, insert_group-in_range)

make_connection-in_range :
    (s : Server) (q : ConnectionBody) (db : Db)
    → in_range db ≡ true
    → in_range (make_connection s q db).1 ≡ true
unfolding make_connection
make_connection-in_range s q db h = search (range_rules, insert_connection-in_range)

make_permission-in_range :
    (q : PermissionBody) (db : Db) → in_range db ≡ true → in_range (make_permission q db).1 ≡ true
unfolding make_permission
make_permission-in_range q db h = search (range_rules, set_permission-in_range)

create_resource-in_range :
    (s : Server) (at : Moment) (resource : String) (body : Bytes) (db : Db)
    → in_range db ≡ true
    → in_range (create_resource s at resource body db).1 ≡ true
unfolding create_resource
create_resource-in_range s at resource body db h =
    search
      (
        range_rules, with_body-in_range, make_token-in_range, make_user-in_range,
        make_group-in_range, make_connection-in_range, make_permission-in_range,
        set_membership-in_range, create_credential-in_range,
      )
      depth 14

pub admin_create-in_range :
    (s : Server) (at : Moment) (user : ℕ) (resource : String) (body : Bytes) (db : Db)
    → in_range db ≡ true
    → in_range (admin_create s at user resource body db).1 ≡ true
unfolding admin_create
admin_create-in_range s at user resource body db h =
    audited-in_range at user resource _ (create_resource-in_range s at resource body db h)

delete_resource-in_range :
    (resource : String) (id : ℕ) (db : Db)
    → in_range db ≡ true
    → in_range (delete_resource resource id db) ≡ true
unfolding delete_resource delete_group delete_connection delete_credential delete_tickets in_range
delete_resource-in_range resource id db h = ground arith

pub admin_delete-in_range :
    (at : Moment) (user : ℕ) (resource : String) (id : Option ℕ) (db : Db)
    → in_range db ≡ true
    → in_range (admin_delete at user resource id db).1 ≡ true
unfolding admin_delete
admin_delete-in_range at user resource none db h = h
admin_delete-in_range at user resource (some id) db h =
    search (range_rules, delete_resource-in_range)
