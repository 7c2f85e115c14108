-- ===== src/Web/Create.antt =====
-- controller/internal/web/server.go, `adminCreate`: each resource, and the answer. A statement that
-- breaks a UNIQUE or a foreign key fails.
use thin_pi.Prelude.{
  ℕ, suc, ◌*◌, String, Bool, true, false, not, ◌&&◌, ◌||◌, Option, none, some, List, [], ◌∷◌, ◌++◌,
  str_eq, ltb, leb, ◌==◌, if◌then◌else◌, length, find, any, select, update_where, Bytes, Result, ok,
  err, pure, ◌>>◌, modify, require,
}
use thin_pi.Stamp.{minute}
use thin_pi.Db.{
  Db, Action, Error, Config, Connection, Permission, Membership, has_user, constraint_failed,
  invalid_request, same_name, changed,
}
use thin_pi.Store.Audit.{audit}
use thin_pi.Store.Users.{create_user}
use thin_pi.Store.Credentials.{create_credential}
use thin_pi.Store.Devices.{create_enrolment_token}
use thin_pi.Web.Validate.{
  valid_label, valid_host, valid_protocol, valid_protocol_config, credential_allowed,
}
use thin_pi.Web.Bodies.{
  UserBody, GroupBody, ConnectionBody, TokenBody, PermissionBody, MembershipBody, Readers, decode,
}

-- What a request draws and reads beside the database: three readings of the clock, of which the first
-- is the session's and that of the tests before a write.
pub record Moment : Type 0 where
  pub now : ℕ
  pub later : ℕ
  pub last : ℕ
  pub token : Option String
  pub csrf : Option String
  pub salt : Bytes
  pub nonce : Option Bytes
  pub source : Bytes

-- The parts of `Server` that the handlers read.
pub record Server : Type 0 where
  pub config : Config
  pub readers : Readers
  pub dev : Bool
  pub parse_key : Bytes → Bool

abbrev pub has_group : Db → ℕ → Bool
has_group db id = any (λ g. g.id == id) db.groups

unfoldable pub insert_group : GroupBody → Action ℕ
unfolding any same_name
insert_group q db =
    if any (λ g. same_name g.name q.name) db.groups then (err constraint_failed, db) else (
      ok db.next_group,
      record db {
        groups =
            db.groups
            ++ (record { id = db.next_group; name = q.name; description = q.description } ∷ []);
        next_group = suc db.next_group;
      },
    )

-- validLabel(q.Name, 128) && len(q.Description) <= 1024
unfoldable pub valid_group : GroupBody → Bool
unfolding valid_label
valid_group q = valid_label q.name 128 && leb (length q.description) 1024

unfoldable pub valid_connection : Server → Db → ConnectionBody → Bool
unfolding valid_label valid_host valid_protocol valid_protocol_config credential_allowed
valid_connection s db q =
    valid_label q.name 128
    && (leb (length q.description) 1024
        && (leb (length q.icon) 128
            && (valid_protocol s.dev q.protocol
                && (valid_host q.host
                    && (ltb 0 q.port
                        && (ltb q.port 65536
                            && (valid_protocol_config s.readers.codec q.protocol q.protocol_config
                                && credential_allowed db q.credential_id q.protocol)))))))

abbrev pub connection_of : ℕ → ConnectionBody → Connection
connection_of id q = record {
  id = id;
  name = q.name;
  description = q.description;
  protocol = q.protocol;
  host = q.host;
  port = q.port;
  enabled = q.enabled;
  icon = q.icon;
  sort_order = q.sort_order;
  protocol_config = q.protocol_config;
  credential_id = q.credential_id;
}

unfoldable pub insert_connection : ConnectionBody → Action ℕ
insert_connection q db = (
  ok db.next_connection,
  record db {
    connections = db.connections ++ (connection_of db.next_connection q ∷ []);
    next_connection = suc db.next_connection;
  },
)

abbrev pub grants : ℕ → ℕ → Permission → Bool
grants subject connection p = p.subject_id == subject && p.connection_id == connection

-- INSERT ... VALUES(?,?,1,?) ON CONFLICT DO UPDATE SET can_launch=1,credential_id=excluded.credential_id
unfoldable pub grant : PermissionBody → List Permission → List Permission
unfolding any update_where
grant q ps =
    if any (grants q.subject_id q.connection_id) ps
    then update_where (grants q.subject_id q.connection_id)
        (λ p. record p { can_launch = true; credential_id = q.credential_id }) ps
    else ps
      ++ (record {
        subject_id = q.subject_id;
        connection_id = q.connection_id;
        can_launch = true;
        credential_id = q.credential_id;
      }
          ∷ [])

unfoldable pub revoke : PermissionBody → List Permission → List Permission
unfolding select
revoke q ps = select (λ p. not (grants q.subject_id q.connection_id p)) ps

-- SELECT protocol FROM connections WHERE id=?, and the credential that goes with it
unfoldable pub assignable : Db → PermissionBody → Bool
unfolding find credential_allowed
assignable db q = elim (find (λ (c : Connection). c.id == q.connection_id) db.connections) [
  | none ↦ false
  | some c ↦ credential_allowed db q.credential_id c.protocol
]

-- The table of the subject's type, changed, and whether the subject is there.
unfoldable pub write_permission : PermissionBody → (List Permission → List Permission) → Db → Db
write_permission q f db =
    if str_eq q.subject_type "group"
    then record db { group_permissions = f db.group_permissions }
    else record db { user_permissions = f db.user_permissions }

unfoldable pub has_subject : Db → PermissionBody → Bool
unfolding any has_user
has_subject db q =
    if str_eq q.subject_type "group" then has_group db q.subject_id else has_user db q.subject_id

unfoldable pub set_permission : PermissionBody → Action ℕ
unfolding assignable write_permission has_subject grant revoke
set_permission q db =
    if q.can_launch
    then (do
      require (assignable db q) constraint_failed
      require (has_subject db q) constraint_failed
      modify (write_permission q (grant q))
      pure q.connection_id)
        db
    else (ok q.connection_id, write_permission q (revoke q) db)

abbrev pub is_member : MembershipBody → Membership → Bool
is_member q g = g.user_id == q.user_id && g.group_id == q.group_id

unfoldable pub set_membership : MembershipBody → Action ℕ
unfolding any select has_user
set_membership q db =
    if q.member
    then (if any (is_member q) db.user_groups
        then (ok 0, db)
        else if has_user db q.user_id && has_group db q.group_id
        then (
          ok 0,
          record db {
            user_groups =
                db.user_groups ++ (record { user_id = q.user_id; group_id = q.group_id } ∷ []);
          },
        )
        else (err constraint_failed, db))
    else (ok 0, record db { user_groups = select (λ g. not (is_member q g)) db.user_groups })

-- The answer to a creation: the id, the enrolment token, or an error's status and code.
pub data Created : Type 0 where
  made : ℕ → Created
  token_made : String → Created
  not_made : ℕ → String → Created

unfoldable pub answered : Result Error ℕ × Db → Created × Db
answered (ok id, db) = (made id, db)
answered (err e, db) = (not_made 400 "INVALID_REQUEST", db)

-- AuditAdmin, on a success
unfoldable pub audited : Moment → ℕ → String → Created × Db → Created × Db
unfolding audit
audited at user resource (made id, db) = (
  made id,
  (audit at.later (some user) none "admin_change" none at.source "success" (changed resource id)
      db).1,
)
audited at user resource (token_made t, db) = (token_made t, db)
audited at user resource (not_made status code, db) = (not_made status code, db)

unfoldable pub token_answer : Result Error String × Db → Created × Db
token_answer (ok t, db) = (token_made t, db)
token_answer (err e, db) = (not_made 500 "INTERNAL_ERROR", db)

unfoldable pub make_token : Server → Moment → Option TokenBody → Db → Created × Db
unfolding token_answer
make_token s at none db = (not_made 400 "INVALID_REQUEST", db)
make_token s at (some q) db =
    if ltb q.ttl_minutes 1 || ltb 1440 q.ttl_minutes
    then (not_made 400 "INVALID_REQUEST", db)
    else token_answer
        (create_enrolment_token s.config q.name (q.ttl_minutes * minute) at.now at.token db)

unfoldable pub make_user : Server → Moment → UserBody → Action ℕ
unfolding create_user
make_user s at q =
    create_user s.config q.username q.display_name q.password q.is_admin q.enabled at.salt at.now

unfoldable pub make_group : GroupBody → Action ℕ
unfolding valid_group insert_group
make_group q = do require (valid_group q) invalid_request; insert_group q

unfoldable pub make_connection : Server → ConnectionBody → Action ℕ
unfolding valid_connection insert_connection
make_connection s q db =
    (do require (valid_connection s db q) invalid_request; insert_connection q) db

unfoldable pub make_permission : PermissionBody → Action ℕ
unfolding set_permission
make_permission q = do
  require (str_eq q.subject_type "group" || str_eq q.subject_type "user") invalid_request
  set_permission q

-- decode(r, &q), and then the rest
unfoldable pub with_body : {A : Type 0} → Option A → (A → Action ℕ) → Db → Created × Db
unfolding answered
with_body none f db = (not_made 400 "INVALID_REQUEST", db)
with_body (some q) f db = answered (f q db)

unfoldable pub create_resource : Server → Moment → String → Bytes → Db → Created × Db
create_resource s at resource body db =
    if str_eq resource "users"
    then with_body (decode s.readers.user_body body) (make_user s at) db
    else if str_eq resource "groups"
    then with_body (decode s.readers.group_body body) make_group db
    else if str_eq resource "connections"
    then with_body (decode s.readers.connection_body body) (make_connection s) db
    else if str_eq resource "credentials"
    then with_body (decode s.readers.credential_body body)
        (λ q.
          create_credential s.config s.parse_key q.name q.username q.secret q.secret_type at.nonce
            at.now)
        db
    else if str_eq resource "enrolment-tokens"
    then make_token s at (decode s.readers.token_body body) db
    else if str_eq resource "permissions"
    then with_body (decode s.readers.permission_body body) make_permission db
    else if str_eq resource "memberships"
    then with_body (decode s.readers.membership_body body) set_membership db
    else (not_made 404 "NOT_FOUND", db)

-- adminCreate
unfoldable pub admin_create : Server → Moment → ℕ → String → Bytes → Db → Created × Db
admin_create s at user resource body db =
    audited at user resource (create_resource s at resource body db)
