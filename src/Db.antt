-- ===== src/Db.antt =====
-- The controller's tables (controller/migrations/*.sql) as the store reads and writes them, and
-- the types of controller/internal/app/types.go. A table is the list of its rows in rowid order.
-- Columns that no modelled statement reads are left out (the times of groups, connections and
-- settings).
-- An AUTOINCREMENT table has the next id beside it. Ids are positive.
use thin_pi.Prelude.{
  ℤ, ℕ, String, Bool, true, Option, none, some, List, ◌==◌, any, Bytes, text_eq, to_lower, Exec,
  gets,
}
use thin_pi.Stamp.{Stamp}
use thin_pi.Policy.{AccessPolicy, Usage, Reason, Zone}

pub record User : Type 0 where
  pub id : ℕ
  pub username : Bytes
  pub display_name : Bytes
  pub is_admin : Bool
  pub enabled : Bool

pub record UserRow : Type 0 where
  pub user : User
  pub open user use *
  pub password_hash : String
  pub last_login_at : Option Stamp
  -- the type and the bytes of the profile photo
  pub photo : Option (String × Bytes)
  pub created_at : Stamp
  pub updated_at : Stamp

pub record LoginAttempt : Type 0 where
  pub source_key : Bytes
  pub attempted_at : Stamp
  pub success : Bool

pub record SessionRow : Type 0 where
  pub id : ℕ
  pub token_hash : String
  pub csrf_hash : String
  pub user_id : ℕ
  pub expires_at : Stamp
  pub last_seen_at : Stamp
  pub revoked_at : Option Stamp
  pub created_at : Stamp

pub record Session : Type 0 where
  pub id : ℕ
  pub user : User
  pub csrf_hash : String

pub record Handoff : Type 0 where
  pub token_hash : String
  pub user_id : ℕ
  pub expires_at : Stamp
  pub redeemed_at : Option Stamp
  pub created_at : Stamp

pub record Connection : Type 0 where
  pub id : ℕ
  pub name : Bytes
  pub description : Bytes
  pub protocol : String
  pub host : Bytes
  pub port : ℕ
  pub enabled : Bool
  pub icon : Bytes
  pub sort_order : ℤ
  pub protocol_config : Bytes
  pub credential_id : Option ℕ

-- A row of user_connection_permissions or of group_connection_permissions.
pub record Permission : Type 0 where
  pub subject_id : ℕ
  pub connection_id : ℕ
  pub can_launch : Bool
  pub credential_id : Option ℕ

pub record Group : Type 0 where
  pub id : ℕ
  pub name : Bytes
  pub description : Bytes

pub record Membership : Type 0 where
  pub user_id : ℕ
  pub group_id : ℕ

pub record Credential : Type 0 where
  pub id : ℕ
  pub name : Bytes
  pub username : Option Bytes
  pub encrypted_secret : Option Bytes
  pub secret_type : String
  pub created_at : Stamp
  pub updated_at : Stamp

pub record Device : Type 0 where
  pub id : ℕ
  pub name : Bytes
  pub identifier : Bytes
  pub enabled : Bool

pub record DeviceRow : Type 0 where
  pub device : Device
  pub open device use *
  pub token_hash : String
  pub last_seen_at : Option Stamp
  pub last_ip : Option Bytes
  pub client_versions : String
  pub created_at : Stamp
  pub updated_at : Stamp

pub record Ticket : Type 0 where
  pub id : ℕ
  pub token_hash : String
  pub user_id : ℕ
  pub device_id : ℕ
  pub connection_id : ℕ
  pub expires_at : Stamp
  pub redeemed_at : Option Stamp
  pub created_at : Stamp
  pub max_session_seconds : ℕ

pub record MaintenanceTicket : Type 0 where
  pub token_hash : String
  pub user_id : ℕ
  pub device_id : ℕ
  pub expires_at : Stamp
  pub redeemed_at : Option Stamp
  pub created_at : Stamp

pub record EnrolmentToken : Type 0 where
  pub id : ℕ
  pub token_hash : String
  pub name : Bytes
  pub expires_at : Stamp
  pub redeemed_at : Option Stamp
  pub created_at : Stamp

-- The metadata_json of an audit event, as the value that is marshalled.
pub data Detail : Type 0 where
  no_detail : Detail
  refused : Reason → Detail
  changed : String → ℕ → Detail
  reported : String → Detail

pub record AuditEvent : Type 0 where
  pub timestamp : Stamp
  pub actor_user_id : Option ℕ
  pub device_id : Option ℕ
  pub event_type : String
  pub connection_id : Option ℕ
  pub source_ip : Bytes
  pub result : String
  pub metadata : Detail

pub record Manifest : Type 0 where
  pub ticket_id : ℕ
  pub connection_id : ℕ
  pub name : Bytes
  pub protocol : String
  pub host : Bytes
  pub port : ℕ
  pub username : Bytes
  pub password : Bytes
  pub credential_type : String
  pub config : Bytes
  pub max_session_seconds : ℕ
  pub terminal_theme : String

pub record Db : Type 0 where
  pub users : List UserRow
  pub next_user : ℕ
  pub policies : List AccessPolicy
  pub login_attempts : List LoginAttempt
  pub sessions : List SessionRow
  pub next_session : ℕ
  pub handoffs : List Handoff
  pub connections : List Connection
  pub next_connection : ℕ
  pub groups : List Group
  pub next_group : ℕ
  pub user_permissions : List Permission
  pub group_permissions : List Permission
  pub user_groups : List Membership
  pub credentials : List Credential
  pub next_credential : ℕ
  pub devices : List DeviceRow
  pub next_device : ℕ
  pub launch_tickets : List Ticket
  pub next_ticket : ℕ
  pub maintenance_tickets : List MaintenanceTicket
  pub enrolment_tokens : List EnrolmentToken
  pub next_enrolment : ℕ
  pub session_usage : List Usage
  pub audit_events : List AuditEvent
  -- kiosk_settings: the terminal theme of the row with id 1, and its other columns if it is there
  pub terminal_theme : Option String
  pub screen_sleep_minutes : ℕ
  pub show_user_list : Bool
  pub client_theme : String

pub data Error : Type 0 where
  unauthorised rate_limited ticket_invalid policy_restricted : Error
  no_rows constraint_failed random_failed decrypt_failed : Error
  invalid_timezone invalid_user invalid_profile invalid_password invalid_device : Error
  invalid_credential invalid_request : Error

abbrev pub Action : Type 0 → Type 0
Action = Exec Db Error

abbrev pub read : Action Db
read = gets (λ db. db)

-- What the store uses of controller/internal/security, behind an interface.
pub record Security : Type 0 where
  pub token_hash : String → String
  pub hash_password : Bytes → Bytes → Option String
  pub verify_password : String → Bytes → Bool
  pub encrypt : Bytes → Bytes → Bytes
  pub decrypt : Bytes → Option Bytes

-- The parts of `Store` that are no table: the security functions, the two durations and the zones.
pub record Config : Type 0 where
  pub security : Security
  pub open security use *
  pub session_idle : ℕ
  pub ticket_ttl : ℕ
  pub zones : String → Option Zone

-- Foreign keys are enforced (PRAGMA foreign_keys=ON), and NULL refers to nothing.
unfoldable pub has_user : Db → ℕ → Bool
unfolding any
has_user db id = any (λ u. u.id == id) db.users

unfoldable pub has_device : Db → ℕ → Bool
unfolding any
has_device db id = any (λ d. d.id == id) db.devices

unfoldable pub has_connection : Db → ℕ → Bool
unfolding any
has_connection db id = any (λ c. c.id == id) db.connections

abbrev pub refers : (ℕ → Bool) → Option ℕ → Bool
refers has none = true
refers has (some id) = has id

-- The users' names are compared without case (COLLATE NOCASE).
unfoldable pub same_name : Bytes → Bytes → Bool
unfolding text_eq to_lower
same_name a b = text_eq (to_lower a) (to_lower b)
