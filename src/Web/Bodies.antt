-- ===== src/Web/Bodies.antt =====
-- controller/internal/web/server.go: the bodies of the administrator's requests, and `decode`. How a
-- JSON value is read into each type is a parameter: it gives the value and the text behind it. A
-- negative number is no value here where every check on a bound refuses it; a sort_order may be negative.
use thin_pi.Prelude.{
  ℤ, take, ℕ, String, Bool, not, ◌||◌, Option, none, some, ◌==◌, if◌then◌else◌, any, Bytes,
}
use thin_pi.Policy.{AccessPolicy}
use thin_pi.Web.Validate.{Codec}

pub record UserBody : Type 0 where
  pub username : Bytes
  pub display_name : Bytes
  pub password : Bytes
  pub is_admin : Bool
  pub enabled : Bool

pub record GroupBody : Type 0 where
  pub name : Bytes
  pub description : Bytes

pub record ConnectionBody : Type 0 where
  pub name : Bytes
  pub description : Bytes
  pub protocol : String
  pub host : Bytes
  pub icon : Bytes
  pub port : ℕ
  pub sort_order : ℤ
  pub enabled : Bool
  pub protocol_config : Bytes
  pub credential_id : Option ℕ

pub record CredentialBody : Type 0 where
  pub name : Bytes
  pub username : Bytes
  pub secret : Bytes
  pub secret_type : String

pub record TokenBody : Type 0 where
  pub name : Bytes
  pub ttl_minutes : ℕ

pub record PermissionBody : Type 0 where
  pub subject_type : String
  pub subject_id : ℕ
  pub connection_id : ℕ
  pub can_launch : Bool
  pub credential_id : Option ℕ

pub record MembershipBody : Type 0 where
  pub user_id : ℕ
  pub group_id : ℕ
  pub member : Bool

pub record DeviceBody : Type 0 where
  pub name : Option Bytes
  pub enabled : Option Bool

pub record SettingsBody : Type 0 where
  pub screen_sleep_minutes : ℕ
  pub show_user_list : Bool
  pub terminal_theme : String
  pub client_theme : String

pub record ProfileBody : Type 0 where
  pub username : Bytes
  pub display_name : Bytes
  pub current_password : Bytes
  pub new_password : Bytes

pub record EventBody : Type 0 where
  pub ticket_id : ℕ
  pub connection_id : Option ℕ
  pub event : String
  pub result : String
  -- none where they are empty or no JSON
  pub metadata : Option String

abbrev pub Reader : Type 0 → Type 0
Reader A = Bytes → Option (A × Bytes)

-- json.Decoder with DisallowUnknownFields, for the type of each body. A `UserBody` of an update has
-- no username, and a `CredentialBody` of an update has neither name nor secret_type.
pub record Readers : Type 0 where
  pub codec : Codec
  pub open codec use *
  pub user_body : Reader UserBody
  pub user_change : Reader UserBody
  pub group_body : Reader GroupBody
  pub connection_body : Reader ConnectionBody
  pub credential_body : Reader CredentialBody
  pub credential_change : Reader CredentialBody
  pub token_body : Reader TokenBody
  pub permission_body : Reader PermissionBody
  pub membership_body : Reader MembershipBody
  pub device_body : Reader DeviceBody
  pub policy_body : Reader AccessPolicy
  pub settings_body : Reader SettingsBody
  pub photo_body : Reader Bytes
  pub login_body : Reader (Bytes × Bytes)
  pub device_name_body : Reader Bytes
  pub enrol_body : Reader (String × Bytes × Bytes)
  pub ticket_body : Reader String
  pub profile_body : Reader ProfileBody
  pub event_body : Reader EventBody
  pub heartbeat_body : Reader (Option String)

-- The space that JSON allows around a value.
abbrev pub json_space : ℕ → Bool
json_space c = c == 32 || (c == 9 || (c == 10 || c == 13))

unfoldable pub only_value : {A : Type 0} → Option (A × Bytes) → Option A
unfolding any
only_value none = none
only_value (some (a, rest)) = if any (λ c. not (json_space c)) rest then none else some a

-- decode: one value in the first mebibyte of the body, and nothing behind it
unfoldable pub decode : {A : Type 0} → Reader A → Bytes → Option A
unfolding take only_value
decode read body = only_value (read (take 1048576 body))
