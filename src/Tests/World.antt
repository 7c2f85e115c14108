-- ===== src/Tests/World.antt =====
-- A small household: one administrator, one device, one connection.
use thin_pi.Prelude.{
  pos, ◌*◌, ◌/◌, true, ◌&&◌, none, some, [], ◌∷◌, str_eq, if◌then◌else◌, is_nil, bytes, text_eq,
}
use thin_pi.Stamp.{second, minute, stamp}
use thin_pi.Policy.{Zone, AccessPolicy}
use thin_pi.Db.{Security, Config, Db, UserRow, DeviceRow, Connection}

abbrev pub open_security : Security
open_security = record {
  token_hash = λ token. token;
  hash_password = λ salt password. if is_nil password then none else some "argon";
  verify_password = λ hash password. str_eq hash "argon" && text_eq password (bytes "thinpi");
  encrypt = λ nonce secret. secret;
  decrypt = λ secret. some secret;
}

abbrev pub utc : Zone
utc = record { wall = λ t. t / second; midnight = λ t. t / (86400 * second) * (86400 * second) }

abbrev pub config : Config
config = record {
  security = open_security;
  session_idle = 30 * minute;
  ticket_ttl = minute;
  zones = λ name. some utc;
}

abbrev pub admin : UserRow
admin = record {
  user = record {
    id = 1;
    username = bytes "admin";
    display_name = bytes "Administrator";
    is_admin = true;
    enabled = true;
  };
  password_hash = "argon";
  last_login_at = none;
  photo = none;
  created_at = stamp 0;
  updated_at = stamp 0;
}

abbrev pub tv : DeviceRow
tv = record {
  device = record { id = 1; name = bytes "TV"; identifier = bytes "tv"; enabled = true };
  token_hash = "tv-key";
  last_seen_at = none;
  last_ip = none;
  client_versions = "{}";
  created_at = stamp 0;
  updated_at = stamp 0;
}

abbrev pub desktop : Connection
desktop = record {
  id = 1;
  name = bytes "Desktop";
  description = [];
  protocol = "rdp";
  host = bytes "desk.lan";
  port = 3389;
  enabled = true;
  icon = [];
  sort_order = pos 0;
  protocol_config = bytes "{}";
  credential_id = none;
}

-- Mondays to Fridays, from seven to nine, an hour a day and half an hour at a time.
abbrev pub school_nights : AccessPolicy
school_nights = record {
  user_id = 2;
  timezone = "UTC";
  allowed_days_mask = 31;
  access_start_minute = 420;
  access_end_minute = 1260;
  daily_limit_minutes = 60;
  max_session_minutes = 30;
  idle_logout_minutes = 15;
}

abbrev pub home : Db
home = record {
  users = admin ∷ [];
  next_user = 2;
  policies = school_nights ∷ [];
  login_attempts = [];
  sessions = [];
  next_session = 1;
  handoffs = [];
  connections = desktop ∷ [];
  next_connection = 2;
  groups = [];
  next_group = 1;
  user_permissions =
      record { subject_id = 1; connection_id = 1; can_launch = true; credential_id = none } ∷ [];
  group_permissions = [];
  user_groups = [];
  credentials = [];
  next_credential = 1;
  devices = tv ∷ [];
  next_device = 2;
  launch_tickets = [];
  next_ticket = 1;
  maintenance_tickets = [];
  enrolment_tokens = [];
  next_enrolment = 1;
  session_usage = [];
  audit_events = [];
  terminal_theme = some "dark";
  screen_sleep_minutes = 15;
  show_user_list = true;
  client_theme = "ocean";
}
