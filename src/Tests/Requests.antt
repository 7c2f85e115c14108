-- ===== src/Tests/Requests.antt =====
-- Requests to the controller of the small household.
use thin_pi.Prelude.{
  ◌*◌, ◌≤◌, ◌≡◌, refl, ◌⊎◌, true, false, none, some, List, [], ◌∷◌, ◌++◌, map, ltb, leb, ◌==◌,
  if◌then◌else◌, is_some, length, find, any, select, count_where, update_where, bytes, trim_space,
}
use mathlib.Core.List.{Perm}
use thin_pi.Stamp.{minute, stamp}
use thin_pi.Policy.{AccessPolicy}
use thin_pi.Db.{Config, Db, UserRow}
use thin_pi.Store.Access.{user_idle_timeout}
use thin_pi.Store.Setup.{setup}
use thin_pi.Store.Choices.{login_users}
use thin_pi.Store.Choices.Shown.{is_enabled, login_users_complete}
use thin_pi.Agent.Command.{safe_host}
use thin_pi.Web.Validate.{valid_label, valid_host}
use thin_pi.Web.Validate.Hosts.{valid_host-safe_host}
use thin_pi.Web.Bodies.{Readers, UserBody, decode}
use thin_pi.Web.Create.{Moment, Server}
use thin_pi.Web.Records.{update_user}
use thin_pi.Web.Update.{
  with_change, update_resource, updated, admin_update, open_for, policy_in_range, update_policy,
}
use thin_pi.Web.Update.Outcomes.{admin_update_half_done, update_policy_closes}
use thin_pi.Web.Request.{Request}
use thin_pi.Web.Serve.{serve, serve_all}
use thin_pi.Web.Serve.Authority.{ByAdmin, serve-IsSafe}
use thin_pi.Web.Range.{in_range}
use thin_pi.Web.Range.Timeouts.{serve_all-timeout}
use thin_pi.Tests.World.{open_security, config, home, school_nights}

abbrev strict : Config
strict = record config {
  security = record open_security {
    hash_password = λ salt password. if leb 8 (length password) then some "argon" else none;
  };
}

abbrev renamed : UserBody
renamed = record {
  username = [];
  display_name = bytes "Admin";
  password = bytes "short";
  is_admin = false;
  enabled = true;
}

-- Every body is read as one value.
abbrev readers : Readers
readers = record {
  codec = record {
    json_valid = λ text. true;
    terminal_title = λ text. none;
    base64 = λ text. some text;
    content_type = λ text. "image/png";
  };
  user_body = λ body. none;
  user_change = λ body. some (renamed, []);
  group_body = λ body. some (record { name = body; description = [] }, []);
  connection_body = λ body. none;
  credential_body = λ body. none;
  credential_change = λ body. none;
  token_body = λ body. none;
  permission_body = λ body. none;
  membership_body = λ body. none;
  device_body = λ body. none;
  policy_body = λ body. some (school_nights, []);
  settings_body = λ body. none;
  photo_body = λ body. none;
  login_body = λ body. some ((bytes "admin", body), []);
  device_name_body = λ body. some (body, []);
  enrol_body = λ body. none;
  ticket_body = λ body. none;
  profile_body = λ body. none;
  event_body = λ body. none;
  heartbeat_body = λ body. none;
}

abbrev controller : Server
controller = record { config = strict; readers = readers; dev = false; parse_key = λ key. true }

abbrev at_noon : Moment
at_noon = record {
  now = minute;
  later = minute;
  last = minute;
  token = some "token";
  csrf = some "form";
  salt = [];
  nonce = none;
  source = bytes "10.0.0.2";
}

abbrev signed_in : Db
signed_in = record home {
  sessions =
      record {
        id = 1;
        token_hash = "token";
        csrf_hash = "form";
        user_id = 1;
        expires_at = stamp (30 * minute);
        last_seen_at = stamp 0;
        revoked_at = none;
        created_at = stamp 0;
      }
      ∷ [];
  next_session = 2;
}

abbrev add_group : Request
add_group = record {
  method = "POST";
  path = "api" ∷ "v1" ∷ "admin" ∷ "groups" ∷ [];
  tls = true;
  authorization = "Bearer token";
  session_cookie = none;
  csrf_header = "";
  form = false;
  form_readable = true;
  csrf_field = "";
  form_username = [];
  form_password = [];
  code_parameter = "";
  path_id = none;
  path_resource = "groups";
  body = bytes "Kids";
}

serve-IsSafe_example :
    (setup (serve controller at_noon add_group signed_in).1 ≡ setup signed_in)
    ⊎ ByAdmin controller at_noon add_group signed_in
serve-IsSafe_example = serve-IsSafe controller at_noon add_group signed_in

serve_all-timeout_example :
    (minute
      ≤ user_idle_timeout strict (serve_all controller ((at_noon, add_group) ∷ []) signed_in) 1)
    × (user_idle_timeout strict (serve_all controller ((at_noon, add_group) ∷ []) signed_in) 1
        ≤ 1440 * minute)
unfolding in_range
serve_all-timeout_example =
    serve_all-timeout controller ((at_noon, add_group) ∷ []) signed_in 1 refl

admin_update_half_done_example :
    (admin_update controller at_noon 1 "users" (some 1) [] signed_in).1 ≡ record signed_in {
      users =
          update_where
            (λ u. u.id == 1)
            (λ (u : UserRow). record u {
              user = record u.user {
                display_name = renamed.display_name;
                is_admin = renamed.is_admin;
                enabled = renamed.enabled;
              };
              updated_at = stamp minute;
            })
            signed_in.users;
    }
unfolding decode valid_label admin_update updated update_resource with_change update_user
admin_update_half_done_example =
    admin_update_half_done controller at_noon 1 1 [] renamed signed_in refl refl refl

abbrev for_admin : AccessPolicy
for_admin = record school_nights { user_id = 1 }

abbrev restricted : Db
restricted = (update_policy controller 1 for_admin signed_in).1

update_policy_closes_example :
    (policy_in_range for_admin ≡ true)
    × (find (λ (p : AccessPolicy). p.user_id == 1) restricted.policies ≡ some for_admin)
    × (any (open_for 1) restricted.launch_tickets ≡ false)
unfolding update_policy
update_policy_closes_example =
    update_policy_closes controller 1 for_admin signed_in restricted false refl

valid_host-safe_host_example :
    valid_host (bytes " desk.lan ") ≡ safe_host (trim_space (bytes " desk.lan "))
valid_host-safe_host_example = valid_host-safe_host (bytes " desk.lan ")

login_users_complete_example :
    (rows : List UserRow) × (rest : List UserRow) × Perm
      (rows ++ rest)
      (select (λ (u : UserRow). u.user.enabled) home.users)
    × ((login_users home).0
        ≡ map
            (λ (u : UserRow). record {
              id = u.user.id;
              username = u.user.username;
              display_name = u.user.display_name;
              has_profile_photo = is_some u.photo;
              version = u.updated_at;
            })
            rows)
    × (length rows ≡ (
        if ltb 6 (count_where is_enabled home.users) then 6 else count_where is_enabled home.users))
    × ((login_users home).1 ≡ ltb 6 (count_where is_enabled home.users))
login_users_complete_example = login_users_complete home
