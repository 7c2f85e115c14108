-- ===== src/Tests/Clients.antt =====
-- Commands and reports of an agent in the household.
use thin_pi.Prelude.{
  ℕ, ◌*◌, ◌≤◌, String, ◌≡◌, refl, ◌⊎◌, true, ◌&&◌, none, some, [], ◌∷◌, ◌==◌, is_some, find, All,
  Bytes, bytes, Result, ok, err,
}
use thin_pi.Stamp.{second, minute, stamp}
use thin_pi.Policy.{Usage}
use thin_pi.Db.{Db, Ticket, Manifest}
use thin_pi.Store.Events.{session_event, apply_event, allowed_event}
use thin_pi.Store.Events.Accounting.{session_event_sound, session_event_ended}
use thin_pi.Agent.Command.{CommandError, Command, safe_host, validate_host, check}
use thin_pi.Agent.Command.Build.{
  Host, RdpConfig, MoonlightConfig, decoded, rdp_defaults, rdp_args, join_lines, free_rdp_command,
  rdp_command, rdp_finish, certificate_arg,
}
use thin_pi.Agent.Command.Streams.{
  moonlight_finish, moonlight_defaults, moonlight_args, moonlight_command, moonlight_checked,
  stream_allowed, codec_value,
}
use thin_pi.Agent.Command.Ssh.{
  colours, ssh_finish, title_of, ssh_titled, ClientInfo, Clients, command_for, ssh_command,
}
use thin_pi.Agent.Command.Injection.{OneLine, free_rdp_command_lines}
use thin_pi.Agent.Command.Bounds.{Streamable, moonlight_command_bounds}
use thin_pi.Agent.Command.Secrecy.{command_for_hides_password}
use thin_pi.Tests.World.{home, tv}

abbrev kiosk : Host
kiosk = record {
  decode_rdp = λ cfg text. some cfg;
  decode_vnc = λ cfg text. some cfg;
  decode_moonlight = λ cfg text. some cfg;
  decode_ssh = λ text. some [];
  session_home = [];
  known_hosts = bytes "/var/lib/thinpi-agent/ssh-known-hosts";
}

abbrev manifest : String → Manifest
manifest protocol = record {
  ticket_id = 1;
  connection_id = 1;
  name = bytes "Desktop";
  protocol = protocol;
  host = bytes "desk.lan";
  port = 3389;
  username = bytes "bea";
  password = bytes "secret";
  credential_type = "password";
  config = bytes "{}";
  max_session_seconds = 0;
  terminal_theme = "dark";
}

abbrev client : ClientInfo
client = record { available = true; binary = bytes "client" }

abbrev clients : Clients
clients = record {
  free_rdp = client;
  moonlight = client;
  vnc = client;
  ssh = client;
  terminal = client;
  ssh_pass = client;
}

abbrev command_or_empty : Result CommandError Command → Command
command_or_empty (ok c) = c
command_or_empty (err e) = record {
  path = [];
  args = [];
  stdin = [];
  env = [];
  files = [];
  moonlight_pairing = none;
}

abbrev rdp : Command
rdp = command_or_empty (free_rdp_command (bytes "client") kiosk (manifest "rdp"))

free_rdp_command_lines_example :
    (cfg : RdpConfig) × (certificate : Bytes) × (decoded kiosk.decode_rdp rdp_defaults (bytes "{}")
      ≡ some cfg)
    × (rdp.stdin ≡ join_lines (rdp_args kiosk (manifest "rdp") cfg certificate))
    × All OneLine (rdp_args kiosk (manifest "rdp") cfg certificate)
    × (rdp.args ≡ bytes "/args-from:stdin" ∷ [])
    × (rdp.env ≡ [])
unfolding free_rdp_command rdp_command rdp_finish check validate_host decoded certificate_arg
free_rdp_command_lines_example =
    free_rdp_command_lines (bytes "client") kiosk (manifest "rdp") rdp refl

abbrev stream : Command
stream = command_or_empty (moonlight_command (bytes "client") kiosk (manifest "moonlight"))

moonlight_command_bounds_example :
    (cfg : MoonlightConfig) × (codec : Bytes) × Streamable cfg
    × (decoded kiosk.decode_moonlight moonlight_defaults (bytes "{}") ≡ some cfg)
    × (safe_host (bytes "desk.lan") ≡ true)
    × (1 ≤ (manifest "moonlight").port)
    × ((manifest "moonlight").port ≤ 65535)
    × ((codec ≡ bytes "H.264") ⊎ ((codec ≡ bytes "HEVC") ⊎ (codec ≡ bytes "AV1")))
    × (stream.args ≡ moonlight_args (manifest "moonlight") cfg codec)
    × (stream.moonlight_pairing
        ≡ some (record {
          host = bytes "desk.lan";
          username = bytes "bea";
          password = bytes "secret";
          sunshine_api_port = cfg.sunshine_api_port;
          client_name = cfg.pairing_name;
        }))
unfolding moonlight_command moonlight_checked check validate_host decoded codec_value stream_allowed
    moonlight_finish
moonlight_command_bounds_example =
    moonlight_command_bounds (bytes "client") kiosk (manifest "moonlight") stream refl

abbrev with_secret : Bytes → Command
with_secret p =
    command_or_empty (command_for clients kiosk (record (manifest "ssh") { password = p }))

command_for_hides_password_example :
    ((with_secret (bytes "secret")).path ≡ (with_secret (bytes "hunter2")).path)
    × ((with_secret (bytes "secret")).args ≡ (with_secret (bytes "hunter2")).args)
unfolding command_for ssh_command check ssh_titled title_of ssh_finish colours
command_for_hides_password_example =
    command_for_hides_password clients kiosk (manifest "ssh") (bytes "hunter2")
      (with_secret (bytes "secret")) (with_secret (bytes "hunter2")) refl refl refl

abbrev ticket : Ticket
ticket = record {
  id = 1;
  token_hash = "tok";
  user_id = 1;
  device_id = 1;
  connection_id = 1;
  expires_at = stamp minute;
  redeemed_at = some (stamp second);
  created_at = stamp 0;
  max_session_seconds = 0;
}

abbrev playing : Db
playing = record home { launch_tickets = ticket ∷ [] }

abbrev after : String → ℕ → Db → Db
after event now db = (session_event tv.device 1 (some 1) event "success" [] none now now db).1

session_event_sound_example :
    ((after "session_started" second playing).session_usage ≡ playing.session_usage)
    ⊎ ((t : Ticket) × (find
            (λ x. x.id == 1 && (x.device_id == 1 && is_some x.redeemed_at))
            playing.launch_tickets
          ≡ some t)
        × (t.id ≡ 1)
        × (t.device_id ≡ 1)
        × (is_some t.redeemed_at ≡ true)
        × (some 1 ≡ some t.connection_id)
        × (allowed_event "session_started" ≡ true)
        × ((after "session_started" second playing).session_usage
            ≡ (apply_event t "session_started" second playing).session_usage))
session_event_sound_example =
    session_event_sound tv.device 1 (some 1) "session_started" "success" [] none second second
      playing

abbrev played : Usage
played = record {
  ticket_id = 1;
  user_id = 1;
  device_id = 1;
  connection_id = 1;
  started_at = stamp second;
  ended_at = some (stamp minute);
  duration_seconds = 59;
}

abbrev over : Db
over = record playing { session_usage = played ∷ [] }

session_event_ended_example :
    find (λ v. v.ticket_id == 1) (after "session_exited" (2 * minute) over).session_usage
    ≡ some played
unfolding find
session_event_ended_example =
    session_event_ended tv.device 1 (some 1) "session_exited" "success" [] none (2 * minute)
      (2 * minute) over played refl refl
