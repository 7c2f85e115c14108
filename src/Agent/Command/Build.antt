-- ===== src/Agent/Command/Build.antt =====
-- agent/internal/launch/launch.go: what the builders of commands read, and `FreeRDPCommand`.
use thin_pi.Prelude.{
  ℕ, Bool, true, false, not, ◌&&◌, ◌||◌, Option, none, some, List, [], ◌∷◌, ◌++◌, str_eq,
  if◌then◌else◌, is_nil, Bytes, bytes, text_eq, contains_any, ok, err,
}
use thin_pi.Db.{Manifest}
use thin_pi.Agent.Command.{
  Built, check, validate_host, join_host_port, when, or_default, new_lines, invalid_host,
  invalid_credential, bad_json, unsafe_home, invalid_certificate_name, invalid_certificate_mode,
}

pub record RdpConfig : Type 0 where
  pub fullscreen : Bool
  pub dynamic_resolution : Bool
  pub audio : Bool
  pub microphone : Bool
  pub clipboard : Bool
  pub drives : Bool
  pub printers : Bool
  pub smartcards : Bool
  pub auto_reconnect : Bool
  pub certificate_name : Bytes
  pub certificate_mode : Bytes

pub record VncConfig : Type 0 where
  pub fullscreen : Bool
  pub shared : Bool
  pub view_only : Bool
  pub clipboard : Bool

pub record MoonlightConfig : Type 0 where
  pub application : Bytes
  pub width : ℕ
  pub height : ℕ
  pub fps : ℕ
  pub bitrate_kbps : ℕ
  pub codec : Bytes
  pub hdr : Bool
  pub audio : Bool
  pub gamepad : Bool
  pub performance_overlay : Bool
  pub sunshine_api_port : ℕ
  pub pairing_name : Bytes

-- What the commands read that is no part of the manifest.
pub record Host : Type 0 where
  pub decode_rdp : RdpConfig → Bytes → Option RdpConfig
  pub decode_vnc : VncConfig → Bytes → Option VncConfig
  pub decode_moonlight : MoonlightConfig → Bytes → Option MoonlightConfig
  -- the terminal_title of an SSH configuration
  pub decode_ssh : Bytes → Option Bytes
  pub session_home : Bytes
  pub known_hosts : Bytes

abbrev pub is_key : Manifest → Bool
is_key x = str_eq x.credential_type "ssh_private_key"

-- if len(x.Config) > 0 { json.Unmarshal(x.Config, &cfg) }
unfoldable pub decoded {ℓ} : {C : Type ℓ} → (C → Bytes → Option C) → C → Bytes → Option C
decoded decode cfg text = if is_nil text then some cfg else decode cfg text

abbrev pub rdp_defaults : RdpConfig
rdp_defaults = record {
  fullscreen = true;
  dynamic_resolution = true;
  audio = true;
  microphone = false;
  clipboard = false;
  drives = false;
  printers = false;
  smartcards = false;
  auto_reconnect = true;
  certificate_name = [];
  certificate_mode = [];
}

unfoldable pub certificate_arg : Bytes → Option Bytes
unfolding text_eq
certificate_arg mode =
    let m = or_default mode (bytes "tofu") in
    if text_eq m (bytes "tofu")
    then some (bytes "/cert:tofu")
    else if text_eq m (bytes "deny")
    then some (bytes "/cert:deny")
    else if text_eq m (bytes "ignore")
    then some (bytes "/cert:ignore")
    else none

abbrev pub home_of : Host → Bytes
home_of h = or_default h.session_home (bytes "/home/thinpi")

-- The arguments in order; the clipboard is always on.
unfoldable pub rdp_args : Host → Manifest → RdpConfig → Bytes → List Bytes
unfolding join_host_port
rdp_args h x cfg certificate =
    ((bytes "/v:" ++ join_host_port x.host x.port) ∷ [])
    ++ (when (not (is_nil x.username)) (bytes "/u:" ++ x.username)
        ++ (when (not (is_nil x.password)) (bytes "/p:" ++ x.password)
            ++ (when cfg.fullscreen (bytes "/f")
                ++ (when cfg.dynamic_resolution (bytes "/dynamic-resolution")
                    ++ (when cfg.audio (bytes "/sound")
                        ++ (when cfg.microphone (bytes "/microphone")
                            ++ ((bytes "+clipboard" ∷ [])
                                ++ (when cfg.drives (bytes "/drive:home," ++ home_of h)
                                    ++ (when cfg.printers (bytes "+printer")
                                        ++ (when cfg.smartcards (bytes "/smartcard")
                                            ++ (when cfg.auto_reconnect (bytes "+auto-reconnect")
                                                ++ (when (not (is_nil cfg.certificate_name))
                                                      (bytes "/cert-name:" ++ cfg.certificate_name)
                                                    ++ (certificate ∷ [])))))))))))))

-- strings.Join(args, "\n") + "\n"
unfoldable pub join_lines : List Bytes → Bytes
join_lines [] = []
join_lines (a ∷ more) = a ++ (10 ∷ join_lines more)

unfoldable pub rdp_finish : Bytes → Host → Manifest → RdpConfig → Option Bytes → Built
rdp_finish binary h x cfg none = err invalid_certificate_mode
rdp_finish binary h x cfg (some certificate) = ok (record {
  path = binary;
  args = bytes "/args-from:stdin" ∷ [];
  stdin = join_lines (rdp_args h x cfg certificate);
  env = [];
  files = [];
  moonlight_pairing = none;
})

unfoldable pub rdp_command : Bytes → Host → Manifest → Option RdpConfig → Built
unfolding check contains_any
rdp_command binary h x none = err bad_json
rdp_command binary h x (some cfg) =
    check (not (cfg.drives && contains_any new_lines (home_of h))) unsafe_home (
      check (not (contains_any (13 ∷ 10 ∷ b'/' ∷ []) cfg.certificate_name)) invalid_certificate_name
        (rdp_finish binary h x cfg (certificate_arg cfg.certificate_mode)))

-- FreeRDPCommand
unfoldable pub free_rdp_command : Bytes → Host → Manifest → Built
unfolding check validate_host contains_any
free_rdp_command binary h x = check (validate_host x.host x.port) invalid_host (
    check (not (is_key x)) invalid_credential (
      check (not (contains_any new_lines x.username || contains_any new_lines x.password))
        invalid_credential (rdp_command binary h x (decoded h.decode_rdp rdp_defaults x.config))))
