-- ===== src/Agent/Command/Streams.antt =====
-- agent/internal/launch/launch.go: `VNCCommand` and `MoonlightCommand`.
use thin_pi.Prelude.{
  ℕ, Bool, true, false, not, ◌&&◌, ◌||◌, Option, none, some, List, [], ◌∷◌, ◌++◌, leb, ◌==◌,
  if◌then◌else◌, length, is_nil, Bytes, bytes, text_eq, to_lower, contains_byte, contains_any, ok,
  err,
}
use thin_pi.Db.{Manifest}
use thin_pi.Store.Users.{line_breaks}
use thin_pi.Agent.Command.{
  Built, check, itoa, validate_host, bracketed, join_host_port, when, invalid_host,
  invalid_credential, invalid_username, invalid_password, bad_json, invalid_application,
  invalid_api_port, invalid_pairing_name, invalid_stream, unsupported_input, invalid_codec,
}
use thin_pi.Agent.Command.Build.{Host, VncConfig, MoonlightConfig, is_key, decoded}

abbrev pub vnc_defaults : VncConfig
vnc_defaults = record { fullscreen = true; shared = true; view_only = false; clipboard = false }

-- fmt.Sprintf("-Name=%d", boolInt(v))
unfoldable pub switch : Bytes → Bool → Bytes
switch name true = name ++ bytes "=1"
switch name false = name ++ bytes "=0"

-- The clipboard is always on.
unfoldable pub vnc_args : Manifest → VncConfig → List Bytes
unfolding bracketed itoa switch
vnc_args x cfg =
    (bracketed x.host ++ (bytes "::" ++ itoa x.port))
    ∷ bytes "-SecurityTypes=TLSPlain"
    ∷ switch (bytes "-FullScreen") cfg.fullscreen
    ∷ switch (bytes "-Shared") cfg.shared
    ∷ switch (bytes "-ViewOnly") cfg.view_only
    ∷ switch (bytes "-AcceptClipboard") true
    ∷ switch (bytes "-SendClipboard") true
    ∷ []

unfoldable pub vnc_command : Bytes → Manifest → Option VncConfig → Built
vnc_command binary x none = err bad_json
vnc_command binary x (some cfg) = ok (record {
  path = binary;
  args = vnc_args x cfg;
  stdin = [];
  env =
      when (not (is_nil x.username)) (bytes "VNC_USERNAME=" ++ x.username)
      ++ when (not (is_nil x.password)) (bytes "VNC_PASSWORD=" ++ x.password);
  files = [];
  moonlight_pairing = none;
})

-- VNCCommand
unfoldable pub tiger_vnc_command : Bytes → Host → Manifest → Built
unfolding check validate_host contains_any contains_byte
tiger_vnc_command binary h x = check (validate_host x.host x.port) invalid_host (
    check (not (is_key x)) invalid_credential (
      check (not (contains_any line_breaks x.username)) invalid_username (
        check (not (contains_byte 0 x.password)) invalid_password
          (vnc_command binary x (decoded h.decode_vnc vnc_defaults x.config)))))

abbrev pub moonlight_defaults : MoonlightConfig
moonlight_defaults = record {
  application = bytes "Desktop";
  width = 1920;
  height = 1080;
  fps = 60;
  bitrate_kbps = 20000;
  codec = [];
  hdr = false;
  audio = true;
  gamepad = true;
  performance_overlay = false;
  sunshine_api_port = 47990;
  pairing_name = bytes "ThinPi";
}

-- codecValues[strings.ToLower(cfg.Codec)]
unfoldable pub codec_value : Bytes → Option Bytes
unfolding text_eq to_lower
codec_value codec =
    let c = to_lower codec in
    if is_nil c
      || (text_eq c (bytes "auto") || (text_eq c (bytes "h264") || text_eq c (bytes "h.264")))
    then some (bytes "H.264")
    else if text_eq c (bytes "hevc")
    then some (bytes "HEVC")
    else if text_eq c (bytes "av1")
    then some (bytes "AV1")
    else none

unfoldable pub moonlight_host : Bytes → ℕ → Bytes
unfolding bracketed join_host_port
moonlight_host host port = if port == 47984 then bracketed host else join_host_port host port

abbrev pub label : Bytes → Bool
label s = not (is_nil s) && (leb (length s) 128 && not (contains_any line_breaks s))

abbrev pub between : ℕ → ℕ → ℕ → Bool
between low high n = leb low n && leb n high

unfoldable pub stream_allowed : MoonlightConfig → Bool
stream_allowed cfg =
    between 256 8192 cfg.width
    && (between 256 8192 cfg.height
        && (between 1 240 cfg.fps && between 500 500000 cfg.bitrate_kbps))

unfoldable pub moonlight_args : Manifest → MoonlightConfig → Bytes → List Bytes
unfolding moonlight_host itoa
moonlight_args x cfg codec =
    (bytes "stream"
      ∷ moonlight_host x.host x.port
      ∷ cfg.application
      ∷ bytes "--resolution"
      ∷ (itoa cfg.width ++ (b'x' ∷ itoa cfg.height))
      ∷ bytes "--fps"
      ∷ itoa cfg.fps
      ∷ bytes "--bitrate"
      ∷ itoa cfg.bitrate_kbps
      ∷ bytes "--display-mode"
      ∷ bytes "borderless"
      ∷ bytes "--absolute-mouse"
      ∷ bytes "--capture-system-keys"
      ∷ bytes "always"
      ∷ bytes "--video-decoder"
      ∷ bytes "auto"
      ∷ bytes "--video-codec"
      ∷ codec
      ∷ bytes "--audio-config"
      ∷ bytes "stereo"
      ∷ bytes "--frame-pacing"
      ∷ bytes "--keep-awake"
      ∷ bytes "--quit-after"
      ∷ [])
    ++ ((if cfg.hdr then bytes "--hdr" else bytes "--no-hdr")
        ∷ bytes "--background-gamepad"
        ∷ (if cfg.performance_overlay
            then bytes "--performance-overlay"
            else bytes "--no-performance-overlay")
        ∷ bytes "--no-audio-on-host"
        ∷ [])

unfoldable pub moonlight_finish : Bytes → Manifest → MoonlightConfig → Option Bytes → Built
moonlight_finish binary x cfg none = err invalid_codec
moonlight_finish binary x cfg (some codec) = ok (record {
  path = binary;
  args = moonlight_args x cfg codec;
  stdin = [];
  env = [];
  files = [];
  moonlight_pairing = some (record {
    host = x.host;
    username = x.username;
    password = x.password;
    sunshine_api_port = cfg.sunshine_api_port;
    client_name = cfg.pairing_name;
  });
})

unfoldable pub moonlight_checked : Bytes → Manifest → Option MoonlightConfig → Built
unfolding check contains_any contains_byte stream_allowed codec_value
moonlight_checked binary x none = err bad_json
moonlight_checked binary x (some cfg) = check (label cfg.application) invalid_application (
    check (between 1 65535 cfg.sunshine_api_port) invalid_api_port (
      check (label cfg.pairing_name) invalid_pairing_name (
        check
          (not (contains_any (b':' ∷ line_breaks) x.username) && not (contains_byte 0 x.password))
          invalid_credential
          (check (stream_allowed cfg) invalid_stream (
            check (cfg.audio && cfg.gamepad) unsupported_input
              (moonlight_finish binary x cfg (codec_value cfg.codec)))))))

-- MoonlightCommand
unfoldable pub moonlight_command : Bytes → Host → Manifest → Built
unfolding check validate_host
moonlight_command binary h x =
    check (validate_host x.host x.port) invalid_host
      (moonlight_checked binary x (decoded h.decode_moonlight moonlight_defaults x.config))
