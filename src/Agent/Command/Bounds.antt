-- ===== src/Agent/Command/Bounds.antt =====
-- What a Moonlight command has been checked for.
use thin_pi.Prelude.{
  ◌≤◌, ◌≡◌, ◌⊎◌, inl, inr, true, false, some, arith, Option-cases, Bytes, bytes, contains_any, ok,
}
use thin_pi.Db.{Manifest}
use thin_pi.Store.Users.{line_breaks}
use thin_pi.Agent.Command.{Command, check, safe_host, validate_host}
use thin_pi.Agent.Command.Build.{Host, MoonlightConfig, decoded}
use thin_pi.Agent.Command.Streams.{
  moonlight_defaults, codec_value, stream_allowed, moonlight_args, moonlight_finish,
  moonlight_checked, moonlight_command,
}

-- The values of a configuration that the client is started with.
pub record Streamable (cfg : MoonlightConfig) : Type 0 where
  pub width : (256 ≤ cfg.width) × (cfg.width ≤ 8192)
  pub height : (256 ≤ cfg.height) × (cfg.height ≤ 8192)
  pub fps : (1 ≤ cfg.fps) × (cfg.fps ≤ 240)
  pub bitrate : (500 ≤ cfg.bitrate_kbps) × (cfg.bitrate_kbps ≤ 500000)
  pub api_port : (1 ≤ cfg.sunshine_api_port) × (cfg.sunshine_api_port ≤ 65535)
  pub application : contains_any line_breaks cfg.application ≡ false
  pub pairing_name : contains_any line_breaks cfg.pairing_name ≡ false
  pub input : (cfg.audio ≡ true) × (cfg.gamepad ≡ true)

-- A command for Moonlight is built only for a safe host and a port from 1 to 65535, with stream
-- settings inside their bounds and names of one line; it runs the arguments of these settings with
-- one of the three codecs, and pairs with the host and the secret of the manifest.
pub moonlight_command_bounds :
    (binary : Bytes) (h : Host) (x : Manifest) (c : Command)
    → moonlight_command binary h x ≡ ok c
    → (cfg : MoonlightConfig) × (codec : Bytes) × Streamable cfg
      × (decoded h.decode_moonlight moonlight_defaults x.config ≡ some cfg)
      × (safe_host x.host ≡ true)
      × (1 ≤ x.port)
      × (x.port ≤ 65535)
      × ((codec ≡ bytes "H.264") ⊎ ((codec ≡ bytes "HEVC") ⊎ (codec ≡ bytes "AV1")))
      × (c.args ≡ moonlight_args x cfg codec)
      × (c.moonlight_pairing
          ≡ some (record {
            host = x.host;
            username = x.username;
            password = x.password;
            sunshine_api_port = cfg.sunshine_api_port;
            client_name = cfg.pairing_name;
          }))
unfolding moonlight_command moonlight_checked moonlight_finish check stream_allowed validate_host
moonlight_command_bounds binary h x c built =
    elim (Option-cases (decoded h.decode_moonlight moonlight_defaults x.config)) [
      | inl broken ↦ absurd (ground arith)
      | inr (cfg, read) ↦ elim (Option-cases (codec_value cfg.codec)) [
        | inl unknown ↦ absurd (ground arith)
        | inr (codec, known) ↦ (
          cfg,
          codec,
          record {
            width = (ground arith, ground arith);
            height = (ground arith, ground arith);
            fps = (ground arith, ground arith);
            bitrate = (ground arith, ground arith);
            api_port = (ground arith, ground arith);
            application = ground arith;
            pairing_name = ground arith;
            input = (ground arith, ground arith);
          },
          read,
          ground arith,
          ground arith,
          ground arith,
          codecs cfg.codec codec known,
          ground arith,
          ground arith,
        )
      ]
    ]
  where
    codecs :
        (s codec : Bytes)
        → codec_value s ≡ some codec
        → (codec ≡ bytes "H.264") ⊎ ((codec ≡ bytes "HEVC") ⊎ (codec ≡ bytes "AV1"))
    codecs s codec known = unfold codec_value in ground arith
