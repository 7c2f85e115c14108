-- ===== src/Agent/Command/Ssh.antt =====
-- agent/internal/launch/launch.go: `SSHCommand` and `commandFor`.
use thin_pi.Prelude.{
  String, Bool, not, ◌&&◌, ◌||◌, Option, none, some, List, [], ◌∷◌, ◌++◌, str_eq, leb,
  if◌then◌else◌, length, is_nil, Bytes, bytes, trim_space, contains_byte, contains_any, ok, err,
}
use thin_pi.Db.{Manifest}
use thin_pi.Store.Users.{line_breaks}
use thin_pi.Agent.Command.{
  CommandError, FileInput, Built, check, itoa, validate_host, or_default, invalid_host,
  invalid_username, invalid_ssh_settings, invalid_title, key_unavailable, invalid_theme,
  free_rdp_unavailable, moonlight_unavailable, vnc_unavailable, ssh_unavailable,
  unsupported_protocol,
}
use thin_pi.Agent.Command.Build.{Host, is_key, free_rdp_command}
use thin_pi.Agent.Command.Streams.{tiger_vnc_command, moonlight_command}

pub record ClientInfo : Type 0 where
  pub available : Bool
  pub binary : Bytes

pub record Clients : Type 0 where
  pub free_rdp : ClientInfo
  pub moonlight : ClientInfo
  pub vnc : ClientInfo
  pub ssh : ClientInfo
  pub terminal : ClientInfo
  pub ssh_pass : ClientInfo

-- "-o", option, for each option
unfoldable pub options : List Bytes → List Bytes
options [] = []
options (o ∷ rest) = bytes "-o" ∷ o ∷ options rest

abbrev pub fixed_options : Bytes → List Bytes
fixed_options known_hosts =
    bytes "EscapeChar=none"
    ∷ bytes "PermitLocalCommand=no"
    ∷ bytes "ClearAllForwardings=yes"
    ∷ bytes "ForwardAgent=no"
    ∷ bytes "ForwardX11=no"
    ∷ bytes "ForwardX11Trusted=no"
    ∷ bytes "ControlMaster=no"
    ∷ bytes "ProxyCommand=none"
    ∷ bytes "ProxyJump=none"
    ∷ bytes "IdentityAgent=none"
    ∷ bytes "IdentitiesOnly=yes"
    ∷ bytes "StrictHostKeyChecking=yes"
    ∷ bytes "CheckHostIP=no"
    ∷ (bytes "UserKnownHostsFile=" ++ known_hosts)
    ∷ bytes "GlobalKnownHostsFile=/dev/null"
    ∷ []

abbrev pub key_options : List Bytes
key_options =
    bytes "IdentityFile={ssh_identity_file}"
    ∷ bytes "PreferredAuthentications=publickey"
    ∷ bytes "PubkeyAuthentication=yes"
    ∷ bytes "PasswordAuthentication=no"
    ∷ bytes "KbdInteractiveAuthentication=no"
    ∷ []

abbrev pub password_options : List Bytes
password_options =
    bytes "PreferredAuthentications=password,keyboard-interactive"
    ∷ bytes "PubkeyAuthentication=no"
    ∷ bytes "NumberOfPasswordPrompts=1"
    ∷ []

-- x.Password != "" && x.CredentialType != "ssh_private_key"
abbrev pub with_password : Manifest → Bool
with_password x = not (is_nil x.password) && not (is_key x)

unfoldable pub ssh_args : Host → Manifest → List Bytes
unfolding options itoa
ssh_args h x =
    (if with_password x then options password_options else [])
    ++ (options (if is_key x then key_options else bytes "IdentityFile=none" ∷ [])
        ++ ((bytes "-F" ∷ bytes "/dev/null" ∷ bytes "-tt" ∷ options (fixed_options h.known_hosts))
            ++ (bytes "-p" ∷ itoa x.port ∷ bytes "-l" ∷ x.username ∷ x.host ∷ [])))

unfoldable pub child : Bytes → Bytes → Manifest → List Bytes
child ssh sshpass x =
    if with_password x
    then sshpass ∷ bytes "-f" ∷ bytes "{ssh_password_file}" ∷ ssh ∷ []
    else ssh ∷ []

unfoldable pub ssh_files : Manifest → List FileInput
unfolding trim_space
ssh_files x =
    if is_key x
    then record {
      placeholder = bytes "{ssh_identity_file}";
      content = trim_space x.password ++ (10 ∷ []);
    }
      ∷ []
    else if not (is_nil x.password)
    then record { placeholder = bytes "{ssh_password_file}"; content = x.password ++ (10 ∷ []) }
      ∷ []
    else []

-- The foreground and the background of the terminal.
unfoldable pub colours : String → Option (Bytes × Bytes)
colours theme =
    if str_eq theme "light"
    then some (bytes "#172033", bytes "#f4f6fa")
    else if str_eq theme "" || str_eq theme "dark"
    then some (bytes "#e8edf4", bytes "#07111e")
    else none

-- strings.TrimSpace(cfg.TerminalTitle), or else the name, or else "ThinPi SSH"
unfoldable pub title_of : Manifest → Bytes → Bytes
unfolding trim_space
title_of x title = or_default (or_default (trim_space title) x.name) (bytes "ThinPi SSH")

abbrev pub resource : Bytes → List Bytes
resource value = bytes "-xrm" ∷ (bytes "XTerm*" ++ value) ∷ []

unfoldable pub terminal_args : Bytes → Bytes → Bytes → List Bytes
terminal_args title foreground background =
    (bytes "-title" ∷ title ∷ [])
    ++ (resource (bytes "fullscreen: always")
        ++ (resource (bytes "allowWindowOps: false")
            ++ (resource (bytes "allowTitleOps: false")
                ++ (resource (bytes "allowFontOps: false")
                    ++ (resource (bytes "allowMouseOps: false")
                        ++ (resource (bytes "selectToClipboard: true")
                            ++ (resource (bytes "foreground: " ++ foreground)
                                ++ (resource (bytes "background: " ++ background)
                                    ++ (resource (bytes "logInhibit: true")
                                        ++ (resource (bytes "scrollBar: false")
                                            ++ (resource (bytes "toolBar: false")
                                                ++ (bytes "-e" ∷ []))))))))))))

unfoldable pub ssh_finish :
    Bytes → Bytes → Bytes → Host → Manifest → Bytes → Option (Bytes × Bytes) → Built
ssh_finish terminal ssh sshpass h x title none = err invalid_theme
ssh_finish terminal ssh sshpass h x title (some (foreground, background)) = ok (record {
  path = terminal;
  args = terminal_args title foreground background ++ (child ssh sshpass x ++ ssh_args h x);
  stdin = [];
  env = bytes "SHELL=/usr/sbin/nologin" ∷ [];
  files = ssh_files x;
  moonlight_pairing = none;
})

unfoldable pub ssh_titled : Bytes → Bytes → Bytes → Host → Manifest → Option Bytes → Built
unfolding check contains_any contains_byte
ssh_titled terminal ssh sshpass h x none = err invalid_ssh_settings
ssh_titled terminal ssh sshpass h x (some configured) =
    let title = title_of x configured in
    check (leb (length title) 128 && not (contains_any line_breaks title)) invalid_title (
      check (not (is_key x) || (not (is_nil x.password) && not (contains_byte 0 x.password)))
        key_unavailable
        (check (not (with_password x) || not (is_nil sshpass)) ssh_unavailable
          (ssh_finish terminal ssh sshpass h x title (colours x.terminal_theme))))

-- \r \n \x00, a space and a tab
abbrev pub blanks : Bytes
blanks = 13 ∷ 10 ∷ 0 ∷ 32 ∷ 9 ∷ []

-- SSHCommand; an empty configuration is refused.
unfoldable pub ssh_command : Bytes → Bytes → Bytes → Host → Manifest → Built
unfolding check validate_host contains_any
ssh_command terminal ssh sshpass h x = check (validate_host x.host x.port) invalid_host (
    check
      (not (is_nil x.username)
        && (leb (length x.username) 128 && not (contains_any blanks x.username)))
      invalid_username
      (ssh_titled terminal ssh sshpass h x
        (if is_nil x.config then none else h.decode_ssh x.config)))

-- commandFor
unfoldable pub command_for : Clients → Host → Manifest → Built
unfolding check
command_for clients h x =
    if str_eq x.protocol "rdp"
    then check clients.free_rdp.available free_rdp_unavailable
        (free_rdp_command clients.free_rdp.binary h x)
    else if str_eq x.protocol "moonlight"
    then check clients.moonlight.available moonlight_unavailable
        (moonlight_command clients.moonlight.binary h x)
    else if str_eq x.protocol "vnc"
    then check clients.vnc.available vnc_unavailable (tiger_vnc_command clients.vnc.binary h x)
    else if str_eq x.protocol "ssh"
    then check
        (clients.ssh.available
          && (clients.terminal.available && (is_nil x.password || clients.ssh_pass.available)))
        ssh_unavailable
        (ssh_command clients.terminal.binary clients.ssh.binary clients.ssh_pass.binary h x)
    else err unsupported_protocol

-- clientPreparationError
unfoldable pub client_preparation_error : CommandError → String
client_preparation_error free_rdp_unavailable =
    "The Remote Desktop client is not installed on this ThinPi."
client_preparation_error moonlight_unavailable =
    "The Moonlight client is not installed on this ThinPi."
client_preparation_error vnc_unavailable = "The VNC client is not installed on this ThinPi."
client_preparation_error ssh_unavailable =
    "The secure SSH terminal is not installed on this ThinPi."
client_preparation_error unsupported_protocol =
    "This connection type is not supported by the installed agent."
client_preparation_error _ =
    "This connection is misconfigured. Ask an administrator to review its host, port, credentials, and protocol settings."
