-- ===== src/Agent/Command.antt =====
-- agent/internal/launch/launch.go: the command that a manifest becomes. The agent's `api.Manifest`
-- has the fields of the controller's, sent as JSON. `json.Unmarshal` into a value that holds the
-- defaults is a parameter, `none` where it fails, and so are the value of THINPI_SESSION_HOME and
-- the path of the known hosts. The callbacks of `Command`, and its Password, which no command
-- sets, are left out. A port is a number here: the agent's refuses what is below 1.
pub mod Build
pub mod Streams
pub mod Ssh
pub mod Injection
pub mod Bounds
pub mod Secrecy
use thin_pi.Prelude.{
  ℕ, zero, suc, ◌+◌, ◌-◌, ◌*◌, ◌/◌, ◌%◌, ◌^◌, ◌≤◌, ◌<◌, max, String, ◌≡◌, refl, sym, ap, ◌∙◌, subst,
  ◌≢◌, ◌↔◌, ◌⊎◌, inl, inr, Bool, true, false, not, ◌&&◌, ◌||◌, Option, none, some, List, [], ◌∷◌,
  ◌++◌, map, arith, str_eq, str_eq_iff, ltb, leb, ◌==◌, if◌then◌else◌, ltb→lt, lt→ltb, leb→le,
  ==_iff, ==_refl, Bool-cases, Option-cases, &&_left, &&_right, is_some, length, length-append,
  find-All, map_option, find-update_where, any-true, find-append, any_weaken, count_where-append,
  count_where_none, find_sound, find-any, any-false, All-update_where, All-append, All-map, is_nil,
  find, any, select, count_where, update_where, All, Bytes, bytes, text_eq, text_lt, lower_byte,
  to_lower, is_space, trim_left, trim_space, contains_byte, contains_any, text_eq_iff, Result, ok,
  err, Exec, pure, raise, continue, ◌>>=◌, ◌>>◌, gets, modify, require, or_fail, lift, roll_back,
  transact, Result-cases,
}
use thin_pi.Db.{Manifest}
use thin_pi.Store.Users.{is_alnum, every}

pub record FileInput : Type 0 where
  pub placeholder : Bytes
  pub content : Bytes

pub record MoonlightPairing : Type 0 where
  pub host : Bytes
  pub username : Bytes
  pub password : Bytes
  pub sunshine_api_port : ℕ
  pub client_name : Bytes

pub record Command : Type 0 where
  pub path : Bytes
  pub args : List Bytes
  pub stdin : Bytes
  pub env : List Bytes
  pub files : List FileInput
  pub moonlight_pairing : Option MoonlightPairing

pub data CommandError : Type 0 where
  invalid_host invalid_credential invalid_username invalid_password bad_json : CommandError
  unsafe_home invalid_certificate_name invalid_certificate_mode : CommandError
  invalid_ssh_settings invalid_title key_unavailable invalid_theme : CommandError
  invalid_application invalid_api_port invalid_pairing_name invalid_stream : CommandError
  unsupported_input invalid_codec : CommandError
  free_rdp_unavailable moonlight_unavailable vnc_unavailable ssh_unavailable : CommandError
  unsupported_protocol : CommandError

-- The commands are results without a state.
abbrev pub Built : Type 0
Built = Result CommandError Command

unfoldable pub check : Bool → CommandError → Built → Built
check true e rest = rest
check false e rest = err e

-- strconv.Itoa; twenty digits are enough for 64 bits.
unfoldable pub digits : ℕ → ℕ → Bytes
digits zero n = []
digits (suc k) n =
    let rest = digits k (n / 10) in (if ltb n 10 then [] else rest) ++ ((b'0' + n % 10) ∷ [])

unfoldable pub itoa : ℕ → Bytes
unfolding digits
itoa n = digits 20 n

unfoldable pub is_host_byte : ℕ → Bool
unfolding is_alnum
is_host_byte c = is_alnum c || (c == b'.' || (c == b'_' || (c == b':' || c == b'-')))

-- ^[A-Za-z0-9][A-Za-z0-9._:-]{0,252}$
unfoldable pub safe_host : Bytes → Bool
unfolding is_alnum is_host_byte every
safe_host [] = false
safe_host (c ∷ s) = is_alnum c && (every is_host_byte s && leb (length s) 252)

-- validateHost
unfoldable pub validate_host : Bytes → ℕ → Bool
unfolding safe_host
validate_host host port = safe_host host && (leb 1 port && leb port 65535)

-- net.JoinHostPort: a host with a colon stands in brackets.
unfoldable pub bracketed : Bytes → Bytes
unfolding contains_byte
bracketed host = if contains_byte b':' host then b'[' ∷ (host ++ (b']' ∷ [])) else host

unfoldable pub join_host_port : Bytes → ℕ → Bytes
unfolding bracketed itoa
join_host_port host port = bracketed host ++ (b':' ∷ itoa port)

abbrev pub when : Bool → Bytes → List Bytes
when b arg = if b then arg ∷ [] else []

abbrev pub or_default : Bytes → Bytes → Bytes
or_default s default = if is_nil s then default else s

abbrev pub new_lines : Bytes
new_lines = 13 ∷ 10 ∷ []
