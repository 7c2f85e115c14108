-- ===== src/Web/Validate.antt =====
-- controller/internal/web/server.go: the checks on what an administrator enters. Whether a text is
-- JSON, the terminal_title in it, base64 and the sniffing of a content type are parameters.
pub mod Hosts
use thin_pi.Prelude.{
  has_prefix, ℕ, zero, suc, ◌+◌, ◌-◌, ◌*◌, ◌/◌, ◌%◌, ◌^◌, ◌≤◌, ◌<◌, max, String, ◌≡◌, refl, sym, ap,
  ◌∙◌, subst, ◌≢◌, ◌↔◌, ◌⊎◌, inl, inr, Bool, true, false, not, ◌&&◌, ◌||◌, Option, none, some, List,
  [], ◌∷◌, ◌++◌, map, arith, str_eq, str_eq_iff, ltb, leb, ◌==◌, if◌then◌else◌, ltb→lt, lt→ltb,
  leb→le, ==_iff, ==_refl, Bool-cases, Option-cases, &&_left, &&_right, is_some, length,
  length-append, find-All, map_option, find-update_where, any-true, find-append, any_weaken,
  count_where-append, count_where_none, find_sound, find-any, any-false, All-update_where,
  All-append, All-map, is_nil, find, any, select, count_where, update_where, All, Bytes, bytes,
  text_eq, text_lt, lower_byte, to_lower, is_space, trim_left, trim_space, contains_byte,
  contains_any, text_eq_iff, Result, ok, err, Exec, pure, raise, continue, ◌>>=◌, ◌>>◌, gets,
  modify, require, or_fail, lift, roll_back, transact, Result-cases,
}
use thin_pi.Db.{Db, Credential}
use thin_pi.Store.Users.{is_alnum, every, line_breaks}
use thin_pi.Store.Credentials.{key_kind}

-- encoding/json, encoding/base64 and http.DetectContentType
pub record Codec : Type 0 where
  pub json_valid : Bytes → Bool
  pub terminal_title : Bytes → Option Bytes
  pub base64 : Bytes → Option Bytes
  pub content_type : Bytes → String

-- validLabel
unfoldable pub valid_label : Bytes → ℕ → Bool
unfolding trim_space contains_any
valid_label v max =
    let t = trim_space v in
    not (is_nil t) && (leb (length t) max && not (contains_any line_breaks t))

-- asciiAlphaNum
unfoldable pub ascii_alpha_num : ℕ → Bool
ascii_alpha_num c =
    (leb b'a' c && leb c b'z') || ((leb b'A' c && leb c b'Z') || (leb b'0' c && leb c b'9'))

-- asciiAlphaNum(h[0])
abbrev pub starts_alpha_num : Bytes → Bool
starts_alpha_num [] = false
starts_alpha_num (c ∷ s) = ascii_alpha_num c

-- The loop of validHost, which stops at the first byte that is not allowed.
unfoldable pub host_bytes : Bytes → Bool
unfolding ascii_alpha_num
host_bytes [] = true
host_bytes (c ∷ s) =
    let rest = host_bytes s in
    if not (ascii_alpha_num c)
      && (not (c == b'.') && (not (c == b'_') && (not (c == b'-') && not (c == b':'))))
    then false
    else rest

-- validHost
unfoldable pub valid_host : Bytes → Bool
unfolding trim_space host_bytes ascii_alpha_num
valid_host h =
    let t = trim_space h in
    if is_nil t || (ltb 253 (length t) || not (starts_alpha_num t)) then false else host_bytes t

-- validProtocol
unfoldable pub valid_protocol : Bool → String → Bool
valid_protocol dev p =
    str_eq p "rdp"
    || (str_eq p "moonlight" || (str_eq p "vnc" || (str_eq p "ssh" || (dev && str_eq p "mock"))))

unfoldable pub kind_allowed : Option Credential → String → Bool
kind_allowed none protocol = false
kind_allowed (some c) protocol = not (str_eq c.secret_type key_kind) || str_eq protocol "ssh"

-- credentialAllowedForProtocol
unfoldable pub credential_allowed : Db → Option ℕ → String → Bool
unfolding find kind_allowed
credential_allowed db none protocol = true
credential_allowed db (some id) protocol =
    kind_allowed (find (λ c. c.id == id) db.credentials) protocol

unfoldable pub valid_title : Option Bytes → Bool
unfolding contains_any
valid_title none = false
valid_title (some t) = leb (length t) 128 && not (contains_any line_breaks t)

-- validProtocolConfig
unfoldable pub valid_protocol_config : Codec → String → Bytes → Bool
unfolding valid_title
valid_protocol_config codec protocol raw =
    codec.json_valid raw && (not (str_eq protocol "ssh") || valid_title (codec.terminal_title raw))

-- strings.HasSuffix(s, p)
unfoldable pub has_suffix : Bytes → Bytes → Bool
unfolding text_eq
has_suffix [] p = is_nil p
has_suffix (c ∷ s) p = text_eq (c ∷ s) p || has_suffix s p

-- strings.Cut(s, sep) at a byte
unfoldable pub cut : ℕ → Bytes → Option (Bytes × Bytes)
cut sep [] = none
cut sep (c ∷ s) =
    let rest = cut sep s in if c == sep then some ([], s) else map_option (λ p. (c ∷ p.0, p.1)) rest

abbrev pub image_type : String → Bool
image_type mime = str_eq mime "image/png" || (str_eq mime "image/jpeg" || str_eq mime "image/webp")

unfoldable pub photo_of : Codec → Option Bytes → Option (String × Bytes)
photo_of codec none = none
photo_of codec (some photo) =
    if not (is_nil photo) && (leb (length photo) 262144 && image_type (codec.content_type photo))
    then some (codec.content_type photo, photo)
    else none

unfoldable pub photo_in : Codec → Option (Bytes × Bytes) → Option (String × Bytes)
unfolding has_prefix has_suffix photo_of
photo_in codec none = none
photo_in codec (some (header, encoded)) =
    if has_prefix header (bytes "data:image/") && has_suffix header (bytes ";base64")
    then photo_of codec (codec.base64 encoded)
    else none

-- decodeProfilePhoto
unfoldable pub decode_profile_photo : Codec → Bytes → Option (String × Bytes)
unfolding cut photo_in
decode_profile_photo codec url = photo_in codec (cut b',' url)
