-- ===== src/Agent/Trust.antt =====
-- agent/internal/launch/ssh_trust.go: which SSH host keys are trusted. The file is the list of its lines as
-- `readLines` gives them, trimmed and none of them empty; a write succeeds or leaves the file. What
-- ssh-keyscan prints, base64 and SHA-256 are parameters.
pub mod Acceptance
use thin_pi.Prelude.{
  ℕ, zero, suc, ◌+◌, ◌-◌, ◌*◌, ◌/◌, ◌%◌, ◌^◌, ◌≤◌, ◌<◌, max, String, ◌≡◌, refl, sym, ap, ◌∙◌, subst,
  ◌≢◌, ◌↔◌, ◌⊎◌, inl, inr, Bool, true, false, not, ◌&&◌, ◌||◌, Option, none, some, List, [], ◌∷◌,
  ◌++◌, map, arith, str_eq, str_eq_iff, ltb, leb, ◌==◌, if◌then◌else◌, ltb→lt, lt→ltb, leb→le,
  ==_iff, ==_refl, Bool-cases, Option-cases, &&_left, &&_right, is_some, length, length-append,
  find-All, map_option, find-update_where, any-true, find-append, any_weaken, count_where-append,
  count_where_none, find_sound, find-any, any-false, All-update_where, All-append, All-map, is_nil,
  find, take, any, select, count_where, update_where, All, Bytes, bytes, text_eq, text_lt,
  lower_byte, to_lower, is_space, trim_left, trim_space, contains_byte, contains_any, text_eq_iff,
  Result, ok, err, Exec, pure, raise, continue, ◌>>=◌, ◌>>◌, gets, modify, require, or_fail, lift,
  roll_back, transact, Result-cases, has_prefix, push, split, ends_word, fields, split_plain,
  split-append, fields-append, length-take, length-take_lt, length-select, All-take, All-map_of,
  All-select, All-any,
}
use thin_pi.Agent.Command.{itoa, validate_host}

-- PendingSSHHostKey
pub record Pending : Type 0 where
  pub host : Bytes
  pub port : ℕ
  pub lines : List Bytes

pub data TrustError : Type 0 where
  unsafe_host no_usable_key not_written invalid_pending : TrustError
  -- SSHHostKeyChangedError, with the pending lines that come with it
  key_changed : Pending → Bytes → TrustError

pub record Digest : Type 0 where
  pub base64 : Bytes → Option Bytes
  -- "SHA256:" and the text of the digest
  pub sha256 : Bytes → Bytes

abbrev pub Known : Type 0 → Type 0
Known A = Exec (List Bytes) TrustError A

-- sshKnownHost
unfoldable pub known_host : Bytes → ℕ → Bytes
unfolding itoa
known_host host port = if port == 22 then host else b'[' ∷ (host ++ (b']' ∷ b':' ∷ itoa port))

-- The names of a line with at least three fields.
unfoldable pub named : Bytes → List Bytes → Bool
unfolding any split text_eq
named target (hosts ∷ kind ∷ key ∷ rest) = any (λ h. text_eq h target) (split b',' hosts)
named target words = false

-- sshLineMatchesHost
unfoldable pub line_matches : Bytes → Bytes → Bool
unfolding named fields
line_matches target line = named target (fields line)

unfoldable pub place_line : Bytes → List Bytes → List Bytes
unfolding text_lt
place_line l [] = l ∷ []
place_line l (k ∷ ks) = let rest = place_line l ks in if text_lt k l then k ∷ rest else l ∷ k ∷ ks

-- sort.Strings
unfoldable pub sort_lines : List Bytes → List Bytes
unfolding place_line
sort_lines [] = []
sort_lines (l ∷ ls) = place_line l (sort_lines ls)

unfoldable pub same_lines : List Bytes → List Bytes → Bool
unfolding text_eq
same_lines [] [] = true
same_lines [] (b ∷ bs) = false
same_lines (a ∷ as_) [] = false
same_lines (a ∷ as_) (b ∷ bs) = text_eq a b && same_lines as_ bs

-- equalStringSets
unfoldable pub equal_sets : List Bytes → List Bytes → Bool
unfolding sort_lines same_lines
equal_sets a b = length a == length b && same_lines (sort_lines a) (sort_lines b)

unfoldable pub key_digest : Digest → List Bytes → Bytes
key_digest d (kind ∷ key ∷ []) = elim (d.base64 key) [
  | none ↦ bytes "unknown"
  | some raw ↦ d.sha256 raw
]
key_digest d words = bytes "unknown"

-- sshKeyFingerprint, of the first key
unfoldable pub fingerprint : Digest → List Bytes → Bytes
unfolding key_digest fields
fingerprint d [] = []
fingerprint d (key ∷ keys) = key_digest d (fields key)

abbrev pub key_lines : Bytes → ℕ → List Bytes → List Bytes
key_lines host port keys = map (λ key. known_host host port ++ (32 ∷ key)) keys

abbrev pub pending_of : Bytes → ℕ → List Bytes → Pending
pending_of host port keys = record { host = host; port = port; lines = key_lines host port keys }

-- writeLines
unfoldable pub write_lines : Bool → List Bytes → Known (Unit {0})
write_lines written lines file = if written then (ok tt, lines) else (err not_written, file)

unfoldable pub compare_keys : Digest → Bytes → ℕ → List Bytes → Bool → Known (Unit {0})
unfolding select line_matches equal_sets fingerprint write_lines known_host
compare_keys d host port keys written file =
    let current = select (line_matches (known_host host port)) file in
    if is_nil current
    then write_lines written (file ++ key_lines host port keys) file
    else if equal_sets current (key_lines host port keys)
    then (ok tt, file)
    else (err (key_changed (pending_of host port keys) (fingerprint d keys)), file)

-- Prepare
unfoldable pub prepare : Digest → Bytes → ℕ → Option (List Bytes) → Bool → Known (Unit {0})
unfolding validate_host compare_keys
prepare d host port scanned written = do
  require (validate_host host port) unsafe_host
  keys ← or_fail scanned no_usable_key
  compare_keys d host port keys written

-- Accept
unfoldable pub accept : Pending → Bool → Known (Unit {0})
unfolding select line_matches write_lines known_host
accept p written file =
    (do
      require (not (is_nil p.lines)) invalid_pending
      write_lines written
          (select (λ line. not (line_matches (known_host p.host p.port) line)) file ++ p.lines))
      file

-- validSSHKeyType
unfoldable pub valid_key_type : Bytes → Bool
unfolding has_prefix
valid_key_type s =
    has_prefix s (bytes "ssh-") || (has_prefix s (bytes "ecdsa-") || has_prefix s (bytes "sk-"))

abbrev pub long_enough : Option Bytes → Bool
long_enough none = false
long_enough (some raw) = leb 32 (length raw)

-- The key of a line that ssh-keyscan prints, if it is usable.
unfoldable pub usable_key : Digest → Bool → List Bytes → Option Bytes
unfolding valid_key_type
usable_key d comment (host ∷ kind ∷ key ∷ rest) =
    if comment || (not (valid_key_type kind) || not (long_enough (d.base64 key)))
    then none
    else some (kind ++ (32 ∷ key))
usable_key d comment words = none

unfoldable pub add_key : Option Bytes → List Bytes → List Bytes
unfolding any text_eq
add_key none keys = keys
add_key (some key) keys = if any (text_eq key) keys then keys else keys ++ (key ∷ [])

unfoldable pub collect_keys : Digest → List Bytes → List Bytes → List Bytes
unfolding usable_key add_key fields has_prefix
collect_keys d [] keys = keys
collect_keys d (line ∷ lines) keys =
    collect_keys d lines (add_key (usable_key d (has_prefix line (bytes "#")) (fields line)) keys)

-- scanSSHHostKeys, of what ssh-keyscan has printed
unfoldable pub scan_keys : Digest → Bytes → Option (List Bytes)
unfolding collect_keys split sort_lines
scan_keys d output =
    let keys = collect_keys d (split 10 output) [] in
    if is_nil keys then none else some (sort_lines keys)
