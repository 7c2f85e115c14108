-- ===== src/Secrets.antt =====
-- controller/internal/security/security.go: the texts of password hashes, and sealed secrets. The hash
-- argon2id, the cipher AES-GCM, base64 and fmt.Sscanf are parameters.
pub mod Contract
use thin_pi.Prelude.{
  ℕ, zero, suc, ◌+◌, ◌-◌, ◌*◌, ◌/◌, ◌%◌, ◌^◌, ◌≤◌, ◌<◌, max, String, ◌≡◌, refl, sym, ap, ◌∙◌, subst,
  ◌≢◌, ◌↔◌, ◌⊎◌, inl, inr, Bool, true, false, not, ◌&&◌, ◌||◌, Option, none, some, List, [], ◌∷◌,
  ◌++◌, map, arith, str_eq, str_eq_iff, ltb, leb, ◌==◌, if◌then◌else◌, ltb→lt, lt→ltb, leb→le,
  ==_iff, ==_refl, Bool-cases, Option-cases, &&_left, &&_right, is_some, length, length-append,
  find-All, map_option, find-update_where, any-true, find-append, any_weaken, count_where-append,
  count_where_none, find_sound, find-any, any-false, All-update_where, All-append, All-map, is_nil,
  find, take, any, select, count_where, update_where, All, Bytes, bytes, text_eq, push, split,
  text_lt, lower_byte, to_lower, is_space, trim_left, trim_space, contains_byte, contains_any,
  text_eq_iff, Result, ok, err, Exec, pure, raise, continue, ◌>>=◌, ◌>>◌, gets, modify, require,
  or_fail, lift, roll_back, transact, Result-cases,
}
use thin_pi.Db.{Security}

-- cipher.AEAD with the additional data "thinpi-credential-v1"
pub record Aead : Type 0 where
  pub nonce_size : ℕ
  pub seal : Bytes → Bytes → Bytes
  pub unseal : Bytes → Bytes → Option Bytes

pub record Primitives : Type 0 where
  -- argon2.IDKey: password, salt, iterations, memory, parallelism and the length of the key
  pub derive : Bytes → Bytes → ℕ → ℕ → ℕ → ℕ → Bytes
  -- base64.RawStdEncoding and base64.StdEncoding
  pub raw_encode : Bytes → Bytes
  pub raw_decode : Bytes → Option Bytes
  pub std_decode : Bytes → Option Bytes
  -- fmt.Sscanf with "m=%d,t=%d,p=%d"
  pub scan_costs : Bytes → Option (ℕ × ℕ × ℕ)
  -- cipher.NewGCM of aes.NewCipher
  pub gcm : Bytes → Aead
  pub sha : Bytes → String

-- $argon2id$v=19$m=65536,t=3,p=2$
abbrev pub preamble : Bytes
preamble = bytes "$argon2id$v=19$m=65536,t=3,p=2$"

-- HashPassword; `salt` is none where the random source fails
unfoldable pub hash_password : Primitives → Option Bytes → Bytes → Option Bytes
hash_password p none password = none
hash_password p (some salt) password =
    if ltb (length password) 8 || ltb 1024 (length password)
    then none
    else some (
        preamble
        ++ (p.raw_encode salt ++ (b'$' ∷ p.raw_encode (p.derive password salt 3 65536 2 32))))

unfoldable pub verify_key :
    Primitives → Bytes → Option (ℕ × ℕ × ℕ) → Option Bytes → Option Bytes → Bool
unfolding text_eq
verify_key p password (some (memory, iterations, parallelism)) (some salt) (some want) =
    not (ltb 262144 memory || (ltb 10 iterations || ltb 16 parallelism))
    && (leb 8 (length salt)
        && (leb 16 (length want)
            && text_eq want (p.derive password salt iterations memory parallelism (length want))))
verify_key p password costs salt want = false

unfoldable pub verify_parts : Primitives → Bytes → List Bytes → Bool
unfolding verify_key text_eq
verify_parts p password (before ∷ kind ∷ version ∷ costs ∷ salt ∷ key ∷ []) =
    text_eq kind (bytes "argon2id")
    && (text_eq version (bytes "v=19")
        && verify_key p password (p.scan_costs costs) (p.raw_decode salt) (p.raw_decode key))
verify_parts p password parts = false

-- VerifyPassword
unfoldable pub verify_password : Primitives → Bytes → Bytes → Bool
unfolding verify_parts split
verify_password p encoded password = verify_parts p password (split b'$' encoded)

-- NewVault
unfoldable pub new_vault : Primitives → Bytes → Option Aead
new_vault p key = if length key == 32 then some (p.gcm key) else none

-- Encrypt, with the nonce that it draws
unfoldable pub encrypt : Aead → Bytes → Bytes → Bytes
encrypt v iv plain = 1 ∷ (iv ++ v.seal iv plain)

unfoldable pub drop : ℕ → Bytes → Bytes
drop zero s = s
drop (suc n) [] = []
drop (suc n) (c ∷ s) = drop n s

-- Decrypt
unfoldable pub decrypt : Aead → Bytes → Option Bytes
unfolding take drop
decrypt v [] = none
decrypt v (format ∷ s) =
    if ltb (length s) v.nonce_size || not (format == 1)
    then none
    else v.unseal (take v.nonce_size s) (drop v.nonce_size s)

abbrev pub of_length : ℕ → Option Bytes → Option Bytes
of_length n none = none
of_length n (some s) = if length s == n then some s else none

unfoldable pub or_next : Option Bytes → Option Bytes → Option Bytes
or_next (some s) next = some s
or_next none next = next

-- ParseMasterKey
unfoldable pub parse_master_key : Primitives → Bytes → Option Bytes
unfolding or_next trim_space
parse_master_key p raw =
    or_next (of_length 32 (p.std_decode (trim_space raw)))
      (or_next (of_length 32 (p.raw_decode (trim_space raw))) (of_length 32 (some raw)))

-- The texts of Go and the texts of the tables.
pub record Texts : Type 0 where
  pub text : Bytes → String
  pub content : String → Bytes

-- The functions that the store takes from this package.
abbrev pub security_of : Primitives → Texts → Aead → Security
security_of p x v = record {
  token_hash = λ token. p.sha (x.content token);
  hash_password = λ salt password. map_option x.text (hash_password p (some salt) password);
  verify_password = λ encoded password. verify_password p (x.content encoded) password;
  encrypt = encrypt v;
  decrypt = decrypt v;
}
