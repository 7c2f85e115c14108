-- ===== src/Store/Credentials.antt =====
-- store.go, `CreateCredential` and `ReplaceCredential`. The parser of private keys is a parameter,
-- and so is the nonce of the cipher, `none` where the source of randomness fails.
pub mod RoundTrip
use thin_pi.Prelude.{
  ℕ, suc, String, Bool, not, ◌&&◌, ◌||◌, Option, none, some, [], ◌∷◌, ◌++◌, str_eq, leb, ◌==◌,
  if◌then◌else◌, length, is_nil, find, update_where, Bytes, trim_space, contains_byte, contains_any,
  ok, pure, ◌>>=◌, ◌>>◌, modify, require, or_fail,
}
use thin_pi.Stamp.{stamp}
use thin_pi.Db.{Db, Action, Config, Credential, invalid_credential, random_failed, no_rows}

abbrev pub key_kind : String
key_kind = "ssh_private_key"

abbrev pub known_kind : String → Bool
known_kind kind = str_eq kind "password" || (str_eq kind "username_only" || str_eq kind key_kind)

abbrev pub controls : Bytes
controls = 13 ∷ 10 ∷ 0 ∷ []

-- The bounds on a username and a secret that both operations check.
unfoldable pub fits_credential : Bytes → Bytes → Bool
unfolding contains_any contains_byte
fits_credential username secret =
    leb (length username) 256
    && (leb (length secret) 16384
        && (not (contains_any controls username) && not (contains_byte 0 secret)))

-- kind == "ssh_private_key" && (username == "" || !validSSHPrivateKey(secret)) is refused.
unfoldable pub fits_key : (Bytes → Bool) → String → Bytes → Bytes → Bool
unfolding trim_space
fits_key parse_key kind username secret =
    not (str_eq kind key_kind) || (not (is_nil username) && parse_key (trim_space secret))

-- s.Vault.Encrypt, if there is a secret
unfoldable pub sealed : Config → Bytes → Option Bytes → Action (Option Bytes)
sealed cfg secret nonce db =
    if is_nil secret
    then (ok none, db)
    else (do n ← or_fail nonce random_failed; pure (some (cfg.encrypt n secret))) db

-- CreateCredential
unfoldable pub create_credential :
    Config → (Bytes → Bool) → Bytes → Bytes → Bytes → String → Option Bytes → ℕ → Action ℕ
unfolding fits_credential fits_key trim_space
create_credential cfg parse_key name username secret kind nonce now db =
    (do
      require (known_kind kind) invalid_credential
      require (not (is_nil (trim_space name)) && leb (length (trim_space name)) 128)
          invalid_credential
      require (fits_credential (trim_space username) secret) invalid_credential
      require (not (str_eq kind "password" && is_nil secret)) invalid_credential
      require (fits_key parse_key kind (trim_space username) secret) invalid_credential
      encrypted ← sealed cfg secret nonce
      modify (λ d. record d {
        credentials =
            d.credentials
            ++ (record {
              id = d.next_credential;
              name = trim_space name;
              username = some (trim_space username);
              encrypted_secret = encrypted;
              secret_type = kind;
              created_at = stamp now;
              updated_at = stamp now;
            }
                ∷ []);
        next_credential = suc d.next_credential;
      })
      pure db.next_credential)
      db

-- The username that is given, or else the one that is stored.
unfoldable pub next_username : Credential → Bytes → Bytes
unfolding trim_space
next_username c username =
    if is_nil (trim_space username)
    then trim_space (elim c.username [ none ↦ [] | some u ↦ u ])
    else trim_space username

-- UPDATE credentials SET username=?,encrypted_secret=?,updated_at=? WHERE id=?
unfoldable pub write_secret : ℕ → Bytes → Option Bytes → ℕ → Db → Db
unfolding update_where
write_secret id username encrypted now db = record db {
  credentials =
      update_where (λ c. c.id == id)
        (λ c. record c {
          username = some username;
          encrypted_secret = encrypted;
          updated_at = stamp now;
        })
        db.credentials;
}

-- ReplaceCredential
unfoldable pub replace_credential :
    Config → (Bytes → Bool) → ℕ → Bytes → Bytes → Option Bytes → ℕ → Action (Unit {0})
unfolding find fits_credential fits_key next_username write_secret
replace_credential cfg parse_key id username secret nonce now db =
    (do
      c ← or_fail (find (λ c. c.id == id) db.credentials) no_rows
      require (not (is_nil secret) && fits_credential (next_username c username) secret)
          invalid_credential
      require (fits_key parse_key c.secret_type (next_username c username) secret)
          invalid_credential
      encrypted ← sealed cfg secret nonce
      modify (write_secret id (next_username c username) encrypted now))
      db
