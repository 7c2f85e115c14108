-- ===== src/Store/Credentials/RoundTrip.antt =====
-- controller/internal/app/store.go: a credential that is created, as a launch gets it.
use thin_pi.Prelude.{
  ℕ, String, ◌≡◌, refl, sym, ap, ◌∙◌, subst, inl, inr, Bool, false, not, ◌&&◌, some, [], ◌∷◌, ◌++◌,
  arith, str_eq, leb, ◌==◌, ==_refl, Bool-cases, length, find-append, is_nil, find, any, Bytes,
  trim_space, Result, ok, err,
}
use thin_pi.Stamp.{stamp}
use thin_pi.Db.{Db, Error, Config, Security, Credential, Manifest}
use thin_pi.Secrets.Contract.{IsFaithful}
use thin_pi.Store.Credentials.{create_credential, sealed, known_kind, fits_credential, fits_key}
use thin_pi.Store.Launch.{with_credential, secret_of, text_or_empty}

abbrev made_id : Result Error ℕ → ℕ
made_id (ok i) = i
made_id (err e) = 0

abbrev new_row : Config → Bytes → Bytes → Bytes → String → Bytes → ℕ → Db → Credential
new_row cfg name username secret kind iv now db = record {
  id = db.next_credential;
  name = trim_space name;
  username = some (trim_space username);
  encrypted_secret = some (cfg.encrypt iv secret);
  secret_type = kind;
  created_at = stamp now;
  updated_at = stamp now;
}

-- What a creation that succeeds with a secret has added.
added :
    (cfg : Config) (parse_key : Bytes → Bool) (name username secret : Bytes) (kind : String)
    (iv : Bytes) (now id : ℕ) (db db' : Db)
    → is_nil secret ≡ false
    → create_credential cfg parse_key name username secret kind (some iv) now db ≡ (ok id, db')
    → (id ≡ db.next_credential)
      × (db'.credentials ≡ db.credentials ++ (new_row cfg name username secret kind iv now db ∷ []))
unfolding create_credential sealed
added cfg parse_key name username secret kind iv now id db db' full made =
    elim (Bool-cases (known_kind kind)) [
      | inl kinds ↦
          elim (Bool-cases (not (is_nil (trim_space name)) && leb (length (trim_space name)) 128)) [
            | inl named ↦ elim (Bool-cases (fits_credential (trim_space username) secret)) [
              | inl fits ↦ elim (Bool-cases (not (str_eq kind "password" && is_nil secret))) [
                | inl given ↦
                    elim (Bool-cases (fits_key parse_key kind (trim_space username) secret)) [
                      | inl parses ↦
                          let e = rw (kinds, named, fits, given, parses, full) at made in
                          (sym (ap (λ x. made_id x.0) e), sym (ap (λ x. x.1.credentials) e))
                      | inr bad ↦ absurd (ground arith)
                    ]
                | inr bad ↦ absurd (ground arith)
              ]
              | inr bad ↦ absurd (ground arith)
            ]
            | inr bad ↦ absurd (ground arith)
          ]
      | inr bad ↦ absurd (ground arith)
    ]

find_alone : (c : Credential) → find (λ (d : Credential). d.id == c.id) (c ∷ []) ≡ some c
unfolding find
find_alone c = rw (==_refl c.id)

secret_opened :
    (sec : Security) (n : ℕ) (same : Bytes → Bytes → Bytes → Bool)
    → IsFaithful sec n same
    → (iv secret : Bytes) → length iv ≡ n
    → (b : Bytes) → sec.encrypt iv secret ≡ b
    → secret_of sec (some b) ≡ ok secret
secret_opened sec n same faithful iv secret size [] e =
    absurd (ground (arith, ap is_nil e, faithful.sealed iv secret))
secret_opened sec n same faithful iv secret size (b ∷ bs) e =
    let opened : sec.decrypt (b ∷ bs) ≡ some secret =
      subst (λ s. sec.decrypt s ≡ some secret) e (faithful.opens iv secret size) in
    rw (secret_of, opened)

used :
    (cfg : Config) (id : ℕ) (c : Credential) (m : Manifest) (db : Db) (plain : Bytes)
    → find (λ (d : Credential). d.id == id) db.credentials ≡ some c
    → secret_of cfg.security c.encrypted_secret ≡ ok plain
    → with_credential cfg (some id) m db ≡ (
      ok (record m {
        username = text_or_empty c.username;
        password = plain;
        credential_type = c.secret_type;
      }),
      db,
    )
unfolding with_credential
used cfg id c m db plain found opened = rw (found, opened)

-- A credential that is created with a secret is handed to a launch with the trimmed username, the secret
-- and the kind it was created with, if the security functions are faithful, the nonce has their length,
-- and no stored credential has the next id.
pub create_credential-with_credential :
    (cfg : Config) (n : ℕ) (same : Bytes → Bytes → Bytes → Bool)
    (faithful : IsFaithful cfg.security n same) (parse_key : Bytes → Bool)
    (name username secret : Bytes) (kind : String) (iv : Bytes) (now id : ℕ) (m : Manifest)
    (db db' : Db)
    → length iv ≡ n
    → is_nil secret ≡ false
    → any (λ (c : Credential). c.id == db.next_credential) db.credentials ≡ false
    → create_credential cfg parse_key name username secret kind (some iv) now db ≡ (ok id, db')
    → with_credential cfg (some id) m db' ≡ (
      ok (record m { username = trim_space username; password = secret; credential_type = kind }),
      db',
    )
create_credential-with_credential cfg n same faithful parse_key name username secret kind iv now id
      m db db' size full fresh made =
    let (next, rows) = added cfg parse_key name username secret kind iv now id db db' full made in
    let row = new_row cfg name username secret kind iv now db in
    let found : find (λ (c : Credential). c.id == id) db'.credentials ≡ some row =
      subst (λ cs. find (λ (c : Credential). c.id == id) cs ≡ some row) (sym rows)
        (subst (λ k. find (λ (c : Credential). c.id == k) (db.credentials ++ (row ∷ [])) ≡ some row)
          (sym next)
          (find-append (λ (c : Credential). c.id == db.next_credential) db.credentials (row ∷ [])
              fresh
            ∙ find_alone row)) in
    used cfg id row m db' secret found
      (secret_opened cfg.security n same faithful iv secret size (cfg.encrypt iv secret) refl)
