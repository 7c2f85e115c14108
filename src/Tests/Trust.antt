-- ===== src/Tests/Trust.antt =====
-- A host whose key has changed.
use thin_pi.Agent.Command.{validate_host}
use thin_pi.Prelude.{◌≡◌, refl, true, some, List, [], ◌∷◌, ◌++◌, Bytes, bytes, ok, fields}
use thin_pi.Agent.Trust.{Digest, prepare, accept}
use thin_pi.Agent.Trust.Acceptance.{accept-prepare}

abbrev digest : Digest
digest = record { base64 = λ s. some s; sha256 = λ s. bytes "SHA256:" ++ s }

abbrev known_file : List Bytes
known_file = bytes "nas.lan ssh-ed25519 OLD" ∷ bytes "tv.lan ssh-rsa KEY" ∷ []

abbrev changed_file : List Bytes
changed_file = bytes "tv.lan ssh-rsa KEY" ∷ bytes "nas.lan ssh-ed25519 NEW" ∷ []

accept-prepare_example :
    prepare digest (bytes "nas.lan") 22 (some (bytes "ssh-ed25519 NEW" ∷ [])) true changed_file
    ≡ (ok tt, changed_file)
unfolding validate_host fields accept
accept-prepare_example =
    accept-prepare digest (bytes "nas.lan") 22 (bytes "ssh-ed25519 NEW") [] known_file true refl
      (refl, tt)
