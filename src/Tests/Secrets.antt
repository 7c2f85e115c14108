-- ===== src/Tests/Secrets.antt =====
-- The security functions over simple primitives, and the starts of a controller with two migrations.
use thin_pi.Migrations.Settled.{settled}
use thin_pi.Prelude.{
  ℕ, zero, suc, ◌+◌, ◌-◌, ◌*◌, String, ◌≡◌, refl, sym, ap, ◌∙◌, inl, inr, true, false, ◌&&◌, none,
  some, List, [], ◌∷◌, ◌++◌, map, arith, leb, ◌==◌, if◌then◌else◌, ==_refl, Bool-cases, length,
  take, any, Bytes, bytes, text_eq, text_eq_iff, ok,
}
use Prim.Native.Char.{code}
use thin_pi.Db.{Db, Config, Manifest}
use thin_pi.Secrets.{Aead, Primitives, Texts, security_of, drop}
use thin_pi.Secrets.Contract.{IsSound, IsFaithful, same_key, take-drop, security_of-IsFaithful}
use thin_pi.Store.Credentials.{sealed, create_credential}
use thin_pi.Store.Credentials.RoundTrip.{create_credential-with_credential}
use thin_pi.Store.Launch.{with_credential}
use thin_pi.Migrations.{sort_entries, Entry, State, Engine, migrate}
use thin_pi.Migrations.Restarts.{starts, starts_end}
use thin_pi.Tests.World.{config, home}

-- A number as so many letters and a stop.
unfoldable unary : ℕ → String → String
unary zero s = String.◌∷◌ "." s
unary (suc n) s = String.◌∷◌ "i" (unary n s)

unfoldable text : Bytes → String
unfolding unary
text [] = ""
text (c ∷ s) = unary c (text s)

unfoldable bump : Bytes → Bytes
bump [] = []
bump (c ∷ s) = suc c ∷ s

unfoldable content : String → Bytes
unfolding bump
content String.[] = []
content (String.◌∷◌ c s) = let rest = content s in if code c == b'.' then 0 ∷ rest else bump rest

content-unary : (n : ℕ) (s : String) → content (unary n s) ≡ n ∷ content s
unfolding content unary bump
content-unary zero s = refl
content-unary (suc n) s = rw (content-unary n s) refl

content-text : (s : Bytes) → content (text s) ≡ s
unfolding text
content-text [] = unfold content in refl
content-text (c ∷ s) = content-unary c (text s) ∙ ap (λ t. c ∷ t) (content-text s)

abbrev shifted : Bytes → Bytes
shifted s = map (λ c. c + 100) s

abbrev unshifted : Bytes → Bytes
unshifted s = map (λ c. c - 100) s

unshifted-shifted : (s : Bytes) → unshifted (shifted s) ≡ s
unshifted-shifted [] = refl
unshifted-shifted (c ∷ s) = cong_cons (omega arith) (unshifted-shifted s)
  where
    cong_cons : {a b : ℕ} {u v : Bytes} → a ≡ b → u ≡ v → a ∷ u ≡ b ∷ v
    cong_cons p q = cc

shifted_plain : (s : Bytes) → any (λ c. c == b'$') (shifted s) ≡ false
unfolding any
shifted_plain [] = refl
shifted_plain (c ∷ s) = ground (arith, shifted_plain s)

abbrev zeros : Bytes
zeros = 0 ∷ 0 ∷ 0 ∷ 0 ∷ 0 ∷ 0 ∷ 0 ∷ 0 ∷ []

-- A cipher that checks the nonce.
abbrev vault : Aead
vault = record {
  nonce_size = 2;
  seal = λ iv plain. iv ++ plain;
  unseal = λ iv sealed. if text_eq (take 2 sealed) iv then some (drop 2 sealed) else none;
}

abbrev primitives : Primitives
primitives = record {
  derive = λ password salt iterations memory parallelism size.
      1 ∷ length password ∷ 0 ∷ 0 ∷ 0 ∷ 0 ∷ 0 ∷ 0 ∷ (zeros ++ (zeros ++ zeros));
  raw_encode = shifted;
  raw_decode = λ s. some (unshifted s);
  std_decode = λ s. none;
  scan_costs = λ s. some (65536, 3, 2);
  gcm = λ key. vault;
  sha = text;
}

abbrev texts : Texts
texts = record { text = text; content = content }

unsealed :
    (iv plain : Bytes)
    → length iv ≡ 2
    → (if text_eq (take 2 (iv ++ plain)) iv then some (drop 2 (iv ++ plain)) else none) ≡ some plain
unfolding take drop text_eq
unsealed [] plain h = absurd (ground arith)
unsealed (a ∷ []) plain h = absurd (ground arith)
unsealed (a ∷ b ∷ []) plain h = rw (==_refl a, ==_refl b)
unsealed (a ∷ b ∷ c ∷ s) plain h = absurd (ground arith)

sealed_only :
    (iv sealed plain : Bytes)
    → length iv ≡ 2
    → (if text_eq (take 2 sealed) iv then some (drop 2 sealed) else none) ≡ some plain
    → sealed ≡ iv ++ plain
sealed_only iv sealed plain size opened = elim (Bool-cases (text_eq (take 2 sealed) iv)) [
  | inl same ↦
      let key : take 2 sealed ≡ iv = (text_eq_iff (take 2 sealed) iv).0 same in
      let rest : drop 2 sealed ≡ plain = ground arith in
      sym (take-drop 2 sealed) ∙ ap (λ t. t ++ drop 2 sealed) key ∙ ap (λ t. iv ++ t) rest
  | inr other ↦ absurd (ground arith)
]

sound : IsSound primitives texts vault
sound = record {
  decode = λ s. ap some (unshifted-shifted s);
  plain = shifted_plain;
  costs = refl;
  width = λ password salt. refl;
  texts = content-text;
  unseals = unsealed;
  authentic = sealed_only;
}

faithful : IsFaithful (security_of primitives texts vault) 2 (same_key primitives)
faithful = security_of-IsFaithful primitives texts vault sound

security_of-IsFaithful_example :
    IsFaithful (security_of primitives texts vault) 2 (same_key primitives)
security_of-IsFaithful_example = security_of-IsFaithful primitives texts vault sound

abbrev household : Config
household = record config { security = security_of primitives texts vault }

abbrev blank : Manifest
blank = record {
  ticket_id = 1;
  connection_id = 1;
  name = bytes "Desktop";
  protocol = "rdp";
  host = bytes "desk.lan";
  port = 3389;
  username = [];
  password = [];
  credential_type = "";
  config = [];
  max_session_seconds = 0;
  terminal_theme = "dark";
}

abbrev stored : Db
stored =
    (create_credential household (λ key. true) (bytes "Desk") (bytes " anna ") (bytes "pass")
      "password" (some (7 ∷ 9 ∷ [])) 0 home).1

create_credential-with_credential_example : with_credential household (some 1) blank stored ≡ (
  ok (record blank {
    username = bytes "anna";
    password = bytes "pass";
    credential_type = "password";
  }),
  stored,
)
unfolding any create_credential sealed
create_credential-with_credential_example =
    create_credential-with_credential household 2 (same_key primitives) faithful (λ key. true)
      (bytes "Desk") (bytes " anna ") (bytes "pass") "password" (7 ∷ 9 ∷ []) 0 1 blank home stored
      refl refl refl refl

-- Two scripts, of which the first leaves broken foreign keys and runs on an empty database only.
abbrev scripts : List Entry
scripts =
    record { name = bytes "002_more.sql"; is_dir = false; body = bytes "more" }
    ∷ record { name = bytes "001_initial.sql"; is_dir = false; body = bytes "initial" }
    ∷ []

abbrev number : ℕ → Bytes → ℕ
number n [] = n
number n (c ∷ s) = number (n * 10 + (c - b'0')) s

abbrev engine : Engine Bytes
engine = record {
  atoi = λ s. some (number 0 s);
  execute = λ body tables.
      if leb 1 (length tables) && text_eq body (bytes "initial")
      then none
      else some (tables ++ body);
  keys_hold = λ tables. leb 8 (length tables);
}

abbrev fresh : State Bytes
fresh = record { versions = []; tables = [] }

starts_end_example : (migrate engine scripts (starts engine scripts 2 fresh)).0 ≡ ok tt
unfolding sort_entries settled
starts_end_example =
    starts_end engine scripts fresh (
      inr
        (1, bytes "initial", refl, refl, refl, inr (2, bytes "initialmore", refl, refl, refl, tt)))
