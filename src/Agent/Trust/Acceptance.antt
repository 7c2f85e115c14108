-- ===== src/Agent/Trust/Acceptance.antt =====
-- agent/internal/launch/ssh_trust.go: an accepted key is trusted from then on.
use thin_pi.Prelude.{
  ℕ, zero, suc, ◌+◌, ◌/◌, ◌%◌, ◌≡◌, refl, ap, ◌∙◌, inl, inr, Bool, true, false, not, some, List, [],
  ◌∷◌, ◌++◌, arith, ltb, leb, ◌==◌, ==_refl, Bool-cases, length, is_nil, any, select, All, Bytes,
  is_space, text_eq_iff, ok, fields, split_plain, fields-append,
}
use thin_pi.Store.Users.{every, is_alnum}
use thin_pi.Agent.Command.{validate_host, safe_host, is_host_byte, digits, itoa}
use thin_pi.Agent.Trust.{
  Digest, known_host, named, line_matches, sort_lines, same_lines, equal_sets, key_lines,
  pending_of, write_lines, compare_keys, prepare, accept,
}

same_lines_refl : (ls : List Bytes) → same_lines ls ls ≡ true
unfolding same_lines
same_lines_refl [] = refl
same_lines_refl (l ∷ ls) = rw ((text_eq_iff l l).1 refl) (same_lines_refl ls)

equal_sets_refl : (ls : List Bytes) → equal_sets ls ls ≡ true
unfolding equal_sets
equal_sets_refl ls = rw (==_refl (length ls)) (same_lines_refl (sort_lines ls))

-- A name of a host as the file has it, and a key of two fields.
record IsPlain (target : Bytes) : Type 0 where
  full : is_nil target ≡ false
  no_space : any is_space target ≡ false
  no_comma : any (λ c. c == b',') target ≡ false

-- Neither space nor a comma.
abbrev Clean : Bytes → Type 0
Clean s = (any is_space s ≡ false) × (any (λ c. c == b',') s ≡ false)

any-append :
    (q : ℕ → Bool) (s t : Bytes) → any q s ≡ false → any q t ≡ false → any q (s ++ t) ≡ false
unfolding any
any-append q [] t h k = k
any-append q (c ∷ s) t h k = ground (arith, any-append q s t)

every-Clean : (s : Bytes) → every is_host_byte s ≡ true → Clean s
unfolding every any is_space is_host_byte is_alnum
every-Clean [] h = (refl, refl)
every-Clean (c ∷ s) h =
    let rest = every-Clean s (ground arith) in (ground (arith, rest), ground (arith, rest))

append-Clean : (s t : Bytes) → Clean s → Clean t → Clean (s ++ t)
append-Clean s t h k = (any-append is_space s t h.0 k.0, any-append (λ c. c == b',') s t h.1 k.1)

last_digit-Clean : (n : ℕ) → Clean ((b'0' + n % 10) ∷ [])
unfolding any is_space
last_digit-Clean n = (ground arith, ground arith)

digits-Clean : (k n : ℕ) → Clean (digits k n)
unfolding digits any
digits-Clean zero n = (refl, refl)
digits-Clean (suc k) n = elim (Bool-cases (ltb n 10)) [
  | inl small ↦ rw small (last_digit-Clean n)
  | inr large ↦ rw large (
      append-Clean (digits k (n / 10)) ((b'0' + n % 10) ∷ []) (digits-Clean k (n / 10))
        (last_digit-Clean n))
]

validate_host-Clean :
    (host : Bytes) (port : ℕ) → validate_host host port ≡ true → (is_nil host ≡ false) × Clean host
unfolding validate_host safe_host every is_host_byte
validate_host-Clean [] port valid = absurd (ground arith)
validate_host-Clean (c ∷ s) port valid = (refl, every-Clean (c ∷ s) (ground arith))

bracketed-Clean :
    (host : Bytes) (port : ℕ) → Clean host → Clean (b'[' ∷ (host ++ (b']' ∷ b':' ∷ digits 20 port)))
unfolding any is_space
bracketed-Clean host port clean =
    append-Clean (b'[' ∷ []) (host ++ (b']' ∷ b':' ∷ digits 20 port)) (refl, refl)
      (append-Clean host (b']' ∷ b':' ∷ digits 20 port) clean
        (append-Clean (b']' ∷ b':' ∷ []) (digits 20 port) (refl, refl) (digits-Clean 20 port)))

known_host-IsPlain :
    (host : Bytes) (port : ℕ) → validate_host host port ≡ true → IsPlain (known_host host port)
unfolding known_host itoa
known_host-IsPlain host port valid =
    let (full, clean) = validate_host-Clean host port valid in
    elim (Bool-cases (port == 22)) [
      | inl usual ↦ rw usual (record { full = full; no_space = clean.0; no_comma = clean.1 })
      | inr other ↦
          let longer = bracketed-Clean host port clean in
          rw other (record { full = refl; no_space = longer.0; no_comma = longer.1 })
    ]

named_own :
    (target : Bytes) (words : List Bytes)
    → IsPlain target
    → leb 2 (length words) ≡ true
    → named target (target ∷ words) ≡ true
unfolding named any
named_own target [] plain h = absurd (ground arith)
named_own target (a ∷ []) plain h = absurd (ground arith)
named_own target (a ∷ b ∷ rest) plain h =
    rw (split_plain b',' target plain.no_comma, (text_eq_iff target target).1 refl) refl

line_matches_own :
    (target key : Bytes)
    → IsPlain target
    → leb 2 (length (fields key)) ≡ true
    → line_matches target (target ++ (32 ∷ key)) ≡ true
unfolding line_matches
line_matches_own [] key plain h = absurd (ground (arith, plain.full))
line_matches_own (c ∷ s) key plain h =
    rw (fields-append c s key plain.no_space) (named_own (c ∷ s) (fields key) plain h)

select_none : (p : Bytes → Bool) (ls : List Bytes) → select p (select (λ l. not (p l)) ls) ≡ []
unfolding select
select_none p [] = refl
select_none p (l ∷ ls) = ground (arith, select_none p ls)

select_same : (p : Bytes → Bool) (ls : List Bytes) → All (λ l. p l ≡ true) ls → select p ls ≡ ls
unfolding select
select_same p [] h = refl
select_same p (l ∷ ls) h = rw h.0 (ap (λ t. l ∷ t) (select_same p ls h.1))

select-append :
    (p : Bytes → Bool) (ls ks : List Bytes) → select p (ls ++ ks) ≡ select p ls ++ select p ks
unfolding select
select-append p [] ks = refl
select-append p (l ∷ ls) ks = ground (arith, select-append p ls ks)

key_lines_match :
    (host : Bytes) (port : ℕ) (keys : List Bytes)
    → IsPlain (known_host host port)
    → All (λ key. leb 2 (length (fields key)) ≡ true) keys
    → All (λ l. line_matches (known_host host port) l ≡ true) (key_lines host port keys)
key_lines_match host port [] plain h = tt
key_lines_match host port (key ∷ keys) plain h = (
  line_matches_own (known_host host port) key plain h.0,
  key_lines_match host port keys plain h.1,
)

compare_keys_known :
    (d : Digest) (host : Bytes) (port : ℕ) (keys : List Bytes) (written : Bool) (file : List Bytes)
    → is_nil (key_lines host port keys) ≡ false
    → select (line_matches (known_host host port)) file ≡ key_lines host port keys
    → compare_keys d host port keys written file ≡ (ok tt, file)
unfolding compare_keys
compare_keys_known d host port keys written file full known =
    rw (known, full, equal_sets_refl (key_lines host port keys)) refl

known_lines :
    (host : Bytes) (port : ℕ) (keys file : List Bytes)
    → IsPlain (known_host host port)
    → All (λ k. leb 2 (length (fields k)) ≡ true) keys
    → select
        (line_matches (known_host host port))
        (select (λ l. not (line_matches (known_host host port) l)) file ++ key_lines host port keys)
      ≡ key_lines host port keys
known_lines host port keys file plain whole =
    let p = line_matches (known_host host port) in
    select-append p (select (λ l. not (p l)) file) (key_lines host port keys)
    ∙ rw (select_none p file)
        (select_same p (key_lines host port keys) (key_lines_match host port keys plain whole))

-- Once the keys that a server shows for a valid host, each of two fields at least, have been accepted, and the file has been written, a
-- connection to the host goes on as long as the server shows the same keys, and the file stays.
pub accept-prepare :
    (d : Digest) (host : Bytes) (port : ℕ) (key : Bytes) (keys file : List Bytes) (written : Bool)
    → validate_host host port ≡ true
    → All (λ k. leb 2 (length (fields k)) ≡ true) (key ∷ keys)
    → let trusted = (accept (pending_of host port (key ∷ keys)) true file).1 in
      prepare d host port (some (key ∷ keys)) written trusted ≡ (ok tt, trusted)
unfolding accept prepare write_lines
accept-prepare d host port key keys file written valid whole =
    let trusted = (accept (pending_of host port (key ∷ keys)) true file).1 in
    rw valid (
      compare_keys_known d host port (key ∷ keys) written trusted refl
        (known_lines host port (key ∷ keys) file (known_host-IsPlain host port valid) whole))
