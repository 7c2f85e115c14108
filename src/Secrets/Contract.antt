-- ===== src/Secrets/Contract.antt =====
-- controller/internal/security/security.go: what the store may expect of the functions it takes.
use thin_pi.Prelude.{
  ℕ, zero, suc, String, ◌≡◌, refl, sym, ap, ◌∙◌, subst, inl, inr, Bool, true, false, not, ◌||◌,
  none, some, [], ◌∷◌, ◌++◌, arith, ltb, leb, ◌==◌, Bool-cases, length, length-append, is_nil, take,
  any, Bytes, bytes, text_eq, text_eq_iff, push, split, split_plain, split-append, length-take,
}
use mathlib.Core.Option.{some-injective}
use thin_pi.Db.{Security}
use thin_pi.Secrets.{
  Aead, Primitives, Texts, preamble, hash_password, verify_key, verify_parts, verify_password,
  encrypt, drop, decrypt, security_of,
}

-- What base64, argon2 and AES-GCM promise.
pub record IsSound (p : Primitives) (x : Texts) (v : Aead) : Type 0 where
  pub decode : (s : Bytes) → p.raw_decode (p.raw_encode s) ≡ some s
  pub plain : (s : Bytes) → any (λ c. c == b'$') (p.raw_encode s) ≡ false
  pub costs : p.scan_costs (bytes "m=65536,t=3,p=2") ≡ some (65536, 3, 2)
  pub width : (password salt : Bytes) → length (p.derive password salt 3 65536 2 32) ≡ 32
  pub texts : (s : Bytes) → x.content (x.text s) ≡ s
  pub unseals :
      (iv plain : Bytes) → length iv ≡ v.nonce_size → v.unseal iv (v.seal iv plain) ≡ some plain
  pub authentic :
      (iv sealed plain : Bytes)
      → length iv ≡ v.nonce_size
      → v.unseal iv sealed ≡ some plain
      → sealed ≡ v.seal iv plain

take-append : (s rest : Bytes) → take (length s) (s ++ rest) ≡ s
unfolding take
take-append [] rest = refl
take-append (c ∷ s) rest = ap (λ t. c ∷ t) (take-append s rest)

drop-append : (s rest : Bytes) → drop (length s) (s ++ rest) ≡ rest
unfolding drop
drop-append [] rest = refl
drop-append (c ∷ s) rest = drop-append s rest

pub take-drop : (n : ℕ) (s : Bytes) → take n s ++ drop n s ≡ s
unfolding take drop
take-drop zero s = refl
take-drop (suc n) [] = refl
take-drop (suc n) (c ∷ s) = ap (λ t. c ∷ t) (take-drop n s)

module _ (p : Primitives) (x : Texts) (v : Aead) (sound : IsSound p x v) where
  parts :
      (salt key : Bytes)
      → split b'$' (preamble ++ (p.raw_encode salt ++ (b'$' ∷ p.raw_encode key)))
        ≡ []
          ∷ bytes "argon2id"
          ∷ bytes "v=19"
          ∷ bytes "m=65536,t=3,p=2"
          ∷ p.raw_encode salt
          ∷ p.raw_encode key
          ∷ []
  unfolding split push
  parts salt key = rw (
    split-append b'$' (p.raw_encode salt) (p.raw_encode key) (sound.plain salt),
    split_plain b'$' (p.raw_encode key) (sound.plain key),
  )

  -- The text of a hash is accepted for exactly the passwords that derive the same key from its salt.
  verify_hash :
      (salt password other : Bytes)
      → leb 8 (length salt) ≡ true
      → verify_password p
          (preamble
            ++ (p.raw_encode salt ++ (b'$' ∷ p.raw_encode (p.derive password salt 3 65536 2 32))))
          other
        ≡ text_eq (p.derive password salt 3 65536 2 32) (p.derive other salt 3 65536 2 32)
  unfolding verify_password verify_parts verify_key
  verify_hash salt password other long =
      rw
        (
          parts salt (p.derive password salt 3 65536 2 32),
          sound.costs,
          sound.decode salt,
          sound.decode (p.derive password salt 3 65536 2 32),
          sound.width password salt,
          long,
        )
        refl

  decrypt_encrypt :
      (iv plain : Bytes) → length iv ≡ v.nonce_size → decrypt v (encrypt v iv plain) ≡ some plain
  unfolding decrypt encrypt
  decrypt_encrypt iv plain size =
      rw
        (
          sym size,
          length-append iv (v.seal iv plain),
          drop-append iv (v.seal iv plain),
          take-append iv (v.seal iv plain),
          sound.unseals iv plain size,
        )
        (ground arith)

-- What the store relies on: the hash of a password is accepted for that password and, of the others, for
-- exactly those that `same` holds of; a password that is too short or too long has no hash; a secret that
-- is sealed with a nonce of the right length is opened again; and what is opened was sealed.
pub record IsFaithful (sec : Security) (nonce_size : ℕ) (same : Bytes → Bytes → Bytes → Bool)
    : Type 0 where
  pub accepts :
      (salt password : Bytes) (hash : String)
      → leb 8 (length salt) ≡ true
      → sec.hash_password salt password ≡ some hash
      → sec.verify_password hash password ≡ true
  pub refuses :
      (salt password other : Bytes) (hash : String)
      → leb 8 (length salt) ≡ true
      → sec.hash_password salt password ≡ some hash
      → sec.verify_password hash other ≡ same salt password other
  pub bounded :
      (salt password : Bytes)
      → ltb (length password) 8 || ltb 1024 (length password) ≡ true
      → sec.hash_password salt password ≡ none
  pub opens :
      (iv plain : Bytes) → length iv ≡ nonce_size → sec.decrypt (sec.encrypt iv plain) ≡ some plain
  pub sealed : (iv plain : Bytes) → is_nil (sec.encrypt iv plain) ≡ false
  pub authentic :
      (cipher plain : Bytes)
      → sec.decrypt cipher ≡ some plain
      → (iv : Bytes) × (length iv ≡ nonce_size) × (cipher ≡ sec.encrypt iv plain)

-- Whether two passwords give the same argon2 key with one salt.
unfoldable pub same_key : Primitives → Bytes → Bytes → Bytes → Bool
unfolding text_eq
same_key p salt password other =
    text_eq (p.derive password salt 3 65536 2 32) (p.derive other salt 3 65536 2 32)

module _ (p : Primitives) (x : Texts) (v : Aead) (sound : IsSound p x v) where
  refuses_others :
      (salt password other : Bytes) (hash : String)
      → leb 8 (length salt) ≡ true
      → (security_of p x v).hash_password salt password ≡ some hash
      → (security_of p x v).verify_password hash other ≡ same_key p salt password other
  unfolding hash_password same_key
  refuses_others salt password other hash long made =
      elim (Bool-cases (ltb (length password) 8 || ltb 1024 (length password))) [
        | inl beyond ↦ absurd (ground arith)
        | inr within ↦
            let key = p.derive password salt 3 65536 2 32 in
            let stored = preamble ++ (p.raw_encode salt ++ (b'$' ∷ p.raw_encode key)) in
            let same : x.text stored ≡ hash = some-injective _ _ (rw within at made) in
            subst (λ h. verify_password p (x.content h) other ≡ same_key p salt password other) same
              (rw (sound.texts stored) (verify_hash p x v sound salt password other long))
      ]

  accepts_own :
      (salt password : Bytes) (hash : String)
      → leb 8 (length salt) ≡ true
      → (security_of p x v).hash_password salt password ≡ some hash
      → (security_of p x v).verify_password hash password ≡ true
  unfolding same_key
  accepts_own salt password hash long made =
      let key = p.derive password salt 3 65536 2 32 in
      refuses_others salt password password hash long made ∙ (text_eq_iff key key).1 refl

  opened_sealed :
      (cipher plain : Bytes)
      → decrypt v cipher ≡ some plain
      → (iv : Bytes) × (length iv ≡ v.nonce_size) × (cipher ≡ encrypt v iv plain)
  unfolding decrypt encrypt
  opened_sealed [] plain opened = absurd (ground arith)
  opened_sealed (format ∷ s) plain opened =
      elim (Bool-cases (ltb (length s) v.nonce_size || not (format == 1))) [
        | inl unreadable ↦ absurd (ground arith)
        | inr readable ↦
            let iv = take v.nonce_size s in
            let size : length iv ≡ v.nonce_size = length-take v.nonce_size s ∙ ground arith in
            let made : drop v.nonce_size s ≡ v.seal iv plain =
              sound.authentic iv (drop v.nonce_size s) plain size (rw readable at opened) in
            let whole : s ≡ iv ++ v.seal iv plain =
              sym (take-drop v.nonce_size s) ∙ ap (λ t. iv ++ t) made in
            let first : format ≡ 1 = ground arith in
            (iv, size, ap (λ t. format ∷ t) whole ∙ ap (λ f. f ∷ (iv ++ v.seal iv plain)) first)
      ]

  too_long :
      (salt password : Bytes)
      → ltb (length password) 8 || ltb 1024 (length password) ≡ true
      → (security_of p x v).hash_password salt password ≡ none
  unfolding hash_password
  too_long salt password beyond = rw beyond

-- If base64, argon2, AES-GCM and the conversion of texts keep their promises, then: a hash is accepted for
-- exactly the passwords that give the same argon2 key with its salt, its own among them; a password that
-- is too short or too long has no hash; what is encrypted with a nonce of the right length is decrypted to
-- itself; and only what was encrypted with such a nonce is decrypted.
pub security_of-IsFaithful :
    (p : Primitives) (x : Texts) (v : Aead)
    → IsSound p x v
    → IsFaithful (security_of p x v) v.nonce_size (same_key p)
unfolding encrypt
security_of-IsFaithful p x v sound = record {
  accepts = accepts_own p x v sound;
  refuses = refuses_others p x v sound;
  bounded = too_long p x v sound;
  opens = decrypt_encrypt p x v sound;
  sealed = λ iv plain. refl;
  authentic = opened_sealed p x v sound;
}
