-- ===== src/Store/Sessions/Login.antt =====
-- `Authenticate`: who is signed in, and the lock-out after eight failures.
use thin_pi.Prelude.{
  ℕ, ◌+◌, ◌-◌, ◌≤◌, ◌<◌, String, ◌≡◌, refl, ap, ◌∙◌, inl, inr, Bool, true, false, not, ◌&&◌, Option,
  none, some, List, [], ◌∷◌, ◌++◌, arith, Option-cases, &&_left, length, count_where-append, find,
  count_where, All, Bytes, text_eq, trim_space, text_eq_iff, ok, err,
}
use thin_pi.Stamp.{second, stamp, stamp_lt}
use thin_pi.Stamp.Order.{stamp_lt-second_apart}
use thin_pi.Db.{Db, SessionRow, Config, User, UserRow, LoginAttempt, rate_limited, same_name}
use thin_pi.Store.Audit.{audit}
use thin_pi.Store.Access.{user_idle_timeout}
use thin_pi.Store.Sessions.{
  ten_minutes, login_key, recent_failures, log_attempt, accepts, user_named, settle_login,
  open_session, insert_session, mark_login, authenticate,
}

-- The attempts of a key, whenever they were made.
abbrev pub attempts_of : Bytes → Db → ℕ
attempts_of key db = count_where (λ a. text_eq a.source_key key) db.login_attempts

count_where_le {ℓ} :
    {A : Type ℓ} (p q : A → Bool) (xs : List A)
    → ((x : A) → p x ≡ true → q x ≡ true)
    → count_where p xs ≤ count_where q xs
unfolding count_where
count_where_le p q [] imp = omega arith
count_where_le p q (x ∷ xs) imp = ground (arith, imp x, count_where_le p q xs imp)

recent-le-all : (key : Bytes) (now : ℕ) (db : Db) → recent_failures key now db ≤ attempts_of key db
unfolding recent_failures
recent-le-all key now db =
    count_where_le _ (λ a. text_eq a.source_key key) db.login_attempts (λ a h. &&_left _ _ h)

-- One failed sign-in that is not locked out.
failed_attempt :
    (cfg : Config) (username password source : Bytes) (now : ℕ) (token csrf : Option String)
    (db : Db)
    → recent_failures (login_key username source) now db < 8
    → accepts cfg (user_named db username) password ≡ none
    → let db' = (authenticate cfg username password source now token csrf db).1 in
      (db'.login_attempts
        ≡ db.login_attempts
          ++ (record {
            source_key = login_key username source;
            attempted_at = stamp now;
            success = false;
          }
              ∷ []))
      × (db'.users ≡ db.users)
unfolding authenticate settle_login log_attempt audit
failed_attempt cfg username password source now token csrf db few wrong = ground arith

-- A sign-in at each of the times, with the passwords given.
pub sign_ins : Config → Bytes → Bytes → List (Bytes × ℕ) → Db → Db
sign_ins cfg username source [] db = db
sign_ins cfg username source ((password, at) ∷ rest) db =
    sign_ins cfg username source rest (authenticate cfg username password source at none none db).1

-- A wrong password for the name, at a time inside the window that ends at `now`.
abbrev pub IsWrong : Config → Option UserRow → ℕ → Bytes × ℕ → Type 0
IsWrong cfg u now (password, at) =
    (accepts cfg u password ≡ none) × (now - ten_minutes + second ≤ at)

one_more :
    (key : Bytes) (now at : ℕ) (db db' : Db)
    → now - ten_minutes + second ≤ at
    → db'.login_attempts
      ≡ db.login_attempts
        ++ (record { source_key = key; attempted_at = stamp at; success = false } ∷ [])
    → (attempts_of key db' ≡ attempts_of key db + 1)
      × (recent_failures key now db' ≡ recent_failures key now db + 1)
unfolding recent_failures
one_more key now at db db' fresh e = (
  ap (count_where (λ a. text_eq a.source_key key)) e
      ∙ count_where-append (λ a. text_eq a.source_key key) db.login_attempts (row ∷ [])
      ∙ ap (λ n. attempts_of key db + n) (counted (λ a. text_eq a.source_key key) same),
  ap (count_where recent) e
      ∙ count_where-append recent db.login_attempts (row ∷ [])
      ∙ ap (λ n. count_where recent db.login_attempts + n)
          (counted recent
            (ground (arith, same, (stamp_lt-second_apart (now - ten_minutes) at fresh).0))),
)
  where
    row : LoginAttempt
    row = record { source_key = key; attempted_at = stamp at; success = false }

    recent : LoginAttempt → Bool
    recent a =
        text_eq a.source_key key
        && (not a.success && stamp_lt (stamp (now - ten_minutes)) a.attempted_at)

    same : text_eq key key ≡ true
    same = (text_eq_iff key key).1 refl

    counted : (p : LoginAttempt → Bool) → p row ≡ true → count_where p (row ∷ []) ≡ 1
    counted p h = unfold count_where in rw h

sign_ins-count :
    (cfg : Config) (username source : Bytes) (now k : ℕ) (tries : List (Bytes × ℕ)) (db : Db)
    (u : Option UserRow)
    → attempts_of (login_key username source) db ≡ k
    → recent_failures (login_key username source) now db ≡ k
    → k + length tries ≤ 8
    → user_named db username ≡ u
    → All (IsWrong cfg u now) tries
    → recent_failures (login_key username source) now (sign_ins cfg username source tries db)
      ≡ k + length tries
unfolding sign_ins
sign_ins-count cfg username source now k [] db u all recent room named wrong = omega arith
sign_ins-count cfg username source now k ((password, at) ∷ rest) db u all recent room named wrong =
    let key = login_key username source in
    let db' = (authenticate cfg username password source at none none db).1 in
    let few : recent_failures key at db < 8 = omega (arith, recent-le-all key at db) in
    let (logged, users) =
      failed_attempt cfg username password source at none none db few
        (ap (λ o. accepts cfg o password) named ∙ wrong.0.0) in
    let (more, recent') = one_more key now at db db' wrong.0.1 logged in
    omega (
      arith,
      sign_ins-count cfg username source now (k + 1) rest db' u (omega arith) (omega arith)
          (omega arith) (ap (find (λ v. same_name v.username (trim_space username))) users ∙ named)
          wrong.1,
    )

-- Eight sign-ins with wrong passwords for one name from one source lock it out: if none was logged
-- before, a ninth is refused as rate limited, whatever its password, at any time so early that the
-- eight lie in the ten minutes before it, with a second to spare.
pub eight_failures_lock_out :
    (cfg : Config) (username source password : Bytes) (now : ℕ) (token csrf : Option String)
    (tries : List (Bytes × ℕ)) (db : Db)
    → attempts_of (login_key username source) db ≡ 0
    → length tries ≡ 8
    → All (IsWrong cfg (user_named db username) now) tries
    → (authenticate cfg username password source now token csrf
        (sign_ins cfg username source tries db)).0
      ≡ err rate_limited
unfolding authenticate audit
eight_failures_lock_out cfg username source password now token csrf tries db none_yet eight wrong =
    ground (
      arith,
      recent-le-all (login_key username source) now db,
      sign_ins-count cfg username source now 0 tries db (user_named db username) none_yet,
    )

abbrev pub new_session : Config → UserRow → ℕ → Db → String → String → SessionRow
new_session cfg u now db tok form = record {
  id = db.next_session;
  token_hash = cfg.token_hash tok;
  csrf_hash = cfg.token_hash form;
  user_id = u.id;
  expires_at = stamp (now + user_idle_timeout cfg db u.id);
  last_seen_at = stamp now;
  revoked_at = none;
  created_at = stamp now;
}

idle-log_attempt :
    (cfg : Config) (key : Bytes) (now : ℕ) (valid : Bool) (db : Db) (user : ℕ)
    → user_idle_timeout cfg (log_attempt key now valid db) user ≡ user_idle_timeout cfg db user
unfolding user_idle_timeout log_attempt
idle-log_attempt cfg key now valid db user = refl

opened :
    (cfg : Config) (u : UserRow) (source : Bytes) (now : ℕ) (token csrf : Option String)
    (db db' : Db) (tok form : String) (user : User)
    → open_session cfg u source now token csrf db ≡ (ok (tok, form, user), db')
    → (user ≡ u.user) × (db'.sessions ≡ db.sessions ++ (new_session cfg u now db tok form ∷ []))
unfolding open_session insert_session mark_login audit
opened cfg u source now none csrf db db' tok form user h = absurd (ground arith)
opened cfg u source now (some t) none db db' tok form user h = absurd (ground arith)
opened cfg u source now (some t) (some c) db db' tok form user h = (ground arith, ground arith)

-- A sign-in that succeeds is of an enabled user of that name whose stored hash accepts the
-- password, with fewer than eight recent failures; the session it opens is new, belongs to that
-- user and has the tokens' hashes, and it expires one idle timeout from now.
pub authenticate_sound :
    (cfg : Config) (username password source : Bytes) (now : ℕ) (token csrf : Option String)
    (db db' : Db) (tok form : String) (user : User)
    → authenticate cfg username password source now token csrf db ≡ (ok (tok, form, user), db')
    → (u : UserRow) × (user_named db username ≡ some u)
      × (user ≡ u.user)
      × (u.enabled ≡ true)
      × (cfg.verify_password u.password_hash password ≡ true)
      × (recent_failures (login_key username source) now db < 8)
      × (db'.sessions ≡ db.sessions ++ (new_session cfg u now db tok form ∷ []))
unfolding authenticate settle_login log_attempt audit
authenticate_sound cfg username password source now token csrf db db' tok form user h =
    elim (Option-cases (user_named db username)) [
      | inl missing ↦ absurd (ground arith)
      | inr (u, found) ↦
          let key = login_key username source in
          let (same, written) =
            opened cfg u source now token csrf (log_attempt key now true db) db' tok form user
              (ground arith) in
          (
            u,
            found,
            same,
            ground arith,
            ground arith,
            ground arith,
            written
                ∙ ap
                    (λ t.
                      db.sessions
                      ++ (record (new_session cfg u now db tok form) {
                        expires_at = stamp (now + t);
                      }
                          ∷ []))
                    (idle-log_attempt cfg key now true db u.id),
          )
    ]
