-- ===== src/Store/Users/Names.antt =====
-- The names of the accounts.
use thin_pi.Prelude.{
  ℕ, ◌≤◌, String, ◌≡◌, refl, sym, ◌∙◌, subst, inl, inr, Bool, true, false, ◌&&◌, none, List, [],
  ◌∷◌, ◌++◌, arith, Option-cases, length, any-false, All-append, any, All, Bytes, to_lower,
  trim_space, text_eq_iff, ok,
}
use thin_pi.Stamp.{stamp}
use thin_pi.Db.{Db, Config, UserRow, same_name}
use thin_pi.Store.Users.{
  is_identifier, valid_account, clean_username, name_taken, insert_user, create_user,
}

-- No two accounts have one name, whatever its case.
abbrev pub UniqueNames : List UserRow → Type 0
UniqueNames [] = Unit
UniqueNames (u ∷ us) = All (λ v. same_name v.username u.username ≡ false) us × UniqueNames us

same_name_comm : (a b : Bytes) → same_name a b ≡ same_name b a
unfolding same_name
same_name_comm a b =
    ground (arith, text_eq_iff (to_lower a) (to_lower b), text_eq_iff (to_lower b) (to_lower a))

UniqueNames-append :
    (us : List UserRow) (u : UserRow)
    → UniqueNames us
    → All (λ v. same_name v.username u.username ≡ false) us
    → UniqueNames (us ++ (u ∷ []))
UniqueNames-append [] u h k = (tt, tt)
UniqueNames-append (v ∷ us) u h k = (
  All-append (λ w. same_name w.username v.username ≡ false) us (u ∷ []) h.0
      (same_name_comm u.username v.username ∙ k.0, tt),
  UniqueNames-append us u h.1 k.1,
)

-- Creating an account keeps the names distinct, and the account that is added has an identifier of
-- at most 64 bytes for its name.
pub create_user_names :
    (cfg : Config) (username display_name password : Bytes) (admin enabled : Bool) (salt : Bytes)
    (now : ℕ) (db db' : Db) (id : ℕ)
    → create_user cfg username display_name password admin enabled salt now db ≡ (ok id, db')
    → UniqueNames db.users
    → UniqueNames db'.users
      × ((u : UserRow) × (db'.users ≡ db.users ++ (u ∷ []))
          × (u.id ≡ id)
          × (u.username ≡ clean_username username)
          × (is_identifier u.username ≡ true)
          × (length u.username ≤ 64))
unfolding create_user insert_user name_taken valid_account
create_user_names cfg username display_name password admin enabled salt now db db' id h unique =
    elim (Option-cases (cfg.hash_password salt password)) [
      | inl short ↦ absurd (ground arith)
      | inr (hash, hashed) ↦
          let u = account hash in
          let free : any (λ v. true && same_name v.username u.username) db.users ≡ false =
            ground arith in
          let written : db'.users ≡ db.users ++ (u ∷ []) = ground arith in
          (
            subst UniqueNames (sym written) (
                UniqueNames-append db.users u unique
                  (any-false (λ v. same_name v.username u.username) db.users free)),
            (u, written, ground arith, refl, ground arith, ground arith),
          )
    ]
  where
    account : String → UserRow
    account hash = record {
      user = record {
        id = db.next_user;
        username = clean_username username;
        display_name = trim_space display_name;
        is_admin = admin;
        enabled = enabled;
      };
      password_hash = hash;
      last_login_at = none;
      photo = none;
      created_at = stamp now;
      updated_at = stamp now;
    }
