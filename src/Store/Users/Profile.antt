-- ===== src/Store/Users/Profile.antt =====
-- What a change of one's own profile does to one's sessions.
use thin_pi.Prelude.{
  ℕ, String, ◌≡◌, refl, sym, ap, ◌∙◌, subst, ◌≢◌, ◌⊎◌, inl, inr, Bool, true, not, ◌||◌, some, List,
  [], ◌∷◌, arith, str_eq, if◌then◌else◌, Bool-cases, Option-cases, is_some, map_option,
  find-update_where, is_nil, find, update_where, All, Bytes, text_eq, ok,
}
use thin_pi.Stamp.{stamp}
use thin_pi.Db.{Db, Config, User, UserRow, SessionRow}
use thin_pi.Store.Audit.{audit}
use thin_pi.Store.Sessions.{user_with, revoke_where}
use thin_pi.Store.Users.{
  clean_username, write_profile, other_open, revoke_others, profile_transaction, update_own_profile,
}

-- The change ends the other sessions if the name or the password is a new one.
abbrev pub ends_sessions : UserRow → Bytes → Bytes → Bool
ends_sessions u username new_password =
    not (text_eq (clean_username username) u.username) || not (is_nil new_password)

revoke : ℕ → SessionRow → SessionRow
revoke now s = record s { revoked_at = some (stamp now) }

profile_sessions :
    (cfg : Config) (user keep : ℕ)
    (username display_name current_password new_password salt : Bytes) (now : ℕ) (db db' : Db)
    (changed : User) (u : UserRow)
    → update_own_profile cfg user keep username display_name current_password new_password salt now
        db
      ≡ (ok changed, db')
    → user_with db user ≡ some u
    → db'.sessions ≡ (
        if ends_sessions u username new_password
        then update_where (other_open user keep) (revoke now) db.sessions
        else db.sessions)
unfolding update_own_profile profile_transaction write_profile revoke_others revoke_where revoke
    audit
profile_sessions cfg user keep username display_name current_password new_password salt now db db'
      changed u h found =
    ground arith

-- The current password was checked, against the hash that was stored.
pub update_own_profile_checks :
    (cfg : Config) (user keep : ℕ)
    (username display_name current_password new_password salt : Bytes) (now : ℕ) (db db' : Db)
    (changed : User)
    → update_own_profile cfg user keep username display_name current_password new_password salt now
        db
      ≡ (ok changed, db')
    → (u : UserRow) × (user_with db user ≡ some u)
      × (cfg.verify_password u.password_hash current_password ≡ true)
unfolding update_own_profile
update_own_profile_checks cfg user keep username display_name current_password new_password salt now
      db db' changed h =
    elim (Option-cases (user_with db user)) [
      | inl missing ↦ absurd (ground arith)
      | inr (u, found) ↦ (u, found, ground arith)
    ]

others_revoked :
    (user keep now : ℕ) (ss : List SessionRow)
    → All
        (λ s. s.user_id ≡ user → s.id ≢ keep → is_some s.revoked_at ≡ true)
        (update_where (other_open user keep) (revoke now) ss)
unfolding update_where revoke
others_revoked user keep now [] = tt
others_revoked user keep now (s ∷ ss) =
    ((λ mine other. ground arith), others_revoked user keep now ss)

-- After a new password or a new name, every other session of the user is revoked.
pub update_own_profile_revokes :
    (cfg : Config) (user keep : ℕ)
    (username display_name current_password new_password salt : Bytes) (now : ℕ) (db db' : Db)
    (changed : User) (u : UserRow)
    → update_own_profile cfg user keep username display_name current_password new_password salt now
        db
      ≡ (ok changed, db')
    → user_with db user ≡ some u
    → ends_sessions u username new_password ≡ true
    → All (λ s. s.user_id ≡ user → s.id ≢ keep → is_some s.revoked_at ≡ true) db'.sessions
update_own_profile_revokes cfg user keep username display_name current_password new_password salt
      now db db' changed u h found new =
    subst (All (λ s. s.user_id ≡ user → s.id ≢ keep → is_some s.revoked_at ≡ true))
      (sym (
        profile_sessions cfg user keep username display_name current_password new_password salt now
          db db' changed u h found
        ∙ rw new))
      (others_revoked user keep now db.sessions)

kept_row :
    (user keep now : ℕ) (s : SessionRow)
    → (s.id ≡ keep) ⊎ (s.user_id ≢ user)
    → (if other_open user keep s then revoke now s else s) ≡ s
kept_row user keep now s (inl own) = ground arith
kept_row user keep now s (inr foreign) = ground arith

-- No change of a profile touches the session that it was made in, or one of another user: the token
-- finds the same row as before.
update_own_profile_keeps :
    (cfg : Config) (user keep : ℕ)
    (username display_name current_password new_password salt : Bytes) (now : ℕ) (db db' : Db)
    (changed : User) (u : UserRow) (hash : String) (s : SessionRow)
    → update_own_profile cfg user keep username display_name current_password new_password salt now
        db
      ≡ (ok changed, db')
    → user_with db user ≡ some u
    → find (λ r. str_eq r.token_hash hash) db.sessions ≡ some s
    → (s.id ≡ keep) ⊎ (s.user_id ≢ user)
    → find (λ r. str_eq r.token_hash hash) db'.sessions ≡ some s
unfolding revoke
update_own_profile_keeps cfg user keep username display_name current_password new_password salt now
      db db' changed u hash s h at found own =
    elim (Bool-cases (ends_sessions u username new_password)) [
      | inl new ↦
          ap (find (λ r. str_eq r.token_hash hash)) (left ∙ rw new)
          ∙ find-update_where (λ r. str_eq r.token_hash hash) (other_open user keep) (revoke now)
              db.sessions (λ r. refl)
          ∙ ap (map_option (λ r. if other_open user keep r then revoke now r else r)) found
          ∙ ap some (kept_row user keep now s own)
      | inr old ↦ ap (find (λ r. str_eq r.token_hash hash)) (left ∙ rw old) ∙ found
    ]
  where
    left : db'.sessions ≡ (
        if ends_sessions u username new_password
        then update_where (other_open user keep) (revoke now) db.sessions
        else db.sessions)
    left =
        profile_sessions cfg user keep username display_name current_password new_password salt now
          db db' changed u h at
