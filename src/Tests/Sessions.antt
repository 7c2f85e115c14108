-- ===== src/Tests/Sessions.antt =====
-- Sign-ins, sessions and profiles in the household.
use thin_pi.Prelude.{
  update_where, ◌==◌, ℕ, ◌+◌, ◌*◌, ◌<◌, ◌≡◌, refl, true, some, List, [], ◌∷◌, ◌++◌, arith, ltb→lt,
  find, count_where, Bytes, bytes, trim_space, ok, err,
}
use thin_pi.Stamp.{second, minute, stamp, parse_stamp}
use thin_pi.Db.{same_name, same_name, Db, UserRow, Session, SessionRow, unauthorised, rate_limited}
use thin_pi.Store.Audit.{audit}
use thin_pi.Store.Access.{user_idle_timeout, idle_minutes, policy_minutes}
use thin_pi.Store.Sessions.{
  session, admit_session, logout, insert_session, authenticate, settle_login, open_session,
  log_attempt, login_key, recent_failures, mark_login, user_named,
}
use thin_pi.Store.Sessions.Expiry.{IsLive, session_sound, session_slides, logout_revokes}
use thin_pi.Store.Sessions.Login.{
  IsWrong, sign_ins, new_session, authenticate_sound, eight_failures_lock_out,
}
use thin_pi.Tests.World.{config, home, admin}

abbrev mine : SessionRow
mine = new_session config admin second home "token" "form"

abbrev signed_in : Db
signed_in = record home {
  sessions = mine ∷ record mine { id = 2; token_hash = "other" } ∷ [];
  next_session = 3;
}

live : IsLive config "token" minute signed_in mine admin
unfolding parse_stamp stamp user_idle_timeout
live = record {
  nonempty = refl;
  row_of_token = refl;
  user_of_row = refl;
  not_revoked = refl;
  enabled = refl;
  in_time = ltb→lt _ _ refl;
}

abbrev the_session : Session
the_session = record { id = 1; user = admin.user; csrf_hash = "form" }

abbrev used : Db
used = (session config "token" minute minute signed_in).1

admitted : session config "token" minute minute signed_in ≡ (ok the_session, used)
unfolding session admit_session parse_stamp stamp user_idle_timeout
admitted = refl

session_sound_example :
    (row : SessionRow) × (u : UserRow) × IsLive config "token" minute signed_in row u
    × (the_session ≡ record { id = row.id; user = u.user; csrf_hash = row.csrf_hash })
    × (used ≡ record signed_in {
      sessions =
          update_where
            (λ r. r.id == row.id)
            (λ (r : SessionRow). record r {
              last_seen_at = stamp minute;
              expires_at = stamp (minute + user_idle_timeout config signed_in u.id);
            })
            signed_in.sessions;
    })
session_sound_example =
    session_sound config "token" minute minute signed_in used the_session admitted

session_slides_example :
    (session config "token" (30 * minute) (30 * minute) used).0 ≡ ok the_session
unfolding user_idle_timeout idle_minutes policy_minutes
session_slides_example =
    session_slides config "token" minute minute (30 * minute) (30 * minute) signed_in used
      the_session admitted (ltb→lt _ _ refl)

logout_revokes_example :
    session config "token" minute minute (logout 1 1 [] minute signed_in).1
    ≡ (err unauthorised, (logout 1 1 [] minute signed_in).1)
unfolding find
logout_revokes_example = logout_revokes config "token" 1 [] minute minute minute signed_in mine refl

abbrev at_home : Db
at_home =
    (authenticate config (bytes "admin") (bytes "thinpi") [] second (some "token") (some "form")
      home).1

authenticate_sound_example :
    (u : UserRow) × (user_named home (bytes "admin") ≡ some u)
    × (admin.user ≡ u.user)
    × (u.enabled ≡ true)
    × (config.verify_password u.password_hash (bytes "thinpi") ≡ true)
    × (recent_failures (login_key (bytes "admin") []) second home < 8)
    × (at_home.sessions ≡ home.sessions ++ (new_session config u second home "token" "form" ∷ []))
unfolding authenticate settle_login open_session log_attempt recent_failures mark_login
    insert_session user_idle_timeout audit same_name trim_space
authenticate_sound_example =
    authenticate_sound config (bytes "admin") (bytes "thinpi") [] second (some "token")
      (some "form") home at_home "token" "form" admin.user refl

abbrev wrong : Bytes × ℕ
wrong = (bytes "guess", minute)

abbrev tries : List (Bytes × ℕ)
tries = wrong ∷ wrong ∷ wrong ∷ wrong ∷ wrong ∷ wrong ∷ wrong ∷ wrong ∷ []

wrong-IsWrong : IsWrong config (user_named home (bytes "admin")) (2 * minute) wrong
unfolding find same_name trim_space
wrong-IsWrong = (refl, omega arith)

eight_failures_lock_out_example :
    (authenticate config
      (bytes "admin")
      (bytes "thinpi")
      []
      (2 * minute)
      (some "token")
      (some "form")
      (sign_ins config (bytes "admin") [] tries home)).0
    ≡ err rate_limited
unfolding count_where
eight_failures_lock_out_example =
    eight_failures_lock_out config (bytes "admin") [] (bytes "thinpi") (2 * minute) (some "token")
      (some "form") tries home refl refl
      (
        wrong-IsWrong,
        (
          wrong-IsWrong,
          (
            wrong-IsWrong,
            (wrong-IsWrong, (wrong-IsWrong, (wrong-IsWrong, (wrong-IsWrong, (wrong-IsWrong, tt))))),
          ),
        ),
      )
