-- ===== src/Web/Serve/Authority.antt =====
-- controller/internal/web/server.go: who can change what an administrator sets up.
use thin_pi.Prelude.{
  ℕ, ◌≡◌, refl, sym, ap, ◌∙◌, subst, ◌⊎◌, inl, inr, Bool, true, false, not, ◌&&◌, Option, none,
  some, arith, str_eq, if◌then◌else◌, find-All, find, All, Result, ok, err,
}
use thin_pi.Db.{Db, Error, UserRow, SessionRow, Session, Device}
use thin_pi.Store.Sessions.Expiry.{IsLive, session_sound}
use thin_pi.Store.Setup.{setup}
use thin_pi.Store.Setup.Terminals.{device_by_token-setup}
use thin_pi.Web.Create.{Moment, Server}
use thin_pi.Web.Request.{Request, Answer, is_mutation, token_from, csrf_candidate}
use thin_pi.Web.Gate.{
  Handler, session_from, csrf_passes, admit, with_session, admin_only, with_admin, admit_page,
  with_admin_page, admit_device, with_device,
}
use thin_pi.Web.Handlers.{me}
use thin_pi.Web.Public.{health, show_choices, profile_photo, photo_with}
use thin_pi.Web.Serve.{
  Target, anyone, signed_in, admin, admin_html, terminal, Route, routes, route_fits, run_target,
  serve_route, serve,
}
use thin_pi.Web.Serve.Unchanged.{
  session_from-setup, login-setup, update_me-setup, enrol-setup, redeem-setup,
  redeem_maintenance-setup, beat-setup, report-setup, launch-setup, connections-setup,
  log_out-setup, take_handoff-setup, root-setup, admin_login_page-setup, admin_login-setup,
}

-- The token of the request is that of a session that is live, of an administrator whose account is
-- enabled; a cookie that changes something comes with the session's form token.
pub record IsAuthorised (s : Server) (at : Moment) (r : Request) (db : Db) (row : SessionRow)
    (u : UserRow) : Type 0 where
  pub live : IsLive s.config (token_from r).0 at.now db row u
  pub is_admin : u.is_admin ≡ true
  pub form :
      (token_from r).1 && is_mutation r.method ≡ true
      → str_eq row.csrf_hash (s.config.token_hash (csrf_candidate r)) ≡ true

abbrev pub ByAdmin : Server → Moment → Request → Db → Type 0
ByAdmin s at r db = (row : SessionRow) × (u : UserRow) × IsAuthorised s at r db row u

module _ (s : Server) (at : Moment) (r : Request) (db : Db) where
  authorised :
      (sess : Session) (db' : Db)
      → session_from s at r db ≡ (ok sess, db')
      → sess.user.is_admin ≡ true
      → csrf_passes s r sess ≡ true
      → ByAdmin s at r db
  unfolding session_from csrf_passes
  authorised sess db' from is_admin passes =
      let (row, u, live, what, left) =
        session_sound s.config (token_from r).0 at.now at.later db db' sess from in
      (
        row,
        u,
        record {
          live = live;
          is_admin = subst (λ (x : Session). x.user.is_admin ≡ true) what is_admin;
          form = λ needed.
              subst
                (λ (x : Session).
                  str_eq x.csrf_hash (s.config.token_hash (csrf_candidate r)) ≡ true)
                what (ground arith);
        },
      )

  -- What a target answers and leaves.
  abbrev IsSafe : Answer × Db → Type 0
  IsSafe x = (setup x.1 ≡ setup db) ⊎ ByAdmin s at r db

  holds : {b : Bool} → not b ≡ false → b ≡ true
  holds {b = true} h = refl
  holds {b = false} h = absurd (ground arith)

  if-IsSafe :
      (b : Bool) (x y : Answer × Db)
      → (b ≡ true → IsSafe x)
      → (b ≡ false → IsSafe y)
      → IsSafe (if b then x else y)
  if-IsSafe true x y f g = f refl
  if-IsSafe false x y f g = g refl

  from_same : (x : Result Error Session × Db) → session_from s at r db ≡ x → setup x.1 ≡ setup db
  from_same x from = ap (λ x. setup x.1) (sym from) ∙ session_from-setup s at r db

  admit-IsSafe :
      (next : Session → Handler) (x : Result Error Session × Db)
      → session_from s at r db ≡ x
      → ((sess : Session) (db' : Db)
          → csrf_passes s r sess ≡ true
          → session_from s at r db ≡ (ok sess, db')
          → IsSafe (next sess db'))
      → IsSafe (admit s r next x)
  unfolding admit
  admit-IsSafe next (err e, db') from safe = inl (from_same _ from)
  admit-IsSafe next (ok sess, db') from safe =
      if-IsSafe _ _ _ (λ passes. safe sess db' passes from) (λ fails. inl (from_same _ from))

  signed_in-IsSafe :
      (next : Session → Handler)
      → ((sess : Session) (d : Db) → setup (next sess d).1 ≡ setup d)
      → IsSafe (with_session s at r next db)
  unfolding with_session
  signed_in-IsSafe next same =
      admit-IsSafe next (session_from s at r db) refl
        (λ sess db' passes from. inl (same sess db' ∙ from_same _ from))

  with_admin-IsSafe : (next : Session → Handler) → IsSafe (with_admin s at r next db)
  unfolding with_admin with_session admin_only
  with_admin-IsSafe next =
      admit-IsSafe (admin_only next) (session_from s at r db) refl (λ sess db' passes from.
        if-IsSafe _ _ _ (λ is_admin. inr (authorised sess db' from is_admin passes))
          (λ other. inl (from_same _ from)))

  admit_page-IsSafe :
      (next : Session → Handler) (x : Result Error Session × Db)
      → session_from s at r db ≡ x
      → IsSafe (admit_page s r next x)
  unfolding admit_page
  admit_page-IsSafe next (err e, db') from =
      inl (ap (λ x. setup x.1) (sym from) ∙ session_from-setup s at r db)
  admit_page-IsSafe next (ok sess, db') from =
      if-IsSafe _ _ _ (λ other. inl (from_same _ from))
        (λ is_admin.
          if-IsSafe _ _ _ (λ passes. inr (authorised sess db' from (holds is_admin) passes))
            (λ fails. inl (from_same _ from)))

  admit_device-IsSafe :
      (next : Device → Handler) (x : Result Error Device × Db)
      → setup x.1 ≡ setup db
      → ((d : Device) (e : Db) → setup (next d e).1 ≡ setup e)
      → IsSafe (admit_device next x)
  unfolding admit_device
  admit_device-IsSafe next (err e, db') h same = inl h
  admit_device-IsSafe next (ok d, db') h same = inl (same d db' ∙ h)

  terminal-IsSafe :
      (next : Device → Handler)
      → ((d : Device) (e : Db) → setup (next d e).1 ≡ setup e)
      → IsSafe (with_device s r next db)
  unfolding with_device
  terminal-IsSafe next same =
      admit_device-IsSafe next _ (device_by_token-setup s.config (token_from r).0 db refl) same

-- What must be shown of a target, by who may call it.
abbrev pub IsHarmless : Target → Type 0
IsHarmless (anyone h) =
    (s : Server) (at : Moment) (r : Request) (db : Db) → setup (h s at r db).1 ≡ setup db
IsHarmless (signed_in h) =
    (s : Server) (at : Moment) (r : Request) (sess : Session) (db : Db)
    → setup (h s at r sess db).1 ≡ setup db
IsHarmless (admin h) = Unit
IsHarmless (admin_html h) = Unit
IsHarmless (terminal h) =
    (s : Server) (at : Moment) (r : Request) (d : Device) (db : Db)
    → setup (h s at r d db).1 ≡ setup db

run_target-IsSafe :
    (t : Target)
    → IsHarmless t
    → (s : Server) (at : Moment) (r : Request) (db : Db) → IsSafe s at r db (run_target t s at r db)
unfolding run_target with_admin_page
run_target-IsSafe (anyone h) same s at r db = inl (same s at r db)
run_target-IsSafe (signed_in h) same s at r db = signed_in-IsSafe s at r db (h s at r) (same s at r)
run_target-IsSafe (admin h) same s at r db = with_admin-IsSafe s at r db (h s at r)
run_target-IsSafe (admin_html h) same s at r db =
    admit_page-IsSafe s at r db (h s at r) (session_from s at r db) refl
run_target-IsSafe (terminal h) same s at r db = terminal-IsSafe s at r db (h s at r) (same s at r)

photo_with-setup : (id : Option ℕ) (db : Db) → setup (photo_with id db).1 ≡ setup db
unfolding photo_with
photo_with-setup none db = refl
photo_with-setup (some id) db = refl

pub routes-IsHarmless : All (λ t. IsHarmless t.target) routes
unfolding health show_choices profile_photo me
routes-IsHarmless = (
  λ s at r db. refl,
  (
    root-setup,
    (
      λ s at r db. refl,
      (
        login-setup,
        (
          λ s at r db. refl,
          (
            λ s at r. photo_with-setup r.path_id,
            (
              λ s at r. log_out-setup at false,
              (
                λ s at r sess db. refl,
                (
                  update_me-setup,
                  (
                    tt,
                    (
                      tt,
                      (
                        λ s at r. connections-setup s at,
                        (
                          launch-setup,
                          (
                            enrol-setup,
                            (
                              redeem-setup,
                              (
                                redeem_maintenance-setup,
                                (
                                  beat-setup,
                                  (
                                    report-setup,
                                    (
                                      admin_login_page-setup,
                                      (
                                        admin_login-setup,
                                        (
                                          take_handoff-setup,
                                          (
                                            λ s at r db. refl,
                                            (tt, (tt, (tt, (tt, (tt, (tt, tt)))))),
                                          ),
                                        ),
                                      ),
                                    ),
                                  ),
                                ),
                              ),
                            ),
                          ),
                        ),
                      ),
                    ),
                  ),
                ),
              ),
            ),
          ),
        ),
      ),
    ),
  ),
)

route-IsSafe :
    (s : Server) (at : Moment) (r : Request) (db : Db) (o : Option Route)
    → ((t : Route) → o ≡ some t → IsHarmless t.target)
    → IsSafe s at r db (serve_route o s at r db)
unfolding serve_route
route-IsSafe s at r db none safe =
    if-IsSafe s at r db _ _ _ (λ known. inl refl) (λ unknown. inl refl)
route-IsSafe s at r db (some t) safe = run_target-IsSafe t.target (safe t refl) s at r db

-- No request changes the connections, the groups, the memberships, the permissions, the credentials, the
-- access policies or the settings of the terminals, unless its token is that of a live session of an
-- enabled administrator and, where a cookie holds the token and the method is no GET, HEAD or OPTIONS, the
-- request brings that session's form token.
pub serve-IsSafe :
    (s : Server) (at : Moment) (r : Request) (db : Db)
    → (setup (serve s at r db).1 ≡ setup db) ⊎ ByAdmin s at r db
unfolding serve
serve-IsSafe s at r db =
    if-IsSafe s at r db _ _ _ (λ insecure. inl refl)
      (λ secure. route-IsSafe s at r db (find (route_fits r) routes) (λ t found.
        find-All (λ t. IsHarmless t.target) (route_fits r) routes routes-IsHarmless t found))
