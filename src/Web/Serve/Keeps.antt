-- ===== src/Web/Serve/Keeps.antt =====
-- controller/internal/web/server.go: what every request keeps.
use thin_pi.Prelude.{
  ◌≡◌, refl, Bool, true, false, not, Option, none, some, if◌then◌else◌, find-All, find, All, Result,
  ok, err,
}
use thin_pi.Db.{Db, Error, Session, Device}
use thin_pi.Store.Setup.{setup}
use thin_pi.Store.Setup.Terminals.{device_by_token-setup}
use thin_pi.Web.Create.{Moment, Server}
use thin_pi.Web.Request.{Request, Answer, token_from}
use thin_pi.Web.Gate.{
  Handler, session_from, csrf_passes, admit, with_session, admin_only, with_admin, admit_page,
  with_admin_page, admit_device, with_device,
}
use thin_pi.Web.Serve.{
  Target, anyone, signed_in, admin, admin_html, terminal, Route, routes, route_fits, run_target,
  serve_route, serve,
}
use thin_pi.Web.Serve.Unchanged.{session_from-setup}
use thin_pi.Web.Serve.Authority.{IsHarmless, routes-IsHarmless}

-- A property of the tables that the setup decides is kept by every request if the administrator's
-- handlers keep it.
module _ (P : Db → Type 0) (decided : (db db' : Db) → setup db' ≡ setup db → P db → P db') where
  abbrev pub IsKept : Target → Type 0
  IsKept (anyone h) = Unit
  IsKept (signed_in h) = Unit
  IsKept (admin h) =
      (s : Server) (at : Moment) (r : Request) (sess : Session) (db : Db)
      → P db
      → P (h s at r sess db).1
  IsKept (admin_html h) =
      (s : Server) (at : Moment) (r : Request) (sess : Session) (db : Db)
      → P db
      → P (h s at r sess db).1
  IsKept (terminal h) = Unit

  if-keeps : (b : Bool) (x y : Answer × Db) → P x.1 → P y.1 → P (if b then x else y).1
  if-keeps true x y h k = h
  if-keeps false x y h k = k

  admit-keeps :
      (s : Server) (r : Request) (next : Session → Handler) (x : Result Error Session × Db)
      → ((sess : Session) (db : Db) → P db → P (next sess db).1)
      → P x.1
      → P (admit s r next x).1
  unfolding admit
  admit-keeps s r next (err e, db) keep h = h
  admit-keeps s r next (ok sess, db) keep h = if-keeps _ (next sess db) _ (keep sess db h) h

  admit_page-keeps :
      (s : Server) (r : Request) (next : Session → Handler) (x : Result Error Session × Db)
      → ((sess : Session) (db : Db) → P db → P (next sess db).1)
      → P x.1
      → P (admit_page s r next x).1
  unfolding admit_page
  admit_page-keeps s r next (err e, db) keep h = h
  admit_page-keeps s r next (ok sess, db) keep h =
      if-keeps (not sess.user.is_admin) _ _ h
        (if-keeps (csrf_passes s r sess) (next sess db) _ (keep sess db h) h)

  admin_only-keeps :
      (next : Session → Handler)
      → ((sess : Session) (db : Db) → P db → P (next sess db).1)
      → (sess : Session) (db : Db) → P db
      → P (admin_only next sess db).1
  unfolding admin_only
  admin_only-keeps next keep sess db h =
      if-keeps sess.user.is_admin (next sess db) _ (keep sess db h) h

  admit_device-keeps :
      (next : Device → Handler) (x : Result Error Device × Db)
      → ((d : Device) (db : Db) → P db → P (next d db).1)
      → P x.1
      → P (admit_device next x).1
  unfolding admit_device
  admit_device-keeps next (err e, db) keep h = h
  admit_device-keeps next (ok d, db) keep h = keep d db h

  session-keeps :
      (s : Server) (at : Moment) (r : Request) (db : Db) → P db → P (session_from s at r db).1
  session-keeps s at r db h = decided db _ (session_from-setup s at r db) h

  run_target-keeps :
      (t : Target)
      → IsHarmless t
      → IsKept t
      → (s : Server) (at : Moment) (r : Request) (db : Db) → P db
      → P (run_target t s at r db).1
  unfolding run_target with_session with_admin with_admin_page with_device
  run_target-keeps (anyone n) same keep s at r db h = decided db _ (same s at r db) h
  run_target-keeps (signed_in n) same keep s at r db h =
      admit-keeps s r (n s at r) _ (λ sess d k. decided d _ (same s at r sess d) k)
        (session-keeps s at r db h)
  run_target-keeps (admin n) same keep s at r db h =
      admit-keeps s r (admin_only (n s at r)) _ (admin_only-keeps (n s at r) (keep s at r))
        (session-keeps s at r db h)
  run_target-keeps (admin_html n) same keep s at r db h =
      admit_page-keeps s r (n s at r) _ (keep s at r) (session-keeps s at r db h)
  run_target-keeps (terminal n) same keep s at r db h =
      admit_device-keeps (n s at r) _ (λ d e k. decided e _ (same s at r d e) k)
        (decided db _ (device_by_token-setup s.config (token_from r).0 db refl) h)

  serve_route-keeps :
      (o : Option Route)
      → ((t : Route) → o ≡ some t → IsHarmless t.target × IsKept t.target)
      → (s : Server) (at : Moment) (r : Request) (db : Db) → P db
      → P (serve_route o s at r db).1
  unfolding serve_route
  serve_route-keeps none keep s at r db h = if-keeps _ _ _ h h
  serve_route-keeps (some t) keep s at r db h =
      run_target-keeps t.target (keep t refl).0 (keep t refl).1 s at r db h

  pub serve-keeps :
      All (λ t. IsKept t.target) routes
      → (s : Server) (at : Moment) (r : Request) (db : Db) → P db
      → P (serve s at r db).1
  unfolding serve
  serve-keeps kept s at r db h =
      if-keeps _ _ (serve_route (find (route_fits r) routes) s at r db) h (
        serve_route-keeps (find (route_fits r) routes)
          (λ t found. (
            find-All (λ t. IsHarmless t.target) (route_fits r) routes routes-IsHarmless t found,
            find-All (λ t. IsKept t.target) (route_fits r) routes kept t found,
          ))
          s at r db h)
