-- ===== src/Web/Serve.antt =====
-- controller/internal/web/server.go: `New`, the table of the routes, and `middleware`. The matching of a
-- pattern is that of net/http's ServeMux, for a clean path; the headers and the log are left out.
pub mod Unchanged
pub mod Authority
pub mod Keeps
use thin_pi.Prelude.{
  ℕ, zero, suc, ◌+◌, ◌-◌, ◌*◌, ◌/◌, ◌%◌, ◌^◌, ◌≤◌, ◌<◌, max, String, ◌≡◌, refl, sym, ap, ◌∙◌, subst,
  ◌≢◌, ◌↔◌, ◌⊎◌, inl, inr, Bool, true, false, not, ◌&&◌, ◌||◌, Option, none, some, List, [], ◌∷◌,
  ◌++◌, map, arith, str_eq, str_eq_iff, ltb, leb, ◌==◌, if◌then◌else◌, ltb→lt, lt→ltb, leb→le,
  ==_iff, ==_refl, Bool-cases, Option-cases, &&_left, &&_right, is_some, length, length-append,
  find-All, map_option, find-update_where, any-true, find-append, any_weaken, count_where-append,
  count_where_none, find_sound, find-any, any-false, All-update_where, All-append, All-map, is_nil,
  find, take, any, select, count_where, update_where, All, Bytes, bytes, text_eq, text_lt,
  lower_byte, to_lower, is_space, trim_left, trim_space, contains_byte, contains_any, text_eq_iff,
  Result, ok, err, Exec, pure, raise, continue, ◌>>=◌, ◌>>◌, gets, modify, require, or_fail, lift,
  roll_back, transact, Result-cases,
}
use thin_pi.Db.{Db, Session, Device}
use thin_pi.Web.Create.{Moment, Server}
use thin_pi.Web.Request.{
  Request, Reply, Answer, plain, failure, redirect, static_file, not_found, wrong_method,
}
use thin_pi.Web.Gate.{Handler, with_session, with_admin, with_admin_page, with_device}
use thin_pi.Web.Handlers.{
  login, log_out, me, update_me, make_handoff, take_handoff, connections, launch, maintain,
}
use thin_pi.Web.Terminals.{enrol, redeem, redeem_maintenance, beat, report}
use thin_pi.Web.Admin.{
  root, admin_login_page, admin_login, admin_page, create, update, remove, list_resource,
}
use thin_pi.Web.Public.{health, show_choices, profile_photo}

pub data Segment : Type 0 where
  lit : String → Segment
  wild : Segment
  -- the rest of the path
  deep : Segment

-- Who may call a route, and the handler that serves it.
pub data Target : Type 0 where
  anyone : (Server → Moment → Request → Handler) → Target
  signed_in : (Server → Moment → Request → Session → Handler) → Target
  admin : (Server → Moment → Request → Session → Handler) → Target
  admin_html : (Server → Moment → Request → Session → Handler) → Target
  terminal : (Server → Moment → Request → Device → Handler) → Target

pub record Route : Type 0 where
  pub method : String
  pub pattern : List Segment
  pub target : Target

abbrev pub api : List Segment → List Segment
api rest = lit "api" ∷ lit "v1" ∷ rest

abbrev pub route : String → List Segment → Target → Route
route m p t = record { method = m; pattern = p; target = t }

abbrev pub routes : List Route
routes =
    route "GET" (lit "static" ∷ deep ∷ []) (anyone (λ s at r db. (plain (static_file r.path), db)))
    ∷ route "GET" (lit "" ∷ []) (anyone root)
    ∷ route "GET" (lit "healthz" ∷ []) (anyone (λ s at r. health))
    ∷ route "POST" (api (lit "auth" ∷ lit "login" ∷ [])) (anyone login)
    ∷ route "GET" (api (lit "login-users" ∷ [])) (anyone (λ s at r. show_choices))
    ∷ route "GET" (api (lit "profile-photos" ∷ wild ∷ [])) (anyone (λ s at. profile_photo))
    ∷ route "POST" (api (lit "auth" ∷ lit "logout" ∷ [])) (signed_in (λ s at r. log_out at false))
    ∷ route "GET" (api (lit "me" ∷ [])) (signed_in (λ s at r. me))
    ∷ route "PUT" (api (lit "me" ∷ [])) (signed_in update_me)
    ∷ route "POST" (api (lit "admin-handoff" ∷ [])) (admin (λ s at r. make_handoff s at))
    ∷ route "POST" (api (lit "maintenance" ∷ [])) (admin maintain)
    ∷ route "GET" (api (lit "connections" ∷ [])) (signed_in (λ s at r. connections s at))
    ∷ route "POST" (api (lit "connections" ∷ wild ∷ lit "launch" ∷ [])) (signed_in launch)
    ∷ route "POST" (api (lit "devices" ∷ lit "enrol" ∷ [])) (anyone enrol)
    ∷ route "POST" (api (lit "agent" ∷ lit "redeem-launch" ∷ [])) (terminal redeem)
    ∷ route "POST" (api (lit "agent" ∷ lit "redeem-maintenance" ∷ [])) (terminal redeem_maintenance)
    ∷ route "POST" (api (lit "agent" ∷ lit "heartbeat" ∷ [])) (terminal beat)
    ∷ route "POST" (api (lit "agent" ∷ lit "session-event" ∷ [])) (terminal report)
    ∷ route "GET" (lit "admin" ∷ lit "login" ∷ []) (anyone admin_login_page)
    ∷ route "POST" (lit "admin" ∷ lit "login" ∷ []) (anyone admin_login)
    ∷ route "GET" (lit "admin" ∷ lit "handoff" ∷ []) (anyone take_handoff)
    ∷ route "GET" (lit "admin" ∷ lit "" ∷ [])
        (anyone (λ s at r db. (plain (redirect "/admin"), db)))
    ∷ route "GET" (lit "admin" ∷ []) (admin_html (λ s at r. admin_page s at))
    ∷ route "POST" (lit "admin" ∷ lit "logout" ∷ []) (admin_html (λ s at r. log_out at true))
    ∷ route "GET" (api (lit "admin" ∷ wild ∷ [])) (admin (λ s at. list_resource))
    ∷ route "POST" (api (lit "admin" ∷ wild ∷ [])) (admin create)
    ∷ route "PUT" (api (lit "admin" ∷ wild ∷ wild ∷ [])) (admin update)
    ∷ route "DELETE" (api (lit "admin" ∷ wild ∷ wild ∷ [])) (admin (λ s at. remove at))
    ∷ []

unfoldable pub fits : List Segment → List String → Bool
fits [] [] = true
fits [] (s ∷ ss) = false
fits (deep ∷ ps) ss = true
fits (lit p ∷ ps) [] = false
fits (lit p ∷ ps) (s ∷ ss) = str_eq p s && fits ps ss
fits (wild ∷ ps) [] = false
fits (wild ∷ ps) (s ∷ ss) = not (str_eq s "") && fits ps ss

-- A pattern with GET matches HEAD as well.
abbrev pub method_fits : String → String → Bool
method_fits wanted given = str_eq wanted given || (str_eq wanted "GET" && str_eq given "HEAD")

abbrev pub route_fits : Request → Route → Bool
route_fits r t = method_fits t.method r.method && fits t.pattern r.path

unfoldable pub run_target : Target → Server → Moment → Request → Handler
run_target (anyone h) s at r = h s at r
run_target (signed_in h) s at r = with_session s at r (h s at r)
run_target (admin h) s at r = with_admin s at r (h s at r)
run_target (admin_html h) s at r = with_admin_page s at r (h s at r)
run_target (terminal h) s at r = with_device s r (h s at r)

unfoldable pub serve_route : Option Route → Server → Moment → Request → Handler
unfolding run_target any fits
serve_route (some t) s at r db = run_target t.target s at r db
serve_route none s at r db =
    if any (λ (t : Route). fits t.pattern r.path) routes
    then (plain wrong_method, db)
    else (plain not_found, db)

-- middleware, around the table of the routes
unfoldable pub serve : Server → Moment → Request → Handler
unfolding serve_route find fits
serve s at r db =
    if not s.dev && not r.tls
    then (plain (failure 426 "TLS_REQUIRED"), db)
    else serve_route (find (route_fits r) routes) s at r db

-- One request after the other.
unfoldable pub serve_all : Server → List (Moment × Request) → Db → Db
unfolding serve
serve_all s [] db = db
serve_all s ((at, r) ∷ rest) db = serve_all s rest (serve s at r db).1
