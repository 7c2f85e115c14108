-- ===== src/Web/Gate.antt =====
-- controller/internal/web/server.go: `withSession`, `withAdmin`, `withAdminPage`, `withDevice`.
use thin_pi.Prelude.{Bool, not, ◌&&◌, ◌||◌, str_eq, if◌then◌else◌, Result, ok, err}
use thin_pi.Db.{Db, Error, Session, Device}
use thin_pi.Store.Sessions.{session}
use thin_pi.Store.Devices.{device_by_token}
use thin_pi.Web.Create.{Moment, Server}
use thin_pi.Web.Request.{
  Request, Answer, plain, failure, redirect, clear, is_mutation, token_from, csrf_candidate,
}

abbrev pub Handler : Type 0
Handler = Db → Answer × Db

-- sessionFrom
unfoldable pub session_from : Server → Moment → Request → Db → Result Error Session × Db
unfolding token_from
session_from s at r db = session s.config (token_from r).0 at.now at.later db

-- Whether the request needs the session's form token, and brings it.
unfoldable pub csrf_passes : Server → Request → Session → Bool
unfolding token_from is_mutation csrf_candidate
csrf_passes s r sess =
    not ((token_from r).1 && is_mutation r.method)
    || str_eq sess.csrf_hash (s.config.token_hash (csrf_candidate r))

unfoldable pub admit :
    Server → Request → (Session → Handler) → Result Error Session × Db → Answer × Db
admit s r next (err e, db) = (plain (failure 401 "AUTHENTICATION_REQUIRED"), db)
admit s r next (ok sess, db) =
    if csrf_passes s r sess then next sess db else (plain (failure 403 "CSRF_INVALID"), db)

-- withSession
unfoldable pub with_session : Server → Moment → Request → (Session → Handler) → Handler
with_session s at r next db = admit s r next (session_from s at r db)

unfoldable pub admin_only : (Session → Handler) → Session → Handler
admin_only next sess db =
    if sess.user.is_admin then next sess db else (plain (failure 403 "ADMIN_REQUIRED"), db)

-- withAdmin
unfoldable pub with_admin : Server → Moment → Request → (Session → Handler) → Handler
with_admin s at r next = with_session s at r (admin_only next)

unfoldable pub to_login : Request → Answer
unfolding token_from
to_login r =
    if (token_from r).1
    then record { reply = redirect "/admin/login"; cookie = clear }
    else plain (redirect "/admin/login")

unfoldable pub admit_page :
    Server → Request → (Session → Handler) → Result Error Session × Db → Answer × Db
admit_page s r next (err e, db) = (to_login r, db)
admit_page s r next (ok sess, db) =
    if not sess.user.is_admin
    then (to_login r, db)
    else if csrf_passes s r sess
    then next sess db
    else (plain (failure 403 "CSRF_INVALID"), db)

-- withAdminPage
unfoldable pub with_admin_page : Server → Moment → Request → (Session → Handler) → Handler
with_admin_page s at r next db = admit_page s r next (session_from s at r db)

unfoldable pub admit_device : (Device → Handler) → Result Error Device × Db → Answer × Db
admit_device next (err e, db) = (plain (failure 401 "DEVICE_AUTHENTICATION_REQUIRED"), db)
admit_device next (ok d, db) = next d db

-- withDevice
unfoldable pub with_device : Server → Request → (Device → Handler) → Handler
with_device s r next db = admit_device next (device_by_token s.config (token_from r).0 db)
