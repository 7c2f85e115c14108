-- ===== src/Web/Handlers.antt =====
-- controller/internal/web/server.go: the handlers but the administrator's tables. The lists that only
-- read (`adminList`, `loginUsers`, `profilePhoto`, `health`) answer with a listing here.
use thin_pi.Prelude.{
  ℕ, String, Bool, true, false, Option, none, some, List, if◌then◌else◌, Bytes, Result, ok, err,
}
use thin_pi.Policy.{PolicyStatus}
use thin_pi.Db.{Db, Error, User, Session, Connection, rate_limited, unauthorised, policy_restricted}
use thin_pi.Store.Access.{connections_for_user, policy_status}
use thin_pi.Store.Sessions.{authenticate, logout}
use thin_pi.Store.Users.{update_own_profile}
use thin_pi.Store.Handoffs.{create_admin_handoff, redeem_admin_handoff}
use thin_pi.Store.Maintenance.{create_maintenance_ticket}
use thin_pi.Store.Launch.{create_launch_ticket}
use thin_pi.Web.Bodies.{decode, ProfileBody}
use thin_pi.Web.Create.{Moment, Server}
use thin_pi.Web.Request.{
  Request, Reply, Answer, plain, failure, policy_failure, redirect, empty, json, set, clear,
  signed_in_as, profile, handoff_path, choices, ticket_issued,
}
use thin_pi.Web.Gate.{Handler}

abbrev pub bad_request : Db → Answer × Db
bad_request db = (plain (failure 400 "INVALID_REQUEST"), db)

abbrev pub is_rate_limited : Error → Bool
is_rate_limited rate_limited = true
is_rate_limited _ = false

abbrev pub is_unauthorised : Error → Bool
is_unauthorised unauthorised = true
is_unauthorised _ = false

abbrev pub is_restricted : Error → Bool
is_restricted policy_restricted = true
is_restricted _ = false

unfoldable pub login_answer : Result Error (String × String × User) × Db → Answer × Db
login_answer (ok (token, csrf, u), db) =
    (record { reply = json 200 (signed_in_as token csrf u); cookie = set token }, db)
login_answer (err e, db) =
    if is_rate_limited e
    then (plain (failure 429 "AUTHENTICATION_RATE_LIMITED"), db)
    else (plain (failure 401 "INVALID_CREDENTIALS"), db)

unfoldable pub login_with : Server → Moment → Option (Bytes × Bytes) → Handler
unfolding login_answer
login_with s at none = bad_request
login_with s at (some (username, password)) = λ db.
    login_answer (authenticate s.config username password at.source at.now at.token at.csrf db)

-- login
unfoldable pub login : Server → Moment → Request → Handler
login s at r = login_with s at (decode s.readers.login_body r.body)

-- logout; `page` is whether the path begins with /admin/.
unfoldable pub log_out : Moment → Bool → Session → Handler
log_out at admin_path sess db = (
  record { reply = if admin_path then redirect "/admin/login" else empty 204; cookie = clear },
  (logout sess.id sess.user.id at.source at.later db).1,
)

-- me
unfoldable pub me : Session → Handler
me sess db = (plain (json 200 (profile sess.user)), db)

unfoldable pub profile_answer : Result Error User × Db → Answer × Db
profile_answer (ok u, db) = (plain (json 200 (profile u)), db)
profile_answer (err e, db) =
    if is_unauthorised e
    then (plain (failure 403 "INVALID_CURRENT_PASSWORD"), db)
    else (plain (failure 400 "INVALID_PROFILE"), db)

unfoldable pub update_me_with : Server → Moment → Session → Option ProfileBody → Handler
unfolding profile_answer
update_me_with s at sess none = bad_request
update_me_with s at sess (some q) = λ db. profile_answer (
    update_own_profile s.config sess.user.id sess.id q.username q.display_name q.current_password
      q.new_password at.salt at.later db)

-- updateMe
unfoldable pub update_me : Server → Moment → Request → Session → Handler
update_me s at r sess = update_me_with s at sess (decode s.readers.profile_body r.body)

unfoldable pub handoff_answer : Result Error String × Db → Answer × Db
handoff_answer (ok token, db) = (plain (json 201 (handoff_path token)), db)
handoff_answer (err e, db) = (plain (failure 403 "ADMIN_REQUIRED"), db)

-- createAdminHandoff
unfoldable pub make_handoff : Server → Moment → Session → Handler
unfolding handoff_answer
make_handoff s at sess db =
    handoff_answer (create_admin_handoff s.config sess.user.id at.source at.later at.token db)

unfoldable pub handed_over : Result Error String × Db → Answer × Db
handed_over (ok token, db) = (record { reply = redirect "/admin"; cookie = set token }, db)
handed_over (err e, db) = (plain (redirect "/admin/login"), db)

-- redeemAdminHandoff
unfoldable pub take_handoff : Server → Moment → Request → Handler
unfolding handed_over
take_handoff s at r db =
    handed_over
      (redeem_admin_handoff s.config r.code_parameter at.source at.now at.later at.token at.csrf db)

unfoldable pub choices_answer : List Connection → Result Error PolicyStatus → Db → Answer × Db
choices_answer items (ok policy) db = (plain (json 200 (choices items policy)), db)
choices_answer items (err e) db = (plain (failure 500 "INTERNAL_ERROR"), db)

-- connections
unfoldable pub connections : Server → Moment → Session → Handler
unfolding choices_answer
connections s at sess db =
    choices_answer (connections_for_user db sess.user.id)
      (policy_status s.config db sess.user.id at.later) db

abbrev pub reason_of : Result Error PolicyStatus → Reply
reason_of (ok policy) = policy_failure policy.reason
reason_of (err e) = failure 403 "ACCESS_POLICY_RESTRICTED"

unfoldable pub launch_answer : Server → Moment → ℕ → Result Error String × Db → Answer × Db
launch_answer s at user (ok ticket, db) = (plain (json 201 (ticket_issued ticket)), db)
launch_answer s at user (err e, db) =
    if is_restricted e
    then (plain (reason_of (policy_status s.config db user at.later)), db)
    else (plain (failure 403 "CONNECTION_NOT_AUTHORISED"), db)

unfoldable pub launch_with : Server → Moment → Session → Option ℕ → Option Bytes → Handler
unfolding launch_answer
launch_with s at sess (some id) (some device) = λ db. launch_answer s at sess.user.id (
    create_launch_ticket s.config sess.user.id id device at.source at.now at.later at.last at.token
      db)
launch_with s at sess (some id) none = bad_request
launch_with s at sess none q = bad_request

-- launch
unfoldable pub launch : Server → Moment → Request → Session → Handler
launch s at r sess = launch_with s at sess r.path_id (decode s.readers.device_name_body r.body)

unfoldable pub maintenance_answer : Result Error String × Db → Answer × Db
maintenance_answer (ok ticket, db) = (plain (json 201 (ticket_issued ticket)), db)
maintenance_answer (err e, db) = (plain (failure 403 "MAINTENANCE_NOT_AUTHORISED"), db)

unfoldable pub maintain_with : Server → Moment → Session → Option Bytes → Handler
unfolding maintenance_answer
maintain_with s at sess none = bad_request
maintain_with s at sess (some device) = λ db.
    maintenance_answer
      (create_maintenance_ticket s.config sess.user.id device at.source at.later at.token db)

-- createMaintenanceTicket
unfoldable pub maintain : Server → Moment → Request → Session → Handler
maintain s at r sess = maintain_with s at sess (decode s.readers.device_name_body r.body)
