-- ===== src/Web/Admin.antt =====
-- controller/internal/web/server.go: the administrator's pages, and the answers to the operations on the
-- administrator's tables. A list only reads, and its rows are not modelled.
use thin_pi.Prelude.{
  ℕ, String, Bool, ◌||◌, Option, none, some, str_eq, ◌==◌, if◌then◌else◌, update_where, Result, ok,
  err,
}
use thin_pi.Db.{Db, Error, User, Session, SessionRow}
use thin_pi.Store.Sessions.{authenticate}
use thin_pi.Web.Create.{Moment, Server, Created, made, token_made, not_made, admin_create}
use thin_pi.Web.Update.{admin_update}
use thin_pi.Web.Delete.{admin_delete}
use thin_pi.Web.Request.{
  Request, Answer, plain, failure, redirect, empty, json, login_page, admin_html, clear, keep, set,
  created_id, enrolment_token, listing, token_from,
}
use thin_pi.Web.Gate.{Handler, session_from, to_login}

unfoldable pub root_answer : Request → Result Error Session × Db → Answer × Db
root_answer r (err e, db) = (to_login r, db)
root_answer r (ok sess, db) =
    if sess.user.is_admin then (plain (redirect "/admin"), db) else (to_login r, db)

-- root
unfoldable pub root : Server → Moment → Request → Handler
unfolding root_answer
root s at r db = root_answer r (session_from s at r db)

abbrev pub show_login : Request → Answer
show_login r = record { reply = login_page ""; cookie = if (token_from r).1 then clear else keep }

unfoldable pub login_page_answer : Request → Result Error Session × Db → Answer × Db
login_page_answer r (err e, db) = (show_login r, db)
login_page_answer r (ok sess, db) =
    if sess.user.is_admin then (plain (redirect "/admin"), db) else (show_login r, db)

-- adminLoginPage
unfoldable pub admin_login_page : Server → Moment → Request → Handler
unfolding login_page_answer
admin_login_page s at r db = login_page_answer r (session_from s at r db)

abbrev pub wrong_login : Answer
wrong_login = plain (login_page "The username or password was incorrect.")

unfoldable pub admin_login_answer : Result Error (String × String × User) × Db → Answer × Db
admin_login_answer (err e, db) = (wrong_login, db)
admin_login_answer (ok (token, csrf, u), db) =
    if u.is_admin
    then (record { reply = redirect "/admin"; cookie = set token }, db)
    else (wrong_login, db)

-- adminLogin
unfoldable pub admin_login : Server → Moment → Request → Handler
unfolding admin_login_answer admin_login_page
admin_login s at r db =
    if r.form_readable
    then admin_login_answer
        (authenticate s.config r.form_username r.form_password at.source at.now at.token at.csrf db)
    else admin_login_page s at r db

-- A token that the random source fails to make is "".
abbrev pub csrf_or_empty : Option String → String
csrf_or_empty none = ""
csrf_or_empty (some t) = t

unfoldable pub write_csrf : ℕ → String → Db → Db
unfolding update_where
write_csrf id hash db = record db {
  sessions =
      update_where (λ r. r.id == id) (λ (r : SessionRow). record r { csrf_hash = hash })
        db.sessions;
}

-- adminPage
unfoldable pub admin_page : Server → Moment → Session → Handler
unfolding write_csrf
admin_page s at sess db =
    let token = csrf_or_empty at.csrf in
    (
      plain (admin_html token sess.user.display_name),
      write_csrf sess.id (s.config.token_hash token) db,
    )

unfoldable pub created_answer : Created × Db → Answer × Db
created_answer (made id, db) = (plain (json 201 (created_id id)), db)
created_answer (token_made token, db) = (plain (json 201 (enrolment_token token)), db)
created_answer (not_made status code, db) = (plain (failure status code), db)

unfoldable pub create : Server → Moment → Request → Session → Handler
unfolding created_answer
create s at r sess db = created_answer (admin_create s at sess.user.id r.path_resource r.body db)

-- The codes that `adminUpdate` and `adminDelete` answer with.
unfoldable pub changed_answer : ℕ × Db → Answer × Db
changed_answer (status, db) =
    if status == 204
    then (plain (empty 204), db)
    else if status == 404
    then (plain (failure 404 "NOT_FOUND"), db)
    else if status == 405
    then (plain (failure 405 "METHOD_NOT_ALLOWED"), db)
    else (plain (failure 400 "INVALID_REQUEST"), db)

unfoldable pub update : Server → Moment → Request → Session → Handler
unfolding changed_answer
update s at r sess db =
    changed_answer (admin_update s at sess.user.id r.path_resource r.path_id r.body db)

unfoldable pub remove : Moment → Request → Session → Handler
unfolding changed_answer
remove at r sess db = changed_answer (admin_delete at sess.user.id r.path_resource r.path_id db)

-- The keys of `queries`, and the dashboard.
abbrev pub listed : String → Bool
listed r =
    str_eq r "dashboard"
    || (str_eq r "users"
        || (str_eq r "groups"
            || (str_eq r "connections"
                || (str_eq r "credentials"
                    || (str_eq r "devices"
                        || (str_eq r "policies"
                            || (str_eq r "permissions"
                                || (str_eq r "audit" || str_eq r "settings"))))))))

-- adminList
unfoldable pub list_resource : Request → Session → Handler
list_resource r sess db =
    if listed r.path_resource
    then (plain (json 200 listing), db)
    else (plain (failure 404 "NOT_FOUND"), db)
