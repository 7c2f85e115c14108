-- ===== src/Web/Serve/Unchanged.antt =====
-- controller/internal/web/server.go: the handlers that leave what an administrator set up.
use thin_pi.Prelude.{
  ℕ, String, ◌≡◌, refl, ap, ◌∙◌, Bool, true, false, Option, none, some, List, arith, if◌then◌else◌,
  Bytes, Result, ok, err,
}
use thin_pi.Policy.{PolicyStatus}
use thin_pi.Db.{Db, Error, User, Session, Device, Connection, Manifest}
use thin_pi.Store.Setup.{setup}
use thin_pi.Store.Setup.Logins.{
  session-setup, logout-setup, authenticate-setup, update_own_profile-setup,
}
use thin_pi.Store.Setup.Tickets.{
  create_launch_ticket-setup, redeem_launch_ticket-setup, redeem_maintenance_ticket-setup,
  redeem_admin_handoff-setup,
}
use thin_pi.Store.Setup.Terminals.{enrol_device-setup, heartbeat-setup, session_event-setup}
use thin_pi.Web.Bodies.{ProfileBody, EventBody}
use thin_pi.Web.Create.{Moment, Server}
use thin_pi.Web.Request.{Answer, Request, token_from}
use thin_pi.Web.Gate.{session_from}
use thin_pi.Web.Handlers.{
  login_answer, login_with, login, log_out, profile_answer, update_me_with, update_me, handed_over,
  take_handoff, choices_answer, connections, launch_answer, launch_with, launch,
}
use thin_pi.Web.Terminals.{
  enrol_answer, enrol_with, enrol, manifest_answer, redeem_with, redeem, maintained,
  redeem_maintenance_with, redeem_maintenance, beat_with, beat, report_with, report,
}
use thin_pi.Web.Admin.{
  root_answer, root, login_page_answer, admin_login_page, admin_login_answer, admin_login,
}

login_answer_state : (x : Result Error (String × String × User) × Db) → (login_answer x).1 ≡ x.1
unfolding login_answer
login_answer_state (ok (token, csrf, u), db) = refl
login_answer_state (err e, db) = ground arith

profile_answer_state : (x : Result Error User × Db) → (profile_answer x).1 ≡ x.1
unfolding profile_answer
profile_answer_state (ok x, db) = refl
profile_answer_state (err e, db) = ground arith

handed_over_state : (x : Result Error String × Db) → (handed_over x).1 ≡ x.1
unfolding handed_over
handed_over_state (ok x, db) = refl
handed_over_state (err e, db) = refl

launch_answer_state :
    (s : Server) (at : Moment) (user : ℕ) (x : Result Error String × Db)
    → (launch_answer s at user x).1 ≡ x.1
unfolding launch_answer
launch_answer_state s at user (ok t, db) = refl
launch_answer_state s at user (err e, db) = ground arith

enrol_answer_state : (x : Result Error (String × Device) × Db) → (enrol_answer x).1 ≡ x.1
unfolding enrol_answer
enrol_answer_state (ok (key, d), db) = refl
enrol_answer_state (err e, db) = refl

manifest_answer_state : (x : Result Error Manifest × Db) → (manifest_answer x).1 ≡ x.1
unfolding manifest_answer
manifest_answer_state (ok x, db) = refl
manifest_answer_state (err e, db) = refl

maintained_state : (x : Result Error (Unit {0}) × Db) → (maintained x).1 ≡ x.1
unfolding maintained
maintained_state (ok x, db) = refl
maintained_state (err e, db) = refl

root_answer_state : (r : Request) (x : Result Error Session × Db) → (root_answer r x).1 ≡ x.1
unfolding root_answer
root_answer_state r (ok sess, db) = ground arith
root_answer_state r (err e, db) = refl

login_page_answer_state :
    (r : Request) (x : Result Error Session × Db) → (login_page_answer r x).1 ≡ x.1
unfolding login_page_answer
login_page_answer_state r (ok sess, db) = ground arith
login_page_answer_state r (err e, db) = refl

admin_login_answer_state :
    (x : Result Error (String × String × User) × Db) → (admin_login_answer x).1 ≡ x.1
unfolding admin_login_answer
admin_login_answer_state (ok (token, csrf, u), db) = ground arith
admin_login_answer_state (err e, db) = refl

login_with-setup :
    (s : Server) (at : Moment) (o : Option (Bytes × Bytes)) (db : Db)
    → setup (login_with s at o db).1 ≡ setup db
unfolding login_with
login_with-setup s at none db = refl
login_with-setup s at (some (username, password)) db =
    ap setup (login_answer_state _)
    ∙ authenticate-setup s.config username password at.source at.now at.token at.csrf db refl

pub login-setup :
    (s : Server) (at : Moment) (r : Request) (db : Db) → setup (login s at r db).1 ≡ setup db
unfolding login
login-setup s at r db = login_with-setup s at _ db

update_me_with-setup :
    (s : Server) (at : Moment) (sess : Session) (o : Option ProfileBody) (db : Db)
    → setup (update_me_with s at sess o db).1 ≡ setup db
unfolding update_me_with
update_me_with-setup s at sess none db = refl
update_me_with-setup s at sess (some q) db =
    ap setup (profile_answer_state _)
    ∙ update_own_profile-setup s.config sess.user.id sess.id q.username q.display_name
        q.current_password q.new_password at.salt at.later db refl

pub update_me-setup :
    (s : Server) (at : Moment) (r : Request) (sess : Session) (db : Db)
    → setup (update_me s at r sess db).1 ≡ setup db
unfolding update_me
update_me-setup s at r sess db = update_me_with-setup s at sess _ db

enrol_with-setup :
    (s : Server) (at : Moment) (o : Option (String × Bytes × Bytes)) (db : Db)
    → setup (enrol_with s at o db).1 ≡ setup db
unfolding enrol_with
enrol_with-setup s at none db = refl
enrol_with-setup s at (some (token, identifier, name)) db =
    ap setup (enrol_answer_state _)
    ∙ enrol_device-setup s.config token identifier name at.source at.now at.later at.token db refl

pub enrol-setup :
    (s : Server) (at : Moment) (r : Request) (db : Db) → setup (enrol s at r db).1 ≡ setup db
unfolding enrol
enrol-setup s at r db = enrol_with-setup s at _ db

redeem_with-setup :
    (s : Server) (at : Moment) (d : Device) (o : Option String) (db : Db)
    → setup (redeem_with s at d o db).1 ≡ setup db
unfolding redeem_with
redeem_with-setup s at d none db = refl
redeem_with-setup s at d (some ticket) db =
    ap setup (manifest_answer_state _)
    ∙ redeem_launch_ticket-setup s.config ticket d.id at.source at.now at.later db refl

pub redeem-setup :
    (s : Server) (at : Moment) (r : Request) (d : Device) (db : Db)
    → setup (redeem s at r d db).1 ≡ setup db
unfolding redeem
redeem-setup s at r d db = redeem_with-setup s at d _ db

redeem_maintenance_with-setup :
    (s : Server) (at : Moment) (d : Device) (o : Option String) (db : Db)
    → setup (redeem_maintenance_with s at d o db).1 ≡ setup db
unfolding redeem_maintenance_with
redeem_maintenance_with-setup s at d none db = refl
redeem_maintenance_with-setup s at d (some ticket) db =
    ap setup (maintained_state _)
    ∙ redeem_maintenance_ticket-setup s.config ticket d.id at.source at.now at.later db refl

pub redeem_maintenance-setup :
    (s : Server) (at : Moment) (r : Request) (d : Device) (db : Db)
    → setup (redeem_maintenance s at r d db).1 ≡ setup db
unfolding redeem_maintenance
redeem_maintenance-setup s at r d db = redeem_maintenance_with-setup s at d _ db

beat_with-setup :
    (at : Moment) (d : Device) (o : Option (Option String)) (db : Db)
    → setup (beat_with at d o db).1 ≡ setup db
unfolding beat_with
beat_with-setup at d none db = refl
beat_with-setup at d (some versions) db =
    heartbeat-setup d at.source versions at.later at.last db refl

pub beat-setup :
    (s : Server) (at : Moment) (r : Request) (d : Device) (db : Db)
    → setup (beat s at r d db).1 ≡ setup db
unfolding beat
beat-setup s at r d db = beat_with-setup at d _ db

report_with-setup :
    (at : Moment) (d : Device) (o : Option EventBody) (db : Db)
    → setup (report_with at d o db).1 ≡ setup db
unfolding report_with
report_with-setup at d none db = refl
report_with-setup at d (some q) db =
    session_event-setup d q.ticket_id q.connection_id q.event q.result at.source q.metadata at.now
      at.later db refl

pub report-setup :
    (s : Server) (at : Moment) (r : Request) (d : Device) (db : Db)
    → setup (report s at r d db).1 ≡ setup db
unfolding report
report-setup s at r d db = report_with-setup at d _ db

launch_with-setup :
    (s : Server) (at : Moment) (sess : Session) (o : Option ℕ) (q : Option Bytes) (db : Db)
    → setup (launch_with s at sess o q db).1 ≡ setup db
unfolding launch_with
launch_with-setup s at sess (some id) (some device) db =
    ap setup (launch_answer_state s at sess.user.id _)
    ∙ create_launch_ticket-setup s.config sess.user.id id device at.source at.now at.later at.last
        at.token db refl
launch_with-setup s at sess (some id) none db = refl
launch_with-setup s at sess none q db = refl

pub launch-setup :
    (s : Server) (at : Moment) (r : Request) (sess : Session) (db : Db)
    → setup (launch s at r sess db).1 ≡ setup db
unfolding launch
launch-setup s at r sess db = launch_with-setup s at sess r.path_id _ db

choices_answer_state :
    (items : List Connection) (x : Result Error PolicyStatus) (db : Db)
    → (choices_answer items x db).1 ≡ db
unfolding choices_answer
choices_answer_state items (ok p) db = refl
choices_answer_state items (err e) db = refl

pub connections-setup :
    (s : Server) (at : Moment) (sess : Session) (db : Db)
    → setup (connections s at sess db).1 ≡ setup db
unfolding connections
connections-setup s at sess db = ap setup (choices_answer_state _ _ db)

pub log_out-setup :
    (at : Moment) (admin : Bool) (sess : Session) (db : Db)
    → setup (log_out at admin sess db).1 ≡ setup db
unfolding log_out
log_out-setup at admin sess db = logout-setup sess.id sess.user.id at.source at.later db refl

pub take_handoff-setup :
    (s : Server) (at : Moment) (r : Request) (db : Db) → setup (take_handoff s at r db).1 ≡ setup db
unfolding take_handoff
take_handoff-setup s at r db =
    ap setup (handed_over_state _)
    ∙ redeem_admin_handoff-setup s.config r.code_parameter at.source at.now at.later at.token
        at.csrf db refl

pub session_from-setup :
    (s : Server) (at : Moment) (r : Request) (db : Db) → setup (session_from s at r db).1 ≡ setup db
unfolding session_from
session_from-setup s at r db = session-setup s.config (token_from r).0 at.now at.later db refl

pub root-setup :
    (s : Server) (at : Moment) (r : Request) (db : Db) → setup (root s at r db).1 ≡ setup db
unfolding root
root-setup s at r db = ap setup (root_answer_state r _) ∙ session_from-setup s at r db

pub admin_login_page-setup :
    (s : Server) (at : Moment) (r : Request) (db : Db)
    → setup (admin_login_page s at r db).1 ≡ setup db
unfolding admin_login_page
admin_login_page-setup s at r db =
    ap setup (login_page_answer_state r _) ∙ session_from-setup s at r db

either_setup :
    (b : Bool) (x y : Answer × Db) (db : Db)
    → setup x.1 ≡ setup db
    → setup y.1 ≡ setup db
    → setup (if b then x else y).1 ≡ setup db
either_setup true x y db h k = h
either_setup false x y db h k = k

pub admin_login-setup :
    (s : Server) (at : Moment) (r : Request) (db : Db) → setup (admin_login s at r db).1 ≡ setup db
unfolding admin_login
admin_login-setup s at r db =
    either_setup r.form_readable _ _ db
      (ap setup (admin_login_answer_state _)
        ∙ authenticate-setup s.config r.form_username r.form_password at.source at.now at.token
            at.csrf db refl)
      (admin_login_page-setup s at r db)
