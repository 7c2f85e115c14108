-- ===== src/Web/Range/Requests.antt =====
-- controller/internal/web/server.go: every request keeps the access policies in range.
use thin_pi.Prelude.{
  ℕ, String, ◌≡◌, refl, ap, ◌∙◌, true, not, Option, none, some, arith, any, Bytes, Result, ok, err,
}
use thin_pi.Db.{Db, Error, Session}
use thin_pi.Store.Setup.{Setup, setup}
use thin_pi.Store.Setup.Tickets.{create_maintenance_ticket-setup, create_admin_handoff-setup}
use thin_pi.Web.Create.{Moment, Server, Created, made, token_made, not_made}
use thin_pi.Web.Request.{Request}
use thin_pi.Web.Gate.{Handler}
use thin_pi.Web.Handlers.{
  handoff_answer, make_handoff, maintenance_answer, maintain_with, maintain, log_out,
}
use thin_pi.Web.Admin.{
  write_csrf, admin_page, created_answer, create, changed_answer, update, remove, list_resource,
}
use thin_pi.Web.Serve.{serve}
use thin_pi.Web.Serve.Unchanged.{log_out-setup}
use thin_pi.Web.Update.{policy_in_range, admin_update}
use thin_pi.Web.Delete.{admin_delete}
use thin_pi.Web.Serve.Keeps.{serve-keeps}
use thin_pi.Web.Range.{in_range, if-in_range}
use thin_pi.Web.Range.Creation.{admin_create-in_range, admin_delete-in_range}
use thin_pi.Web.Range.Changes.{admin_update-in_range}

-- The policies are part of the setup.
same_setup : (db db' : Db) → setup db' ≡ setup db → in_range db ≡ true → in_range db' ≡ true
unfolding in_range setup
same_setup db db' same h =
    ap (λ (v : Setup). not (any (λ p. not (policy_in_range p)) v.policies)) same ∙ h

handoff_answer_state : (x : Result Error String × Db) → (handoff_answer x).1 ≡ x.1
unfolding handoff_answer
handoff_answer_state (ok t, db) = refl
handoff_answer_state (err e, db) = refl

make_handoff-in_range :
    (s : Server) (at : Moment) (sess : Session) (db : Db)
    → in_range db ≡ true
    → in_range (make_handoff s at sess db).1 ≡ true
unfolding make_handoff
make_handoff-in_range s at sess db h =
    ap in_range (handoff_answer_state _)
    ∙ same_setup db _
        (create_admin_handoff-setup s.config sess.user.id at.source at.later at.token db refl) h

maintenance_answer_state : (x : Result Error String × Db) → (maintenance_answer x).1 ≡ x.1
unfolding maintenance_answer
maintenance_answer_state (ok t, db) = refl
maintenance_answer_state (err e, db) = refl

maintain_with-in_range :
    (s : Server) (at : Moment) (sess : Session) (o : Option Bytes) (db : Db)
    → in_range db ≡ true
    → in_range (maintain_with s at sess o db).1 ≡ true
unfolding maintain_with
maintain_with-in_range s at sess none db h = h
maintain_with-in_range s at sess (some device) db h =
    ap in_range (maintenance_answer_state _)
    ∙ same_setup db _
        (create_maintenance_ticket-setup s.config sess.user.id device at.source at.later at.token db
          refl)
        h

created_answer_state : (x : Created × Db) → (created_answer x).1 ≡ x.1
unfolding created_answer
created_answer_state (made id, db) = refl
created_answer_state (token_made t, db) = refl
created_answer_state (not_made status code, db) = refl

changed_answer_state : (x : ℕ × Db) → (changed_answer x).1 ≡ x.1
unfolding changed_answer
changed_answer_state (status, db) = ground arith

abbrev Kept : (Server → Moment → Request → Session → Handler) → Type 0
Kept h =
    (s : Server) (at : Moment) (r : Request) (sess : Session) (db : Db)
    → in_range db ≡ true
    → in_range (h s at r sess db).1 ≡ true

maintain-Kept : Kept maintain
unfolding maintain
maintain-Kept s at r sess db h = maintain_with-in_range s at sess _ db h

create-Kept : Kept create
unfolding create
create-Kept s at r sess db h =
    ap in_range (created_answer_state _)
    ∙ admin_create-in_range s at sess.user.id r.path_resource r.body db h

update-Kept : Kept update
unfolding update
update-Kept s at r sess db h =
    ap in_range
      (changed_answer_state (admin_update s at sess.user.id r.path_resource r.path_id r.body db))
    ∙ admin_update-in_range s at sess.user.id r.path_resource r.path_id r.body db h

remove-Kept : Kept (λ s at. remove at)
unfolding remove
remove-Kept s at r sess db h =
    ap in_range (changed_answer_state (admin_delete at sess.user.id r.path_resource r.path_id db))
    ∙ admin_delete-in_range at sess.user.id r.path_resource r.path_id db h

admin_page-Kept : Kept (λ s at r. admin_page s at)
unfolding admin_page write_csrf in_range
admin_page-Kept s at r sess db h = h

list_resource-Kept : Kept (λ s at. list_resource)
unfolding list_resource
list_resource-Kept s at r sess db h = if-in_range _ _ _ h h

log_out-Kept : Kept (λ s at r. log_out at true)
log_out-Kept s at r sess db h = same_setup db _ (log_out-setup at true sess db) h

-- Every request, whoever makes it, leaves each stored access policy within its bounds.
pub serve-in_range :
    (s : Server) (at : Moment) (r : Request) (db : Db)
    → in_range db ≡ true
    → in_range (serve s at r db).1 ≡ true
serve-in_range =
    serve-keeps (λ db. in_range db ≡ true) same_setup
      (
        tt,
        (
          tt,
          (
            tt,
            (
              tt,
              (
                tt,
                (
                  tt,
                  (
                    tt,
                    (
                      tt,
                      (
                        tt,
                        (
                          λ s at r. make_handoff-in_range s at,
                          (
                            maintain-Kept,
                            (
                              tt,
                              (
                                tt,
                                (
                                  tt,
                                  (
                                    tt,
                                    (
                                      tt,
                                      (
                                        tt,
                                        (
                                          tt,
                                          (
                                            tt,
                                            (
                                              tt,
                                              (
                                                tt,
                                                (
                                                  tt,
                                                  (
                                                    admin_page-Kept,
                                                    (
                                                      log_out-Kept,
                                                      (
                                                        list_resource-Kept,
                                                        (
                                                          create-Kept,
                                                          (update-Kept, (remove-Kept, tt)),
                                                        ),
                                                      ),
                                                    ),
                                                  ),
                                                ),
                                              ),
                                            ),
                                          ),
                                        ),
                                      ),
                                    ),
                                  ),
                                ),
                              ),
                            ),
                          ),
                        ),
                      ),
                    ),
                  ),
                ),
              ),
            ),
          ),
        ),
      )
