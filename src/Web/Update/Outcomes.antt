-- ===== src/Web/Update/Outcomes.antt =====
-- controller/internal/web/server.go: what `adminUpdate` leaves of a user and of a policy.
use thin_pi.Prelude.{
  ℕ, ◌≡◌, refl, sym, ap, ◌∙◌, subst, inl, inr, Bool, true, false, not, ◌&&◌, some, List, [], ◌∷◌,
  arith, ◌==◌, ==_refl, Bool-cases, Option-cases, is_some, find-append, is_nil, find, any, select,
  update_where, Bytes, ok,
}
use thin_pi.Policy.{AccessPolicy}
use thin_pi.Stamp.{stamp}
use thin_pi.Db.{Db, Ticket, UserRow, has_user}
use thin_pi.Web.Bodies.{UserBody, decode}
use thin_pi.Web.Create.{Moment, Server}
use thin_pi.Web.Validate.{valid_label}
use thin_pi.Web.Records.{write_user, set_password, update_user}
use thin_pi.Web.Update.{
  with_change, update_resource, updated, admin_update, open_for, write_policy, delete_tickets,
  update_policy, policy_in_range,
}

update_user_error :
    (s : Server) (at : Moment) (user id : ℕ) (q : UserBody) (db : Db)
    → valid_label q.display_name 128 ≡ true
    → (updated at user "users" id (update_user s at id q db)).0 ≡ 400
    → (updated at user "users" id (update_user s at id q db)).1 ≡ write_user id q at.now db
unfolding updated update_user set_password
update_user_error s at user id q db label e = elim (Bool-cases (is_nil q.password)) [
  | inl same ↦ absurd (ground arith)
  | inr fresh ↦ elim (Option-cases (s.config.hash_password at.salt q.password)) [
    | inl refused ↦ rw (label, fresh, refused)
    | inr (hash, made) ↦ absurd (ground arith)
  ]
]

-- An update of a user whose body is well formed and whose display name is valid, and that is answered with
-- 400, has written the display name, both flags and the time of the update to the user all the same, and
-- has left everything else, the password and the audit events included, as it was.
pub admin_update_half_done :
    (s : Server) (at : Moment) (user id : ℕ) (body : Bytes) (q : UserBody) (db : Db)
    → decode s.readers.user_change body ≡ some q
    → valid_label q.display_name 128 ≡ true
    → (admin_update s at user "users" (some id) body db).0 ≡ 400
    → (admin_update s at user "users" (some id) body db).1 ≡ record db {
      users =
          update_where
            (λ u. u.id == id)
            (λ (u : UserRow). record u {
              user = record u.user {
                display_name = q.display_name;
                is_admin = q.is_admin;
                enabled = q.enabled;
              };
              updated_at = stamp at.now;
            })
            db.users;
    }
unfolding admin_update update_resource with_change write_user
admin_update_half_done s at user id body q db read label e =
    rw read (update_user_error s at user id q db label (rw read at e))

none_open : (p : Ticket → Bool) (ts : List Ticket) → any p (select (λ t. not (p t)) ts) ≡ false
unfolding any select
none_open p [] = refl
none_open p (t ∷ ts) = ground (arith, none_open p ts)

policy_replaced :
    (q : AccessPolicy) (ps : List AccessPolicy)
    → any (λ (p : AccessPolicy). p.user_id == q.user_id) ps ≡ true
    → find
        (λ (p : AccessPolicy). p.user_id == q.user_id)
        (update_where (λ (p : AccessPolicy). p.user_id == q.user_id) (λ p. q) ps)
      ≡ some q
unfolding any find update_where
policy_replaced q [] h = absurd (ground arith)
policy_replaced q (p ∷ ps) h = ground (arith, policy_replaced q ps, ==_refl q.user_id)

policy_written :
    (q : AccessPolicy) (db : Db)
    → find (λ (p : AccessPolicy). p.user_id == q.user_id) (write_policy q db).policies ≡ some q
unfolding write_policy
policy_written q db =
    let found_alone : find (λ (p : AccessPolicy). p.user_id == q.user_id) (q ∷ []) ≡ some q =
      unfold find in rw (==_refl q.user_id) in
    elim (Bool-cases (any (λ (p : AccessPolicy). p.user_id == q.user_id) db.policies)) [
      | inl there ↦ rw there (policy_replaced q db.policies there)
      | inr absent ↦ rw absent (find-append _ db.policies (q ∷ []) absent ∙ found_alone)
    ]

policy_accepted :
    (s : Server) (id : ℕ) (q : AccessPolicy) (db db' : Db) (revoked : Bool)
    → update_policy s id q db ≡ (ok revoked, db')
    → (q.user_id ≡ id)
      × (policy_in_range q ≡ true)
      × (db' ≡ delete_tickets (open_for id) (write_policy q db))
unfolding update_policy
policy_accepted s id q db db' revoked e = elim (Bool-cases (q.user_id == id && policy_in_range q)) [
  | inl bounded ↦ elim (Bool-cases (is_some (s.config.zones q.timezone))) [
    | inl zoned ↦ elim (Bool-cases (has_user db id)) [
      | inl known ↦
          (ground arith, ground arith, sym (ap (λ x. x.1) (rw (bounded, zoned, known) at e)))
      | inr unknown ↦ absurd (ground arith)
    ]
    | inr nowhere ↦ absurd (ground arith)
  ]
  | inr beyond ↦ absurd (ground arith)
]

-- A policy that is accepted is in range and is the user's policy from then on, and no ticket of the user
-- that was not redeemed is left.
pub update_policy_closes :
    (s : Server) (id : ℕ) (q : AccessPolicy) (db db' : Db) (revoked : Bool)
    → update_policy s id q db ≡ (ok revoked, db')
    → (policy_in_range q ≡ true)
      × (find (λ (p : AccessPolicy). p.user_id == id) db'.policies ≡ some q)
      × (any (open_for id) db'.launch_tickets ≡ false)
unfolding update_policy delete_tickets
update_policy_closes s id q db db' revoked e =
    let (own, within, left) = policy_accepted s id q db db' revoked e in
    (
      within,
      subst (λ d. find (λ (p : AccessPolicy). p.user_id == id) d.policies ≡ some q) (sym left)
          (subst
            (λ k. find (λ (p : AccessPolicy). p.user_id == k) (write_policy q db).policies ≡ some q)
            own (policy_written q db)),
      subst (λ d. any (open_for id) d.launch_tickets ≡ false) (sym left)
          (none_open (open_for id) (write_policy q db).launch_tickets),
    )
