-- ===== src/Store/Access/Grants.antt =====
-- The connections that a user is shown are those that the user may launch.
use thin_pi.Prelude.{
  ℕ, ◌≤◌, ◌≡◌, refl, sym, ap, ◌∙◌, subst, inl, inr, Bool, true, false, not, ◌&&◌, ◌||◌, Option,
  none, some, List, [], ◌∷◌, ◌++◌, map, arith, ◌==◌, ==_iff, Bool-cases, is_some, is_nil, any,
  select, count_where,
}
use thin_pi.Db.{Db, Connection, Permission}
use thin_pi.Store.Access.{
  can_launch, permitted, in_group, connections_for_user, sort_connections, insert_sorted, or_null,
  left_join, joined_rows, of_group, launches, row_launches, row_connection, distinct,
}

module _ (q : Connection → Bool) where
  any-insert_sorted :
      (c : Connection) (ds : List Connection) → any q (insert_sorted c ds) ≡ (q c || any q ds)
  unfolding any insert_sorted
  any-insert_sorted c [] = refl
  any-insert_sorted c (d ∷ ds) = ground (arith, any-insert_sorted c ds)

  any-sort_connections : (cs : List Connection) → any q (sort_connections cs) ≡ any q cs
  unfolding any sort_connections
  any-sort_connections [] = refl
  any-sort_connections (c ∷ cs) =
      rw (any-insert_sorted c (sort_connections cs)) (rw (any-sort_connections cs))

  count-insert_sorted :
      (c : Connection) (ds : List Connection)
      → count_where q (insert_sorted c ds) ≡ count_where q (c ∷ ds)
  unfolding count_where insert_sorted
  count-insert_sorted c [] = refl
  count-insert_sorted c (d ∷ ds) = ground (arith, count-insert_sorted c ds)

  count-sort_connections :
      (cs : List Connection) → count_where q (sort_connections cs) ≡ count_where q cs
  unfolding count_where sort_connections
  count-sort_connections [] = refl
  count-sort_connections (c ∷ cs) =
      count-insert_sorted c (sort_connections cs) ∙ ground (arith, count-sort_connections cs)

none_counted :
    (q : Connection → Bool) (cs : List Connection) → any q cs ≡ false → count_where q cs ≡ 0
unfolding any count_where
none_counted q [] h = refl
none_counted q (c ∷ cs) h = ground (arith, none_counted q cs)

module _ (connection : ℕ) where
  any-distinct :
      (cs : List Connection)
      → any (λ c. c.id == connection) (distinct cs) ≡ any (λ c. c.id == connection) cs
  unfolding any distinct
  any-distinct [] = refl
  any-distinct (c ∷ cs) = elim (Bool-cases (any (λ d. d.id == c.id) (distinct cs))) [
    | inl there ↦ elim (Bool-cases (c.id == connection)) [
      | inl hit ↦ rw there (
          rw hit (
            subst (λ k. any (λ d. d.id == k) (distinct cs) ≡ true) ((==_iff c.id connection).0 hit)
              there))
      | inr miss ↦ rw there (rw miss (any-distinct cs))
    ]
    | inr new ↦ rw new (rw (any-distinct cs))
  ]

  count-distinct : (cs : List Connection) → count_where (λ c. c.id == connection) (distinct cs) ≤ 1
  unfolding count_where distinct
  count-distinct [] = ground arith
  count-distinct (c ∷ cs) = elim (Bool-cases (any (λ d. d.id == c.id) (distinct cs))) [
    | inl there ↦ rw there (count-distinct cs)
    | inr new ↦ elim (Bool-cases (c.id == connection)) [
      | inl hit ↦
          let none_left =
            none_counted (λ d. d.id == connection) (distinct cs)
              (subst (λ k. any (λ d. d.id == k) (distinct cs) ≡ false)
                ((==_iff c.id connection).0 hit) new) in
          rw new (rw hit (omega (arith, none_left)))
      | inr miss ↦ rw new (rw miss (count-distinct cs))
    ]
  ]

any-cong {ℓ} :
    {A : Type ℓ} (p q : A → Bool) (xs : List A) → ((x : A) → p x ≡ q x) → any p xs ≡ any q xs
unfolding any
any-cong p q [] same = refl
any-cong p q (x ∷ xs) same = rw (same x) (rw (any-cong p q xs same))

any-append {ℓ} :
    {A : Type ℓ} (p : A → Bool) (xs ys : List A) → any p (xs ++ ys) ≡ (any p xs || any p ys)
unfolding any
any-append p [] ys = refl
any-append p (x ∷ xs) ys = ground (arith, any-append p xs ys)

any-map {ℓ₁ ℓ₂} :
    {A : Type ℓ₁} {B : Type ℓ₂} (p : B → Bool) (f : A → B) (xs : List A)
    → any p (map f xs) ≡ any (λ x. p (f x)) xs
unfolding any
any-map p f [] = refl
any-map p f (x ∷ xs) = rw (any-map p f xs)

any-select {ℓ} :
    {A : Type ℓ} (q p : A → Bool) (cs : List A) → any q (select p cs) ≡ any (λ c. p c && q c) cs
unfolding any select
any-select q p [] = refl
any-select q p (c ∷ cs) = ground (arith, any-select q p cs)

any-left_join {ℓ₁ ℓ₂} :
    {A : Type ℓ₁} {B : Type ℓ₂} (q : A × Option B → Bool) (on : A → B → Bool) (ys : List B)
    (xs : List A)
    → any q (left_join on ys xs) ≡ any (λ x. any (λ y. q (x, y)) (or_null (select (on x) ys))) xs
unfolding any left_join
any-left_join q on ys [] = refl
any-left_join q on ys (x ∷ xs) =
    any-append q (map (λ y. (x, y)) (or_null (select (on x) ys))) (left_join on ys xs)
    ∙ rw (any-map q (λ y. (x, y)) (or_null (select (on x) ys)), any-left_join q on ys xs)

any-some {ℓ} :
    {B : Type ℓ} (e a : Bool) (r : Option B → Bool) (ys : List B)
    → any (λ y. e && (a || r y)) (map some ys)
      ≡ (e && ((not (is_nil ys) && a) || any (λ y. r (some y)) ys))
unfolding any
any-some e a r [] = ground arith
any-some e a r (y ∷ ys) = ground (arith, any-some e a r ys)

any-matched {ℓ} :
    {B : Type ℓ} (e a : Bool) (r : Option B → Bool) (ms : List B)
    → r none ≡ false
    → any (λ y. e && (a || r y)) (or_null ms) ≡ (e && (a || any (λ y. r (some y)) ms))
unfolding any or_null
any-matched e a r [] null = ground arith
any-matched e a r (m ∷ ms) null = ground (arith, any-some e a r ms)

-- A condition on a joined row that NULL does not meet is met by one of the matches.
any-or_null {ℓ} :
    {B : Type ℓ} (e a : Bool) (r : Option B → Bool) (on : B → Bool) (ys : List B)
    → r none ≡ false
    → any (λ y. e && (a || r y)) (or_null (select on ys))
      ≡ (e && (a || any (λ y. on y && r (some y)) ys))
any-or_null e a r on ys null =
    any-matched e a r (select on ys) null
    ∙ ap (λ b. e && (a || b)) (any-select (λ y. r (some y)) on ys)

any-and {ℓ} :
    {A : Type ℓ} (b : Bool) (p : A → Bool) (xs : List A)
    → any (λ x. p x && (b && true)) xs ≡ (b && any p xs)
unfolding any
any-and b p [] = ground arith
any-and b p (x ∷ xs) = ground (arith, any-and b p xs)

module _ (db : Db) (user : ℕ) where
  in_group-of_group :
      (gp : Permission)
      → any (of_group user (some gp)) db.user_groups ≡ in_group db user gp.subject_id
  unfolding in_group
  in_group-of_group gp = any-cong _ _ db.user_groups (λ m. ground arith)

  -- The rows of one connection: with a grant and a group permission, with a grant, and all of them.
  module _ (c : Connection) (e : Bool) where
    with_group :
        (up gp : Option Permission)
        → any
            (λ ug. e && (launches up || (launches gp && is_some ug)))
            (or_null (select (of_group user gp) db.user_groups))
          ≡ (e && (launches up || (launches gp && any (of_group user gp) db.user_groups)))
    with_group up gp =
        any-or_null e (launches up) (λ ug. launches gp && is_some ug) (of_group user gp)
          db.user_groups (ground arith)
        ∙ ap (λ b. e && (launches up || b))
            (any-and (launches gp) (of_group user gp) db.user_groups)

    abbrev by_group : Permission → Bool
    by_group p = in_group db user p.subject_id && p.connection_id == c.id && p.can_launch

    with_groups :
        (up : Option Permission)
        → any
            (λ gp.
              any
                (λ ug. e && (launches up || (launches gp && is_some ug)))
                (or_null (select (of_group user gp) db.user_groups)))
            (or_null (select (λ gp. gp.connection_id == c.id) db.group_permissions))
          ≡ (e && (any by_group db.group_permissions || launches up))
    with_groups up =
        let granted : any
              (λ gp.
                gp.connection_id == c.id
                && (gp.can_launch && any (of_group user (some gp)) db.user_groups))
              db.group_permissions
            ≡ any by_group db.group_permissions =
          any-cong _ _ db.group_permissions (λ gp. rw (in_group-of_group gp) (ground arith)) in
        any-cong _ _ (or_null (select (λ gp. gp.connection_id == c.id) db.group_permissions))
          (with_group up)
        ∙ any-or_null e (launches up) (λ gp. launches gp && any (of_group user gp) db.user_groups)
            (λ gp. gp.connection_id == c.id) db.group_permissions refl
        ∙ rw granted (ground arith)

    rows_launch :
        any
          (λ up.
            any
              (λ gp.
                any
                  (λ ug. e && (launches up || (launches gp && is_some ug)))
                  (or_null (select (of_group user gp) db.user_groups)))
              (or_null (select (λ gp. gp.connection_id == c.id) db.group_permissions)))
          (or_null
            (select (λ up. up.connection_id == c.id && up.subject_id == user) db.user_permissions))
        ≡ (e && permitted db user c.id)
    unfolding permitted
    rows_launch =
        let granted : any
              (λ up. (up.connection_id == c.id && up.subject_id == user) && up.can_launch)
              db.user_permissions
            ≡ any (λ p. p.subject_id == user && p.connection_id == c.id && p.can_launch)
                db.user_permissions =
          any-cong _ _ db.user_permissions (λ up. ground arith) in
        any-cong _ _
          (or_null
            (select (λ up. up.connection_id == c.id && up.subject_id == user) db.user_permissions))
          with_groups
        ∙ any-or_null e (any by_group db.group_permissions) launches
            (λ up. up.connection_id == c.id && up.subject_id == user) db.user_permissions refl
        ∙ rw granted (ground arith)

  -- The joined rows that are kept and are of one connection.
  joined_rows-permitted :
      (connection : ℕ)
      → any (λ row. row_launches row && row.0.0.0.id == connection) (joined_rows db user)
        ≡ any (λ c. c.id == connection && (c.enabled && permitted db user c.id)) db.connections
  unfolding joined_rows
  joined_rows-permitted connection =
      any-left_join _ (λ row m. of_group user row.1 m) db.user_groups _
      ∙ any-left_join _ (λ row gp. gp.connection_id == row.0.id) db.group_permissions _
      ∙ any-left_join _
          (λ (c : Connection) (up : Permission). up.connection_id == c.id && up.subject_id == user)
          db.user_permissions db.connections
      ∙ any-cong _ _ db.connections (λ c. of_connection c)
    where
      ordered : (a b d : Bool) → ((a && b) && d) ≡ ((d && a) && b)
      ordered a b d = ground arith

      of_connection :
          (c : Connection)
          → any
              (λ up.
                any
                  (λ gp.
                    any
                      (λ ug. row_launches (((c, up), gp), ug) && c.id == connection)
                      (or_null (select (of_group user gp) db.user_groups)))
                  (or_null (select (λ gp. gp.connection_id == c.id) db.group_permissions)))
              (or_null (
                select
                  (λ up. up.connection_id == c.id && up.subject_id == user)
                  db.user_permissions))
            ≡ (c.id == connection && (c.enabled && permitted db user c.id))
      of_connection c =
          any-cong _ _ _ (λ up. any-cong _ _ _ (λ gp. any-cong _ _ _ (λ ug.
            ordered (c.enabled) (launches up || (launches gp && is_some ug)) (c.id == connection))))
          ∙ rows_launch c (c.id == connection && c.enabled)
          ∙ ground arith

-- A connection stands in a user's list exactly if the user may launch it, and never twice.
pub connections_for_user-can_launch :
    (db : Db) (user connection : ℕ)
    → (any (λ c. c.id == connection) (connections_for_user db user) ≡ can_launch db user connection)
      × (count_where (λ c. c.id == connection) (connections_for_user db user) ≤ 1)
unfolding connections_for_user can_launch
connections_for_user-can_launch db user connection =
    let launched = map row_connection (select row_launches (joined_rows db user)) in
    (
      any-sort_connections (λ c. c.id == connection) (distinct launched)
          ∙ any-distinct connection launched
          ∙ any-map (λ c. c.id == connection) row_connection
              (select row_launches (joined_rows db user))
          ∙ any-select (λ row. row.0.0.0.id == connection) row_launches (joined_rows db user)
          ∙ joined_rows-permitted db user connection,
      subst (λ n. n ≤ 1)
          (sym (count-sort_connections (λ c. c.id == connection) (distinct launched)))
          (count-distinct connection launched),
    )
