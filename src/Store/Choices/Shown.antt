-- ===== src/Store/Choices/Shown.antt =====
-- controller/internal/app/store.go: what `LoginUsers` shows.
use thin_pi.Prelude.{
  ℕ, zero, suc, ◌≡◌, refl, sym, ap, ◌∙◌, subst, inl, inr, Bool, List, [], ◌∷◌, ◌++◌, map, arith,
  ltb, if◌then◌else◌, Bool-cases, is_some, length, take, select, count_where, length-take,
  length-take_lt, length-select,
}
use mathlib.Core.List.{Perm}
use mathlib.Core.List.Perm
use thin_pi.Prelude.{length-take, length-take_lt, length-select}
use thin_pi.Db.{Db, UserRow}
use thin_pi.Store.Choices.{
  login_before, place_user, sort_users, login_user, login_rows, login_users,
}

length-place_user : (u : UserRow) (us : List UserRow) → length (place_user u us) ≡ suc (length us)
unfolding place_user
length-place_user u [] = refl
length-place_user u (v ∷ vs) = ground (arith, length-place_user u vs)

length-sort_users : (us : List UserRow) → length (sort_users us) ≡ length us
unfolding sort_users
length-sort_users [] = refl
length-sort_users (u ∷ us) =
    omega (arith, length-place_user u (sort_users us), length-sort_users us)

Perm-place_user : (u : UserRow) (us : List UserRow) → Perm (place_user u us) (u ∷ us)
unfolding place_user
Perm-place_user u [] = Perm.rfl
Perm-place_user u (v ∷ vs) = elim (Bool-cases (login_before u v u.last_login_at v.last_login_at)) [
  | inl first ↦ rw first Perm.rfl
  | inr later ↦ rw later (Perm.trans (Perm.cons v (Perm-place_user u vs)) (Perm.swap u v vs))
]

Perm-sort_users : (us : List UserRow) → Perm (sort_users us) us
unfolding sort_users
Perm-sort_users [] = Perm.nil
Perm-sort_users (u ∷ us) =
    Perm.trans (Perm-place_user u (sort_users us)) (Perm.cons u (Perm-sort_users us))

take-take : (us : List UserRow) → take 6 (take 7 us) ≡ take 6 us
unfolding take
take-take [] = refl
take-take (a ∷ []) = refl
take-take (a ∷ b ∷ []) = refl
take-take (a ∷ b ∷ c ∷ []) = refl
take-take (a ∷ b ∷ c ∷ d ∷ []) = refl
take-take (a ∷ b ∷ c ∷ d ∷ e ∷ []) = refl
take-take (a ∷ b ∷ c ∷ d ∷ e ∷ f ∷ us) = refl

rest_of : (n : ℕ) (us : List UserRow) → (rest : List UserRow) × (take n us ++ rest ≡ us)
unfolding take
rest_of zero us = (us, refl)
rest_of (suc n) [] = ([], refl)
rest_of (suc n) (u ∷ us) = let (rest, whole) = rest_of n us in (rest, ap (λ t. u ∷ t) whole)

abbrev pub is_enabled : UserRow → Bool
is_enabled u = u.user.enabled

length-rows :
    (db : Db) → length (sort_users (select is_enabled db.users)) ≡ count_where is_enabled db.users
length-rows db = length-sort_users (select is_enabled db.users) ∙ length-select is_enabled db.users

more : (db : Db) → ltb 6 (length (login_rows db)) ≡ ltb 6 (count_where is_enabled db.users)
unfolding login_rows
more db =
    length-take_lt 6 7 (sort_users (select is_enabled db.users)) refl ∙ ap (ltb 6) (length-rows db)

shown :
    (db : Db)
    → length (take 6 (login_rows db))
      ≡ (if ltb 6 (count_where is_enabled db.users) then 6 else count_where is_enabled db.users)
unfolding login_rows
shown db =
    length-take 6 (login_rows db)
    ∙ rw (length-take 7 (sort_users (select is_enabled db.users)), length-rows db) (ground arith)

-- `LoginUsers` shows, each by the user's id, user name, display name, photo and time of the last update,
-- rows that make up the enabled users of the table together with some that it leaves out, so none is shown
-- twice; it shows all of them when there are at most six and six otherwise, and says whether there are more.
pub login_users_complete :
    (db : Db)
    → (rows : List UserRow) × (rest : List UserRow) × Perm
        (rows ++ rest)
        (select (λ (u : UserRow). u.user.enabled) db.users)
      × ((login_users db).0
          ≡ map
              (λ (u : UserRow). record {
                id = u.user.id;
                username = u.user.username;
                display_name = u.user.display_name;
                has_profile_photo = is_some u.photo;
                version = u.updated_at;
              })
              rows)
      × (length rows ≡ (
          if ltb 6 (count_where is_enabled db.users) then 6 else count_where is_enabled db.users))
      × ((login_users db).1 ≡ ltb 6 (count_where is_enabled db.users))
unfolding login_users login_rows
login_users_complete db =
    let sorted = sort_users (select is_enabled db.users) in
    let (rest, whole) = rest_of 6 sorted in
    (
      take 6 sorted,
      rest,
      subst (λ us. Perm us (select is_enabled db.users)) (sym whole)
          (Perm-sort_users (select is_enabled db.users)),
      ap (map login_user) (take-take sorted),
      ap length (sym (take-take sorted)) ∙ shown db,
      more db,
    )
