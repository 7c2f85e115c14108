-- ===== src/Store/Choices.antt =====
-- controller/internal/app/store.go: `LoginUsers`, the users that the sign-in screen offers.
pub mod Shown
use thin_pi.Prelude.{
  ℕ, zero, suc, ◌+◌, ◌-◌, ◌*◌, ◌/◌, ◌%◌, ◌^◌, ◌≤◌, ◌<◌, max, String, ◌≡◌, refl, sym, ap, ◌∙◌, subst,
  ◌≢◌, ◌↔◌, ◌⊎◌, inl, inr, Bool, true, false, not, ◌&&◌, ◌||◌, Option, none, some, List, [], ◌∷◌,
  ◌++◌, map, arith, str_eq, str_eq_iff, ltb, leb, ◌==◌, if◌then◌else◌, ltb→lt, lt→ltb, leb→le,
  ==_iff, ==_refl, Bool-cases, Option-cases, &&_left, &&_right, is_some, length, length-append,
  find-All, map_option, find-update_where, any-true, find-append, any_weaken, count_where-append,
  count_where_none, find_sound, find-any, any-false, All-update_where, All-append, All-map, is_nil,
  find, take, any, select, count_where, update_where, All, Bytes, bytes, text_eq, text_lt,
  lower_byte, to_lower, is_space, trim_left, trim_space, contains_byte, contains_any, text_eq_iff,
  Result, ok, err, Exec, pure, raise, continue, ◌>>=◌, ◌>>◌, gets, modify, require, or_fail, lift,
  roll_back, transact, Result-cases,
}
use thin_pi.Stamp.{Stamp, stamp_lt}
use thin_pi.Db.{Db, UserRow}

-- LoginUser; `version` is users.updated_at.
pub record LoginUser : Type 0 where
  pub id : ℕ
  pub username : Bytes
  pub display_name : Bytes
  pub has_profile_photo : Bool
  pub version : Stamp

-- display_name COLLATE NOCASE
abbrev pub name_before : UserRow → UserRow → Bool
name_before a b = not (text_lt (to_lower b.user.display_name) (to_lower a.user.display_name))

-- ORDER BY last_login_at DESC, a user with none at the end, and the names where that is equal
unfoldable pub login_before : UserRow → UserRow → Option Stamp → Option Stamp → Bool
unfolding stamp_lt text_lt to_lower
login_before a b none none = name_before a b
login_before a b none (some t) = false
login_before a b (some s) none = true
login_before a b (some s) (some t) = stamp_lt t s || (not (stamp_lt s t) && name_before a b)

unfoldable pub place_user : UserRow → List UserRow → List UserRow
unfolding login_before
place_user u [] = u ∷ []
place_user u (v ∷ vs) =
    let rest = place_user u vs in
    if login_before u v u.last_login_at v.last_login_at then u ∷ v ∷ vs else v ∷ rest

unfoldable pub sort_users : List UserRow → List UserRow
unfolding place_user
sort_users [] = []
sort_users (u ∷ us) = place_user u (sort_users us)

abbrev pub login_user : UserRow → LoginUser
login_user u = record {
  id = u.user.id;
  username = u.user.username;
  display_name = u.user.display_name;
  has_profile_photo = is_some u.photo;
  version = u.updated_at;
}

-- The query, with its LIMIT 7.
unfoldable pub login_rows : Db → List UserRow
unfolding select sort_users take
login_rows db = take 7 (sort_users (select (λ (u : UserRow). u.user.enabled) db.users))

-- LoginUsers: six users, and whether there are more
unfoldable pub login_users : Db → List LoginUser × Bool
unfolding take login_rows
login_users db = (map login_user (take 6 (login_rows db)), ltb 6 (length (login_rows db)))
