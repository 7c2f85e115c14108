-- ===== src/Web/Public.antt =====
-- controller/internal/web/server.go: what anybody may read, the sign-in screen's choices and the
-- photos of the users. The address that `loginUsers` makes for a photo is left out.
use thin_pi.Prelude.{
  ℕ, String, Bool, true, ◌&&◌, Option, none, some, List, [], ◌==◌, if◌then◌else◌, is_some, find,
  Bytes,
}
use thin_pi.Db.{Db, UserRow}
use thin_pi.Store.Choices.{LoginUser, login_users}
use thin_pi.Web.Request.{
  Request, Reply, plain, failure, json, image, not_found, listing, sign_in_choices,
}
use thin_pi.Web.Gate.{Handler}

-- health, of a database that answers
unfoldable pub health : Handler
health db = (plain (json 200 listing), db)

abbrev pub choices_of : Db → List LoginUser × Bool
choices_of db = if db.show_user_list then login_users db else ([], true)

unfoldable pub settings_answer : Db → Option String → Reply
settings_answer db none = failure 500 "INTERNAL_ERROR"
settings_answer db (some terminal) = json 200 (
    sign_in_choices (choices_of db).0 (choices_of db).1 db.screen_sleep_minutes terminal
      db.client_theme)

-- loginUsers
unfoldable pub show_choices : Handler
unfolding settings_answer
show_choices db = (plain (settings_answer db db.terminal_theme), db)

unfoldable pub photo_reply : Option (String × Bytes) → Reply
photo_reply none = not_found
photo_reply (some (mime, photo)) = image mime photo

abbrev pub photo_row : ℕ → UserRow → Bool
photo_row id u = u.user.id == id && (u.user.enabled && is_some u.photo)

abbrev pub photo_of_row : Option UserRow → Option (String × Bytes)
photo_of_row none = none
photo_of_row (some u) = u.photo

unfoldable pub photo_with : Option ℕ → Handler
unfolding find photo_reply
photo_with none db = (plain not_found, db)
photo_with (some id) db = (plain (photo_reply (photo_of_row (find (photo_row id) db.users))), db)

-- profilePhoto
unfoldable pub profile_photo : Request → Handler
profile_photo r = photo_with r.path_id
