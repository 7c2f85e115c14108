-- ===== src/Web/Request.antt =====
-- controller/internal/web/server.go: what the handlers read of a request, and what they answer. The
-- parsing of the address, the headers, the cookies, the form and the path is net/http's.
use thin_pi.Prelude.{
  ℕ, String, Bool, true, false, not, ◌&&◌, Option, none, some, List, str_eq, ◌==◌, if◌then◌else◌,
  Bytes,
}
use Prim.Native.Char.{code}
use thin_pi.Policy.{PolicyStatus, Reason}
use thin_pi.Store.Choices.{LoginUser}
use thin_pi.Db.{User, Connection, Device, Manifest}

pub record Request : Type 0 where
  pub method : String
  pub path : List String
  pub tls : Bool
  pub authorization : String
  pub session_cookie : Option String
  pub csrf_header : String
  -- whether the content type is that of a form, and the value of its field csrf
  pub form : Bool
  pub csrf_field : String
  -- whether ParseForm succeeds, and the two fields of the sign-in form
  pub form_readable : Bool
  pub form_username : Bytes
  pub form_password : Bytes
  -- the query's code
  pub code_parameter : String
  -- the path's id, if it is a number
  pub path_id : Option ℕ
  pub path_resource : String
  pub body : Bytes

-- isMutation
unfoldable pub is_mutation : String → Bool
is_mutation m = not (str_eq m "GET") && (not (str_eq m "HEAD") && not (str_eq m "OPTIONS"))

-- strings.HasPrefix and TrimPrefix
unfoldable pub strip_prefix : String → String → Option String
strip_prefix String.[] s = some s
strip_prefix (String.◌∷◌ p ps) String.[] = none
strip_prefix (String.◌∷◌ p ps) (String.◌∷◌ c s) =
    let rest = strip_prefix ps s in if code p == code c then rest else none

abbrev pub cookie_token : Option String → String × Bool
cookie_token none = ("", false)
cookie_token (some t) = (t, true)

unfoldable pub choose_token : Option String → Option String → String × Bool
choose_token (some t) cookie = (t, false)
choose_token none cookie = cookie_token cookie

-- tokenFrom: the token, and whether a cookie holds it
unfoldable pub token_from : Request → String × Bool
unfolding strip_prefix choose_token
token_from r = choose_token (strip_prefix "Bearer " r.authorization) r.session_cookie

-- r.Header.Get("X-CSRF-Token"), or else the form's field
unfoldable pub csrf_candidate : Request → String
csrf_candidate r = if str_eq r.csrf_header "" && r.form then r.csrf_field else r.csrf_header

pub data Payload : Type 0 where
  signed_in_as : String → String → User → Payload
  profile : User → Payload
  handoff_path : String → Payload
  choices : List Connection → PolicyStatus → Payload
  ticket_issued : String → Payload
  enrolled_as : Device → String → Payload
  manifest_for : Manifest → Payload
  created_id : ℕ → Payload
  enrolment_token : String → Payload
  listing : Payload
  sign_in_choices : List LoginUser → Bool → ℕ → String → String → Payload

pub data Reply : Type 0 where
  failure : ℕ → String → Reply
  policy_failure : Reason → Reply
  redirect : String → Reply
  empty : ℕ → Reply
  json : ℕ → Payload → Reply
  login_page : String → Reply
  admin_html : String → Bytes → Reply
  image : String → Bytes → Reply
  static_file : List String → Reply
  not_found : Reply
  wrong_method : Reply

-- What the answer does to the session cookie.
pub data CookieChange : Type 0 where
  keep : CookieChange
  set : String → CookieChange
  clear : CookieChange

pub record Answer : Type 0 where
  pub reply : Reply
  pub cookie : CookieChange

abbrev pub plain : Reply → Answer
plain r = record { reply = r; cookie = keep }
