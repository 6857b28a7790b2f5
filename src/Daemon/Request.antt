-- ===== src/Daemon/Request.antt =====
-- src/http_parser.c: `parse_session_json`. The JSON library is third-party code: what `json_loads`
-- returns is an argument, and a value is what the library's accessors tell of it.
use signup_daemon.Prelude.{
  ℕ, Bool, true, false, not, ◌&&◌, ◌||◌, Option, none, some, List, [], ◌∷◌, ◌++◌, codes, ltb, ◌==◌,
  if◌then◌else◌, length,
}
use signup_daemon.Js.Strings.{Text, text_eq}
use signup_daemon.Daemon.{Kind, post_type_str}
use signup_daemon.Daemon.Guards.{
  lowered, validate_username, validate_hex, validate_passwd, validate_signup_salt,
}

-- `json_is_integer`, `json_is_string` and neither; the sign of an integer is kept apart.
pub data Value : Type 0 where
  integer : Bool → ℕ → Value
  string : Text → Value
  other : Value

-- The root that `json_loads` returns: an object, or something without members. The keys of an object
-- are distinct.
pub data Root : Type 0 where
  object : List (Text × Value) → Root
  not_object : Root

abbrev find : Text → List (Text × Value) → Option Value
find name [] = none
find name ((key, value) ∷ rest) =
    let later = find name rest in if text_eq key name then some value else later

-- `json_object_get`
abbrev json_object_get : Root → Text → Option Value
json_object_get (object members) name = find name members
json_object_get not_object name = none

-- `json_object_size`
abbrev json_object_size : Root → ℕ
json_object_size (object members) = length members
json_object_size not_object = 0

abbrev json_string_value : Option Value → Option Text
json_string_value (some (string s)) = some s
json_string_value (some (integer _ _)) = none
json_string_value (some other) = none
json_string_value none = none

abbrev is_some : Option Text → Bool
is_some none = false
is_some (some s) = true

-- `struct session_request`; `ver` is only printed and left out.
pub record SessionRequest : Type 0 where
  pub username : Option Text
  pub passwd : Option Text
  pub signup_salt : Option Text

abbrev pub empty_request : SessionRequest
empty_request = record { username = none; passwd = none; signup_salt = none }

abbrev has_version : Option Value → Bool
has_version (some (integer _ _)) = true
has_version (some (string _)) = false
has_version (some other) = false
has_version none = false

-- From the copies of the hash and the salt on.
abbrev check_pair : Option Text → Option Text → SessionRequest → ℕ × SessionRequest
check_pair passwd salt req =
    let req = record req { passwd = passwd; signup_salt = salt } in
    if not (validate_passwd passwd)
    then (123060, req)
    else if not (validate_signup_salt salt)
    then (123070, req)
    else (0, req)

-- From the lowered name on.
abbrev check_name : Root → Option Text → Option Text → Text → ℕ × SessionRequest
check_name root passwd salt name =
    let req = record empty_request { username = some name } in
    if not (validate_username (some name))
    then (123033, req)
    else if not (is_some passwd) && not (is_some salt)
    then (0, req)
    else if not (is_some passwd) || not (is_some salt)
    then (123040, req)
    else if ltb 4 (json_object_size root)
    then (123050, req)
    else check_pair passwd salt req

abbrev check_root : Kind → Root → ℕ × SessionRequest
check_root kind root =
    let salt = json_string_value (json_object_get root (post_type_str kind ++ codes "_salt")) in
    let passwd = json_string_value (json_object_get root (codes "passwd")) in
    let username = json_string_value (json_object_get root (codes "username")) in
    if not (has_version (json_object_get root (codes "ver")))
    then (123020, empty_request)
    else elim username [
      | none ↦ (123030, empty_request)
      | some name ↦ check_name root passwd salt (lowered name)
    ]

-- The value of each `return` and the request; `none` is a text that is no JSON.
unfoldable pub parse_code : Kind → Option Root → ℕ × SessionRequest
unfolding validate_username validate_hex
parse_code kind none = (123015, empty_request)
parse_code kind (some root) = check_root kind root

-- The function returns `bool`: each of the codes comes out as 1.
unfoldable pub parse_session_json : Kind → Option Root → ℕ × SessionRequest
unfolding parse_code
parse_session_json kind loaded =
    let (code, req) = parse_code kind loaded in (if code == 0 then 0 else 1, req)
