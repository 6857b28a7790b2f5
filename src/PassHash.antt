-- ===== src/PassHash.antt =====
-- signup_html/calc_passHash.js and `sha256` of utils.js, with `jsonGetHex32` of
-- form_submit_session-manager.js: the hash of the password that is sent to the server.
-- utils.js is loaded after form_submit_utils.js, whose placeholder `sha256` it replaces.
pub mod Hex
pub mod Hash
pub mod Bodies
pub mod Frame
pub mod Session
use signup_daemon.Prelude.{
  ℕ, ◌≡◌, Bool, true, false, not, ◌&&◌, ◌||◌, Option, none, some, List, [], ◌∷◌, ◌++◌, leb, ◌==◌,
  codes, if◌then◌else◌, length, all,
}
use mathlib.Core.Option
use signup_daemon.Js.Strings.{Text, text_eq, is_empty, to_string, pad_start}
use signup_daemon.Js.Regex.{Class, at_least, at_end, test_start}
use signup_daemon.Js.Json.{
  Json, null, bool, num, real, str, arr, obj, get_field, Scalar, number, text, nothing, stringify,
}
use signup_daemon.Js.Utf8.{encode_utf8}
use signup_daemon.Messages.{Site, signup, login, Messages}
use signup_daemon.Page.{Page, show, release}
use signup_daemon.Argon2.{argon2_calc}
use signup_daemon.App.{World, App, current_messages, on_page}

-- `[0-9a-f]`
abbrev pub is_hex : Class
is_hex c = (leb b'0' c && leb c b'9') || (leb b'a' c && leb c b'f')

-- `[0-9a-f]` under the flag `i`
abbrev pub is_hex_i : Class
is_hex_i c = is_hex c || (leb b'A' c && leb c b'F')

-- `/^[0-9a-f]+$/`
unfoldable pub is_hex_text : Text → Bool
unfolding test_start
is_hex_text s = test_start (at_least 1 is_hex ∷ at_end ∷ []) s

-- The same under the flag `i`.
unfoldable pub is_hex_text_i : Text → Bool
unfolding test_start
is_hex_text_i s = test_start (at_least 1 is_hex_i ∷ at_end ∷ []) s

-- `jsonSrc.ver !== 1` is false.
abbrev is_version_1 : Option Json → Bool
is_version_1 none = false
is_version_1 (some (num n)) = n == 1
is_version_1 (some _) = false

abbrev valid_hex : ℕ → Option Json → Option Text
valid_hex len none = none
valid_hex len (some (str sess)) =
    if is_empty sess || not (length sess == len) || not (is_hex_text sess) then none else some sess
valid_hex len (some _) = none

-- `jsonGetHexLen`: an array is an object without the members, and no other value has any.
unfoldable pub json_get_hex_len : Json → Text → ℕ → Option Text
unfolding is_hex_text
json_get_hex_len (obj members) name len =
    if is_version_1 (get_field (codes "ver") members)
    then valid_hex len (get_field name members)
    else none
json_get_hex_len _ name len = none

-- `jsonGetHex32`
abbrev pub json_get_hex32 : Json → Text → Option Text
json_get_hex32 json name = json_get_hex_len json name 32

-- `hashArray.map(b => b.toString(16).padStart(2, "0")).join("")`
unfoldable pub hex_bytes : List ℕ → Text
unfolding to_string
hex_bytes [] = []
hex_bytes (b ∷ bs) = pad_start 2 b'0' (to_string 16 b) ++ hex_bytes bs

unfoldable pub sha256 : World → Text → Option Text
unfolding encode_utf8 hex_bytes
sha256 world s = Option.map hex_bytes (world.digest (encode_utf8 s))

-- The checks of the hash; `true` when it passes all of them.
unfoldable pub is_hash : Text → Bool
unfolding is_hex_text_i
is_hash hash = not (is_empty hash) && length hash == 64 && is_hex_text_i hash

-- `null`, `undefined` and the empty text count as no hash.
abbrev truthy : Option Text → Option Text
truthy none = none
truthy (some s) = if is_empty s then none else some s

abbrev checked_hash : Site → App → Option Text → Option Text × App
checked_hash site app none = (none, on_page (show (current_messages site app).invalid_password) app)
checked_hash site app (some hash) =
    if is_hash hash
    then (some hash, app)
    else (none, on_page (show (current_messages site app).invalid_password) app)

-- The hash of what `argon2_calc` returned.
abbrev hash_of_hash : World → Site → Option Text → App → Option Text × App
hash_of_hash world site none app =
    let msg = current_messages site app in
    (none, on_page (λ page. release msg (show msg.password_calc_failed page)) app)
hash_of_hash world site (some argon_hash) app = checked_hash site app (sha256 world argon_hash)

-- `calc_passHash_ArgonSha256`
unfoldable pub calc_pass_hash_argon_sha256 : World → Site → Text → App → Option Text × App
calc_pass_hash_argon_sha256 world site input app =
    let msg = current_messages site app in
    if not world.argon2_there
    then (none, on_page (λ page. release msg (show msg.password_module_not_loaded page)) app)
    else let (argon_hash, heap) =
        argon2_calc world.wasm app.wasm_loaded app.argon2_salt input app.heap in
      hash_of_hash world site (truthy argon_hash) (record app { heap = heap })

-- `${salt}` and the salt's text for the encoder: `null` is spelled out.
abbrev pub spelled : Option Text → Text
spelled none = codes "null"
spelled (some s) = s

abbrev pub scalar : Option Text → Scalar
scalar none = nothing
scalar (some s) = text s

-- `${salt}:${name}:${secret}`
abbrev pub argon_input : Option Text → Text → Text → Text
argon_input salt name secret = spelled salt ++ b':' ∷ name ++ b':' ∷ secret

abbrev hash_with : World → Site → Option Text → Text → App → Option Text × App
hash_with world site salt secret app =
    calc_pass_hash_argon_sha256 world site (argon_input salt app.real_username secret)
      (record app { argon2_salt = some (spelled salt) })

abbrev pub pass_json : Text → Option Text → Text → Text → Text
pass_json salt_name salt name hash = stringify (
    (codes "ver", number 1)
    ∷ (codes "username", text name)
    ∷ (salt_name, scalar salt)
    ∷ (codes "passwd", text hash)
    ∷ [])

abbrev signup_json : Option Text → Option Text × App → Option Text × App
signup_json salt (none, app) = (none, app)
signup_json salt (some hash, app) =
    (some (pass_json (codes "signup_salt") salt app.real_username hash), app)

abbrev login_json : Option Text → Option Text × App → Option Text × App
login_json salt (none, app) = (none, app)
login_json salt (some hash, app) =
    (some (pass_json (codes "login_salt") salt app.real_username hash), app)

-- The second round of the login page, over the first hash and the session.
abbrev second_round : World → Json → Option Text × App → Option Text × App
second_round world json (none, app) = (none, app)
second_round world json (some hash1, app) =
    let salt2 = json_get_hex32 json (codes "login_sess") in
    login_json salt2 (hash_with world login salt2 hash1 app)

-- `calc_passHash`: the body to post. The test for another `funcName` is not reached on the sites.
unfoldable pub calc_pass_hash : World → Site → Json → App → Option Text × App
calc_pass_hash world signup json app =
    let salt1 = json_get_hex32 json (codes "signup_sess") in
    signup_json salt1 (hash_with world signup salt1 app.real_password app)
calc_pass_hash world login json app =
    let salt1 = json_get_hex32 json (codes "login_salt") in
    second_round world json (hash_with world login salt1 app.real_password app)
