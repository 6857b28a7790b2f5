-- ===== src/Cookies.antt =====
-- signup_html/cookie_get.js: the look-up in `document.cookie`.
pub mod Lookup
use signup_daemon.Prelude.{
  not, Option, none, some, List, [], ◌∷◌, codes, ◌==◌, if◌then◌else◌, length,
}
use signup_daemon.Js.Strings.{Text, text_eq, is_empty, split_at, trim}

-- `const [cookieName, cookieValue] = …`; a value that is missing is `undefined`.
abbrev first_part : List Text → Text
first_part [] = []
first_part (t ∷ ts) = t

abbrev second_part : List Text → Option Text
second_part [] = none
second_part (t ∷ []) = none
second_part (t ∷ u ∷ ts) = some u

-- The loop over the cookies.
find_cookie : Text → List Text → Option Text
unfolding split_at trim
find_cookie name [] = none
find_cookie name (cookie ∷ rest) =
    let parts = split_at b'=' (trim cookie) in
    let later = find_cookie name rest in
    if text_eq (trim (first_part parts)) name then second_part parts else later

-- `null` and `undefined` are both `none`, which the one caller does not tell apart.
unfoldable pub get_cookie_by_name : Text → Text → Option Text
unfolding find_cookie
get_cookie_by_name all_cookies name =
    if is_empty all_cookies then none else find_cookie name (split_at b';' all_cookies)

abbrev of_length_6 : Option Text → Option Text
of_length_6 none = none
of_length_6 (some md5) = if not (length md5 == 6) then none else some md5

unfoldable pub get_cookie_md5_6 : Text → Option Text
unfolding get_cookie_by_name
get_cookie_md5_6 all_cookies = of_length_6 (get_cookie_by_name all_cookies (codes "MD5"))
