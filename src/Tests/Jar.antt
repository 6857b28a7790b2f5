-- ===== src/Tests/Jar.antt =====
-- A list of two cookies.
use signup_daemon.Prelude.{◌≡◌, refl, some, List, [], ◌∷◌, codes}
use signup_daemon.Cookies.{get_cookie_by_name}
use signup_daemon.Cookies.Lookup.{Cookie, print_cookies, get_cookie_by_name-print_cookies}

abbrev jar : List Cookie
jar =
    record { name = codes "lang"; value = codes "ca" }
    ∷ record { name = codes "MD5"; value = codes "0a1b2c" }
    ∷ []

printed : print_cookies jar ≡ codes "lang=ca; MD5=0a1b2c"
unfolding print_cookies
printed = refl

get_cookie_by_name-print_cookies_example :
    get_cookie_by_name (print_cookies jar) (codes "MD5") ≡ some (codes "0a1b2c")
get_cookie_by_name-print_cookies_example =
    get_cookie_by_name-print_cookies jar (codes "MD5") (refl, refl, (refl, refl, tt))
