-- ===== src/Daemon/RequestLine.antt =====
-- src/check_post_type_path.c: the kind of a request, by the last part of the path of its first line.
pub mod Reads
use signup_daemon.Prelude.{
  ℕ, Bool, true, false, ◌&&◌, ◌||◌, Option, none, some, [], ◌∷◌, codes, ltb, ◌==◌, if◌then◌else◌,
  length,
}
use signup_daemon.Js.Strings.{Text, is_empty, strip_prefix}
use signup_daemon.Daemon.{Kind, signup, login, admin, post_type_str}
use signup_daemon.Daemon.Cookies.{skip_spaces, is_there}

-- What the check gives: a kind, the code without its sign, or a loop whose bound, a `size_t`, has gone
-- below zero, so that it reads past what was received.
pub data Line : Type 0 where
  accepted : Kind → Line
  refused : ℕ → Line
  outside : Line

-- "HTTP/", in letters of both sizes
abbrev pub is_http : Text → Bool
is_http (c1 ∷ c2 ∷ c3 ∷ c4 ∷ c5 ∷ s) =
    (c1 == b'H' || c1 == b'h')
    && (c2 == b'T' || c2 == b't')
    && (c3 == b'T' || c3 == b't')
    && (c4 == b'P' || c4 == b'p')
    && c5 == b'/'
is_http s = false

abbrev behind : ℕ → Option Text → Option Text
behind c none = none
behind c (some s) = some (c ∷ s)

-- The search for the version: what stands in front of the first.
abbrev pub before_http : Text → Option Text
before_http [] = none
before_http (c ∷ s) =
    let later = before_http s in if is_http (c ∷ s) then some [] else behind c later

-- The steps back over the spaces at the end
abbrev pub without_spaces : Text → Text
without_spaces [] = []
without_spaces (c ∷ s) =
    let rest = without_spaces s in if c == b' ' && is_empty rest then [] else c ∷ rest

-- What follows the last slash; the first argument is what follows the last one so far.
abbrev pub last_from : Option Text → Text → Option Text
last_from found [] = found
last_from found (c ∷ s) =
    let here = last_from (some s) s in
    let later = last_from found s in if c == b'/' then here else later

-- `strncmp(last_part, postReqAhead[i], pattern_len) == 0`
abbrev pub starts_with : Kind → Text → Bool
starts_with kind s = is_there (strip_prefix (post_type_str kind) s)

abbrev pub kind_of_part : Option Text → Line
kind_of_part none = refused 1410041
kind_of_part (some part) =
    if starts_with signup part
    then accepted signup
    else if starts_with login part
    then accepted login
    else if starts_with admin part
    then accepted admin
    else refused 1410051

abbrev pub of_path : Option Text → Line
of_path none = refused 1410031
of_path (some path) = kind_of_part (last_from none (without_spaces path))

-- From the path on
abbrev pub from_path : Text → Line
from_path [] = refused 1410021
from_path (c ∷ s) =
    if c == b'/'
    then (if ltb (length (c ∷ s)) 4 then outside else of_path (before_http (c ∷ s)))
    else refused 1410021

abbrev pub after_method : Option Text → Line
after_method none = refused 1410011
after_method (some s) = from_path (skip_spaces s)

-- `check_post_type_path` on what was received
unfoldable pub check_post_type_path : Text → Line
check_post_type_path buffer =
    if ltb (length buffer) 8
    then refused 1410001
    else after_method (strip_prefix (codes "POST") buffer)
