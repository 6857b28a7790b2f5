-- ===== src/Validators.antt =====
-- signup_html/validators.js: what a user name and a password must look like in the form. The file
-- is loaded after form_submit_validation.js, whose placeholders of the same names it replaces.
pub mod Username
pub mod Repeats
pub mod Sequences
pub mod Chars
use signup_daemon.Prelude.{
  ℕ, zero, suc, ◌+◌, ◌-◌, Bool, true, false, not, ◌&&◌, ◌||◌, Option, none, some, List, [], ◌∷◌,
  leb, ◌==◌, if◌then◌else◌, length, get_elem?,
}
use signup_daemon.Js.Strings.{Text}
use signup_daemon.Js.Regex.{
  Class, Piece, one, at_least, between, group, again, at_end, test_start, test,
}

abbrev pub is_lower : Class
is_lower c = leb b'a' c && leb c b'z'

abbrev pub is_digit : Class
is_digit c = leb b'0' c && leb c b'9'

-- `[a-z0-9]`
abbrev pub is_lower_or_digit : Class
is_lower_or_digit c = is_lower c || is_digit c

-- `[a-z0-9\-_]`
abbrev pub is_name_char : Class
is_name_char c = is_lower c || is_digit c || (c == b'-') || (c == b'_')

-- `.`: all but the line terminators
abbrev pub is_dot : Class
is_dot c = not ((c == 10) || (c == 13) || (c == 0x2028) || (c == 0x2029))

-- `[\x20-\x7D]`
abbrev pub is_password_char : Class
is_password_char c = leb 0x20 c && leb c 0x7D

-- `/^[a-z][a-z0-9\-_]*[a-z0-9]$/`
abbrev format_regex : List Piece
format_regex = one is_lower ∷ at_least 0 is_name_char ∷ one is_lower_or_digit ∷ at_end ∷ []

-- `/^.{8,20}$/`
abbrev length_regex : List Piece
length_regex = between 8 20 is_dot ∷ at_end ∷ []

unfoldable pub is_valid_username : Text → Bool × Bool
unfolding test_start
is_valid_username username = (test_start format_regex username, test_start length_regex username)

unfoldable pub is_valid_password_chars : Text → Bool
unfolding test_start
is_valid_password_chars password = test_start (at_least 1 is_password_char ∷ at_end ∷ []) password

-- `/(.)\1{3,}/`
unfoldable pub has_repeating_chars : Text → Bool
unfolding test
has_repeating_chars password = test (group is_dot ∷ again 3 ∷ []) password

-- `x === y + k` for two results of `charCodeAt`, which is NaN out of range
abbrev is_above : Option ℕ → Option ℕ → ℕ → Bool
is_above none y k = false
is_above (some a) none k = false
is_above (some a) (some b) k = a == b + k

-- The tests of the two loops at `i`; `x === y - k` is the same as `y === x + k`.
ascends : Text → ℕ → Bool
ascends s i =
    is_above (get_elem? s (i + 1)) (get_elem? s i) 1
    && is_above (get_elem? s (i + 2)) (get_elem? s i) 2
    && is_above (get_elem? s (i + 3)) (get_elem? s i) 3

descends : Text → ℕ → Bool
descends s i =
    is_above (get_elem? s i) (get_elem? s (i + 1)) 1
    && is_above (get_elem? s i) (get_elem? s (i + 2)) 2
    && is_above (get_elem? s i) (get_elem? s (i + 3)) 3

-- `for (…; i < …; i++) if (test(i)) return true;`, with the rounds that are left
any_from : (ℕ → Bool) → ℕ → ℕ → Bool
any_from test zero i = false
any_from test (suc rounds) i =
    let rest = any_from test rounds (i + 1) in if test i then true else rest

-- The bound `password.length - 3` may be negative, and then no round is made.
unfoldable pub has_sequential_chars : Text → Bool
unfolding any_from ascends descends
has_sequential_chars password =
    if any_from (ascends password) (length password - 3) 0
    then true
    else any_from (descends password) (length password - 3) 0
