-- ===== src/Daemon/Guards.antt =====
-- src/http_utils.c: what the daemon lets through as a user name, a hash and a salt. The classes of
-- <ctype.h> are those of the C locale.
use signup_daemon.Prelude.{
  ℕ, zero, suc, ◌+◌, ◌-◌, ◌≡◌, refl, ◌∙◌, sym, Bool, true, false, not, ◌&&◌, ◌||◌, Option, none,
  some, [], ◌∷◌, ◌++◌, ◌↔◌, append-nil, append_assoc, arith, leb, ltb, ◌==◌, if◌then◌else◌, length,
  all, ==_iff,
}
use signup_daemon.Js.Strings.{Text}

abbrev pub is_c_digit : ℕ → Bool
is_c_digit c = leb b'0' c && leb c b'9'

abbrev pub is_alpha : ℕ → Bool
is_alpha c = (leb b'a' c && leb c b'z') || (leb b'A' c && leb c b'Z')

abbrev pub is_alnum : ℕ → Bool
is_alnum c = is_alpha c || is_c_digit c

-- `tolower`, and the loop that applies it to a string
abbrev pub to_lower : ℕ → ℕ
to_lower c = if leb b'A' c && leb c b'Z' then c + 32 else c

abbrev pub lowered : Text → Text
lowered [] = []
lowered (c ∷ s) = to_lower c ∷ lowered s

-- `s[i]` up to and with the terminator
abbrev pub char_at : Text → ℕ → ℕ
char_at [] i = 0
char_at (c ∷ s) zero = c
char_at (c ∷ s) (suc i) = char_at s i

-- `for (; …; i++) if (!test(s[i])) return false;` with the rounds that are left, then `true`
unfoldable pub all_from : (ℕ → Bool) → Text → ℕ → ℕ → Bool
all_from test s zero i = true
all_from test s (suc rounds) i =
    let rest = all_from test s rounds (i + 1) in if test (char_at s i) then rest else false

abbrev pub is_middle : ℕ → Bool
is_middle c = is_alnum c || c == b'-' || c == b'_'

unfoldable pub validate_username : Option Text → Bool
unfolding all_from
validate_username none = false
validate_username (some username) =
    let n = length username in
    if ltb n 8 || ltb 20 n
    then false
    else if not (is_alpha (char_at username 0)) || not (is_alnum (char_at username (n - 1)))
    then false
    else all_from is_middle username (n - 2) 1

abbrev pub is_low_hex : ℕ → Bool
is_low_hex c = is_c_digit c || (leb b'a' c && leb c b'f')

abbrev is_zero : ℕ → Bool
is_zero c = c == b'0'

-- The common text of `validate_passwd` and `validate_signup_salt`; the second loop leaves at the
-- first character that is not a zero.
unfoldable pub validate_hex : ℕ → Option Text → Bool
unfolding all_from
validate_hex len none = false
validate_hex len (some s) =
    if not (length s == len)
    then false
    else if not (all_from is_low_hex s len 0)
    then false
    else not (all_from is_zero s len 0)

abbrev pub validate_passwd : Option Text → Bool
validate_passwd = validate_hex 64

abbrev pub validate_signup_salt : Option Text → Bool
validate_signup_salt = validate_hex 32

-- src/string_check_a2f_0to9.c
unfoldable pub string_check_a2f_0to9 : Option Text → ℕ → Bool
unfolding all_from
string_check_a2f_0to9 none len = false
string_check_a2f_0to9 (some buf) len =
    if not (length buf == len) then false else all_from is_low_hex buf len 0

pub char_at-append : (pre post : Text) (c : ℕ) → char_at (pre ++ (c ∷ post)) (length pre) ≡ c
char_at-append [] post c = refl
char_at-append (x ∷ pre) post c = char_at-append pre post c

length_snoc : (pre : Text) (c : ℕ) → length (pre ++ c ∷ []) ≡ length pre + 1
length_snoc [] c = refl
length_snoc (x ∷ pre) c = omega (arith, length_snoc pre c)

snoc_append : (pre rest : Text) (c : ℕ) → (pre ++ c ∷ []) ++ rest ≡ pre ++ (c ∷ rest)
snoc_append pre rest c = append_assoc pre (c ∷ []) rest

all_from-suc :
    (test : ℕ → Bool) (s : Text) (rounds i : ℕ)
    → all_from test s (suc rounds) i ≡ (test (char_at s i) && all_from test s rounds (i + 1))
unfolding all_from
all_from-suc test s rounds i = ground arith

-- The loop over a part of a string tests the characters of that part.
pub all_from-all :
    (test : ℕ → Bool) (pre part post : Text)
    → all_from test (pre ++ (part ++ post)) (length part) (length pre) ≡ all test part
unfolding all_from
all_from-all test pre [] post = refl
all_from-all test pre (c ∷ part) post =
    let later : all_from test (pre ++ c ∷ (part ++ post)) (length part) (length pre + 1)
        ≡ all test part =
      rw (snoc_append pre (part ++ post) c, length_snoc pre c) at
        (all_from-all test (pre ++ c ∷ []) part post) in
    all_from-suc test (pre ++ c ∷ (part ++ post)) (length part) (length pre)
    ∙ rw (char_at-append pre (part ++ post) c, later)

-- The texts that a test for hexadecimal digits lets through.
pub record IsField (len : ℕ) (s : Text) : Type 0 where
  pub size : length s ≡ len
  pub digits : all is_low_hex s ≡ true
  pub some_digit : all is_zero s ≡ false

whole : (test : ℕ → Bool) (s : Text) → all_from test s (length s) 0 ≡ all test s
whole test s = rw (append-nil s) at (all_from-all test [] s [])

-- `validate_passwd` and `validate_signup_salt` pass exactly the texts of 64 and of 32 digits in lower
-- case that are not all zero.
pub validate_hex_iff : (len : ℕ) (s : Text) → (validate_hex len (some s) ≡ true) ↔ IsField len s
unfolding validate_hex
validate_hex_iff len s = (forth, back)
  where
    back : IsField len s → validate_hex len (some s) ≡ true
    back f = rw (
      ← f.size,
      (==_iff (length s) (length s)).1 refl,
      whole is_low_hex s,
      f.digits,
      whole is_zero s,
      f.some_digit,
    )

    forth : validate_hex len (some s) ≡ true → IsField len s
    forth h =
        let size : length s ≡ len = ground arith in
        let digits : all_from is_low_hex s len 0 ≡ true = ground arith in
        let some_digit : all_from is_zero s len 0 ≡ false = ground arith in
        record {
          size = size;
          digits = sym (whole is_low_hex s) ∙ rw size digits;
          some_digit = sym (whole is_zero s) ∙ rw size some_digit;
        }
