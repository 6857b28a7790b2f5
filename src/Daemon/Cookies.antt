-- ===== src/Daemon/Cookies.antt =====
-- src/cookie_extract.c: the value of a cookie in the text of a request.
use signup_daemon.Prelude.{
  ℕ, zero, suc, ◌-◌, ◌<◌, ◌≡◌, refl, Bool, true, false, not, ◌&&◌, ◌||◌, Option, none, some, List,
  [], ◌∷◌, ◌++◌, codes, leb, ◌==◌, if◌then◌else◌, length, drop, all, arith, subst, Bool-cases, inl,
  inr,
}
use signup_daemon.Js.Strings.{Text, is_empty, strip_prefix}
use signup_daemon.Daemon.Guards.{lowered}
use signup_daemon.Daemon.Redis.Actions.{Result, ok, err}

-- `memmem(…, "\r\n\r\n", 4)`: what stands in front of the empty line
abbrev pub header_of : Text → Option Text
header_of [] = none
header_of (c ∷ s) =
    let rest = header_of s in
    elim (strip_prefix (13 ∷ 10 ∷ 13 ∷ 10 ∷ []) (c ∷ s)) [
      | some after ↦ some []
      | none ↦ elim rest [ none ↦ none | some front ↦ some (c ∷ front) ]
    ]

-- `strtok(…, "\r\n")`: the lines that are not empty; the first argument is the line so far.
abbrev add_line : Text → List Text → List Text
add_line line lines = if is_empty line then lines else line ∷ lines

abbrev pub lines_from : Text → Text → List Text
lines_from line [] = add_line line []
lines_from line (c ∷ s) =
    let next = lines_from (line ++ c ∷ []) s in
    let fresh = lines_from [] s in if c == 13 || c == 10 then add_line line fresh else next

-- `; \r\n`
abbrev pub in_value : ℕ → Bool
in_value c = not (c == b';' || c == b' ' || c == 13 || c == 10)

-- `strpbrk`: the part of a text in front of such a character
abbrev pub value_part : Text → Text
value_part [] = []
value_part (c ∷ s) = let rest = value_part s in if in_value c then c ∷ rest else []

abbrev pub skip_spaces : Text → Text
skip_spaces [] = []
skip_spaces (c ∷ s) = let rest = skip_spaces s in if c == b' ' then rest else c ∷ s

-- What follows "name=".
abbrev pub assigned : Text → Text → Option Text
assigned name s = strip_prefix (name ++ b'=' ∷ []) s

abbrev pub is_there : Option Text → Bool
is_there none = false
is_there (some s) = true

-- The loop over `strstr`: the characters to pass over, the character in front (a space at the start) and
-- the rest of the line. `some` is the text at the value.
unfoldable pub find_value : Text → ℕ → ℕ → Text → Option Text
find_value name skip before [] = none
find_value name (suc skip) before (c ∷ s) = find_value name skip c s
find_value name zero before (c ∷ s) =
    let onward = find_value name 0 c s in
    let beyond = find_value name (length name - 1) c s in
    if is_there (strip_prefix name (c ∷ s))
    then (if (before == b' ' || before == b';') && is_there (assigned name (c ∷ s))
        then assigned name (c ∷ s)
        else beyond)
    else onward

-- The copy, which fits the buffer with its terminator.
abbrev pub copy_unless : Bool → Text → Result ℕ Text
copy_unless true v = err 125005
copy_unless false v = ok v

unfoldable pub copy : ℕ → Text → Result ℕ Text
copy size s = copy_unless (leb size (length (value_part s))) (value_part s)

abbrev pub is_cookie_line : Text → Option Text
is_cookie_line line = strip_prefix (codes "cookie:") (lowered line)

abbrev pub in_line : Text → Text → Option Text
in_line name line =
    if is_there (is_cookie_line line)
    then find_value name 0 b' ' (skip_spaces (drop 7 line))
    else none

abbrev pub found_or : ℕ → Result ℕ Text → Option Text → Result ℕ Text
found_or size later none = later
found_or size later (some s) = copy size s

unfoldable pub in_lines : Text → ℕ → List Text → Result ℕ Text
unfolding find_value copy
in_lines name size [] = err 125009
in_lines name size (line ∷ lines) = found_or size (in_lines name size lines) (in_line name line)

abbrev pub in_header : Text → ℕ → Option Text → Result ℕ Text
in_header name size none = err 125003
in_header name size (some header) = in_lines name size (lines_from [] header)

-- `cookie_extract` on pointers that are not null and a buffer of two bytes or more
unfoldable pub cookie_extract : Text → ℕ → Text → Result ℕ Text
unfolding in_lines
cookie_extract buffer size name = in_header name size (header_of buffer)

value_part-in_value : (s : Text) → all in_value (value_part s) ≡ true
value_part-in_value [] = refl
value_part-in_value (c ∷ s) = elim (Bool-cases (in_value c)) [
  | inl inside ↦ rw (inside, inside) (value_part-in_value s)
  | inr ends ↦ rw ends
]

-- A value that the buffer of this size holds, with the terminator.
abbrev pub Fits : ℕ → Text → Type 0
Fits size v = (length v < size) × (all in_value v ≡ true)

copy_unless-Fits :
    (size : ℕ) (large : Bool) (s : Text) {v : Text}
    → leb size (length (value_part s)) ≡ large
    → copy_unless large (value_part s) ≡ ok v
    → Fits size v
copy_unless-Fits size true s e h = cc
copy_unless-Fits size false s {v} e h =
    let same : value_part s ≡ v = cc in
    subst (Fits size) same ((ground arith, value_part-in_value s))

copy-Fits : (size : ℕ) (s : Text) {v : Text} → copy size s ≡ ok v → Fits size v
unfolding copy
copy-Fits size s h = copy_unless-Fits size _ s refl h

found_or-Fits :
    (size : ℕ) (later : Result ℕ Text) (o : Option Text) {v : Text}
    → (later ≡ ok v → Fits size v)
    → found_or size later o ≡ ok v
    → Fits size v
found_or-Fits size later none rest h = rest h
found_or-Fits size later (some s) rest h = copy-Fits size s h

in_lines-Fits :
    (name : Text) (size : ℕ) (lines : List Text) {v : Text}
    → in_lines name size lines ≡ ok v
    → Fits size v
unfolding in_lines
in_lines-Fits name size [] h = cc
in_lines-Fits name size (line ∷ lines) h =
    found_or-Fits size (in_lines name size lines) (in_line name line)
      (in_lines-Fits name size lines) h

in_header-Fits :
    (name : Text) (size : ℕ) (header : Option Text) {v : Text}
    → in_header name size header ≡ ok v
    → Fits size v
in_header-Fits name size none h = cc
in_header-Fits name size (some header) h = in_lines-Fits name size (lines_from [] header) h

-- Whatever the request holds, a cookie that is found fits the buffer with its terminator, and no
-- semicolon, space or line end is in it.
pub cookie_extract-Fits :
    (buffer : Text) (size : ℕ) (name : Text) {v : Text}
    → cookie_extract buffer size name ≡ ok v
    → Fits size v
unfolding cookie_extract
cookie_extract-Fits buffer size name h = in_header-Fits name size (header_of buffer) h
