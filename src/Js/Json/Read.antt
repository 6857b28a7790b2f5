-- ===== src/Js/Json/Read.antt =====
-- A reader of JSON objects whose values are numbers, texts and `null`, after RFC 8259 and written apart
-- from `stringify`: what a receiver makes of a body that the pages send.
use signup_daemon.Prelude.{
  ℕ, zero, suc, ◌+◌, ◌-◌, ◌*◌, Bool, ◌&&◌, ◌||◌, Option, none, some, List, [], ◌∷◌, leb, ltb, ◌==◌,
  codes, if◌then◌else◌, length,
}
use mathlib.Core.Option
use signup_daemon.Js.Strings.{Text, strip_prefix}
use signup_daemon.Js.Json.{Scalar, number, text, nothing}

-- Inside a text: at a character, after a backslash, or in the digits of `\u`, with the number of
-- digits that follow this one and the value so far.
pub data Mode : Type 0 where
  plain escaped : Mode
  hex : (more : ℕ) → (value : ℕ) → Mode

abbrev pub push : ℕ → Option (Text × Text) → Option (Text × Text)
push c none = none
push c (some (s, rest)) = some (c ∷ s, rest)

abbrev pub hex_value : ℕ → Option ℕ
hex_value c =
    if leb b'0' c && leb c b'9'
    then some (c - 48)
    else if leb b'a' c && leb c b'f'
    then some (c - 87)
    else if leb b'A' c && leb c b'F'
    then some (c - 55)
    else none

abbrev pub unescape : ℕ → Option ℕ
unescape c =
    if c == b'"' || c == 0x5c || c == b'/'
    then some c
    else if c == b'b'
    then some 8
    else if c == b't'
    then some 9
    else if c == b'n'
    then some 10
    else if c == b'f'
    then some 12
    else if c == b'r'
    then some 13
    else none

abbrev with_value : Option ℕ → (ℕ → Option (Text × Text)) → Option (Text × Text)
with_value none k = none
with_value (some v) k = k v

-- The rest of a text, up to the closing quote, and what follows.
unfoldable pub read_text : Mode → Text → Option (Text × Text)
read_text m [] = none
read_text plain (c ∷ s) =
    let after_backslash = read_text escaped s in
    let later = push c (read_text plain s) in
    if c == b'"'
    then some ([], s)
    else if c == 0x5c
    then after_backslash
    else if ltb c 0x20
    then none
    else later
read_text escaped (c ∷ s) =
    let unicode = read_text (hex 3 0) s in
    let later = read_text plain s in
    if c == b'u' then unicode else with_value (unescape c) (λ e. push e later)
read_text (hex zero v) (c ∷ s) =
    with_value (hex_value c) (λ d. push (v * 16 + d) (read_text plain s))
read_text (hex (suc n) v) (c ∷ s) = with_value (hex_value c) (λ d. read_text (hex n (v * 16 + d)) s)

abbrev pub is_decimal : ℕ → Bool
is_decimal c = leb b'0' c && leb c b'9'

-- The digits of a number, behind those that were read.
unfoldable pub read_number : ℕ → Text → ℕ × Text
read_number v [] = (v, [])
read_number v (c ∷ s) =
    let more = read_number (v * 10 + (c - 48)) s in if is_decimal c then more else (v, c ∷ s)

-- One character that must follow.
abbrev pub expect : ℕ → Text → Option Text
expect c [] = none
expect c (x ∷ s) = if x == c then some s else none

abbrev as_text : Option (Text × Text) → Option (Scalar × Text)
as_text none = none
as_text (some (s, rest)) = some (text s, rest)

abbrev as_number : ℕ × Text → Scalar × Text
as_number (n, rest) = (number n, rest)

abbrev as_nothing : Option Text → Option (Scalar × Text)
as_nothing none = none
as_nothing (some rest) = some (nothing, rest)

unfoldable pub read_scalar : Text → Option (Scalar × Text)
unfolding read_text read_number
read_scalar [] = none
read_scalar (c ∷ s) =
    if c == b'"'
    then as_text (read_text plain s)
    else if is_decimal c
    then some (as_number (read_number 0 (c ∷ s)))
    else as_nothing (strip_prefix (codes "null") (c ∷ s))

abbrev pub Members : Type 0
Members = List (Text × Scalar)

-- A name, a colon and a value.
unfoldable pub read_member : Text → Option ((Text × Scalar) × Text)
unfolding read_text read_scalar
read_member t = Option.bind (expect b'"' t) λ t1. Option.bind (read_text plain t1) λ (k, t2).
    Option.bind (expect b':' t2) λ t3. Option.bind (read_scalar t3) λ (v, t4). some ((k, v), t4)

-- The members up to the closing brace; the fuel bounds their number.
unfoldable pub read_members : ℕ → Text → Option (Members × Text)
unfolding read_member
read_members zero t = none
read_members (suc fuel) t = Option.bind (read_member t) λ (m, rest).
    let more =
      Option.bind (expect b',' rest)
        λ rest'. Option.bind (read_members fuel rest') λ (ms, end). some (m ∷ ms, end) in
    let last = Option.bind (expect b'}' rest) λ end. some (m ∷ [], end) in
    elim (expect b',' rest) [ none ↦ last | some _ ↦ more ]

abbrev ends : Members × Text → Option Members
ends (ms, []) = some ms
ends (ms, c ∷ s) = none

-- A whole object, with one member at least. A text has more characters than an object has members.
unfoldable pub read_object : Text → Option Members
unfolding read_members
read_object t = Option.bind (expect b'{' t) λ t1. Option.bind (read_members (length t1) t1) ends
