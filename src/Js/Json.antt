-- ===== src/Js/Json.antt =====
-- JSON values as `JSON.parse` returns them, and `JSON.stringify` of an object with number and
-- string members.
pub mod Read
pub mod RoundTrip
use signup_daemon.Prelude.{
  ℕ, ◌/◌, ◌%◌, Bool, ◌||◌, ◌&&◌, Option, none, some, List, [], ◌∷◌, ◌++◌, codes, leb, ltb, ◌==◌,
  if◌then◌else◌,
}
use signup_daemon.Js.Strings.{Text, text_eq, digit_char, decimal, to_string}

mutual
  pub data Json : Type 0 where
    null : Json
    bool : Bool → Json
    -- a natural number
    num : ℕ → Json
    -- any other number, by its text
    real : Text → Json
    str : Text → Json
    arr : Items → Json
    obj : Fields → Json

  pub data Items : Type 0 where
    no_items : Items
    item : Json → Items → Items

  pub data Fields : Type 0 where
    no_fields : Fields
    field : Text → Json → Fields → Fields

-- `object[key]`; `none` is `undefined`
abbrev pub get_field : Text → Fields → Option Json
get_field key no_fields = none
get_field key (field k v rest) =
    let later = get_field key rest in if text_eq k key then some v else later

-- A value of the objects that the pages send.
pub data Scalar : Type 0 where
  number : ℕ → Scalar
  text : Text → Scalar
  nothing : Scalar

-- `\u00xx` and `\udxxx`
abbrev unicode_escape : ℕ → Text
unicode_escape c =
    codes "\\u"
    ++ digit_char (c / 4096 % 16)
      ∷ digit_char (c / 256 % 16)
      ∷ digit_char (c / 16 % 16)
      ∷ digit_char (c % 16)
      ∷ []

abbrev pub is_high : ℕ → Bool
is_high c = leb 0xd800 c && leb c 0xdbff

abbrev pub is_low : ℕ → Bool
is_low c = leb 0xdc00 c && leb c 0xdfff

-- One character that is no half of a surrogate pair.
pub quote_char : ℕ → Text
quote_char c =
    if c == b'"' || c == 0x5c
    then 0x5c ∷ c ∷ []
    else if c == 8
    then codes "\\b"
    else if c == 9
    then codes "\\t"
    else if c == 10
    then codes "\\n"
    else if c == 12
    then codes "\\f"
    else if c == 13
    then codes "\\r"
    else if ltb c 0x20 || is_high c || is_low c
    then unicode_escape c
    else c ∷ []

-- The characters between the quotes; a surrogate pair is kept, a lone surrogate is escaped.
pub quote_body : Text → Text
unfolding quote_char
quote_body [] = []
quote_body (c ∷ []) = quote_char c
quote_body (c ∷ d ∷ s) =
    let after_pair = quote_body s in
    let after_one = quote_body (d ∷ s) in
    if is_high c && is_low d then c ∷ d ∷ after_pair else quote_char c ++ after_one

pub quote : Text → Text
unfolding quote_body
quote s = b'"' ∷ quote_body s ++ b'"' ∷ []

stringify_scalar : Scalar → Text
unfolding quote to_string
stringify_scalar (number n) = decimal n
stringify_scalar (text s) = quote s
stringify_scalar nothing = codes "null"

stringify_members : List (Text × Scalar) → Text
unfolding stringify_scalar
stringify_members [] = []
stringify_members ((k, v) ∷ []) = quote k ++ b':' ∷ stringify_scalar v
stringify_members ((k, v) ∷ m ∷ ms) =
    quote k ++ b':' ∷ stringify_scalar v ++ b',' ∷ stringify_members (m ∷ ms)

-- `JSON.stringify` of an object, its members in order
unfoldable pub stringify : List (Text × Scalar) → Text
unfolding stringify_members
stringify ms = b'{' ∷ stringify_members ms ++ b'}' ∷ []

stringify_lines : List (Text × Scalar) → Text
unfolding stringify_scalar
stringify_lines [] = []
stringify_lines ((k, v) ∷ []) =
    codes "\n  " ++ quote k ++ codes ": " ++ stringify_scalar v ++ codes "\n"
stringify_lines ((k, v) ∷ m ∷ ms) =
    codes "\n  " ++ quote k ++ codes ": " ++ stringify_scalar v ++ b',' ∷ stringify_lines (m ∷ ms)

-- `JSON.stringify` of such an object with an indentation of two
unfoldable pub stringify_indented : List (Text × Scalar) → Text
unfolding stringify_lines
stringify_indented ms = b'{' ∷ stringify_lines ms ++ b'}' ∷ []
