-- ===== src/Js/Strings.antt =====
-- Strings as lists of UTF-16 code units, with the methods of `String.prototype` that the pages
-- call: `===`, `split` at one character, `trim`, `replace` of a text by a text, `substring`,
-- `repeat`, `padStart`, and the text of a natural number.
pub mod Laws
use signup_daemon.Prelude.{
  ℕ, zero, suc, ◌+◌, ◌-◌, ◌/◌, ◌%◌, min, max, Bool, true, false, ◌&&◌, ◌||◌, Option, none, some,
  List, [], ◌∷◌, ◌++◌, leb, ltb, ◌==◌, if◌then◌else◌, length, take, drop, replicate, codes,
}

-- A string: its UTF-16 code units.
abbrev pub Text : Type 0
Text = List ℕ

-- `===`
abbrev pub text_eq : Text → Text → Bool
text_eq [] [] = true
text_eq [] (y ∷ t) = false
text_eq (x ∷ s) [] = false
text_eq (x ∷ s) (y ∷ t) = x == y && text_eq s t

abbrev pub is_empty : Text → Bool
is_empty [] = true
is_empty (x ∷ s) = false

abbrev push_front : ℕ → List Text → List Text
push_front x [] = (x ∷ []) ∷ []
push_front x (t ∷ ts) = (x ∷ t) ∷ ts

-- `split` at a separator of one character
unfoldable pub split_at : ℕ → Text → List Text
split_at c [] = [] ∷ []
split_at c (x ∷ s) = let rest = split_at c s in if x == c then [] ∷ rest else push_front x rest

-- The white space and the line terminators that `trim` removes.
abbrev pub is_space : ℕ → Bool
is_space c =
    (leb 9 c && leb c 13)
    || c == 0x20
    || c == 0xa0
    || c == 0x1680
    || (leb 0x2000 c && leb c 0x200a)
    || c == 0x2028
    || c == 0x2029
    || c == 0x202f
    || c == 0x205f
    || c == 0x3000
    || c == 0xfeff

pub trim_start : Text → Text
trim_start [] = []
trim_start (x ∷ s) = let rest = trim_start s in if is_space x then rest else x ∷ s

pub trim_end : Text → Text
trim_end [] = []
trim_end (x ∷ s) = let rest = trim_end s in if is_space x && is_empty rest then [] else x ∷ rest

unfoldable pub trim : Text → Text
unfolding trim_start trim_end
trim s = trim_end (trim_start s)

-- What follows a prefix.
abbrev pub strip_prefix : Text → Text → Option Text
strip_prefix [] s = some s
strip_prefix (x ∷ p) [] = none
strip_prefix (x ∷ p) (y ∷ s) = if x == y then strip_prefix p s else none

-- The replacement text with `$$`, `$&`, `` $` `` and `$'` filled in.
pub expand : Text → Text → Text → Text → Text
expand pre found post [] = []
expand pre found post (c ∷ []) = c ∷ []
expand pre found post (c ∷ d ∷ t) =
    let after_two = expand pre found post t in
    let after_one = expand pre found post (d ∷ t) in
    if c == b'$'
    then (if d == b'$'
        then b'$' ∷ after_two
        else if d == b'&'
        then found ++ after_two
        else if d == 0x60
        then pre ++ after_two
        else if d == 0x27
        then post ++ after_two
        else c ∷ after_one)
    else c ∷ after_one

replace_from : Text → Text → Text → Text → Text
unfolding expand
replace_from pre found by [] = []
replace_from pre found by (x ∷ s) =
    let later = x ∷ replace_from (pre ++ x ∷ []) found by s in
    elim (strip_prefix found (x ∷ s)) [
      | none ↦ later
      | some post ↦ expand pre found post by ++ post
    ]

-- `s.replace(found, by)`: the first occurrence of a text that is not empty
unfoldable pub replace : Text → Text → Text → Text
unfolding replace_from
replace s found by = replace_from [] found by s

-- `substring(a)` and `substring(a, b)` for a ≤ b, both clamped to the length
abbrev pub substring_from : Text → ℕ → Text
substring_from s a = drop a s

abbrev pub substring : Text → ℕ → ℕ → Text
substring s a b = drop a (take b s)

-- `padStart(n, c)`
abbrev pub pad_start : ℕ → ℕ → Text → Text
pad_start n c s = replicate (n - length s) c ++ s

abbrev pub digit_char : ℕ → ℕ
digit_char d = if ltb d 10 then 48 + d else 87 + d

-- The digits in front of `acc`. Each round divides by the radix, so n + 1 rounds are enough.
unfoldable pub digits : ℕ → ℕ → ℕ → Text → Text
digits zero radix n acc = acc
digits (suc fuel) radix n acc =
    let more = digits fuel radix (n / radix) (digit_char (n % radix) ∷ acc) in
    if ltb n radix then digit_char n ∷ acc else more

-- `n.toString(radix)`
unfoldable pub to_string : ℕ → ℕ → Text
unfolding digits
to_string radix n = digits (suc n) radix n []

-- `${n}`
abbrev pub decimal : ℕ → Text
decimal n = to_string 10 n
