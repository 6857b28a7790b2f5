-- ===== src/Js/Json/RoundTrip.antt =====
-- What `stringify` prints is read back.
use signup_daemon.Prelude.{
  ℕ, zero, suc, ◌+◌, ◌-◌, ◌*◌, ◌/◌, ◌%◌, ◌≤◌, ◌<◌, ◌≡◌, inl, inr, refl, ◌∙◌, ap, true, false, ◌&&◌,
  ◌||◌, some, [], ◌∷◌, ◌++◌, append_assoc, ltb, ◌==◌, ==_iff, if◌then◌else◌, length, arith,
  Bool-cases, length-append,
}
use mathlib.Core.Option
use signup_daemon.Js.Strings.{Text, digit_char, digits, to_string, decimal}
use signup_daemon.Js.Json.{
  Scalar, number, text, nothing, is_high, is_low, unicode_escape, quote_char, quote_body, quote,
  stringify_scalar, stringify_members, stringify,
}
use signup_daemon.Js.Json.Read.{
  plain, push, hex_value, read_text, is_decimal, read_number, read_scalar, Members, read_member,
  read_members, read_object,
}

hex_value-digit_char : (d : ℕ) → d < 16 → hex_value (digit_char d) ≡ some d
hex_value-digit_char d h = ground arith

-- Four hexadecimal digits give the value back.
four_digits :
    (c : ℕ)
    → c < 65536
    → (((0 * 16 + c / 4096 % 16) * 16 + c / 256 % 16) * 16 + c / 16 % 16) * 16 + c % 16 ≡ c
four_digits c h = omega arith

read_text-unicode_escape :
    (c : ℕ) (t : Text)
    → c < 65536
    → read_text plain (unicode_escape c ++ t) ≡ push c (read_text plain t)
unfolding read_text
read_text-unicode_escape c t h =
    rw
      (
        hex_value-digit_char (c / 4096 % 16) (omega arith),
        hex_value-digit_char (c / 256 % 16) (omega arith),
        hex_value-digit_char (c / 16 % 16) (omega arith),
        hex_value-digit_char (c % 16) (omega arith),
        four_digits c h,
      )
      refl

-- A character that stands for itself.
read_text_self :
    (c : ℕ) (t : Text)
    → (c == b'"') ≡ false
    → (c == 0x5c) ≡ false
    → ltb c 0x20 ≡ false
    → read_text plain (c ∷ t) ≡ push c (read_text plain t)
unfolding read_text
read_text_self c t q b l = rw (q, b, l) refl

abbrev Reads : ℕ → Text → Type 0
Reads c t = read_text plain (quote_char c ++ t) ≡ push c (read_text plain t)

-- At a character with an escape of its own.
at_literal : (c k : ℕ) (t : Text) → Reads k t → (c == k) ≡ true → Reads c t
at_literal c k t r h = let e = (==_iff c k).0 h in rw e r

read_text-quote_char : (c : ℕ) (t : Text) → Reads c t
unfolding quote_char read_text
read_text-quote_char c t = elim (Bool-cases (c == b'"')) [
  | inl h ↦ at_literal c b'"' t refl h
  | inr q ↦ elim (Bool-cases (c == 0x5c)) [
    | inl h ↦ at_literal c 0x5c t refl h
    | inr b ↦ elim (Bool-cases (c == 8)) [
      | inl h ↦ at_literal c 8 t refl h
      | inr n8 ↦ elim (Bool-cases (c == 9)) [
        | inl h ↦ at_literal c 9 t refl h
        | inr n9 ↦ elim (Bool-cases (c == 10)) [
          | inl h ↦ at_literal c 10 t refl h
          | inr n10 ↦ elim (Bool-cases (c == 12)) [
            | inl h ↦ at_literal c 12 t refl h
            | inr n12 ↦ elim (Bool-cases (c == 13)) [
              | inl h ↦ at_literal c 13 t refl h
              | inr n13 ↦ rw (q, b, n8, n9, n10, n12, n13) (rest q b)
            ]
          ]
        ]
      ]
    ]
  ]
]
  where
    rest :
        (c == b'"') ≡ false
        → (c == 0x5c) ≡ false
        → read_text plain
            ((if ltb c 0x20 || is_high c || is_low c then unicode_escape c else c ∷ []) ++ t)
          ≡ push c (read_text plain t)
    rest q b = elim (Bool-cases (ltb c 0x20 || is_high c || is_low c)) [
      | inl h ↦ let small : c < 65536 = ground arith in rw h (read_text-unicode_escape c t small)
      | inr h ↦ let above : ltb c 0x20 ≡ false = ground arith in rw h (read_text_self c t q b above)
    ]

read_text-pair :
    (c d : ℕ) (t : Text)
    → (is_high c && is_low d) ≡ true
    → read_text plain (c ∷ d ∷ t) ≡ push c (push d (read_text plain t))
read_text-pair c d t h =
    read_text_self c (d ∷ t) (ground arith) (ground arith) (ground arith)
    ∙ ap (push c) (read_text_self d t (ground arith) (ground arith) (ground arith))

read_text-quote_body : (s t : Text) → read_text plain (quote_body s ++ b'"' ∷ t) ≡ some (s, t)
unfolding quote_body read_text
read_text-quote_body [] t = refl
read_text-quote_body (c ∷ []) t = read_text-quote_char c (b'"' ∷ t)
read_text-quote_body (c ∷ d ∷ s) t = elim (Bool-cases (is_high c && is_low d)) [
  | inl pair ↦
      rw pair (read_text-pair c d _ pair ∙ ap (λ r. push c (push d r)) (read_text-quote_body s t))
  | inr alone ↦ rw alone (
      ap (read_text plain) (append_assoc (quote_char c) _ _)
      ∙ read_text-quote_char c _
      ∙ ap (push c) (read_text-quote_body (d ∷ s) t))
]

read_number-digits :
    (fuel n : ℕ) (acc t : Text)
    → n < fuel
    → read_number 0 (digits fuel 10 n acc ++ t) ≡ read_number n (acc ++ t)
unfolding digits read_number
read_number-digits zero n acc t h = absurd (omega arith)
read_number-digits (suc fuel) n acc t h = elim (Bool-cases (ltb n 10)) [
  | inl last ↦
      let digit : is_decimal (48 + n) ≡ true = ground arith in
      let value : 0 + (48 + n - 48) ≡ n = omega arith in rw last (rw (digit, value) refl)
  | inr more ↦
      let big : 10 ≤ n = ground arith in
      let digit : is_decimal (digit_char (n % 10)) ≡ true = ground arith in
      let value : n / 10 * 10 + (digit_char (n % 10) - 48) ≡ n = ground arith in
      rw more (
        read_number-digits fuel (n / 10) (digit_char (n % 10) ∷ acc) t (omega arith)
        ∙ rw (digit, value) refl)
]

pub read_number-decimal :
    (n c : ℕ) (t : Text) → is_decimal c ≡ false → read_number 0 (decimal n ++ c ∷ t) ≡ (n, c ∷ t)
unfolding to_string read_number
read_number-decimal n c t h = read_number-digits (suc n) n [] (c ∷ t) (omega arith) ∙ rw h refl

-- A numeral starts with a digit.
record StartsWithDigit (s : Text) : Type 0 where
  head : ℕ
  tail : Text
  shape : s ≡ head ∷ tail
  digit : is_decimal head ≡ true

digits-StartsWithDigit :
    (fuel n : ℕ) (acc : Text) → n < fuel → StartsWithDigit (digits fuel 10 n acc)
unfolding digits
digits-StartsWithDigit zero n acc h = absurd (omega arith)
digits-StartsWithDigit (suc fuel) n acc h = elim (Bool-cases (ltb n 10)) [
  | inl last ↦ rw last (record { head = 48 + n; tail = acc; shape = refl; digit = ground arith })
  | inr more ↦
      let big : 10 ≤ n = ground arith in
      rw more (digits-StartsWithDigit fuel (n / 10) (digit_char (n % 10) ∷ acc) (omega arith))
]

read_scalar-digit :
    (s rest : Text) (n : ℕ)
    → StartsWithDigit s
    → read_number 0 s ≡ (n, rest)
    → read_scalar s ≡ some (number n, rest)
unfolding read_scalar
read_scalar-digit s rest n d e =
    let digit = d.digit in
    let other : (d.head == b'"') ≡ false = ground arith in
    let read = rw d.shape at e in rw (d.shape, other, read, digit) refl

append-StartsWithDigit : (s t : Text) → StartsWithDigit s → StartsWithDigit (s ++ t)
append-StartsWithDigit s t d = record {
  head = d.head;
  tail = d.tail ++ t;
  shape = ap (λ r. r ++ t) d.shape;
  digit = d.digit;
}

-- A value is read back in front of what cannot be a part of it.
read_scalar-stringify :
    (v : Scalar) (c : ℕ) (t : Text)
    → is_decimal c ≡ false
    → read_scalar (stringify_scalar v ++ c ∷ t) ≡ some (v, c ∷ t)
unfolding read_scalar stringify_scalar quote to_string
read_scalar-stringify (number n) c t h =
    read_scalar-digit (decimal n ++ c ∷ t) (c ∷ t) n
      (append-StartsWithDigit (decimal n) (c ∷ t)
        (digits-StartsWithDigit (suc n) n [] (omega arith)))
      (read_number-decimal n c t h)
read_scalar-stringify (text s) c t h =
    rw (append_assoc (quote_body s) (b'"' ∷ []) (c ∷ t), read_text-quote_body s (c ∷ t)) refl
read_scalar-stringify nothing c t h = refl

abbrev member_text : Text × Scalar → Text
member_text (k, v) = quote k ++ b':' ∷ stringify_scalar v

read_member-member_text :
    (m : Text × Scalar) (c : ℕ) (t : Text)
    → is_decimal c ≡ false
    → read_member (member_text m ++ c ∷ t) ≡ some (m, c ∷ t)
unfolding read_member quote Option.bind
read_member-member_text (k, v) c t h =
    let flat : ((quote_body k ++ b'"' ∷ []) ++ b':' ∷ stringify_scalar v) ++ c ∷ t
        ≡ quote_body k ++ b'"' ∷ b':' ∷ (stringify_scalar v ++ c ∷ t) =
      ap (λ r. r ++ c ∷ t) (append_assoc (quote_body k) (b'"' ∷ []) (b':' ∷ stringify_scalar v))
      ∙ append_assoc (quote_body k) _ (c ∷ t) in
    rw (flat, read_text-quote_body k _, read_scalar-stringify v c t h) refl

read_members-stringify :
    (fuel : ℕ) (m : Text × Scalar) (ms : Members) (t : Text)
    → length ms < fuel
    → read_members fuel (stringify_members (m ∷ ms) ++ b'}' ∷ t) ≡ some (m ∷ ms, t)
unfolding read_members stringify_members Option.bind
read_members-stringify zero m ms t h = absurd (omega arith)
read_members-stringify (suc fuel) (k, v) [] t h =
    rw (read_member-member_text (k, v) b'}' t refl) refl
read_members-stringify (suc fuel) (k, v) (m ∷ ms) t h =
    let flat = append_assoc (member_text (k, v)) (b',' ∷ stringify_members (m ∷ ms)) (b'}' ∷ t) in
    ap (read_members (suc fuel)) flat
    ∙ rw (read_member-member_text (k, v) b',' (stringify_members (m ∷ ms) ++ b'}' ∷ t) refl)
        (rw (read_members-stringify fuel m ms t (omega arith)) refl)

-- Each member takes a character at least.
length-stringify_members : (ms : Members) → length ms ≤ length (stringify_members ms)
unfolding stringify_members quote
length-stringify_members [] = omega arith
length-stringify_members ((k, v) ∷ []) = omega arith
length-stringify_members ((k, v) ∷ m ∷ ms) = omega (
  arith,
  length-append (member_text (k, v)) (b',' ∷ stringify_members (m ∷ ms)),
  length-stringify_members (m ∷ ms),
)

-- An object of numbers, texts and `null`, with one member at least, is read back from what `stringify`
-- prints, whatever characters the texts hold: members, order and values.
pub read_object-stringify :
    (m : Text × Scalar) (ms : Members) → read_object (stringify (m ∷ ms)) ≡ some (m ∷ ms)
unfolding read_object stringify Option.bind
read_object-stringify m ms =
    let t = stringify_members (m ∷ ms) ++ b'}' ∷ [] in
    let enough : length ms < length t = omega (
      arith,
      length-stringify_members (m ∷ ms),
      length-append (stringify_members (m ∷ ms)) (b'}' ∷ []),
    ) in
    rw (read_members-stringify (length t) m ms [] enough) refl
