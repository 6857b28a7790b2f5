-- ===== src/PassHash/Session.antt =====
-- When `jsonGetHexLen` takes a value out of the server's answer.
use signup_daemon.Prelude.{
  ℕ, ◌≤◌, ◌≡◌, ◌↔◌, refl, ◌∙◌, ap, true, false, Option, none, some, [], ◌∷◌, ◌++◌, arith, length,
  all, codes, Bool-cases, inl, inr, append-nil, ==_iff,
}
use signup_daemon.Js.Strings.{Text, is_empty}
use signup_daemon.Js.Regex.{run, at_end}
use signup_daemon.Js.Regex.Splits.{match_at_least-split, match_at_least-join}
use signup_daemon.Js.Json.{Json, null, obj, num, str, Fields, get_field}
use signup_daemon.Validators.Username.{at_end_only}
use signup_daemon.PassHash.{
  is_hex, is_hex_i, is_hex_text, is_hex_text_i, json_get_hex_len, is_version_1, valid_hex,
}
use signup_daemon.PassHash.Hex.{IsHex}

is_hex_text-join : (s : Text) → 1 ≤ length s → all is_hex s ≡ true → is_hex_text s ≡ true
unfolding is_hex_text
is_hex_text-join s long inside =
    rw (append-nil s) at
      (match_at_least-join 1 is_hex (run (at_end ∷ []) none) s [] long inside refl)

is_hex_text-split : (s : Text) → is_hex_text s ≡ true → all is_hex s ≡ true
unfolding is_hex_text
is_hex_text-split s h =
    let (p, long) = match_at_least-split 1 is_hex (run (at_end ∷ []) none) s h in
    let whole : s ≡ p.front =
      p.joins ∙ ap (λ t. p.front ++ t) (at_end_only p.back p.goes_on) ∙ append-nil p.front in
    ap (all is_hex) whole ∙ p.inside

pub is_hex_text_i-join : (s : Text) → 1 ≤ length s → all is_hex_i s ≡ true → is_hex_text_i s ≡ true
unfolding is_hex_text_i
is_hex_text_i-join s long inside =
    rw (append-nil s) at
      (match_at_least-join 1 is_hex_i (run (at_end ∷ []) none) s [] long inside refl)

-- What the server's answer must hold.
pub record Holds (json : Json) (name : Text) (len : ℕ) (value : Text) : Type 0 where
  pub members : Fields
  pub is_object : json ≡ obj members
  pub version : get_field (codes "ver") members ≡ some (num 1)
  pub member : get_field name members ≡ some (str value)
  pub hex : IsHex len value

pub not_empty : (s : Text) → 1 ≤ length s → is_empty s ≡ false
not_empty [] h = absurd (omega arith)
not_empty (x ∷ s) h = refl

version_of : (v : Option Json) → is_version_1 v ≡ true → v ≡ some (num 1)
version_of none h = cc
version_of (some (num n)) h = ap (λ k. some (num k)) ((==_iff n 1).0 h)
version_of (some _) h = cc

value_of :
    (len : ℕ) (v : Option Json) (value : Text)
    → valid_hex len v ≡ some value
    → (v ≡ some (str value)) × IsHex len value
value_of len none value h = cc
value_of len (some (str s)) value h =
    let same : s ≡ value = ground arith in
    let size : length s ≡ len = ground arith in
    let hex : is_hex_text s ≡ true = ground arith in
    (
      ap (λ t. some (str t)) same,
      rw (← same) (record { size = size; digits = is_hex_text-split s hex }),
    )
value_of len (some _) value h = cc

valid_hex-join :
    (len : ℕ) (value : Text)
    → 1 ≤ len
    → IsHex len value
    → valid_hex len (some (str value)) ≡ some value
valid_hex-join len value h x =
    let size = x.size in
    let long : 1 ≤ length value = omega arith in
    rw (
      not_empty value long,
      (==_iff (length value) len).1 size,
      is_hex_text-join value long x.digits,
    )

taken :
    (json : Json) (name : Text) (len : ℕ) (value : Text)
    → json_get_hex_len json name len ≡ some value
    → Holds json name len value
unfolding json_get_hex_len
taken (obj members) name len value h =
    elim (Bool-cases (is_version_1 (get_field (codes "ver") members))) [
      | inl old ↦
          let (found, hex) = value_of len (get_field name members) value (rw old at h) in
          record {
            members = members;
            is_object = refl;
            version = version_of _ old;
            member = found;
            hex = hex;
          }
      | inr other ↦ let no : none ≡ some value = rw other at h in cc
    ]
taken null name len value h = cc
taken _ name len value h = cc

-- For a positive length the value is taken exactly if the answer is an object of version 1 with
-- that member, a text of that many hexadecimal digits in lower case.
pub json_get_hex_len_iff :
    (json : Json) (name : Text) (len : ℕ) (value : Text)
    → 1 ≤ len
    → (json_get_hex_len json name len ≡ some value) ↔ Holds json name len value
unfolding json_get_hex_len
json_get_hex_len_iff json name len value long = (
  taken json name len value,
  λ h. rw (h.is_object, h.version, h.member) (valid_hex-join len value long h.hex),
)
