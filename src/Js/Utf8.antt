-- ===== src/Js/Utf8.antt =====
-- `TextEncoder.encode`: the bytes of a string. A lone surrogate becomes U+FFFD.
use signup_daemon.Prelude.{
  ℕ, ◌+◌, ◌-◌, ◌*◌, ◌/◌, ◌%◌, ◌≡◌, refl, ap, true, false, ◌&&◌, ◌||◌, List, [], ◌∷◌, ◌++◌, ltb,
  arith, if◌then◌else◌, all, &&_true,
}
use signup_daemon.Js.Strings.{Text}
use signup_daemon.Js.Json.{is_high, is_low}

-- The bytes of a code point.
unfoldable pub encode_point : ℕ → List ℕ
encode_point c =
    if ltb c 0x80
    then c ∷ []
    else if ltb c 0x800
    then (0xc0 + c / 64) ∷ (0x80 + c % 64) ∷ []
    else if ltb c 0x10000
    then (0xe0 + c / 4096) ∷ (0x80 + c / 64 % 64) ∷ (0x80 + c % 64) ∷ []
    else (0xf0 + c / 262144) ∷ (0x80 + c / 4096 % 64) ∷ (0x80 + c / 64 % 64) ∷ (0x80 + c % 64) ∷ []

abbrev from_pair : ℕ → ℕ → ℕ
from_pair h l = 0x10000 + (h - 0xd800) * 1024 + (l - 0xdc00)

abbrev or_replacement : ℕ → ℕ
or_replacement c = if is_high c || is_low c then 0xfffd else c

unfoldable pub encode_utf8 : Text → List ℕ
encode_utf8 [] = []
encode_utf8 (c ∷ []) = encode_point (or_replacement c)
encode_utf8 (c ∷ d ∷ s) =
    let after_pair = encode_utf8 s in
    let after_one = encode_utf8 (d ∷ s) in
    if is_high c && is_low d
    then encode_point (from_pair c d) ++ after_pair
    else encode_point (or_replacement c) ++ after_one

encode_point_small : (c : ℕ) → ltb c 0x80 ≡ true → encode_point (or_replacement c) ≡ c ∷ []
unfolding encode_point
encode_point_small c h = ground arith

small-not_high : (c : ℕ) → ltb c 0x80 ≡ true → is_high c ≡ false
small-not_high c h = ground arith

-- A text of ASCII characters is its own encoding.
pub encode_utf8-ascii : (s : Text) → all (λ c. ltb c 0x80) s ≡ true → encode_utf8 s ≡ s
unfolding encode_utf8
encode_utf8-ascii [] h = refl
encode_utf8-ascii (c ∷ []) h = encode_point_small c (&&_true _ _ h).0
encode_utf8-ascii (c ∷ d ∷ s) h =
    let (small, rest) = &&_true (ltb c 0x80) (all (λ e. ltb e 0x80) (d ∷ s)) h in
    rw (encode_point_small c small, small-not_high c small)
      (ap (λ t. c ∷ t) (encode_utf8-ascii (d ∷ s) rest))
