-- ===== src/PassHash/Hex.antt =====
-- The hexadecimal texts of bytes: two digits for each, by a table over the 256 bytes.
use signup_daemon.Prelude.{
  ℕ, zero, suc, ◌+◌, ◌*◌, ◌%◌, ◌<◌, ◌≡◌, refl, subst, Bool, true, ◌&&◌, List, [], ◌∷◌, ◌++◌, arith,
  length, all, length-append, all-append, &&_true, ==_iff, ◌==◌, holds_below, holds_below_at, ltb,
  ltb→lt,
}
use signup_daemon.Js.Strings.{Text, to_string, pad_start}
use signup_daemon.Argon2.{byte_hex, hex_from}
use signup_daemon.PassHash.{is_hex, hex_bytes}

-- A text of n hexadecimal digits in lower case.
pub record IsHex (n : ℕ) (s : Text) : Type 0 where
  pub size : length s ≡ n
  pub digits : all is_hex s ≡ true

abbrev is_two_digits : Text → Bool
is_two_digits s = length s == 2 && all is_hex s

padded_table : holds_below 256 (λ b. is_two_digits (pad_start 2 b'0' (to_string 16 b))) ≡ true
unfolding holds_below to_string
padded_table = refl

sliced_table : holds_below 256 (λ b. is_two_digits (byte_hex b)) ≡ true
unfolding holds_below to_string
sliced_table = refl

of_two_digits : (s : Text) → is_two_digits s ≡ true → IsHex 2 s
of_two_digits s h =
    let (size, digits) = &&_true (length s == 2) (all is_hex s) h in
    record { size = (==_iff (length s) 2).0 size; digits = digits }

padded-IsHex : (b : ℕ) → b < 256 → IsHex 2 (pad_start 2 b'0' (to_string 16 b))
padded-IsHex b h = of_two_digits _ (holds_below_at _ 256 b h padded_table)

sliced-IsHex : (b : ℕ) → b < 256 → IsHex 2 (byte_hex b)
sliced-IsHex b h = of_two_digits _ (holds_below_at _ 256 b h sliced_table)

append-IsHex : (m n : ℕ) (s t : Text) → IsHex m s → IsHex n t → IsHex (m + n) (s ++ t)
append-IsHex m n s t a b = record {
  size = omega (arith, length-append s t, a.size, b.size);
  digits = rw (all-append, a.digits) (b.digits);
}

pub hex_from-IsHex : (cells : ℕ → ℕ) (n i : ℕ) → IsHex (2 * n) (hex_from cells n i)
unfolding hex_from
hex_from-IsHex cells zero i = record { size = refl; digits = refl }
hex_from-IsHex cells (suc n) i =
    let e : 2 + 2 * n ≡ 2 * suc n = omega arith in
    subst (λ k. IsHex k (hex_from cells (suc n) i)) e
      (append-IsHex 2 (2 * n) _ _ (sliced-IsHex (cells i % 256) (omega arith))
        (hex_from-IsHex cells n (i + 1)))

pub hex_bytes-IsHex :
    (bs : List ℕ) → all (λ b. ltb b 256) bs ≡ true → IsHex (2 * length bs) (hex_bytes bs)
unfolding hex_bytes
hex_bytes-IsHex [] h = record { size = refl; digits = refl }
hex_bytes-IsHex (b ∷ bs) h =
    let (byte, rest) = &&_true (ltb b 256) (all (λ x. ltb x 256) bs) h in
    let e : 2 + 2 * length bs ≡ 2 * suc (length bs) = omega arith in
    subst (λ k. IsHex k (hex_bytes (b ∷ bs))) e
      (append-IsHex 2 (2 * length bs) _ _ (padded-IsHex b (ltb→lt b 256 byte))
        (hex_bytes-IsHex bs rest))
