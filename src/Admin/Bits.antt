-- ===== src/Admin/Bits.antt =====
-- `hasPermission` at a single bit.
use signup_daemon.Prelude.{
  ℕ, zero, suc, ◌+◌, ◌*◌, ◌/◌, ◌%◌, ◌^◌, ◌≤◌, ◌<◌, ◌≡◌, ◌↔◌, refl, sym, ◌∙◌, true, arith, min, ◌&&◌,
  ◌==◌, ltb, ap,
}
use native.Mathlib.Nat.{
  pow-suc, mul_assoc, mod-eq_of_lt, add-mul-mod_self_right, div-add-mod', mod-lt,
}
use Prim.Native.Nat.{bit_and, digits, bit_and-bitwise}
use signup_daemon.Admin.{
  view_users, approve_users, modify_basic_levels, modify_advanced_levels, delete_users,
  reset_passwords, view_audit_logs, manage_whitelist, create_admins, modify_permissions,
  view_statistics, configure_limits, Permission, flag, has_permission,
}

-- The digit of weight 2 ^ k.
pub bit : ℕ → ℕ → ℕ
bit a zero = a % 2
bit a (suc k) = bit (a / 2) k

zero-bit : (k : ℕ) → bit 0 k ≡ 0
unfolding bit
zero-bit zero = refl
zero-bit (suc k) = zero-bit k

-- The recursion that `bit_and` is defined by, with the count of digits as a parameter of its own.
abbrev masked : ℕ → ℕ → ℕ → ℕ
masked count number mask = digits (λ _. 0) min count number mask

masked-zero : (count number : ℕ) → masked count number 0 ≡ 0
masked-zero zero number = refl
masked-zero (suc count) zero = refl
masked-zero (suc count) (suc half) = omega (arith, masked-zero count (suc half / 2))

-- A mask of one bit leaves that bit, whatever the count, if it is enough.
masked-pow :
    (k count number : ℕ) → number ≤ count → masked count number (2 ^ k) ≡ bit number k * 2 ^ k
unfolding bit
masked-pow k zero zero h = rw (zero-bit k) (omega arith)
masked-pow k zero (suc half) h = absurd (omega arith)
masked-pow k (suc count) zero h = rw (zero-bit k) (omega arith)
masked-pow zero (suc count) (suc half) h = omega (arith, masked-zero count (suc half / 2))
masked-pow (suc k) (suc count) (suc half) h =
    let double : 2 ^ suc k ≡ 2 ^ k * 2 = pow-suc 2 k in
    let shifted : 2 ^ k * 2 / 2 ≡ 2 ^ k = omega arith in
    let lowest : 2 ^ k * 2 % 2 ≡ 0 = omega arith in
    let ih = masked-pow k count (suc half / 2) (omega arith) in
    rw (double, shifted, lowest, ih) (omega (arith, mul_assoc (bit (suc half / 2) k) (2 ^ k) 2))

bit_and-pow : (k a : ℕ) → bit_and a (2 ^ k) ≡ bit a k * 2 ^ k
bit_and-pow k a = bit_and-bitwise a (2 ^ k) ∙ masked-pow k a a (omega arith)

pow_pos : (m : ℕ) → 0 < 2 ^ m
pow_pos zero = omega arith
pow_pos (suc m) = rw (pow-suc 2 m) (omega (arith, pow_pos m))

-- A number below a multiple of two, halved and reduced.
split_mod : (a t : ℕ) → 0 < t → (a % (t * 2) / 2 ≡ a / 2 % t) × (a % (t * 2) % 2 ≡ a % 2)
split_mod a t pos =
    let q = a / (t * 2) in
    let r = a % (t * 2) in
    let whole : a ≡ q * t * 2 + r =
      sym (div-add-mod' a (t * 2)) ∙ ap (λ n. n + r) (sym (mul_assoc q t 2)) in
    let below : r < t * 2 = mod-lt a (omega arith) in
    let halves : a / 2 ≡ r / 2 + q * t = omega arith in
    let small : r / 2 % t ≡ r / 2 = mod-eq_of_lt (omega arith) in
    (sym (ap (λ n. n % t) halves ∙ add-mul-mod_self_right (r / 2) q t ∙ small), omega arith)

bit-mod : (k m a : ℕ) → k < m → bit (a % 2 ^ m) k ≡ bit a k
unfolding bit
bit-mod k zero a h = absurd (omega arith)
bit-mod zero (suc m) a h = rw (pow-suc 2 m) ((split_mod a (2 ^ m) (pow_pos m)).1)
bit-mod (suc k) (suc m) a h =
    rw (pow-suc 2 m, (split_mod a (2 ^ m) (pow_pos m)).0) (bit-mod k m (a / 2) (omega arith))

bit-le-one : (k a : ℕ) → bit a k ≤ 1
unfolding bit
bit-le-one zero a = omega arith
bit-le-one (suc k) a = bit-le-one k (a / 2)

pow-lt : (k m : ℕ) → k < m → 2 ^ k < 2 ^ m
pow-lt k zero h = absurd (omega arith)
pow-lt zero (suc m) h = rw (pow-suc 2 m) (omega (arith, pow_pos m))
pow-lt (suc k) (suc m) h = rw (pow-suc 2 m, pow-suc 2 k) (omega (arith, pow-lt k m (omega arith)))

both_bits : (p k : ℕ) → k < 31 → bit_and (p % 2 ^ 32) (2 ^ k % 2 ^ 32) ≡ bit p k * 2 ^ k
both_bits p k h =
    let small : 2 ^ k % 2 ^ 32 ≡ 2 ^ k = mod-eq_of_lt (pow-lt k 32 (omega arith)) in
    rw small (bit_and-pow k (p % 2 ^ 32) ∙ ap (λ b. b * 2 ^ k) (bit-mod k 32 p (omega arith)))

weighed :
    (b t : ℕ) → b ≤ 1 → 0 < t → t < 2 ^ 31 → ((ltb (b * t) (2 ^ 31) && b * t == t) ≡ true) ↔ (b ≡ 1)
weighed zero t le pos small =
    let e : 0 * t ≡ 0 = omega arith in rw e (λ h. ground arith, λ h. absurd (omega arith))
weighed (suc zero) t le pos small =
    let e : 1 * t ≡ t = omega arith in rw e (λ h. refl, λ h. ground arith)
weighed (suc (suc b)) t le pos small = absurd (omega arith)

-- The position of a permission's bit.
abbrev pub position : Permission → ℕ
position view_users = 0
position approve_users = 1
position modify_basic_levels = 2
position modify_advanced_levels = 3
position delete_users = 4
position reset_passwords = 5
position view_audit_logs = 6
position manage_whitelist = 7
position create_admins = 8
position modify_permissions = 9
position view_statistics = 10
position configure_limits = 11

-- For a flag of one bit below the sign bit, the test holds exactly if the bit is set in the
-- administrator's number, of whatever size.
pub has_permission-pow : (p k : ℕ) → k < 31 → (has_permission p (2 ^ k) ≡ true) ↔ (bit p k ≡ 1)
unfolding has_permission
has_permission-pow p k h =
    rw (both_bits p k h) (weighed (bit p k) (2 ^ k) (bit-le-one k p) (pow_pos k) (pow-lt k 31 h))

flag-position : (q : Permission) → (flag q ≡ 2 ^ position q) × (position q < 31)
flag-position view_users = (refl, omega arith)
flag-position approve_users = (refl, omega arith)
flag-position modify_basic_levels = (refl, omega arith)
flag-position modify_advanced_levels = (refl, omega arith)
flag-position delete_users = (refl, omega arith)
flag-position reset_passwords = (refl, omega arith)
flag-position view_audit_logs = (refl, omega arith)
flag-position manage_whitelist = (refl, omega arith)
flag-position create_admins = (refl, omega arith)
flag-position modify_permissions = (refl, omega arith)
flag-position view_statistics = (refl, omega arith)
flag-position configure_limits = (refl, omega arith)

-- For a number of any size, an administrator has a permission exactly if the permission's bit is
-- set in the number.
pub has_permission_iff :
    (p : ℕ) (q : Permission) → (has_permission p (flag q) ≡ true) ↔ (bit p (position q) ≡ 1)
has_permission_iff p q =
    let (e, small) = flag-position q in rw e (has_permission-pow p (position q) small)
