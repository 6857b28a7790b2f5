-- ===== src/Argon2/Calc.antt =====
-- What `argon2_calc` returns and what it leaves on the module's heap.
use signup_daemon.Prelude.{
  ℕ, ◌+◌, ◌<◌, ◌≡◌, refl, ◌∙◌, sym, subst, Bool, true, false, Option, none, some, arith, ◌==◌,
  if◌then◌else◌, Bool-cases, inl, inr, length,
}
use signup_daemon.Js.Strings.{Text}
use signup_daemon.PassHash.Hex.{IsHex, hex_from-IsHex}
use signup_daemon.Js.Utf8.{encode_utf8}
use signup_daemon.Argon2.{
  Wasm, Heap, version, allocate, free, hex_from, with_block, after_hash_ext, argon2_hash, salt_of,
  argon2_calc, default_config,
}

other : (p q : ℕ) → p < q → (p == q) ≡ false
other p q h = ground arith

same : (p : ℕ) → (p == p) ≡ true
same p = ground arith

-- The four blocks of a call, freed in the order in which they were allocated.
free_all :
    (a b c d : ℕ) (h : Heap)
    → (free (h.next + 1 + 1 + 1) (
        free (h.next + 1 + 1) (
          free
            (h.next + 1)
            (free h.next (allocate d (allocate c (allocate b (allocate a h).1).1).1).1)))).live
      ≡ h.live
unfolding allocate free
free_all a b c d h =
    let n = h.next in
    rw (
      other n (n + 1 + 1 + 1) (omega arith),
      other n (n + 1 + 1) (omega arith),
      other n (n + 1) (omega arith),
      same n,
      other (n + 1) (n + 1 + 1 + 1) (omega arith),
      other (n + 1) (n + 1 + 1) (omega arith),
      same (n + 1),
      other (n + 1 + 1) (n + 1 + 1 + 1) (omega arith),
      same (n + 1 + 1),
      same (n + 1 + 1 + 1),
    )

-- A call that no exception cuts short: the blocks are allocated and the module's function returns.
pub record Returns (wasm : Wasm) (salt password : Text) : Type 0 where
  pub password_block : wasm.allocates (length (encode_utf8 password)) ≡ true
  pub salt_block : wasm.allocates (length (encode_utf8 salt)) ≡ true
  pub hash_block : wasm.allocates 32 ≡ true
  pub encoded_block :
      wasm.allocates (wasm.encodedlen default_config (length (encode_utf8 salt)) + 1) ≡ true
  pub code : ℕ
  pub cells : ℕ → ℕ
  pub returns :
      wasm.hash_ext default_config (encode_utf8 password) (encode_utf8 salt) version
      ≡ some (code, cells)

module _ (wasm : Wasm) (salt password : Text) (heap : Heap) where
  argon2_hash-live :
      Returns wasm salt password → (argon2_hash wasm salt password heap).1.live ≡ heap.live
  unfolding argon2_hash
  argon2_hash-live r = elim (Bool-cases (r.code == 0)) [
    | inl ok ↦
        rw (r.password_block, r.salt_block, r.hash_block, r.encoded_block, r.returns, ok)
          (free_all _ _ _ _ heap)
    | inr bad ↦
        rw (r.password_block, r.salt_block, r.hash_block, r.encoded_block, r.returns, bad)
          (free_all _ _ _ _ heap)
  ]

if_some :
    (b : Bool) (s : Text) {h : Text} → (if b then some s else none) ≡ some h → (b ≡ true) × (s ≡ h)
if_some true s e = (refl, cc)
if_some false s e = cc

abbrev pub value_of : Option (ℕ × (ℕ → ℕ)) → Option Text
value_of none = none
value_of (some (res, cells)) = if res == 0 then some (hex_from cells 32 0) else none

abbrev pub if_allocates : Wasm → ℕ → Option Text → Option Text
if_allocates wasm size v = if wasm.allocates size then v else none

-- The hash as a function of the salt and the message alone.
unfoldable pub argon2_value : Wasm → Text → Text → Option Text
unfolding hex_from encode_utf8
argon2_value wasm salt message = if_allocates wasm (length (encode_utf8 message)) (
    if_allocates wasm (length (encode_utf8 salt)) (
      if_allocates wasm 32 (
        if_allocates wasm (wasm.encodedlen default_config (length (encode_utf8 salt)) + 1) (
          value_of
            (wasm.hash_ext default_config (encode_utf8 message) (encode_utf8 salt) version)))))

with_block-value :
    (wasm : Wasm) (size : ℕ) (rest : ℕ → Heap → Option Text × Heap) (v : Option Text)
    → ((p : ℕ) (h : Heap) → (rest p h).0 ≡ v)
    → (heap : Heap) → (with_block wasm size rest heap).0 ≡ if_allocates wasm size v
with_block-value wasm size rest v h heap = elim (Bool-cases (wasm.allocates size)) [
  | inl there ↦ rw there (h _ _)
  | inr full ↦ rw full
]

after_hash_ext-value :
    (r : Option (ℕ × (ℕ → ℕ))) (a b c d : ℕ) (heap : Heap)
    → (after_hash_ext r a b c d heap).0 ≡ value_of r
after_hash_ext-value none a b c d heap = refl
after_hash_ext-value (some (res, cells)) a b c d heap = elim (Bool-cases (res == 0)) [
  | inl ok ↦ rw ok
  | inr bad ↦ rw bad
]

module _ (wasm : Wasm) (salt message : Text) where
  abbrev after_hash : ℕ → ℕ → ℕ → Heap → Option Text × Heap
  after_hash pwd salt_ptr hash =
      with_block wasm (wasm.encodedlen default_config (length (encode_utf8 salt)) + 1) λ encoded.
        after_hash_ext
          (wasm.hash_ext default_config (encode_utf8 message) (encode_utf8 salt) version) pwd
          salt_ptr hash encoded

  abbrev after_salt : ℕ → ℕ → Heap → Option Text × Heap
  after_salt pwd salt_ptr = with_block wasm 32 λ hash. after_hash pwd salt_ptr hash

  abbrev after_password : ℕ → Heap → Option Text × Heap
  after_password pwd =
      with_block wasm (length (encode_utf8 salt)) λ salt_ptr. after_salt pwd salt_ptr

  argon2_hash-value :
      (heap : Heap) → (argon2_hash wasm salt message heap).0 ≡ argon2_value wasm salt message
  unfolding argon2_hash argon2_value
  argon2_hash-value = with_block-value wasm (length (encode_utf8 message)) after_password _ λ a.
      with_block-value wasm (length (encode_utf8 salt)) (after_salt a) _ λ b.
        with_block-value wasm 32 (after_hash a b) _ λ c.
          with_block-value wasm (wasm.encodedlen default_config (length (encode_utf8 salt)) + 1)
            (after_hash_ext
              (wasm.hash_ext default_config (encode_utf8 message) (encode_utf8 salt) version) a b c)
            _
            (after_hash_ext-value
              (wasm.hash_ext default_config (encode_utf8 message) (encode_utf8 salt) version) a b c)

if_true : (b : Bool) (v : Option Text) {h : Text} → (if b then v else none) ≡ some h → v ≡ some h
if_true true v e = e
if_true false v e = cc

if_allocates-some :
    (wasm : Wasm) (size : ℕ) (v : Option Text) {h : Text}
    → if_allocates wasm size v ≡ some h
    → v ≡ some h
if_allocates-some wasm size v e = if_true (wasm.allocates size) v e

value_of-IsHex : (r : Option (ℕ × (ℕ → ℕ))) {h : Text} → value_of r ≡ some h → IsHex 64 h
value_of-IsHex none e = cc
value_of-IsHex (some (res, cells)) e =
    subst (IsHex 64) (if_some (res == 0) _ e).1 (hex_from-IsHex cells 32 0)

-- Where there is a hash, the module's function has returned it.
pub argon2_value-some :
    (wasm : Wasm) (salt message : Text) {h : Text}
    → argon2_value wasm salt message ≡ some h
    → value_of (wasm.hash_ext default_config (encode_utf8 message) (encode_utf8 salt) version)
      ≡ some h
unfolding argon2_value
argon2_value-some wasm salt message e =
    if_allocates-some wasm _ _
      (if_allocates-some wasm _ _ (if_allocates-some wasm _ _ (if_allocates-some wasm _ _ e)))

pub argon2_value-IsHex :
    (wasm : Wasm) (salt message : Text) {h : Text}
    → argon2_value wasm salt message ≡ some h
    → IsHex 64 h
argon2_value-IsHex wasm salt message e =
    value_of-IsHex (wasm.hash_ext default_config (encode_utf8 message) (encode_utf8 salt) version)
      (argon2_value-some wasm salt message e)

-- A call that no exception cuts short frees what it allocated, whatever code the module's function
-- returns; so does a call before the module is loaded, which allocates nothing.
pub argon2_calc-live :
    (wasm : Wasm) (loaded : Bool) (salt : Option Text) (message : Text) (heap : Heap)
    → Returns wasm (salt_of salt) message
    → (argon2_calc wasm loaded salt message heap).1.live ≡ heap.live
unfolding argon2_calc
argon2_calc-live wasm false salt message heap r = refl
argon2_calc-live wasm true salt message heap r = argon2_hash-live wasm (salt_of salt) message heap r

-- Once the module is loaded, `argon2_calc` is a function of the salt and the message.
pub argon2_calc-value :
    (wasm : Wasm) (s message : Text) (heap : Heap)
    → (argon2_calc wasm true (some s) message heap).0 ≡ argon2_value wasm s message
unfolding argon2_calc
argon2_calc-value wasm s message heap = argon2_hash-value wasm s message heap

-- A result of `argon2_calc` is a text of 64 hexadecimal digits.
pub argon2_calc-IsHex :
    (wasm : Wasm) (loaded : Bool) (salt : Option Text) (message : Text) (heap : Heap) {h : Text}
    → (argon2_calc wasm loaded salt message heap).0 ≡ some h
    → IsHex 64 h
unfolding argon2_calc
argon2_calc-IsHex wasm false salt message heap e = cc
argon2_calc-IsHex wasm true salt message heap e =
    argon2_value-IsHex wasm (salt_of salt) message
      (sym (argon2_hash-value wasm (salt_of salt) message heap) ∙ e)
