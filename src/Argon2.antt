-- ===== src/Argon2.antt =====
-- js/load_argon2.js: `argon2_calc`, which runs the Argon2 function of the WebAssembly module. The
-- module is third-party code and enters as a record of its functions.
pub mod Calc
pub mod Loader
use signup_daemon.Prelude.{
  ℕ, zero, suc, ◌+◌, ◌-◌, ◌%◌, Bool, not, Option, none, some, List, [], ◌∷◌, ◌++◌, codes, ◌==◌,
  if◌then◌else◌, length, drop,
}
use signup_daemon.Js.Strings.{Text, to_string}
use signup_daemon.Js.Utf8.{encode_utf8}

-- `DEFAULT_CONFIG`
pub record Config : Type 0 where
  pub time : ℕ
  pub mem : ℕ
  pub hash_len : ℕ
  pub parallelism : ℕ
  pub type : ℕ

abbrev pub default_config : Config
default_config = record { time = 2; mem = 131072; hash_len = 32; parallelism = 2; type = 2 }

abbrev pub version : ℕ
version = 0x13

-- The functions of the module that the source calls. `allocates` says whether `Module.allocate` gives
-- a block of a size, and does not throw; `hash_ext` throws, which is `none`, or gives the result code
-- and the bytes that it leaves in `HEAP8` at and after `hash`. A pointer is a number.
pub record Wasm : Type 0 where
  pub encodedlen : Config → ℕ → ℕ
  pub allocates : ℕ → Bool
  pub hash_ext : Config → List ℕ → List ℕ → ℕ → Option (ℕ × (ℕ → ℕ))

-- The blocks that are allocated and not freed, each by its size, newest first; `freed` counts the
-- calls of `Module._free`.
pub record Heap : Type 0 where
  pub live : List (ℕ × ℕ)
  pub next : ℕ

pub allocate : ℕ → Heap → ℕ × Heap
allocate size h = (h.next, record { live = (h.next, size) ∷ h.live; next = h.next + 1 })

abbrev remove : ℕ → List (ℕ × ℕ) → List (ℕ × ℕ)
remove p [] = []
remove p ((q, n) ∷ rest) = let later = remove p rest in if p == q then rest else (q, n) ∷ later

pub free : ℕ → Heap → Heap
free p h = record h { live = remove p h.live }

-- `s.slice(-n)`
abbrev slice_last : ℕ → Text → Text
slice_last n s = drop (length s - n) s

-- `('0' + byteValue.toString(16)).slice(-2)`
abbrev pub byte_hex : ℕ → Text
byte_hex b = slice_last 2 (b'0' ∷ to_string 16 b)

-- The loop over `i`, which reads `HEAP8[hash + i] & 0xff`, with the rounds that are left.
unfoldable pub hex_from : (ℕ → ℕ) → ℕ → ℕ → Text
unfolding to_string
hex_from cells zero i = []
hex_from cells (suc n) i = byte_hex (cells i % 256) ++ hex_from cells n (i + 1)

-- A block for what follows. An exception leads to the `catch`, which returns `null` and frees nothing.
abbrev pub with_block : Wasm → ℕ → (ℕ → Heap → Option Text × Heap) → Heap → Option Text × Heap
with_block wasm size rest heap =
    if wasm.allocates size then rest (allocate size heap).0 (allocate size heap).1 else (none, heap)

-- What follows the call of the module's function, which may throw.
abbrev pub after_hash_ext : Option (ℕ × (ℕ → ℕ)) → ℕ → ℕ → ℕ → ℕ → Heap → Option Text × Heap
after_hash_ext none pwd salt_ptr hash encoded heap = (none, heap)
after_hash_ext (some (res, cells)) pwd salt_ptr hash encoded heap =
    let heap = free encoded (free hash (free salt_ptr (free pwd heap))) in
    if not (res == 0) then (none, heap) else (some (hex_from cells default_config.hash_len 0), heap)

-- `argon2_calc` once the module is loaded: the hash in hexadecimal or `null`, and the heap.
unfoldable pub argon2_hash : Wasm → Text → Text → Heap → Option Text × Heap
unfolding allocate free hex_from encode_utf8
argon2_hash wasm salt password heap =
    let pass_encoded = encode_utf8 password in
    let salt_encoded = encode_utf8 salt in
    with_block wasm (length pass_encoded)
      (λ pwd. with_block wasm (length salt_encoded) λ salt_ptr.
        with_block wasm default_config.hash_len λ hash.
          with_block wasm (wasm.encodedlen default_config (length salt_encoded) + 1) λ encoded.
            after_hash_ext (wasm.hash_ext default_config pass_encoded salt_encoded version) pwd
              salt_ptr hash encoded)
      heap

-- The global variable `argon2saltsalt`, if that is set.
abbrev pub salt_of : Option Text → Text
salt_of none = codes "argon2saltsalt"
salt_of (some s) = s

-- `global.argon2_calc`: `null` before the module is loaded.
unfoldable pub argon2_calc : Wasm → Bool → Option Text → Text → Heap → Option Text × Heap
unfolding argon2_hash
argon2_calc wasm loaded salt origin_msg heap =
    if not loaded then (none, heap) else argon2_hash wasm (salt_of salt) origin_msg heap
