-- ===== src/Daemon/Agrees.antt =====
-- The page and the daemon compute the same hashes.
use signup_daemon.Prelude.{
  ℕ, zero, suc, ◌+◌, ◌%◌, ◌≤◌, ◌≡◌, refl, ◌∙◌, sym, ap, ap₂, Bool, true, some, List, [], ◌∷◌, ◌++◌,
  arith, ltb, length, all, &&_true, take, holds_below, holds_below_at, Option, none,
}
use signup_daemon.Js.Strings.{Text, text_eq, to_string, pad_start}
use signup_daemon.Js.Strings.Laws.{text_eq_refl, eq_of_text_eq}
use signup_daemon.Js.Utf8.{encode_utf8, encode_utf8-ascii}
use signup_daemon.Argon2.{Wasm, default_config, version, byte_hex, hex_from}
use signup_daemon.Argon2.Calc.{argon2_value, argon2_value-some, value_of}
use signup_daemon.App.{World}
use signup_daemon.PassHash.{is_hex, sha256, hex_bytes}
use signup_daemon.PassHash.Hex.{hex_from-IsHex}
use signup_daemon.PassHash.Bodies.{sha256_of, password_hash}
use signup_daemon.Daemon.Hash.{
  Crypto, to_hex, compute_signup_hash2, argon_input_for_login, calc_hash_for_login,
}

-- `HEAP8[p] & 0xff` for the cells from i on
abbrev pub bytes_from : (ℕ → ℕ) → ℕ → ℕ → List ℕ
bytes_from cells zero i = []
bytes_from cells (suc n) i = (cells i % 256) ∷ bytes_from cells n (i + 1)

-- The browser's and the server's libraries compute the same functions: Argon2id of version 0x13 with 2
-- passes, 131072 KiB and 2 lanes, for salts of 8 bytes and more, and SHA-256.
pub record SameLibraries (world : World) (crypto : Crypto) : Type 0 where
  pub same_argon2 :
      (message salt : List ℕ)
      → 8 ≤ length salt
      → (cells : ℕ → ℕ) × (world.wasm.hash_ext default_config message salt version
          ≡ some (0, cells))
        × (crypto.argon2id_hash_raw 2 131072 2 message salt 32 ≡ some (bytes_from cells 32 0))
  pub same_sha256 : (bytes : List ℕ) → world.digest bytes ≡ some (crypto.sha256_bytes bytes)

-- `slice(-2)` and `%02x` write a byte alike.
byte_table : holds_below 256 (λ b. text_eq (byte_hex b) (pad_start 2 b'0' (to_string 16 b))) ≡ true
unfolding holds_below to_string
byte_table = refl

hex_from-to_hex : (cells : ℕ → ℕ) (n i : ℕ) → hex_from cells n i ≡ to_hex (bytes_from cells n i)
unfolding hex_from to_hex
hex_from-to_hex cells zero i = refl
hex_from-to_hex cells (suc n) i =
    ap₂ ◌++◌ (eq_of_text_eq _ _ (holds_below_at _ 256 (cells i % 256) (omega arith) byte_table))
      (hex_from-to_hex cells n (i + 1))

hex_bytes-to_hex : (bytes : List ℕ) → hex_bytes bytes ≡ to_hex bytes
unfolding hex_bytes to_hex
hex_bytes-to_hex [] = refl
hex_bytes-to_hex (b ∷ bs) = ap (λ t. pad_start 2 b'0' (to_string 16 b) ++ t) (hex_bytes-to_hex bs)

abbrev pub is_ascii : ℕ → Bool
is_ascii c = ltb c 0x80

hex_ascii_char : (c : ℕ) → is_hex c ≡ true → is_ascii c ≡ true
hex_ascii_char c h = ground arith

pub hex-ascii : (s : Text) → all is_hex s ≡ true → all is_ascii s ≡ true
hex-ascii [] h = refl
hex-ascii (c ∷ s) h =
    let (here, later) = &&_true _ _ h in rw (hex_ascii_char c here) (hex-ascii s later)

pub take-all : (n : ℕ) (s : Text) → length s ≤ n → take n s ≡ s
take-all zero [] h = refl
take-all zero (x ∷ s) h = absurd (omega arith)
take-all (suc n) [] h = refl
take-all (suc n) (x ∷ s) h = ap (λ t. x ∷ t) (take-all n s (omega arith))

argon2_value-hex_from :
    (wasm : Wasm) (salt message : Text) {cells : ℕ → ℕ} {a : Text}
    → wasm.hash_ext default_config (encode_utf8 message) (encode_utf8 salt) version
      ≡ some (0, cells)
    → argon2_value wasm salt message ≡ some a
    → argon2_value wasm salt message ≡ some (hex_from cells 32 0)
argon2_value-hex_from wasm salt message e there =
    there ∙ sym (argon2_value-some wasm salt message there) ∙ ap value_of e

hashed-some :
    (world : World) (o : Option Text) {h : Text}
    → sha256_of world o ≡ some h
    → (a : Text) × (o ≡ some a)
hashed-some world none e = cc
hashed-some world (some a) e = (a, refl)

sha256-hex_bytes :
    (world : World) (s : Text) {bytes : List ℕ}
    → world.digest (encode_utf8 s) ≡ some bytes
    → sha256 world s ≡ some (hex_bytes bytes)
unfolding sha256
sha256-hex_bytes world s e = rw e

compute_signup_hash2-to_hex :
    (crypto : Crypto) (input salt : Text) {bytes : List ℕ}
    → crypto.argon2id_hash_raw 2 131072 2 input salt 32 ≡ some bytes
    → compute_signup_hash2 crypto input salt ≡ some (to_hex (crypto.sha256_bytes (to_hex bytes)))
unfolding compute_signup_hash2
compute_signup_hash2-to_hex crypto input salt e = rw e

module _ (world : World) (crypto : Crypto) (same : SameLibraries world crypto) where
  sha256-to_hex :
      (s : Text) → all is_hex s ≡ true → sha256 world s ≡ some (to_hex (crypto.sha256_bytes s))
  sha256-to_hex s hex =
      sha256-hex_bytes world s
        (ap world.digest (encode_utf8-ascii s (hex-ascii s hex)) ∙ same.same_sha256 s)
      ∙ ap some (hex_bytes-to_hex (crypto.sha256_bytes s))

  -- For a salt and a message of ASCII characters the page's hash, where it has one, is the daemon's.
  pub password_hash-compute_signup_hash2 :
      (salt message : Text) {h : Text}
      → 8 ≤ length salt
      → all is_ascii salt ≡ true
      → all is_ascii message ≡ true
      → password_hash world salt message ≡ some h
      → compute_signup_hash2 crypto message salt ≡ some h
  password_hash-compute_signup_hash2 salt message long salt_ascii message_ascii e =
      let (cells, page, server) = same.same_argon2 message salt long in
      let (_, there) = hashed-some world (argon2_value world.wasm salt message) e in
      let encoded =
        ap₂ (λ m s. world.wasm.hash_ext default_config m s version)
          (encode_utf8-ascii message message_ascii) (encode_utf8-ascii salt salt_ascii) in
      compute_signup_hash2-to_hex crypto message salt server
      ∙ sym (
          ap (sha256_of world)
            (argon2_value-hex_from world.wasm salt message (encoded ∙ page) there)
          ∙ sha256-to_hex (hex_from cells 32 0) (hex_from-IsHex cells 32 0).digits
          ∙ ap (λ t. some (to_hex (crypto.sha256_bytes t))) (hex_from-to_hex cells 32 0))
      ∙ e

  -- The daemon accepts the hash that it computes.
  pub calc_hash_for_login_self :
      (username login_sess storage_hash : Text) {hash : Text}
      → compute_signup_hash2 crypto
          (argon_input_for_login login_sess username storage_hash)
          login_sess
        ≡ some hash
      → calc_hash_for_login crypto username login_sess storage_hash hash ≡ 0
  unfolding calc_hash_for_login
  calc_hash_for_login_self username login_sess storage_hash {hash} e =
      rw (e, text_eq_refl (take 64 hash))
