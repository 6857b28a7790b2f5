-- ===== src/PassHash/Hash.antt =====
-- The hash of a password as the page computes it.
use signup_daemon.Prelude.{
  ℕ, ◌≤◌, ◌≡◌, refl, true, Option, some, List, [], ◌∷◌, arith, length, all, ==_iff, ltb, &&_true,
}
use signup_daemon.Js.Strings.{Text}
use signup_daemon.Js.Utf8.{encode_utf8}
use signup_daemon.Argon2.{Heap, argon2_calc}
use signup_daemon.Argon2.Calc.{argon2_calc-IsHex}
use signup_daemon.Messages.{Site}
use signup_daemon.App.{World, App}
use signup_daemon.PassHash.{
  is_hex, is_hex_i, is_hash, sha256, hex_bytes, calc_pass_hash_argon_sha256,
}
use signup_daemon.PassHash.Hex.{IsHex, hex_bytes-IsHex}
use signup_daemon.PassHash.Session.{is_hex_text_i-join, not_empty}

-- The documented behaviour of SHA-256: 32 bytes for every input.
abbrev pub IsDigest : (List ℕ → Option (List ℕ)) → Type 0
IsDigest digest =
    (bs : List ℕ)
    → (ds : List ℕ) × (digest bs ≡ some ds) × (length ds ≡ 32) × (all (λ b. ltb b 256) ds ≡ true)

-- With such a digest `sha256` gives a text of 64 hexadecimal digits.
pub sha256-IsHex :
    (world : World) (s : Text)
    → IsDigest world.digest
    → (h : Text) × (sha256 world s ≡ some h) × IsHex 64 h
unfolding sha256
sha256-IsHex world s ok =
    let (ds, e, size, bytes) = ok (encode_utf8 s) in
    (hex_bytes ds, rw e, rw size at (hex_bytes-IsHex ds bytes))

hex-hex_i : (s : Text) → all is_hex s ≡ true → all is_hex_i s ≡ true
hex-hex_i [] h = refl
hex-hex_i (c ∷ s) h =
    let (here, later) = &&_true (is_hex c) (all is_hex s) h in rw here (hex-hex_i s later)

-- The checks of the hash never refuse 64 hexadecimal digits.
IsHex-is_hash : (s : Text) → IsHex 64 s → is_hash s ≡ true
unfolding is_hash
IsHex-is_hash s x =
    let size = x.size in
    let long : 1 ≤ length s = omega arith in
    rw (
      not_empty s long,
      (==_iff (length s) 64).1 size,
      is_hex_text_i-join s long (hex-hex_i s x.digits),
    )

module _ (world : World) (site : Site) (input : Text) (app : App) where
  -- The result of `argon2_calc` in the middle.
  abbrev inner : Option Text
  inner = (argon2_calc world.wasm app.wasm_loaded app.argon2_salt input app.heap).0

  abbrev heap_after : Heap
  heap_after = (argon2_calc world.wasm app.wasm_loaded app.argon2_salt input app.heap).1

  -- With the module there and a digest of 32 bytes, a hash of Argon2 always yields the SHA-256 of
  -- it: none of the checks refuses it, and nothing on the page changes.
  pub calc_pass_hash_argon_sha256-some :
      {a : Text}
      → world.argon2_there ≡ true
      → inner ≡ some a
      → IsDigest world.digest
      → (h : Text) × (sha256 world a ≡ some h)
        × IsHex 64 h
        × (calc_pass_hash_argon_sha256 world site input app
            ≡ (some h, record app { heap = heap_after }))
  unfolding calc_pass_hash_argon_sha256
  calc_pass_hash_argon_sha256-some {a} there e ok =
      let (h, hashed, hex) = sha256-IsHex world a ok in
      let size =
        (argon2_calc-IsHex world.wasm app.wasm_loaded app.argon2_salt input app.heap e).size in
      (h, hashed, hex, simp there (rw (e, not_empty a (omega arith), hashed, IsHex-is_hash h hex)))
