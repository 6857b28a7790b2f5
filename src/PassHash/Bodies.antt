-- ===== src/PassHash/Bodies.antt =====
-- The bodies that `calc_passHash` makes on the two sites.
use signup_daemon.Prelude.{◌≤◌, ◌≡◌, ◌∙◌, true, Option, none, some, arith, length, codes}
use signup_daemon.Js.Strings.{Text}
use signup_daemon.Js.Json.{Json}
use signup_daemon.Argon2.{Heap}
use signup_daemon.Argon2.Calc.{argon2_value, argon2_calc-value}
use signup_daemon.Messages.{Site, signup, login}
use signup_daemon.App.{World, App}
use signup_daemon.PassHash.{sha256, argon_input, hash_with, pass_json, calc_pass_hash}
use signup_daemon.PassHash.Hex.{IsHex}
use signup_daemon.PassHash.Session.{Holds, json_get_hex_len_iff}
use signup_daemon.PassHash.Hash.{IsDigest, calc_pass_hash_argon_sha256-some}

-- SHA-256 in hexadecimal of Argon2 in hexadecimal.
abbrev pub sha256_of : World → Option Text → Option Text
sha256_of world none = none
sha256_of world (some a) = sha256 world a

abbrev pub password_hash : World → Text → Text → Option Text
password_hash world salt message = sha256_of world (argon2_value world.wasm salt message)

-- The scripts are there and do what their documentation says: SHA-256 gives 32 bytes, and Argon2, which
-- has the memory that it asks for, accepts a salt of 8 bytes and more.
pub record IsReady (world : World) : Type 0 where
  pub argon2_there : world.argon2_there ≡ true
  pub digest_ok : IsDigest world.digest
  pub argon2_ok :
      (salt message : Text)
      → 8 ≤ length salt
      → (a : Text) × (argon2_value world.wasm salt message ≡ some a)

module _ (world : World) (ready : IsReady world) where
  -- One round of hashing over a salt.
  hash_with-ready :
      (site : Site) (salt secret : Text) (app : App)
      → app.wasm_loaded ≡ true
      → 8 ≤ length salt
      → (h : Text) × (heap : Heap) × (password_hash world salt
            (argon_input (some salt) app.real_username secret)
          ≡ some h)
        × IsHex 64 h
        × (hash_with world site (some salt) secret app
            ≡ (some h, record app { argon2_salt = some salt; heap = heap }))
  hash_with-ready site salt secret app loaded long =
      let message = argon_input (some salt) app.real_username secret in
      let (a, value) = ready.argon2_ok salt message long in
      let salted : App = record app { argon2_salt = some salt } in
      let e = argon2_calc-value world.wasm salt message app.heap ∙ value in
      let (h, hashed, hex, result) =
        calc_pass_hash_argon_sha256-some world site message salted {a = a} ready.argon2_there
          (simp loaded e) ready.digest_ok in
      (h, _, simp value hashed, hex, result)

  -- With the scripts ready and the module loaded, an answer that holds a sign-up session of 32
  -- hexadecimal digits makes the body of a sign-up: the version, the name, the session, and the
  -- hash of session, name and password under the session as the salt, in 64 hexadecimal digits;
  -- only the salt variable and the heap of the module change.
  pub calc_pass_hash-signup :
      (json : Json) (app : App) {sess : Text}
      → app.wasm_loaded ≡ true
      → Holds json (codes "signup_sess") 32 sess
      → (h : Text) × (heap : Heap) × (password_hash world sess
            (argon_input (some sess) app.real_username app.real_password)
          ≡ some h)
        × IsHex 64 h
        × (calc_pass_hash world signup json app ≡ (
          some (pass_json (codes "signup_salt") (some sess) app.real_username h),
          record app { argon2_salt = some sess; heap = heap },
        ))
  unfolding calc_pass_hash
  calc_pass_hash-signup json app {sess} loaded holds =
      let size = holds.hex.size in
      let (h, heap, hashed, hex, result) =
        hash_with-ready signup sess app.real_password app loaded (omega arith) in
      (
        h,
        heap,
        hashed,
        hex,
        rw (
          (json_get_hex_len_iff json (codes "signup_sess") 32 sess (omega arith)).1 holds,
          result,
        ),
      )

  -- With the scripts ready and the module loaded, an answer that holds the stored salt and a login
  -- session, each of 32 hexadecimal digits, makes the body of a login: the hash of sign-up over
  -- the stored salt is hashed again over the session, and sent with that session; only the salt
  -- variable and the heap of the module change.
  pub calc_pass_hash-login :
      (json : Json) (app : App) {salt sess : Text}
      → app.wasm_loaded ≡ true
      → Holds json (codes "login_salt") 32 salt
      → Holds json (codes "login_sess") 32 sess
      → (h1 h2 : Text) × (heap : Heap) × (password_hash world salt
            (argon_input (some salt) app.real_username app.real_password)
          ≡ some h1)
        × (password_hash world sess (argon_input (some sess) app.real_username h1) ≡ some h2)
        × IsHex 64 h2
        × (calc_pass_hash world login json app ≡ (
          some (pass_json (codes "login_salt") (some sess) app.real_username h2),
          record app { argon2_salt = some sess; heap = heap },
        ))
  unfolding calc_pass_hash
  calc_pass_hash-login json app {salt} {sess} loaded holds_salt holds_sess =
      let size1 = holds_salt.hex.size in
      let size2 = holds_sess.hex.size in
      let (h1, heap1, hashed1, hex1, result1) =
        hash_with-ready login salt app.real_password app loaded (omega arith) in
      let app1 : App = record app { argon2_salt = some salt; heap = heap1 } in
      let (h2, heap2, hashed2, hex2, result2) =
        hash_with-ready login sess h1 app1 loaded (omega arith) in
      (
        h1,
        h2,
        heap2,
        hashed1,
        hashed2,
        hex2,
        rw (
          (json_get_hex_len_iff json (codes "login_salt") 32 salt (omega arith)).1 holds_salt,
          result1,
          (json_get_hex_len_iff json (codes "login_sess") 32 sess (omega arith)).1 holds_sess,
          result2,
        ),
      )
