-- ===== src/TestPage/Agrees.antt =====
-- The test page and the pages of the sites compute the same hashes.
use signup_daemon.Prelude.{
  ◌≤◌, ◌≡◌, refl, ◌∙◌, ap, Bool, true, Option, none, some, arith, length, codes,
}
use signup_daemon.Js.Strings.{Text}
use signup_daemon.Js.Json.{Json}
use signup_daemon.Argon2.{Heap, argon2_calc}
use signup_daemon.Argon2.Calc.{argon2_value, argon2_calc-value}
use signup_daemon.Messages.{signup, login}
use signup_daemon.App.{World, App}
use signup_daemon.PassHash.{sha256, argon_input, pass_json, calc_pass_hash}
use signup_daemon.PassHash.Session.{Holds, not_empty}
use signup_daemon.PassHash.Bodies.{
  IsReady, sha256_of, password_hash, calc_pass_hash-signup, calc_pass_hash-login,
}
use signup_daemon.TestPage.{
  Bench, SignupInputs, LoginInputs, calculate_sha256, join_input, calculate_signup, calculate_login,
  signup_payload, login_payload,
}

-- The two ways to hash an Argon2 hash by SHA-256 are one, where there is a hash.
calculate_sha256-password_hash :
    (world : World) (salt message : Text)
    → calculate_sha256 world (argon2_value world.wasm salt message)
      ≡ password_hash world salt message
unfolding calculate_sha256 sha256
calculate_sha256-password_hash world salt message = same (argon2_value world.wasm salt message)
  where
    same : (o : Option Text) → calculate_sha256 world o ≡ sha256_of world o
    same none = refl
    same (some a) = refl

-- What the page's Argon2 and SHA-256 make of a text.
hashed :
    (world : World) (loaded : Bool) (salt message : Text) (heap : Heap) {h : Text}
    → loaded ≡ true
    → password_hash world salt message ≡ some h
    → calculate_sha256 world (argon2_calc world.wasm loaded (some salt) message heap).0 ≡ some h
hashed world loaded salt message heap there e = rw there (
    ap (calculate_sha256 world) (argon2_calc-value world.wasm salt message heap)
    ∙ calculate_sha256-password_hash world salt message
    ∙ e)

module _ (world : World) (message : Text) (b : Bench) (loaded : b.wasm_loaded ≡ true) where
  calculate_signup-shows :
      (i : SignupInputs) {h : Text}
      → 1 ≤ length i.username
      → 1 ≤ length i.password
      → 1 ≤ length i.signup_session
      → password_hash world i.signup_session (join_input i.signup_session i.username i.password)
        ≡ some h
      → ((calculate_signup world message i b).signup_steps.sha256_hash ≡ h)
        × ((calculate_signup world message i b).signup_steps.signup_json ≡ signup_payload i h)
  unfolding calculate_signup
  calculate_signup-shows i u p s e =
      rw
        (
          not_empty i.username u,
          not_empty i.password p,
          not_empty i.signup_session s,
          hashed world b.wasm_loaded i.signup_session
              (join_input i.signup_session i.username i.password) b.heap loaded e,
        )
        (refl, refl)

  calculate_login-shows :
      (i : LoginInputs) {h1 h2 : Text}
      → 1 ≤ length i.username
      → 1 ≤ length i.password
      → 1 ≤ length i.signup_session
      → 1 ≤ length i.login_session
      → password_hash world i.signup_session (join_input i.signup_session i.username i.password)
        ≡ some h1
      → password_hash world i.login_session (join_input i.login_session i.username h1) ≡ some h2
      → ((calculate_login world message i b).login_steps.sha256_hash ≡ h1)
        × ((calculate_login world message i b).login_steps.sha256_final ≡ h2)
        × ((calculate_login world message i b).login_steps.login_json ≡ login_payload i h2)
  unfolding calculate_login
  calculate_login-shows i u p s l e1 e2 =
      rw
        (
          not_empty i.username u,
          not_empty i.password p,
          not_empty i.signup_session s,
          not_empty i.login_session l,
          hashed world b.wasm_loaded i.signup_session
              (join_input i.signup_session i.username i.password) b.heap loaded e1,
        )
        (rw (hashed world b.wasm_loaded i.login_session _ _ loaded e2) (refl, refl, refl))

-- What the user entered and the globals of a site agree, and both modules are loaded.
pub record SameInput (b : Bench) (username password : Text) (app : App) : Type 0 where
  pub bench_loaded : b.wasm_loaded ≡ true
  pub page_loaded : app.wasm_loaded ≡ true
  pub name : app.real_username ≡ username
  pub secret : app.real_password ≡ password
  pub name_given : 1 ≤ length username
  pub secret_given : 1 ≤ length password

-- The hash of the same input, under its two spellings.
respelled :
    (world : World) (salt : Text) {n m p q h : Text}
    → n ≡ m
    → p ≡ q
    → password_hash world salt (argon_input (some salt) n p) ≡ some h
    → password_hash world salt (join_input salt m q) ≡ some h
respelled world salt names secrets e = rw (← names, ← secrets) e

-- With the scripts ready, the test page shows for a name, a password and a session of 32 hexadecimal
-- digits the very hash that the sign-up page posts for them when the server gave that session.
pub calculate_signup-calc_pass_hash :
    (world : World) (message : Text) (i : SignupInputs) (b : Bench) (json : Json) (app : App)
    → IsReady world
    → SameInput b i.username i.password app
    → Holds json (codes "signup_sess") 32 i.signup_session
    → (h : Text) × ((calc_pass_hash world signup json app).0
        ≡ some (pass_json (codes "signup_salt") (some i.signup_session) i.username h))
      × ((calculate_signup world message i b).signup_steps.sha256_hash ≡ h)
      × ((calculate_signup world message i b).signup_steps.signup_json ≡ signup_payload i h)
calculate_signup-calc_pass_hash world message i b json app ready same holds =
    let (h, heap, value, hex, body) =
      calc_pass_hash-signup world ready json app same.page_loaded holds in
    let size = holds.hex.size in
    let (shown, payload) =
      calculate_signup-shows world message b same.bench_loaded i same.name_given same.secret_given
        (omega arith) (respelled world i.signup_session same.name same.secret value) in
    (
      h,
      ap (λ r. r.0) body
          ∙ ap (λ n. some (pass_json (codes "signup_salt") (some i.signup_session) n h)) same.name,
      shown,
      payload,
    )

-- The same for a login: the test page's second hash, over the sign-up's session and then the login's,
-- is the hash that the login page posts when the server gave both.
pub calculate_login-calc_pass_hash :
    (world : World) (message : Text) (i : LoginInputs) (b : Bench) (json : Json) (app : App)
    → IsReady world
    → SameInput b i.username i.password app
    → Holds json (codes "login_salt") 32 i.signup_session
    → Holds json (codes "login_sess") 32 i.login_session
    → (h : Text) × ((calc_pass_hash world login json app).0
        ≡ some (pass_json (codes "login_salt") (some i.login_session) i.username h))
      × ((calculate_login world message i b).login_steps.sha256_final ≡ h)
      × ((calculate_login world message i b).login_steps.login_json ≡ login_payload i h)
calculate_login-calc_pass_hash world message i b json app ready same holds_salt holds_sess =
    let (h1, h2, heap, value1, value2, hex, body) =
      calc_pass_hash-login world ready json app same.page_loaded holds_salt holds_sess in
    let size1 = holds_salt.hex.size in
    let size2 = holds_sess.hex.size in
    let (_, final, payload) =
      calculate_login-shows world message b same.bench_loaded i same.name_given same.secret_given
        (omega arith) (omega arith) (respelled world i.signup_session same.name same.secret value1)
        (respelled world i.login_session same.name refl value2) in
    (
      h2,
      ap (λ r. r.0) body
          ∙ ap (λ n. some (pass_json (codes "login_salt") (some i.login_session) n h2)) same.name,
      final,
      payload,
    )
