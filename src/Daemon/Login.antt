-- ===== src/Daemon/Login.antt =====
-- A login that the page and the daemon carry out together.
use signup_daemon.Prelude.{
  ℕ, ◌≤◌, ◌≡◌, refl, ◌∙◌, sym, ap, ap₂, not, false, if◌then◌else◌, Bool, true, ◌↔◌, Option, none,
  some, [], ◌∷◌, arith, length, length-append, all, all-append, &&_true, take, codes,
}
use signup_daemon.Js.Strings.{Text}
use signup_daemon.Js.Strings.Laws.{text_eq_refl, eq_of_text_eq}
use signup_daemon.Js.Json.{Json}
use signup_daemon.Messages.{signup, login}
use signup_daemon.App.{World, App}
use signup_daemon.Validators.{is_name_char, is_valid_username}
use signup_daemon.Validators.Username.{HasForm-names, is_valid_username_iff}
use signup_daemon.PassHash.{argon_input, pass_json, calc_pass_hash}
use signup_daemon.PassHash.Hex.{IsHex}
use signup_daemon.PassHash.Session.{Holds}
use signup_daemon.PassHash.Bodies.{
  IsReady, password_hash, calc_pass_hash-signup, calc_pass_hash-login,
}
use signup_daemon.Daemon.Hash.{
  Crypto, compute_signup_hash2, argon_input_for_login, same_start, compare_hash,
  calc_hash_for_login,
}
use signup_daemon.Daemon.Agrees.{
  SameLibraries, is_ascii, take-all, hex-ascii, password_hash-compute_signup_hash2,
  calc_hash_for_login_self,
}

abbrev verdict : Bool → ℕ
verdict same = if not same then 242041 else 0

passed : (same : Bool) → verdict same ≡ 0 → same ≡ true
passed true h = refl
passed false h = absurd (omega arith)

compared :
    (trying_hash : Text) (computed : Option Text)
    → compare_hash trying_hash computed ≡ 0
    → (hash : Text) × (computed ≡ some hash) × (take 64 hash ≡ take 64 trying_hash)
compared trying_hash none h = absurd (omega arith)
compared trying_hash (some hash) h =
    (hash, refl, eq_of_text_eq _ _ (passed (same_start 64 hash trying_hash) h))

-- A submitted hash passes exactly if the daemon computes a hash and the two begin with the same 64
-- characters; any other hash is refused.
pub calc_hash_for_login_iff :
    (crypto : Crypto) (username login_sess storage_hash trying_hash : Text)
    → (calc_hash_for_login crypto username login_sess storage_hash trying_hash ≡ 0) ↔ (
        (hash : Text) × (compute_signup_hash2 crypto
            (argon_input_for_login login_sess username storage_hash)
            login_sess
          ≡ some hash)
        × (take 64 hash ≡ take 64 trying_hash))
unfolding calc_hash_for_login
calc_hash_for_login_iff crypto username login_sess storage_hash trying_hash =
    (compared trying_hash _, λ (hash, e, same). rw (e, same, text_eq_refl (take 64 trying_hash)))

name_char-ascii : (c : ℕ) → is_name_char c ≡ true → is_ascii c ≡ true
name_char-ascii c h = ground arith

names-ascii : (s : Text) → all is_name_char s ≡ true → all is_ascii s ≡ true
names-ascii [] h = refl
names-ascii (c ∷ s) h =
    let (here, later) = &&_true _ _ h in rw (name_char-ascii c here) (names-ascii s later)

-- The three parts fit the buffer of the daemon, which then holds the message of the page.
argon_input_for_login-argon_input :
    (sess name hash : Text)
    → length sess ≡ 32
    → length name ≤ 20
    → length hash ≡ 64
    → argon_input_for_login sess name hash ≡ argon_input (some sess) name hash
argon_input_for_login-argon_input sess name hash s n h =
    let whole = argon_input (some sess) name hash in
    let size : length whole ≤ 254 = rw (length-append, length-append) (omega arith) in
    rw (take-all 32 sess (omega arith), take-all 64 hash (omega arith)) (take-all 254 whole size)

-- The daemon's hash of what the login page hashes, for a session and a stored hash of hexadecimal
-- digits and a name that the form accepts.
module _ (world : World) (crypto : Crypto) (same : SameLibraries world crypto) where
  second_hash :
      (sess name stored : Text) {h : Text}
      → IsHex 32 sess
      → is_valid_username name ≡ (true, true)
      → IsHex 64 stored
      → password_hash world sess (argon_input (some sess) name stored) ≡ some h
      → calc_hash_for_login crypto name sess stored h ≡ 0
  second_hash sess name stored {h} sess_hex valid stored_hex e =
      let (form, _, below) = (is_valid_username_iff name).0 valid in
      let plain_name = names-ascii name (HasForm-names name form) in
      let plain_sess = hex-ascii sess sess_hex.digits in
      let plain_stored = hex-ascii stored stored_hex.digits in
      let plain : all is_ascii (argon_input (some sess) name stored) ≡ true =
        rw (all-append, all-append, plain_sess, plain_name) plain_stored in
      let size = sess_hex.size in
      let message = argon_input_for_login-argon_input sess name stored size below stored_hex.size in
      calc_hash_for_login_self world crypto same name sess stored (
        ap (λ m. compute_signup_hash2 crypto m sess) message
        ∙ password_hash-compute_signup_hash2 world crypto same sess
            (argon_input (some sess) name stored) (omega arith) plain_sess plain e)

  -- The whole protocol: a name that the form accepts and a password are entered on the sign-up page,
  -- to which the server gave a session, and later on the login page, to which it gave that session as
  -- the salt and a session of the login. Where the scripts are ready on both and the libraries of the
  -- browser and the server compute the same functions, the hash that the login page posts passes the
  -- daemon's test against the hash that the sign-up page posted.
  pub calc_hash_for_login-calc_pass_hash :
      (signup_answer login_answer : Json) (app app' : App) {name salt sess : Text}
      → IsReady world
      → is_valid_username name ≡ (true, true)
      → app.real_username ≡ name
      → app'.real_username ≡ name
      → app.real_password ≡ app'.real_password
      → app.wasm_loaded ≡ true
      → app'.wasm_loaded ≡ true
      → Holds signup_answer (codes "signup_sess") 32 salt
      → Holds login_answer (codes "login_salt") 32 salt
      → Holds login_answer (codes "login_sess") 32 sess
      → (stored trying : Text) × ((calc_pass_hash world signup signup_answer app).0
          ≡ some (pass_json (codes "signup_salt") (some salt) name stored))
        × ((calc_pass_hash world login login_answer app').0
            ≡ some (pass_json (codes "login_salt") (some sess) name trying))
        × (calc_hash_for_login crypto name sess stored trying ≡ 0)
  calc_hash_for_login-calc_pass_hash signup_answer login_answer app app' {name} {salt} {sess} ready
        valid named named' secrets on on' given given_salt given_sess =
      let (h1, heap1, value1, hex1, body1) =
        calc_pass_hash-signup world ready signup_answer app on given in
      let (k1, k2, heap2, first2, second2, hex2, body2) =
        calc_pass_hash-login world ready login_answer app' on' given_salt given_sess in
      let first_of : Text → Text → Option Text =
        λ n p. password_hash world salt (argon_input (some salt) n p) in
      let at_signup = sym (ap₂ first_of named secrets) ∙ value1 in
      let at_login = sym (ap (λ n. first_of n app'.real_password) named') ∙ first2 in
      let stored_is : k1 ≡ h1 = cc in
      let trying_is : password_hash world sess (argon_input (some sess) name h1) ≡ some k2 =
        sym (ap₂ (λ n k. password_hash world sess (argon_input (some sess) n k)) named' stored_is)
        ∙ second2 in
      (
        h1,
        k2,
        ap (λ r. r.0) body1
            ∙ ap (λ n. some (pass_json (codes "signup_salt") (some salt) n h1)) named,
        ap (λ r. r.0) body2
            ∙ ap (λ n. some (pass_json (codes "login_salt") (some sess) n k2)) named',
        second_hash sess name h1 given_sess.hex valid hex1 trying_is,
      )
