-- ===== src/TestPage.antt =====
-- signup_html/t2/sTest2.js: the page on which the hashes of a sign-up and a login are computed by hand.
-- sTest2.html holds every element that the script looks up. `argon2_calc` takes one argument, so the
-- configuration that the page reads from its fields and passes as a second has no effect.
pub mod Controls
pub mod Agrees
use signup_daemon.Prelude.{
  ℕ, Bool, true, false, ◌||◌, Option, none, some, List, [], ◌∷◌, ◌++◌, codes, if◌then◌else◌,
}
use mathlib.Core.Option
use signup_daemon.Js.Strings.{Text, is_empty}
use signup_daemon.Js.Json.{text, stringify_indented}
use signup_daemon.Js.Utf8.{encode_utf8}
use signup_daemon.Argon2.{Heap, argon2_calc}
use signup_daemon.App.{World}
use signup_daemon.PassHash.{hex_bytes}

-- The boxes that show the steps of the two computations.
pub record SignupSteps : Type 0 where
  pub salt_username_pwd : Text
  pub argon2_hash : Text
  pub sha256_hash : Text
  pub signup_json : Text

pub record LoginSteps : Type 0 where
  pub salt_username_pwd : Text
  pub argon2_hash : Text
  pub sha256_hash : Text
  pub session_hash : Text
  pub argon2_final : Text
  pub sha256_final : Text
  pub login_json : Text

-- The element `status`: its text and two classes.
pub record Status : Type 0 where
  pub text : Text
  pub loading : Bool
  pub error : Bool

pub record Bench : Type 0 where
  pub status : Status
  pub signup_steps : SignupSteps
  pub login_steps : LoginSteps
  -- `argon2saltsalt`, if it is set, and the state of the Argon2 module
  pub argon2_salt : Option Text
  pub wasm_loaded : Bool
  pub heap : Heap

-- What the user entered.
pub record SignupInputs : Type 0 where
  pub username : Text
  pub password : Text
  pub signup_session : Text

pub record LoginInputs : Type 0 where
  pub username : Text
  pub password : Text
  pub signup_session : Text
  pub login_session : Text

-- What an assignment to `textContent` makes of `null`.
abbrev pub or_empty : Option Text → Text
or_empty none = []
or_empty (some t) = t

-- `calculateSHA256`; `none` is an exception, which a digest of `null` is too.
unfoldable pub calculate_sha256 : World → Option Text → Option Text
unfolding encode_utf8 hex_bytes
calculate_sha256 world none = none
calculate_sha256 world (some s) = Option.map hex_bytes (world.digest (encode_utf8 s))

abbrev pub set_status : Text → Bool → Bool → Bench → Bench
set_status t loading error b = record b {
  status = record { text = t; loading = loading; error = error };
}

-- A missing input adds the class `error` and leaves the class `loading`.
abbrev pub complain : Text → Bench → Bench
complain t b = set_status t b.status.loading true b

-- The `catch`, with the exception's message.
abbrev pub fail_with : Text → Bench → Bench
fail_with message b = set_status (codes "Error: " ++ message) false true b

-- One hash by Argon2 of a text under a salt, which becomes the global variable.
abbrev pub run_argon2 : World → Text → Text → Bench → Option Text × Bench
run_argon2 world salt input b =
    let (hash, heap) = argon2_calc world.wasm b.wasm_loaded (some salt) input b.heap in
    (hash, record b { argon2_salt = some salt; heap = heap })

-- `${salt}:${username}:${secret}`
abbrev pub join_input : Text → Text → Text → Text
join_input salt username secret = salt ++ b':' ∷ username ++ b':' ∷ secret

abbrev pub signup_payload : SignupInputs → Text → Text
signup_payload i hash = stringify_indented (
    (codes "username", text i.username)
    ∷ (codes "signup_salt", text i.signup_session)
    ∷ (codes "passwd", text hash)
    ∷ [])

abbrev finish_signup : Text → SignupInputs → Option Text → Bench → Bench
finish_signup message i none b = fail_with message b
finish_signup message i (some hash) b =
    set_status (codes "SignUp Hash calculated successfully") false b.status.error (record b {
      signup_steps = record b.signup_steps {
        sha256_hash = hash;
        signup_json = signup_payload i hash;
      };
    })

abbrev signup_hashed : World → Text → SignupInputs → Option Text × Bench → Bench
signup_hashed world message i (hash, b) =
    finish_signup message i (calculate_sha256 world hash)
      (record b { signup_steps = record b.signup_steps { argon2_hash = or_empty hash } })

-- The click on `calculate-signup`.
unfoldable pub calculate_signup : World → Text → SignupInputs → Bench → Bench
unfolding calculate_sha256
calculate_signup world message i b =
    let input = join_input i.signup_session i.username i.password in
    let started = set_status (codes "SignUp Calculating...starting") true false b in
    let shown = record started {
      signup_steps = record started.signup_steps { salt_username_pwd = input };
    } in
    if is_empty i.username || is_empty i.password || is_empty i.signup_session
    then complain (codes "Please fill in all fields") b
    else signup_hashed world message i (run_argon2 world i.signup_session input shown)

abbrev pub login_payload : LoginInputs → Text → Text
login_payload i hash = stringify_indented (
    (codes "username", text i.username)
    ∷ (codes "login_salt", text i.login_session)
    ∷ (codes "passwd", text hash)
    ∷ [])

abbrev finish_login : Text → LoginInputs → Option Text → Bench → Bench
finish_login message i none b = fail_with message b
finish_login message i (some hash) b =
    set_status (codes "Login hash calculated successfully") false b.status.error (record b {
      login_steps = record b.login_steps { sha256_final = hash; login_json = login_payload i hash };
    })

abbrev final_hashed : World → Text → LoginInputs → Option Text × Bench → Bench
final_hashed world message i (hash, b) =
    finish_login message i (calculate_sha256 world hash)
      (record b { login_steps = record b.login_steps { argon2_final = or_empty hash } })

-- The second round, over the session of the login and the hash of the sign-up.
abbrev second_round : World → Text → LoginInputs → Option Text → Bench → Bench
second_round world message i none b = fail_with message b
second_round world message i (some hash) b =
    let input = join_input i.login_session i.username hash in
    final_hashed world message i (
      run_argon2 world i.login_session input (record b {
        login_steps = record b.login_steps { sha256_hash = hash; session_hash = input };
      }))

abbrev login_hashed : World → Text → LoginInputs → Option Text × Bench → Bench
login_hashed world message i (hash, b) =
    second_round world message i (calculate_sha256 world hash)
      (record b { login_steps = record b.login_steps { argon2_hash = or_empty hash } })

-- The click on `calculate-login`.
unfoldable pub calculate_login : World → Text → LoginInputs → Bench → Bench
unfolding calculate_sha256
calculate_login world message i b =
    let input = join_input i.signup_session i.username i.password in
    let started = set_status (codes "Calculating login hash...starting") true false b in
    let shown = record started {
      login_steps = record started.login_steps { salt_username_pwd = input };
    } in
    if is_empty i.username
      || is_empty i.password
      || is_empty i.signup_session
      || is_empty i.login_session
    then complain (codes "Please fill in all login fields") b
    else login_hashed world message i (run_argon2 world i.signup_session input shown)
