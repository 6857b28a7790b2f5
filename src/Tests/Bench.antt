-- ===== src/Tests/Bench.antt =====
-- The test page with the input of the examples.
use signup_daemon.Prelude.{◌≡◌, refl, true, false, none, some, [], codes, arith}
use signup_daemon.Js.Strings.{Text}
use signup_daemon.Js.Json.{obj}
use signup_daemon.Messages.{login}
use signup_daemon.App.{App}
use signup_daemon.PassHash.{calc_pass_hash, pass_json}
use signup_daemon.TestPage.{Bench, SignupInputs, LoginInputs, calculate_login, login_payload}
use signup_daemon.TestPage.Agrees.{SameInput, calculate_login-calc_pass_hash}
use signup_daemon.Tests.{user, secret, sess, old_salt, login_members, world, app}
use signup_daemon.Tests.Hashes.{world-IsReady, login_salt-Holds, login_sess-Holds}

abbrev bench : Bench
bench = record {
  status = record { text = codes "Argon2 ready"; loading = false; error = false };
  signup_steps = record {
    salt_username_pwd = [];
    argon2_hash = [];
    sha256_hash = [];
    signup_json = [];
  };
  login_steps = record {
    salt_username_pwd = [];
    argon2_hash = [];
    sha256_hash = [];
    session_hash = [];
    argon2_final = [];
    sha256_final = [];
    login_json = [];
  };
  argon2_salt = none;
  wasm_loaded = true;
  heap = record { live = []; next = 8 };
}

abbrev named_app : App
named_app = record app { real_username = user }

abbrev signup_inputs : SignupInputs
signup_inputs = record { username = user; password = secret; signup_session = sess }

abbrev login_inputs : LoginInputs
login_inputs = record {
  username = user;
  password = secret;
  signup_session = old_salt;
  login_session = sess;
}

same_input : SameInput bench user secret named_app
same_input = record {
  bench_loaded = refl;
  page_loaded = refl;
  name = refl;
  secret = refl;
  name_given = omega arith;
  secret_given = omega arith;
}

calculate_login-calc_pass_hash_example :
    (h : Text) × ((calc_pass_hash (world login_members) login (obj login_members) named_app).0
      ≡ some (pass_json (codes "login_salt") (some sess) user h))
    × ((calculate_login (world login_members) [] login_inputs bench).login_steps.sha256_final ≡ h)
    × ((calculate_login (world login_members) [] login_inputs bench).login_steps.login_json
        ≡ login_payload login_inputs h)
calculate_login-calc_pass_hash_example =
    calculate_login-calc_pass_hash (world login_members) [] login_inputs bench (obj login_members)
      named_app (world-IsReady login_members) same_input login_salt-Holds login_sess-Holds
