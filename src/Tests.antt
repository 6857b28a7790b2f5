-- ===== src/Tests.antt =====
-- The concrete page, server and administrator that the examples run on.
pub mod Form
pub mod Hashes
pub mod Administration
pub mod Typing
pub mod Jar
pub mod Bench
pub mod Overlapping
pub mod Loading
pub mod Server
pub mod Memory
pub mod Journeys
pub mod Requests
pub mod Responses
pub mod Order
use signup_daemon.Prelude.{
  ℕ, Bool, true, false, Option, none, some, List, [], ◌∷◌, ◌==◌, codes, if◌then◌else◌, replicate,
}
use signup_daemon.Js.Strings.{Text}
use signup_daemon.Js.Json.{Json, num, str, obj, Fields, no_fields, field}
use signup_daemon.Messages.{Site, signup, login, Messages, get_messages}
use signup_daemon.Page.{Page, Notice, plain, Button}
use signup_daemon.Argon2.{Wasm, Heap}
use signup_daemon.App.{World, App, Request, Fetched, response}

abbrev pub user : Text
user = codes "abcd_efgh1"

abbrev pub secret : Text
secret = codes "Quiet-Owl;92 xk"

abbrev pub sess : Text
sess = codes "0123456789abcdef0123456789abcdef"

abbrev pub old_salt : Text
old_salt = codes "fedcba9876543210fedcba9876543210"

-- The members of the server's first answer on the two sites.
abbrev pub signup_members : Fields
signup_members = field (codes "ver") (num 1) (field (codes "signup_sess") (str sess) no_fields)

abbrev pub login_members : Fields
login_members =
    field (codes "ver") (num 1)
      (field (codes "login_salt") (str old_salt) (field (codes "login_sess") (str sess) no_fields))

abbrev pub page : Page
page = record {
  message = some (plain (codes "old"));
  button =
      some
        (record { label = codes "Sign up"; disabled = false; busy = none; success_state = false });
  timers = [];
  visited = [];
}

abbrev pub messages : Messages
messages = get_messages (codes "en") signup

-- A module whose hash is always the bytes 0, 1, 2, …
abbrev pub counting_wasm : Wasm
counting_wasm = record {
  encodedlen = λ config n. 100;
  allocates = λ size. true;
  hash_ext = λ config password salt version. some (0, λ i. i);
}

-- A server that answers every request by 200, with these members for the session.
abbrev pub world : Fields → World
world members = record {
  fetch = λ n request. response 200 [] (some (codes "{}"));
  typing = λ p. p;
  json_parse = λ t. some (obj members);
  digest = λ bs. some (replicate 32 7);
  wasm = counting_wasm;
  argon2_there = true;
  cookies = codes "a=b; MD5=0a1b2c";
}

abbrev pub app : App
app = record {
  page = page;
  identity = codes " abcd_efgh1 ";
  language = none;
  real_username = [];
  real_password = secret;
  argon2_salt = none;
  wasm_loaded = true;
  heap = record { live = []; next = 8 };
  session = record { body = []; status = []; header = []; json = none };
  requests = [];
}
