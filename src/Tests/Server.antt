-- ===== src/Tests/Server.antt =====
-- The daemon with a stand-in for Redis that knows one user and one session.
use signup_daemon.Prelude.{
  ℕ, ◌≡◌, ◌↔◌, refl, Bool, true, false, none, some, List, [], ◌∷◌, ◌++◌, ◌||◌, codes, take,
  get_elem?, replicate, if◌then◌else◌,
}
use signup_daemon.Js.Strings.{Text, text_eq, strip_prefix}
use signup_daemon.Js.Json.{Scalar, Json, num, str, obj, no_fields, field}
use signup_daemon.Js.Json.Read.{read_object}
use signup_daemon.Messages.{signup, login}
use signup_daemon.App.{App}
use signup_daemon.Validators.{is_valid_username}
use signup_daemon.Session.{session_request}
use signup_daemon.PassHash.{calc_pass_hash, pass_json}
use signup_daemon.PassHash.Session.{Holds}
use signup_daemon.Daemon.{signup, login}
use signup_daemon.Daemon.Guards.{IsField, lowered, validate_username}
use signup_daemon.Daemon.Names.{validate_username-is_valid_username}
use signup_daemon.Daemon.Request.{Value, string, integer, object, empty_request, parse_session_json}
use signup_daemon.Daemon.Accepts.{
  kind_of, salt_name, loaded, full_request, parse_session_json-accepts,
}
use signup_daemon.Daemon.Hash.{
  Crypto, compute_signup_hash2, argon_input_for_login, calc_hash_for_login,
}
use signup_daemon.Daemon.Agrees.{SameLibraries, bytes_from}
use signup_daemon.Daemon.Login.{calc_hash_for_login_iff, calc_hash_for_login-calc_pass_hash}
use signup_daemon.Daemon.Redis.{Redis, Connection, Reply, status, number, string, error}
use signup_daemon.Daemon.Redis.Actions.{Result, ok, err, ◌>>=◌, or_raise}
use signup_daemon.Daemon.Cookies.{cookie_extract, Fits, cookie_extract-Fits}
use signup_daemon.Daemon.Handler.{
  Exchange, Outcome, plain, redis_check_ip, http_server_main_loop_handler,
}
use signup_daemon.Daemon.Handler.Safety.{HasBody, http_server_main_loop_handler-HasBody}
use signup_daemon.Daemon.Handler.Limits.{IsWithin, redis_check_ip-IsWithin}
use signup_daemon.Tests.{user, sess, old_salt, login_members, world, app}
use signup_daemon.Tests.Hashes.{world-IsReady, login_salt-Holds, login_sess-Holds}

abbrev pub crypto : Crypto
crypto = record {
  argon2id_hash_raw = λ t m p message salt n. some (bytes_from (λ i. i) 32 0);
  sha256_bytes = λ bytes. replicate 32 7;
}

same_libraries : SameLibraries (world login_members) crypto
same_libraries = record {
  same_argon2 = λ message salt long. (λ i. i, refl, refl);
  same_sha256 = λ bytes. refl;
}

-- The digest of the stand-in in hexadecimal.
abbrev pub digest_hex : Text
digest_hex = codes "0707070707070707070707070707070707070707070707070707070707070707"

validate_username-is_valid_username_example :
    (validate_username (some (lowered (codes "Abcd-07"))) ≡ true)
    ↔ (is_valid_username (lowered (codes "Abcd-07")) ≡ (true, true))
validate_username-is_valid_username_example = validate_username-is_valid_username (codes "Abcd-07")

pub user_valid : is_valid_username user ≡ (true, true)
unfolding is_valid_username
user_valid = refl

pub sess-IsField : IsField 32 sess
sess-IsField = record { size = refl; digits = refl; some_digit = refl }

pub digest_hex-IsField : IsField 64 digest_hex
digest_hex-IsField = record { size = refl; digits = refl; some_digit = refl }

parse_session_json-accepts_example :
    (first second : List (Text × Scalar)) × (read_object (session_request login user).body
      ≡ some first)
    × (read_object (pass_json (salt_name login) (some sess) user digest_hex) ≡ some second)
    × (parse_session_json (kind_of login) (some (object (loaded first)))
        ≡ (0, record empty_request { username = some user }))
    × (parse_session_json (kind_of login) (some (object (loaded second)))
        ≡ (0, full_request user sess digest_hex))
parse_session_json-accepts_example =
    parse_session_json-accepts login user_valid sess-IsField digest_hex-IsField

calc_hash_for_login_iff_example :
    (calc_hash_for_login crypto user sess digest_hex digest_hex ≡ 0) ↔ (
      (hash : Text) × (compute_signup_hash2 crypto (argon_input_for_login sess user digest_hex) sess
        ≡ some hash)
      × (take 64 hash ≡ take 64 digest_hex))
calc_hash_for_login_iff_example = calc_hash_for_login_iff crypto user sess digest_hex digest_hex

abbrev old_answer : Json
old_answer =
    obj (field (codes "ver") (num 1) (field (codes "signup_sess") (str old_salt) no_fields))

old_answer-Holds : Holds old_answer (codes "signup_sess") 32 old_salt
old_answer-Holds = record {
  members = field (codes "ver") (num 1) (field (codes "signup_sess") (str old_salt) no_fields);
  is_object = refl;
  version = refl;
  member = refl;
  hex = record { size = refl; digits = refl };
}

abbrev named_app : App
named_app = record app { real_username = user }

calc_hash_for_login-calc_pass_hash_example :
    (stored trying : Text) × ((calc_pass_hash (world login_members) signup old_answer named_app).0
      ≡ some (pass_json (codes "signup_salt") (some old_salt) user stored))
    × ((calc_pass_hash (world login_members) login (obj login_members) named_app).0
        ≡ some (pass_json (codes "login_salt") (some sess) user trying))
    × (calc_hash_for_login crypto user sess stored trying ≡ 0)
calc_hash_for_login-calc_pass_hash_example =
    calc_hash_for_login-calc_pass_hash (world login_members) crypto same_libraries old_answer
      (obj login_members) named_app named_app (world-IsReady login_members) user_valid refl refl
      refl refl refl old_answer-Holds login_salt-Holds login_sess-Holds

abbrev begins : Text → Text → Bool
begins prefix t = elim (strip_prefix prefix t) [ none ↦ false | some rest ↦ true ]

abbrev reply_to : Text → Reply
reply_to t =
    if begins (codes "EXISTS loginUser:") t
      || begins (codes "INCR ") t
      || begins (codes "EXPIRE ") t
    then number 1
    else if begins (codes "EXISTS ") t
    then number 0
    else if begins (codes "HSET ") t
    then number 5
    else if begins (codes "GET ") t
    then string old_salt
    else if text_eq t (codes "HGET loginUser:abcd_efgh1 hash")
    then string digest_hex
    else if begins (codes "HGET ") t
    then string sess
    else status

-- Its state is the list of the commands it got, newest first.
abbrev redis : Redis (List Text)
redis = record {
  connect = λ log. (true, log);
  command = λ text log. (reply_to text, text ∷ log);
  strtol = λ t. none;
  password = codes "pw";
}

abbrev start : Connection (List Text)
start = record { database = none; server = [] }

abbrev members : Text → List (Text × Value)
members salt_member =
    (codes "ver", integer true 1)
    ∷ (codes "username", string user)
    ∷ (salt_member, string sess)
    ∷ (codes "passwd", string digest_hex)
    ∷ []

abbrev input : Text → Exchange
input salt_member = record {
  ip = codes "10.0.0.7";
  ip_pointer = 0x90 ∷ 0x11 ∷ [];
  body = some (some (object (members salt_member)));
  cookie = ok old_salt;
  signup_sess = old_salt;
  signup_sesv = sess;
}

abbrev login_result : Result Outcome Outcome × Connection (List Text)
login_result = http_server_main_loop_handler redis login crypto (input (codes "login_salt")) start

login_passes : login_result ≡ (ok (record { code = 0; sent = plain ∷ [] }), login_result.1)
unfolding http_server_main_loop_handler ◌>>=◌ or_raise
login_passes = refl

http_server_main_loop_handler-HasBody_example :
    (limits : Connection (List Text)) × IsWithin redis login
      (input (codes "login_salt")).ip
      start
      limits
    × HasBody redis crypto (input (codes "login_salt")) limits login_result.1
http_server_main_loop_handler-HasBody_example =
    http_server_main_loop_handler-HasBody redis crypto (input (codes "login_salt")) start
      login_result.1 login_passes refl

abbrev checked : Result ℕ Bool × Connection (List Text)
checked = redis_check_ip redis login (codes "10.0.0.7") start

checked_passes : checked ≡ (ok true, checked.1)
unfolding redis_check_ip ◌>>=◌
checked_passes = refl

redis_check_ip-IsWithin_example : IsWithin redis login (codes "10.0.0.7") start checked.1
redis_check_ip-IsWithin_example =
    redis_check_ip-IsWithin redis login (codes "10.0.0.7") start checked.1 checked_passes

abbrev signup_result : Result Outcome Outcome × Connection (List Text)
signup_result =
    http_server_main_loop_handler redis signup crypto (input (codes "signup_salt")) start

-- The user exists, and a sign-up under the name is answered with success all the same: the name is
-- looked up under `signupUser:`, and the record under `loginUser:` is written over.
signup_overwrites :
    (reply_to (codes "EXISTS loginUser:abcd_efgh1") ≡ number 1)
    × (signup_result.0 ≡ ok (record { code = 0; sent = plain ∷ [] }))
    × (take 2 signup_result.1.server
        ≡ codes "EXPIRE loginUser:abcd_efgh1 2592000"
          ∷ (codes "HSET loginUser:abcd_efgh1 hash "
              ++ digest_hex
              ++ codes " salt "
              ++ sess
              ++ codes " level 0 status active")
          ∷ [])
unfolding http_server_main_loop_handler ◌>>=◌ or_raise
signup_overwrites = (refl, refl, refl)

-- The address is in no command that marks a success: the key holds what stands at the pointer.
signup_marks_no_address :
    get_elem? signup_result.1.server 3
    ≡ some (codes "SET signupOK:" ++ (input (codes "signup_salt")).ip_pointer ++ codes " 1 EX 3600")
unfolding http_server_main_loop_handler ◌>>=◌ or_raise
signup_marks_no_address = refl

abbrev failing : Redis (List Text)
failing = record redis {
  command = λ text log. (if begins (codes "SET ") text then error else reply_to text, text ∷ log);
}

abbrev first_input : Exchange
first_input = record (input (codes "signup_salt")) {
  body =
      some (some (object ((codes "ver", integer true 1) ∷ (codes "username", string user) ∷ [])));
}

-- Where a session cannot be stored, no response is sent.
no_session-no_response :
    (http_server_main_loop_handler failing signup crypto first_input start).0
    ≡ err (record { code = 211051; sent = [] })
unfolding http_server_main_loop_handler ◌>>=◌ or_raise
no_session-no_response = refl

abbrev crlf : Text
crlf = 13 ∷ 10 ∷ []

abbrev request_text : Text
request_text =
    codes "POST /login HTTP/1.1"
    ++ crlf
    ++ codes "cookie: a=1; xlogin_sess=no; login_sess=0a1b; b=2"
    ++ crlf
    ++ crlf
    ++ codes "{}"

cookie_found : cookie_extract request_text 33 (codes "login_sess") ≡ ok (codes "0a1b")
unfolding cookie_extract
cookie_found = refl

-- A value of the size of the buffer is refused, and a request without an empty line too.
cookie_refused :
    (cookie_extract request_text 4 (codes "login_sess") ≡ err 125005)
    × (cookie_extract (codes "POST /login") 33 (codes "login_sess") ≡ err 125003)
    × (cookie_extract request_text 33 (codes "signup_sess") ≡ err 125009)
unfolding cookie_extract
cookie_refused = (refl, refl, refl)

cookie_extract-Fits_example : Fits 33 (codes "0a1b")
cookie_extract-Fits_example = cookie_extract-Fits request_text 33 (codes "login_sess") cookie_found
