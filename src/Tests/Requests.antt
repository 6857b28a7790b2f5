-- ===== src/Tests/Requests.antt =====
-- The text of a request, as a proxy passes it on.
use signup_daemon.Prelude.{ℕ, ◌≡◌, refl, ap, ◌++◌, Option, none, some, List, [], ◌∷◌, codes, arith}
use signup_daemon.Js.Strings.{Text}
use signup_daemon.Daemon.{signup, login}
use signup_daemon.Daemon.Request.{Root, object}
use signup_daemon.Daemon.Redis.Actions.{Result, ok}
use signup_daemon.Daemon.RequestLine.{accepted, outside, check_post_type_path}
use signup_daemon.Daemon.Handler.{http_server_main_loop_handler}
use signup_daemon.Daemon.Server.{serve_request, http_get_client_ip}
use signup_daemon.Daemon.Server.Lines.{request_text}
use signup_daemon.Daemon.Server.Headers.{post_line, cookie_line}
use signup_daemon.Daemon.Server.Reads.{serve_request-request_text}
use signup_daemon.Js.Json.{Scalar}
use signup_daemon.Js.Json.Read.{read_object}
use signup_daemon.Messages.{Site, login}
use signup_daemon.Session.{session_request}
use signup_daemon.PassHash.{pass_json}
use signup_daemon.Daemon.Accepts.{loaded}
use signup_daemon.Daemon.Accounts.Library.{ReadsObjects}
use signup_daemon.Daemon.Accounts.Visits.{asks, submits}
use signup_daemon.Daemon.Accounts.Posts.{
  Route, IsRoute, first_post, later_post, handled, serve_request-pass_json,
}
use signup_daemon.Tests.{sess, old_salt, user}
use signup_daemon.Tests.Server.{crypto, digest_hex, user_valid, sess-IsField, digest_hex-IsField}
use signup_daemon.Tests.Journeys.{old_salt-IsField}
use signup_daemon.Tests.Memory.{redis}

abbrev json : Text → Option Root
json body = some (object [])

abbrev before : List Text
before = codes "Host: example.org" ∷ codes "User-Agent: test" ∷ []

abbrev more : List Text
more = codes "Content-Length: 2" ∷ []

serve_request-request_text_example :
    serve_request redis crypto json none []
      (sess, old_salt)
      (request_text
        (post_line login (codes "a" ∷ []) [] (codes "1.1"))
        ((codes "X-Real-IP: " ++ codes "10.0.0.7") ∷ before ++ cookie_line login sess ∷ more)
        (codes "{}"))
    ≡ some (
        http_server_main_loop_handler redis login crypto (record {
          ip = codes "10.0.0.7";
          ip_pointer = [];
          body = some (json (codes "{}"));
          cookie = ok sess;
          signup_sess = sess;
          signup_sesv = old_salt;
        }))
serve_request-request_text_example =
    serve_request-request_text redis crypto json none [] (sess, old_salt) login (codes "a" ∷ []) []
      (codes "1.1") (codes "10.0.0.7") sess (codes "{}") before more refl refl refl refl refl
      (omega arith) refl refl refl (omega arith) (omega arith)

-- A library that reads what the reader of objects reads.
abbrev library_value : Option (List (Text × Scalar)) → Option Root
library_value none = none
library_value (some ms) = some (object (loaded ms))

abbrev library : Text → Option Root
library t = library_value (read_object t)

library-ReadsObjects : ReadsObjects library
library-ReadsObjects = record { reads = λ t e differ small. ap library_value e }

abbrev route : Route
route = record {
  segments = codes "a" ∷ [];
  protocol = codes "1.1";
  ip = codes "10.0.0.7";
  before = before;
  more = more;
}

route-IsRoute : IsRoute route login
route-IsRoute = record {
  no_space = refl;
  no_version = refl;
  one_line = refl;
  plain_address = refl;
  short_address = omega arith;
  lines_before = refl;
  lines_more = refl;
  no_cookies = refl;
}

serve_request-pass_json_example :
    (cookie : Result ℕ Text) × (serve_request redis crypto library none []
        (sess, old_salt)
        (first_post route login (session_request Site.login user).body)
      ≡ handled redis crypto library library-ReadsObjects none []
          (sess, old_salt)
          route
          login
          (asks user)
          cookie)
    × (serve_request redis crypto library none []
          (sess, old_salt)
          (later_post route login old_salt
            (pass_json (codes "login_salt") (some sess) user digest_hex))
        ≡ handled redis crypto library library-ReadsObjects none []
            (sess, old_salt)
            route
            login
            (submits Site.login user sess digest_hex)
            (ok old_salt))
unfolding signup_daemon.Js.Json.stringify
serve_request-pass_json_example =
    serve_request-pass_json redis crypto library library-ReadsObjects none [] (sess, old_salt) route
      Site.login user sess digest_hex old_salt route-IsRoute user_valid sess-IsField
      digest_hex-IsField old_salt-IsField (omega arith) (omega arith)

-- A last part that only begins with the word is taken for the kind.
longer_word : check_post_type_path (codes "POST /signup-other HTTP/1.1") ≡ accepted signup
unfolding check_post_type_path
longer_word = refl

-- Three bytes from the path on: the search for the version leaves what was received.
short_path : check_post_type_path (codes "POST  /x") ≡ outside
unfolding check_post_type_path
short_path = refl

-- The address of this header begins with a space.
forwarded_space :
    http_get_client_ip none
      (codes "POST /login HTTP/1.1" ++ 13 ∷ 10 ∷ codes "X-Forwarded-For: 10.0.0.7")
    ≡ codes " 10.0.0.7"
unfolding http_get_client_ip
forwarded_space = refl
