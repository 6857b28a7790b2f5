-- ===== src/Daemon/Accounts/Posts.antt =====
-- The requests of the pages as texts, and the visits that the daemon makes of them.
use signup_daemon.Prelude.{
  ℕ, ◌≤◌, ◌≡◌, refl, ◌∙◌, ap, true, not, Option, none, some, List, [], ◌∷◌, ◌++◌, codes, arith, all,
  all-append, length,
}
use signup_daemon.Js.Strings.{Text}
use signup_daemon.Messages.{Site, signup, login}
use signup_daemon.Session.{session_request}
use signup_daemon.PassHash.{pass_json}
use signup_daemon.Submit.Bodies.{read_object-pass_json}
use signup_daemon.Daemon.{Kind, signup, login, admin, post_type_str}
use signup_daemon.Validators.{is_valid_username}
use signup_daemon.Validators.Username.{HasForm-names, is_valid_username_iff}
use signup_daemon.Daemon.Accepts.{kind_of, salt_name}
use signup_daemon.Daemon.Guards.{IsField}
use signup_daemon.Daemon.Cookies.{is_there, is_cookie_line, cookie_extract}
use signup_daemon.Daemon.Hash.{Crypto}
use signup_daemon.Daemon.Request.{Root}
use signup_daemon.Daemon.Redis.{Redis, Connection}
use signup_daemon.Daemon.Redis.Actions.{Action, Result, ok}
use signup_daemon.Daemon.RequestLine.{before_http}
use signup_daemon.Daemon.RequestLine.Reads.{path_of, is_no_space}
use signup_daemon.Daemon.Server.{serve_request}
use signup_daemon.Daemon.Server.Lines.{is_line_char, is_line, request_text}
use signup_daemon.Daemon.Server.Headers.{hex_text, post_line, cookie_line, cookie_name}
use signup_daemon.Daemon.Server.Reads.{serve_request-request_text, serve_request-lines}
use signup_daemon.Daemon.Handler.{Outcome, http_server_main_loop_handler}
use signup_daemon.Daemon.Accounts.Visits.{asks, submits}
use signup_daemon.Daemon.Accounts.Journey.{visit}
use signup_daemon.Daemon.Accounts.Library.{
  ReadsObjects, name_visible, hex_visible, first_small, members_differ, members_small,
}

-- Where a page posts to, and the lines that the browser and the proxy add.
pub record Route : Type 0 where
  pub segments : List Text
  pub protocol : Text
  pub ip : Text
  pub before : List Text
  pub more : List Text

pub record IsRoute (route : Route) (kind : Kind) : Type 0 where
  pub no_space :
      all is_no_space (path_of route.segments ++ b'/' ∷ (post_type_str kind ++ [])) ≡ true
  pub no_version : before_http (path_of route.segments ++ b'/' ∷ (post_type_str kind ++ [])) ≡ none
  pub one_line : all is_line_char (post_line kind route.segments [] route.protocol) ≡ true
  pub plain_address : all is_line_char route.ip ≡ true
  pub short_address : length route.ip ≤ 15
  pub lines_before : all is_line route.before ≡ true
  pub lines_more : all is_line route.more ≡ true
  pub no_cookies : all (λ l. not (is_there (is_cookie_line l))) route.before ≡ true

abbrev with_lines : Route → Kind → List Text → Text → Text
with_lines route kind lines body =
    request_text (post_line kind route.segments [] route.protocol)
      ((codes "X-Real-IP: " ++ route.ip) ∷ lines) body

-- The text of a request of a page that has no cookie yet, and of one with the session.
abbrev pub first_post : Route → Kind → Text → Text
first_post route kind body = with_lines route kind (route.before ++ route.more) body

abbrev pub later_post : Route → Kind → Text → Text → Text
later_post route kind session body =
    with_lines route kind (route.before ++ cookie_line kind session ∷ route.more) body

cookie_line-is_line :
    (kind : Kind) (s : Text) → all is_line_char s ≡ true → is_line (cookie_line kind s) ≡ true
cookie_line-is_line signup s h = h
cookie_line-is_line login s h = h
cookie_line-is_line admin s h = h

module _ {S : Type 0} (redis : Redis S) (crypto : Crypto) (json : Text → Option Root)
    (library : ReadsObjects json) (peer : Option Text) (pointer : Text) (pair : Text × Text) where
  -- The handler on the visit that a request should be.
  abbrev pub handled :
      Route → Kind → Root → Result ℕ Text → Option (Action (Connection S) Outcome Outcome)
  handled route kind root cookie =
      some
        (http_server_main_loop_handler redis kind crypto (visit route.ip pointer root cookie pair))

  abbrev sent :
      Route → Kind → Result ℕ Text → Option Root → Option (Action (Connection S) Outcome Outcome)
  sent route kind cookie o = some (
      http_server_main_loop_handler redis kind crypto (record {
        ip = route.ip;
        ip_pointer = pointer;
        body = some o;
        cookie = cookie;
        signup_sess = pair.0;
        signup_sesv = pair.1;
      }))

  first_post-handled :
      (route : Route) (kind : Kind) (body : Text) {root : Root}
      → IsRoute route kind
      → json body ≡ some root
      → length (first_post route kind body) ≤ 1024
      → serve_request redis crypto json peer pointer pair (first_post route kind body)
        ≡ handled route kind root
            (cookie_extract (first_post route kind body) 33 (cookie_name kind))
  first_post-handled route kind body r e fits =
      serve_request-lines redis crypto json peer pointer pair kind route.segments [] route.protocol
        route.ip body (route.before ++ route.more) refl r.no_space r.no_version r.one_line
        r.plain_address r.short_address (rw (all-append, r.lines_before) r.lines_more) refl fits
      ∙ ap (sent route kind (cookie_extract (first_post route kind body) 33 (cookie_name kind))) e

  later_post-handled :
      (route : Route) (kind : Kind) (session body : Text) {root : Root}
      → IsRoute route kind
      → IsField 32 session
      → json body ≡ some root
      → length (later_post route kind session body) ≤ 1024
      → serve_request redis crypto json peer pointer pair (later_post route kind session body)
        ≡ handled route kind root (ok session)
  later_post-handled route kind session body r f e fits =
      let same = f.size in
      let (values, chars) = hex_text session f.digits in
      serve_request-request_text redis crypto json peer pointer pair kind route.segments []
        route.protocol route.ip session body route.before route.more refl r.no_space r.no_version
        r.one_line r.plain_address r.short_address
        (rw (all-append, r.lines_before, cookie_line-is_line kind session chars) r.lines_more)
        r.no_cookies values (omega arith) fits
      ∙ ap (sent route kind (ok session)) e

  -- What the pages post arrives. The two bodies of a page, put into a request for the path of its kind
  -- with the address from the proxy, the second with its session in the cookie, are served as the
  -- handler's two visits: one that asks for a session under the name, and one that submits the
  -- session and the hash. The form accepts the name, session and hash are hexadecimal texts of
  -- their lengths, no line is empty or holds a line end, each request has at most 1024 bytes, and the JSON library
  -- reads plain objects.
  pub serve_request-pass_json :
      (route : Route) (site : Site) (name salt hash session : Text)
      → IsRoute route (kind_of site)
      → is_valid_username name ≡ (true, true)
      → IsField 32 salt
      → IsField 64 hash
      → IsField 32 session
      → length (first_post route (kind_of site) (session_request site name).body) ≤ 1024
      → length (
          later_post route
            (kind_of site)
            session
            (pass_json (salt_name site) (some salt) name hash))
        ≤ 1024
      → (cookie : Result ℕ Text) × (serve_request redis crypto json peer pointer pair
            (first_post route (kind_of site) (session_request site name).body)
          ≡ handled route (kind_of site) (asks name) cookie)
        × (serve_request redis crypto json peer pointer pair (
              later_post route
                (kind_of site)
                session
                (pass_json (salt_name site) (some salt) name hash))
            ≡ handled route (kind_of site) (submits site name salt hash) (ok session))
  serve_request-pass_json route site name salt hash session r valid s h f fits_first fits_later =
      let (read_first, read_second) =
        read_object-pass_json site name (salt_name site) hash (some salt) in
      let (form, _, _) = (is_valid_username_iff name).0 valid in
      let visible = name_visible name (HasForm-names name form) in
      (
        _,
        first_post-handled route (kind_of site) _ r
            (library.reads _ read_first refl (first_small name visible)) fits_first,
        later_post-handled route (kind_of site) session _ r f
            (library.reads _ read_second (members_differ site name salt hash) (
              members_small site name salt hash visible (hex_visible salt s.digits)
                (hex_visible hash h.digits)))
            fits_later,
      )
