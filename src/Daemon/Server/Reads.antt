-- ===== src/Daemon/Server/Reads.antt =====
-- A request as a browser and a proxy write it, and what the daemon reads in it.
use signup_daemon.Prelude.{
  ℕ, ◌≤◌, ◌<◌, ◌≡◌, ◌∙◌, ap, true, not, Option, none, some, List, ◌∷◌, ◌++◌, codes, length, all,
  append_assoc,
}
use signup_daemon.Js.Strings.{Text}
use signup_daemon.Daemon.{Kind, post_type_str}
use signup_daemon.Daemon.Request.{Root}
use signup_daemon.Daemon.Cookies.{is_there, in_value, is_cookie_line, cookie_extract}
use signup_daemon.Daemon.RequestLine.{accepted, before_http, check_post_type_path}
use signup_daemon.Daemon.RequestLine.Reads.{
  path_of, is_no_slash, is_no_space, http_version, check_post_type_path-line,
}
use signup_daemon.Daemon.Hash.{Crypto}
use signup_daemon.Daemon.Redis.{Redis}
use signup_daemon.Daemon.Redis.Actions.{Result, ok}
use signup_daemon.Daemon.Handler.{http_server_main_loop_handler}
use signup_daemon.Daemon.Agrees.{take-all}
use signup_daemon.Daemon.Server.{serve_line, serve_read, serve_request}
use signup_daemon.Daemon.Server.Lines.{
  is_line_char, is_line, tail_of, empty_line, request_text, body_of-request_text,
}
use signup_daemon.Daemon.Server.Headers.{
  post_line, cookie_name, cookie_line, cookie_extract-request_text, http_get_client_ip-request_text,
}

pub serve_request-lines :
    {S : Type 0} (redis : Redis S) (crypto : Crypto) (json : Text → Option Root)
    (peer : Option Text) (pointer : Text) (pair : Text × Text) (kind : Kind) (segments : List Text)
    (t rest ip body : Text) (lines : List Text)
    → all is_no_slash t ≡ true
    → all is_no_space (path_of segments ++ b'/' ∷ (post_type_str kind ++ t)) ≡ true
    → before_http (path_of segments ++ b'/' ∷ (post_type_str kind ++ t)) ≡ none
    → all is_line_char (post_line kind segments t rest) ≡ true
    → all is_line_char ip ≡ true
    → length ip ≤ 15
    → all is_line lines ≡ true
    → {cookie : Result ℕ Text}
    → cookie_extract
        (request_text (post_line kind segments t rest) ((codes "X-Real-IP: " ++ ip) ∷ lines) body)
        33
        (cookie_name kind)
      ≡ cookie
    → length
        (request_text (post_line kind segments t rest) ((codes "X-Real-IP: " ++ ip) ∷ lines) body)
      ≤ 1024
    → serve_request redis crypto json peer pointer pair
        (request_text (post_line kind segments t rest) ((codes "X-Real-IP: " ++ ip) ∷ lines) body)
      ≡ some (
          http_server_main_loop_handler redis kind crypto (record {
            ip = ip;
            ip_pointer = pointer;
            body = some (json body);
            cookie = cookie;
            signup_sess = pair.0;
            signup_sesv = pair.1;
          }))
unfolding serve_request
serve_request-lines redis crypto json peer pointer pair kind segments t rest ip body lines one_part
      no_space free first plain small others cookie fits =
    let all_lines = (codes "X-Real-IP: " ++ ip) ∷ lines in
    let text = request_text (post_line kind segments t rest) all_lines body in
    let is_kind : check_post_type_path text ≡ accepted kind =
      ap (λ s. check_post_type_path (codes "POST " ++ s))
        (append_assoc (path_of segments ++ b'/' ∷ (post_type_str kind ++ t)) (http_version rest)
          (tail_of all_lines ++ empty_line body))
      ∙ check_post_type_path-line kind segments t (rest ++ (tail_of all_lines ++ empty_line body))
          one_part no_space free in
    let address =
      http_get_client_ip-request_text peer (post_line kind segments t rest) ip lines body first
        plain small in
    let with_address : all is_line all_lines ≡ true = rw plain others in
    let after =
      body_of-request_text (post_line kind segments t rest) all_lines body first with_address in
    ap (serve_read redis crypto json peer pointer pair) (take-all 1024 text fits)
    ∙ ap (serve_line redis crypto json peer pointer pair text) is_kind
    ∙ rw (address, after, cookie)

-- A request of at most 1024 bytes, which one `read` brings whole, reaches the handler of its kind as it
-- was written: the request line names the kind at the
-- end of its path, the next line is the X-Real-IP of the proxy, of at most 15 characters, some line
-- further on is the first with a cookie, and that is the session of the kind, with a value of
-- fewer than 33 characters. No line is empty or holds a line end, and the path has neither a space nor
-- "HTTP/". Then the handler gets that address, what follows the empty line as the body, whatever
-- the JSON library makes of it, and the value of the cookie.
pub serve_request-request_text :
    {S : Type 0} (redis : Redis S) (crypto : Crypto) (json : Text → Option Root)
    (peer : Option Text) (pointer : Text) (pair : Text × Text) (kind : Kind) (segments : List Text)
    (t rest ip value body : Text) (before more : List Text)
    → all is_no_slash t ≡ true
    → all is_no_space (path_of segments ++ b'/' ∷ (post_type_str kind ++ t)) ≡ true
    → before_http (path_of segments ++ b'/' ∷ (post_type_str kind ++ t)) ≡ none
    → all is_line_char (post_line kind segments t rest) ≡ true
    → all is_line_char ip ≡ true
    → length ip ≤ 15
    → all is_line (before ++ cookie_line kind value ∷ more) ≡ true
    → all (λ l. not (is_there (is_cookie_line l))) before ≡ true
    → all in_value value ≡ true
    → length value < 33
    → length (
        request_text
          (post_line kind segments t rest)
          ((codes "X-Real-IP: " ++ ip) ∷ before ++ cookie_line kind value ∷ more)
          body)
      ≤ 1024
    → serve_request redis crypto json peer pointer pair (
        request_text
          (post_line kind segments t rest)
          ((codes "X-Real-IP: " ++ ip) ∷ before ++ cookie_line kind value ∷ more)
          body)
      ≡ some (
          http_server_main_loop_handler redis kind crypto (record {
            ip = ip;
            ip_pointer = pointer;
            body = some (json body);
            cookie = ok value;
            signup_sess = pair.0;
            signup_sesv = pair.1;
          }))
serve_request-request_text redis crypto json peer pointer pair kind segments t rest ip value body
      before more one_part no_space free first plain small lines others in_cookie short fits =
    let with_address : all is_line
          ((codes "X-Real-IP: " ++ ip) ∷ before ++ cookie_line kind value ∷ more)
        ≡ true =
      rw plain lines in
    serve_request-lines redis crypto json peer pointer pair kind segments t rest ip body
      (before ++ cookie_line kind value ∷ more) one_part no_space free first plain small lines
      (cookie_extract-request_text kind 33 (post_line kind segments t rest)
        ((codes "X-Real-IP: " ++ ip) ∷ before) more value body first with_address others in_cookie
        short)
      fits
