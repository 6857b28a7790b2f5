-- ===== src/Daemon/Server.antt =====
-- src/http_get_client_ip.c and the body of the loop of src/http_server_main_loop.c: what was received,
-- as the handler sees it.
pub mod Lines
pub mod Headers
pub mod Reads
use signup_daemon.Prelude.{
  ℕ, zero, suc, Bool, true, false, ◌||◌, Option, none, some, [], ◌∷◌, ◌++◌, codes, ◌==◌,
  if◌then◌else◌, drop, take,
}
use signup_daemon.Js.Strings.{Text, strip_prefix, decimal}
use signup_daemon.Daemon.{Kind, post_type_str}
use signup_daemon.Daemon.Guards.{lowered}
use signup_daemon.Daemon.Request.{Root}
use signup_daemon.Daemon.Cookies.{is_there, cookie_extract}
use signup_daemon.Daemon.RequestLine.{Line, accepted, refused, outside, check_post_type_path}
use signup_daemon.Daemon.Hash.{Crypto}
use signup_daemon.Daemon.Redis.{Redis, Connection}
use signup_daemon.Daemon.Redis.Actions.{Action, raise}
use signup_daemon.Daemon.Handler.{Outcome, Exchange, refuse_request, http_server_main_loop_handler}

-- `strcasestr` for a text in small letters, and the step over so many characters
abbrev pub after_name : Text → ℕ → Text → Option Text
after_name name skip [] = none
after_name name skip (c ∷ s) =
    let later = after_name name skip s in
    if is_there (strip_prefix name (lowered (c ∷ s))) then some (drop skip (c ∷ s)) else later

-- The copy into a buffer of 16 bytes.
abbrev pub address_part : ℕ → (ℕ → Bool) → Text → Text
address_part zero ends s = []
address_part (suc room) ends [] = []
address_part (suc room) ends (c ∷ s) =
    let rest = address_part room ends s in if ends c then [] else c ∷ rest

abbrev pub ends_line : ℕ → Bool
ends_line c = c == 13 || c == 10

abbrev pub ends_address : ℕ → Bool
ends_address c = c == 13 || c == 10 || c == b','

-- The address of the socket, where it has one, and else the last resort.
abbrev pub of_socket : Option Text → Text
of_socket none = codes "127.0.0.2"
of_socket (some address) = address

abbrev pub of_forwarded : Option Text → Option Text → Text
of_forwarded peer none = of_socket peer
of_forwarded peer (some s) = address_part 15 ends_address s

abbrev pub of_real : Option Text → Option Text → Option Text → Text
of_real peer forwarded none = of_forwarded peer forwarded
of_real peer forwarded (some s) = address_part 15 ends_line s

-- `http_get_client_ip` where there is memory: the first argument is the address of the socket as
-- `inet_ntop` prints it, for an IPv4 socket.
unfoldable pub http_get_client_ip : Option Text → Text → Text
http_get_client_ip peer buffer =
    of_real peer (after_name (10 ∷ codes "x-forwarded-for: ") 17 buffer)
      (after_name (10 ∷ codes "x-real-ip: ") 12 buffer)

-- `strstr(rece_buffer, "\r\n\r\n")`, and the step over it
abbrev pub body_of : Text → Option Text
body_of [] = none
body_of (c ∷ s) =
    let later = body_of s in
    elim (strip_prefix (13 ∷ 10 ∷ 13 ∷ 10 ∷ []) (c ∷ s)) [ some body ↦ some body | none ↦ later ]

abbrev pub parsed_body : (Text → Option Root) → Option Text → Option (Option Root)
parsed_body json none = none
parsed_body json (some body) = some (json body)

-- What the handler takes from a request: `json` is the JSON library, `pair` the two texts that
-- gen_a_new_md5sum_hex_32byte.c would draw.
abbrev pub exchange_of :
    (Text → Option Root) → Option Text → Text → Text × Text → Kind → Text → Exchange
exchange_of json peer pointer (sess, sesv) kind buffer = record {
  ip = http_get_client_ip peer buffer;
  ip_pointer = pointer;
  body = parsed_body json (body_of buffer);
  cookie = cookie_extract buffer 33 (post_type_str kind ++ codes "_sess");
  signup_sess = sess;
  signup_sesv = sesv;
}

module _ {S : Type 0} (redis : Redis S) (crypto : Crypto) where
  -- `rt` is negative.
  abbrev pub refuse_line : ℕ → Text → Outcome
  refuse_line rt buffer =
      refuse_request rt (codes "20:-" ++ decimal rt ++ codes ":[" ++ take 25 buffer ++ codes "]")

  module _ (json : Text → Option Root) (peer : Option Text) (pointer : Text)
      (pair : Text × Text) where
    -- From the kind on. `none` is a request whose first line is read past its end.
    abbrev pub serve_line : Text → Line → Option (Action (Connection S) Outcome Outcome)
    serve_line buffer (accepted kind) = some (
        http_server_main_loop_handler redis kind crypto
          (exchange_of json peer pointer pair kind buffer))
    serve_line buffer (refused rt) = some (raise (refuse_line rt buffer))
    serve_line buffer outside = none

    -- What `read` has put into the buffer; where there is nothing, the connection is closed.
    abbrev pub serve_read : Text → Option (Action (Connection S) Outcome Outcome)
    serve_read [] = some (raise (record { code = 0; sent = [] }))
    serve_read (c ∷ s) = serve_line (c ∷ s) (check_post_type_path (c ∷ s))

    -- One round of `http_serve` on what has come by the time of its one `read`, of which that takes
    -- REQUEST_MAX_SIZE bytes at most.
    unfoldable pub serve_request : Text → Option (Action (Connection S) Outcome Outcome)
    unfolding check_post_type_path http_get_client_ip cookie_extract http_server_main_loop_handler
    serve_request sent = serve_read (take 1024 sent)
