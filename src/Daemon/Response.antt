-- ===== src/Daemon/Response.antt =====
-- src/send_response.c and src/send_response_sess.c: the text of a response.
pub mod Reads
pub mod Sessions
use signup_daemon.Prelude.{ℕ, none, some, Option, List, [], ◌∷◌, ◌++◌, codes, length, take}
use signup_daemon.Js.Strings.{Text, decimal}
use signup_daemon.Daemon.{Kind, post_type_str}
use signup_daemon.Daemon.Handler.{Sent, refusal, plain, session}

-- `"\r\n"` in front of a text
abbrev pub then_line : Text → Text
then_line s = 13 ∷ 10 ∷ s

abbrev set_cookies : List Text → Text → Text
set_cookies [] after = after
set_cookies (c ∷ cs) after = codes "Set-Cookie: " ++ (c ++ then_line (set_cookies cs after))

-- The length is that of the whole text, the text itself is cut at 3071 characters; `none` is a null format.
abbrev content_text : Option Text → Text
content_text none = codes "Content-Length: 0" ++ then_line (then_line [])
content_text (some body) =
    codes "Content-Length: " ++ (decimal (length body) ++ then_line (then_line (take 3071 body)))

-- `send_response`, for a response that fits its buffer of 4096 characters
unfoldable pub send_response : ℕ → Text → List Text → Option Text → Text
send_response status status_text cookies body =
    codes "HTTP/1.1 "
    ++ (decimal status
        ++ (b' '
            ∷ (status_text
                ++ then_line (
                    codes "Cache-Control: no-cache, no-store"
                    ++ then_line (set_cookies cookies (content_text body))))))

-- `buf1`, of 99 characters
abbrev pub session_cookie : Kind → Text → Text
session_cookie kind sess =
    take 99 (post_type_str kind ++ (codes "_sess=" ++ (sess ++ codes "; HttpOnly; Max-Age=300")))

abbrev pub salt_member : Kind → Option Text → Text
salt_member kind none = []
salt_member kind (some salt) =
    codes ", \"" ++ (post_type_str kind ++ (codes "_salt\": \"" ++ (salt ++ codes "\"")))

-- The text of `send_response_sess2` and, with a salt, of `send_response_sess3`.
abbrev pub session_body : Kind → Text → Option Text → Text
session_body kind sesv salt =
    codes "{\"ver\": 1, \""
    ++ (post_type_str kind
        ++ (codes "_sess\": \"" ++ (sesv ++ (codes "\"" ++ (salt_member kind salt ++ codes "}")))))

-- What the client gets: `md5` is `execBinaryMd5cookie`.
abbrev pub response_of : Text → Kind → Sent → Text
response_of md5 kind (refusal text) =
    send_response 422 (codes "Unprocessable Entity") [] (some text)
response_of md5 kind plain = send_response 200 (codes "OK") [] none
response_of md5 kind (session sess sesv salt) =
    send_response 200 (codes "OK") (md5 ∷ session_cookie kind sess ∷ [])
      (some (session_body kind sesv salt))
