-- ===== src/Daemon/Response/Sessions.antt =====
-- The response that opens a session.
use signup_daemon.Prelude.{
  ℕ, ◌+◌, ◌≤◌, ◌≡◌, refl, ◌∙◌, ap, true, Option, none, some, [], ◌∷◌, ◌++◌, codes, length,
  length-append, all, all-append, arith, &&_true, append_assoc, List,
}
use signup_daemon.Js.Strings.{Text}
use signup_daemon.Daemon.{Kind, signup, login, admin, post_type_str}
use signup_daemon.Daemon.Agrees.{take-all}
use signup_daemon.Daemon.Guards.{IsField}
use signup_daemon.Daemon.Cookies.{header_of, lines_from, in_value, value_part}
use signup_daemon.Daemon.Server.{body_of}
use signup_daemon.Daemon.Server.Lines.{is_line_char}
use signup_daemon.Daemon.Server.Headers.{cookie_line, hex_text}
use signup_daemon.Daemon.Handler.{session}
use signup_daemon.Daemon.Response.{session_cookie, session_body, salt_member, response_of}
use signup_daemon.Daemon.Response.Reads.{status_line, header_lines, send_response-reads}

abbrev pub salt_size : Option Text → ℕ
salt_size none = 0
salt_size (some salt) = length salt

member_size :
    (kind : Kind) (salt : Option Text) → length (salt_member kind salt) ≤ 30 + salt_size salt
member_size kind none = omega arith
member_size signup (some salt) = omega (arith, length-append salt (codes "\""))
member_size login (some salt) = omega (arith, length-append salt (codes "\""))
member_size admin (some salt) = omega (arith, length-append salt (codes "\""))

tail_size :
    (kind : Kind) (sesv : Text) (salt : Option Text)
    → length (sesv ++ (codes "\"" ++ (salt_member kind salt ++ codes "}")))
      ≤ length sesv + 32 + salt_size salt
tail_size kind sesv salt =
    let member = member_size kind salt in
    omega (
      arith,
      length-append sesv (codes "\"" ++ (salt_member kind salt ++ codes "}")),
      length-append (salt_member kind salt) (codes "}"),
    )

body_size :
    (kind : Kind) (sesv : Text) (salt : Option Text)
    → length (session_body kind sesv salt) ≤ 64 + length sesv + salt_size salt
body_size signup sesv salt = let h = tail_size signup sesv salt in omega arith
body_size login sesv salt = let h = tail_size login sesv salt in omega arith
body_size admin sesv salt = let h = tail_size admin sesv salt in omega arith

-- The body as it is sent.
abbrev pub sent_text : Kind → Text → Option Text → Text
sent_text signup sesv none = codes "{\"ver\": 1, \"signup_sess\": \"" ++ (sesv ++ codes "\"}")
sent_text signup sesv (some salt) =
    codes "{\"ver\": 1, \"signup_sess\": \""
    ++ (sesv ++ (codes "\", \"signup_salt\": \"" ++ (salt ++ codes "\"}")))
sent_text login sesv none = codes "{\"ver\": 1, \"login_sess\": \"" ++ (sesv ++ codes "\"}")
sent_text login sesv (some salt) =
    codes "{\"ver\": 1, \"login_sess\": \""
    ++ (sesv ++ (codes "\", \"login_salt\": \"" ++ (salt ++ codes "\"}")))
sent_text admin sesv none = codes "{\"ver\": 1, \"admin_sess\": \"" ++ (sesv ++ codes "\"}")
sent_text admin sesv (some salt) =
    codes "{\"ver\": 1, \"admin_sess\": \""
    ++ (sesv ++ (codes "\", \"admin_salt\": \"" ++ (salt ++ codes "\"}")))

session_body-sent_text :
    (kind : Kind) (sesv : Text) (salt : Option Text)
    → session_body kind sesv salt ≡ sent_text kind sesv salt
session_body-sent_text signup sesv none = refl
session_body-sent_text signup sesv (some salt) =
    ap
      (λ t.
        codes "{\"ver\": 1, \"signup_sess\": \""
        ++ (sesv ++ (codes "\", \"signup_salt\": \"" ++ t)))
      (append_assoc salt (codes "\"") (codes "}"))
session_body-sent_text login sesv none = refl
session_body-sent_text login sesv (some salt) =
    ap
      (λ t.
        codes "{\"ver\": 1, \"login_sess\": \"" ++ (sesv ++ (codes "\", \"login_salt\": \"" ++ t)))
      (append_assoc salt (codes "\"") (codes "}"))
session_body-sent_text admin sesv none = refl
session_body-sent_text admin sesv (some salt) =
    ap
      (λ t.
        codes "{\"ver\": 1, \"admin_sess\": \"" ++ (sesv ++ (codes "\", \"admin_salt\": \"" ++ t)))
      (append_assoc salt (codes "\"") (codes "}"))

value_part-first : (s t : Text) → all in_value s ≡ true → value_part (s ++ b';' ∷ t) ≡ s
value_part-first [] t h = refl
value_part-first (c ∷ s) t h =
    let (here, later) = &&_true (in_value c) _ h in rw (here, value_part-first s t later)

abbrev whole_cookie : Kind → Text → Text
whole_cookie kind sess =
    post_type_str kind ++ (codes "_sess=" ++ (sess ++ codes "; HttpOnly; Max-Age=300"))

cookie_size : (kind : Kind) (sess : Text) → length sess ≡ 32 → length (whole_cookie kind sess) ≤ 99
cookie_size signup sess h = omega (arith, length-append sess (codes "; HttpOnly; Max-Age=300"))
cookie_size login sess h = omega (arith, length-append sess (codes "; HttpOnly; Max-Age=300"))
cookie_size admin sess h = omega (arith, length-append sess (codes "; HttpOnly; Max-Age=300"))

-- What a browser sends back is the part of the cookie in front of the semicolon.
returned :
    (kind : Kind) (sess : Text)
    → all in_value sess ≡ true
    → codes "Cookie: " ++ value_part (whole_cookie kind sess) ≡ cookie_line kind sess
returned signup sess h =
    ap (λ s. codes "Cookie: signup_sess=" ++ s)
      (value_part-first sess (codes " HttpOnly; Max-Age=300") h)
returned login sess h =
    ap (λ s. codes "Cookie: login_sess=" ++ s)
      (value_part-first sess (codes " HttpOnly; Max-Age=300") h)
returned admin sess h =
    ap (λ s. codes "Cookie: admin_sess=" ++ s)
      (value_part-first sess (codes " HttpOnly; Max-Age=300") h)

session_line :
    (sess : Text)
    → all is_line_char sess ≡ true
    → all is_line_char (sess ++ codes "; HttpOnly; Max-Age=300") ≡ true
session_line sess h = rw (all-append, h)

whole_cookie-line :
    (kind : Kind) (sess : Text)
    → all is_line_char sess ≡ true
    → all is_line_char (whole_cookie kind sess) ≡ true
whole_cookie-line signup sess h = session_line sess h
whole_cookie-line login sess h = session_line sess h
whole_cookie-line admin sess h = session_line sess h

abbrev with_lines : Text → Text → Text → List Text
with_lines md5 c body = status_line 200 (codes "OK") ∷ header_lines (md5 ∷ c ∷ []) body

-- A session comes back as it was sent: where the session is a hexadecimal text of its length, the
-- texts of the body are of at most 32 characters and the cookie with the checksum holds no line end, a
-- client finds in the response the status 200, the two cookies and the length of the body, and as the
-- body the JSON object of "ver" 1, the session under the kind's name with _sess and, when there is a
-- salt, the salt under the kind's name with _salt; and the part of the second cookie in front of its
-- semicolon is the cookie that a submission with this session has to bring.
pub response_of-session :
    (md5 : Text) (kind : Kind) (sess sesv : Text) (salt : Option Text)
    → all is_line_char md5 ≡ true
    → IsField 32 sess
    → length sesv ≤ 32
    → salt_size salt ≤ 32
    → (header c : Text) × (header_of (response_of md5 kind (session sess sesv salt)) ≡ some header)
      × (lines_from [] header
          ≡ status_line 200 (codes "OK") ∷ header_lines (md5 ∷ c ∷ []) (sent_text kind sesv salt))
      × (body_of (response_of md5 kind (session sess sesv salt)) ≡ some (sent_text kind sesv salt))
      × (codes "Cookie: " ++ value_part c ≡ cookie_line kind sess)
response_of-session md5 kind sess sesv salt plain f small_sesv small_salt =
    let size = body_size kind sesv salt in
    let (values, chars) = hex_text sess f.digits in
    let short = take-all 99 (whole_cookie kind sess) (cookie_size kind sess f.size) in
    let cookies : all (all is_line_char) (md5 ∷ session_cookie kind sess ∷ []) ≡ true =
      rw (plain, short, whole_cookie-line kind sess chars) in
    let (header, found, lines, body) =
      send_response-reads 200 (codes "OK") (md5 ∷ session_cookie kind sess ∷ [])
        (session_body kind sesv salt) (omega arith) refl cookies in
    (
      header,
      session_cookie kind sess,
      found,
      lines
          ∙ ap (with_lines md5 (session_cookie kind sess)) (session_body-sent_text kind sesv salt),
      body ∙ ap some (session_body-sent_text kind sesv salt),
      ap (λ s. codes "Cookie: " ++ value_part s) short ∙ returned kind sess values,
    )
