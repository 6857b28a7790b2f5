-- ===== src/Tests/Responses.antt =====
-- The response that opens a session of a login.
use signup_daemon.Prelude.{◌≡◌, refl, ◌++◌, some, [], ◌∷◌, codes, arith}
use signup_daemon.Js.Strings.{Text}
use signup_daemon.Daemon.{login}
use signup_daemon.Daemon.Cookies.{header_of, lines_from, value_part}
use signup_daemon.Daemon.Handler.{session}
use signup_daemon.Daemon.Server.{body_of}
use signup_daemon.Daemon.Server.Headers.{cookie_line}
use signup_daemon.Daemon.Response.{response_of}
use signup_daemon.Daemon.Response.Reads.{status_line, header_lines}
use signup_daemon.Daemon.Response.Sessions.{sent_text, response_of-session}
use signup_daemon.Tests.{sess, old_salt}
use signup_daemon.Tests.Server.{sess-IsField}

response_of-session_example :
    (header c : Text) × (header_of
        (response_of (codes "MD5=0a1b2c") login (session sess old_salt (some old_salt)))
      ≡ some header)
    × (lines_from [] header
        ≡ status_line 200 (codes "OK")
          ∷ header_lines (codes "MD5=0a1b2c" ∷ c ∷ []) (sent_text login old_salt (some old_salt)))
    × (body_of (response_of (codes "MD5=0a1b2c") login (session sess old_salt (some old_salt)))
        ≡ some (sent_text login old_salt (some old_salt)))
    × (codes "Cookie: " ++ value_part c ≡ cookie_line login sess)
response_of-session_example =
    response_of-session (codes "MD5=0a1b2c") login sess old_salt (some old_salt) refl sess-IsField
      (omega arith) (omega arith)
