-- ===== src/Daemon/Response/Reads.antt =====
-- A response as a client reads it.
use signup_daemon.Prelude.{
  ℕ, zero, suc, ◌+◌, ◌/◌, ◌%◌, ◌≤◌, ◌≡◌, refl, ◌∙◌, sym, ap, true, some, List, [], ◌∷◌, ◌++◌, codes,
  length, all, all-append, append_assoc, arith, &&_true, ltb, Bool-cases, inl, inr,
}
use signup_daemon.Js.Strings.{Text, decimal, to_string, digits, digit_char}
use signup_daemon.Daemon.Agrees.{take-all}
use signup_daemon.Daemon.Cookies.{header_of, lines_from}
use signup_daemon.Daemon.Server.{body_of}
use signup_daemon.Daemon.Server.Lines.{
  is_line_char, is_line, tail_of, empty_line, request_text, body_of-request_text,
  header_of-request_text, lines_from-tail_of,
}
use signup_daemon.Daemon.Response.{then_line, set_cookies, content_text, send_response}

-- The lines that a client should see.
abbrev pub status_line : ℕ → Text → Text
status_line status status_text = codes "HTTP/1.1 " ++ (decimal status ++ b' ' ∷ status_text)

abbrev pub set_cookie_line : Text → Text
set_cookie_line c = codes "Set-Cookie: " ++ c

abbrev length_line : Text → Text
length_line body = codes "Content-Length: " ++ decimal (length body)

abbrev cookie_lines : List Text → Text → List Text
cookie_lines [] body = length_line body ∷ []
cookie_lines (c ∷ cs) body = set_cookie_line c ∷ cookie_lines cs body

abbrev pub header_lines : List Text → Text → List Text
header_lines cs body = codes "Cache-Control: no-cache, no-store" ∷ cookie_lines cs body

set_cookies-cookie_lines :
    (cs : List Text) (body : Text)
    → length body ≤ 3071
    → then_line (set_cookies cs (content_text (some body)))
      ≡ tail_of (cookie_lines cs body) ++ empty_line body
set_cookies-cookie_lines [] body fits = rw (take-all 3071 body fits) (
    ap (λ s. then_line (codes "Content-Length: " ++ s))
      (sym (append_assoc (decimal (length body)) [] (empty_line body))))
set_cookies-cookie_lines (c ∷ cs) body fits =
    ap (λ s. then_line (codes "Set-Cookie: " ++ (c ++ s))) (set_cookies-cookie_lines cs body fits)
    ∙ ap (λ s. then_line (codes "Set-Cookie: " ++ s))
        (sym (append_assoc c (tail_of (cookie_lines cs body)) (empty_line body)))

digits-line :
    (fuel n : ℕ) (acc : Text)
    → all is_line_char acc ≡ true
    → all is_line_char (digits fuel 10 n acc) ≡ true
unfolding digits
digits-line zero n acc h = h
digits-line (suc fuel) n acc h = elim (Bool-cases (ltb n 10)) [
  | inl last ↦ let digit : is_line_char (48 + n) ≡ true = ground arith in rw last (rw digit h)
  | inr more ↦
      let digit : is_line_char (digit_char (n % 10)) ≡ true = ground arith in
      rw more (digits-line fuel (n / 10) (digit_char (n % 10) ∷ acc) (rw digit h))
]

decimal-line : (n : ℕ) → all is_line_char (decimal n) ≡ true
unfolding to_string
decimal-line n = digits-line (suc n) n [] refl

send_response-request_text :
    (status : ℕ) (status_text : Text) (cs : List Text) (body : Text)
    → length body ≤ 3071
    → send_response status status_text cs (some body)
      ≡ request_text (status_line status status_text) (header_lines cs body) body
unfolding send_response
send_response-request_text status status_text cs body fits =
    ap
      (λ s.
        codes "HTTP/1.1 "
        ++ (decimal status
            ++ (b' '
                ∷ (status_text ++ then_line (codes "Cache-Control: no-cache, no-store" ++ s)))))
      (set_cookies-cookie_lines cs body fits)
    ∙ ap (λ s. codes "HTTP/1.1 " ++ s)
        (sym (
          append_assoc (decimal status) (b' ' ∷ status_text)
            (tail_of (header_lines cs body) ++ empty_line body)))

cookie_lines-are_lines :
    (cs : List Text) (body : Text)
    → all (all is_line_char) cs ≡ true
    → all is_line (cookie_lines cs body) ≡ true
cookie_lines-are_lines [] body h = rw (decimal-line (length body))
cookie_lines-are_lines (c ∷ cs) body h =
    let (here, later) = &&_true (all is_line_char c) _ h in
    rw (here, cookie_lines-are_lines cs body later)

-- A response is read as it was written: where the text of the body fits, and no line end stands in the
-- text of the status or in a cookie, a client that splits the header at its line ends finds the
-- status, the refusal to be cached, each cookie in its order and the length of the body, and behind
-- the empty line it finds the body, of that length.
pub send_response-reads :
    (status : ℕ) (status_text : Text) (cs : List Text) (body : Text)
    → length body ≤ 3071
    → all is_line_char status_text ≡ true
    → all (all is_line_char) cs ≡ true
    → (header : Text) × (header_of (send_response status status_text cs (some body)) ≡ some header)
      × (lines_from [] header ≡ status_line status status_text ∷ header_lines cs body)
      × (body_of (send_response status status_text cs (some body)) ≡ some body)
send_response-reads status status_text cs body fits plain cookies =
    let first : all is_line_char (decimal status ++ b' ' ∷ status_text) ≡ true =
      rw (all-append, decimal-line status) plain in
    let others : all is_line (header_lines cs body) ≡ true =
      cookie_lines-are_lines cs body cookies in
    let same = send_response-request_text status status_text cs body fits in
    (
      _,
      ap header_of same
          ∙ header_of-request_text (status_line status status_text) (header_lines cs body) body
              first others,
      lines_from-tail_of (status_line status status_text) (header_lines cs body) first others,
      ap body_of same
          ∙ body_of-request_text (status_line status status_text) (header_lines cs body) body first
              others,
    )
