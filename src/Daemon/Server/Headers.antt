-- ===== src/Daemon/Server/Headers.antt =====
-- The cookie and the address that the daemon finds in the lines of a header.
use signup_daemon.Prelude.{
  ℕ, zero, suc, ◌≤◌, ◌<◌, ◌≡◌, refl, ◌∙◌, ap, true, false, not, Option, none, some, List, [], ◌∷◌,
  ◌++◌, codes, ◌==◌, length, all, &&_true, append_assoc, arith, leb,
}
use signup_daemon.Js.Strings.{Text, is_empty}
use signup_daemon.Daemon.Guards.{is_low_hex}
use signup_daemon.Daemon.{Kind, signup, login, admin, post_type_str}
use signup_daemon.Daemon.Guards.{to_lower}
use signup_daemon.Daemon.Cookies.{
  is_there, in_lines, in_line, in_value, value_part, copy, find_value, is_cookie_line,
  cookie_extract,
}
use signup_daemon.Daemon.RequestLine.Reads.{path_of, http_version}
use signup_daemon.Daemon.Redis.Actions.{ok}
use signup_daemon.Daemon.Server.{after_name, address_part, ends_line, of_real, http_get_client_ip}
use signup_daemon.Daemon.Server.Lines.{
  is_line_char, is_line, tail_of, empty_line, request_text, in_line_char, header_of-request_text,
  lines_from-tail_of,
}

in_line-other : (name l : Text) → not (is_there (is_cookie_line l)) ≡ true → in_line name l ≡ none
in_line-other name l h =
    let missing : is_there (is_cookie_line l) ≡ false = ground arith in rw missing

in_lines-other :
    (name : Text) (size : ℕ) (before lines : List Text)
    → all (λ l. not (is_there (is_cookie_line l))) before ≡ true
    → in_lines name size (before ++ lines) ≡ in_lines name size lines
unfolding in_lines
in_lines-other name size [] lines h = refl
in_lines-other name size (l ∷ before) lines h =
    let (here, later) = &&_true (not (is_there (is_cookie_line l))) _ h in
    rw (in_line-other name l here) (in_lines-other name size before lines later)

-- The name of the cookie of a kind.
abbrev pub cookie_name : Kind → Text
cookie_name kind = post_type_str kind ++ codes "_sess"

abbrev pub cookie_line : Kind → Text → Text
cookie_line kind value = codes "Cookie: " ++ cookie_name kind ++ b'=' ∷ value

in_line-cookie_line :
    (kind : Kind) (value : Text) → in_line (cookie_name kind) (cookie_line kind value) ≡ some value
unfolding find_value
in_line-cookie_line signup value = refl
in_line-cookie_line login value = refl
in_line-cookie_line admin value = refl

value_part-all : (v : Text) → all in_value v ≡ true → value_part v ≡ v
value_part-all [] h = refl
value_part-all (c ∷ v) h =
    let (here, later) = &&_true (in_value c) _ h in rw (here, value_part-all v later)

copy-whole : (size : ℕ) (v : Text) → all in_value v ≡ true → length v < size → copy size v ≡ ok v
unfolding copy
copy-whole size v h small =
    let fits : leb size (length v) ≡ false = ground arith in rw (value_part-all v h, fits)

-- The cookie of the first line of cookies.
pub cookie_extract-request_text :
    (kind : Kind) (size : ℕ) (line : Text) (before more : List Text) (value body : Text)
    → is_line line ≡ true
    → all is_line (before ++ cookie_line kind value ∷ more) ≡ true
    → all (λ l. not (is_there (is_cookie_line l))) (line ∷ before) ≡ true
    → all in_value value ≡ true
    → length value < size
    → cookie_extract
        (request_text line (before ++ cookie_line kind value ∷ more) body)
        size
        (cookie_name kind)
      ≡ ok value
unfolding cookie_extract in_lines
cookie_extract-request_text kind size line before more value body h hs others plain small =
    let lines = before ++ cookie_line kind value ∷ more in
    let (_, chars) = &&_true (not (is_empty line)) _ h in
    rw (header_of-request_text line lines body chars hs, lines_from-tail_of line lines h hs)
      (in_lines-other (cookie_name kind) size (line ∷ before) (cookie_line kind value ∷ more) others
        ∙ rw (in_line-cookie_line kind value) (copy-whole size value plain small))

-- The address in the header of the proxy.
after_name-line :
    (name l t : Text) (skip : ℕ)
    → all is_line_char l ≡ true
    → after_name (10 ∷ name) skip (l ++ t) ≡ after_name (10 ∷ name) skip t
after_name-line name [] t skip h = refl
after_name-line name (c ∷ l) t skip h =
    let (here, later) = &&_true (is_line_char c) _ h in
    let other : (10 == to_lower c) ≡ false = ground arith in
    rw other (after_name-line name l t skip later)

address_part-whole :
    (room : ℕ) (ip t : Text)
    → all is_line_char ip ≡ true
    → length ip ≤ room
    → address_part room ends_line (ip ++ 13 ∷ t) ≡ ip
address_part-whole zero [] t h small = refl
address_part-whole zero (c ∷ ip) t h small = absurd (omega arith)
address_part-whole (suc room) [] t h small = refl
address_part-whole (suc room) (c ∷ ip) t h small =
    let (here, later) = &&_true (is_line_char c) _ h in
    rw (in_line_char c here, address_part-whole room ip t later (omega arith))

abbrev pub post_line : Kind → List Text → Text → Text → Text
post_line kind segments t rest =
    codes "POST " ++ ((path_of segments ++ b'/' ∷ (post_type_str kind ++ t)) ++ http_version rest)

address_part-rest :
    (ip : Text) (lines : List Text) (body : Text)
    → all is_line_char ip ≡ true
    → length ip ≤ 15
    → address_part 15 ends_line (ip ++ (tail_of lines ++ empty_line body)) ≡ ip
address_part-rest ip [] body h small = address_part-whole 15 ip _ h small
address_part-rest ip (l ∷ lines) body h small = address_part-whole 15 ip _ h small

pub http_get_client_ip-request_text :
    (peer : Option Text) (line ip : Text) (lines : List Text) (body : Text)
    → all is_line_char line ≡ true
    → all is_line_char ip ≡ true
    → length ip ≤ 15
    → http_get_client_ip peer (request_text line ((codes "X-Real-IP: " ++ ip) ∷ lines) body) ≡ ip
unfolding http_get_client_ip
http_get_client_ip-request_text peer line ip lines body h plain small =
    ap
      (of_real peer (
        after_name (10 ∷ codes "x-forwarded-for: ") 17
          (request_text line ((codes "X-Real-IP: " ++ ip) ∷ lines) body)))
      (after_name-line (codes "x-real-ip: ") line _ 12 h)
    ∙ ap (address_part 15 ends_line) (append_assoc ip (tail_of lines) (empty_line body))
    ∙ address_part-rest ip lines body plain small

hex_char : (c : ℕ) → is_low_hex c ≡ true → (in_value c ≡ true) × (is_line_char c ≡ true)
hex_char c h = (ground arith, ground arith)

pub hex_text :
    (s : Text) → all is_low_hex s ≡ true → (all in_value s ≡ true) × (all is_line_char s ≡ true)
hex_text [] h = (refl, refl)
hex_text (c ∷ s) h =
    let (here, later) = &&_true (is_low_hex c) _ h in
    let (value, line) = hex_char c here in
    let (values, lines) = hex_text s later in (rw value values, rw line lines)
