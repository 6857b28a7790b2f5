-- ===== src/Daemon/Server/Lines.antt =====
-- The lines of a header, and the searches for the empty line behind it.
use signup_daemon.Prelude.{
  ℕ, ◌≡◌, refl, ◌∙◌, sym, ap, Bool, true, false, not, ◌&&◌, ◌||◌, Option, none, some, List, [], ◌∷◌,
  ◌++◌, ◌==◌, all, &&_true, append_assoc, arith, append-nil,
}
use signup_daemon.Js.Strings.{Text, strip_prefix, is_empty}
use signup_daemon.Daemon.Cookies.{header_of, lines_from}
use signup_daemon.Daemon.Server.{body_of}

abbrev pub is_line_char : ℕ → Bool
is_line_char c = not (c == 13) && not (c == 10)

abbrev pub is_line : Text → Bool
is_line l = not (is_empty l) && all is_line_char l

-- The lines after the first, each behind its line end.
abbrev pub tail_of : List Text → Text
tail_of [] = []
tail_of (l ∷ ls) = 13 ∷ 10 ∷ (l ++ tail_of ls)

abbrev pub empty_line : Text → Text
empty_line body = 13 ∷ 10 ∷ 13 ∷ 10 ∷ body

abbrev pub request_text : Text → List Text → Text → Text
request_text line lines body = line ++ (tail_of lines ++ empty_line body)

not_cr : (c : ℕ) → is_line_char c ≡ true → (13 == c) ≡ false
not_cr c h = ground arith

pub in_line_char : (c : ℕ) → is_line_char c ≡ true → (c == 13 || c == 10) ≡ false
in_line_char c h = ground arith

abbrev found_body : Option Text → Option Text → Option Text
found_body later o = elim o [ some body ↦ some body | none ↦ later ]

no_empty_line :
    (c : ℕ) (s : Text)
    → is_line_char c ≡ true
    → strip_prefix (13 ∷ 10 ∷ 13 ∷ 10 ∷ []) (c ∷ s) ≡ none
no_empty_line c s h = rw (not_cr c h)

no_break :
    (c : ℕ) (s : Text)
    → is_line_char c ≡ true
    → strip_prefix (13 ∷ 10 ∷ 13 ∷ 10 ∷ []) (13 ∷ 10 ∷ c ∷ s) ≡ none
no_break c s h = rw (not_cr c h)

body_of-step : (c : ℕ) (s : Text) → is_line_char c ≡ true → body_of (c ∷ s) ≡ body_of s
body_of-step c s h = ap (found_body (body_of s)) (no_empty_line c s h)

body_of-break :
    (c : ℕ) (s : Text) → is_line_char c ≡ true → body_of (13 ∷ 10 ∷ c ∷ s) ≡ body_of (c ∷ s)
body_of-break c s h = ap (found_body (body_of (c ∷ s))) (no_break c s h)

-- A line is passed over in the searches for the empty line.
body_of-line : (l t : Text) → all is_line_char l ≡ true → body_of (l ++ t) ≡ body_of t
body_of-line [] t h = refl
body_of-line (c ∷ l) t h =
    let (here, later) = &&_true (is_line_char c) _ h in
    body_of-step c (l ++ t) here ∙ body_of-line l t later

abbrev in_front : Text → Option Text → Option Text
in_front l none = none
in_front l (some s) = some (l ++ s)

abbrev found_header : ℕ → Option Text → Option Text → Option Text
found_header c rest o = elim o [
  | some after ↦ some []
  | none ↦ elim rest [ none ↦ none | some front ↦ some (c ∷ front) ]
]

one_more : (c : ℕ) (o : Option Text) → found_header c o none ≡ in_front (c ∷ []) o
one_more c none = refl
one_more c (some s) = refl

header_of-step :
    (c : ℕ) (s : Text) → is_line_char c ≡ true → header_of (c ∷ s) ≡ in_front (c ∷ []) (header_of s)
header_of-step c s h =
    ap (found_header c (header_of s)) (no_empty_line c s h) ∙ one_more c (header_of s)

header_of-break :
    (c : ℕ) (s : Text)
    → is_line_char c ≡ true
    → header_of (13 ∷ 10 ∷ c ∷ s) ≡ in_front (13 ∷ 10 ∷ []) (header_of (c ∷ s))
header_of-break c s h =
    ap (found_header 13 (header_of (10 ∷ c ∷ s))) (no_break c s h) ∙ two_more (header_of (c ∷ s))
  where
    two_more :
        (o : Option Text)
        → found_header 13 (found_header 10 o none) none ≡ in_front (13 ∷ 10 ∷ []) o
    two_more none = refl
    two_more (some s) = refl

in_front-in_front :
    (c : ℕ) (l : Text) (o : Option Text) → in_front (c ∷ []) (in_front l o) ≡ in_front (c ∷ l) o
in_front-in_front c l none = refl
in_front-in_front c l (some s) = refl

in_front-nil : (o : Option Text) → o ≡ in_front [] o
in_front-nil none = refl
in_front-nil (some s) = refl

header_of-line :
    (l t : Text) → all is_line_char l ≡ true → header_of (l ++ t) ≡ in_front l (header_of t)
header_of-line [] t h = in_front-nil (header_of t)
header_of-line (c ∷ l) t h =
    let (here, later) = &&_true (is_line_char c) _ h in
    header_of-step c (l ++ t) here
    ∙ ap (in_front (c ∷ [])) (header_of-line l t later)
    ∙ in_front-in_front c l (header_of t)

pub body_of-request_text :
    (line : Text) (lines : List Text) (body : Text)
    → all is_line_char line ≡ true
    → all is_line lines ≡ true
    → body_of (request_text line lines body) ≡ some body
body_of-request_text line [] body h hs = body_of-line line _ h
body_of-request_text line ([] ∷ lines) body h hs = cc
body_of-request_text line ((c ∷ l) ∷ lines) body h hs =
    let (here, later) = &&_true (is_line (c ∷ l)) _ hs in
    let (first, _) = &&_true (is_line_char c) _ here in
    body_of-line line _ h
    ∙ body_of-break c ((l ++ tail_of lines) ++ empty_line body) first
    ∙ ap (λ s. body_of (c ∷ s)) (append_assoc l (tail_of lines) (empty_line body))
    ∙ body_of-request_text (c ∷ l) lines body here later

pub header_of-request_text :
    (line : Text) (lines : List Text) (body : Text)
    → all is_line_char line ≡ true
    → all is_line lines ≡ true
    → header_of (request_text line lines body) ≡ some (line ++ tail_of lines)
header_of-request_text line [] body h hs = header_of-line line _ h
header_of-request_text line ([] ∷ lines) body h hs = cc
header_of-request_text line ((c ∷ l) ∷ lines) body h hs =
    let (here, later) = &&_true (is_line (c ∷ l)) _ hs in
    let (first, _) = &&_true (is_line_char c) _ here in
    header_of-line line _ h
    ∙ ap (in_front line) (
        header_of-break c ((l ++ tail_of lines) ++ empty_line body) first
        ∙ ap (λ s. in_front (13 ∷ 10 ∷ []) (header_of (c ∷ s)))
            (append_assoc l (tail_of lines) (empty_line body))
        ∙ ap (in_front (13 ∷ 10 ∷ [])) (header_of-request_text (c ∷ l) lines body here later))

lines_from-line :
    (seen l : Text)
    → all is_line_char l ≡ true
    → (t : Text) → lines_from seen (l ++ t) ≡ lines_from (seen ++ l) t
lines_from-line seen [] h t = ap (λ s. lines_from s t) (sym (append-nil seen))
lines_from-line seen (c ∷ l) h t =
    let (here, later) = &&_true (is_line_char c) _ h in
    rw (in_line_char c here) (
      lines_from-line (seen ++ c ∷ []) l later t
      ∙ ap (λ s. lines_from s t) (append_assoc seen (c ∷ []) l))

-- The lines of the header, one by one.
pub lines_from-tail_of :
    (line : Text) (lines : List Text)
    → is_line line ≡ true
    → all is_line lines ≡ true
    → lines_from [] (line ++ tail_of lines) ≡ line ∷ lines
lines_from-tail_of [] lines h hs = cc
lines_from-tail_of (c ∷ l) [] h hs = lines_from-line [] (c ∷ l) h []
lines_from-tail_of (c ∷ l) (m ∷ lines) h hs =
    let (here, later) = &&_true (is_line m) _ hs in
    lines_from-line [] (c ∷ l) h (tail_of (m ∷ lines))
    ∙ ap (λ ls. (c ∷ l) ∷ ls) (lines_from-tail_of m lines here later)
