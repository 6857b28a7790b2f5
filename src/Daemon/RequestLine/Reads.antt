-- ===== src/Daemon/RequestLine/Reads.antt =====
-- The lines that a browser sends are read for what they say.
use signup_daemon.Prelude.{
  ℕ, ◌≡◌, refl, ◌∙◌, ap, Bool, true, false, Option, none, some, List, [], ◌∷◌, ◌++◌, codes, ltb,
  ◌==◌, if◌then◌else◌, length, arith, all, all-append, not, &&_true, Bool-cases, inl, inr,
  length-append,
}
use signup_daemon.Js.Strings.{Text}
use signup_daemon.Daemon.{Kind, signup, login, admin, post_type_str}
use signup_daemon.Daemon.RequestLine.{
  accepted, is_http, before_http, without_spaces, last_from, kind_of_part, from_path,
  check_post_type_path, behind,
}

abbrev pub is_no_slash : ℕ → Bool
is_no_slash c = not (c == b'/')

abbrev pub is_no_space : ℕ → Bool
is_no_space c = not (c == b' ')

abbrev pub http_version : Text → Text
http_version rest = b' ' ∷ (codes "HTTP/" ++ rest)

behind-none : (c : ℕ) (o : Option Text) → behind c o ≡ none → o ≡ none
behind-none c none h = refl
behind-none c (some s) h = cc

-- No version starts inside a text that ends in front of a space.
no_http :
    (c : ℕ) (s rest : Text) → is_http (c ∷ s) ≡ false → is_http (c ∷ s ++ http_version rest) ≡ false
no_http c [] rest h = ground arith
no_http c (c2 ∷ []) rest h = ground arith
no_http c (c2 ∷ c3 ∷ []) rest h = ground arith
no_http c (c2 ∷ c3 ∷ c4 ∷ []) rest h = ground arith
no_http c (c2 ∷ c3 ∷ c4 ∷ c5 ∷ s) rest h = h

found_first :
    (here : Bool) (later : Option Text) → here ≡ true → (if here then some [] else later) ≡ none → ⊥
found_first true later e h = cc
found_first false later e h = cc

passed_over :
    (here : Bool) (later : Option Text)
    → here ≡ false
    → (if here then some [] else later) ≡ none
    → later ≡ none
passed_over true later e h = cc
passed_over false later e h = h

before_http-append :
    (s rest : Text)
    → before_http s ≡ none
    → before_http (s ++ http_version rest) ≡ some (s ++ b' ' ∷ [])
before_http-append [] rest h = refl
before_http-append (c ∷ s) rest h = elim (Bool-cases (is_http (c ∷ s))) [
  | inl found ↦ absurd (found_first (is_http (c ∷ s)) (behind c (before_http s)) found h)
  | inr missing ↦ rw (no_http c s rest missing) (
      ap (behind c) (
        before_http-append s rest
          (behind-none c (before_http s) (passed_over (is_http (c ∷ s)) _ missing h))))
]

without_spaces-word : (s : Text) → all is_no_space s ≡ true → without_spaces (s ++ b' ' ∷ []) ≡ s
without_spaces-word [] h = refl
without_spaces-word (c ∷ s) h =
    let (here, later) = &&_true (is_no_space c) _ h in
    let other : (c == b' ') ≡ false = ground arith in rw (other, without_spaces-word s later)

last_from-none :
    (found : Option Text) (t : Text) → all is_no_slash t ≡ true → last_from found t ≡ found
last_from-none found [] h = refl
last_from-none found (c ∷ t) h =
    let (here, later) = &&_true (is_no_slash c) _ h in
    let other : (c == b'/') ≡ false = ground arith in rw (other, last_from-none found t later)

last_from-append :
    (found : Option Text) (s t : Text)
    → all is_no_slash t ≡ true
    → last_from found (s ++ b'/' ∷ t) ≡ some t
last_from-append found [] t h = last_from-none (some t) t h
last_from-append found (c ∷ s) t h = elim (Bool-cases (c == b'/')) [
  | inl slash ↦ rw slash (last_from-append (some (s ++ b'/' ∷ t)) s t h)
  | inr other ↦ rw other (last_from-append found s t h)
]

kind_of_part-post_type_str :
    (kind : Kind) (t : Text) → kind_of_part (some (post_type_str kind ++ t)) ≡ accepted kind
kind_of_part-post_type_str signup t = refl
kind_of_part-post_type_str login t = refl
kind_of_part-post_type_str admin t = refl

word_of : (kind : Kind) → all is_no_slash (post_type_str kind) ≡ true
word_of signup = refl
word_of login = refl
word_of admin = refl

-- A path of segments, each behind a slash.
abbrev pub path_of : List Text → Text
path_of [] = []
path_of (s ∷ ss) = b'/' ∷ s ++ path_of ss

from_path-line :
    (kind : Kind) (s front t rest : Text)
    → b'/' ∷ s ≡ front ++ b'/' ∷ (post_type_str kind ++ t)
    → all is_no_slash t ≡ true
    → all is_no_space (b'/' ∷ s) ≡ true
    → before_http (b'/' ∷ s) ≡ none
    → from_path (b'/' ∷ s ++ http_version rest) ≡ accepted kind
from_path-line kind s front t rest e one_part plain free =
    let long : ltb (length (b'/' ∷ s ++ http_version rest)) 4 ≡ false =
      rw (length-append) (ground arith) in
    let word : all is_no_slash (post_type_str kind ++ t) ≡ true =
      rw (all-append, word_of kind) one_part in
    rw (long, before_http-append (b'/' ∷ s) rest free)
      (ap (λ p. kind_of_part (last_from none p)) (without_spaces-word (b'/' ∷ s) plain ∙ e)
        ∙ ap kind_of_part (last_from-append none front (post_type_str kind ++ t) word)
        ∙ kind_of_part-post_type_str kind t)

long_enough : (s rest : Text) → ltb (length (codes "POST /" ++ s ++ http_version rest)) 8 ≡ false
long_enough s rest = rw (length-append) (ground arith)

-- A request line is taken for the kind whose word its path ends with: the last part of the path, behind
-- any segments, begins with the word and has no slash, and in the whole path stand neither a
-- space nor "HTTP/". What follows the version may be anything.
pub check_post_type_path-line :
    (kind : Kind) (segments : List Text) (t rest : Text)
    → all is_no_slash t ≡ true
    → all is_no_space (path_of segments ++ b'/' ∷ (post_type_str kind ++ t)) ≡ true
    → before_http (path_of segments ++ b'/' ∷ (post_type_str kind ++ t)) ≡ none
    → check_post_type_path (
        codes "POST "
        ++ (path_of segments ++ b'/' ∷ (post_type_str kind ++ t))
        ++ http_version rest)
      ≡ accepted kind
unfolding check_post_type_path
check_post_type_path-line kind [] t rest one_part plain free =
    rw (long_enough (post_type_str kind ++ t) rest)
      (from_path-line kind (post_type_str kind ++ t) [] t rest refl one_part plain free)
check_post_type_path-line kind (s ∷ segments) t rest one_part plain free =
    let inner = (s ++ path_of segments) ++ b'/' ∷ (post_type_str kind ++ t) in
    rw (long_enough inner rest)
      (from_path-line kind inner (path_of (s ∷ segments)) t rest refl one_part plain free)
