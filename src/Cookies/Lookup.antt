-- ===== src/Cookies/Lookup.antt =====
-- The look-up in a list of cookies that the browser prints.
use signup_daemon.Prelude.{
  ℕ, ◌≡◌, refl, ◌∙◌, ap, Bool, true, false, not, ◌&&◌, Option, none, some, List, [], ◌∷◌, ◌++◌, map,
  append-nil, all, all-append, &&_true, ◌==◌, if◌then◌else◌, arith,
}
use signup_daemon.Js.Strings.{Text, text_eq, is_empty, is_space, split_at, trim}
use signup_daemon.Js.Strings.Laws.{no_space, split_at-none, split_at-first, trim-none, trim-space}
use signup_daemon.Cookies.{find_cookie, get_cookie_by_name}

pub record Cookie : Type 0 where
  pub name : Text
  pub value : Text

-- A character that a printed name or value may have.
abbrev pub is_plain : ℕ → Bool
is_plain c = not (is_space c) && not (c == b';') && not (c == b'=')

abbrev pub ArePlain : List Cookie → Type 0
ArePlain [] = Unit
ArePlain (c ∷ cs) = (all is_plain c.name ≡ true) × (all is_plain c.value ≡ true) × ArePlain cs

abbrev pair : Cookie → Text
pair c = c.name ++ b'=' ∷ c.value

abbrev following : List Cookie → Text
following [] = []
following (c ∷ cs) = b';' ∷ b' ' ∷ pair c ++ following cs

-- `document.cookie`: the pairs with a semicolon and a space between them.
unfoldable pub print_cookies : List Cookie → Text
print_cookies [] = []
print_cookies (c ∷ cs) = pair c ++ following cs

-- The value of the first cookie of a name.
abbrev pub lookup : Text → List Cookie → Option Text
lookup name [] = none
lookup name (c ∷ cs) =
    let later = lookup name cs in if text_eq c.name name then some c.value else later

all-weaken :
    (p q : ℕ → Bool) (s : Text)
    → ((x : ℕ) → p x ≡ true → q x ≡ true)
    → all p s ≡ true
    → all q s ≡ true
all-weaken p q [] imp h = refl
all-weaken p q (x ∷ s) imp h =
    let (here, later) = &&_true (p x) (all p s) h in rw (imp x here) (all-weaken p q s imp later)

module _ (c : Cookie) (name_plain : all is_plain c.name ≡ true)
    (value_plain : all is_plain c.value ≡ true) where
  -- What holds of plain characters and of `=` holds of the whole pair.
  all-pair :
      (q : ℕ → Bool)
      → ((x : ℕ) → is_plain x ≡ true → q x ≡ true)
      → q b'=' ≡ true
      → all q (pair c) ≡ true
  all-pair q imp eq =
      rw
        (
          all-append q c.name (b'=' ∷ c.value),
          all-weaken is_plain q c.name imp name_plain,
          eq,
          all-weaken is_plain q c.value imp value_plain,
        )
        refl

  pair-no_semicolon : all (λ x. not (x == b';')) (pair c) ≡ true
  pair-no_semicolon = all-pair _ (λ x h. ground arith) refl

  pair-no_space : all no_space (pair c) ≡ true
  pair-no_space = all-pair no_space (λ x h. ground arith) refl

  split_at-pair : split_at b'=' (pair c) ≡ c.name ∷ c.value ∷ []
  split_at-pair =
      split_at-first b'=' c.name c.value
        (all-weaken is_plain _ c.name (λ x h. ground arith) name_plain)
      ∙ ap (λ r. c.name ∷ r)
          (split_at-none b'=' c.value
            (all-weaken is_plain _ c.value (λ x h. ground arith) value_plain))

  name-trimmed : trim c.name ≡ c.name
  name-trimmed =
      trim-none c.name (all-weaken is_plain no_space c.name (λ x h. ground arith) name_plain)

  -- One round of the loop, at a part that is the pair when it is trimmed.
  find_cookie-pair :
      (name part : Text) (parts : List Text) (later : Option Text)
      → trim part ≡ pair c
      → find_cookie name parts ≡ later
      → find_cookie name (part ∷ parts) ≡ (if text_eq c.name name then some c.value else later)
  unfolding find_cookie
  find_cookie-pair name part parts later e h = rw (e, split_at-pair, name-trimmed, h) refl

spaced : Cookie → Text
spaced c = b' ' ∷ pair c

split_at-following :
    (s : Text) (cs : List Cookie)
    → all (λ x. not (x == b';')) s ≡ true
    → ArePlain cs
    → split_at b';' (s ++ following cs) ≡ s ∷ map spaced cs
unfolding spaced
split_at-following s [] h plain = rw (append-nil s) (split_at-none b';' s h)
split_at-following s (c ∷ cs) h (name_plain, value_plain, plain) =
    split_at-first b';' s (b' ' ∷ pair c ++ following cs) h
    ∙ ap (λ r. s ∷ r)
        (split_at-following (b' ' ∷ pair c) cs (pair-no_semicolon c name_plain value_plain) plain)

find_cookie-lookup :
    (name : Text) (cs : List Cookie)
    → ArePlain cs
    → find_cookie name (map spaced cs) ≡ lookup name cs
unfolding find_cookie spaced
find_cookie-lookup name [] plain = refl
find_cookie-lookup name (c ∷ cs) (name_plain, value_plain, plain) =
    find_cookie-pair c name_plain value_plain name (spaced c) (map spaced cs) (lookup name cs)
      (trim-space (pair c) (pair-no_space c name_plain value_plain))
      (find_cookie-lookup name cs plain)

pair-not_empty : (c : Cookie) (t : Text) → is_empty (pair c ++ t) ≡ false
pair-not_empty c t = not_empty c.name
  where
    not_empty : (s : Text) → is_empty (s ++ b'=' ∷ c.value ++ t) ≡ false
    not_empty [] = refl
    not_empty (x ∷ s) = refl

-- In a list of cookies that the browser prints, whose names and values are without white space,
-- semicolons and equals signs, `getCookieByName` finds the value of the first cookie of the name, and
-- nothing if there is none.
pub get_cookie_by_name-print_cookies :
    (cs : List Cookie) (name : Text)
    → ArePlain cs
    → get_cookie_by_name (print_cookies cs) name ≡ lookup name cs
unfolding get_cookie_by_name print_cookies
get_cookie_by_name-print_cookies [] name plain = refl
get_cookie_by_name-print_cookies (c ∷ cs) name (name_plain, value_plain, plain) =
    let parts = split_at-following (pair c) cs (pair-no_semicolon c name_plain value_plain) plain in
    let first =
      find_cookie-pair c name_plain value_plain name (pair c) (map spaced cs) (lookup name cs)
        (trim-none (pair c) (pair-no_space c name_plain value_plain))
        (find_cookie-lookup name cs plain) in
    rw (pair-not_empty c (following cs), parts) first
