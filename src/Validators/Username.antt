-- ===== src/Validators/Username.antt =====
-- What the two expressions for user names accept.
use signup_daemon.Prelude.{
  ℕ, ◌≤◌, ◌≡◌, refl, ◌∙◌, ap, Bool, true, ◌↔◌, none, [], ◌∷◌, ◌++◌, append-nil, arith, length, all,
  all-append, &&_true,
}
use signup_daemon.Js.Strings.{Text}
use signup_daemon.Js.Regex.{Class, at_end, one, run}
use signup_daemon.Js.Regex.Splits.{
  match_at_least-split, match_at_least-join, match_between-split, match_between-join,
}
use signup_daemon.Validators.{is_lower, is_lower_or_digit, is_name_char, is_dot, is_valid_username}

-- A letter, then letters, digits, hyphens and underscores, then a letter or a digit.
pub record HasForm (u : Text) : Type 0 where
  pub first : ℕ
  pub middle : Text
  pub last : ℕ
  pub shape : u ≡ first ∷ middle ++ last ∷ []
  pub first_lower : is_lower first ≡ true
  pub middle_name : all is_name_char middle ≡ true
  pub last_alnum : is_lower_or_digit last ≡ true

abbrev ending : Text → Bool
ending = run (one is_lower_or_digit ∷ at_end ∷ []) none

-- What is left after the middle part is one last character.
last_only : (s : Text) → ending s ≡ true → (c : ℕ) × (s ≡ c ∷ []) × (is_lower_or_digit c ≡ true)
unfolding run
last_only [] h = cc
last_only (c ∷ []) h = (c, refl, (&&_true _ _ h).0)
last_only (c ∷ d ∷ s) h = ground arith

-- The format test passes exactly for the names of that form.
forth : (u : Text) → (is_valid_username u).0 ≡ true → HasForm u
unfolding is_valid_username
forth [] h = cc
forth (c ∷ s) h =
    let (lower, rest) = &&_true _ _ h in
    let (p, _) = match_at_least-split 0 is_name_char ending s rest in
    let (z, ends, alnum) = last_only p.back p.goes_on in
    record {
      first = c;
      middle = p.front;
      last = z;
      shape = ap (λ t. c ∷ t) (p.joins ∙ ap (λ t. p.front ++ t) ends);
      first_lower = lower;
      middle_name = p.inside;
      last_alnum = alnum;
    }

back : (u : Text) → HasForm u → (is_valid_username u).0 ≡ true
unfolding is_valid_username
back u f =
    rw (f.shape, f.first_lower)
      (match_at_least-join 0 is_name_char ending f.middle (f.last ∷ []) (omega arith) f.middle_name
        (rw f.last_alnum))

pub is_valid_username-format : (u : Text) → ((is_valid_username u).0 ≡ true) ↔ HasForm u
is_valid_username-format u = (forth u, back u)

pub at_end_only : (s : Text) → run (at_end ∷ []) none s ≡ true → s ≡ []
unfolding run
at_end_only [] h = refl
at_end_only (x ∷ s) h = cc

-- The length test passes exactly for 8 to 20 characters, none of them a line terminator.
pub is_valid_username-length :
    (u : Text)
    → ((is_valid_username u).1 ≡ true) ↔ ((all is_dot u ≡ true) × (8 ≤ length u) × (length u ≤ 20))
unfolding is_valid_username
is_valid_username-length u = (split, join)
  where
    split :
        (is_valid_username u).1 ≡ true → (all is_dot u ≡ true) × (8 ≤ length u) × (length u ≤ 20)
    split h =
        let (p, above, below) = match_between-split 8 20 is_dot (run (at_end ∷ []) none) u h in
        let whole : u ≡ p.front =
          p.joins ∙ ap (λ t. p.front ++ t) (at_end_only p.back p.goes_on) ∙ append-nil p.front in
        (ap (all is_dot) whole ∙ p.inside, rw whole above, rw whole below)

    join : (all is_dot u ≡ true) × (8 ≤ length u) × (length u ≤ 20) → (is_valid_username u).1 ≡ true
    join (dots, above, below) =
        rw (append-nil u) at
          (match_between-join 8 20 is_dot (run (at_end ∷ []) none) u [] above below dots refl)

pub all-append_intro :
    (p : Class) (xs ys : Text) → all p xs ≡ true → all p ys ≡ true → all p (xs ++ ys) ≡ true
all-append_intro p xs ys hx hy = rw (all-append, hx) hy

name_char-is_dot : (c : ℕ) → is_name_char c ≡ true → is_dot c ≡ true
name_char-is_dot c h = ground arith

names-are_dots : (s : Text) → all is_name_char s ≡ true → all is_dot s ≡ true
names-are_dots [] h = refl
names-are_dots (c ∷ s) h =
    let (here, later) = &&_true _ _ h in rw (name_char-is_dot c here) (names-are_dots s later)

lower_name : (c : ℕ) → is_lower c ≡ true → is_name_char c ≡ true
lower_name c h = ground arith

alnum_name : (c : ℕ) → is_lower_or_digit c ≡ true → all is_name_char (c ∷ []) ≡ true
alnum_name c h = ground arith

pub HasForm-names : (u : Text) → HasForm u → all is_name_char u ≡ true
HasForm-names u f =
    let rest =
      all-append_intro is_name_char f.middle (f.last ∷ []) f.middle_name
        (alnum_name f.last f.last_alnum) in
    rw (f.shape, lower_name f.first f.first_lower) rest

-- Both tests pass exactly for the names of a lower-case letter, then such letters, digits, hyphens
-- and underscores, then a letter or a digit, with 8 to 20 characters in all.
pub is_valid_username_iff :
    (u : Text)
    → (is_valid_username u ≡ (true, true)) ↔ (HasForm u × (8 ≤ length u) × (length u ≤ 20))
is_valid_username_iff u = (
  λ h.
      let (dots, above, below) = (is_valid_username-length u).0 (ap (λ r. r.1) h) in
      ((is_valid_username-format u).0 (ap (λ r. r.0) h), above, below),
  λ (f, above, below).
      let format = (is_valid_username-format u).1 f in
      let size =
        (is_valid_username-length u).1 (names-are_dots u (HasForm-names u f), above, below) in
      λ i. (format i, size i),
)
