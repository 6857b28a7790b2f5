-- ===== src/Daemon/Names.antt =====
-- The names that the form accepts and the names that the daemon accepts.
use signup_daemon.Prelude.{
  ℕ, ◌+◌, ◌-◌, ◌≤◌, ◌≡◌, refl, ◌∙◌, sym, ap, ap₂, subst, Bool, true, false, ◌↔◌, [], ◌∷◌, ◌++◌,
  some, arith, length, length-append, all, all-append, &&_true, ltb, leb, ◌&&◌, ◌||◌, not,
  if◌then◌else◌,
}
use signup_daemon.Js.Strings.{Text}
use signup_daemon.Validators.{is_lower, is_lower_or_digit, is_name_char, is_valid_username}
use signup_daemon.Validators.Username.{HasForm, HasForm-names, is_valid_username_iff}
use signup_daemon.Daemon.Guards.{
  is_alpha, is_alnum, is_middle, to_lower, lowered, char_at, all_from, validate_username,
  all_from-all, char_at-append,
}

-- No capital letter is left.
abbrev pub not_capital : ℕ → Bool
not_capital c = if leb b'A' c && leb c b'Z' then false else true

to_lower-not_capital : (c : ℕ) → not_capital (to_lower c) ≡ true
to_lower-not_capital c = ground arith

lowered-not_capital : (s : Text) → all not_capital (lowered s) ≡ true
lowered-not_capital [] = refl
lowered-not_capital (c ∷ s) = rw (to_lower-not_capital c) (lowered-not_capital s)

alpha-lower : (c : ℕ) → not_capital c ≡ true → is_alpha c ≡ is_lower c
alpha-lower c h = ground arith

alnum-lower : (c : ℕ) → not_capital c ≡ true → is_alnum c ≡ is_lower_or_digit c
alnum-lower c h = ground arith

middle-name : (c : ℕ) → not_capital c ≡ true → is_middle c ≡ is_name_char c
middle-name c h = ground arith

all_middle-name : (s : Text) → all not_capital s ≡ true → all is_middle s ≡ all is_name_char s
all_middle-name [] h = refl
all_middle-name (c ∷ s) h =
    let (here, later) = &&_true _ _ h in rw (middle-name c here, all_middle-name s later)

-- A text of two characters or more has a first and a last one.
record HasEnds (u : Text) : Type 0 where
  first : ℕ
  middle : Text
  last : ℕ
  shape : u ≡ first ∷ (middle ++ last ∷ [])

HasEnds-split : (u : Text) → 2 ≤ length u → HasEnds u
HasEnds-split [] h = absurd (omega arith)
HasEnds-split (c ∷ []) h = absurd (omega arith)
HasEnds-split (c ∷ d ∷ []) h = record { first = c; middle = []; last = d; shape = refl }
HasEnds-split (c ∷ d ∷ e ∷ s) h =
    let rest = HasEnds-split (d ∷ e ∷ s) (omega arith) in
    record {
      first = c;
      middle = rest.first ∷ rest.middle;
      last = rest.last;
      shape = ap (λ t. c ∷ t) rest.shape;
    }

framed_size : (c z : ℕ) (m : Text) → length (c ∷ (m ++ z ∷ [])) ≡ length m + 2
framed_size c z m = omega (arith, length-append m (z ∷ []))

guarded :
    (a z m : Bool) (n : ℕ)
    → 8 ≤ n
    → n ≤ 20
    → (if ltb n 8 || ltb 20 n then false else if not a || not z then false else m) ≡ (a && z && m)
guarded a z m n above below = ground arith

-- What the daemon tests of a name of an allowed length.
framed :
    (c z : ℕ) (m : Text)
    → 8 ≤ length m + 2
    → length m + 2 ≤ 20
    → validate_username (some (c ∷ (m ++ z ∷ []))) ≡ (is_alpha c && is_alnum z && all is_middle m)
unfolding validate_username
framed c z m above below =
    let at_last : length (c ∷ m) ≡ length m + 2 - 1 = omega arith in
    let rounds : length m ≡ length m + 2 - 2 = omega arith in
    let last : char_at (c ∷ (m ++ z ∷ [])) (length m + 2 - 1) ≡ z =
      subst (λ k. char_at (c ∷ (m ++ z ∷ [])) k ≡ z) at_last (char_at-append (c ∷ m) [] z) in
    let inner : all_from is_middle (c ∷ (m ++ z ∷ [])) (length m + 2 - 2) 1 ≡ all is_middle m =
      subst (λ k. all_from is_middle (c ∷ (m ++ z ∷ [])) k 1 ≡ all is_middle m) rounds
        (all_from-all is_middle (c ∷ []) m (z ∷ [])) in
    rw (framed_size c z m, last, inner)
      (guarded (is_alpha c) (is_alnum z) (all is_middle m) (length m + 2) above below)

named_sizes : (u : Text) → validate_username (some u) ≡ true → (8 ≤ length u) × (length u ≤ 20)
unfolding validate_username
named_sizes u h = (ground arith, ground arith)

lower_framed :
    (c z : ℕ) (m : Text)
    → all not_capital (c ∷ (m ++ z ∷ [])) ≡ true
    → 8 ≤ length m + 2
    → length m + 2 ≤ 20
    → validate_username (some (c ∷ (m ++ z ∷ [])))
      ≡ (is_lower c && is_lower_or_digit z && all is_name_char m)
lower_framed c z m small above below =
    let (first, rest) = &&_true (not_capital c) (all not_capital (m ++ z ∷ [])) small in
    let (middle, end) = &&_true _ _ (rw all-append at rest) in
    let (last, _) = &&_true (not_capital z) true end in
    framed c z m above below
    ∙ rw (alpha-lower c first, alnum-lower z last, all_middle-name m middle)

-- For a name without capital letters the daemon's test is the form's.
lower-HasForm :
    (u : Text)
    → all not_capital u ≡ true
    → 8 ≤ length u
    → length u ≤ 20
    → (validate_username (some u) ≡ true) ↔ HasForm u
lower-HasForm u small above below = (forth, back)
  where
    forth : validate_username (some u) ≡ true → HasForm u
    forth h =
        let e = HasEnds-split u (omega arith) in
        let size = framed_size e.first e.last e.middle in
        let n = rw (e.shape, size) at above in
        let k = rw (e.shape, size) at below in
        let tests =
          sym (lower_framed e.first e.last e.middle (rw e.shape at small) n k)
          ∙ (rw e.shape at h) in
        let (first, rest) = &&_true (is_lower e.first && is_lower_or_digit e.last) _ tests in
        let (a, b) = &&_true _ _ first in
        record {
          first = e.first;
          middle = e.middle;
          last = e.last;
          shape = e.shape;
          first_lower = a;
          middle_name = rest;
          last_alnum = b;
        }

    back : HasForm u → validate_username (some u) ≡ true
    back f =
        let size = framed_size f.first f.last f.middle in
        let n = rw (f.shape, size) at above in
        let k = rw (f.shape, size) at below in
        rw f.shape (
          lower_framed f.first f.last f.middle (rw f.shape at small) n k
          ∙ rw (f.first_lower, f.last_alnum) f.middle_name)

lower-validate_username :
    (u : Text)
    → all not_capital u ≡ true
    → (validate_username (some u) ≡ true) ↔ (is_valid_username u ≡ (true, true))
lower-validate_username u small = (
  λ h.
      let (above, below) = named_sizes u h in
      (is_valid_username_iff u).1 ((lower-HasForm u small above below).0 h, above, below),
  λ h.
      let (form, above, below) = (is_valid_username_iff u).0 h in
      (lower-HasForm u small above below).1 form,
)

-- The daemon accepts a name, once `parse_session_json` has lowered it, exactly if the form accepts
-- that lowered name: the loop over characters and the two expressions are one test.
pub validate_username-is_valid_username :
    (u : Text)
    → (validate_username (some (lowered u)) ≡ true) ↔ (is_valid_username (lowered u) ≡ (true, true))
validate_username-is_valid_username u = lower-validate_username (lowered u) (lowered-not_capital u)

to_lower-name : (c : ℕ) → is_name_char c ≡ true → to_lower c ≡ c
to_lower-name c h = ground arith

lowered-names : (s : Text) → all is_name_char s ≡ true → lowered s ≡ s
lowered-names [] h = refl
lowered-names (c ∷ s) h =
    let (here, later) = &&_true _ _ h in ap₂ ◌∷◌ (to_lower-name c here) (lowered-names s later)

-- A name that the form accepts is passed on unchanged and accepted by the daemon.
pub accepted_name :
    (u : Text)
    → is_valid_username u ≡ (true, true)
    → (lowered u ≡ u) × (validate_username (some u) ≡ true)
accepted_name u h =
    let (form, _, _) = (is_valid_username_iff u).0 h in
    let same = lowered-names u (HasForm-names u form) in
    (same, rw same at ((validate_username-is_valid_username u).1 (rw same h)))
