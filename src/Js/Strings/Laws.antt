-- ===== src/Js/Strings/Laws.antt =====
-- Laws of the string methods.
use signup_daemon.Prelude.{
  ℕ, ◌≡◌, refl, ap₂, Bool, true, false, not, [], ◌∷◌, ◌++◌, all, ==_iff, &&_true, ◌==◌, arith,
}
use signup_daemon.Js.Strings.{Text, text_eq, is_space, split_at, trim, trim_start, trim_end}

pub text_eq_refl : (s : Text) → text_eq s s ≡ true
text_eq_refl [] = refl
text_eq_refl (x ∷ s) = rw ((==_iff x x).1 refl) (text_eq_refl s)

pub eq_of_text_eq : (s t : Text) → text_eq s t ≡ true → s ≡ t
eq_of_text_eq [] [] h = refl
eq_of_text_eq [] (y ∷ t) h = cc
eq_of_text_eq (x ∷ s) [] h = cc
eq_of_text_eq (x ∷ s) (y ∷ t) h =
    let (head, rest) = &&_true _ _ h in
    ap₂ (λ z u. z ∷ u) ((==_iff x y).0 head) (eq_of_text_eq s t rest)

pub split_at-none : (c : ℕ) (s : Text) → all (λ x. not (x == c)) s ≡ true → split_at c s ≡ s ∷ []
unfolding split_at
split_at-none c [] h = refl
split_at-none c (x ∷ s) h =
    let (here, later) = &&_true (not (x == c)) _ h in
    let other : (x == c) ≡ false = ground arith in rw (other, split_at-none c s later) refl

pub split_at-first :
    (c : ℕ) (s t : Text)
    → all (λ x. not (x == c)) s ≡ true
    → split_at c (s ++ c ∷ t) ≡ s ∷ split_at c t
unfolding split_at
split_at-first c [] t h = let same : (c == c) ≡ true = ground arith in rw same refl
split_at-first c (x ∷ s) t h =
    let (here, later) = &&_true (not (x == c)) _ h in
    let other : (x == c) ≡ false = ground arith in rw (other, split_at-first c s t later) refl

abbrev pub no_space : ℕ → Bool
no_space x = not (is_space x)

trim_start-none : (s : Text) → all no_space s ≡ true → trim_start s ≡ s
unfolding trim_start
trim_start-none [] h = refl
trim_start-none (x ∷ s) h =
    let (here, later) = &&_true (no_space x) _ h in
    let other : is_space x ≡ false = ground arith in rw other refl

trim_end-none : (s : Text) → all no_space s ≡ true → trim_end s ≡ s
unfolding trim_end
trim_end-none [] h = refl
trim_end-none (x ∷ s) h =
    let (here, later) = &&_true (no_space x) _ h in
    let other : is_space x ≡ false = ground arith in rw (other, trim_end-none s later) refl

-- A text without white space behind one space.
pub trim-none : (s : Text) → all no_space s ≡ true → trim s ≡ s
unfolding trim
trim-none s h = rw (trim_start-none s h) (trim_end-none s h)

pub trim-space : (s : Text) → all no_space s ≡ true → trim (b' ' ∷ s) ≡ s
unfolding trim trim_start
trim-space s h = rw (trim_start-none s h) (trim_end-none s h)
