-- ===== src/Validators/Repeats.antt =====
-- What the test for repeated characters finds.
use signup_daemon.Prelude.{
  ℕ, ◌≤◌, ◌≡◌, refl, ◌∙◌, ap, true, ◌↔◌, none, some, [], ◌∷◌, ◌++◌, inl, inr, arith, length, all,
  &&_true, ||_true, ◌==◌, ==_iff, List,
}
use signup_daemon.Js.Strings.{Text}
use signup_daemon.Js.Regex.{run, test, group, again, Piece}
use signup_daemon.Js.Regex.Splits.{match_at_least-split, match_at_least-join}
use signup_daemon.Validators.{is_dot, has_repeating_chars}

-- Somewhere one character, no line terminator, stands four times in a row.
pub record HasRun (p : Text) : Type 0 where
  pub before : Text
  pub char : ℕ
  pub after : Text
  pub shape : p ≡ before ++ char ∷ char ∷ char ∷ char ∷ after
  pub visible : is_dot char ≡ true

abbrev regex : List Piece
regex = group is_dot ∷ again 3 ∷ []

shift : (x : ℕ) (s : Text) → HasRun s → HasRun (x ∷ s)
shift x s r = record {
  before = x ∷ r.before;
  char = r.char;
  after = r.after;
  shape = ap (λ t. x ∷ t) r.shape;
  visible = r.visible;
}

-- Three equal characters in front of a text.
three :
    (x : ℕ) (front : Text)
    → 3 ≤ length front
    → all (λ y. y == x) front ≡ true
    → (more : Text) × (front ≡ x ∷ x ∷ x ∷ more)
three x [] n h = absurd (omega arith)
three x (a ∷ []) n h = absurd (omega arith)
three x (a ∷ b ∷ []) n h = absurd (omega arith)
three x (a ∷ b ∷ c ∷ more) n h = (more, ground arith)

here : (x : ℕ) (s : Text) → run regex none (x ∷ s) ≡ true → HasRun (x ∷ s)
unfolding run
here x s h =
    let (dot, rest) = &&_true _ _ h in
    let (p, long) = match_at_least-split 3 (λ y. y == x) (run [] (some x)) s rest in
    let (more, e) = three x p.front long p.inside in
    record {
      before = [];
      char = x;
      after = more ++ p.back;
      shape = ap (λ t. x ∷ t) (p.joins ∙ ap (λ t. t ++ p.back) e);
      visible = dot;
    }

found : (p : Text) → test regex p ≡ true → HasRun p
unfolding test run
found [] h = cc
found (x ∷ s) h = elim (||_true _ _ h) [
  | inl now ↦ here x s now
  | inr later ↦ shift x s (found s later)
]

at_front : (x : ℕ) (s : Text) → is_dot x ≡ true → run regex none (x ∷ x ∷ x ∷ x ∷ s) ≡ true
unfolding run
at_front x s h =
    let same : (x == x) ≡ true = (==_iff x x).1 refl in
    rw h (
      match_at_least-join 3 (λ y. y == x) (run [] (some x)) (x ∷ x ∷ x ∷ []) s (omega arith)
        (rw same) refl)

test_at :
    (before after : Text) (x : ℕ)
    → is_dot x ≡ true
    → test regex (before ++ x ∷ x ∷ x ∷ x ∷ after) ≡ true
unfolding test
test_at [] after x h = ground (arith, at_front x after h)
test_at (y ∷ before) after x h = ground (arith, test_at before after x h)

-- The test finds exactly the texts in which one character, no line terminator, stands four times
-- in a row.
pub has_repeating_chars_iff : (p : Text) → (has_repeating_chars p ≡ true) ↔ HasRun p
unfolding has_repeating_chars
has_repeating_chars_iff p = (found p, λ r. rw (r.shape) (test_at r.before r.after r.char r.visible))
