-- ===== src/Js/Regex/Splits.antt =====
-- What the repetitions of the matcher accept: the text splits into a part of the right length in
-- the class and a rest that the continuation accepts.
use signup_daemon.Prelude.{
  ℕ, zero, suc, ◌≤◌, ◌≡◌, refl, ap, Bool, true, inl, inr, [], ◌∷◌, ◌++◌, arith, length, all,
  &&_true, ||_true,
}
use signup_daemon.Js.Strings.{Text}
use signup_daemon.Js.Regex.{Class, match_at_least, match_between}

-- A prefix of the text and the rest.
pub record Split (s : Text) (c : Class) (k : Text → Bool) : Type 0 where
  pub front : Text
  pub back : Text
  pub joins : s ≡ front ++ back
  pub inside : all c front ≡ true
  pub goes_on : k back ≡ true

module _ {c : Class} {k : Text → Bool} where
  nothing : (s : Text) → k s ≡ true → Split s c k
  nothing s h = record { front = []; back = s; joins = refl; inside = refl; goes_on = h }

  extend : (x : ℕ) (s : Text) → c x ≡ true → Split s c k → Split (x ∷ s) c k
  extend x s h p = record {
    front = x ∷ p.front;
    back = p.back;
    joins = ap (λ t. x ∷ t) p.joins;
    inside = ground (arith, p.inside);
    goes_on = p.goes_on;
  }

pub match_at_least-split :
    (n : ℕ) (c : Class) (k : Text → Bool) (s : Text)
    → match_at_least n c k s ≡ true
    → (p : Split s c k) × (n ≤ length p.front)
unfolding match_at_least nothing extend
match_at_least-split zero c k [] h = (nothing [] h, omega arith)
match_at_least-split (suc n) c k [] h = cc
match_at_least-split zero c k (x ∷ s) h = elim (||_true _ _ h) [
  | inl taken ↦
      let (here, later) = &&_true _ _ taken in
      let (p, len) = match_at_least-split zero c k s later in (extend x s here p, omega arith)
  | inr skipped ↦ (nothing (x ∷ s) skipped, omega arith)
]
match_at_least-split (suc n) c k (x ∷ s) h =
    let (here, later) = &&_true _ _ h in
    let (p, len) = match_at_least-split n c k s later in (extend x s here p, omega arith)

pub match_at_least-join :
    (n : ℕ) (c : Class) (k : Text → Bool) (front back : Text)
    → n ≤ length front
    → all c front ≡ true
    → k back ≡ true
    → match_at_least n c k (front ++ back) ≡ true
unfolding match_at_least
match_at_least-join zero c k [] [] len inside more = more
match_at_least-join zero c k [] (y ∷ back) len inside more = ground arith
match_at_least-join (suc n) c k [] back len inside more = absurd (omega arith)
match_at_least-join zero c k (x ∷ front) back len inside more =
    ground (arith, match_at_least-join zero c k front back)
match_at_least-join (suc n) c k (x ∷ front) back len inside more =
    ground (arith, match_at_least-join n c k front back)

pub match_between-split :
    (lo hi : ℕ) (c : Class) (k : Text → Bool) (s : Text)
    → match_between lo hi c k s ≡ true
    → (p : Split s c k) × (lo ≤ length p.front) × (length p.front ≤ hi)
unfolding match_between nothing extend
match_between-split zero zero c k s h = (nothing s h, omega arith, omega arith)
match_between-split (suc lo) zero c k s h = cc
match_between-split zero (suc hi) c k [] h = (nothing [] h, omega arith, omega arith)
match_between-split (suc lo) (suc hi) c k [] h = cc
match_between-split zero (suc hi) c k (x ∷ s) h = elim (||_true _ _ h) [
  | inl taken ↦
      let (here, later) = &&_true _ _ taken in
      let (p, above, below) = match_between-split zero hi c k s later in
      (extend x s here p, omega arith, omega arith)
  | inr skipped ↦ (nothing (x ∷ s) skipped, omega arith, omega arith)
]
match_between-split (suc lo) (suc hi) c k (x ∷ s) h =
    let (here, later) = &&_true _ _ h in
    let (p, above, below) = match_between-split lo hi c k s later in
    (extend x s here p, omega arith, omega arith)

pub match_between-join :
    (lo hi : ℕ) (c : Class) (k : Text → Bool) (front back : Text)
    → lo ≤ length front
    → length front ≤ hi
    → all c front ≡ true
    → k back ≡ true
    → match_between lo hi c k (front ++ back) ≡ true
unfolding match_between
match_between-join zero zero c k [] back above below inside more = more
match_between-join zero (suc hi) c k [] [] above below inside more = more
match_between-join zero (suc hi) c k [] (y ∷ back) above below inside more = ground arith
match_between-join (suc lo) hi c k [] back above below inside more = absurd (omega arith)
match_between-join lo zero c k (x ∷ front) back above below inside more = absurd (omega arith)
match_between-join zero (suc hi) c k (x ∷ front) back above below inside more =
    ground (arith, match_between-join zero hi c k front back)
match_between-join (suc lo) (suc hi) c k (x ∷ front) back above below inside more =
    ground (arith, match_between-join lo hi c k front back)
