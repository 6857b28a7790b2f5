-- ===== src/Validators/Sequences.antt =====
-- What the test for sequential characters finds.
use signup_daemon.Prelude.{
  ℕ, zero, suc, ◌+◌, ◌-◌, ◌≤◌, ◌<◌, ◌≡◌, ◌∙◌, ap, Bool, true, ◌↔◌, [], ◌∷◌, ◌++◌, ◌⊎◌, inl, inr,
  arith, length, length-append, ||_true, ◌||◌, Bool-cases,
}
use signup_daemon.Js.Strings.{Text}
use signup_daemon.Validators.{ascends, descends, any_from, has_sequential_chars}

-- Somewhere four characters stand whose codes go up by one.
pub record HasRise (p : Text) : Type 0 where
  pub before : Text
  pub low : ℕ
  pub after : Text
  pub shape : p ≡ before ++ low ∷ (low + 1) ∷ (low + 2) ∷ (low + 3) ∷ after

-- Somewhere four characters stand whose codes go down by one.
pub record HasFall (p : Text) : Type 0 where
  pub before : Text
  pub low : ℕ
  pub after : Text
  pub shape : p ≡ before ++ (low + 3) ∷ (low + 2) ∷ (low + 1) ∷ low ∷ after

any_from-found :
    (test : ℕ → Bool) (n i : ℕ)
    → any_from test n i ≡ true
    → (j : ℕ) × (i ≤ j) × (j < i + n) × (test j ≡ true)
unfolding any_from
any_from-found test zero i h = cc
any_from-found test (suc n) i h = elim (Bool-cases (test i)) [
  | inl now ↦ (i, omega arith, omega arith, now)
  | inr not_yet ↦
      let (j, above, below, hit) = any_from-found test n (i + 1) (rw not_yet at h) in
      (j, omega arith, omega arith, hit)
]

any_from-finds :
    (test : ℕ → Bool) (n i j : ℕ) → i ≤ j → j < i + n → test j ≡ true → any_from test n i ≡ true
unfolding any_from
any_from-finds test zero i j above below hit = absurd (omega arith)
any_from-finds test (suc n) i j above below hit = ground (arith, any_from-finds test n (i + 1) j)

module _ (x : ℕ) (s : Text) (j : ℕ) where
  one_on : suc j + 1 ≡ suc (j + 1)
  one_on = omega arith

  two_on : suc j + 2 ≡ suc (j + 2)
  two_on = omega arith

  three_on : suc j + 3 ≡ suc (j + 3)
  three_on = omega arith

  ascends-cons : ascends (x ∷ s) (suc j) ≡ ascends s j
  unfolding ascends
  ascends-cons = rw (one_on, two_on, three_on)

  descends-cons : descends (x ∷ s) (suc j) ≡ descends s j
  unfolding descends
  descends-cons = rw (one_on, two_on, three_on)

rise_at : (s : Text) (j : ℕ) → ascends s j ≡ true → HasRise s
unfolding ascends
rise_at [] j h = cc
rise_at (a ∷ []) zero h = cc
rise_at (a ∷ b ∷ []) zero h = ground arith
rise_at (a ∷ b ∷ c ∷ []) zero h = ground arith
rise_at (a ∷ b ∷ c ∷ d ∷ s) zero h = record {
  before = [];
  low = a;
  after = s;
  shape = ground arith;
}
rise_at (x ∷ s) (suc j) h =
    let r = rise_at s j (rw (ascends-cons x s j) at h) in
    record { before = x ∷ r.before; low = r.low; after = r.after; shape = ap (λ t. x ∷ t) r.shape }

fall_at : (s : Text) (j : ℕ) → descends s j ≡ true → HasFall s
unfolding descends
fall_at [] j h = cc
fall_at (a ∷ []) zero h = cc
fall_at (a ∷ b ∷ []) zero h = ground arith
fall_at (a ∷ b ∷ c ∷ []) zero h = ground arith
fall_at (a ∷ b ∷ c ∷ d ∷ s) zero h = record {
  before = [];
  low = d;
  after = s;
  shape = ground arith;
}
fall_at (x ∷ s) (suc j) h =
    let r = fall_at s j (rw (descends-cons x s j) at h) in
    record { before = x ∷ r.before; low = r.low; after = r.after; shape = ap (λ t. x ∷ t) r.shape }

ascends_there :
    (before after : Text) (c : ℕ)
    → ascends (before ++ c ∷ (c + 1) ∷ (c + 2) ∷ (c + 3) ∷ after) (length before) ≡ true
ascends_there [] after c = unfold ascends in ground arith
ascends_there (x ∷ before) after c = ascends-cons x _ _ ∙ ascends_there before after c

descends_there :
    (before after : Text) (c : ℕ)
    → descends (before ++ (c + 3) ∷ (c + 2) ∷ (c + 1) ∷ c ∷ after) (length before) ≡ true
descends_there [] after c = unfold descends in ground arith
descends_there (x ∷ before) after c = descends-cons x _ _ ∙ descends_there before after c

rise_in_range :
    (p : Text) (r : HasRise p)
    → (length r.before < length p - 3) × (ascends p (length r.before) ≡ true)
rise_in_range p r = (
  omega (arith, ap length r.shape, length-append r.before _),
  ap (λ t. ascends t (length r.before)) r.shape ∙ ascends_there r.before r.after r.low,
)

fall_in_range :
    (p : Text) (r : HasFall p)
    → (length r.before < length p - 3) × (descends p (length r.before) ≡ true)
fall_in_range p r = (
  omega (arith, ap length r.shape, length-append r.before _),
  ap (λ t. descends t (length r.before)) r.shape ∙ descends_there r.before r.after r.low,
)

either_loop :
    (p : Text)
    → has_sequential_chars p
      ≡ (any_from (ascends p) (length p - 3) 0 || any_from (descends p) (length p - 3) 0)
unfolding has_sequential_chars
either_loop p = ground arith

-- The test finds exactly the texts that hold four characters in a row whose codes go up by one, or
-- four whose codes go down by one.
pub has_sequential_chars_iff :
    (p : Text) → (has_sequential_chars p ≡ true) ↔ (HasRise p ⊎ HasFall p)
has_sequential_chars_iff p = (found, finds)
  where
    found : has_sequential_chars p ≡ true → HasRise p ⊎ HasFall p
    found h = elim (||_true _ _ (rw either_loop at h)) [
      | inl up ↦
          let (j, _, _, hit) = any_from-found (ascends p) (length p - 3) 0 up in
          inl (rise_at p j hit)
      | inr down ↦
          let (j, _, _, hit) = any_from-found (descends p) (length p - 3) 0 down in
          inr (fall_at p j hit)
    ]

    finds : HasRise p ⊎ HasFall p → has_sequential_chars p ≡ true
    finds (inl r) =
        let (inside, hit) = rise_in_range p r in
        rw (
          either_loop,
          any_from-finds (ascends p) (length p - 3) 0 (length r.before) (omega arith) (omega arith)
              hit,
        )
    finds (inr r) =
        let (inside, hit) = fall_in_range p r in
        let loop =
          any_from-finds (descends p) (length p - 3) 0 (length r.before) (omega arith) (omega arith)
            hit in
        either_loop p ∙ ground (arith, loop)
