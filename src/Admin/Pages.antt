-- ===== src/Admin/Pages.antt =====
-- The pagination: which pages it offers.
use signup_daemon.Prelude.{
  ℕ, zero, suc, ◌+◌, ◌-◌, ◌≤◌, ◌<◌, ◌≡◌, ◌⊎◌, refl, ap, ap₂, ◌≢◌, ==_iff, true, false, List, [],
  ◌∷◌, ◌++◌, Bool-cases, inl, inr, arith, if◌then◌else◌, length, length-append, ◌==◌,
}
use signup_daemon.Admin.{
  PageButton, start_page, end_page, max_buttons, number_buttons, create_pagination, next_button,
}

-- The pages of the buttons that are marked as active.
abbrev pub active_targets : List PageButton → List ℕ
active_targets [] = []
active_targets (b ∷ bs) = let rest = active_targets bs in if b.active then b.target ∷ rest else rest

-- A button that works asks for a page from 1 to the last.
abbrev pub InRange : ℕ → PageButton → Type 0
InRange total b = (b.disabled ≡ true) ⊎ ((1 ≤ b.target) × (b.target ≤ total))

abbrev pub All : (PageButton → Type 0) → List PageButton → Type 0
All P [] = Unit
All P (b ∷ bs) = P b × All P bs

length-number_buttons : (current n i : ℕ) → length (number_buttons current n i) ≡ n
unfolding number_buttons
length-number_buttons current zero i = refl
length-number_buttons current (suc n) i = ap suc (length-number_buttons current n (i + 1))

-- There are never more than five numbers between the two outer buttons.
pub length-create_pagination :
    (current total : ℕ) → length (create_pagination current total) ≤ max_buttons + 2
unfolding create_pagination
length-create_pagination current total = omega (
  arith,
  length-append
      (number_buttons current (end_page current total + 1 - start_page current)
        (start_page current))
      (next_button current total ∷ []),
  length-number_buttons current (end_page current total + 1 - start_page current)
      (start_page current),
)

active-none :
    (current n i : ℕ) (rest : List PageButton)
    → current < i
    → active_targets (number_buttons current n i ++ rest) ≡ active_targets rest
unfolding number_buttons
active-none current zero i rest h = refl
active-none current (suc n) i rest h =
    let other : (i == current) ≡ false = ground arith in
    rw other (active-none current n (i + 1) rest (omega arith))

active-numbers :
    (current n i : ℕ) (rest : List PageButton)
    → i ≤ current
    → current < i + n
    → active_targets (number_buttons current n i ++ rest) ≡ current ∷ active_targets rest
unfolding number_buttons
active-numbers current zero i rest above below = absurd (omega arith)
active-numbers current (suc n) i rest above below = elim (Bool-cases (i == current)) [
  | inl now ↦
      let same : i ≡ current = (==_iff i current).0 now in
      rw now (ap₂ (λ a as'. a ∷ as') same (active-none current n (i + 1) rest (omega arith)))
  | inr later ↦
      let differs : i ≢ current = λ e. let hit = (==_iff i current).1 e in cc in
      rw later (active-numbers current n (i + 1) rest (omega arith) (omega arith))
]

-- For a current page from 1 to the last, exactly one button is active, that of the current page.
pub active-create_pagination :
    (current total : ℕ)
    → 1 ≤ current
    → current ≤ total
    → active_targets (create_pagination current total) ≡ current ∷ []
unfolding create_pagination
active-create_pagination current total above below =
    active-numbers current _ (start_page current) (next_button current total ∷ []) (omega arith)
      (omega arith)

numbers-InRange :
    (current total n i : ℕ) (rest : List PageButton)
    → 1 ≤ i
    → i + n ≤ total + 1
    → All (InRange total) rest
    → All (InRange total) (number_buttons current n i ++ rest)
unfolding number_buttons
numbers-InRange current total zero i rest above below h = h
numbers-InRange current total (suc n) i rest above below h = (
  inr (omega arith, omega arith),
  numbers-InRange current total n (i + 1) rest (omega arith) (omega arith) h,
)

-- For a current page from 1 to the last, every button that works leads to a page from 1 to the
-- last.
pub create_pagination-InRange :
    (current total : ℕ)
    → 1 ≤ current
    → current ≤ total
    → All (InRange total) (create_pagination current total)
unfolding create_pagination
create_pagination-InRange current total above below = (
  ground arith,
  numbers-InRange current total (end_page current total + 1 - start_page current)
      (start_page current) (next_button current total ∷ []) (omega arith) (omega arith)
      (ground arith, tt),
)
