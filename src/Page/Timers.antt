-- ===== src/Page/Timers.antt =====
-- Every interval of the page runs out, however many successes have set one.
use signup_daemon.Prelude.{
  ℕ, zero, suc, ◌+◌, ◌-◌, ◌≡◌, refl, sym, ◌∙◌, ap, true, List, [], ◌∷◌, ◌++◌, append_assoc,
  append-nil, arith, length, all, replicate, leb, if◌then◌else◌, Bool-cases, inl, inr, &&_true,
}
use signup_daemon.Js.Strings.{Text}
use signup_daemon.Messages.{Site, func_succeed}
use signup_daemon.Page.{Page, tick, tick_all, second}
use signup_daemon.Page.Countdown.{seconds}

-- Of some intervals, how many a second clears, and what it leaves of the others.
abbrev cleared : List ℕ → ℕ
cleared [] = 0
cleared (t ∷ ts) = let rest = cleared ts in if leb (t - 1) 0 then suc rest else rest

abbrev left_over : List ℕ → List ℕ
left_over [] = []
left_over (t ∷ ts) = let rest = left_over ts in if leb (t - 1) 0 then rest else (t - 1) ∷ rest

length-left_over : (ts : List ℕ) → cleared ts + length (left_over ts) ≡ length ts
length-left_over [] = refl
length-left_over (t ∷ ts) = ground (arith, length-left_over ts)

all-left_over :
    (n : ℕ) (ts : List ℕ)
    → all (λ t. leb t (suc n)) ts ≡ true
    → all (λ t. leb t n) (left_over ts) ≡ true
all-left_over n [] h = refl
all-left_over n (t ∷ ts) h =
    let (here, later) = &&_true (leb t (suc n)) _ h in
    let rest = all-left_over n ts later in
    elim (Bool-cases (leb (t - 1) 0)) [
      | inl over ↦ rw over rest
      | inr more ↦ let below : leb (t - 1) n ≡ true = ground arith in rw (more, below) rest
    ]

none_left : (ts : List ℕ) → all (λ t. leb t 1) ts ≡ true → left_over ts ≡ []
none_left [] h = refl
none_left (t ∷ ts) h =
    let (here, later) = &&_true (leb t 1) _ h in
    let over : leb (t - 1) 0 ≡ true = ground arith in rw (over, none_left ts later) refl

replicate-add {ℓ} :
    {A : Type ℓ} (m n : ℕ) (a : A) → replicate m a ++ replicate n a ≡ replicate (m + n) a
replicate-add zero n a = let e : 0 + n ≡ n = omega arith in rw e refl
replicate-add (suc m) n a =
    let e : suc m + n ≡ suc (m + n) = omega arith in rw e (ap (λ xs. a ∷ xs) (replicate-add m n a))

module _ (site : Site) where
  abbrev arrivals : ℕ → List Text
  arrivals n = replicate n (func_succeed site)

  tick_all-lem :
      (ts : List ℕ) (page : Page)
      → ((tick_all site ts page).0 ≡ left_over ts)
        × ((tick_all site ts page).1.visited ≡ page.visited ++ arrivals (cleared ts))
  unfolding tick_all tick
  tick_all-lem [] page = (refl, sym (append-nil page.visited))
  tick_all-lem (t ∷ ts) page =
      let (left, visited) = tick_all-lem ts (tick site t page).1 in
      elim (Bool-cases (leb (t - 1) 0)) [
        | inl over ↦ rw over (rw over at left, (rw over at visited) ∙ append_assoc page.visited _ _)
        | inr more ↦ rw more (ap (λ ts. (t - 1) ∷ ts) (rw more at left), rw more at visited)
      ]

  second-timers : (page : Page) → (second site page).timers ≡ left_over page.timers
  unfolding second
  second-timers page = (tick_all-lem page.timers page).0

  second-visited :
      (page : Page) → (second site page).visited ≡ page.visited ++ arrivals (cleared page.timers)
  unfolding second
  second-visited page = (tick_all-lem page.timers page).1

  tick_all-button : (ts : List ℕ) (page : Page) → (tick_all site ts page).1.button ≡ page.button
  unfolding tick_all tick
  tick_all-button [] page = refl
  tick_all-button (t ∷ ts) page =
      let rest = tick_all-button ts (tick site t page).1 in
      elim (Bool-cases (leb (t - 1) 0)) [
        | inl over ↦ rw over (rw over at rest)
        | inr more ↦ rw more (rw more at rest)
      ]

  -- The seconds leave the button alone.
  pub second-button : (page : Page) → (second site page).button ≡ page.button
  unfolding second
  second-button page = tick_all-button page.timers page

  -- When no interval has more than n + 1 seconds left, then after n + 1 seconds none runs any more, and
  -- each of them has gone to the next page once.
  pub seconds-timers :
      (n : ℕ) (page : Page)
      → all (λ t. leb t (suc n)) page.timers ≡ true
      → ((seconds (suc n) site page).timers ≡ [])
        × ((seconds (suc n) site page).visited ≡ page.visited ++ arrivals (length page.timers))
  unfolding seconds
  seconds-timers zero page h =
      let last = none_left page.timers h in
      let e : cleared page.timers ≡ length page.timers =
        omega (arith, length-left_over page.timers, ap length last) in
      (second-timers page ∙ last, second-visited page ∙ ap (λ k. page.visited ++ arrivals k) e)
  seconds-timers (suc n) page h =
      let below = rw (← second-timers page) at (all-left_over (suc n) page.timers h) in
      let (timers, visited) = seconds-timers n (second site page) below in
      (
        timers,
        visited
            ∙ rw (second-visited page, second-timers page)
                (append_assoc page.visited _ _
                  ∙ ap (λ xs. page.visited ++ xs)
                      (replicate-add (cleared page.timers) (length (left_over page.timers))
                          (func_succeed site)
                        ∙ ap arrivals (length-left_over page.timers))),
      )
