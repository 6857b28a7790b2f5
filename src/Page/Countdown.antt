-- ===== src/Page/Countdown.antt =====
-- The ninety seconds between a successful sign-up and the next page.
use signup_daemon.Prelude.{
  ℕ, zero, suc, ◌+◌, ◌-◌, ◌<◌, ◌≡◌, refl, ◌∙◌, ap, some, leb, false, [], ◌∷◌, ◌++◌, arith,
}
use signup_daemon.Js.Strings.{Text, decimal}
use signup_daemon.Messages.{Site, Messages, func_succeed}
use signup_daemon.Page.{Page, Notice, counting, second, handle_signup_success}

unfoldable pub seconds : ℕ → Site → Page → Page
seconds zero site page = page
seconds (suc n) site page = seconds n site (second site page)

-- The page while one interval runs, with the time left shown.
abbrev at_time : ℕ → Text → Page → Page
at_time t text page = record page { message = some (counting text (decimal t)); timers = t ∷ [] }

abbrev finished : Site → Text → Page → Page
finished site text page = record page {
  message = some (counting text (decimal 0));
  timers = [];
  visited = page.visited ++ func_succeed site ∷ [];
}

second-at_time :
    (site : Site) (t : ℕ) (text : Text) (page : Page)
    → second site (at_time (suc (suc t)) text page) ≡ at_time (suc t) text page
unfolding second
second-at_time site t text page =
    let e : suc (suc t) - 1 ≡ suc t = omega arith in
    let more : leb (suc t) 0 ≡ false = ground arith in rw (e, more)

second-last :
    (site : Site) (text : Text) (page : Page)
    → second site (at_time 1 text page) ≡ finished site text page
unfolding second
second-last site text page = refl

seconds-at_time :
    (site : Site) (n t : ℕ) (text : Text) (page : Page)
    → seconds n site (at_time (n + suc t) text page) ≡ at_time (suc t) text page
unfolding seconds
seconds-at_time site zero t text page = ap (λ k. at_time k text page) (omega arith)
seconds-at_time site (suc n) t text page =
    let e : suc n + suc t ≡ suc (suc (n + t)) = omega arith in
    let e' : suc (n + t) ≡ n + suc t = omega arith in
    rw (e, second-at_time site (n + t) text page, e') (seconds-at_time site n t text page)

seconds-suc :
    (site : Site) (n : ℕ) (page : Page)
    → seconds (suc n) site page ≡ second site (seconds n site page)
unfolding seconds
seconds-suc site zero page = refl
seconds-suc site (suc n) page = seconds-suc site n (second site page)

module _ (site : Site) (msg : Messages) (page : Page) {old : Notice}
    (there : page.message ≡ some old) (idle : page.timers ≡ []) where
  abbrev shown : Page
  shown = handle_signup_success msg page

  starts : shown ≡ at_time 90 msg.success shown
  unfolding handle_signup_success
  starts = rw (there, idle)

  stays : shown.visited ≡ page.visited
  unfolding handle_signup_success
  stays = rw there

  waits : (n : ℕ) → n < 90 → seconds n site shown ≡ at_time (suc (89 - n)) msg.success shown
  waits n h =
      let e : 90 ≡ n + suc (89 - n) = omega arith in
      ap (seconds n site) (starts ∙ ap (λ k. at_time k msg.success shown) e)
      ∙ seconds-at_time site n (89 - n) msg.success shown

  -- After a success with the message element there and no interval running, n seconds, for n < 90,
  -- leave the page where it is and show the 90 - n seconds that are left; ninety seconds go to the
  -- next page, once, and clear the interval.
  pub seconds-arrives :
      (n : ℕ)
      → n < 90
      → ((seconds n site shown).message ≡ some (counting msg.success (decimal (90 - n))))
        × ((seconds n site shown).visited ≡ page.visited)
        × ((seconds 90 site shown).visited ≡ page.visited ++ func_succeed site ∷ [])
        × ((seconds 90 site shown).timers ≡ [])
  seconds-arrives n h =
      let e : suc (89 - n) ≡ 90 - n = omega arith in
      let last =
        seconds-suc site 89 shown
        ∙ ap (second site) (waits 89 (omega arith))
        ∙ second-last site msg.success shown in
      (
        ap (λ p. p.message) (waits n h) ∙ ap (λ k. some (counting msg.success (decimal k))) e,
        ap (λ p. p.visited) (waits n h) ∙ stays,
        ap (λ p. p.visited) last ∙ ap (λ v. v ++ func_succeed site ∷ []) stays,
        ap (λ p. p.timers) last,
      )
