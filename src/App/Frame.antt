-- ===== src/App/Frame.antt =====
-- What a stage of the submission leaves alone.
use signup_daemon.Prelude.{◌≡◌, refl, ◌∙◌, ap, Option, none, some}
use mathlib.Core.Option
use signup_daemon.Js.Strings.{Text}
use signup_daemon.Messages.{Messages}
use signup_daemon.Page.{Page, Button, released, release, show}
use signup_daemon.App.{App}

-- Nothing but texts of the page differs, and the button only in what a release sets.
pub record Same (p q : Page) : Type 0 where
  pub button : (m : Messages) → Option.map (released m) q.button ≡ Option.map (released m) p.button
  pub timers : q.timers ≡ p.timers
  pub visited : q.visited ≡ p.visited

pub Same-refl : (p q : Page) → q ≡ p → Same p q
Same-refl p q e = record {
  button = λ m. ap (λ r. Option.map (released m) r.button) e;
  timers = ap (λ r. r.timers) e;
  visited = ap (λ r. r.visited) e;
}

pub Same-trans : (p q r : Page) → Same p q → Same q r → Same p r
Same-trans p q r s t = record {
  button = λ m. t.button m ∙ s.button m;
  timers = t.timers ∙ s.timers;
  visited = t.visited ∙ s.visited;
}

pub released_twice :
    (m m' : Messages) (b : Option Button)
    → Option.map (released m) (Option.map (released m') b) ≡ Option.map (released m) b
released_twice m m' none = refl
released_twice m m' (some b) = refl

pub show-Same : (t : Text) (p : Page) → Same p (show t p)
show-Same t p = record { button = λ m. refl; timers = refl; visited = refl }

pub release-Same : (m : Messages) (p : Page) → Same p (release m p)
release-Same m p = record {
  button = λ m'. released_twice m' m p.button;
  timers = refl;
  visited = refl;
}

pub refuse-Same : (m : Messages) (t : Text) (p : Page) → Same p (release m (show t p))
refuse-Same m t p = Same-trans p (show t p) _ (show-Same t p) (release-Same m (show t p))

-- A stage with a result: the requests and the language stay, and the page too where there is a
-- result; without one it is the same but for texts and a release.
pub record Keeps {A : Type 0} (app : App) (r : Option A × App) : Type 0 where
  pub requests : r.1.requests ≡ app.requests
  pub language : r.1.language ≡ app.language
  pub page_same : Same app.page r.1.page
  pub page_kept : (a : A) → r.0 ≡ some a → r.1.page ≡ app.page
