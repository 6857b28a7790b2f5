-- ===== src/Overlap/Pieces.antt =====
-- What a piece of a submission does to the button and leaves alone.
use signup_daemon.Prelude.{
  ℕ, ◌≤◌, ◌≡◌, ◌⊎◌, inl, inr, refl, sym, ◌∙◌, ap, subst, Bool, true, false, Option, none, some, [],
  codes, Bool-cases, ◌==◌,
}
use mathlib.Core.Option
use signup_daemon.Js.Strings.{Text, trim}
use signup_daemon.Js.Json.{Json}
use signup_daemon.Messages.{Site, Messages}
use signup_daemon.Page.{
  Page, Button, Notice, released, succeeded, show, handle_signup_error, handle_signup_success,
  start_countdown,
}
use signup_daemon.Page.Validation.{WritesMessage, validate_form_inputs-writes}
use signup_daemon.App.{World, App, Fetched, rejected, response, is_ok, current_messages}
use signup_daemon.App.Frame.{Keeps}
use signup_daemon.PassHash.Frame.{calc_pass_hash-Keeps}
use signup_daemon.Session.Frame.{Asked, after_session_post-Asked, read_ok-Asked, or_refused-Asked}
use signup_daemon.Submit.{processing, loads_cookie_get, on_422}
use signup_daemon.Overlap.{
  Stage, for_session, for_answer, for_json, for_refusal, for_reason, Pending, begin,
  begin_validated, post_hash, with_json, with_answer, after_session, after_refusal, after_answer,
  resume, is_enabled,
}

-- The button is not stuck while n submissions are awaited: it can be used, or it shows a success, or
-- there is something to wait for.
abbrev pub NotStuck : Option Button → ℕ → Type 0
NotStuck none n = Unit
NotStuck (some b) n = (b.disabled ≡ false) ⊎ ((b.success_state ≡ true) ⊎ (1 ≤ n))

released-NotStuck :
    (msg : Messages) (o : Option Button) (n : ℕ) → NotStuck (Option.map (released msg) o) n
released-NotStuck msg none n = tt
released-NotStuck msg (some b) n = inl refl

succeeded-NotStuck :
    (msg : Messages) (o : Option Button) (n : ℕ) → NotStuck (Option.map (succeeded msg) o) n
succeeded-NotStuck msg none n = tt
succeeded-NotStuck msg (some b) n = inr (inl refl)

-- A piece that an answer has set off: it goes on to wait, or it is the last, and the button is not stuck even if nothing else is awaited.
pub data Piece (app : App) : Option Pending × App → Type 0 where
  continues :
      (p : Pending) (after : App) → after.language ≡ app.language → Piece app (some p, after)
  stops :
      (after : App)
      → after.language ≡ app.language
      → ((n : ℕ) → NotStuck after.page.button n)
      → Piece app (none, after)

module _ (world : World) (site : Site) (msg : Messages) where
  error-Piece :
      (app after : App) (status extra : Text)
      → after.language ≡ app.language
      → Piece app (none, record after { page = handle_signup_error status extra msg after.page })
  unfolding handle_signup_error
  error-Piece app after status extra l = stops _ l (released-NotStuck msg after.page.button)

  success-Piece :
      (app : App) → Piece app (none, record app { page = handle_signup_success msg app.page })
  unfolding handle_signup_success
  success-Piece app = stops _ refl (counted app.page.message)
    where
      counted :
          (m : Option Notice) (n : ℕ)
          → NotStuck
              (start_countdown msg m
                (record app.page { button = Option.map (succeeded msg) app.page.button })).button
              n
      counted none n = succeeded-NotStuck msg app.page.button n
      counted (some _) n = succeeded-NotStuck msg app.page.button n

  on_422-Piece : (body : Option Text) (app : App) → Piece app (none, on_422 world site msg body app)
  on_422-Piece none app = error-Piece app app (codes "0") (codes "0") refl
  on_422-Piece (some body) app = elim (Bool-cases (loads_cookie_get site)) [
    | inl there ↦ rw there (error-Piece app app _ _ refl)
    | inr missing ↦ rw missing (error-Piece app app (codes "0") (codes "0") refl)
  ]

  answer-Piece :
      (fetched : Fetched) (app : App) → Piece app (after_answer world site msg fetched app)
  answer-Piece rejected app = error-Piece app app (codes "0") (codes "0") refl
  answer-Piece (response status headers body) app = elim (Bool-cases (status == 422)) [
    | inl refusal ↦ rw refusal (continues _ app refl)
    | inr other ↦ elim (Bool-cases (status == 200)) [
      | inl success ↦ rw (other, success) (success-Piece app)
      | inr neither ↦ rw (other, neither) (error-Piece app app _ (codes "0") refl)
    ]
  ]

  post_hash-Piece :
      (app middle : App) (r : Option Text × App)
      → Keeps middle r
      → middle.language ≡ app.language
      → Piece app (post_hash site msg r)
  post_hash-Piece app middle (none, after) k l =
      error-Piece app after (codes "1") (codes "1") (k.language ∙ l)
  post_hash-Piece app middle (some body, after) k l = continues _ _ (k.language ∙ l)

  with_json-Piece :
      (app : App) (r : Option Json × App) → Asked msg app r → Piece app (with_json world site msg r)
  with_json-Piece app (none, after) k = stops after k.language (λ n.
      subst (λ o. NotStuck o n) (sym (k.button refl)) (released-NotStuck msg app.page.button n))
  with_json-Piece app (some json, after) k =
      post_hash-Piece app after _ (calc_pass_hash-Keeps world site json after) k.language

  with_answer-Piece :
      (app : App) (r : Option Json × App)
      → Asked msg app r
      → Piece app (with_answer world site msg r)
  with_answer-Piece app r k = with_json-Piece app _ (or_refused-Asked world site msg app r k)

  session-Piece :
      (fetched : Fetched) (app : App) → Piece app (after_session world site msg fetched app)
  session-Piece rejected app =
      with_answer-Piece app _ (after_session_post-Asked world site msg rejected app)
  session-Piece (response status headers body) app = elim (Bool-cases (is_ok status)) [
    | inl good ↦ rw good (continues _ _ refl)
    | inr bad ↦ rw bad (continues _ _ refl)
  ]

  refusal-Piece :
      (status : ℕ) (headers : Text) (body : Option Text) (app : App)
      → Piece app (with_answer world site msg (after_refusal site msg status headers body app))
  refusal-Piece status headers none app =
      with_answer-Piece app _ (after_session_post-Asked world site msg rejected app)
  refusal-Piece status headers (some content) app =
      stops _ refl (released-NotStuck msg app.page.button)

  pub resume-Piece :
      (stage : Stage) (fetched : Fetched) (app : App)
      → Piece app (resume world site stage msg fetched app)
  unfolding resume
  resume-Piece for_session fetched app = session-Piece fetched app
  resume-Piece (for_json body) fetched app =
      with_answer-Piece app _ (read_ok-Asked world site msg body app)
  resume-Piece (for_refusal status headers body) fetched app = refusal-Piece status headers body app
  resume-Piece for_answer fetched app = answer-Piece fetched app
  resume-Piece (for_reason body) fetched app = on_422-Piece body app

-- The first piece: it refuses and leaves the button alone, or it goes on to wait with the button disabled.
pub data Begun (app : App) : Option Pending × App → Type 0 where
  refused :
      (after : App)
      → after.language ≡ app.language
      → after.page.button ≡ app.page.button
      → Begun app (none, after)
  waits :
      (p : Pending) (after : App)
      → after.language ≡ app.language
      → is_enabled after.page.button ≡ false
      → Begun app (some p, after)

processing-disabled : (o : Option Button) → is_enabled (Option.map processing o) ≡ false
processing-disabled none = refl
processing-disabled (some b) = refl

begin_validated-Begun :
    (site : Site) (msg : Messages) (r : Bool × Page) (app : App)
    → WritesMessage app.page r
    → Begun app (begin_validated site msg r app)
begin_validated-Begun site msg (true, page) app w = waits _ _ refl (processing-disabled page.button)
begin_validated-Begun site msg (false, page) app (inl same) =
    refused _ refl (ap (λ r. r.1.button) same)
begin_validated-Begun site msg (false, page) app (inr (_, (t, e))) =
    refused _ refl (ap (λ q. q.button) e)

pub begin-Begun : (site : Site) (app : App) → Begun app (begin site app)
unfolding begin
begin-Begun site app =
    let msg = current_messages site app in
    let named : App = record app { real_username = trim app.identity; page = show [] app.page } in
    named_only app named refl refl _ (
      begin_validated-Begun site msg _ named
        (validate_form_inputs-writes (trim app.identity) app.real_password msg named.page))
  where
    named_only :
        (app named : App)
        → named.language ≡ app.language
        → named.page.button ≡ app.page.button
        → (r : Option Pending × App) → Begun named r
        → Begun app r
    named_only app named l b _ (refused after l' b') = refused after (l' ∙ l) (b' ∙ b)
    named_only app named l b _ (waits p after l' d) = waits p after (l' ∙ l) d
