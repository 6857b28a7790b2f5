-- ===== src/Submit/Outcome.antt =====
-- The page after a submission.
use signup_daemon.Prelude.{
  ◌≡◌, refl, ◌∙◌, ap, Bool, true, false, Option, none, some, [], Bool-cases, inl, inr, codes, ◌==◌,
}
use mathlib.Core.Option
use signup_daemon.Js.Strings.{Text, trim, decimal}
use signup_daemon.Js.Json.{Json}
use signup_daemon.Messages.{Site, Messages, func_name}
use signup_daemon.Page.{Page, Button, released, show, handle_signup_success, handle_signup_error}
use signup_daemon.Page.Validation.{validate_form_inputs-writes, WritesMessage}
use signup_daemon.App.{World, App, Fetched, rejected, response, current_messages, post}
use signup_daemon.App.Frame.{Keeps, Same, Same-refl, Same-trans}
use signup_daemon.PassHash.Frame.{calc_pass_hash-Keeps}
use signup_daemon.Session.Frame.{Asked, asked, get_or_ask-Asked}
use signup_daemon.Submit.{
  loads_cookie_get, processing, disable, on_422, after_submit_post, submit_hash, with_session,
  after_validation, handle_form_submit,
}

-- The three ways in which a submission ends, from the page `p` to the page `q`.
pub data Ends (msg : Messages) (p q : Page) : Type 0 where
  -- refused by the form: nothing but the message has changed
  refused : (t : Text) → q ≡ show t (show [] p) → Ends msg p q
  -- failed: the button can be used again, and no page is left
  failed :
      q.button ≡ Option.map (released msg) p.button
      → q.timers ≡ p.timers
      → q.visited ≡ p.visited
      → Ends msg p q
  -- accepted by the server: the button stays disabled and shows the success
  accepted : q ≡ handle_signup_success msg (disable (show [] p)) → Ends msg p q

released-processing :
    (m : Messages) (b : Option Button)
    → Option.map (released m) (Option.map processing b) ≡ Option.map (released m) b
released-processing m none = refl
released-processing m (some b) = refl

-- The page while the work is in progress.
abbrev working : Page → Page
working p = disable (show [] p)

working-Same : (p q : Page) → q ≡ working p → Same p q
working-Same p q e =
    let start : Same p (working p) = record {
      button = λ m. released-processing m p.button;
      timers = refl;
      visited = refl;
    } in
    Same-trans p (working p) q start (Same-refl (working p) q e)

error-Ends :
    (msg : Messages) (p q : Page) (status extra : Text)
    → Same p q
    → Ends msg p (handle_signup_error status extra msg q)
unfolding handle_signup_error
error-Ends msg p q status extra s = Ends.failed (s.button msg) s.timers s.visited

module _ (world : World) (site : Site) (msg : Messages) (p : Page) where
  on_422-Ends :
      (body : Option Text) (app : App)
      → Same p app.page
      → Ends msg p (on_422 world site msg body app).page
  on_422-Ends none app s = error-Ends msg p app.page (codes "0") (codes "0") s
  on_422-Ends (some body) app s = elim (Bool-cases (loads_cookie_get site)) [
    | inl there ↦ rw there (error-Ends msg p app.page _ _ s)
    | inr missing ↦ rw missing (error-Ends msg p app.page (codes "0") (codes "0") s)
  ]

  -- The end of the submission, from the page that shows the work in progress.
  after_submit_post-Ends :
      (fetched : Fetched) (app : App)
      → app.page ≡ working p
      → Ends msg p (after_submit_post world site msg (fetched, app)).page
  after_submit_post-Ends rejected app e =
      error-Ends msg p app.page (codes "0") (codes "0") (working-Same p app.page e)
  after_submit_post-Ends (response status headers body) app e = elim (Bool-cases (status == 422)) [
    | inl refusal ↦ rw refusal (on_422-Ends body app (working-Same p app.page e))
    | inr other ↦ elim (Bool-cases (status == 200)) [
      | inl success ↦ rw (other, success) (Ends.accepted (ap (handle_signup_success msg) e))
      | inr neither ↦
          rw (other, neither)
            (error-Ends msg p app.page (decimal status) (codes "0") (working-Same p app.page e))
    ]
  ]

  submit_hash-Ends :
      (app : App) (r : Option Text × App)
      → Keeps app r
      → app.page ≡ working p
      → Ends msg p (submit_hash world site msg r).page
  unfolding post
  submit_hash-Ends app (none, app') k e =
      error-Ends msg p app'.page (codes "1") (codes "1")
        (Same-trans p app.page app'.page (working-Same p app.page e) k.page_same)
  submit_hash-Ends app (some json_pass, app') k e =
      let (fetched, sent) = post world (record { url = func_name site; body = json_pass }) app' in
      after_submit_post-Ends fetched sent (k.page_kept json_pass refl ∙ e)

  with_session-Ends :
      (sent : App) (r : Option Json × App)
      → Asked msg sent r
      → sent.page ≡ working p
      → Ends msg p (with_session world site msg r).page
  with_session-Ends sent (none, app) k e =
      let s = working-Same p sent.page e in
      Ends.failed (k.button refl ∙ s.button msg) (k.timers ∙ s.timers) (k.visited ∙ s.visited)
  with_session-Ends sent (some json, app) k e =
      submit_hash-Ends app _ (calc_pass_hash-Keeps world site json app) (k.kept json refl ∙ e)

  after_validation-Ends :
      (r : Bool × Page) (app : App)
      → app.page ≡ show [] p
      → WritesMessage app.page r
      → Ends msg p (after_validation world site msg r app).page
  after_validation-Ends (false, page) app e (inl same) =
      let clash : false ≡ true = ap (λ r. r.0) same in cc
  after_validation-Ends (false, page) app e (inr (_, (t, written))) =
      Ends.refused t (written ∙ ap (show t) e)
  after_validation-Ends (true, page) app e (inr (verdict, written)) = cc
  after_validation-Ends (true, page) app e (inl same) =
      with_session-Ends (asked world site msg _) _ (get_or_ask-Asked world site msg _)
        (ap disable (ap (λ r. r.1) same ∙ e))

-- Whatever the server, the network and the user's typing do, a submission ends in one of the three
-- ways: refused by the form, failed with the button released, or accepted with the countdown set.
pub handle_form_submit-Ends :
    (world : World) (site : Site) (app : App)
    → Ends (current_messages site app) app.page (handle_form_submit world site app).page
unfolding handle_form_submit
handle_form_submit-Ends world site app =
    let msg = current_messages site app in
    let named : App = record app { real_username = trim app.identity; page = show [] app.page } in
    after_validation-Ends world site msg app.page _ named refl
      (validate_form_inputs-writes (trim app.identity) app.real_password msg named.page)
