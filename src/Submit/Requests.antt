-- ===== src/Submit/Requests.antt =====
-- The requests of a submission.
use signup_daemon.Prelude.{
  ◌≡◌, refl, ◌∙◌, ap, Bool, true, false, Option, none, some, List, [], ◌∷◌, ◌++◌, append_assoc,
  Bool-cases, inl, inr, ◌==◌,
}
use signup_daemon.Js.Strings.{Text, trim}
use signup_daemon.Js.Json.{Json}
use signup_daemon.Messages.{Site, Messages, func_name}
use signup_daemon.Page.{Page, show}
use signup_daemon.Page.Validation.{IsAcceptable, validate_form_inputs_iff}
use signup_daemon.App.{World, App, Request, Fetched, rejected, response, current_messages, post}
use signup_daemon.App.Frame.{Keeps}
use signup_daemon.PassHash.Frame.{calc_pass_hash-Keeps}
use signup_daemon.Session.{session_request}
use signup_daemon.Session.Frame.{Asked, get_or_ask-Asked}
use signup_daemon.Submit.{
  loads_cookie_get, disable, on_422, after_submit_post, submit_hash, with_session, after_validation,
  handle_form_submit,
}

-- Which requests a submission of the name `u` and the password `p` adds.
pub data Sends (site : Site) (u p : Text) (before after : List Request) : Type 0 where
  nothing : ¬ IsAcceptable u p → after ≡ before → Sends site u p before after
  session_only :
      IsAcceptable u p → after ≡ before ++ session_request site u ∷ [] → Sends site u p before after
  both :
      (body : Text)
      → IsAcceptable u p
      → after ≡ before ++ session_request site u ∷ record { url = func_name site; body = body } ∷ []
      → Sends site u p before after

module _ (world : World) (site : Site) (msg : Messages) where
  pub after_submit_post-requests :
      (fetched : Fetched) (app : App)
      → (after_submit_post world site msg (fetched, app)).requests ≡ app.requests
  after_submit_post-requests rejected app = refl
  after_submit_post-requests (response status headers body) app =
      elim (Bool-cases (status == 422)) [
        | inl refusal ↦ rw refusal (on_422-requests body)
        | inr other ↦ elim (Bool-cases (status == 200)) [
          | inl success ↦ rw (other, success)
          | inr neither ↦ rw (other, neither)
        ]
      ]
    where
      on_422-requests :
          (body : Option Text) → (on_422 world site msg body app).requests ≡ app.requests
      on_422-requests none = refl
      on_422-requests (some body) = elim (Bool-cases (loads_cookie_get site)) [
        | inl there ↦ rw there
        | inr missing ↦ rw missing
      ]

  module _ (u p : Text) (before : List Request) (fine : IsAcceptable u p) where
    submit_hash-Sends :
        (app : App) (r : Option Text × App)
        → Keeps app r
        → app.requests ≡ before ++ session_request site u ∷ []
        → Sends site u p before (submit_hash world site msg r).requests
    unfolding post
    submit_hash-Sends app (none, app') k e = Sends.session_only fine (k.requests ∙ e)
    submit_hash-Sends app (some json_pass, app') k e =
        let request : Request = record { url = func_name site; body = json_pass } in
        let (fetched, sent) = post world request app' in
        Sends.both json_pass fine (
          after_submit_post-requests fetched sent
          ∙ ap (λ rs. rs ++ request ∷ []) (k.requests ∙ e)
          ∙ append_assoc before _ _)

    with_session-Sends :
        (sent : App) (r : Option Json × App)
        → Asked msg sent r
        → sent.requests ≡ before ++ session_request site u ∷ []
        → Sends site u p before (with_session world site msg r).requests
    with_session-Sends sent (none, app) k e = Sends.session_only fine (k.requests ∙ e)
    with_session-Sends sent (some json, app) k e =
        submit_hash-Sends app _ (calc_pass_hash-Keeps world site json app) (k.requests ∙ e)

  after_validation-Sends :
      (u p : Text) (r : Bool × Page) (app : App)
      → app.real_username ≡ u
      → ((r.0 ≡ true) → IsAcceptable u p)
      → (IsAcceptable u p → r.0 ≡ true)
      → Sends site u p app.requests (after_validation world site msg r app).requests
  after_validation-Sends u p (false, page) app e forth back =
      Sends.nothing (λ fine. let clash = back fine in cc) refl
  after_validation-Sends u p (true, page) app e forth back =
      with_session-Sends u p app.requests (forth refl) _ _
        (get_or_ask-Asked world site msg (record app { page = disable page }))
        (ap (λ n. app.requests ++ session_request site n ∷ []) e)

-- Whatever the server does, a submission whose name, trimmed, and password are not acceptable
-- sends nothing; one whose name and password are sends first the request for a session, which
-- depends on the site and the name alone, and at most one more.
pub handle_form_submit-Sends :
    (world : World) (site : Site) (app : App)
    → Sends site
        (trim app.identity)
        app.real_password
        app.requests
        (handle_form_submit world site app).requests
unfolding handle_form_submit
handle_form_submit-Sends world site app =
    let msg = current_messages site app in
    let u = trim app.identity in
    let named : App = record app { real_username = u; page = show [] app.page } in
    let test = validate_form_inputs_iff u app.real_password msg named.page in
    after_validation-Sends world site msg u app.real_password _ named refl test.0 test.1
