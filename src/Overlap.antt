-- ===== src/Overlap.antt =====
-- Submissions in pieces: `handleFormSubmit` runs up to an `await`, and what follows runs when the server
-- has answered. Other listeners run in between; among them the Enter key of form.js, which starts
-- another submission. The reading of an answer's text is awaited as well and ends a piece. The SHA-256
-- digests, which are awaited too, are done in the piece that they belong to.
pub mod Pieces
pub mod Steps
pub mod Finish
use signup_daemon.Prelude.{
  ℕ, Bool, true, false, not, Option, none, some, List, [], ◌∷◌, ◌++◌, codes, if◌then◌else◌, length,
  ◌==◌,
}
use signup_daemon.Js.Strings.{Text, trim, decimal}
use signup_daemon.Js.Json.{Json}
use signup_daemon.Messages.{Site, func_name, Messages}
use signup_daemon.Page.{
  Page, Button, show, validate_form_inputs, handle_signup_error, handle_session_error,
}
use signup_daemon.App.{
  World, App, Request, Fetched, rejected, response, is_ok, current_messages, on_page,
}
use signup_daemon.PassHash.{calc_pass_hash}
use signup_daemon.Session.{no_session, session_request, give_up, read_ok, or_refused}
use signup_daemon.Submit.{disable, on_422, after_submit_post}
use signup_daemon.Ui.{Window, full_app}

-- What a submission awaits: the answer to its first request, the text of that answer, accepted or
-- refused, the answer to its second request, or the text of that one if its status is 422. A text that
-- cannot be read is `none`.
pub data Stage : Type 0 where
  for_session for_answer : Stage
  for_json : Option Text → Stage
  for_refusal : ℕ → Text → Option Text → Stage
  for_reason : Option Text → Stage

-- With the messages that the submission started with.
pub record Pending : Type 0 where
  pub stage : Stage
  pub msg : Messages

-- `await`
abbrev pub wait : Stage → Messages → App → Option Pending × App
wait stage msg app = (some (record { stage = stage; msg = msg }), app)

-- `fetch`: the request is sent, and its answer is awaited.
abbrev pub send : Stage → Messages → Request → App → Option Pending × App
send stage msg request app = wait stage msg (record app { requests = app.requests ++ request ∷ [] })

abbrev pub begin_validated : Site → Messages → Bool × Page → App → Option Pending × App
begin_validated site msg (false, page) app = (none, record app { page = page })
begin_validated site msg (true, page) app =
    send for_session msg (session_request site app.real_username)
      (record app { page = disable page; session = no_session })

-- `handleFormSubmit` up to its first `await` of the server.
unfoldable pub begin : Site → App → Option Pending × App
begin site app =
    let msg = current_messages site app in
    let username = trim app.identity in
    let named = record app { real_username = username; page = show [] app.page } in
    begin_validated site msg (validate_form_inputs username app.real_password msg named.page) named

abbrev pub post_hash : Site → Messages → Option Text × App → Option Pending × App
post_hash site msg (none, app) =
    (none, on_page (handle_signup_error (codes "1") (codes "1") msg) app)
post_hash site msg (some json_pass, app) =
    send for_answer msg (record { url = func_name site; body = json_pass }) app

abbrev pub with_json : World → Site → Messages → Option Json × App → Option Pending × App
with_json world site msg (none, app) = (none, app)
with_json world site msg (some json, app) = post_hash site msg (calc_pass_hash world site json app)

abbrev pub with_answer : World → Site → Messages → Option Json × App → Option Pending × App
with_answer world site msg r = with_json world site msg (or_refused msg r)

-- The answer to the first request. A refusal shows an error and releases the button before its text
-- is read.
abbrev pub after_session : World → Site → Messages → Fetched → App → Option Pending × App
after_session world site msg rejected app = with_answer world site msg (give_up site msg app)
after_session world site msg (response status headers body) app =
    let app' = record app {
      session = record app.session { status = decimal status; header = headers };
    } in
    if is_ok status
    then wait (for_json body) msg app'
    else wait (for_refusal status headers body) msg (on_page (handle_session_error msg) app')

-- The text of a refusal, with the status and the headers of its answer.
abbrev pub after_refusal : Site → Messages → ℕ → Text → Option Text → App → Option Json × App
after_refusal site msg status headers none app = give_up site msg app
after_refusal site msg status headers (some content) app =
    let vars = record app.session { body = content; status = decimal status; header = headers } in
    (none, record app { session = vars })

-- The answer to the second request.
abbrev pub after_answer : World → Site → Messages → Fetched → App → Option Pending × App
after_answer world site msg rejected app = (none, after_submit_post world site msg (rejected, app))
after_answer world site msg (response status headers body) app =
    if status == 422
    then wait (for_reason body) msg app
    else (none, after_submit_post world site msg (response status headers body, app))

-- What runs when what a submission awaits is there: at the two requests the answer, which is an argument,
-- and else the text that the stage holds.
unfoldable pub resume : World → Site → Stage → Messages → Fetched → App → Option Pending × App
resume world site for_session msg fetched app = after_session world site msg fetched app
resume world site (for_json body) msg fetched app =
    with_answer world site msg (read_ok world site msg body app)
resume world site (for_refusal status headers body) msg fetched app =
    with_answer world site msg (after_refusal site msg status headers body app)
resume world site for_answer msg fetched app = after_answer world site msg fetched app
resume world site (for_reason body) msg fetched app = (none, on_422 world site msg body app)

-- The page and what is awaited.
pub record State : Type 0 where
  pub window : Window
  pub pending : List Pending

abbrev maybe_pending : Option Pending → List Pending
maybe_pending none = []
maybe_pending (some p) = p ∷ []

-- A piece has run: its result goes to the page and to what is awaited.
abbrev pub ran : Window → List Pending → Option Pending × App → State
ran w others (p, app) = record {
  window = record w { app = app };
  pending = others ++ maybe_pending p;
}

-- The Enter key in one of the fields.
unfoldable pub press_enter : Site → State → State
unfolding begin
press_enter site s = ran s.window s.pending (begin site (full_app s.window))

abbrev pub is_enabled : Option Button → Bool
is_enabled none = false
is_enabled (some b) = not b.disabled

-- The click on the button: a disabled button fires no event.
unfoldable pub click : Site → State → State
unfolding press_enter
click site s = if is_enabled s.window.app.page.button then press_enter site s else s
