-- ===== src/Session.antt =====
-- signup_html/form_submit_session-manager.js and form_submit_get_or_create_session.js: the first
-- request, which asks the server for a session (and, on the login page, for the salt).
pub mod Frame
use signup_daemon.Prelude.{
  ℕ, Bool, true, false, not, Option, none, some, [], ◌∷◌, ◌++◌, ◌==◌, codes, if◌then◌else◌,
}
use signup_daemon.Js.Strings.{Text, is_empty, decimal, to_string}
use signup_daemon.Js.Json.{Json, null, bool, num, real, str, arr, obj, number, text, stringify}
use signup_daemon.Messages.{Site, func_name, Messages}
use signup_daemon.Page.{Page, show, release, handle_session_error}
use signup_daemon.App.{
  World, App, SessionVars, Request, Fetched, rejected, response, is_ok, on_page, post,
}

abbrev pub no_session : SessionVars
no_session = record { body = []; status = []; header = []; json = none }

-- Both branches of the source make the same body.
abbrev pub session_request : Site → Text → Request
session_request site name = record {
  url = func_name site;
  body = stringify ((codes "ver", number 1) ∷ (codes "username", text name) ∷ []);
}

abbrev set_body : Text → App → App
set_body body app = record app { session = record app.session { body = body } }

-- The outer `catch`.
abbrev pub give_up : Site → Messages → App → Option Json × App
give_up site msg app =
    let reason = codes "Error requesting " ++ func_name site ++ codes " session" in
    (none, set_body reason (on_page (handle_session_error msg) app))

-- The inner `try`: the text as JSON.
abbrev read_json : Messages → Option Json → App → Option Json × App
read_json msg none app = (
  none,
  set_body (codes "Failed to parse response as JSON") (on_page (handle_session_error msg) app),
)
read_json msg (some json) app =
    (some json, record app { session = record app.session { json = some json } })

abbrev pub read_ok : World → Site → Messages → Option Text → App → Option Json × App
read_ok world site msg none app = give_up site msg app
read_ok world site msg (some content) app = read_json msg (world.json_parse content) app

abbrev read_refusal : Site → Messages → Option Text → App → Option Json × App
read_refusal site msg none app = give_up site msg (on_page (handle_session_error msg) app)
read_refusal site msg (some content) app =
    (none, set_body content (on_page (handle_session_error msg) app))

abbrev pub after_session_post : World → Site → Messages → Fetched × App → Option Json × App
after_session_post world site msg (rejected, app) = give_up site msg app
after_session_post world site msg (response status headers body, app) =
    let app' = record app {
      session = record app.session { status = decimal status; header = headers };
    } in
    if is_ok status then read_ok world site msg body app' else read_refusal site msg body app'

-- The user may type while the answer is awaited.
abbrev pub type_password : World → Fetched × App → Fetched × App
type_password world (fetched, app) =
    (fetched, record app { real_password = world.typing app.real_password })

-- `askForNewTmpSession`: the parsed answer, or `null`.
unfoldable pub ask_for_new_tmp_session : World → Site → Messages → App → Option Json × App
ask_for_new_tmp_session world site msg app =
    let cleared = record app { session = no_session } in
    after_session_post world site msg
      (type_password world (post world (session_request site cleared.real_username) cleared))

-- `!tmpJson` is false.
abbrev pub is_truthy : Json → Bool
is_truthy null = false
is_truthy (bool b) = b
is_truthy (num n) = not (n == 0)
is_truthy (real t) = true
is_truthy (str s) = not (is_empty s)
is_truthy (arr items) = true
is_truthy (obj members) = true

abbrev no_json : Messages → App → Option Json × App
no_json msg app =
    let reason = msg.too_more_tries ++ b':' ∷ app.session.status ++ b':' ∷ app.session.body in
    (none, on_page (λ page. release msg (show reason page)) app)

abbrev pub or_refused : Messages → Option Json × App → Option Json × App
or_refused msg (none, app) = no_json msg app
or_refused msg (some json, app) = if is_truthy json then (some json, app) else no_json msg app

-- `getOrAskForAtmpSession`
unfoldable pub get_or_ask_for_tmp_session : World → Site → Messages → App → Option Json × App
get_or_ask_for_tmp_session world site msg app =
    or_refused msg (ask_for_new_tmp_session world site msg app)
