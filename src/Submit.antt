-- ===== src/Submit.antt =====
-- signup_html/form_submit.js: `handleFormSubmit`, from the click to the last write to the page.
pub mod Outcome
pub mod Requests
pub mod Accepted
pub mod Bodies
use signup_daemon.Prelude.{
  ℕ, Bool, true, false, Option, none, some, List, [], ◌∷◌, ◌++◌, ◌==◌, codes, if◌then◌else◌,
}
use mathlib.Core.Option
use signup_daemon.Js.Strings.{Text, trim, decimal, to_string}
use signup_daemon.Js.Json.{Json}
use signup_daemon.Messages.{Site, signup, login, func_name, Messages}
use signup_daemon.Page.{
  Page, Button, show, validate_form_inputs, handle_signup_success, handle_signup_error,
}
use signup_daemon.Cookies.{get_cookie_md5_6}
use signup_daemon.App.{
  World, App, Request, Fetched, rejected, response, current_messages, on_page, post,
}
use signup_daemon.PassHash.{calc_pass_hash}
use signup_daemon.Session.{get_or_ask_for_tmp_session}

-- Whether the page of a site loads cookie_get.js: login_html/index.html does, and
-- signup_html/index.html does not.
abbrev pub loads_cookie_get : Site → Bool
loads_cookie_get signup = false
loads_cookie_get login = true

abbrev pub processing : Button → Button
processing b = record b { disabled = true; label = codes "Processing.."; busy = some true }

abbrev pub disable : Page → Page
disable page = record page { button = Option.map processing page.button }

-- The text of an answer with status 422, behind the cookie's value if there is one.
abbrev with_md5 : Option Text → Text → Text
with_md5 none body = body
with_md5 (some md5) body = codes "[" ++ md5 ++ codes "]:" ++ body

-- The `catch` of the submission.
abbrev pub caught : Messages → App → App
caught msg app = on_page (handle_signup_error (codes "0") (codes "0") msg) app

-- Without cookie_get.js the call of its function throws.
abbrev pub on_422 : World → Site → Messages → Option Text → App → App
on_422 world site msg none app = caught msg app
on_422 world site msg (some body) app =
    if loads_cookie_get site
    then on_page
        (handle_signup_error (decimal 422) (with_md5 (get_cookie_md5_6 world.cookies) body) msg) app
    else caught msg app

abbrev pub after_submit_post : World → Site → Messages → Fetched × App → App
after_submit_post world site msg (rejected, app) = caught msg app
after_submit_post world site msg (response status headers body, app) =
    if status == 422
    then on_422 world site msg body app
    else if status == 200
    then on_page (handle_signup_success msg) app
    else on_page (handle_signup_error (decimal status) (codes "0") msg) app

abbrev pub submit_hash : World → Site → Messages → Option Text × App → App
submit_hash world site msg (none, app) =
    on_page (handle_signup_error (codes "1") (codes "1") msg) app
submit_hash world site msg (some json_pass, app) =
    after_submit_post world site msg
      (post world (record { url = func_name site; body = json_pass }) app)

abbrev pub with_session : World → Site → Messages → Option Json × App → App
with_session world site msg (none, app) = app
with_session world site msg (some json, app) =
    submit_hash world site msg (calc_pass_hash world site json app)

abbrev pub after_validation : World → Site → Messages → Bool × Page → App → App
after_validation world site msg (false, page) app = record app { page = page }
after_validation world site msg (true, page) app =
    with_session world site msg
      (get_or_ask_for_tmp_session world site msg (record app { page = disable page }))

-- `handleFormSubmit`
unfoldable pub handle_form_submit : World → Site → App → App
handle_form_submit world site app =
    let msg = current_messages site app in
    let username = trim app.identity in
    let password = app.real_password in
    let named = record app { real_username = username; page = show [] app.page } in
    after_validation world site msg (validate_form_inputs username password msg named.page) named
