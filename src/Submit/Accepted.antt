-- ===== src/Submit/Accepted.antt =====
-- A sign-up and a login from end to end, when the server answers and the scripts are there.
use signup_daemon.Prelude.{
  ◌+◌, ◌≡◌, sym, ◌∙◌, ap, Bool, true, some, [], ◌∷◌, ◌++◌, append_assoc, codes, length,
  length-append, subst, inl, inr,
}
use signup_daemon.Js.Strings.{Text, trim, decimal}
use signup_daemon.Js.Json.{Json}
use signup_daemon.Argon2.{Heap}
use signup_daemon.Messages.{Site, signup, login, Messages, func_name}
use signup_daemon.Page.{Page, show, validate_form_inputs, handle_signup_success}
use signup_daemon.Page.Validation.{
  IsAcceptable, validate_form_inputs_iff, validate_form_inputs-writes, WritesMessage,
}
use signup_daemon.App.{World, App, Request, Fetched, rejected, response, current_messages, post}
use signup_daemon.PassHash.{calc_pass_hash, pass_json, argon_input}
use signup_daemon.PassHash.Session.{Holds}
use signup_daemon.PassHash.Bodies.{
  IsReady, password_hash, calc_pass_hash-signup, calc_pass_hash-login,
}
use signup_daemon.Session.{get_or_ask_for_tmp_session, ask_for_new_tmp_session, session_request}
use signup_daemon.Submit.Requests.{after_submit_post-requests}
use signup_daemon.Submit.{
  disable, handle_form_submit, submit_hash, after_submit_post, with_session, after_validation,
}

-- Validation of what is acceptable leaves the page alone.
validated :
    (u p : Text) (msg : Messages) (page : Page)
    → IsAcceptable u p
    → validate_form_inputs u p msg page ≡ (true, page)
validated u p msg page fine =
    accepts _ page (validate_form_inputs-writes u p msg page)
      ((validate_form_inputs_iff u p msg page).1 fine)
  where
    accepts : (r : Bool × Page) (q : Page) → WritesMessage q r → r.0 ≡ true → r ≡ (true, q)
    accepts r q (inl same) h = same
    accepts r q (inr (refusal, _)) h = let clash = sym refusal ∙ h in cc

module _ (world : World) (site : Site) (msg : Messages) (app : App) where
  -- The session's answer arrives, is a 200 and parses to an object.
  get_or_ask-answered :
      (headers content : Text) (json : Json) (name : Text) {value : Text}
      → world.fetch (length app.requests) (session_request site app.real_username)
        ≡ response 200 headers (some content)
      → world.json_parse content ≡ some json
      → Holds json name 32 value
      → get_or_ask_for_tmp_session world site msg app ≡ (
        some json,
        record app {
          real_password = world.typing app.real_password;
          session = record { body = []; status = decimal 200; header = headers; json = some json };
          requests = app.requests ++ session_request site app.real_username ∷ [];
        },
      )
  unfolding get_or_ask_for_tmp_session ask_for_new_tmp_session post
  get_or_ask-answered headers content json name answer parsed holds =
      rw (answer, parsed, holds.is_object)

-- A response with status 200.
abbrev pub IsOk : Fetched → Type 0
IsOk rejected = ⊥
IsOk (response status headers body) = status ≡ 200

-- What is known of a submission and of the first answer to it.
pub record Answered (world : World) (site : Site) (app : App) (json : Json) : Type 0 where
  pub ready : IsReady world
  pub loaded : app.wasm_loaded ≡ true
  pub fine : IsAcceptable (trim app.identity) app.real_password
  -- the user does not type while the answer is awaited
  pub quiet : world.typing app.real_password ≡ app.real_password
  pub headers : Text
  pub content : Text
  pub answer :
      world.fetch (length app.requests) (session_request site (trim app.identity))
      ≡ response 200 headers (some content)
  pub parsed : world.json_parse content ≡ some json

-- The globals at the first answer.
abbrev at_answer : World → Site → App → Text → Json → App
at_answer world site app headers json = record app {
  page = disable (show [] app.page);
  real_username = trim app.identity;
  real_password = world.typing app.real_password;
  session = record { body = []; status = decimal 200; header = headers; json = some json };
  requests = app.requests ++ session_request site (trim app.identity) ∷ [];
}

module _ (world : World) (site : Site) (app : App) (json : Json)
    (a : Answered world site app json) where
  to_hash :
      (name : Text) {value : Text}
      → Holds json name 32 value
      → handle_form_submit world site app
        ≡ submit_hash world site
            (current_messages site app)
            (calc_pass_hash world site json (at_answer world site app a.headers json))
  unfolding handle_form_submit
  to_hash name holds =
      let msg = current_messages site app in
      let u = trim app.identity in
      let named : App = record app { real_username = u; page = show [] app.page } in
      ap (λ r. after_validation world site msg r named)
        (validated u app.real_password msg named.page a.fine)
      ∙ ap (with_session world site msg) (
          get_or_ask-answered world site msg (record named { page = disable named.page }) a.headers
            a.content json name a.answer a.parsed holds)

  -- The body is posted, and a 200 for it shows the success.
  posted :
      (name body : Text) {value salt : Text} (heap : Heap)
      → Holds json name 32 value
      → calc_pass_hash world site json (at_answer world site app a.headers json) ≡ (
        some body,
        record (at_answer world site app a.headers json) { argon2_salt = some salt; heap = heap },
      )
      → ((handle_form_submit world site app).requests
          ≡ app.requests
            ++ session_request site (trim app.identity)
              ∷ record { url = func_name site; body = body }
              ∷ [])
        × (IsOk
              (world.fetch (length app.requests + 1) (record { url = func_name site; body = body }))
            → (handle_form_submit world site app).page
              ≡ handle_signup_success (current_messages site app) (disable (show [] app.page)))
  unfolding post
  posted name body {value} {salt} heap holds hashed =
      let msg = current_messages site app in
      let request : Request = record { url = func_name site; body = body } in
      let first = session_request site (trim app.identity) in
      let before : App = record (at_answer world site app a.headers json) {
        argon2_salt = some salt;
        heap = heap;
      } in
      let (fetched, sent) = post world request before in
      let whole = to_hash name holds ∙ ap (submit_hash world site msg) hashed in
      (
        ap (λ x. x.requests) whole
            ∙ after_submit_post-requests world site msg fetched sent
            ∙ append_assoc app.requests _ _,
        λ ok.
            ap (λ x. x.page) whole
            ∙ success _ sent (
                subst (λ n. IsOk (world.fetch n request))
                  (sym (length-append app.requests (first ∷ []))) ok),
      )
    where
      success :
          (fetched : Fetched) (sent : App)
          → IsOk fetched
          → (after_submit_post world site (current_messages site app) (fetched, sent)).page
            ≡ handle_signup_success (current_messages site app) sent.page
      success rejected sent ok = absurd ok
      success (response status headers body) sent ok = rw ok

-- The second requests of the two sites.
abbrev pub signup_request : Text → Text → Text → Request
signup_request u sess h = record {
  url = func_name signup;
  body = pass_json (codes "signup_salt") (some sess) u h;
}

abbrev pub login_request : Text → Text → Text → Request
login_request u sess h = record {
  url = func_name login;
  body = pass_json (codes "login_salt") (some sess) u h;
}

-- A sign-up. Let the scripts be ready and the Argon2 module be loaded, the trimmed name and the
-- password be acceptable, the user not type while waiting, and the first answer be a 200 with an
-- object of version 1 that holds a session of 32 hexadecimal digits. Then two requests are sent,
-- the second with the name, the session and the hash of session, name and password under the
-- session as the salt; and when the second is answered by 200, the page shows the success.
pub handle_form_submit-signup :
    (world : World) (app : App) (json : Json) {sess : Text}
    → Answered world signup app json
    → Holds json (codes "signup_sess") 32 sess
    → (h : Text) × (password_hash world sess
          (argon_input (some sess) (trim app.identity) app.real_password)
        ≡ some h)
      × ((handle_form_submit world signup app).requests
          ≡ app.requests
            ++ session_request signup (trim app.identity)
              ∷ signup_request (trim app.identity) sess h
              ∷ [])
      × (IsOk (world.fetch (length app.requests + 1) (signup_request (trim app.identity) sess h))
          → (handle_form_submit world signup app).page
            ≡ handle_signup_success (current_messages signup app) (disable (show [] app.page)))
handle_form_submit-signup world app json {sess} a holds =
    let u = trim app.identity in
    let before = at_answer world signup app a.headers json in
    let (h, heap, hashed, hex, result) =
      calc_pass_hash-signup world a.ready json before a.loaded holds in
    let (requests, page) =
      posted world signup app json a (codes "signup_sess")
        (pass_json (codes "signup_salt") (some sess) u h) heap holds result in
    (
      h,
      ap (λ p. password_hash world sess (argon_input (some sess) u p)) (sym a.quiet) ∙ hashed,
      requests,
      page,
    )

-- A login. Under the same conditions, with the stored salt and a session of 32 hexadecimal digits
-- in the first answer, the hash of sign-up over the salt is hashed once more over the session and
-- sent with the name and the session; and when that is answered by 200, the page shows the
-- success.
pub handle_form_submit-login :
    (world : World) (app : App) (json : Json) {salt sess : Text}
    → Answered world login app json
    → Holds json (codes "login_salt") 32 salt
    → Holds json (codes "login_sess") 32 sess
    → (h1 h2 : Text) × (password_hash world salt
          (argon_input (some salt) (trim app.identity) app.real_password)
        ≡ some h1)
      × (password_hash world sess (argon_input (some sess) (trim app.identity) h1) ≡ some h2)
      × ((handle_form_submit world login app).requests
          ≡ app.requests
            ++ session_request login (trim app.identity)
              ∷ login_request (trim app.identity) sess h2
              ∷ [])
      × (IsOk (world.fetch (length app.requests + 1) (login_request (trim app.identity) sess h2))
          → (handle_form_submit world login app).page
            ≡ handle_signup_success (current_messages login app) (disable (show [] app.page)))
handle_form_submit-login world app json {salt} {sess} a holds_salt holds_sess =
    let u = trim app.identity in
    let before = at_answer world login app a.headers json in
    let (h1, h2, heap, hashed1, hashed2, hex, result) =
      calc_pass_hash-login world a.ready json before a.loaded holds_salt holds_sess in
    let (requests, page) =
      posted world login app json a (codes "login_salt")
        (pass_json (codes "login_salt") (some sess) u h2) heap holds_salt result in
    (
      h1,
      h2,
      ap (λ p. password_hash world salt (argon_input (some salt) u p)) (sym a.quiet) ∙ hashed1,
      hashed2,
      requests,
      page,
    )
