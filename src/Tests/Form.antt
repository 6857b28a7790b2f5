-- ===== src/Tests/Form.antt =====
-- The submission of the form on the page of the examples.
use signup_daemon.Prelude.{◌≡◌, refl, true, some, [], ◌∷◌, codes, arith}
use signup_daemon.Js.Strings.{decimal, Text, trim}
use signup_daemon.Js.Json.{obj}
use signup_daemon.Messages.{signup, login, func_succeed}
use signup_daemon.Page.{counting, show, handle_signup_success, validate_form_inputs}
use signup_daemon.Page.Validation.{IsAcceptable, validate_form_inputs_iff}
use signup_daemon.Page.Countdown.{seconds, seconds-arrives}
use signup_daemon.Validators.{
  is_valid_username, is_valid_password_chars, has_repeating_chars, has_sequential_chars,
}
use signup_daemon.App.{response, current_messages}
use signup_daemon.PassHash.{argon_input}
use signup_daemon.PassHash.Bodies.{password_hash}
use signup_daemon.Session.{session_request}
use signup_daemon.Submit.{handle_form_submit, disable}
use signup_daemon.Submit.Outcome.{Ends, handle_form_submit-Ends}
use signup_daemon.Submit.Requests.{Sends, handle_form_submit-Sends}
use signup_daemon.Submit.Accepted.{
  IsOk, Answered, signup_request, login_request, handle_form_submit-signup,
  handle_form_submit-login,
}
use signup_daemon.Tests.{
  secret, sess, old_salt, signup_members, login_members, page, messages, world, app,
}
use signup_daemon.Tests.Hashes.{
  world-IsReady, signup_sess-Holds, login_salt-Holds, login_sess-Holds,
}

user_and_secret : (validate_form_inputs (trim app.identity) secret messages page).0 ≡ true
unfolding validate_form_inputs trim is_valid_username is_valid_password_chars has_repeating_chars
    has_sequential_chars
user_and_secret = refl

fine : IsAcceptable (trim app.identity) secret
fine = (validate_form_inputs_iff (trim app.identity) secret messages page).0 user_and_secret

signup-Answered : Answered (world signup_members) signup app (obj signup_members)
signup-Answered = record {
  ready = world-IsReady signup_members;
  loaded = refl;
  fine = fine;
  quiet = refl;
  headers = [];
  content = codes "{}";
  answer = refl;
  parsed = refl;
}

login-Answered : Answered (world login_members) login app (obj login_members)
login-Answered = record {
  ready = world-IsReady login_members;
  loaded = refl;
  fine = fine;
  quiet = refl;
  headers = [];
  content = codes "{}";
  answer = refl;
  parsed = refl;
}

handle_form_submit-signup_example :
    (h : Text) × (password_hash
        (world signup_members)
        sess
        (argon_input (some sess) (trim app.identity) secret)
      ≡ some h)
    × ((handle_form_submit (world signup_members) signup app).requests
        ≡ session_request signup (trim app.identity)
          ∷ signup_request (trim app.identity) sess h
          ∷ [])
    × (IsOk (response 200 [] (some (codes "{}")))
        → (handle_form_submit (world signup_members) signup app).page
          ≡ handle_signup_success (current_messages signup app) (disable (show [] page)))
handle_form_submit-signup_example =
    handle_form_submit-signup (world signup_members) app (obj signup_members) signup-Answered
      signup_sess-Holds

handle_form_submit-login_example :
    (h1 h2 : Text) × (password_hash
        (world login_members)
        old_salt
        (argon_input (some old_salt) (trim app.identity) secret)
      ≡ some h1)
    × (password_hash (world login_members) sess (argon_input (some sess) (trim app.identity) h1)
        ≡ some h2)
    × ((handle_form_submit (world login_members) login app).requests
        ≡ session_request login (trim app.identity)
          ∷ login_request (trim app.identity) sess h2
          ∷ [])
    × (IsOk (response 200 [] (some (codes "{}")))
        → (handle_form_submit (world login_members) login app).page
          ≡ handle_signup_success (current_messages login app) (disable (show [] page)))
handle_form_submit-login_example =
    handle_form_submit-login (world login_members) app (obj login_members) login-Answered
      login_salt-Holds login_sess-Holds

handle_form_submit-Ends_example :
    Ends
      (current_messages signup app)
      page
      (handle_form_submit (world signup_members) signup app).page
handle_form_submit-Ends_example = handle_form_submit-Ends (world signup_members) signup app

handle_form_submit-Sends_example :
    Sends signup
      (trim app.identity)
      secret
      []
      (handle_form_submit (world signup_members) signup app).requests
handle_form_submit-Sends_example = handle_form_submit-Sends (world signup_members) signup app

seconds-arrives_example :
    ((seconds 30 signup (handle_signup_success messages page)).message
      ≡ some (counting messages.success (decimal 60)))
    × ((seconds 30 signup (handle_signup_success messages page)).visited ≡ [])
    × ((seconds 90 signup (handle_signup_success messages page)).visited ≡ func_succeed signup ∷ [])
    × ((seconds 90 signup (handle_signup_success messages page)).timers ≡ [])
seconds-arrives_example = seconds-arrives signup messages page refl refl 30 (omega arith)
