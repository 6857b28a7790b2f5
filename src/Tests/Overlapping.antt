-- ===== src/Tests/Overlapping.antt =====
-- Submissions in pieces on the page of the examples.
use signup_daemon.Prelude.{◌<◌, ◌≡◌, refl, true, some, [], ◌∷◌, codes, length, drop, List, false}
use signup_daemon.Js.Json.{number, text}
use signup_daemon.Js.Json.Read.{read_object}
use signup_daemon.Messages.{signup, func_succeed}
use signup_daemon.Js.Strings.{trim}
use signup_daemon.Validators.{
  is_valid_username, is_valid_password_chars, has_repeating_chars, has_sequential_chars,
}
use signup_daemon.Page.{Page, handle_session_error, validate_form_inputs}
use signup_daemon.Page.Countdown.{seconds}
use signup_daemon.Page.Timers.{seconds-timers}
use signup_daemon.App.{rejected, response}
use signup_daemon.PassHash.{pass_json}
use signup_daemon.Session.{session_request}
use signup_daemon.Submit.Bodies.{read_object-pass_json}
use signup_daemon.Ui.{Window, full_app, load_page}
use signup_daemon.Overlap.{
  for_session, for_refusal, is_enabled, Pending, State, resume, ran, press_enter, click,
}
use signup_daemon.Overlap.Steps.{clicks, enters, start, next, loaded, Sound, Reachable-Sound}
use signup_daemon.Overlap.Finish.{all_left, ran-all_left}
use signup_daemon.Tests.{secret, sess, signup_members, page, messages, world, app}
use signup_daemon.Tests.Typing.{fresh}

abbrev window : Window
window = record {
  app = app;
  fields = fresh;
  titles = record { title = []; username_label = []; show_password_label = [] };
  saved_lang = some (codes "ca");
}

enabled : is_enabled (load_page signup window).app.page.button ≡ true
unfolding load_page
enabled = refl

abbrev at_start : State
at_start = loaded signup window

Reachable-Sound_example : Sound signup (press_enter signup (click signup at_start))
Reachable-Sound_example = Reachable-Sound signup true (press_enter signup (click signup at_start)) (
    next (click signup at_start) _ (next at_start _ (start window enabled) (clicks at_start))
      (enters (click signup at_start) refl))

-- The answer 422 to the first request of the state, and its text.
abbrev refusal_comes : State → State
refusal_comes s = ran s.window [] (
    resume (world signup_members) signup for_session messages (response 422 [] (some []))
      (full_app s.window))

abbrev text_is_read : List Pending → State → State
text_is_read others s = ran s.window others (
    resume (world signup_members) signup (for_refusal 422 [] (some [])) messages rejected
      (full_app s.window))

-- The password has been typed.
abbrev ready_to_send : State
ready_to_send = record {
  window = record window { fields = record fresh { real = secret } };
  pending = [];
}

abbrev after_click : State
after_click = click signup (refusal_comes (click signup ready_to_send))

-- Between a refusal and its text the button takes a click: a second submission waits, with the button
-- disabled, until the first goes on and releases it.
click_before_text :
    (length after_click.pending ≡ 2)
    × (is_enabled after_click.window.app.page.button ≡ false)
    × (is_enabled (text_is_read (drop 1 after_click.pending) after_click).window.app.page.button
        ≡ true)
    × (length (text_is_read (drop 1 after_click.pending) after_click).pending ≡ 1)
unfolding click resume handle_session_error validate_form_inputs is_valid_username trim
    is_valid_password_chars has_repeating_chars has_sequential_chars
click_before_text = (refl, refl, refl, refl)

-- A submission that waits for its session.
abbrev waiting : Pending
waiting = record { stage = for_session; msg = messages }

abbrev awaited : State
awaited = record { window = window; pending = waiting ∷ [] }

ran-all_left_example :
    all_left
      (ran window [] (
        resume
          (world signup_members)
          signup
          for_session
          messages
          rejected
          (full_app window))).pending
    < all_left (waiting ∷ [])
ran-all_left_example =
    ran-all_left (world signup_members) signup awaited rejected waiting [] [] refl

-- Two intervals run, as after two successes.
abbrev counting_down : Page
counting_down = record page { timers = 12 ∷ 90 ∷ [] }

seconds-timers_example :
    ((seconds 90 signup counting_down).timers ≡ [])
    × ((seconds 90 signup counting_down).visited ≡ func_succeed signup ∷ func_succeed signup ∷ [])
seconds-timers_example = seconds-timers signup 89 counting_down refl

read_object-pass_json_example :
    (read_object (session_request signup (codes "a\"b")).body
      ≡ some ((codes "ver", number 1) ∷ (codes "username", text (codes "a\"b")) ∷ []))
    × (read_object (pass_json (codes "signup_salt") (some sess) (codes "a\"b") sess)
        ≡ some (
            (codes "ver", number 1)
            ∷ (codes "username", text (codes "a\"b"))
            ∷ (codes "signup_salt", text sess)
            ∷ (codes "passwd", text sess)
            ∷ []))
read_object-pass_json_example =
    read_object-pass_json signup (codes "a\"b") (codes "signup_salt") sess (some sess)
