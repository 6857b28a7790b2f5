-- ===== src/Session/Frame.antt =====
-- What the first request leaves behind.
use signup_daemon.Prelude.{
  ◌≡◌, refl, ◌∙◌, ap, Option, none, some, [], ◌∷◌, ◌++◌, Bool-cases, inl, inr,
}
use mathlib.Core.Option
use signup_daemon.Js.Strings.{Text}
use signup_daemon.Js.Json.{Json}
use signup_daemon.Messages.{Site, Messages}
use signup_daemon.Page.{released, handle_session_error}
use signup_daemon.App.{World, App, Fetched, rejected, response, is_ok, post}
use signup_daemon.App.Frame.{released_twice}
use signup_daemon.Session.{
  session_request, read_json, read_ok, read_refusal, give_up, after_session_post,
  ask_for_new_tmp_session, or_refused, is_truthy, no_json, no_session, get_or_ask_for_tmp_session,
  type_password,
}

-- After the first request: with an answer the page is as before, and without one the button is
-- released and no time or page has passed. The requests and the language are those of `sent`.
pub record Asked (msg : Messages) (sent : App) (r : Option Json × App) : Type 0 where
  pub requests : r.1.requests ≡ sent.requests
  pub language : r.1.language ≡ sent.language
  pub username : r.1.real_username ≡ sent.real_username
  pub timers : r.1.page.timers ≡ sent.page.timers
  pub visited : r.1.page.visited ≡ sent.page.visited
  pub button : r.0 ≡ none → r.1.page.button ≡ Option.map (released msg) sent.page.button
  pub kept : (json : Json) → r.0 ≡ some json → r.1.page ≡ sent.page

module _ (world : World) (site : Site) (msg : Messages) where
  give_up-Asked : (sent : App) → Asked msg sent (give_up site msg sent)
  unfolding handle_session_error
  give_up-Asked sent = record {
    requests = refl;
    language = refl;
    username = refl;
    timers = refl;
    visited = refl;
    button = λ e. refl;
    kept = λ json e. cc;
  }

  read_json-Asked : (json : Option Json) (sent : App) → Asked msg sent (read_json msg json sent)
  unfolding handle_session_error
  read_json-Asked none sent = record {
    requests = refl;
    language = refl;
    username = refl;
    timers = refl;
    visited = refl;
    button = λ e. refl;
    kept = λ json e. cc;
  }
  read_json-Asked (some json) sent = record {
    requests = refl;
    language = refl;
    username = refl;
    timers = refl;
    visited = refl;
    button = λ e. cc;
    kept = λ j e. refl;
  }

  pub read_ok-Asked :
      (body : Option Text) (sent : App) → Asked msg sent (read_ok world site msg body sent)
  read_ok-Asked none sent = give_up-Asked sent
  read_ok-Asked (some content) sent = read_json-Asked (world.json_parse content) sent

  read_refusal-Asked :
      (body : Option Text) (sent : App) → Asked msg sent (read_refusal site msg body sent)
  unfolding handle_session_error
  read_refusal-Asked none sent = record {
    requests = refl;
    language = refl;
    username = refl;
    timers = refl;
    visited = refl;
    button = λ e. released_twice msg msg sent.page.button;
    kept = λ json e. cc;
  }
  read_refusal-Asked (some content) sent = record {
    requests = refl;
    language = refl;
    username = refl;
    timers = refl;
    visited = refl;
    button = λ e. refl;
    kept = λ json e. cc;
  }

  -- The variables of the session play no part.
  forget_session :
      (app sent : App) (r : Option Json × App)
      → app.requests ≡ sent.requests
      → app.language ≡ sent.language
      → app.real_username ≡ sent.real_username
      → app.page ≡ sent.page
      → Asked msg app r
      → Asked msg sent r
  forget_session app sent r q l u p k = record {
    requests = k.requests ∙ q;
    language = k.language ∙ l;
    username = k.username ∙ u;
    timers = k.timers ∙ ap (λ x. x.timers) p;
    visited = k.visited ∙ ap (λ x. x.visited) p;
    button = λ e. k.button e ∙ ap (λ x. Option.map (released msg) x.button) p;
    kept = λ json e. k.kept json e ∙ p;
  }

  pub after_session_post-Asked :
      (fetched : Fetched) (sent : App)
      → Asked msg sent (after_session_post world site msg (fetched, sent))
  after_session_post-Asked rejected sent = give_up-Asked sent
  after_session_post-Asked (response status headers body) sent = elim (Bool-cases (is_ok status)) [
    | inl good ↦ rw good (forget_session _ sent _ refl refl refl refl (read_ok-Asked body _))
    | inr bad ↦ rw bad (forget_session _ sent _ refl refl refl refl (read_refusal-Asked body _))
  ]

  -- The first request is on its way.
  abbrev pub asked : App → App
  asked app = record app { requests = app.requests ++ session_request site app.real_username ∷ [] }

  ask-Asked : (app : App) → Asked msg (asked app) (ask_for_new_tmp_session world site msg app)
  unfolding ask_for_new_tmp_session post
  ask-Asked app =
      let cleared : App = record app { session = no_session } in
      let (fetched, sent) =
        type_password world (post world (session_request site app.real_username) cleared) in
      forget_session sent (asked app) _ refl refl refl refl (after_session_post-Asked fetched sent)

  no_json-Asked :
      (sent : App) (r : Option Json × App)
      → Asked msg sent r
      → Option.map (released msg) r.1.page.button ≡ Option.map (released msg) sent.page.button
      → Asked msg sent (no_json msg r.1)
  no_json-Asked sent r k b = record {
    requests = k.requests;
    language = k.language;
    username = k.username;
    timers = k.timers;
    visited = k.visited;
    button = λ e. b;
    kept = λ json e. cc;
  }

  pub or_refused-Asked :
      (sent : App) (r : Option Json × App) → Asked msg sent r → Asked msg sent (or_refused msg r)
  or_refused-Asked sent (none, app) k =
      no_json-Asked sent (none, app) k
        (ap (Option.map (released msg)) (k.button refl) ∙ released_twice msg msg sent.page.button)
  or_refused-Asked sent (some json, app) k = elim (Bool-cases (is_truthy json)) [
    | inl there ↦ rw there k
    | inr nothing ↦ rw nothing (
        no_json-Asked sent (some json, app) k
          (ap (λ p. Option.map (released msg) p.button) (k.kept json refl)))
  ]

  -- The first stage sends one request, for the name alone. With an answer the page is as before;
  -- without one the button is released, and no time and no page has passed.
  pub get_or_ask-Asked :
      (app : App) → Asked msg (asked app) (get_or_ask_for_tmp_session world site msg app)
  unfolding get_or_ask_for_tmp_session
  get_or_ask-Asked app = or_refused-Asked (asked app) _ (ask-Asked app)
