-- ===== src/Page.antt =====
-- The elements of the page that the submission writes to, and the handlers of
-- signup_html/form_submit_handle.js, with `handleSessionError` of form_submit_session-manager.js.
-- An element that is not in the document is `none`; each handler tests for that as the source does.
pub mod Validation
pub mod Countdown
pub mod Timers
use signup_daemon.Prelude.{
  ℕ, zero, suc, ◌-◌, Bool, true, false, Option, none, some, List, [], ◌∷◌, ◌++◌, codes, leb, ltb,
  if◌then◌else◌, length, not,
}
use mathlib.Core.Option
use signup_daemon.Js.Strings.{Text, replace, decimal}
use signup_daemon.Messages.{Messages, Site, func_succeed}
use signup_daemon.Validators.{
  is_valid_username, is_valid_password_chars, has_repeating_chars, has_sequential_chars,
}

-- What the message element shows: a text, or a text followed by the span of the countdown.
pub data Notice : Type 0 where
  plain : Text → Notice
  counting : Text → Text → Notice

pub record Button : Type 0 where
  pub label : Text
  pub disabled : Bool
  -- the attribute `aria-busy`, if it is set
  pub busy : Option Bool
  -- the class `success-state`
  pub success_state : Bool

pub record Page : Type 0 where
  pub message : Option Notice
  pub button : Option Button
  -- the time left of each interval that runs
  pub timers : List ℕ
  -- the assignments to `window.location.href`
  pub visited : List Text

-- `if (messageElement) messageElement.textContent = text`
abbrev pub show : Text → Page → Page
show text page = record page { message = Option.map (λ _. plain text) page.message }

-- The three writes that make the button usable again.
abbrev pub released : Messages → Button → Button
released msg b = record b { disabled = false; label = msg.submit_btn; busy = some false }

abbrev pub release : Messages → Page → Page
release msg page = record page { button = Option.map (released msg) page.button }

abbrev pub succeeded : Messages → Button → Button
succeeded msg b = record b { label = msg.success2; success_state = true; busy = some false }

-- With the message element there, the countdown starts at 90.
abbrev pub start_countdown : Messages → Option Notice → Page → Page
start_countdown msg none page = page
start_countdown msg (some _) page = record page {
  message = some (counting msg.success (decimal 90));
  timers = page.timers ++ 90 ∷ [];
}

unfoldable pub handle_signup_success : Messages → Page → Page
handle_signup_success msg page =
    start_countdown msg page.message
      (record page { button = Option.map (succeeded msg) page.button })

-- The status and the extra code are given as the texts that `replace` makes of them.
unfoldable pub handle_signup_error : Text → Text → Messages → Page → Page
unfolding replace
handle_signup_error status extra_code msg page = release msg (
    show
      (replace (replace msg.error_status (codes "$status") status) (codes "$extraCode") extra_code)
      page)

unfoldable pub handle_session_error : Messages → Page → Page
handle_session_error msg page = release msg (show msg.error_get_signup_session page)

-- The countdown's span, while the message holds it.
abbrev set_countdown : ℕ → Option Notice → Option Notice
set_countdown n none = none
set_countdown n (some (plain t)) = some (plain t)
set_countdown n (some (counting t _)) = some (counting t (decimal n))

-- One call of an interval's function: the time left after it, `none` when the interval is cleared.
pub tick : Site → ℕ → Page → Option ℕ × Page
tick site time_left page =
    let left = time_left - 1 in
    let shown = record page { message = set_countdown left page.message } in
    if leb left 0
    then (none, record shown { visited = shown.visited ++ func_succeed site ∷ [] })
    else (some left, shown)

abbrev keep : Option ℕ → List ℕ → List ℕ
keep none ts = ts
keep (some t) ts = t ∷ ts

-- One second: each interval that runs is called once, in the order in which they were set.
pub tick_all : Site → List ℕ → Page → List ℕ × Page
unfolding tick
tick_all site [] page = ([], page)
tick_all site (t ∷ ts) page =
    let (left, page') = tick site t page in
    let (rest, page'') = tick_all site ts page' in (keep left rest, page'')

unfoldable pub second : Site → Page → Page
unfolding tick_all
second site page =
    let (left, page') = tick_all site page.timers page in record page' { timers = left }

-- The result, and the page with the first failing test's message.
unfoldable pub validate_form_inputs : Text → Text → Messages → Page → Bool × Page
validate_form_inputs username password msg page =
    let (format_valid, length_valid) = is_valid_username username in
    if not format_valid
    then (false, show msg.invalid_username_format page)
    else if not length_valid
    then (false, show msg.invalid_username_length page)
    else if ltb (length password) 14
    then (false, show msg.password_too_short page)
    else if not (is_valid_password_chars password)
    then (false, show msg.invalid_password_chars page)
    else if has_repeating_chars password
    then (false, show msg.password_repeating_chars page)
    else if has_sequential_chars password
    then (false, show msg.password_sequence_chars page)
    else (true, page)
