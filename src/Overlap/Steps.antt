-- ===== src/Overlap/Steps.antt =====
-- What holds of a page however submissions overlap.
use signup_daemon.Prelude.{
  ℕ, ◌≤◌, ◌≡◌, inl, inr, refl, sym, subst, Bool, true, Option, none, some, List, [], ◌∷◌, ◌++◌,
  append-nil, arith, length, length-append, Bool-cases,
}
use mathlib.Core.Option
use signup_daemon.Js.Strings.{Text, text_eq}
use signup_daemon.Messages.{Site, Messages, get_messages}
use signup_daemon.Page.{Button, second}
use signup_daemon.Page.Timers.{second-button}
use signup_daemon.App.{World, App, Fetched, current_messages, on_page}
use signup_daemon.Password.{Fields}
use signup_daemon.Password.Rendering
use signup_daemon.Password.Rendering.{IsShown}
use signup_daemon.Ui.{
  Window, full_app, labelled, selected, on_language_change, on_username_input, clear_username,
  on_fields, load_page,
}
use signup_daemon.Ui.Labels.{
  WindowIsShown, on_language_change-IsShown, on_username_input-IsShown, clear_username-IsShown,
  on_fields-IsShown, load_page-IsShown,
}
use signup_daemon.Overlap.{Pending, State, resume, ran, press_enter, click, is_enabled}
use signup_daemon.Overlap.Pieces.{
  NotStuck, Piece, continues, stops, resume-Piece, Begun, refused, waits, begin-Begun,
}

abbrev pub on_window : (Window → Window) → State → State
on_window f s = record s { window = f s.window }

-- One event of a page. The argument says whether the Enter key may start a submission.
pub data Step (site : Site) (enter : Bool) : State → State → Type 0 where
  clicks : (s : State) → Step site enter s (click site s)
  enters : (s : State) → enter ≡ true → Step site enter s (press_enter site s)
  edits :
      (s : State) (handler : Messages → Fields → Fields)
      → Rendering.Step
          (current_messages site s.window.app)
          s.window.fields
          (handler (current_messages site s.window.app) s.window.fields)
      → Step site enter s (on_window (on_fields site handler) s)
  names :
      (s : State) (lower : Text → Text) (content : Text)
      → Step site enter s (on_window (on_username_input lower content) s)
  clears : (s : State) → Step site enter s (on_window clear_username s)
  speaks :
      (s : State) (lang : Text) → Step site enter s (on_window (on_language_change site lang) s)
  -- a second passes
  passes :
      (s : State)
      → Step site enter s (on_window (λ w. record w { app = on_page (second site) w.app }) s)
  -- an answer comes to one of the submissions that wait, or the text of an answer is read
  answers :
      (s : State) (world : World) (fetched : Fetched) (p : Pending) (before after : List Pending)
      → s.pending ≡ before ++ p ∷ after
      → Step site enter s (
          ran s.window
            (before ++ after)
            (resume world site p.stage p.msg fetched (full_app s.window)))

-- The page is loaded: no submission waits, and the button is as index.html has it.
abbrev pub loaded : Site → Window → State
loaded site w = record { window = load_page site w; pending = [] }

pub data Reachable (site : Site) (enter : Bool) : State → Type 0 where
  start :
      (w : Window)
      → is_enabled (load_page site w).app.page.button ≡ true
      → Reachable site enter (loaded site w)
  next : (s t : State) → Reachable site enter s → Step site enter s t → Reachable site enter t

-- The password field and its label are as they should be in the current language, and the button is
-- not stuck.
pub record Sound (site : Site) (s : State) : Type 0 where
  pub fields_shown : WindowIsShown site s.window
  pub not_stuck : NotStuck s.window.app.page.button (length s.pending)

waiting-NotStuck : (o : Option Button) (n : ℕ) → 1 ≤ n → NotStuck o n
waiting-NotStuck none n h = tt
waiting-NotStuck (some b) n h = inr (inr h)

enabled-NotStuck : (o : Option Button) (n : ℕ) → is_enabled o ≡ true → NotStuck o n
enabled-NotStuck none n h = tt
enabled-NotStuck (some b) n h = inl (ground arith)

labelled-NotStuck :
    (msg : Messages) (o : Option Button) (n : ℕ)
    → NotStuck o n
    → NotStuck (Option.map (labelled msg) o) n
labelled-NotStuck msg none n h = tt
labelled-NotStuck msg (some b) n h = h

length-last : (others : List Pending) (p : Pending) → 1 ≤ length (others ++ p ∷ [])
length-last others p = omega (arith, length-append others (p ∷ []))

-- The labels follow the language alone.
keep_language :
    (site : Site) (w : Window) (after : App)
    → after.language ≡ (full_app w).language
    → WindowIsShown site w
    → WindowIsShown site (record w { app = after })
keep_language site w after l h = subst (λ lang. IsShown (messages_in lang) w.fields) (sym l) h
  where
    messages_in : Option Text → Messages
    messages_in lang = current_messages site (record w.app { language = lang })

module _ (site : Site) (w : Window) where
  Begun-Sound :
      (pending : List Pending) (r : Option Pending × App)
      → Begun (full_app w) r
      → Sound site (record { window = w; pending = pending })
      → Sound site (ran w pending r)
  Begun-Sound pending _ (refused after l b) s = record {
    fields_shown = keep_language site w after l s.fields_shown;
    not_stuck =
        subst (λ ps. NotStuck after.page.button (length ps)) (sym (append-nil pending))
          (subst (λ o. NotStuck o (length pending)) (sym b) s.not_stuck);
  }
  Begun-Sound pending _ (waits p after l d) s = record {
    fields_shown = keep_language site w after l s.fields_shown;
    not_stuck = waiting-NotStuck after.page.button _ (length-last pending p);
  }

  Piece-Sound :
      (others : List Pending) (r : Option Pending × App)
      → Piece (full_app w) r
      → WindowIsShown site w
      → Sound site (ran w others r)
  Piece-Sound others _ (continues p after l) h = record {
    fields_shown = keep_language site w after l h;
    not_stuck = waiting-NotStuck after.page.button _ (length-last others p);
  }
  Piece-Sound others _ (stops after l free) h = record {
    fields_shown = keep_language site w after l h;
    not_stuck = free _;
  }

press_enter-Sound : (site : Site) (s : State) → Sound site s → Sound site (press_enter site s)
unfolding press_enter
press_enter-Sound site s h =
    Begun-Sound site s.window s.pending _ (begin-Begun site (full_app s.window)) h

click-Sound : (site : Site) (s : State) → Sound site s → Sound site (click site s)
unfolding click
click-Sound site s h = elim (Bool-cases (is_enabled s.window.app.page.button)) [
  | inl enabled ↦ rw enabled (press_enter-Sound site s h)
  | inr disabled ↦ rw disabled h
]

username-button :
    (lower : Text → Text) (content : Text) (w : Window)
    → (on_username_input lower content w).app.page ≡ w.app.page
unfolding on_username_input
username-button lower content w = elim (Bool-cases (text_eq (lower content) content)) [
  | inl same ↦ rw same refl
  | inr other ↦ rw other refl
]

Step-Sound :
    (site : Site) (enter : Bool) (s t : State) → Step site enter s t → Sound site s → Sound site t
unfolding on_fields clear_username on_language_change
Step-Sound site enter _ _ (clicks s) h = click-Sound site s h
Step-Sound site enter _ _ (enters s e) h = press_enter-Sound site s h
Step-Sound site enter _ _ (edits s handler step) h = record {
  fields_shown = on_fields-IsShown site handler s.window step h.fields_shown;
  not_stuck = h.not_stuck;
}
Step-Sound site enter _ _ (names s lower content) h = record {
  fields_shown = on_username_input-IsShown site lower content s.window h.fields_shown;
  not_stuck =
      subst (λ p. NotStuck p.button (length s.pending))
        (sym (username-button lower content s.window)) h.not_stuck;
}
Step-Sound site enter _ _ (clears s) h = record {
  fields_shown = clear_username-IsShown site s.window h.fields_shown;
  not_stuck = h.not_stuck;
}
Step-Sound site enter _ _ (speaks s lang) h = record {
  fields_shown = on_language_change-IsShown site lang s.window h.fields_shown;
  not_stuck =
      labelled-NotStuck (get_messages (selected lang) site) s.window.app.page.button
        (length s.pending) h.not_stuck;
}
Step-Sound site enter _ _ (passes s) h = record {
  fields_shown = record { credential = h.fields_shown.credential; label = h.fields_shown.label };
  not_stuck =
      subst (λ o. NotStuck o (length s.pending)) (sym (second-button site s.window.app.page))
        h.not_stuck;
}
Step-Sound site enter _ _ (answers s world fetched p before after e) h =
    Piece-Sound site s.window (before ++ after) _
      (resume-Piece world site p.msg p.stage fetched (full_app s.window)) h.fields_shown

-- However the user types, clicks, presses Enter, and changes the language, and however the answers come,
-- the password field shows the password or as many asterisks, its label has the length and is in the
-- current language, and a button of the page can be used, shows a success, or waits for an answer.
pub Reachable-Sound :
    (site : Site) (enter : Bool) (s : State) → Reachable site enter s → Sound site s
Reachable-Sound site enter _ (start w h) = record {
  fields_shown = load_page-IsShown site w;
  not_stuck = enabled-NotStuck _ 0 h;
}
Reachable-Sound site enter _ (next s t r step) =
    Step-Sound site enter s t step (Reachable-Sound site enter s r)
