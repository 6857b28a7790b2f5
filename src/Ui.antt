-- ===== src/Ui.antt =====
-- signup_html/ui.js, ui_listener.js and the start of the page in form.js: the language of the
-- interface, the field of the user name, and the password field in its page. Both sites' index.html
-- hold every element that these scripts look up but those of Page, which are options there.
pub mod Labels
use signup_daemon.Prelude.{
  ℕ, Bool, true, false, ◌||◌, Option, none, some, List, [], ◌∷◌, codes, if◌then◌else◌, length,
}
use mathlib.Core.Option
use signup_daemon.Js.Strings.{Text, text_eq, is_empty, replace, decimal}
use signup_daemon.Messages.{Site, Messages, get_messages}
use signup_daemon.Page.{Page, Button, show}
use signup_daemon.App.{App, current_messages, on_page}
use signup_daemon.Password.{Fields, update_password_preview, initialize_password}

-- The elements that only a change of the language writes to.
pub record Titles : Type 0 where
  pub title : Text
  pub username_label : Text
  pub show_password_label : Text

-- A page with its password field. `realPassword` is kept in `fields`.
pub record Window : Type 0 where
  pub app : App
  pub fields : Fields
  pub titles : Titles
  -- `signup_lang` of `localStorage`
  pub saved_lang : Option Text

-- The globals as the submission sees them.
abbrev pub full_app : Window → App
full_app w = record w.app { real_password = w.fields.real }

abbrev pub labelled : Messages → Button → Button
labelled msg b = record b { label = msg.submit_btn }

abbrev pub relabelled : Messages → Page → Page
relabelled msg page = show [] (record page { button = Option.map (labelled msg) page.button })

-- `applyLanguage`. The label counts the characters that the field shows.
unfoldable pub apply_language : Site → Text → Window → Window
unfolding update_password_preview
apply_language site lang w =
    let msg = get_messages lang site in
    let label =
      replace msg.password_label (codes "$length") (decimal (length w.fields.credential)) in
    record w {
      app = on_page (relabelled msg) w.app;
      fields = update_password_preview (record w.fields { label = label });
      titles = record {
        title = msg.title;
        username_label = msg.username_label;
        show_password_label = msg.show_password_label;
      };
      saved_lang = some lang;
    }

-- The value of the selector when it is set to a text: that of an option, or the empty text.
abbrev pub selected : Text → Text
selected lang =
    if text_eq lang (codes "en") || text_eq lang (codes "cn") || text_eq lang (codes "ca")
    then lang
    else []

abbrev pub select_language : Text → Window → Window
select_language lang w = record w { app = record w.app { language = some (selected lang) } }

-- The listener of the selector, which the user has set.
unfoldable pub on_language_change : Site → Text → Window → Window
unfolding apply_language
on_language_change site lang w = apply_language site (selected lang) (select_language lang w)

-- `localStorage.getItem("signup_lang") || "en"`
abbrev pub or_english : Option Text → Text
or_english none = codes "en"
or_english (some lang) = if is_empty lang then codes "en" else lang

-- The end of `setupLanguageListener`.
unfoldable pub initialize_language : Site → Window → Window
unfolding apply_language
initialize_language site w =
    let lang = or_english w.saved_lang in apply_language site lang (select_language lang w)

-- `placeCaretAtEnd` of an element with this text: behind its one child, if it has one.
abbrev pub place_caret_at_end : Text → Fields → Fields
place_caret_at_end content f =
    let p = if is_empty content then 0 else 1 in
    record f { selection = some (p, p); focused = false }

abbrev set_identity : Text → Window → Window
set_identity content w = record w { app = record w.app { identity = content } }

-- The `input` listener of the user name, with the content that the browser left; the function is
-- `toLowerCase`.
unfoldable pub on_username_input : (Text → Text) → Text → Window → Window
on_username_input lower content w =
    let typed = set_identity content w in
    let changed = set_identity (lower content) w in
    if text_eq (lower content) content
    then typed
    else record changed { fields = place_caret_at_end (lower content) w.fields }

-- The `paste` listener: `execCommand` inserts the text, as the argument `insert` does, and fires `input`.
unfoldable pub on_username_paste : (Text → Text) → (Text → Text → Text) → Text → Window → Window
unfolding on_username_input
on_username_paste lower insert pasted w =
    on_username_input lower (insert (lower pasted) w.app.identity) w

-- The clear button of the user name.
unfoldable pub clear_username : Window → Window
clear_username w = record (set_identity [] w) { fields = record w.fields { focused = false } }

-- A handler of the password field, which asks for the messages of the current language.
unfoldable pub on_fields : Site → (Messages → Fields → Fields) → Window → Window
on_fields site handler w = record w { fields = handler (current_messages site w.app) w.fields }

-- `DOMContentLoaded` in form.js: `initializeUI`, then `initializePassword`. The rest registers
-- listeners, starts the loader of the Argon2 module and adds a style.
unfoldable pub load_page : Site → Window → Window
unfolding initialize_language on_fields
load_page site w = on_fields site initialize_password (initialize_language site w)
