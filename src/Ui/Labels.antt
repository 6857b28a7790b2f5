-- ===== src/Ui/Labels.antt =====
-- What the labels say through changes of the language.
use signup_daemon.Prelude.{◌≡◌, ◌∙◌, ap, length, Bool-cases, inl, inr, codes}
use signup_daemon.Js.Strings.{Text, text_eq, decimal, replace}
use signup_daemon.Messages.{Site, Messages, get_messages}
use signup_daemon.App.{current_messages}
use signup_daemon.Password.{Fields, shown, update_password_preview}
use signup_daemon.Password.Rendering.{
  IsShown, Step, Step-IsShown, length-shown, initialize_password-IsShown,
}
use signup_daemon.Ui.{
  Window, apply_language, selected, select_language, on_language_change, on_username_input,
  clear_username, on_fields, load_page,
}

-- The password field is shown as it should be, in the current language.
abbrev pub WindowIsShown : Site → Window → Type 0
WindowIsShown site w = IsShown (current_messages site w.app) w.fields

-- The label counts what is shown, which has the password's length.
apply_language-IsShown :
    (site : Site) (lang : Text) (w : Window)
    → w.fields.credential ≡ shown w.fields.shows w.fields.real
    → IsShown (get_messages lang site) (apply_language site lang w).fields
unfolding apply_language update_password_preview
apply_language-IsShown site lang w h = record {
  credential = h;
  label =
      ap (λ n. replace (get_messages lang site).password_label (codes "$length") (decimal n))
        (ap length h ∙ length-shown w.fields.shows w.fields.real);
}

pub on_language_change-IsShown :
    (site : Site) (lang : Text) (w : Window)
    → WindowIsShown site w
    → WindowIsShown site (on_language_change site lang w)
unfolding on_language_change
on_language_change-IsShown site lang w h =
    apply_language-IsShown site (selected lang) (select_language lang w) h.credential

pub on_username_input-IsShown :
    (site : Site) (lower : Text → Text) (content : Text) (w : Window)
    → WindowIsShown site w
    → WindowIsShown site (on_username_input lower content w)
unfolding on_username_input
on_username_input-IsShown site lower content w h =
    elim (Bool-cases (text_eq (lower content) content)) [
      | inl same ↦ rw same (record { credential = h.credential; label = h.label })
      | inr other ↦ rw other (record { credential = h.credential; label = h.label })
    ]

pub clear_username-IsShown :
    (site : Site) (w : Window) → WindowIsShown site w → WindowIsShown site (clear_username w)
unfolding clear_username
clear_username-IsShown site w h = record { credential = h.credential; label = h.label }

pub on_fields-IsShown :
    (site : Site) (handler : Messages → Fields → Fields) (w : Window)
    → Step (current_messages site w.app) w.fields (handler (current_messages site w.app) w.fields)
    → WindowIsShown site w
    → WindowIsShown site (on_fields site handler w)
unfolding on_fields
on_fields-IsShown site handler w step h = Step-IsShown _ _ _ step h

pub load_page-IsShown : (site : Site) (w : Window) → WindowIsShown site (load_page site w)
unfolding load_page on_fields
load_page-IsShown site w = initialize_password-IsShown _ _
