-- ===== src/Password/Rendering.antt =====
-- What the password field shows, through every event that its listeners handle.
use signup_daemon.Prelude.{
  ℕ, ◌≡◌, refl, sym, ◌∙◌, ap, Bool, true, false, Option, Bool-cases, inl, inr, length,
  length-replicate, ltb, [], ◌+◌, ◌++◌,
}
use signup_daemon.Js.Strings.{Text, substring, substring_from}
use signup_daemon.Messages.{Messages}
use signup_daemon.Password.{
  Fields, shown, label_of, place_caret, render_password, refresh, InputType, edited,
  handle_password_input, handle_delete_key, handle_paste, clear_password,
  toggle_password_visibility, initialize_password, start_or, end_or, update_strength,
  update_password_label_length, update_password_preview,
}

-- The field shows the password or as many asterisks, and the label counts its characters.
pub record IsShown (msg : Messages) (f : Fields) : Type 0 where
  pub credential : f.credential ≡ shown f.shows f.real
  pub label : f.label ≡ label_of msg f.real

-- One event, with what the browser leaves in the field and the selection before the listener runs.
pub data Step (msg : Messages) : Fields → Fields → Type 0 where
  input :
      (f : Fields) (e : InputType) (content : Text) (at : Option (ℕ × ℕ))
      → Step msg f (handle_password_input msg e (record f { credential = content; selection = at }))
  delete_key : (f : Fields) → Step msg f (handle_delete_key msg f)
  paste : (f : Fields) (pasted : Text) → Step msg f (handle_paste msg pasted f)
  clear : (f : Fields) → Step msg f (clear_password msg f)
  toggle : (f : Fields) (shows : Bool) → Step msg f (toggle_password_visibility shows f)
  select :
      (f : Fields) (at : Option (ℕ × ℕ)) (focused : Bool)
      → Step msg f (record f { selection = at; focused = focused })

-- The states that a sequence of events leads to from the start of the page.
pub data Reachable (msg : Messages) : Fields → Type 0 where
  start : (f : Fields) → Reachable msg (initialize_password msg f)
  next : (f g : Fields) → Reachable msg f → Step msg f g → Reachable msg g

-- What drawing the field does, whether it is focused or not.
record Drawn (f g : Fields) : Type 0 where
  credential : g.credential ≡ shown f.shows f.real
  real : g.real ≡ f.real
  shows : g.shows ≡ f.shows
  label : g.label ≡ f.label

render_password-Drawn : (f : Fields) → Drawn f (render_password f)
unfolding render_password place_caret
render_password-Drawn f = elim (Bool-cases f.focused) [
  | inl focused ↦ rw focused (record { credential = refl; real = refl; shows = refl; label = refl })
  | inr elsewhere ↦
      rw elsewhere (record { credential = refl; real = refl; shows = refl; label = refl })
]

refresh-IsShown : (msg : Messages) (f : Fields) → IsShown msg (refresh msg f)
unfolding refresh update_strength update_password_label_length update_password_preview
refresh-IsShown msg f =
    let d = render_password-Drawn f in
    record {
      credential =
          d.credential ∙ sym (ap (λ s. shown s f.real) d.shows) ∙ sym (ap (shown _) d.real);
      label = refl;
    }

place_caret-IsShown :
    (msg : Messages) (n : ℕ) (f : Fields) → IsShown msg f → IsShown msg (place_caret n f)
unfolding place_caret
place_caret-IsShown msg n f h = record { credential = h.credential; label = h.label }

toggle-IsShown :
    (msg : Messages) (f : Fields) (shows : Bool)
    → IsShown msg f
    → IsShown msg (toggle_password_visibility shows f)
unfolding toggle_password_visibility update_password_preview
toggle-IsShown msg f shows h =
    let d = render_password-Drawn (record f { shows = shows }) in
    record {
      credential =
          d.credential ∙ sym (ap (λ s. shown s f.real) d.shows) ∙ sym (ap (shown _) d.real);
      label = d.label ∙ h.label ∙ sym (ap (label_of msg) d.real);
    }

emptied-IsShown :
    (msg : Messages) (f : Fields)
    → IsShown msg (
        render_password
          (update_password_label_length msg (record f { credential = []; real = [] })))
unfolding update_password_label_length
emptied-IsShown msg f =
    let d =
      render_password-Drawn
        (update_password_label_length msg (record f { credential = []; real = [] })) in
    record {
      credential = d.credential ∙ sym (ap (λ s. shown s []) d.shows) ∙ sym (ap (shown _) d.real);
      label = d.label ∙ sym (ap (label_of msg) d.real);
    }

delete_key-IsShown :
    (msg : Messages) (f : Fields) → IsShown msg f → IsShown msg (handle_delete_key msg f)
unfolding handle_delete_key
delete_key-IsShown msg f h =
    let c = start_or 0 f.selection in
    let cut : Fields = record f { real = substring f.real 0 c ++ substring_from f.real (c + 1) } in
    elim (Bool-cases (ltb c (length f.real))) [
      | inl inside ↦
          rw inside (place_caret-IsShown msg c (refresh msg cut) (refresh-IsShown msg cut))
      | inr behind ↦ rw behind h
    ]

pub Step-IsShown : (msg : Messages) (f g : Fields) → Step msg f g → IsShown msg f → IsShown msg g
unfolding handle_password_input handle_paste clear_password
Step-IsShown msg _ _ (input f e content at) h =
    let real = edited e (start_or 0 at) content f.real in
    refresh-IsShown msg
      (record f { credential = content; selection = at; real = real; credential_real = real })
Step-IsShown msg _ _ (delete_key f) h = delete_key-IsShown msg f h
Step-IsShown msg _ _ (paste f pasted) h =
    let joined : Fields = record f {
      real =
          substring f.real 0 (start_or 0 f.selection)
          ++ pasted
          ++ substring_from f.real (end_or 0 f.selection);
    } in
    place_caret-IsShown msg _ (refresh msg joined) (refresh-IsShown msg joined)
Step-IsShown msg _ _ (clear f) h =
    let e = emptied-IsShown msg f in record { credential = e.credential; label = e.label }
Step-IsShown msg _ _ (toggle f shows) h = toggle-IsShown msg f shows h
Step-IsShown msg _ _ (select f at focused) h = record { credential = h.credential; label = h.label }

pub initialize_password-IsShown :
    (msg : Messages) (f : Fields) → IsShown msg (initialize_password msg f)
unfolding initialize_password update_password_label_length
initialize_password-IsShown msg f =
    let d = render_password-Drawn (record f { credential = []; real = [] }) in
    record {
      credential = d.credential ∙ sym (ap (λ s. shown s []) d.shows) ∙ sym (ap (shown _) d.real);
      label = refl;
    }

-- After any sequence of typing, deleting, pasting, clearing, toggling and selecting, whatever the
-- browser leaves in the field before a listener runs, the field shows the password if the box is
-- set and else as many asterisks, and the label has the password's length.
pub Reachable-IsShown : (msg : Messages) (f : Fields) → Reachable msg f → IsShown msg f
Reachable-IsShown msg _ (start f) = initialize_password-IsShown msg f
Reachable-IsShown msg _ (next f g r s) = Step-IsShown msg f g s (Reachable-IsShown msg f r)

-- The text that takes the place of a password has its length.
pub length-shown :
    (shows : Bool) (password : Text) → length (shown shows password) ≡ length password
length-shown true password = refl
length-shown false password = length-replicate (length password) b'*'
