-- ===== src/Password.antt =====
-- The password field: signup_html/password.js, password_input.js, password_listener.js, the updates of
-- ui_update.js and the clear button of ui_listener.js. The field shows asterisks or the password, and
-- the password itself is the variable `realPassword`. Both sites' index.html hold every element that
-- the handlers look up, so their tests for missing elements always pass; no call of the selection
-- throws. What the browser itself does to the selection is not written here.
pub mod Rendering
pub mod Keys
pub mod Typing
use signup_daemon.Prelude.{
  ℕ, ◌+◌, ◌-◌, min, Bool, true, false, ◌&&◌, Option, none, some, [], ◌∷◌, ◌++◌, ltb, leb, ◌==◌,
  codes, if◌then◌else◌, length, replicate,
}
use signup_daemon.Js.Strings.{Text, replace, decimal, substring_from, substring, trim, is_empty}
use signup_daemon.Messages.{Messages}
use signup_daemon.Validators.{is_dot}

pub record Fields : Type 0 where
  -- `realPassword`
  pub real : Text
  -- the contents of `credential` and `credential-real`
  pub credential : Text
  pub credential_real : Text
  -- the box `show-password`
  pub shows : Bool
  -- the contents of `password-preview`, `password-label` and `strength-indicator`, and its class
  pub preview : Text
  pub label : Text
  pub strength : Text
  pub strength_class : Text
  -- the offsets of the selection's first range, if there is one
  pub selection : Option (ℕ × ℕ)
  -- whether `credential` is the active element
  pub focused : Bool

-- What the field is to show.
abbrev pub shown : Bool → Text → Text
shown true password = password
shown false password = replicate (length password) b'*'

-- `placeCaretAtPosition(passwordField, position)`
pub place_caret : ℕ → Fields → Fields
place_caret position f =
    let p = min position (length f.credential) in
    record f { selection = some (p, p); focused = true }

abbrev start_or : ℕ → Option (ℕ × ℕ) → ℕ
start_or d none = d
start_or d (some (start, end)) = start

abbrev end_or : ℕ → Option (ℕ × ℕ) → ℕ
end_or d none = d
end_or d (some (start, end)) = end

unfoldable pub render_password : Fields → Fields
unfolding place_caret
render_password f =
    let cursor_pos = start_or (length f.credential) f.selection in
    let drawn = record f { credential = shown f.shows f.real } in
    if f.focused then place_caret (min cursor_pos (length drawn.credential)) drawn else drawn

-- The text and the class of the indicator.
pub strength_of : Messages → Text → Text × Text
strength_of msg password =
    if length password == 0
    then ([], [])
    else if ltb (length password) 14
    then (msg.passwd_weak, codes "weak")
    else if ltb (length password) 20
    then (msg.passwd_medium, codes "medium")
    else (msg.passwd_strong, codes "strong")

pub update_strength : Messages → Fields → Fields
unfolding strength_of
update_strength msg f =
    let (text, kind) = strength_of msg f.real in record f { strength = text; strength_class = kind }

abbrev pub label_of : Messages → Text → Text
label_of msg password = replace msg.password_label (codes "$length") (decimal (length password))

pub update_password_label_length : Messages → Fields → Fields
update_password_label_length msg f = record f { label = label_of msg f.real }

-- `replace(/(.{4})/g, "$1 ")`
unfoldable pub group_by_four : Text → Text
group_by_four (a ∷ b ∷ c ∷ d ∷ s) =
    let whole = a ∷ b ∷ c ∷ d ∷ b' ' ∷ group_by_four s in
    let later = a ∷ group_by_four (b ∷ c ∷ d ∷ s) in
    if is_dot a && is_dot b && is_dot c && is_dot d then whole else later
group_by_four s = s

abbrev pub or_dot : Text → Text
or_dot s = if is_empty s then codes "." else s

abbrev pub preview_of : Bool → Text → Text
preview_of shows password = or_dot (trim (group_by_four (shown shows password)))

unfoldable pub update_password_preview : Fields → Fields
unfolding group_by_four
update_password_preview f = record f { preview = preview_of f.shows f.real }

-- The four updates after each change of the password.
pub refresh : Messages → Fields → Fields
unfolding render_password update_strength update_password_label_length update_password_preview
refresh msg f =
    update_password_preview
      (update_password_label_length msg (update_strength msg (render_password f)))

pub data InputType : Type 0 where
  insert_text : (text : Text) → InputType
  delete_backward delete_forward insert_from_paste other : InputType

-- The password after an `input` event, from the offset and the content that the browser left.
unfoldable pub edited : InputType → ℕ → Text → Text → Text
edited (insert_text text) start content real =
    substring real 0 (start - 1) ++ text ++ substring_from real (start - 1)
edited delete_backward start content real =
    if leb start (length real)
    then substring real 0 start ++ substring_from real (start + 1)
    else real
edited delete_forward start content real = substring real 0 start ++ substring_from real (start + 1)
edited insert_from_paste start content real = content
edited other start content real = content

unfoldable pub handle_password_input : Messages → InputType → Fields → Fields
unfolding edited refresh
handle_password_input msg e f =
    let real = edited e (start_or 0 f.selection) f.credential f.real in
    refresh msg (record f { real = real; credential_real = real })

-- The `Delete` key, in the `keydown` listener.
unfoldable pub handle_delete_key : Messages → Fields → Fields
unfolding refresh place_caret
handle_delete_key msg f =
    let cursor_pos = start_or 0 f.selection in
    if ltb cursor_pos (length f.real)
    then place_caret cursor_pos (
        refresh msg (record f {
          real = substring f.real 0 cursor_pos ++ substring_from f.real (cursor_pos + 1);
        }))
    else f

-- The `paste` listener, which takes the place of the browser's own paste.
unfoldable pub handle_paste : Messages → Text → Fields → Fields
unfolding refresh place_caret
handle_paste msg pasted f =
    let start_pos = start_or 0 f.selection in
    let end_pos = end_or 0 f.selection in
    place_caret (start_pos + length pasted) (
      refresh msg (record f {
        real = substring f.real 0 start_pos ++ pasted ++ substring_from f.real end_pos;
      }))

-- The clear button.
unfoldable pub clear_password : Messages → Fields → Fields
unfolding render_password update_password_label_length
clear_password msg f =
    let emptied = record f { credential = []; real = [] } in
    record (render_password (update_password_label_length msg emptied)) { focused = true }

-- The box is set, and `togglePasswordVisibility` runs.
unfoldable pub toggle_password_visibility : Bool → Fields → Fields
unfolding render_password update_password_preview
toggle_password_visibility shows f =
    update_password_preview (render_password (record f { shows = shows }))

unfoldable pub initialize_password : Messages → Fields → Fields
unfolding render_password update_password_label_length
initialize_password msg f =
    update_password_label_length msg (render_password (record f { credential = []; real = [] }))
