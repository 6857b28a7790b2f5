-- ===== src/Password/Typing.antt =====
-- Typing into the password field, as typing into a plain field.
use signup_daemon.Prelude.{
  ℕ, zero, suc, ◌+◌, ◌-◌, ◌≤◌, ◌≡◌, refl, sym, subst, ◌∙◌, ap, true, false, some, List, [], ◌∷◌,
  ◌++◌, Bool-cases, inl, inr, arith, length, take, drop, ltb, leb, min, length-append, length-take,
  length-drop, append_assoc,
}
use signup_daemon.Js.Strings.{Text, substring, substring_from}
use signup_daemon.Messages.{Messages}
use signup_daemon.Password.{
  InputType, Fields, start_or, end_or, shown, place_caret, render_password, refresh, insert_text,
  delete_backward, edited, handle_password_input, handle_delete_key, handle_paste, update_strength,
  update_password_label_length, update_password_preview,
}
use signup_daemon.Password.Rendering.{length-shown}
use signup_daemon.Password.Keys.{
  Plain, Key, char, backspace, delete, paste, plain_key, Browser, IsBrowser, caret_of, touched,
  press, press_all, plain_keys, Stands,
}

nothing_behind : (n : ℕ) (xs : Text) → length xs ≤ n → take n xs ++ drop (n + 1) xs ≡ xs
nothing_behind zero [] h = refl
nothing_behind zero (x ∷ xs) h = absurd (omega arith)
nothing_behind (suc n) [] h = let next : suc n + 1 ≡ suc (n + 1) = omega arith in rw next refl
nothing_behind (suc n) (x ∷ xs) h =
    let rest = nothing_behind n xs (omega arith) in
    let next : suc n + 1 ≡ suc (n + 1) = omega arith in rw (next, rest) refl

module _ (msg : Messages) where
  -- The updates keep the caret where it is.
  refresh-Stands :
      (f : Fields) (p : Plain)
      → f.real ≡ p.text
      → f.selection ≡ some (p.caret, p.caret)
      → f.focused ≡ true
      → p.caret ≤ length p.text
      → Stands (refresh msg f) p
  unfolding refresh render_password place_caret update_strength update_password_label_length
      update_password_preview
  refresh-Stands f p real selection focused inside =
      let long = length-shown f.shows p.text in
      let stays : min (min p.caret (length (shown f.shows p.text))) (length (shown f.shows p.text))
          ≡ p.caret =
        omega (arith, long) in
      rw (real, selection, focused)
        (record {
          real = refl;
          selection = ap (λ i. some (i, i)) stays;
          focused = refl;
          inside = inside;
          credential = refl;
        })

  -- A caret placed after the updates stands where it is placed, wherever the selection was.
  placed-Stands :
      (f : Fields) (p : Plain)
      → f.real ≡ p.text
      → p.caret ≤ length p.text
      → Stands (place_caret p.caret (refresh msg f)) p
  unfolding refresh render_password place_caret update_strength update_password_label_length
      update_password_preview
  placed-Stands f p real inside =
      let long = length-shown f.shows p.text in
      let stays : min p.caret (length (shown f.shows p.text)) ≡ p.caret = omega (arith, long) in
      elim (Bool-cases f.focused) [
        | inl there ↦
            rw (real, there)
              (record {
                real = refl;
                selection = ap (λ i. some (i, i)) stays;
                focused = refl;
                inside = inside;
                credential = refl;
              })
        | inr elsewhere ↦
            rw (real, elsewhere)
              (record {
                real = refl;
                selection = ap (λ i. some (i, i)) stays;
                focused = refl;
                inside = inside;
                credential = refl;
              })
      ]

  module _ (b : Browser) (ok : IsBrowser b) (f : Fields) where
    -- The state in which the updates start.
    abbrev typed_in : Key → InputType → Fields
    typed_in k e =
        let after = touched b k f in
        let real =
          edited e (b.offset k (caret_of f.selection))
            (b.content k f.credential (caret_of f.selection)) f.real in
        record after { real = real; credential_real = real }

    char-Stands :
        (c : ℕ) (p : Plain) → Stands f p → Stands (press b msg (char c) f) (plain_key (char c) p)
    unfolding press plain_key handle_password_input edited
    char-Stands c p h =
        let o : b.offset (char c) (caret_of f.selection) ≡ p.caret + 1 =
          ap (λ s. b.offset (char c) (caret_of s)) h.selection ∙ ok.forward c p.caret in
        let back : p.caret + 1 - 1 ≡ p.caret = omega arith in
        let inside = h.inside in
        let size = length-append (take p.caret p.text) (c ∷ drop p.caret p.text) in
        let typed : edited (insert_text (c ∷ [])) (b.offset (char c) (caret_of f.selection))
              (b.content (char c) f.credential (caret_of f.selection)) f.real
            ≡ take p.caret p.text ++ c ∷ drop p.caret p.text =
          rw (o, back, h.real)
            (append_assoc (take p.caret p.text) (c ∷ []) (drop p.caret p.text)) in
        refresh-Stands (typed_in (char c) (insert_text (c ∷ []))) (plain_key (char c) p) typed
          (ap (λ i. some (i, i)) o) h.focused
          (omega (arith, size, length-take p.caret p.text, length-drop p.caret p.text, inside))

    backspace-Stands :
        (i : ℕ) (text : Text)
        → Stands f (record { text = text; caret = i })
        → Stands (press b msg backspace f) (plain_key backspace (record { text = text; caret = i }))
    unfolding press plain_key handle_password_input edited
    backspace-Stands zero text h =
        let first : ltb 0 (caret_of f.selection) ≡ false =
          ap (λ s. ltb 0 (caret_of s)) h.selection in
        rw first h
    backspace-Stands (suc i) text h =
        let later : ltb 0 (caret_of f.selection) ≡ true =
          ap (λ s. ltb 0 (caret_of s)) h.selection ∙ ground arith in
        let next : i + 1 ≡ suc i = omega arith in
        let o : b.offset backspace (caret_of f.selection) ≡ i =
          ap (λ s. b.offset backspace (caret_of s)) h.selection
          ∙ ap (b.offset backspace) (sym next)
          ∙ ok.backward i in
        let back : suc i - 1 ≡ i = omega arith in
        let inside = h.inside in
        let fits : leb i (length text) ≡ true = ground arith in
        let erased : edited delete_backward (b.offset backspace (caret_of f.selection))
              (b.content backspace f.credential (caret_of f.selection)) f.real
            ≡ take (suc i - 1) text ++ drop (suc i) text =
          rw (o, h.real, fits, back, next) refl in
        let size = length-append (take (suc i - 1) text) (drop (suc i) text) in
        rw later (
          refresh-Stands (typed_in backspace delete_backward)
            (plain_key backspace (record { text = text; caret = suc i })) erased
            (ap (λ j. some (j, j)) (o ∙ sym back)) h.focused
            (omega (arith, size, length-take (suc i - 1) text, length-drop (suc i) text, inside)))

    delete-Stands : (p : Plain) → Stands f p → Stands (press b msg delete f) (plain_key delete p)
    unfolding press plain_key handle_delete_key
    delete-Stands p h =
        let c : start_or 0 f.selection ≡ p.caret = ap (start_or 0) h.selection in
        let i = start_or 0 f.selection in
        let cut : Fields = record f {
          real = substring f.real 0 i ++ substring_from f.real (i + 1);
        } in
        let result = plain_key delete p in
        let inside = h.inside in
        let size = length-append (take p.caret p.text) (drop (p.caret + 1) p.text) in
        let fits : p.caret ≤ length result.text =
          omega
            (arith, size, length-take p.caret p.text, length-drop (p.caret + 1) p.text, inside) in
        let real : cut.real ≡ result.text = rw (h.selection, h.real) refl in
        elim (Bool-cases (ltb i (length f.real))) [
          | inl before ↦ rw before (
              subst (λ n. Stands (place_caret n (refresh msg cut)) result) (sym c)
                (placed-Stands cut result real fits))
          | inr behind ↦
              let at_end = rw (c, h.real) at behind in
              rw behind (
                subst (λ t. Stands f (record { text = t; caret = p.caret }))
                  (sym (nothing_behind p.caret p.text (ground arith))) h)
        ]

    paste-Stands :
        (s : Text) (p : Plain)
        → Stands f p
        → Stands (press b msg (paste s) f) (plain_key (paste s) p)
    unfolding press plain_key handle_paste
    paste-Stands s p h =
        let result = plain_key (paste s) p in
        let joined : Fields = record f {
          real =
              substring f.real 0 (start_or 0 f.selection)
              ++ s
              ++ substring_from f.real (end_or 0 f.selection);
        } in
        let inside = h.inside in
        let size = length-append (take p.caret p.text ++ s) (drop p.caret p.text) in
        let size' = length-append (take p.caret p.text) s in
        let fits : p.caret + length s ≤ length result.text =
          omega
            (arith, size, size', length-take p.caret p.text, length-drop p.caret p.text, inside) in
        let real : joined.real ≡ result.text = rw (h.selection, h.real) refl in
        let place : start_or 0 f.selection + length s ≡ p.caret + length s = rw h.selection refl in
        rw place (placed-Stands joined result real fits)

  press-Stands :
      (b : Browser) (k : Key) (f : Fields) (p : Plain)
      → IsBrowser b
      → Stands f p
      → Stands (press b msg k f) (plain_key k p)
  press-Stands b (char c) f p ok h = char-Stands b ok f c p h
  press-Stands b backspace f p ok h = backspace-Stands b ok f p.caret p.text h
  press-Stands b delete f p ok h = delete-Stands b ok f p h
  press-Stands b (paste s) f p ok h = paste-Stands b ok f s p h

  -- Any sequence of characters, backspaces, deletions and pastes at a caret does to the password what
  -- it does to the text of a plain field, caret included, whether the password is shown or hidden,
  -- when the browser moves the caret behind a typed character and in front of an erased one.
  pub press_all-Stands :
      (b : Browser) (ks : List Key) (f : Fields) (p : Plain)
      → IsBrowser b
      → Stands f p
      → Stands (press_all b msg ks f) (plain_keys ks p)
  unfolding press_all plain_keys
  press_all-Stands b [] f p ok h = h
  press_all-Stands b (k ∷ ks) f p ok h =
      press_all-Stands b ks (press b msg k f) (plain_key k p) ok (press-Stands b k f p ok h)
