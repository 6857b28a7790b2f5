-- ===== src/Page/Validation.antt =====
-- What `validateFormInputs` accepts, and what it writes.
-- README.md and lang.js describe other rules: names without hyphens and underscores, passwords of all
-- visible characters, and no character three times in a row.
use signup_daemon.Prelude.{
  ◌≤◌, ◌≡◌, refl, ap, ◌↔◌, ◌⊎◌, inl, inr, Bool, true, false, arith, length, all, Bool-cases,
  if◌then◌else◌, ltb,
}
use signup_daemon.Js.Strings.{Text}
use signup_daemon.Messages.{Messages}
use signup_daemon.Validators.{
  is_password_char, is_valid_username, is_valid_password_chars, has_repeating_chars,
  has_sequential_chars,
}
use signup_daemon.Validators.Username.{HasForm, is_valid_username_iff}
use signup_daemon.Validators.Chars.{is_valid_password_chars_iff}
use signup_daemon.Validators.Repeats.{HasRun, has_repeating_chars_iff}
use signup_daemon.Validators.Sequences.{HasRise, HasFall, has_sequential_chars_iff}
use signup_daemon.Page.{Page, show, validate_form_inputs}

-- What the form asks of a name and a password.
pub record IsAcceptable (u p : Text) : Type 0 where
  pub name : HasForm u
  pub name_min : 8 ≤ length u
  pub name_max : length u ≤ 20
  pub long : 14 ≤ length p
  pub chars : all is_password_char p ≡ true
  pub no_run : ¬ HasRun p
  pub no_rise : ¬ HasRise p
  pub no_fall : ¬ HasFall p

not_both : {b : Bool} → b ≡ false → b ≡ true → ⊥
not_both e h = cc

of_false {ℓ} : {P : Type ℓ} (b : Bool) → b ≡ false → (P → b ≡ true) → ¬ P
of_false b e back p = not_both e (back p)

to_false {ℓ} : {P : Type ℓ} (b : Bool) → ¬ P → (b ≡ true → P) → b ≡ false
to_false b np forth = elim (Bool-cases b) [ inl t ↦ absurd (np (forth t)) | inr f ↦ f ]

-- The six tests, each with its outcome.
record Passes (u p : Text) : Type 0 where
  name_tests : is_valid_username u ≡ (true, true)
  long_test : 14 ≤ length p
  chars_test : is_valid_password_chars p ≡ true
  repeat_test : has_repeating_chars p ≡ false
  sequence_test : has_sequential_chars p ≡ false

module _ (u p : Text) (msg : Messages) (page : Page) where
  Passes-of : (validate_form_inputs u p msg page).0 ≡ true → Passes u p
  unfolding validate_form_inputs
  Passes-of h =
      let format : (is_valid_username u).0 ≡ true = ground arith in
      let size : (is_valid_username u).1 ≡ true = ground arith in
      record {
        name_tests = λ i. (format i, size i);
        long_test = ground arith;
        chars_test = ground arith;
        repeat_test = ground arith;
        sequence_test = ground arith;
      }

  of_Passes : Passes u p → validate_form_inputs u p msg page ≡ (true, page)
  unfolding validate_form_inputs
  of_Passes t =
      let format : (is_valid_username u).0 ≡ true = ap (λ r. r.0) t.name_tests in
      let size : (is_valid_username u).1 ≡ true = ap (λ r. r.1) t.name_tests in
      let long = t.long_test in
      let enough : ltb (length p) 14 ≡ false = ground arith in
      rw (format, size, enough, t.chars_test, t.repeat_test, t.sequence_test)

  pub validate_form_inputs_iff : ((validate_form_inputs u p msg page).0 ≡ true) ↔ IsAcceptable u p
  validate_form_inputs_iff = (forth, back)
    where
      forth : (validate_form_inputs u p msg page).0 ≡ true → IsAcceptable u p
      forth h =
          let t = Passes-of h in
          let (form, above, below) = (is_valid_username_iff u).0 t.name_tests in
          record {
            name = form;
            name_min = above;
            name_max = below;
            long = t.long_test;
            chars = ((is_valid_password_chars_iff p).0 t.chars_test).1;
            no_run = of_false _ t.repeat_test (has_repeating_chars_iff p).1;
            no_rise = of_false _ t.sequence_test (λ r. (has_sequential_chars_iff p).1 (inl r));
            no_fall = of_false _ t.sequence_test (λ r. (has_sequential_chars_iff p).1 (inr r));
          }

      neither : IsAcceptable u p → ¬ (HasRise p ⊎ HasFall p)
      neither a (inl r) = a.no_rise r
      neither a (inr r) = a.no_fall r

      back : IsAcceptable u p → (validate_form_inputs u p msg page).0 ≡ true
      back a =
          let long = a.long in
          ap (λ r. r.0)
            (of_Passes (record {
              name_tests = (is_valid_username_iff u).1 (a.name, a.name_min, a.name_max);
              long_test = long;
              chars_test = (is_valid_password_chars_iff p).1 (omega arith, a.chars);
              repeat_test = to_false _ a.no_run (has_repeating_chars_iff p).0;
              sequence_test = to_false _ (neither a) (has_sequential_chars_iff p).0;
            }))

-- `r` left the page alone, or refused and wrote one message.
abbrev pub WritesMessage : Page → Bool × Page → Type 0
WritesMessage page r = (r ≡ (true, page)) ⊎ ((r.0 ≡ false) × ((t : Text) × (r.1 ≡ show t page)))

-- One test more in front.
WritesMessage-if :
    (page : Page) (b : Bool) (t : Text) (r : Bool × Page)
    → WritesMessage page r
    → WritesMessage page (if b then (false, show t page) else r)
WritesMessage-if page true t r h = inr (refl, (t, refl))
WritesMessage-if page false t r h = h

-- Validation leaves the page as it is when it accepts, and else writes one text to the message.
pub validate_form_inputs-writes :
    (u p : Text) (msg : Messages) (page : Page)
    → WritesMessage page (validate_form_inputs u p msg page)
unfolding validate_form_inputs
validate_form_inputs-writes u p msg page = test _ msg.invalid_username_format _ (
    test _ msg.invalid_username_length _ (
      test _ msg.password_too_short _ (
        test _ msg.invalid_password_chars _ (
          test _ msg.password_repeating_chars _
            (test _ msg.password_sequence_chars _ (inl refl))))))
  where
    test :
        (b : Bool) (t : Text) (r : Bool × Page)
        → WritesMessage page r
        → WritesMessage page (if b then (false, show t page) else r)
    test = WritesMessage-if page
