-- ===== src/PassHash/Frame.antt =====
-- What `calc_passHash` leaves alone.
use signup_daemon.Prelude.{◌≡◌, refl, ◌∙◌, Option, none, some, Bool-cases, inl, inr, codes}
use signup_daemon.Js.Strings.{Text}
use signup_daemon.Js.Json.{Json}
use signup_daemon.Argon2.{Heap, argon2_calc}
use signup_daemon.Messages.{Site, signup, login, Messages}
use signup_daemon.App.{World, App, current_messages}
use signup_daemon.App.Frame.{Keeps, Same-refl, show-Same, refuse-Same, Same-trans}
use signup_daemon.PassHash.{
  is_hash, sha256, calc_pass_hash, calc_pass_hash_argon_sha256, checked_hash, hash_of_hash,
  hash_with, signup_json, login_json, second_round, truthy, json_get_hex32, argon_input, spelled,
}

module _ (world : World) (site : Site) where
  checked_hash-Keeps : (app : App) (hash : Option Text) → Keeps app (checked_hash site app hash)
  checked_hash-Keeps app none = record {
    requests = refl;
    language = refl;
    page_same = show-Same (current_messages site app).invalid_password app.page;
    page_kept = λ a e. cc;
  }
  checked_hash-Keeps app (some hash) = elim (Bool-cases (is_hash hash)) [
    | inl good ↦ rw good (record {
      requests = refl;
      language = refl;
      page_same = Same-refl _ _ refl;
      page_kept = λ a e. refl;
    })
    | inr bad ↦ rw bad (record {
      requests = refl;
      language = refl;
      page_same = show-Same (current_messages site app).invalid_password app.page;
      page_kept = λ a e. cc;
    })
  ]

  hash_of_hash-Keeps :
      (app : App) (argon_hash : Option Text) → Keeps app (hash_of_hash world site argon_hash app)
  hash_of_hash-Keeps app none =
      let msg = current_messages site app in
      record {
        requests = refl;
        language = refl;
        page_same = refuse-Same msg msg.password_calc_failed app.page;
        page_kept = λ a e. cc;
      }
  hash_of_hash-Keeps app (some hash) = checked_hash-Keeps app (sha256 world hash)

  argon_sha256-Keeps :
      (input : Text) (app : App) → Keeps app (calc_pass_hash_argon_sha256 world site input app)
  unfolding calc_pass_hash_argon_sha256
  argon_sha256-Keeps input app = elim (Bool-cases world.argon2_there) [
    | inl there ↦
        simp there
          (from_heap (hash_of_hash-Keeps (record app { heap = heap_after }) (truthy inner)))
    | inr missing ↦ simp missing (record {
      requests = refl;
      language = refl;
      page_same = refuse-Same msg msg.password_module_not_loaded app.page;
      page_kept = λ a e. cc;
    })
  ]
    where
      msg : Messages
      msg = current_messages site app

      inner : Option Text
      inner = (argon2_calc world.wasm app.wasm_loaded app.argon2_salt input app.heap).0

      heap_after : Heap
      heap_after = (argon2_calc world.wasm app.wasm_loaded app.argon2_salt input app.heap).1

      from_heap : {r : Option Text × App} → Keeps (record app { heap = heap_after }) r → Keeps app r
      from_heap k = record {
        requests = k.requests;
        language = k.language;
        page_same = k.page_same;
        page_kept = k.page_kept;
      }

  hash_with-Keeps :
      (salt : Option Text) (secret : Text) (app : App)
      → Keeps app (hash_with world site salt secret app)
  hash_with-Keeps salt secret app =
      let k =
        argon_sha256-Keeps (argon_input salt app.real_username secret)
          (record app { argon2_salt = some (spelled salt) }) in
      record {
        requests = k.requests;
        language = k.language;
        page_same = k.page_same;
        page_kept = k.page_kept;
      }

module _ (app : App) where
  -- A result that is only rewritten.
  signup_json-Keeps :
      (salt : Option Text) (r : Option Text × App) → Keeps app r → Keeps app (signup_json salt r)
  signup_json-Keeps salt (none, app') k = k
  signup_json-Keeps salt (some h, app') k = record {
    requests = k.requests;
    language = k.language;
    page_same = k.page_same;
    page_kept = λ a e. k.page_kept h refl;
  }

  login_json-Keeps :
      (salt : Option Text) (r : Option Text × App) → Keeps app r → Keeps app (login_json salt r)
  login_json-Keeps salt (none, app') k = k
  login_json-Keeps salt (some h, app') k = record {
    requests = k.requests;
    language = k.language;
    page_same = k.page_same;
    page_kept = λ a e. k.page_kept h refl;
  }

  -- A second stage after a first one that had a result.
  Keeps-then :
      (app' : App) (r : Option Text × App)
      → app'.requests ≡ app.requests
      → app'.language ≡ app.language
      → app'.page ≡ app.page
      → Keeps app' r
      → Keeps app r
  Keeps-then app' r requests language page k = record {
    requests = k.requests ∙ requests;
    language = k.language ∙ language;
    page_same = Same-trans app.page app'.page r.1.page (Same-refl _ _ page) k.page_same;
    page_kept = λ a e. k.page_kept a e ∙ page;
  }

  second_round-Keeps :
      (world : World) (json : Json) (r : Option Text × App)
      → Keeps app r
      → Keeps app (second_round world json r)
  second_round-Keeps world json (none, app') k = k
  second_round-Keeps world json (some h, app') k =
      let salt2 = json_get_hex32 json (codes "login_sess") in
      login_json-Keeps salt2 _ (
        Keeps-then app' _ k.requests k.language (k.page_kept h refl)
          (hash_with-Keeps world login salt2 h app'))

-- `calc_passHash` sends nothing and keeps the language. When it has a body the page is as before,
-- and without one only texts of the page and the release of the button differ.
pub calc_pass_hash-Keeps :
    (world : World) (site : Site) (json : Json) (app : App)
    → Keeps app (calc_pass_hash world site json app)
unfolding calc_pass_hash
calc_pass_hash-Keeps world signup json app =
    let salt1 = json_get_hex32 json (codes "signup_sess") in
    signup_json-Keeps app salt1 _ (hash_with-Keeps world signup salt1 app.real_password app)
calc_pass_hash-Keeps world login json app =
    let salt1 = json_get_hex32 json (codes "login_salt") in
    second_round-Keeps app world json _ (hash_with-Keeps world login salt1 app.real_password app)
