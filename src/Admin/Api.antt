-- ===== src/Admin/Api.antt =====
-- The requests of admin_html/main.js and what they do to the page: `checkAdminPermissions`,
-- `initializeDashboard`, `handlePermissionError` and their chain in admin_html/index.html,
-- `checkModulePermission`, `fetchModuleData`, `submitModuleData`. `fetchWithTimeout` is seen through its outcome:
-- an answer, or an error, which an abort after the timeout is too.
pub mod Access
use signup_daemon.Prelude.{
  ℕ, ◌+◌, ◌^◌, ◌<◌, ◌≡◌, Bool, true, false, not, ◌||◌, Option, none, some, List, [], ◌∷◌, ◌++◌,
  ◌==◌, codes, if◌then◌else◌,
}
use signup_daemon.Js.Strings.{Text, decimal, to_string}
use signup_daemon.Js.Json.{Json, null, bool, num, real, str, arr, obj, get_field}
use signup_daemon.App.{is_ok}
use signup_daemon.Admin.{
  Location, Link, Permission, flag, has_permission, setup_navigation, show_dashboard_overview,
  ends_with,
}

-- What `await fetchWithTimeout(…)` comes to.
pub data Answer : Type 0 where
  -- an exception with this message
  error : Text → Answer
  -- status, status text, the body as a text and as JSON (`none`: the reading throws)
  answer :
      (status : ℕ) → (status_text : Text) → (body : Option Text) → (json : Option Json) → Answer

-- The result of a promise.
pub data Promise (A : Type 0) : Type 0 where
  resolved : A → Promise A
  failed : Text → Promise A

-- The conversions of the language that the pages apply to a member of the answer: `${…}`, and the
-- number that `&` reads. `unreadable` stands for the messages of the engine.
pub record Coercions : Type 0 where
  pub to_text : Option Json → Text
  pub to_number : Option Json → ℕ
  pub unreadable : Text

pub data Main : Type 0 where
  -- what index.html holds
  loading : Main
  overview : List (Text × Text) → Main
  denied : Text → Main

pub record Dashboard : Type 0 where
  -- `adminPermission`, `adminVersion`
  pub permission : Option Json
  pub version : Option Json
  pub status_text : Text
  pub status_visible : Bool
  pub error_text : Text
  pub error_visible : Bool
  pub nav : List Link
  pub nav_visible : Bool
  pub main : Main
  -- the assignments to `window.location.href`
  pub visited : List Text

-- `data.admin_permission` and `data.admin_ver`
pub record PermissionData : Type 0 where
  pub admin_permission : Option Json
  pub admin_ver : Option Json

-- The members of a parsed value; reading them of `null` throws.
abbrev pub read_data : Json → Option PermissionData
read_data null = none
read_data (obj members) = some (record {
  admin_permission = get_field (codes "admin_permission") members;
  admin_ver = get_field (codes "admin_ver") members;
})
read_data _ = some (record { admin_permission = none; admin_ver = none })

abbrev pub is_one : Option Json → Bool
is_one none = false
is_one (some (num n)) = n == 1
is_one (some _) = false

abbrev pub status_message : Text → ℕ → Text → Text
status_message what status status_text = what ++ decimal status ++ b' ' ∷ status_text

-- The query of `fetchModuleData`: a parameter that is `null` or `undefined` is left out.
pub query : List (Text × Option Text) → List (Text × Text)
query [] = []
query ((key, none) ∷ rest) = query rest
query ((key, some value) ∷ rest) = (key, value) ∷ query rest

-- The path ends with `index.html` or `/`.
abbrev pub on_index : Location → Bool
on_index location =
    ends_with location.pathname (codes "index.html") || ends_with location.pathname (codes "/")

module _ (c : Coercions) where
  open c use {to_text, to_number, unreadable}

  -- The version is validated before the globals are set.
  accept_data : Option PermissionData → Dashboard → Promise PermissionData × Dashboard
  accept_data none d = (failed unreadable, d)
  accept_data (some data') d =
      if not (is_one data'.admin_ver)
      then (failed (codes "Unsupported admin version: " ++ to_text data'.admin_ver), d)
      else (
        resolved data',
        record d { permission = data'.admin_permission; version = data'.admin_ver },
      )

  accept_json : Option Json → Dashboard → Promise PermissionData × Dashboard
  unfolding accept_data
  accept_json none d = (failed unreadable, d)
  accept_json (some json) d = accept_data (read_data json) d

  unfoldable pub check_admin_permissions : Answer → Dashboard → Promise PermissionData × Dashboard
  unfolding accept_json
  check_admin_permissions (error message) d = (failed message, d)
  check_admin_permissions (answer status status_text body json) d =
      if not (is_ok status)
      then (failed (status_message (codes "Failed to fetch permissions: ") status status_text), d)
      else accept_json json d

  -- The number that `hasPermission` reads.
  abbrev pub allowed : Dashboard → ℕ
  allowed d = to_number d.permission

  unfoldable pub initialize_dashboard : Location → PermissionData → Dashboard → Dashboard
  initialize_dashboard location data' d =
      let shown = record d {
        status_text =
            codes "Admin Level: "
            ++ to_text data'.admin_permission
            ++ codes " (v"
            ++ to_text data'.admin_ver
            ++ codes ")";
        nav = setup_navigation location (allowed d);
        nav_visible = true;
      } in
      if on_index location
      then record shown { main = overview (show_dashboard_overview (allowed d)) }
      else shown

  -- `showError` and what follows it in `handlePermissionError`
  unfoldable pub handle_permission_error : Text → Dashboard → Dashboard
  handle_permission_error message d = record d {
    error_text =
        codes "Permission error: "
        ++ message
        ++ codes ". Please contact your system administrator.";
    error_visible = true;
    status_visible = false;
    nav_visible = false;
    main = denied message;
  }

  -- The chain of index.html.
  abbrev pub settle : Location → Promise PermissionData × Dashboard → Dashboard
  settle location (resolved data', d) = initialize_dashboard location data' d
  settle location (failed message, d) = handle_permission_error message d

  unfoldable pub load_index : Location → Answer → Dashboard → Dashboard
  unfolding check_admin_permissions
  load_index location a d = settle location (check_admin_permissions a d)

  unfoldable pub check_module_permission : ℕ → Dashboard → Bool × Dashboard
  check_module_permission required d =
      if not (has_permission (allowed d) required)
      then (false, record d { visited = d.visited ++ codes "./" ∷ [] })
      else (true, d)

  abbrev parsed : Option Json → Promise Json
  parsed none = failed unreadable
  parsed (some json) = resolved json

  abbrev read_module : Answer → Promise Json
  read_module (error message) = failed message
  read_module (answer status status_text body json) =
      if not (is_ok status)
      then failed (status_message (codes "API error: ") status status_text)
      else parsed json

  -- `fetchModuleData`: what its promise comes to.
  unfoldable pub fetch_module_data :
      (List (Text × Text) → Answer) → List (Text × Option Text) → Promise Json
  unfolding query
  fetch_module_data fetch params = read_module (fetch (query params))

  abbrev refusal : ℕ → Text → Option Text → Promise Json
  refusal status status_text none = failed unreadable
  refusal status status_text (some text) =
      failed (status_message (codes "API error: ") status status_text ++ codes " - " ++ text)

  -- `submitModuleData`: what its promise comes to.
  unfoldable pub submit_module_data : Answer → Promise Json
  submit_module_data (error message) = failed message
  submit_module_data (answer status status_text body json) =
      if not (is_ok status) then refusal status status_text body else parsed json
