-- ===== src/Tests/Administration.antt =====
-- An administrator who may approve users and manage the list of addresses, on the index page.
use signup_daemon.Prelude.{ℕ, ◌≡◌, ◌≢◌, ◌↔◌, ◌⊎◌, true, false, Option, none, some, [], ◌∷◌, codes}
use signup_daemon.Js.Json.{Json, num, obj, no_fields, field}
use signup_daemon.Admin.{
  Location, approve_users, view_users, flag, has_permission, show_dashboard_overview,
}
use signup_daemon.Admin.Bits.{bit, position, has_permission_iff}
use signup_daemon.Admin.Navigation.{listed, url_of, show_dashboard_overview_iff}
use signup_daemon.Admin.Api.{Answer, answer, Coercions, loading, Dashboard, check_module_permission}
use signup_daemon.Admin.Api.Access.{check_module_permission-cases}

abbrev location : Location
location = record { href = codes "https://host/admin/"; pathname = codes "/admin/" }

abbrev number_of : Option Json → ℕ
number_of (some (num n)) = n
number_of _ = 0

abbrev coercions : Coercions
coercions = record {
  to_text = λ j. codes "1";
  to_number = number_of;
  unreadable = codes "SyntaxError";
}

abbrev dashboard : Dashboard
dashboard = record {
  permission = some (num 130);
  version = some (num 1);
  status_text = [];
  status_visible = true;
  error_text = [];
  error_visible = false;
  nav = [];
  nav_visible = false;
  main = loading;
  visited = [];
}

abbrev first_answer : Answer
first_answer = answer 200 (codes "OK") none (
    some (
      obj
        (field (codes "admin_permission") (num 130) (field (codes "admin_ver") (num 1) no_fields))))

has_permission-iff_example :
    (has_permission 130 (flag approve_users) ≡ true) ↔ (bit 130 (position approve_users) ≡ 1)
has_permission-iff_example = has_permission_iff 130 approve_users

show_dashboard_overview-iff_example :
    (listed (url_of approve_users) (show_dashboard_overview 130) ≡ true)
    ↔ (bit 130 (position approve_users) ≡ 1)
show_dashboard_overview-iff_example = show_dashboard_overview_iff 130 approve_users

check_module_permission-cases_example :
    ((bit 130 (position view_users) ≡ 1)
      × (check_module_permission coercions (flag view_users) dashboard ≡ (true, dashboard)))
    ⊎ ((bit 130 (position view_users) ≢ 1)
        × (check_module_permission coercions (flag view_users) dashboard
            ≡ (false, record dashboard { visited = codes "./" ∷ [] })))
check_module_permission-cases_example = check_module_permission-cases coercions view_users dashboard
