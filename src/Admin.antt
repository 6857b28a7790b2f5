-- ===== src/Admin.antt =====
-- admin_html/main.js: the administrators' pages. Permissions are bits of a number; the pages read it
-- from the server and show the modules that it allows.
pub mod Bits
pub mod Navigation
pub mod Api
pub mod Pages
pub mod Requests
use signup_daemon.Prelude.{
  ℕ, zero, suc, ◌+◌, ◌-◌, ◌%◌, ◌^◌, min, max, Bool, true, false, ◌&&◌, ◌||◌, Option, none, some,
  List, [], ◌∷◌, ◌++◌, leb, ltb, ◌==◌, codes, if◌then◌else◌,
}
use Prim.Native.Nat.{bit_and}
use signup_daemon.Js.Strings.{Text, strip_prefix, text_eq, decimal}

-- `PERMISSION`
pub data Permission : Type 0 where
  view_users approve_users modify_basic_levels modify_advanced_levels delete_users reset_passwords :
      Permission
  view_audit_logs manage_whitelist create_admins modify_permissions view_statistics
        configure_limits :
      Permission

abbrev pub flag : Permission → ℕ
flag view_users = 1
flag approve_users = 2
flag modify_basic_levels = 4
flag modify_advanced_levels = 8
flag delete_users = 16
flag reset_passwords = 32
flag view_audit_logs = 64
flag manage_whitelist = 128
flag create_admins = 256
flag modify_permissions = 512
flag view_statistics = 1024
flag configure_limits = 2048

pub record NavItem : Type 0 where
  pub title : Text
  pub url : Text
  pub permission : Permission

abbrev nav_item : Text → Text → Permission → NavItem
nav_item title url permission = record { title = title; url = url; permission = permission }

-- `NAV_ITEMS`
abbrev pub nav_items : List NavItem
nav_items =
    nav_item (codes "User List") (codes "view_users.html") view_users
    ∷ nav_item (codes "Approve Users") (codes "approve_users.html") approve_users
    ∷ nav_item (codes "Modify Basic Levels") (codes "modify_basic_levels.html") modify_basic_levels
    ∷ nav_item (codes "Modify Advanced Levels") (codes "modify_advanced_levels.html")
        modify_advanced_levels
    ∷ nav_item (codes "Delete/Suspend Users") (codes "delete_users.html") delete_users
    ∷ nav_item (codes "Reset Passwords") (codes "reset_passwords.html") reset_passwords
    ∷ nav_item (codes "Audit Logs") (codes "view_audit_logs.html") view_audit_logs
    ∷ nav_item (codes "IP Whitelist") (codes "manage_whitelist.html") manage_whitelist
    ∷ nav_item (codes "Create Admin") (codes "create_admins.html") create_admins
    ∷ nav_item (codes "Modify Permissions") (codes "modify_permissions.html") modify_permissions
    ∷ nav_item (codes "System Statistics") (codes "view_statistics.html") view_statistics
    ∷ nav_item (codes "Rate Limits") (codes "configure_limits.html") configure_limits
    ∷ []

-- `(a & b) === b` for natural numbers: `&` works on 32 bits, and its result is negative if the
-- highest bit is set.
unfoldable pub has_permission : ℕ → ℕ → Bool
has_permission admin_permission permission_flag =
    let both = bit_and (admin_permission % 2 ^ 32) (permission_flag % 2 ^ 32) in
    ltb both (2 ^ 31) && both == permission_flag

-- `includes` and `endsWith` of a string
abbrev is_prefix : Text → Text → Bool
is_prefix p s = elim (strip_prefix p s) [ none ↦ false | some _ ↦ true ]

pub includes : Text → Text → Bool
includes [] part = is_prefix part []
includes (x ∷ s) part = is_prefix part (x ∷ s) || includes s part

pub ends_with : Text → Text → Bool
ends_with [] part = text_eq [] part
ends_with (x ∷ s) part = text_eq (x ∷ s) part || ends_with s part

-- `window.location.href` and `.pathname`
pub record Location : Type 0 where
  pub href : Text
  pub pathname : Text

-- A link of the navigation.
pub record Link : Type 0 where
  pub href : Text
  pub text : Text
  pub active : Bool

nav_link : Location → NavItem → Link
unfolding includes
nav_link location item = record {
  href = item.url;
  text = item.title;
  active = includes location.href item.url;
}

-- The loop over `NAV_ITEMS`.
nav_links : Location → ℕ → List NavItem → List Link
unfolding nav_link
nav_links location permission [] = []
nav_links location permission (item ∷ items) =
    let rest = nav_links location permission items in
    if has_permission permission (flag item.permission) then nav_link location item ∷ rest else rest

abbrev dashboard_link : Location → Link
dashboard_link location = record {
  href = codes "index.html";
  text = codes "Dashboard";
  active = ends_with location.href (codes "index.html") || ends_with location.pathname (codes "/");
}

-- `setupNavigation`: the children of `navList`.
unfoldable pub setup_navigation : Location → ℕ → List Link
unfolding nav_links ends_with
setup_navigation location permission =
    nav_links location permission nav_items ++ dashboard_link location ∷ []

overview_items : ℕ → List NavItem → List (Text × Text)
overview_items permission [] = []
overview_items permission (item ∷ items) =
    let rest = overview_items permission items in
    if has_permission permission (flag item.permission) then (item.url, item.title) ∷ rest else rest

-- `showDashboardOverview`: the addresses and titles of the list that it makes.
unfoldable pub show_dashboard_overview : ℕ → List (Text × Text)
unfolding overview_items
show_dashboard_overview permission = overview_items permission nav_items

-- A button of the pagination: what it shows, whether it works, and the page that it asks for.
pub record PageButton : Type 0 where
  pub text : Text
  pub disabled : Bool
  pub active : Bool
  pub target : ℕ

abbrev pub max_buttons : ℕ
max_buttons = 5

-- `Math.max(1, currentPage - Math.floor(maxButtons / 2))`
abbrev pub start_page : ℕ → ℕ
start_page current = max 1 (current - 2)

abbrev pub end_page : ℕ → ℕ → ℕ
end_page current total = min total (start_page current + max_buttons - 1)

page_button : ℕ → ℕ → PageButton
page_button current i = record {
  text = decimal i;
  disabled = false;
  active = i == current;
  target = i;
}

-- The loop from `i`, with the rounds that are left.
number_buttons : ℕ → ℕ → ℕ → List PageButton
unfolding page_button
number_buttons current zero i = []
number_buttons current (suc rounds) i =
    page_button current i ∷ number_buttons current rounds (i + 1)

abbrev previous_button : ℕ → PageButton
previous_button current = record {
  text = codes "← Previous";
  disabled = leb current 1;
  active = false;
  target = current - 1;
}

abbrev next_button : ℕ → ℕ → PageButton
next_button current total = record {
  text = codes "Next →";
  disabled = leb total current;
  active = false;
  target = current + 1;
}

-- `createPagination`. The target of the first button is negative at page 0, where it is disabled.
unfoldable pub create_pagination : ℕ → ℕ → List PageButton
unfolding number_buttons
create_pagination current total =
    previous_button current
      ∷ number_buttons current (end_page current total + 1 - start_page current)
          (start_page current)
    ++ next_button current total ∷ []
