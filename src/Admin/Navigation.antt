-- ===== src/Admin/Navigation.antt =====
-- Which modules the navigation and the overview show.
use signup_daemon.Prelude.{
  ℕ, ◌≡◌, ◌↔◌, refl, ◌∙◌, ap, Bool, true, false, ◌&&◌, ◌||◌, List, [], ◌∷◌, ◌++◌, map, codes,
  Bool-cases, inl, inr, arith,
}
use mathlib.Core.List.{map-append}
use signup_daemon.Js.Strings.{Text, text_eq}
use signup_daemon.Admin.{
  view_users, approve_users, modify_basic_levels, modify_advanced_levels, delete_users,
  reset_passwords, view_audit_logs, manage_whitelist, create_admins, modify_permissions,
  view_statistics, configure_limits, Permission, flag, NavItem, nav_items, has_permission, Location,
  Link, nav_links, setup_navigation, overview_items, show_dashboard_overview,
}
use signup_daemon.Admin.Bits.{bit, position, has_permission_iff}

abbrev pub entry : Link → Text × Text
entry link = (link.href, link.text)

nav_links-overview :
    (location : Location) (p : ℕ) (items : List NavItem)
    → map entry (nav_links location p items) ≡ overview_items p items
unfolding nav_links overview_items
nav_links-overview location p [] = refl
nav_links-overview location p (item ∷ items) =
    elim (Bool-cases (has_permission p (flag item.permission))) [
      | inl yes' ↦
          rw yes' (ap (λ es. (item.url, item.title) ∷ es) (nav_links-overview location p items))
      | inr no' ↦ rw no' (nav_links-overview location p items)
    ]

-- On every page the navigation links to the modules that the overview lists, in the same order, and
-- then to the dashboard.
setup_navigation-overview :
    (location : Location) (p : ℕ)
    → map entry (setup_navigation location p)
      ≡ show_dashboard_overview p ++ (codes "index.html", codes "Dashboard") ∷ []
unfolding setup_navigation show_dashboard_overview
setup_navigation-overview location p =
    map-append _ _ _
    ∙ ap (λ es. es ++ (codes "index.html", codes "Dashboard") ∷ [])
        (nav_links-overview location p nav_items)

-- Whether an address is listed.
abbrev pub listed : Text → List (Text × Text) → Bool
listed url [] = false
listed url ((u, t) ∷ es) = text_eq u url || listed url es

abbrev granted : Text → ℕ → List NavItem → Bool
granted url p [] = false
granted url p (item ∷ items) =
    (text_eq item.url url && has_permission p (flag item.permission)) || granted url p items

listed-granted :
    (url : Text) (p : ℕ) (items : List NavItem)
    → listed url (overview_items p items) ≡ granted url p items
unfolding overview_items
listed-granted url p [] = refl
listed-granted url p (item ∷ items) = ground (arith, listed-granted url p items)

-- The address of the module for a permission.
abbrev pub url_of : Permission → Text
url_of view_users = codes "view_users.html"
url_of approve_users = codes "approve_users.html"
url_of modify_basic_levels = codes "modify_basic_levels.html"
url_of modify_advanced_levels = codes "modify_advanced_levels.html"
url_of delete_users = codes "delete_users.html"
url_of reset_passwords = codes "reset_passwords.html"
url_of view_audit_logs = codes "view_audit_logs.html"
url_of manage_whitelist = codes "manage_whitelist.html"
url_of create_admins = codes "create_admins.html"
url_of modify_permissions = codes "modify_permissions.html"
url_of view_statistics = codes "view_statistics.html"
url_of configure_limits = codes "configure_limits.html"

-- A module is listed in the overview exactly if the administrator's number has the bit of its
-- permission.
pub show_dashboard_overview_iff :
    (p : ℕ) (q : Permission)
    → (listed (url_of q) (show_dashboard_overview p) ≡ true) ↔ (bit p (position q) ≡ 1)
unfolding show_dashboard_overview
show_dashboard_overview_iff p q =
    rw (listed-granted (url_of q) p nav_items, only q) (has_permission_iff p q)
  where
    only : (q : Permission) → granted (url_of q) p nav_items ≡ has_permission p (flag q)
    only view_users = ground arith
    only approve_users = ground arith
    only modify_basic_levels = ground arith
    only modify_advanced_levels = ground arith
    only delete_users = ground arith
    only reset_passwords = ground arith
    only view_audit_logs = ground arith
    only manage_whitelist = ground arith
    only create_admins = ground arith
    only modify_permissions = ground arith
    only view_statistics = ground arith
    only configure_limits = ground arith
