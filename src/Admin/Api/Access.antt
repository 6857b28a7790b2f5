-- ===== src/Admin/Api/Access.antt =====
-- Who gets in: the index page and the check of each module's page.
use signup_daemon.Prelude.{
  ℕ, ◌≡◌, ◌⊎◌, ◌≢◌, true, false, Option, some, [], ◌∷◌, ◌++◌, codes, Bool-cases, inl, inr,
}
use signup_daemon.Js.Strings.{Text}
use signup_daemon.Js.Json.{Json}
use signup_daemon.App.{is_ok}
use signup_daemon.Admin.{Location, Permission, flag, has_permission, setup_navigation}
use signup_daemon.Admin.Bits.{bit, position, has_permission_iff}
use signup_daemon.Admin.Api.{
  Answer, answer, Coercions, denied, Dashboard, PermissionData, read_data, is_one,
  check_module_permission,
}

-- The answer grants these permissions: it is a success, and its JSON has version 1.
pub record Grants (a : Answer) (data' : PermissionData) : Type 0 where
  pub status : ℕ
  pub status_text : Text
  pub body : Option Text
  pub json : Json
  pub shape : a ≡ answer status status_text body (some json)
  pub success : is_ok status ≡ true
  pub members : read_data json ≡ some data'
  pub version : is_one data'.admin_ver ≡ true

module _ (c : Coercions) (location : Location) where
  open c use {to_number}

  -- How the index page settles for an answer, from the state `d` to the state `d'`.
  pub data Settles (a : Answer) (d d' : Dashboard) : Type 0 where
    granted :
        (data' : PermissionData)
        → Grants a data'
        → d'.permission ≡ data'.admin_permission
        → d'.version ≡ data'.admin_ver
        → d'.nav ≡ setup_navigation location (to_number data'.admin_permission)
        → d'.nav_visible ≡ true
        → Settles a d d'
    refused :
        (message : Text)
        → d'.permission ≡ d.permission
        → d'.version ≡ d.version
        → d'.nav_visible ≡ false
        → d'.error_visible ≡ true
        → d'.main ≡ denied message
        → Settles a d d'

module _ (c : Coercions) (q : Permission) (d : Dashboard) where
  open c use {to_number}

  -- The check of a module's page lets an administrator pass, changing nothing, if the bit of the
  -- permission is set, and else sends the browser to the dashboard.
  pub check_module_permission-cases :
      ((bit (to_number d.permission) (position q) ≡ 1)
        × (check_module_permission c (flag q) d ≡ (true, d)))
      ⊎ ((bit (to_number d.permission) (position q) ≢ 1)
          × (check_module_permission c (flag q) d
              ≡ (false, record d { visited = d.visited ++ codes "./" ∷ [] })))
  unfolding check_module_permission
  check_module_permission-cases =
      elim (Bool-cases (has_permission (to_number d.permission) (flag q))) [
        | inl may ↦ inl ((has_permission_iff (to_number d.permission) q).0 may, rw may)
        | inr may_not ↦ inr (
          λ set. let clash = (has_permission_iff (to_number d.permission) q).1 set in cc,
          rw may_not,
        )
      ]
