-- ===== src/Daemon.antt =====
-- src/http_server_main_loop.c and the constants of src/common.h: the kinds of request that the C
-- daemon serves. A C string is the list of its bytes; `NULL` is `none`.
pub mod Guards
pub mod Names
pub mod Request
pub mod Accepts
pub mod Hash
pub mod Agrees
pub mod Login
pub mod Cookies
pub mod RequestLine
pub mod Redis
pub mod Handler
pub mod Store
pub mod Accounts
pub mod Server
pub mod Response
use signup_daemon.Prelude.{ℕ, codes}
use signup_daemon.Js.Strings.{Text}

-- `postType_0signup_1login_2_admin`
pub data Kind : Type 0 where
  signup login admin : Kind

-- `postReqAhead`
abbrev pub post_type_str : Kind → Text
post_type_str signup = codes "signup"
post_type_str login = codes "login"
post_type_str admin = codes "admin"

-- `DbIdx_ipCount`
abbrev pub db_idx_ip_count : Kind → ℕ
db_idx_ip_count signup = 5
db_idx_ip_count login = 1
db_idx_ip_count admin = 12

-- `DatabaseIdx_salt_Login`
abbrev pub database_idx_salt_login : ℕ
database_idx_salt_login = 0
