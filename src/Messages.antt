-- ===== src/Messages.antt =====
-- signup_html/lang.js, env.js (of signup_html and login_html), and `getMessages` of utils.js: the
-- two sites and the texts of the three languages. The getters `title` and `submit_btn` of the
-- source are computed when the table is made, since `funcName` is a constant of each site.
use signup_daemon.Prelude.{codes, if◌then◌else◌}
use signup_daemon.Js.Strings.{Text, text_eq}

-- The two values of `funcName` that the repository sets.
pub data Site : Type 0 where
  signup login : Site

abbrev pub func_name : Site → Text
func_name signup = codes "signup"
func_name login = codes "login"

-- `funcSucceed`
abbrev pub func_succeed : Site → Text
func_succeed signup = codes "/ulogin/"
func_succeed login = codes ".."

pub record Messages : Type 0 where
  pub title : Text
  pub submit_btn : Text
  pub username_label : Text
  pub password_label : Text
  pub show_password_label : Text
  pub success : Text
  pub success2 : Text
  pub passwd_weak : Text
  pub passwd_medium : Text
  pub passwd_strong : Text
  pub error_status : Text
  pub invalid_username_format : Text
  pub invalid_username_length : Text
  pub invalid_password : Text
  pub password_too_short : Text
  pub invalid_password_chars : Text
  pub password_repeating_chars : Text
  pub password_sequence_chars : Text
  pub password_module_not_loaded : Text
  pub password_calc_failed : Text
  pub error_get_signup_session : Text
  pub too_more_tries : Text
  pub save_password_label : Text

-- `title_${funcName}`
abbrev title_of : Text → Text → Site → Text
title_of on_login on_signup login = on_login
title_of on_login on_signup signup = on_signup

abbrev pub en : Site → Messages
en site = record {
  title = title_of (codes "Login") (codes "Sign Up") site;
  submit_btn = title_of (codes "Login") (codes "Sign Up") site;
  username_label = codes "Username:";
  password_label = codes "Password: (Length: $length)";
  show_password_label = codes "Show Password";
  success = codes "Sign Up succeed. Wait 90s to login (200)";
  success2 = codes "Registration Successful. Waiting...";
  passwd_weak = codes "Weak";
  passwd_medium = codes "Medium";
  passwd_strong = codes "Strong";
  error_status = codes "Error $status:$extraCode";
  invalid_username_format =
      codes "Username must start with a letter, use only letters, numbers, hyphens, or underscores";
  invalid_username_length = codes "Username must be 8–20 characters";
  invalid_password = codes "Password processing failed";
  password_too_short = codes "Password must be at least 14 characters";
  invalid_password_chars = codes "Password must use only standard ASCII characters (space to })";
  password_repeating_chars = codes "Password must not contain the same character repeated 3 times";
  password_sequence_chars =
      codes "Password must not contain character sequences like abc, 123 or cba";
  password_module_not_loaded = codes "Password processing module not loaded";
  password_calc_failed = codes "Password processing failed";
  error_get_signup_session = codes "Network error, can't load signup_session";
  too_more_tries = codes "Too more tries. Please retry later.";
  save_password_label = codes "Allow browser to save password";
}

abbrev pub cn : Site → Messages
cn site = record {
  title = title_of (codes "登录") (codes "注册") site;
  submit_btn = title_of (codes "登录") (codes "注册") site;
  username_label = codes "用户名：";
  password_label = codes "密码：（长度：$length）";
  show_password_label = codes "显示密码";
  success = codes "注册成功，等待90秒登录 (200)";
  success2 = codes "注册成功。请稍候。";
  passwd_weak = codes "密码太弱";
  passwd_medium = codes "密码一般";
  passwd_strong = codes "密码很强";
  error_status = codes "错误 $status:$extraCode";
  invalid_username_format = codes "用户名必须以字母开头，仅限字母、数字、连字符或下划线";
  invalid_username_length = codes "用户名必须为8-20字符";
  invalid_password = codes "密码处理失败";
  password_too_short = codes "密码必须至少14个字符";
  invalid_password_chars = codes "密码只能使用标准ASCII字符（空格到}）";
  password_repeating_chars = codes "密码不能包含连续三个相同字符";
  password_sequence_chars = codes "网络错误，无法加载 signup_session";
  password_module_not_loaded = codes "密码处理模块未加载";
  password_calc_failed = codes "密码计算失败";
  error_get_signup_session = codes "Network error, can't load signup_session";
  too_more_tries = codes "尝试次数过多。请稍后重试。";
  save_password_label = codes "是否允许浏览器保存密码";
}

abbrev pub ca : Site → Messages
ca site = record {
  title = title_of (codes "登入") (codes "註冊") site;
  submit_btn = title_of (codes "登入") (codes "註冊") site;
  username_label = codes "用戶名：";
  password_label = codes "密碼：（長度：$length）";
  show_password_label = codes "顯示密碼";
  success = codes "註冊成功，等90秒登入 (200)";
  success2 = codes "註册成功。请稍候。";
  passwd_weak = codes "密碼太弱";
  passwd_medium = codes "密碼一般";
  passwd_strong = codes "密碼很強";
  error_status = codes "錯誤 $status:$extraCode";
  invalid_username_format = codes "用戶名必須以字母開頭，只限字母、數字、連字符或下劃線";
  invalid_username_length = codes "用戶名必須為8-20字";
  invalid_password = codes "密碼處理失敗";
  password_too_short = codes "密碼必須至少14個字";
  invalid_password_chars = codes "密碼只能使用標準ASCII字符（空格到}）";
  password_repeating_chars = codes "密碼不能包含連續三個相同字符";
  password_sequence_chars = codes "網路錯誤，無法載入 signup_sessio";
  password_module_not_loaded = codes "密碼處理模組未加載";
  password_calc_failed = codes "密碼計算失敗";
  error_get_signup_session = codes "Network error, can't load signup_session";
  too_more_tries = codes "嘗試次數過多。請稍後重試。";
  save_password_label = codes "是否允許瀏覽器儲存密碼";
}

-- `getMessages`: an unknown language falls back to English.
unfoldable pub get_messages : Text → Site → Messages
get_messages lang site =
    if text_eq lang (codes "en")
    then en site
    else if text_eq lang (codes "cn")
    then cn site
    else if text_eq lang (codes "ca")
    then ca site
    else en site
