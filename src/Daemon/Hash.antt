-- ===== src/Daemon/Hash.antt =====
-- src/calc_hash_passwd_argon.c and src/calc_hash_for_login.c: the hash that the daemon expects at a
-- login. Argon2 and SHA-256 are functions of libraries; the checks for `NULL` are left out, since
-- the arguments here are texts.
use signup_daemon.Prelude.{
  ℕ, Bool, not, Option, none, some, List, [], ◌∷◌, ◌++◌, if◌then◌else◌, take,
}
use signup_daemon.Js.Strings.{Text, text_eq, to_string, pad_start}

-- `argon2id_hash_raw`: the passes, the memory, the lanes, the message, the salt and the length of
-- the hash; `none` is a result that is not `ARGON2_OK`. `SHA256`: the bytes of the digest.
pub record Crypto : Type 0 where
  pub argon2id_hash_raw : ℕ → ℕ → ℕ → List ℕ → List ℕ → ℕ → Option (List ℕ)
  pub sha256_bytes : List ℕ → List ℕ

-- `snprintf(…, 3, "%02x", b)` for each byte
unfoldable pub to_hex : List ℕ → Text
unfolding to_string
to_hex [] = []
to_hex (b ∷ bs) = pad_start 2 b'0' (to_string 16 b) ++ to_hex bs

-- From the result of Argon2 on.
abbrev hash_result : Crypto → Option (List ℕ) → Option Text
hash_result crypto none = none
hash_result crypto (some hash_bytes) = some (to_hex (crypto.sha256_bytes (to_hex hash_bytes)))

-- `compute_signup_hash2`: what it leaves in `rtBuf`; `none` is the code 242011.
unfoldable pub compute_signup_hash2 : Crypto → Text → Text → Option Text
unfolding to_hex
compute_signup_hash2 crypto input salt =
    hash_result crypto (crypto.argon2id_hash_raw 2 131072 2 input salt 32)

-- `snprintf(…, inputBufLen-1, "%.32s:%s:%.64s", …)`, which writes at most 254 characters
abbrev pub argon_input_for_login : Text → Text → Text → Text
argon_input_for_login login_sess username storage_hash =
    take 254 (take 32 login_sess ++ b':' ∷ username ++ b':' ∷ take 64 storage_hash)

-- `strncmp(a, b, n) == 0` on strings without the character 0
abbrev pub same_start : ℕ → Text → Text → Bool
same_start n a b = text_eq (take n a) (take n b)

abbrev pub compare_hash : Text → Option Text → ℕ
compare_hash trying_hash none = 242011
compare_hash trying_hash (some hash) = if not (same_start 64 hash trying_hash) then 242041 else 0

-- `calc_hash_for_login`: the code that is returned
unfoldable pub calc_hash_for_login : Crypto → Text → Text → Text → Text → ℕ
unfolding compute_signup_hash2
calc_hash_for_login crypto username login_sess storage_hash trying_hash = compare_hash trying_hash (
    compute_signup_hash2 crypto (argon_input_for_login login_sess username storage_hash) login_sess)
