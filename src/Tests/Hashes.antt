-- ===== src/Tests/Hashes.antt =====
-- The hashes of the examples.
use signup_daemon.Prelude.{
  ◌≡◌, ◌↔◌, refl, true, some, [], ◌∷◌, codes, arith, replicate, length, none,
}
use signup_daemon.Js.Strings.{Text}
use signup_daemon.Js.Json.{Fields, obj}
use signup_daemon.Messages.{login}
use signup_daemon.Argon2.{Heap, argon2_calc}
use signup_daemon.Argon2.Calc.{
  Returns, argon2_value, argon2_calc-live, argon2_calc-value, argon2_calc-IsHex,
}
use signup_daemon.App.{World}
use signup_daemon.PassHash.{argon_input, pass_json, json_get_hex_len, calc_pass_hash}
use signup_daemon.PassHash.Hex.{IsHex}
use signup_daemon.PassHash.Hash.{IsDigest}
use signup_daemon.PassHash.Session.{Holds, json_get_hex_len_iff}
use signup_daemon.PassHash.Bodies.{IsReady, password_hash, calc_pass_hash-login}
use signup_daemon.Tests.{
  secret, sess, old_salt, signup_members, login_members, counting_wasm, world, app,
}

digest_32 : (members : Fields) → IsDigest (world members).digest
digest_32 members bs = (replicate 32 7, refl, refl, refl)

pub world-IsReady : (members : Fields) → IsReady (world members)
unfolding argon2_value
world-IsReady members = record {
  argon2_there = refl;
  digest_ok = digest_32 members;
  argon2_ok = λ salt message long. (_, refl);
}

pub signup_sess-Holds : Holds (obj signup_members) (codes "signup_sess") 32 sess
signup_sess-Holds = record {
  members = signup_members;
  is_object = refl;
  version = refl;
  member = refl;
  hex = record { size = refl; digits = refl };
}

pub login_salt-Holds : Holds (obj login_members) (codes "login_salt") 32 old_salt
login_salt-Holds = record {
  members = login_members;
  is_object = refl;
  version = refl;
  member = refl;
  hex = record { size = refl; digits = refl };
}

pub login_sess-Holds : Holds (obj login_members) (codes "login_sess") 32 sess
login_sess-Holds = record {
  members = login_members;
  is_object = refl;
  version = refl;
  member = refl;
  hex = record { size = refl; digits = refl };
}

json_get_hex_len-iff_example :
    (json_get_hex_len (obj signup_members) (codes "signup_sess") 32 ≡ some sess)
    ↔ Holds (obj signup_members) (codes "signup_sess") 32 sess
json_get_hex_len-iff_example =
    json_get_hex_len_iff (obj signup_members) (codes "signup_sess") 32 sess (omega arith)

abbrev w : World
w = world signup_members

calc_pass_hash-login_example :
    (h1 h2 : Text) × (heap : Heap) × (password_hash
        (world login_members)
        old_salt
        (argon_input (some old_salt) [] secret)
      ≡ some h1)
    × (password_hash (world login_members) sess (argon_input (some sess) [] h1) ≡ some h2)
    × IsHex 64 h2
    × (calc_pass_hash (world login_members) login (obj login_members) app ≡ (
      some (pass_json (codes "login_salt") (some sess) [] h2),
      record app { argon2_salt = some sess; heap = heap },
    ))
calc_pass_hash-login_example =
    calc_pass_hash-login (world login_members) (world-IsReady login_members) (obj login_members) app
      refl login_salt-Holds login_sess-Holds

secret-Returns : Returns counting_wasm sess secret
secret-Returns = record {
  password_block = refl;
  salt_block = refl;
  hash_block = refl;
  encoded_block = refl;
  code = 0;
  cells = λ i. i;
  returns = refl;
}

-- A module whose function throws: the four blocks of the call are left on the heap.
throws_leaks :
    (argon2_calc
      (record counting_wasm { hash_ext = λ config password salt version. none })
      true
      (some sess)
      secret
      (record { live = []; next = 0 })).1.live
    ≡ (3, 101) ∷ (2, 32) ∷ (1, 32) ∷ (0, length secret) ∷ []
unfolding argon2_calc signup_daemon.Js.Utf8.encode_point
throws_leaks = refl

argon2_calc-live_example :
    (argon2_calc counting_wasm true
      (some sess)
      secret
      (record { live = (3, 5) ∷ []; next = 8 })).1.live
    ≡ (3, 5) ∷ []
argon2_calc-live_example =
    argon2_calc-live counting_wasm true (some sess) secret (record { live = (3, 5) ∷ []; next = 8 })
      secret-Returns

argon2_calc-value_example :
    (argon2_calc counting_wasm true (some sess) secret app.heap).0
    ≡ argon2_value counting_wasm sess secret
argon2_calc-value_example = argon2_calc-value counting_wasm sess secret app.heap

argon2_calc-IsHex_example :
    IsHex 64 (codes "000102030405060708090a0b0c0d0e0f101112131415161718191a1b1c1d1e1f")
unfolding argon2_calc
argon2_calc-IsHex_example = argon2_calc-IsHex counting_wasm true (some sess) secret app.heap refl
