-- ===== src/Web/Tests.antt =====
-- The web server at concrete inputs (internal/web/server.go): a keypad that gets two codes, and a password.
use openqiara.Prelude.{
  ℕ, ◌≤◌, ◌≡◌, ◌≢◌, Bool, true, false, Option, none, some, List, [], ◌∷◌, map, length, arith, refl,
  sym,
}
use openqiara.Config.Types.{KpdCode}
use openqiara.Config.Load.{default_config}
use openqiara.Config.Login.{same_bytes, auth_enabled, hash_admin_password}
use openqiara.Config.Store.{Store, update, save}
use openqiara.Radio.Types.{NodeInfo, Engine, kpd}
use openqiara.Radio.Engine.{set_node}
use openqiara.Web.Keypad.{done, validate_kpd_codes}
use openqiara.Web.Codes.{password_of, kpd_codes_served}
use openqiara.Web.Admin.{admin_user, basic_auth, update_admin, delete_admin}
use openqiara.Web.Lock.{IsBcrypt, update_admin_locks}

abbrev first : KpdCode
first = record { password = b'1' ∷ b'2' ∷ b'3' ∷ b'4' ∷ []; label = "home" }

abbrev second : KpdCode
second = record { password = b'0' ∷ b'0' ∷ b'7' ∷ b'0' ∷ []; label = "" }

abbrev engine : Engine
engine = record { gateway = 1; counter = 0; alarm_siren = 0; nodes = []; sent = λ c. none }

abbrev keypad : NodeInfo
keypad = record {
  addr = 5;
  model = kpd;
  system_index = 2;
  pins = map password_of (first ∷ second ∷ []);
}

taken : validate_kpd_codes (λ s. s) (first ∷ second ∷ []) ≡ some (first ∷ second ∷ [])
unfolding validate_kpd_codes
taken = refl

kpd_codes_served_example :
    (length (first ∷ second ∷ []) ≤ 10)
    × (map password_of (first ∷ second ∷ []) ≡ map password_of (first ∷ second ∷ []))
    × (set_node engine keypad ≢ none)
kpd_codes_served_example =
    kpd_codes_served (λ s. s) (first ∷ second ∷ []) (first ∷ second ∷ []) engine keypad taken refl

-- The same code twice is refused.
test_twice : validate_kpd_codes (λ s. s) (first ∷ first ∷ []) ≡ none
unfolding validate_kpd_codes
test_twice = refl

-- A hash that keeps the password behind a mark.
abbrev generate : List ℕ → Option (List ℕ)
generate p = some (b'$' ∷ p)

abbrev compare : List ℕ → List ℕ → Bool
compare [] q = false
compare (c ∷ p) q = same_bytes p q

generate-IsBcrypt : IsBcrypt generate compare
generate-IsBcrypt p h made =
    let shape : b'$' ∷ p ≡ h = ground arith in (rw (sym shape) refl, λ q short. rw (sym shape) refl)

abbrev store : Store
store = record { cfg = default_config; file = none }

abbrev secret : List ℕ
secret = b'o' ∷ b'p' ∷ b'e' ∷ b'n' ∷ b'-' ∷ b'n' ∷ b'o' ∷ b'w' ∷ []

secret_taken : (update_admin generate true secret store).1 ≡ done
unfolding update_admin update save hash_admin_password
secret_taken = refl

update_admin_locks_example :
    (basic_auth compare
        (update_admin generate true secret store).0.cfg
        (record { options = true; credentials = none })
      ≡ true)
    × (basic_auth compare
          (update_admin generate true secret store).0.cfg
          (record { options = false; credentials = none })
        ≡ false)
    × (basic_auth compare
          (update_admin generate true secret store).0.cfg
          (record { options = false; credentials = some (admin_user, secret) })
        ≡ true)
update_admin_locks_example =
    update_admin_locks generate compare true secret admin_user secret store generate-IsBcrypt
      (omega arith) secret_taken

-- A password of seven bytes is refused, and the store stays.
test_short : (update_admin generate true (b'1' ∷ []) store).0 ≡ store
unfolding update_admin
test_short = refl

-- Without a password everybody is let in.
test_open :
    basic_auth compare
      (delete_admin true store).0.cfg
      (record { options = false; credentials = none })
    ≡ true
unfolding delete_admin update save basic_auth auth_enabled
test_open = refl
