-- ===== src/Web/Admin.antt =====
-- The administrator's password and who is let in, internal/web/server.go. The functions of bcrypt are
-- parameters.
use openqiara.Prelude.{
  ℕ, Bool, true, false, ◌&&◌, not, Option, none, some, List, [], ◌∷◌, ltb, length, if◌then◌else◌,
}
use openqiara.Config.Types.{Config}
use openqiara.Config.Login.{auth_enabled, check_password, same_bytes, hash_admin_password}
use openqiara.Config.Store.{Store, update}
use openqiara.Web.Keypad.{Answer, done, bad_request, server_error}

-- What `basicAuth` reads of a request: whether its method is OPTIONS, and its user and password.
pub record Request : Type 0 where
  pub options : Bool
  pub credentials : Option (List ℕ × List ℕ)

abbrev pub admin_user : List ℕ
admin_user = b'a' ∷ b'd' ∷ b'm' ∷ b'i' ∷ b'n' ∷ []

abbrev pub min_admin_password_len : ℕ
min_admin_password_len = 8

-- `basicAuth`, true if the request is served.
unfoldable pub basic_auth : (List ℕ → List ℕ → Bool) → Config → Request → Bool
basic_auth compare cfg r =
    if not (auth_enabled cfg.admin) then true else if r.options then true else elim r.credentials [
      | none ↦ false
      | some (user, pass) ↦ same_bytes user admin_user && check_password compare cfg.admin pass
    ]

unfoldable pub set_admin_password_hash : Bool → List ℕ → Store → Store × Answer
set_admin_password_hash saves hash s =
    let (s', saved) =
      update saves (λ cfg. record cfg { admin = record { password_hash = hash; password = [] } })
        s in
    if saved then (s', done) else (s', server_error)

-- `handleUpdateAdmin` of a password that can be read.
unfoldable pub update_admin : (List ℕ → Option (List ℕ)) → Bool → List ℕ → Store → Store × Answer
unfolding set_admin_password_hash
update_admin generate saves password s =
    if ltb (length password) min_admin_password_len
    then (s, bad_request)
    else elim (hash_admin_password generate password) [
      | none ↦ (s, server_error)
      | some hash ↦ set_admin_password_hash saves hash s
    ]

unfoldable pub delete_admin : Bool → Store → Store × Answer
unfolding set_admin_password_hash
delete_admin saves s = set_admin_password_hash saves [] s
