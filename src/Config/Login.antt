-- ===== src/Config/Login.antt =====
-- The administrator's password, internal/config/config.go. The functions of bcrypt are parameters.
use openqiara.Prelude.{ℕ, Bool, true, false, ◌&&◌, Option, some, List, [], ◌∷◌, ◌==◌, if◌then◌else◌}
use openqiara.Config.Types.{AdminConfig}

abbrev pub is_set : List ℕ → Bool
is_set [] = false
is_set (c ∷ cs) = true

unfoldable pub auth_enabled : AdminConfig → Bool
auth_enabled a = if is_set a.password_hash then true else is_set a.password

-- `subtle.ConstantTimeCompare`, but for the time.
abbrev pub same_bytes : List ℕ → List ℕ → Bool
same_bytes [] [] = true
same_bytes [] (d ∷ ds) = false
same_bytes (c ∷ cs) [] = false
same_bytes (c ∷ cs) (d ∷ ds) = c == d && same_bytes cs ds

-- `compare` says whether `bcrypt.CompareHashAndPassword` has no error.
unfoldable pub check_password : (List ℕ → List ℕ → Bool) → AdminConfig → List ℕ → Bool
check_password compare a candidate =
    if is_set a.password_hash
    then compare a.password_hash candidate
    else if is_set a.password
    then same_bytes a.password candidate
    else false

-- `generate` is `bcrypt.GenerateFromPassword`, `none` for an error.
unfoldable pub hash_admin_password : (List ℕ → Option (List ℕ)) → List ℕ → Option (List ℕ)
hash_admin_password generate [] = some []
hash_admin_password generate (c ∷ cs) = generate (c ∷ cs)
