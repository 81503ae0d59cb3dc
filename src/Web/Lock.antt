-- ===== src/Web/Lock.antt =====
-- Who is let in after the password was set (internal/web/server.go).
use openqiara.Prelude.{
  ℕ, ◌≤◌, ◌≡◌, ap, ◌∙◌, Bool, true, false, ◌&&◌, Option, none, some, List, [], ◌∷◌, ltb, length,
  arith, refl, inl, inr, Bool-cases, Option-cases,
}
use openqiara.Config.Types.{Config}
use openqiara.Config.Login.{is_set, auth_enabled, check_password, same_bytes, hash_admin_password}
use openqiara.Config.Store.{Store, save, update}
use openqiara.Web.Keypad.{done}
use openqiara.Web.Admin.{admin_user, basic_auth, set_admin_password_hash, update_admin}

-- A hash is text, and it is accepted with the password that it was made from, and with no other of the 72 bytes
-- that bcrypt reads.
abbrev pub IsBcrypt : (List ℕ → Option (List ℕ)) → (List ℕ → List ℕ → Bool) → Type 0
IsBcrypt generate compare =
    (p h : List ℕ)
    → generate p ≡ some h
    → (is_set h ≡ true) × ((q : List ℕ) → length q ≤ 72 → compare h q ≡ same_bytes p q)

update_admin_done :
    (generate : List ℕ → Option (List ℕ)) (saves : Bool) (password : List ℕ) (s : Store)
    → (update_admin generate saves password s).1 ≡ done
    → (h : List ℕ) × (generate password ≡ some h)
      × ((update_admin generate saves password s).0.cfg.admin
          ≡ record { password_hash = h; password = [] })
unfolding update_admin set_admin_password_hash update save hash_admin_password
update_admin_done generate saves [] s taken = absurd (ground arith)
update_admin_done generate false (c ∷ cs) s taken = absurd (ground arith)
update_admin_done generate true (c ∷ cs) s taken = elim (Bool-cases (ltb (length (c ∷ cs)) 8)) [
  | inl short ↦ absurd (ground arith)
  | inr long ↦ elim (Option-cases (generate (c ∷ cs))) [
    | inl failed ↦ absurd (ground arith)
    | inr (h, made) ↦ (h, made, ground arith)
  ]
]

basic_auth-admin :
    (compare : List ℕ → List ℕ → Bool) (cfg : Config) (h user pass : List ℕ)
    → cfg.admin ≡ record { password_hash = h; password = [] }
    → is_set h ≡ true
    → (basic_auth compare cfg (record { options = true; credentials = none }) ≡ true)
      × (basic_auth compare cfg (record { options = false; credentials = none }) ≡ false)
      × (basic_auth compare cfg (record { options = false; credentials = some (user, pass) })
          ≡ (same_bytes user admin_user && compare h pass))
unfolding basic_auth auth_enabled check_password
basic_auth-admin compare cfg h user pass admin set =
    (rw (admin, set) refl, rw (admin, set) refl, rw (admin, set) refl)

-- Once a password is taken, a request is served just if it is one of OPTIONS, which browsers send first, or
-- gives the user admin and that password; what it gives has at most 72 bytes.
pub update_admin_locks :
    (generate : List ℕ → Option (List ℕ)) (compare : List ℕ → List ℕ → Bool)
    → (saves : Bool) (password user pass : List ℕ) (s : Store) → IsBcrypt generate compare
    → length pass ≤ 72
    → (update_admin generate saves password s).1 ≡ done
    → (basic_auth compare
          (update_admin generate saves password s).0.cfg
          (record { options = true; credentials = none })
        ≡ true)
      × (basic_auth compare
            (update_admin generate saves password s).0.cfg
            (record { options = false; credentials = none })
          ≡ false)
      × (basic_auth compare
            (update_admin generate saves password s).0.cfg
            (record { options = false; credentials = some (user, pass) })
          ≡ (same_bytes user admin_user && same_bytes password pass))
update_admin_locks generate compare saves password user pass s bcrypt short taken =
    let (h, made, admin) = update_admin_done generate saves password s taken in
    let (set, matches) = bcrypt password h made in
    let (options, anonymous, named) =
      basic_auth-admin compare (update_admin generate saves password s).0.cfg h user pass admin
        set in
    (options, anonymous, named ∙ ap (λ b. same_bytes user admin_user && b) (matches pass short))
