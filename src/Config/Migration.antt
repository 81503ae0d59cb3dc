-- ===== src/Config/Migration.antt =====
-- What the loading of an older configuration keeps (internal/config/config.go).
use openqiara.Prelude.{
  ℕ, ◌≡◌, Bool, true, false, ◌&&◌, not, Option, none, some, List, [], ◌∷◌, map, ◌==◌, arith, refl,
  sym, ap, ◌∙◌, inl, inr, Bool-cases, Option-cases,
}
use openqiara.Config.Types.{AdminConfig, Config, RadioNode, SensorEntry}
use openqiara.Config.Store.{Store}
use openqiara.Config.Login.{is_set, auth_enabled, same_bytes, check_password, hash_admin_password}
use openqiara.Config.Load.{
  LegacyNight, LegacyCode, parsed, set_night, set_code, no_codes, migrate_night_alarm,
  migrate_kpd_code, migrate, migrate_admin, load,
}
use mathlib.Core.Path.{subst}

same_bytes-eq : (p q : List ℕ) → same_bytes p q ≡ true → p ≡ q
same_bytes-eq [] [] h = refl
same_bytes-eq [] (d ∷ ds) h = absurd cc
same_bytes-eq (c ∷ cs) [] h = absurd cc
same_bytes-eq (c ∷ cs) (d ∷ ds) h =
    let e : c ≡ d = ground arith in rw e (ap (λ ps. d ∷ ps) (same_bytes-eq cs ds (ground arith)))

-- What the migrations leave of a sensor.
abbrev pub Place : Type 0
Place = ℕ × RadioNode

abbrev pub place : SensorEntry → Place
place se = (se.id, se.radio)

set_night-place :
    (id : ℕ) (flag : Bool) (ses : List SensorEntry)
    → map place (set_night id flag ses) ≡ map place ses
unfolding set_night
set_night-place id flag [] = refl
set_night-place id flag (se ∷ ses) = elim (Bool-cases (se.id == id)) [
  | inl e ↦ rw e (ap (λ ps. place se ∷ ps) (set_night-place id flag ses))
  | inr e ↦ rw e (ap (λ ps. place se ∷ ps) (set_night-place id flag ses))
]

set_code-place :
    (l : LegacyCode) (ses : List SensorEntry) → map place (set_code l ses) ≡ map place ses
unfolding set_code
set_code-place l [] = refl
set_code-place l (se ∷ ses) = elim (Bool-cases (se.id == l.id && no_codes se.kpd_codes)) [
  | inl e ↦ rw e (ap (λ ps. place se ∷ ps) (set_code-place l ses))
  | inr e ↦ rw e (ap (λ ps. place se ∷ ps) (set_code-place l ses))
]

migrate_night_alarm-place :
    (ls : List LegacyNight) (ses : List SensorEntry)
    → map place (migrate_night_alarm ls ses) ≡ map place ses
unfolding migrate_night_alarm
migrate_night_alarm-place [] ses = refl
migrate_night_alarm-place (l ∷ ls) ses = elim (Option-cases l.night_alarm) [
  | inl e ↦ rw e (migrate_night_alarm-place ls ses)
  | inr (flag, e) ↦
      rw e (migrate_night_alarm-place ls (set_night l.id flag ses) ∙ set_night-place l.id flag ses)
]

migrate_kpd_code-place :
    (ls : List LegacyCode) (ses : List SensorEntry)
    → map place (migrate_kpd_code ls ses) ≡ map place ses
unfolding migrate_kpd_code
migrate_kpd_code-place [] ses = refl
migrate_kpd_code-place (l ∷ ls) ses = elim (Bool-cases (is_set l.code)) [
  | inl e ↦ rw e (migrate_kpd_code-place ls (set_code l ses) ∙ set_code-place l ses)
  | inr e ↦ rw e (migrate_kpd_code-place ls ses)
]

module _ (generate : List ℕ → Option (List ℕ)) (compare : List ℕ → List ℕ → Bool) where
  is_set-some :
      (a : AdminConfig) (hash : List ℕ)
      → is_set a.password ≡ true
      → hash_admin_password generate a.password ≡ some hash
      → generate a.password ≡ some hash
  unfolding hash_admin_password
  is_set-some a hash s e = go a.password s e
    where
      go :
          (p : List ℕ)
          → is_set p ≡ true
          → hash_admin_password generate p ≡ some hash
          → generate p ≡ some hash
      go [] s e = absurd cc
      go (c ∷ cs) s e = e

  -- The password of an older file that is clear text is accepted after it is hashed.
  hashed_accepts :
      (a : AdminConfig) (hash candidate : List ℕ)
      → generate a.password ≡ some hash
      → is_set a.password ≡ true
      → is_set a.password_hash ≡ false
      → ((p h : List ℕ) → generate p ≡ some h → (compare h p ≡ true) × (is_set h ≡ true))
      → check_password compare a candidate ≡ true
      → (check_password compare (record { password_hash = hash; password = [] }) candidate ≡ true)
        × (auth_enabled (record { password_hash = hash; password = [] }) ≡ auth_enabled a)
  unfolding check_password auth_enabled
  hashed_accepts a hash candidate g s u bcrypt h =
      let (accepts, full) = bcrypt a.password hash g in
      let same : same_bytes a.password candidate ≡ true = rw (sym h, check_password, u, s) refl in
      (
        rw (full, check_password)
            (subst (λ p. compare hash p ≡ true) (same_bytes-eq a.password candidate same) accepts),
        rw (full, u, s, auth_enabled) refl,
      )

  migrate_admin_accepts :
      (a : AdminConfig) (candidate : List ℕ)
      → ((p h : List ℕ) → generate p ≡ some h → (compare h p ≡ true) × (is_set h ≡ true))
      → check_password compare a candidate ≡ true
      → (check_password compare (migrate_admin generate a) candidate ≡ true)
        × (auth_enabled (migrate_admin generate a) ≡ auth_enabled a)
  unfolding migrate_admin
  migrate_admin_accepts a candidate bcrypt h =
      elim (Bool-cases (is_set a.password && not (is_set a.password_hash))) [
        | inr e ↦ rw (e, migrate_admin) (h, refl)
        | inl e ↦ elim (Option-cases (hash_admin_password generate a.password)) [
          | inl f ↦ rw (e, migrate_admin) (rw f (h, refl))
          | inr (hash, f) ↦
              let s : is_set a.password ≡ true = ground arith in
              let u : is_set a.password_hash ≡ false = ground arith in
              rw (e, migrate_admin)
                (rw f (hashed_accepts a hash candidate (is_set-some a hash s f) s u bcrypt h))
        ]
      ]

-- A password that the file's configuration accepts is accepted once it is loaded, and one is asked for just
-- as before, if a hash that bcrypt makes is not empty and matches its password; no sensor loses or changes
-- its id, its address or its system index.
pub load_keeps_login :
    (generate : List ℕ → Option (List ℕ)) (compare : List ℕ → List ℕ → Bool) (cfg : Config)
    (nights : Option (List LegacyNight)) (codes : Option (List LegacyCode)) (s : Store)
    (candidate : List ℕ)
    → ((p h : List ℕ) → generate p ≡ some h → (compare h p ≡ true) × (is_set h ≡ true))
    → check_password compare cfg.admin candidate ≡ true
    → let cfg' = (load generate (parsed cfg nights codes) s).0.cfg in
      (check_password compare cfg'.admin candidate ≡ true)
      × (auth_enabled cfg'.admin ≡ auth_enabled cfg.admin)
      × (map place cfg'.sensors ≡ map place cfg.sensors)
unfolding load
load_keeps_login generate compare cfg nights codes s candidate bcrypt h =
    let (accepts, asks) = migrate_admin_accepts generate compare cfg.admin candidate bcrypt h in
    (accepts, asks, places nights codes)
  where
    first :
        (nights : Option (List LegacyNight))
        → map place (migrate migrate_night_alarm nights cfg.sensors) ≡ map place cfg.sensors
    first none = refl
    first (some ls) = migrate_night_alarm-place ls cfg.sensors

    places :
        (nights : Option (List LegacyNight)) (codes : Option (List LegacyCode))
        → map place
            (migrate migrate_kpd_code codes (migrate migrate_night_alarm nights cfg.sensors))
          ≡ map place cfg.sensors
    places nights none = first nights
    places nights (some ls) =
        migrate_kpd_code-place ls (migrate migrate_night_alarm nights cfg.sensors) ∙ first nights
