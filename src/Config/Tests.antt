-- ===== src/Config/Tests.antt =====
-- The loading of an older configuration: a password in clear text, a keypad with one code, and a sensor that
-- is left out at night. A hash stands for bcrypt's here.
use openqiara.Prelude.{
  ℕ, ◌≡◌, Bool, true, false, Option, some, none, List, [], ◌∷◌, map, refl, arith,
}
use openqiara.Config.Types.{Config, SensorEntry}
use openqiara.Config.Store.{Store}
use openqiara.Radio.Types.{pos}
use openqiara.Config.Login.{is_set, auth_enabled, same_bytes, check_password}
use openqiara.Config.Load.{default_config, LegacyNight, LegacyCode, parsed, load}
use openqiara.Config.Migration.{place, load_keeps_login}
use mathlib.Core.Path.{subst}

abbrev generate : List ℕ → Option (List ℕ)
generate p = some (b'$' ∷ p)

abbrev compare_hash : List ℕ → List ℕ → Bool
compare_hash h p = same_bytes h (b'$' ∷ p)

abbrev sensor : SensorEntry
sensor = record {
  id = 4;
  type = "KPD";
  model = "";
  label = "";
  night_allowed = false;
  instant = false;
  kpd_codes = [];
  radio = record { addr = 7; uid = b'a' ∷ []; system_index = 2 };
  battery = pos 100;
  temperature = none;
}

abbrev older : Config
older = record default_config {
  admin = record { password_hash = []; password = b'p' ∷ b'w' ∷ [] };
  sensors = sensor ∷ [];
}

abbrev nights : Option (List LegacyNight)
nights = some (record { id = 4; night_alarm = some false } ∷ [])

abbrev codes : Option (List LegacyCode)
codes = some (record { id = 4; code = b'1' ∷ b'2' ∷ []; label = "" } ∷ [])

abbrev fresh : Store
fresh = record { cfg = default_config; file = none }

loaded_admin :
    (load generate (parsed older nights codes) fresh).0.cfg.admin
    ≡ record { password_hash = b'$' ∷ b'p' ∷ b'w' ∷ []; password = [] }
unfolding load
loaded_admin = refl

loaded_night :
    map (λ se. se.night_allowed) (load generate (parsed older nights codes) fresh).0.cfg.sensors
    ≡ true ∷ []
unfolding load
loaded_night = refl

same_bytes_refl : (p : List ℕ) → same_bytes p p ≡ true
same_bytes_refl [] = refl
same_bytes_refl (c ∷ cs) = ground (arith, same_bytes_refl cs)

hash_accepts : (p h : List ℕ) → generate p ≡ some h → (compare_hash h p ≡ true) × (is_set h ≡ true)
hash_accepts p h e =
    let made : (b'$' ∷ p) ≡ h = cc in
    subst (λ h. (compare_hash h p ≡ true) × (is_set h ≡ true)) made
      (same_bytes_refl (b'$' ∷ p), refl)

accepted : check_password compare_hash older.admin (b'p' ∷ b'w' ∷ []) ≡ true
unfolding check_password
accepted = refl

load_keeps_login_example :
    let cfg' = (load generate (parsed older nights codes) fresh).0.cfg in
    (check_password compare_hash cfg'.admin (b'p' ∷ b'w' ∷ []) ≡ true)
    × (auth_enabled cfg'.admin ≡ auth_enabled older.admin)
    × (map place cfg'.sensors ≡ map place older.sensors)
load_keeps_login_example =
    load_keeps_login generate compare_hash older nights codes fresh (b'p' ∷ b'w' ∷ []) hash_accepts
      accepted
