-- ===== src/Daemon/Tests.antt =====
-- The siren armed for the night, with an instant door sensor, a motion sensor left out and a keypad.
use openqiara.Prelude.{ℕ, ◌<◌, ◌≡◌, ◌&&◌, true, false, not, [], ◌∷◌, ltb, arith, refl}
use openqiara.Config.Types.{Config, RadioNode, SensorEntry}
use openqiara.Config.Load.{default_config}
use openqiara.Config.Settings.{siren_sounds_mode}
use openqiara.Camera.Registry.{contains, new_entry}
use openqiara.Camera.Unique.{Distinct}
use openqiara.Daemon.Siren.{arming, present}
use openqiara.Daemon.SirenWatch.{is_guard, arming_watches}
use mathlib.Core.List.{Memᴰ}

abbrev node : ℕ → RadioNode
node addr = record { addr = addr; uid = addr ∷ []; system_index = addr }

abbrev door : SensorEntry
door = record (new_entry 1) { type = "DWS"; instant = true; radio = node 2 }

abbrev motion : SensorEntry
motion = record (new_entry 2) { type = "PIR"; night_allowed = true; radio = node 3 }

abbrev keypad : SensorEntry
keypad = record (new_entry 3) { type = "KPD"; radio = node 4 }

abbrev house : Config
house = record default_config { sensors = door ∷ motion ∷ keypad ∷ [] }

armed_night : (arming true true house).active ≡ 1 ∷ []
unfolding arming
armed_night = refl

armed_away : (arming false true house).delayed ≡ 2 ∷ []
unfolding arming
armed_away = refl

heard : present ((7, "SRN") ∷ []) house ≡ true
unfolding present siren_sounds_mode
heard = refl

house-Distinct : Distinct house.sensors
house-Distinct = (
  (
    (λ e. omega (arith, e), λ z e. omega (arith, e), λ z w e. omega (arith, e)),
    ((λ e. omega (arith, e), λ z e. omega (arith, e), λ z w e. omega (arith, e)), tt),
  ),
  (((λ e. omega (arith, e), λ z e. omega (arith, e), λ z w e. omega (arith, e)), tt), (tt, tt)),
)

arming_watches_example :
    let a = arming true false house in
    (contains door.id a.active ≡ is_guard true door)
    × (contains door.id a.delayed ≡ (is_guard true door && not door.instant))
    × (0 < a.entry_delay)
    × (0 < a.alert)
    × (ltb 0 a.exit_delay ≡ false)
arming_watches_example = arming_watches true false house door house-Distinct (Memᴰ.head refl)
