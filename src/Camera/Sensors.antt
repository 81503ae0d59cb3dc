-- ===== src/Camera/Sensors.antt =====
-- The live state of the sensors, internal/camera/types.go, and what a report of a sensor makes of it
-- (`publish` of internal/camera/radio.go). The name of the type and the label, which the radio client does
-- not set, are left out.
use openqiara.Prelude.{
  ℕ, ◌+◌, ◌*◌, ◌/◌, Bool, true, false, Option, none, some, List, leb, ◌==◌, if◌then◌else◌,
}
use openqiara.Radio.Types.{
  ℤ, pos, negsuc, Event, opened, closed, motion_start, motion_end, armed_away, armed_night,
  disarmed, emergency, tamper, siren_state, battery, temperature, rebooted, no_bytecode,
  delivery_failed, unhandled, unknown_sensor,
}
use Prim.Native.String.{String}
use text.Mathlib.Text.{◌==◌ as str_eq}

pub record Sensor : Type 0 where
  pub id : ℕ
  pub type : String
  pub item_id : List ℕ
  pub battery : ℤ
  pub reachable : Bool
  pub temperature : Option ℤ
  pub is_open : Option Bool
  pub motion : Option Bool
  pub kpd_state : String
  pub siren_state : String
  pub last_seen : ℕ

pub record SensorEvent : Type 0 where
  pub sensor_id : ℕ
  pub sensor : Sensor
  pub siren_report : Bool

abbrev pub is_known : {A : Type 0} → Option A → Bool
is_known none = false
is_known (some a) = true

unfoldable pub state_known : Sensor → Bool
state_known s =
    if str_eq s.type "DWS"
    then is_known s.is_open
    else if str_eq s.type "PIR"
    then is_known s.motion
    else true

abbrev pub int_eq : ℤ → ℤ → Bool
int_eq (pos m) (pos n) = m == n
int_eq (negsuc m) (negsuc n) = m == n
int_eq _ _ = false

abbrev pub is_temperature : Option ℤ → ℤ → Bool
is_temperature none t = false
is_temperature (some u) t = int_eq u t

unfoldable pub battery_percent : String → ℤ → ℤ
battery_percent typ (negsuc n) = pos 0
battery_percent typ (pos raw) =
    if raw == 0
    then pos 0
    else if str_eq typ "SRN"
    then if leb raw 1 then pos raw else pos (raw * 98 / 255 + 2)
    else pos (raw * 99 / 255 + 1)

-- `sirenStates`; a state outside the map is "".
abbrev pub siren_state_name : ℤ → String
siren_state_name (negsuc n) = ""
siren_state_name (pos n) =
    if n == 0
    then "off"
    else if n == 1
    then "test"
    else if n == 2
    then "exit_delay"
    else if n == 3
    then "armed"
    else if n == 4
    then "entry_delay"
    else if n == 5
    then "alert"
    else if n == 6
    then "alert_over"
    else ""

-- What `publish` does with a report: nothing more than to keep the state, to publish it too, the configuration
-- changed or not, or to publish another state than the one that it keeps.
pub data Change : Type 0 where
  kept : Sensor → Change
  shown : Sensor → Change
  saved_battery saved_temperature : Sensor → ℤ → Change
  acted : Sensor → Change
  reported : Sensor → Change

-- The switch of `publish`. `s != before` holds where a field changes.
unfoldable pub change : Event → Sensor → Change
unfolding battery_percent
change ev s = elim ev.kind [
  | opened ↦ shown (record s { is_open = some true })
  | closed ↦ shown (record s { is_open = some false })
  | motion_start ↦ shown (record s { motion = some true })
  | motion_end ↦ shown (record s { motion = some false })
  | armed_away ↦ acted (record s { kpd_state = "armed_away" })
  | armed_night ↦ acted (record s { kpd_state = "armed_night" })
  | disarmed ↦ acted (record s { kpd_state = "disarmed" })
  | battery ↦
      let pct = battery_percent s.type ev.value in
      if int_eq pct s.battery then kept s else saved_battery (record s { battery = pct }) ev.value
  | temperature ↦
      if is_temperature s.temperature ev.value
      then kept s
      else saved_temperature (record s { temperature = some ev.value }) ev.value
  | no_bytecode ↦ if s.reachable then shown (record s { reachable = false }) else kept s
  | siren_state ↦ reported (record s { siren_state = siren_state_name ev.value })
  | emergency ↦ kept s
  | tamper ↦ kept s
  | rebooted ↦ kept s
  | delivery_failed ↦ kept s
  | unhandled ↦ kept s
  | unknown_sensor ↦ kept s
]
