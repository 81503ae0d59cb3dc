-- ===== src/Daemon/Forward.antt =====
-- What the daemon does with the events of the radio client, cmd/openqiarad/main.go: `forwardEvents`, the
-- dispatch of the alarm's commands and the reports of the siren. The publishers and the web page's streams
-- are the list of the sensors that they get, newest first; so is what goes to Alarmo over MQTT.
use openqiara.Prelude.{
  Bool, false, ◌&&◌, ◌||◌, not, Option, none, some, List, [], ◌∷◌, if◌then◌else◌,
}
use openqiara.Config.Types.{Config}
use openqiara.Camera.Sensors.{Sensor, SensorEvent}
use openqiara.Alarm.Types
use openqiara.Alarm.Types.{
  World, Command, cmd_disarm, cmd_arm_away, cmd_arm_night, Source, source_local, SirenState,
  siren_off, siren_test, siren_exit_delay, siren_armed, siren_entry_delay, siren_alert,
  siren_alert_over, siren_blank, siren_other,
}
use openqiara.Alarm.Engine
use openqiara.Alarm.SirenDriver.{Driver, Radio, handle_report}
use Prim.Native.String.{String}
use text.Mathlib.Text.{◌==◌ as str_eq}

-- `alarm` is none if the daemon started in alarmo mode; `mqtt` says whether there is a publisher for Alarmo.
pub record Daemon : Type 0 where
  pub alarm : Option Types.Engine
  pub driver : Driver
  pub config : Config
  pub mqtt : Bool
  pub to_alarmo : List String
  pub published : List Sensor

unfoldable pub alarmo_mode : Config → Bool
alarmo_mode c = str_eq c.alarm.mode "alarmo"

-- The command that a text stands for, if any.
unfoldable pub normalised : String → Option Command
normalised cmd =
    if str_eq cmd "disarmed" || (str_eq cmd "DISARM" || str_eq cmd "disarm")
    then some cmd_disarm
    else if str_eq cmd "armed_away" || (str_eq cmd "ARM_AWAY" || str_eq cmd "arm_away")
    then some cmd_arm_away
    else if str_eq cmd "armed_night" || (str_eq cmd "ARM_NIGHT" || str_eq cmd "arm_night")
    then some cmd_arm_night
    else none

abbrev pub payload : Command → String
payload cmd_arm_away = "ARM_AWAY"
payload cmd_arm_night = "ARM_NIGHT"
payload cmd_disarm = "DISARM"
payload (Command.other text) = ""

abbrev pub on_alarm : (Types.Engine → Types.Engine) → Daemon → Daemon
on_alarm f d = elim d.alarm [ none ↦ d | some e ↦ record d { alarm = some (f e) } ]

unfoldable pub dispatch_known : World → Command → Source → Daemon → Daemon
dispatch_known w cmd source d =
    if alarmo_mode d.config
    then if d.mqtt then record d { to_alarmo = payload cmd ∷ d.to_alarmo } else d
    else on_alarm (λ e. Engine.handle_command w cmd source e) d

unfoldable pub dispatch_alarm_command : World → String → Source → Daemon → Daemon
unfolding dispatch_known
dispatch_alarm_command w cmd source d = elim (normalised cmd) [
  | none ↦ d
  | some c ↦ dispatch_known w c source d
]

-- `alarm.SirenState(state)`
unfoldable pub siren_state_of : String → SirenState
siren_state_of state =
    if str_eq state "off"
    then siren_off
    else if str_eq state "test"
    then siren_test
    else if str_eq state "exit_delay"
    then siren_exit_delay
    else if str_eq state "armed"
    then siren_armed
    else if str_eq state "entry_delay"
    then siren_entry_delay
    else if str_eq state "alert"
    then siren_alert
    else if str_eq state "alert_over"
    then siren_alert_over
    else if str_eq state ""
    then siren_blank
    else siren_other state

-- The driver hears of a report first, then the engine of a standalone alarm.
unfoldable pub on_siren_state : World → Radio → SirenState → Daemon → Daemon
on_siren_state w r s d =
    let heard = record d { driver = handle_report r s d.driver } in
    if alarmo_mode d.config then heard else on_alarm (λ e. Engine.handle_siren_state w s e) heard

-- A keypad's action, not its state.
abbrev pub is_action : Sensor → Bool
is_action s = str_eq s.type "KPD" && not (str_eq s.kpd_state "")

abbrev pub is_set : Option Bool → Bool
is_set none = false
is_set (some b) = b

unfoldable pub sensor_in_alarm : Sensor → Bool
sensor_in_alarm s =
    if str_eq s.type "DWS"
    then is_set s.is_open
    else if str_eq s.type "PIR"
    then is_set s.motion
    else false

module _ (w : World) (r : Radio) where
  unfoldable pub report_siren : SensorEvent → Daemon → Daemon
  report_siren ev d =
      if ev.siren_report then on_siren_state w r (siren_state_of ev.sensor.siren_state) d else d

  unfoldable pub feed_alarm : SensorEvent → Daemon → Daemon
  feed_alarm ev d =
      if alarmo_mode d.config
      then d
      else on_alarm
          (λ e.
            Engine.handle_sensor_event w ev.sensor_id ev.sensor.type (sensor_in_alarm ev.sensor) e)
          d

  -- The body of the loop of `forwardEvents`.
  unfoldable pub forward_event : SensorEvent → Daemon → Daemon
  forward_event ev d =
      if is_action ev.sensor
      then dispatch_alarm_command w ev.sensor.kpd_state source_local d
      else feed_alarm ev (report_siren ev (record d { published = ev.sensor ∷ d.published }))

  unfoldable pub forward_events : List SensorEvent → Daemon → Daemon
  forward_events [] d = d
  forward_events (ev ∷ evs) d = forward_events evs (forward_event ev d)
