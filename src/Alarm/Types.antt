-- ===== src/Alarm/Types.antt =====
-- The types of internal/alarm/engine.go, and what a call of the engine finds and does outside.
use openqiara.Prelude.{ℕ, Bool, true, false, Option, List}
use Prim.Native.String.{String}
use text.Mathlib.Text.{◌==◌ as str_eq}

-- The type is a string in the source: `blank` is "", `unknown` any other text that a state file
-- may hold.
pub data State : Type 0 where
  disarmed arming armed_night armed_away pending triggered blank : State
  unknown : String → State

abbrev pub state_eq : State → State → Bool
state_eq disarmed disarmed = true
state_eq arming arming = true
state_eq armed_night armed_night = true
state_eq armed_away armed_away = true
state_eq pending pending = true
state_eq triggered triggered = true
state_eq blank blank = true
state_eq (unknown s) (unknown t) = str_eq s t
state_eq _ _ = false

-- The type is a string in the source: `siren_blank` is "", `siren_other` any text but the eight.
pub data SirenState : Type 0 where
  siren_off siren_test siren_exit_delay siren_armed siren_entry_delay siren_alert : SirenState
  siren_alert_over siren_blank : SirenState
  siren_other : String → SirenState

pub data Source : Type 0 where
  source_local source_remote : Source

-- The commands that the engine gives its siren, `Siren` in the source.
pub data SirenCommand : Type 0 where
  arm : Bool → Bool → SirenCommand
  disarm entry_delay alert : SirenCommand

-- A user's command; `other` is any text but the three.
pub data Command : Type 0 where
  cmd_disarm cmd_arm_away cmd_arm_night : Command
  other : String → Command

pub record SensorConfig : Type 0 where
  pub night_allowed : Bool
  pub instant : Bool

pub record Snapshot : Type 0 where
  pub state : State
  pub armed_at : ℕ
  pub triggered_by : ℕ
  pub previous_state : State
  pub timer_remaining : ℕ

pub record PersistedState : Type 0 where
  pub state : State
  pub mode : State
  pub armed_at : ℕ
  pub triggered_by : ℕ
  pub previous_state : State

-- What reading the state file gives.
pub data StateFile : Type 0 where
  missing unreadable unparsable : StateFile
  parsed : PersistedState → StateFile

pub data LoadError : Type 0 where
  read_state parse_state : LoadError

-- The two functions that the engine hands to a timer.
pub data Callback : Type 0 where
  exit_over entry_over : Callback

pub data Effect : Type 0 where
  siren : SirenCommand → Effect
  notify : Snapshot → Effect
  -- a timer: its delay, the generation it belongs to, what it runs
  after : ℕ → ℕ → Callback → Effect

pub record Engine : Type 0 where
  pub state : State
  pub mode : State
  pub armed_at : ℕ
  pub trig_by : ℕ
  pub deadline : Option ℕ
  pub timer_gen : ℕ
  pub closed : Bool
  pub arming_delay : ℕ
  pub pending_delay : ℕ
  pub last_alarm : List (ℕ × Bool)
  pub file : StateFile
  pub effects : List Effect

-- Times and delays are in nanoseconds.
abbrev pub second : ℕ
second = 1_000_000_000

abbrev pub default_arming_delay : ℕ
default_arming_delay = 60_000_000_000

abbrev pub default_pending_delay : ℕ
default_pending_delay = 60_000_000_000

abbrev pub siren_margin : ℕ
siren_margin = 5_000_000_000

-- What one call of the engine finds outside: the clock, the delays of the settings, whether the siren keeps the alarm, whether
-- a write of the state file succeeds, the sensors' settings, and the order in which `range` visits
-- the entries of the map `lastAlarm`.
pub record World : Type 0 where
  pub now : ℕ
  pub present : Bool
  pub writable : Bool
  pub config_for : ℕ → SensorConfig
  pub exit_setting : ℕ
  pub entry_setting : ℕ
  pub visit : List (ℕ × Bool) → List (ℕ × Bool)
