-- ===== src/Config/Types.antt =====
-- The data of the configuration, internal/config/config.go. The sections for MQTT, HomeKit, RTSP, the
-- web server and the updates are settings that no function here reads, and are left out.
use openqiara.Prelude.{ℕ, Bool, Option, List}
use openqiara.Radio.Types.{ℤ}
use Prim.Native.String.{String}

pub record KpdCode : Type 0 where
  pub password : List ℕ
  pub label : String

-- The hardware id is hexadecimal text. Address 0 means none.
pub record RadioNode : Type 0 where
  pub addr : ℕ
  pub uid : List ℕ
  pub system_index : ℕ

pub record SensorEntry : Type 0 where
  pub id : ℕ
  pub type : String
  pub model : String
  pub label : String
  pub night_allowed : Bool
  pub instant : Bool
  pub kpd_codes : List KpdCode
  pub radio : RadioNode
  pub battery : ℤ
  pub temperature : Option ℤ

pub record AlarmConfig : Type 0 where
  pub mode : String
  pub alarmo_command_topic : String
  pub alarmo_state_topic : String
  pub siren_sounds : String
  pub arming_delay_seconds : ℕ
  pub pending_delay_seconds : ℕ
  pub wail_duration_seconds : ℕ

-- Text is bytes; no bytes are no password.
pub record AdminConfig : Type 0 where
  pub password_hash : List ℕ
  pub password : List ℕ

pub record Config : Type 0 where
  pub admin : AdminConfig
  pub alarm : AlarmConfig
  pub sensors : List SensorEntry
  pub deleted_ids : List ℕ
  pub radio_next_addr : ℕ
  pub shutter_closed : Bool
