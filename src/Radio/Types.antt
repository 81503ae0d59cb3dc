-- ===== src/Radio/Types.antt =====
-- The data of the radio engine, internal/radio/engine.go and sensors.go.
use openqiara.Prelude.{ℕ, Bool, Option, List}
use openqiara.Charmux.Frame.{ManagedFrame}

-- `other_model` is any other `int`.
pub data Model : Type 0 where
  dws pir kpd srn : Model
  other_model : ℕ → Model

pub data EventKind : Type 0 where
  opened closed motion_start motion_end armed_away armed_night disarmed emergency tamper : EventKind
  siren_state battery temperature rebooted no_bytecode delivery_failed unhandled : EventKind
  unknown_sensor : EventKind

-- A Go `int` that may be negative: `negsuc n` is -(n + 1).
pub data ℤ : Type 0 where
  pos : ℕ → ℤ
  negsuc : ℕ → ℤ

pub record Event : Type 0 where
  pub addr : ℕ
  pub kind : EventKind
  pub value : ℤ
  pub code : List ℕ

pub record NodeInfo : Type 0 where
  pub addr : ℕ
  pub model : Model
  pub system_index : ℕ
  pub pins : List (List ℕ)

pub data Step : Type 0 where
  idle reading_status writing_vm sending_time : Step

-- `node`; `last_reply` is -1 before any, here `none`.
pub record Node : Type 0 where
  pub info : NodeInfo
  pub step : Step
  pub vm : List (List ℕ)
  pub sent_ops : ℕ
  pub need_time : Bool
  pub config_sent : Bool
  pub last_reply : Option ℕ

pub record SentFrame : Type 0 where
  pub addr : ℕ
  pub config : Bool

pub record Result : Type 0 where
  pub send : List ManagedFrame
  pub events : List Event

-- The map of the nodes is a list in ascending order of the keys; that of the sent frames a function.
pub record Engine : Type 0 where
  pub gateway : ℕ
  pub counter : ℕ
  pub alarm_siren : ℕ
  pub nodes : List (ℕ × Node)
  pub sent : ℕ → Option SentFrame

-- The bytes of the wire: classes of `wflags`, and flags.
abbrev pub wf_app : ℕ
wf_app = 0x01

abbrev pub wf_manage_answer : ℕ
wf_manage_answer = 0x81

abbrev pub wf_status : ℕ
wf_status = 0x82

abbrev pub wf_time : ℕ
wf_time = 0xc8

abbrev pub wf_read_status : ℕ
wf_read_status = 0xcc

abbrev pub wf_bytecode : ℕ
wf_bytecode = 0xcd

abbrev pub flags_manage : ℕ
flags_manage = 0x0547

abbrev pub flags_command : ℕ
flags_command = 0x0d43

abbrev pub flags_ack : ℕ
flags_ack = 0x0004

abbrev pub flags_event_ack : ℕ
flags_event_ack = 0x0544

abbrev pub flags_dws_ack : ℕ
flags_dws_ack = 0x0084

abbrev pub read_status_all : ℕ
read_status_all = 0x78

abbrev pub qiara_epoch : ℕ
qiara_epoch = 1514764800

abbrev pub sent_window : ℕ
sent_window = 256
