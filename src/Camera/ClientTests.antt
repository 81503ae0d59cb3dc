-- ===== src/Camera/ClientTests.antt =====
-- Witnesses and tests of the radio client (internal/camera/radio.go).
use openqiara.Prelude.{
  ℕ, ◌*◌, ◌≤◌, ◌≡◌, ◌≢◌, true, false, none, some, List, [], ◌∷◌, arith, refl, All, lookup, insert,
  erase, length, Ascending,
}
use openqiara.Charmux.Frame.{ManagedFrame, empty_frame}
use openqiara.Radio.Types.{NodeInfo, Event, Model, opened, pos, kpd, dws, srn}
use openqiara.Radio.Engine.{
  find, put, remove, set_node, remove_node, set_alarm_siren, forget_configs, model_eq, all_valid,
}
use openqiara.Radio.Sensors.{valid_pin}
use openqiara.Config.Types.{SensorEntry, KpdCode}
use openqiara.Config.Load.{default_config}
use openqiara.Camera.Registry.{new_entry, without}
use openqiara.Camera.Sensors.{Sensor}
use openqiara.Camera.Client.{World, RadioClient, no_sensor, event, emit, publish, sensor_at}
use openqiara.Camera.Reload.{radio_model, reload}
use openqiara.Camera.Receive.{minute, receive_frame, silence, mark_silent, tick}
use openqiara.Camera.Serving.{any_addr, Serves, Elsewhere}
use openqiara.Camera.Linked.{reload-Serves}
use openqiara.Camera.Stranger.{NotNumbered, reload-deaf}
use openqiara.Camera.Keypads.{reload-coded}
use openqiara.Camera.Silence.{seen, tick_sensor, gone_sensors, then_states, tick_events}
use openqiara.Camera.Publish.{told, publish_report}

abbrev world : World
world = record { now = 100000 * minute; bytecode = λ fw. none; saves = true; sends = λ f. true }

abbrev code : KpdCode
code = record { password = b'1' ∷ b'2' ∷ b'3' ∷ b'4' ∷ []; label = "home" }

-- A door, a keypad without a code, one with a code, and a siren.
abbrev entries : List SensorEntry
entries =
    record (new_entry 1) { type = "DWS"; radio = record { addr = 2; uid = []; system_index = 0 } }
    ∷ record (new_entry 2) { type = "KPD"; radio = record { addr = 3; uid = []; system_index = 1 } }
    ∷ record (new_entry 3) {
      type = "KPD";
      radio = record { addr = 5; uid = []; system_index = 2 };
      kpd_codes = code ∷ [];
    }
    ∷ record (new_entry 4) { type = "SRN"; radio = record { addr = 4; uid = []; system_index = 3 } }
    ∷ []

abbrev fresh : RadioClient
fresh = record {
  engine = record { gateway = 1; counter = 0; alarm_siren = 0; nodes = []; sent = λ c. none };
  store = record { cfg = record default_config { sensors = entries }; file = none };
  closed = false;
  sensors = [];
  nodes = [];
  ids = [];
  heard = [];
  siren_counter = [];
  last_frame = none;
  started = 0;
  events = [];
  room = 64;
  sent = [];
}

fresh-Serves : Serves fresh
fresh-Serves a h = unfold find in refl

abbrev served : RadioClient
served = reload world fresh

served-Serves : Serves served
served-Serves a h = reload-Serves world fresh a fresh-Serves h

-- The configuration loses the door at address 2.
abbrev lost_door : RadioClient
lost_door = record served {
  store = record served.store { cfg = record served.store.cfg { sensors = without 1 entries } };
}

door_known : any_addr 2 served.nodes ≡ true
unfolding reload lookup insert erase radio_model set_node remove_node valid_pin put find remove
door_known = refl

door_dropped : any_addr 2 (reload world lost_door).nodes ≡ false
unfolding reload lookup insert erase radio_model set_node remove_node valid_pin put find remove
    without set_alarm_siren forget_configs
door_dropped = refl

reload-Serves_example : find 2 (reload world lost_door).engine.nodes ≡ none
reload-Serves_example = reload-Serves world lost_door 2 served-Serves door_dropped

abbrev door_frame : ManagedFrame
door_frame = record empty_frame { src = 2; flags = 0x0547; counter = 5 }

door-Elsewhere : All (Elsewhere 2) lost_door.store.cfg.sensors
unfolding without
door-Elsewhere = (refl, (refl, (refl, tt)))

numbered : All (NotNumbered 0) lost_door.store.cfg.sensors
unfolding without
numbered = (refl, (refl, (refl, tt)))

reload-deaf_example :
    receive_frame world door_frame (reload world lost_door) ≡ reload world lost_door
reload-deaf_example =
    reload-deaf world door_frame lost_door served-Serves door-Elsewhere numbered refl

abbrev keypad : NodeInfo
keypad = record { addr = 5; model = kpd; system_index = 2; pins = code.password ∷ [] }

keypad_served : lookup 3 served.nodes ≡ some keypad
unfolding reload lookup insert erase radio_model set_node remove_node valid_pin put find remove
keypad_served = refl

reload-coded_example :
    (keypad.addr ≢ 0)
    × (model_eq keypad.model kpd ≡ true → keypad.pins ≢ [])
    × (all_valid keypad.pins ≡ true)
reload-coded_example = reload-coded world fresh 3 keypad keypad_served

-- The keypad without a code is not served.
test_keypad : lookup 2 served.nodes ≡ none
unfolding reload lookup insert erase radio_model set_node remove_node valid_pin put find remove
test_keypad = refl

-- A door, a siren that was not heard for an hour, and a keypad that was never heard.
abbrev door : Sensor
door = record no_sensor { id = 1; type = "DWS"; reachable = true; is_open = some false }

abbrev siren : Sensor
siren = record no_sensor { id = 4; type = "SRN"; reachable = true }

abbrev node : ℕ → Model → NodeInfo
node addr m = record { addr = addr; model = m; system_index = 0; pins = [] }

abbrev hour_later : RadioClient
hour_later = record fresh {
  nodes = (1, node 2 dws) ∷ (4, node 4 srn) ∷ [];
  sensors = (1, door) ∷ (4, siren) ∷ [];
  ids = (2, 1) ∷ (4, 4) ∷ [];
  heard = (1, 99940 * minute) ∷ (4, 99940 * minute) ∷ [];
}

hour_later-Ascending : Ascending hour_later.nodes
hour_later-Ascending = ((omega arith, tt), (tt, tt))

tick_sensor_example :
    lookup 4 (tick world hour_later).sensors
    ≡ some (seen world.now (lookup 4 hour_later.nodes) (lookup 4 hour_later.heard) siren)
tick_sensor_example =
    tick_sensor world hour_later 4 siren hour_later-Ascending (unfold lookup in refl)

test_tick :
    (tick world hour_later).events
    ≡ record { sensor_id = 4; sensor = record siren { reachable = false }; siren_report = false }
      ∷ []
unfolding tick silence mark_silent lookup emit event insert
test_tick = refl

room_left :
    length (gone_sensors world.now hour_later.heard hour_later.sensors hour_later.nodes)
    ≤ hour_later.room
unfolding gone_sensors lookup
room_left = omega arith

tick_events_example :
    (tick world hour_later).events
    ≡ then_states
        (gone_sensors world.now hour_later.heard hour_later.sensors hour_later.nodes)
        hour_later.events
tick_events_example = tick_events world hour_later hour_later-Ascending refl room_left

-- The door opens.
abbrev opens : Event
opens = record { addr = 2; kind = opened; value = pos 0; code = [] }

abbrev open_door : Sensor
open_door = record door { is_open = some true }

door_paired : lookup 2 hour_later.ids ≡ some 1
unfolding lookup
door_paired = refl

door_told : told opens.kind (sensor_at 1 hour_later) ≡ some open_door
unfolding lookup
door_told = refl

publish_report_example :
    ((publish world opens hour_later).events
      ≡ record { sensor_id = 1; sensor = open_door; siren_report = false } ∷ [])
    × (sensor_at 1 (publish world opens hour_later) ≡ open_door)
publish_report_example =
    publish_report world opens hour_later 1 open_door door_paired door_told refl (omega arith)
