-- ===== src/Daemon/ForwardTests.antt =====
-- Witnesses of the properties of the daemon: a door that opens on an armed alarm, events in alarmo mode, and
-- Alarmo's states on the siren (cmd/openqiarad/main.go, siren_controller.go).
use openqiara.Prelude.{◌≡◌, true, false, none, some, List, [], ◌∷◌, arith, refl, lookup}
use openqiara.Radio.Types.{Event, opened, pos}
use openqiara.Config.Load.{default_config}
use openqiara.Camera.Sensors.{Sensor, SensorEvent}
use openqiara.Camera.Client.{RadioClient, no_sensor, sensor_at, publish}
use openqiara.Camera.Client
use openqiara.Alarm.Types
use openqiara.Alarm.Types.{World, armed_away, missing, triggered, pending, arm, siren_off}
use openqiara.Alarm.Engine
use openqiara.Alarm.Engine.{is_armed, handle_sensor_event, watched}
use openqiara.Alarm.SirenDriver.{Radio, Call, order, reported, new_driver, drive_all}
use openqiara.Alarm.SirenWant.{Follows, commands}
use openqiara.Daemon.Forward.{
  Daemon, alarmo_mode, normalised, dispatch_known, dispatch_alarm_command, siren_state_of,
  on_siren_state, report_siren, feed_alarm, forward_event, forward_events,
}
use openqiara.Daemon.Intrusion.{opening, opening_noticed}
use openqiara.Daemon.AlarmoMode.{alarmo_engine_idle}
use openqiara.Daemon.Controller.{handle_all, new_siren_controller}
use openqiara.Daemon.Mirror.{mirrored, driver_mirrors_alarmo}
use Prim.Native.String.{String}

abbrev door : Sensor
door = record no_sensor { id = 1; type = "DWS"; reachable = true; is_open = some true }

abbrev client : RadioClient
client = record {
  engine = record { gateway = 1; counter = 0; alarm_siren = 0; nodes = []; sent = λ c. none };
  store = record { cfg = default_config; file = none };
  closed = false;
  sensors = (1, door) ∷ [];
  nodes = [];
  ids = (2, 1) ∷ [];
  heard = [];
  siren_counter = [];
  last_frame = none;
  started = 0;
  events = [];
  room = 64;
  sent = [];
}

abbrev alarm_world : World
alarm_world = record {
  now = 0;
  present = false;
  writable = true;
  config_for = λ id. record { night_allowed = false; instant = true };
  exit_setting = 30_000_000_000;
  entry_setting = 20_000_000_000;
  visit = λ m. m;
}

abbrev radio_world : Client.World
radio_world = record { now = 0; bytecode = λ fw. none; saves = true; sends = λ f. true }

abbrev siren_radio : Radio
siren_radio = record { present = true; now = 0 }

abbrev armed_engine : Types.Engine
armed_engine = record (Engine.new missing) { state = armed_away; mode = armed_away }

abbrev daemon : Daemon
daemon = record {
  alarm = some armed_engine;
  driver = new_driver;
  config = default_config;
  mqtt = true;
  to_alarmo = [];
  published = [];
}

abbrev opens : Event
opens = record { addr = 2; kind = opened; value = pos 0; code = [] }

paired : lookup 2 client.ids ≡ some 1
unfolding lookup
paired = refl

same_id : (sensor_at 1 client).id ≡ 1
unfolding lookup
same_id = refl

is_door : (sensor_at 1 client).type ≡ "DWS"
unfolding lookup
is_door = refl

standalone : alarmo_mode daemon.config ≡ false
unfolding alarmo_mode
standalone = refl

watches_door : watched alarm_world armed_engine 1 ≡ true
unfolding watched Engine.new
watches_door = refl

-- The door was open already: it is noticed all the same.
opening_noticed_example :
    ((publish radio_world opens client).events ≡ opening 1 (sensor_at 1 client) ∷ [])
    × ((forward_event alarm_world siren_radio (opening 1 (sensor_at 1 client)) daemon).alarm
        ≡ some (handle_sensor_event alarm_world 1 "DWS" true armed_engine))
    × ((handle_sensor_event alarm_world 1 "DWS" true armed_engine).state ≡ triggered)
    × ((handle_sensor_event alarm_world 1 "DWS" true armed_engine).trig_by ≡ 1)
opening_noticed_example =
    opening_noticed radio_world alarm_world siren_radio opens client daemon armed_engine 1 paired
      refl same_id is_door refl (omega arith) refl standalone refl watches_door

-- In alarmo mode: the door, the siren that says that it is off and then an unknown state, and the keypad.
abbrev alarmo_daemon : Daemon
alarmo_daemon = record daemon {
  config = record default_config { alarm = record default_config.alarm { mode = "alarmo" } };
}

abbrev events : List SensorEvent
events =
    opening 1 door
    ∷ record {
      sensor_id = 4;
      sensor = record no_sensor { id = 4; type = "SRN"; siren_state = "off" };
      siren_report = true;
    }
    ∷ record {
      sensor_id = 4;
      sensor = record no_sensor { id = 4; type = "SRN"; siren_state = "" };
      siren_report = true;
    }
    ∷ record {
      sensor_id = 3;
      sensor = record no_sensor { id = 3; type = "KPD"; kpd_state = "armed_away" };
      siren_report = false;
    }
    ∷ []

in_alarmo_mode : alarmo_mode alarmo_daemon.config ≡ true
unfolding alarmo_mode
in_alarmo_mode = refl

alarmo_engine_idle_example :
    ((forward_events alarm_world siren_radio events alarmo_daemon).alarm ≡ some armed_engine)
    × (alarmo_mode (forward_events alarm_world siren_radio events alarmo_daemon).config ≡ true)
alarmo_engine_idle_example =
    alarmo_engine_idle alarm_world siren_radio events alarmo_daemon in_alarmo_mode

-- The keypad's command goes to Alarmo.
test_to_alarmo :
    (forward_events alarm_world siren_radio events alarmo_daemon).to_alarmo ≡ "ARM_AWAY" ∷ []
unfolding forward_events forward_event report_siren feed_alarm dispatch_alarm_command normalised
    dispatch_known alarmo_mode siren_state_of on_siren_state
test_to_alarmo = refl

-- Alarmo arms for the night after an exit delay, and says so twice; the siren reports itself off in between.
abbrev states : List String
states = "arming" ∷ "armed_night" ∷ "armed_night" ∷ "pending" ∷ []

abbrev calls : List (Radio × Call)
calls =
    (siren_radio, order (arm false true))
    ∷ (siren_radio, reported siren_off)
    ∷ (siren_radio, order (arm true false))
    ∷ (siren_radio, order Types.SirenCommand.entry_delay)
    ∷ []

calls_given : commands calls ≡ (handle_all states new_siren_controller).orders
unfolding handle_all
calls_given = refl

driver_mirrors_alarmo_example : Follows (mirrored none states) (drive_all calls new_driver)
driver_mirrors_alarmo_example = driver_mirrors_alarmo states calls calls_given

test_mirrored : mirrored none states ≡ some (some true)
unfolding mirrored
test_mirrored = refl
