-- ===== src/Camera/Client.antt =====
-- The radio client, internal/camera/radio.go: its state, and what it publishes. The radio and the clock are
-- arguments: a call reads the clock once.
use openqiara.Prelude.{
  ℕ, ◌-◌, Bool, true, false, Option, none, some, List, [], ◌∷◌, ◌++◌, ◌==◌, if◌then◌else◌, Dict,
  lookup, insert,
}
use openqiara.Charmux.Frame.{ManagedFrame}
use openqiara.Radio.Types.{ℤ, Event, NodeInfo, Result, Engine}
use openqiara.Radio.Engine.{lost}
use openqiara.Config.Types.{SensorEntry}
use openqiara.Config.Store.{Store, update}
use openqiara.Camera.Sensors.{
  Sensor, SensorEvent, Change, kept, shown, saved_battery, saved_temperature, acted, reported,
  change,
}

-- `now` in nanoseconds since 1970, the bytecode of a firmware, whether the configuration can be saved, and
-- whether a frame can be sent.
pub record World : Type 0 where
  pub now : ℕ
  pub bytecode : List ℕ → Option (List (List ℕ))
  pub saves : Bool
  pub sends : ManagedFrame → Bool

-- `events` are the published ones, newest first, and `room` the free places of their channel; `sent` are
-- the frames sent, newest first.
pub record RadioClient : Type 0 where
  pub engine : Engine
  pub store : Store
  pub closed : Bool
  pub sensors : Dict Sensor
  pub nodes : Dict NodeInfo
  pub ids : Dict ℕ
  pub heard : Dict ℕ
  pub siren_counter : Dict ℕ
  pub last_frame : Option ℕ
  pub started : ℕ
  pub events : List SensorEvent
  pub room : ℕ
  pub sent : List ManagedFrame

-- A full channel drops the event.
unfoldable pub event : SensorEvent → RadioClient → RadioClient
event ev c =
    if c.closed
    then c
    else if c.room == 0
    then c
    else record c { events = ev ∷ c.events; room = c.room - 1 }

unfoldable pub emit : Sensor → RadioClient → RadioClient
unfolding event
emit s c = event (record { sensor_id = s.id; sensor = s; siren_report = false }) c

-- The sensor of a map that has none is the zero one.
abbrev pub no_sensor : Sensor
no_sensor = record {
  id = 0;
  type = "";
  item_id = [];
  battery = ℤ.pos 0;
  reachable = false;
  temperature = none;
  is_open = none;
  motion = none;
  kpd_state = "";
  siren_state = "";
  last_seen = 0;
}

abbrev pub or_none : Option Sensor → Sensor
or_none none = no_sensor
or_none (some s) = s

abbrev pub sensor_at : ℕ → RadioClient → Sensor
sensor_at id c = or_none (lookup id c.sensors)

abbrev pub set_sensor : ℕ → Sensor → RadioClient → RadioClient
set_sensor id s c = record c { sensors = insert id s c.sensors }

-- The change of `save`: the first entry with the id.
unfoldable pub set_entry : ℕ → (SensorEntry → SensorEntry) → List SensorEntry → List SensorEntry
set_entry id set [] = []
set_entry id set (se ∷ ses) = if se.id == id then set se ∷ ses else se ∷ set_entry id set ses

unfoldable pub save : World → ℕ → (SensorEntry → SensorEntry) → RadioClient → RadioClient
unfolding set_entry update
save w id set c = record c {
  store = (update w.saves (λ cfg. record cfg { sensors = set_entry id set cfg.sensors }) c.store).0;
}

unfoldable pub apply : World → ℕ → Change → RadioClient → RadioClient
unfolding emit event save
apply w id (kept s) c = set_sensor id s c
apply w id (shown s) c = emit s (set_sensor id s c)
apply w id (saved_battery s raw) c =
    emit s (set_sensor id s (save w id (λ se. record se { battery = raw }) c))
apply w id (saved_temperature s t) c =
    emit s (set_sensor id s (save w id (λ se. record se { temperature = some t }) c))
apply w id (acted s) c = emit s c
apply w id (reported s) c =
    event (record { sensor_id = id; sensor = s; siren_report = true }) (set_sensor id s c)

unfoldable pub publish : World → Event → RadioClient → RadioClient
unfolding apply change
publish w ev c = elim (lookup ev.addr c.ids) [
  | none ↦ c
  | some id ↦ apply w id (change ev (sensor_at id c)) c
]

unfoldable pub publish_all : World → List Event → RadioClient → RadioClient
unfolding publish
publish_all w [] c = c
publish_all w (ev ∷ evs) c = publish_all w evs (publish w ev c)

-- The loop of `send` over the frames: the events of those that are lost, and whether all were sent.
unfoldable pub send_frames :
    World → List ManagedFrame → RadioClient → RadioClient × List Event × Bool
send_frames w [] c = (c, [], true)
send_frames w (f ∷ fs) c =
    if w.sends f
    then send_frames w fs (record c { sent = f ∷ c.sent })
    else (let (e, res) = lost c.engine f.counter in
        let (c', evs, done) = send_frames w fs (record c { engine = e }) in
        (c', res.events ++ evs, false))

unfoldable pub send : World → Result → RadioClient → RadioClient × Bool
unfolding send_frames publish_all
send w res c =
    let (c', evs, done) = send_frames w res.send c in (publish_all w (res.events ++ evs) c', done)
