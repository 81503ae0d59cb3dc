-- ===== src/Daemon/Intrusion.antt =====
-- From a sensor's report to the alarm: internal/camera/radio.go `publish`, cmd/openqiarad/main.go
-- `forwardEvents` and internal/alarm/engine.go together.
use openqiara.Prelude.{ℕ, ◌<◌, ◌≡◌, true, false, some, ◌∷◌, if◌then◌else◌, refl, ap, ◌∙◌, lookup}
use openqiara.Radio.Types.{Event, opened}
use openqiara.Camera.Sensors.{Sensor, SensorEvent}
use openqiara.Camera.Client.{RadioClient, sensor_at, publish}
use openqiara.Camera.Client
use openqiara.Camera.Publish.{told, publish_report}
use openqiara.Alarm.Types
use openqiara.Alarm.Types.{World, triggered, pending}
use openqiara.Alarm.Engine.{is_armed, handle_sensor_event, watched}
use openqiara.Alarm.SirenDriver.{Radio}
use openqiara.Alarm.Watch.{watched_sensor_noticed}
use openqiara.Daemon.Forward.{
  Daemon, alarmo_mode, sensor_in_alarm, report_siren, feed_alarm, forward_event, on_alarm,
}

-- The event of a door that opens.
abbrev pub opening : ℕ → Sensor → SensorEvent
opening id s = record {
  sensor_id = id;
  sensor = record s { is_open = some true };
  siren_report = false;
}

forward-opening :
    (w : World) (r : Radio) (d : Daemon) (e : Types.Engine) (id : ℕ) (s : Sensor)
    → s.type ≡ "DWS"
    → d.alarm ≡ some e
    → alarmo_mode d.config ≡ false
    → (forward_event w r (opening id s) d).alarm ≡ some (handle_sensor_event w id "DWS" true e)
unfolding forward_event report_siren feed_alarm sensor_in_alarm
forward-opening w r d e id s door there standalone =
    let open_now : sensor_in_alarm (opening id s).sensor ≡ true = rw (door, sensor_in_alarm) refl in
    rw (door, standalone, there, on_alarm)
      (ap (λ k. some (handle_sensor_event w id k (sensor_in_alarm (opening id s).sensor) e)) door
        ∙ ap (λ b. some (handle_sensor_event w id "DWS" b e)) open_now)

-- From the radio to the alarm: a paired door reports that it opens, its state known to be open or not. The
-- client publishes one event, and when the daemon, in standalone mode, forwards it to an armed alarm whose
-- mode watches the door, the alarm is set off by an instant door, starts the entry delay for another, and
-- remembers the door. The client is open and its channel has room.
pub opening_noticed :
    (cw : Client.World) (aw : World) (r : Radio)
    → (ev : Event) (c : RadioClient) (d : Daemon) (e : Types.Engine) (id : ℕ)
    → lookup ev.addr c.ids ≡ some id
    → ev.kind ≡ opened
    → (sensor_at id c).id ≡ id
    → (sensor_at id c).type ≡ "DWS"
    → c.closed ≡ false
    → 0 < c.room
    → d.alarm ≡ some e
    → alarmo_mode d.config ≡ false
    → is_armed e.state ≡ true
    → watched aw e id ≡ true
    → ((publish cw ev c).events ≡ opening id (sensor_at id c) ∷ c.events)
      × ((forward_event aw r (opening id (sensor_at id c)) d).alarm
          ≡ some (handle_sensor_event aw id "DWS" true e))
      × ((handle_sensor_event aw id "DWS" true e).state
          ≡ (if (aw.config_for id).instant then triggered else pending))
      × ((handle_sensor_event aw id "DWS" true e).trig_by ≡ id)
opening_noticed cw aw r ev c d e id paired opens same_id door is_open room there standalone armed
      watch =
    let s = sensor_at id c in
    let says : told ev.kind s ≡ some (record s { is_open = some true }) = rw opens refl in
    let (events, _) =
      publish_report cw ev c id (record s { is_open = some true }) paired says is_open room in
    let (moved, by) = watched_sensor_noticed aw id "DWS" e armed refl watch in
    (
      events
          ∙ ap
              (λ i.
                record {
                  sensor_id = i;
                  sensor = record s { is_open = some true };
                  siren_report = false;
                }
                ∷ c.events)
              same_id,
      forward-opening aw r d e id s door there standalone,
      moved,
      by,
    )
