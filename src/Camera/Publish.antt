-- ===== src/Camera/Publish.antt =====
-- The reports that the radio client publishes (internal/camera/radio.go `publish`).
use openqiara.Prelude.{
  ℕ, ◌<◌, ◌≡◌, true, false, Option, none, some, ◌∷◌, arith, refl, lookup, lookup-insert,
}
use openqiara.Radio.Types.{Event, opened, motion_start, motion_end, EventKind}
use openqiara.Camera.Sensors.{Sensor, shown, change}
use openqiara.Camera.Client.{World, RadioClient, publish, apply, emit, event, sensor_at}

-- What a door or a motion report makes of a sensor.
abbrev pub told : EventKind → Sensor → Option Sensor
told opened s = some (record s { is_open = some true })
told EventKind.closed s = some (record s { is_open = some false })
told motion_start s = some (record s { motion = some true })
told motion_end s = some (record s { motion = some false })
told _ s = none

change-told :
    (kind : EventKind) (ev : Event) (s t : Sensor)
    → ev.kind ≡ kind
    → told kind s ≡ some t
    → change ev s ≡ shown t
unfolding change
change-told _ ev s t e says = ground arith

shown-published :
    (w : World) (id : ℕ) (s : Sensor) (c : RadioClient)
    → c.closed ≡ false
    → 0 < c.room
    → ((apply w id (shown s) c).events
        ≡ record { sensor_id = s.id; sensor = s; siren_report = false } ∷ c.events)
      × (sensor_at id (apply w id (shown s) c) ≡ s)
unfolding apply emit event
shown-published w id s c is_open room =
    (ground arith, ground (arith, lookup-insert id id s c.sensors))

-- A door or motion report of a paired sensor is published, whether the state changes or not, and kept as the
-- state of the sensor, unless the client is closed or its channel is full.
pub publish_report :
    (w : World) (ev : Event) (c : RadioClient) (id : ℕ) (s : Sensor)
    → lookup ev.addr c.ids ≡ some id
    → told ev.kind (sensor_at id c) ≡ some s
    → c.closed ≡ false
    → 0 < c.room
    → ((publish w ev c).events
        ≡ record { sensor_id = s.id; sensor = s; siren_report = false } ∷ c.events)
      × (sensor_at id (publish w ev c) ≡ s)
unfolding publish
publish_report w ev c id s at says is_open room =
    rw (at, publish)
      (rw (change-told ev.kind ev (sensor_at id c) s refl says)
        (shown-published w id s c is_open room))
