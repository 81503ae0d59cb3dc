-- ===== src/Camera/Silence.antt =====
-- The sensors that fall silent (internal/camera/radio.go `markSilent`).
use openqiara.Prelude.{
  ℕ, suc, ◌+◌, ◌≤◌, ◌<◌, ◌≡◌, true, false, ◌&&◌, Option, none, some, List, [], ◌∷◌, ◌==◌,
  if◌then◌else◌, arith, refl, sym, ap, ◌∙◌, inl, inr, length, Bool-cases, ==_iff, Dict, lookup,
  insert, lookup-insert, Above, Ascending, lookup-Above,
}
use openqiara.Radio.Types.{NodeInfo}
use openqiara.Camera.Sensors.{Sensor, SensorEvent}
use openqiara.Camera.Client.{World, RadioClient, or_none, sensor_at, set_sensor, emit, event}
use openqiara.Camera.Receive.{is_silent, silence, mark_silent, tick}

-- A sensor of a node, after a tick.
abbrev pub seen : ℕ → Option NodeInfo → Option ℕ → Sensor → Sensor
seen now none at s = s
seen now (some n) at s =
    if s.reachable && is_silent now n.model at then record s { reachable = false } else s

-- The sensors that a tick shows unreachable, in the order of the nodes.
unfoldable pub gone_sensors : ℕ → Dict ℕ → Dict Sensor → Dict NodeInfo → List Sensor
gone_sensors now heard sensors [] = []
gone_sensors now heard sensors ((id, n) ∷ nodes) =
    let rest = gone_sensors now heard sensors nodes in
    let s = or_none (lookup id sensors) in
    if s.reachable && is_silent now n.model (lookup id heard)
    then record s { reachable = false } ∷ rest
    else rest

gone_sensors-insert :
    (now id : ℕ) (heard : Dict ℕ) (s : Sensor) (sensors : Dict Sensor) (nodes : Dict NodeInfo)
    → Above id nodes
    → gone_sensors now heard (insert id s sensors) nodes ≡ gone_sensors now heard sensors nodes
unfolding gone_sensors
gone_sensors-insert now id heard s sensors [] a = refl
gone_sensors-insert now id heard s sensors ((j, n) ∷ nodes) (p, a) =
    let same : lookup j (insert id s sensors) ≡ lookup j sensors =
      ground (arith, lookup-insert j id s sensors) in
    rw (same, gone_sensors-insert now id heard s sensors nodes a) refl

emit_keeps :
    (s : Sensor) (c : RadioClient)
    → ((emit s c).sensors ≡ c.sensors) × ((emit s c).heard ≡ c.heard) × ((emit s c).nodes ≡ c.nodes)
unfolding emit event
emit_keeps s c = (ground arith, ground arith, ground arith)

emit_publishes :
    (s : Sensor) (c : RadioClient)
    → c.closed ≡ false
    → 0 < c.room
    → ((emit s c).events ≡ record { sensor_id = s.id; sensor = s; siren_report = false } ∷ c.events)
      × ((emit s c).room + 1 ≡ c.room)
      × ((emit s c).closed ≡ false)
unfolding emit event
emit_publishes s c is_open room = (ground arith, ground arith, ground arith)

silence-own :
    (w : World) (id : ℕ) (n : NodeInfo) (c : RadioClient) (s : Sensor)
    → lookup id c.sensors ≡ some s
    → lookup id (silence w id n c).sensors ≡ some (seen w.now (some n) (lookup id c.heard) s)
unfolding silence
silence-own w id n c s at =
    let gone = record s { reachable = false } in
    ground (arith, lookup-insert id id gone c.sensors, emit_keeps gone (set_sensor id gone c))

silence-other :
    (w : World) (i id : ℕ) (n : NodeInfo) (c : RadioClient)
    → (i == id) ≡ false
    → lookup i (silence w id n c).sensors ≡ lookup i c.sensors
unfolding silence
silence-other w i id n c other =
    let gone = record (sensor_at id c) { reachable = false } in
    ground (arith, lookup-insert i id gone c.sensors, emit_keeps gone (set_sensor id gone c))

silence_keeps :
    (w : World) (id : ℕ) (n : NodeInfo) (c : RadioClient)
    → ((silence w id n c).heard ≡ c.heard) × ((silence w id n c).nodes ≡ c.nodes)
unfolding silence
silence_keeps w id n c =
    let gone = record (sensor_at id c) { reachable = false } in
    (
      ground (arith, emit_keeps gone (set_sensor id gone c)),
      ground (arith, emit_keeps gone (set_sensor id gone c)),
    )

lookup-head :
    (id j : ℕ) (n : NodeInfo) (nodes : Dict NodeInfo)
    → lookup id ((j, n) ∷ nodes) ≡ (if id == j then some n else lookup id nodes)
unfolding lookup
lookup-head id j n nodes = refl

mark_silent-sensor :
    (w : World) (id : ℕ) (nodes : Dict NodeInfo) (c : RadioClient) (s : Sensor)
    → Ascending nodes
    → lookup id c.sensors ≡ some s
    → lookup id (mark_silent w nodes c).sensors
      ≡ some (seen w.now (lookup id nodes) (lookup id c.heard) s)
unfolding mark_silent
mark_silent-sensor w id [] c s up at = rw at (unfold lookup in refl)
mark_silent-sensor w id ((j, n) ∷ nodes) c s (above, up) at =
    let c' = silence w j n c in
    let (heard, _) = silence_keeps w j n c in
    elim (Bool-cases (id == j)) [
      | inl same ↦
          let at_id : j ≡ id = sym ((==_iff id j).0 same) in
          let t = seen w.now (some n) (lookup id c.heard) s in
          let own : lookup id c'.sensors ≡ some t = rw at_id (silence-own w id n c s at) in
          let last : lookup id nodes ≡ none = lookup-Above id nodes (rw (sym at_id) above) in
          mark_silent-sensor w id nodes c' t up own ∙ rw (lookup-head id j n nodes, same, last) refl
      | inr other ↦
          mark_silent-sensor w id nodes c' s up (silence-other w id j n c other ∙ at)
          ∙ rw (lookup-head id j n nodes, other, heard) refl
    ]

-- The state of each sensor after a tick: the one of a node that was not heard for longer than its limit, or
-- never, is unreachable, and every other sensor is what it was. The nodes are a map, in ascending order of
-- the ids.
pub tick_sensor :
    (w : World) (c : RadioClient) (id : ℕ) (s : Sensor)
    → Ascending c.nodes
    → lookup id c.sensors ≡ some s
    → lookup id (tick w c).sensors ≡ some (seen w.now (lookup id c.nodes) (lookup id c.heard) s)
unfolding tick
tick_sensor w c id s up at = mark_silent-sensor w id c.nodes c s up at

silence-gone :
    (w : World) (id : ℕ) (n : NodeInfo) (c : RadioClient) (nodes : Dict NodeInfo)
    → Above id nodes
    → gone_sensors w.now (silence w id n c).heard (silence w id n c).sensors nodes
      ≡ gone_sensors w.now c.heard c.sensors nodes
unfolding silence
silence-gone w id n c nodes above =
    let gone = record (sensor_at id c) { reachable = false } in
    ground (
      arith,
      emit_keeps gone (set_sensor id gone c),
      gone_sensors-insert w.now id c.heard gone c.sensors nodes above,
    )

-- The events of a list of sensors, newest first, before those that were there.
abbrev pub then_states : List Sensor → List SensorEvent → List SensorEvent
then_states [] evs = evs
then_states (s ∷ ss) evs =
    then_states ss (record { sensor_id = s.id; sensor = s; siren_report = false } ∷ evs)

silence-still :
    (w : World) (id : ℕ) (n : NodeInfo) (c : RadioClient)
    → ((sensor_at id c).reachable && is_silent w.now n.model (lookup id c.heard)) ≡ false
    → silence w id n c ≡ c
unfolding silence
silence-still w id n c h = ground arith

silence-silent :
    (w : World) (id : ℕ) (n : NodeInfo) (c : RadioClient)
    → ((sensor_at id c).reachable && is_silent w.now n.model (lookup id c.heard)) ≡ true
    → silence w id n c
      ≡ emit
          (record (sensor_at id c) { reachable = false })
          (set_sensor id (record (sensor_at id c) { reachable = false }) c)
unfolding silence
silence-silent w id n c h = ground arith

mark_silent-events :
    (w : World) (nodes : Dict NodeInfo) (c : RadioClient)
    → Ascending nodes
    → c.closed ≡ false
    → length (gone_sensors w.now c.heard c.sensors nodes) ≤ c.room
    → (mark_silent w nodes c).events
      ≡ then_states (gone_sensors w.now c.heard c.sensors nodes) c.events
unfolding mark_silent gone_sensors
mark_silent-events w [] c up is_open room = refl
mark_silent-events w ((id, n) ∷ nodes) c (above, up) is_open room =
    elim (Bool-cases ((sensor_at id c).reachable && is_silent w.now n.model (lookup id c.heard))) [
      | inl silent ↦
          let gone = record (sensor_at id c) { reachable = false } in
          let c' = set_sensor id gone c in
          let states = gone_sensors w.now c.heard c.sensors nodes in
          let spare : suc (length states) ≤ c.room = rw silent at room in
          let (events, left, closed) = emit_publishes gone c' is_open (omega arith) in
          let rest : gone_sensors w.now (silence w id n c).heard (silence w id n c).sensors nodes
              ≡ states =
            silence-gone w id n c nodes above in
          let now_is = silence-silent w id n c silent in
          let d = silence w id n c in
          let room_d : d.room + 1 ≡ c.room = ap (λ x. x.room + 1) now_is ∙ left in
          let fits : length (gone_sensors w.now d.heard d.sensors nodes) ≤ d.room =
            rw rest (omega arith) in
          let told : d.events
              ≡ record { sensor_id = gone.id; sensor = gone; siren_report = false } ∷ c.events =
            ap (λ x. x.events) now_is ∙ events in
          mark_silent-events w nodes d up (ap (λ x. x.closed) now_is ∙ closed) fits
          ∙ rw (rest, told, silent) refl
      | inr still ↦
          let same = silence-still w id n c still in
          ap (λ d. (mark_silent w nodes d).events) same
          ∙ mark_silent-events w nodes c up is_open (rw still at room)
          ∙ rw still refl
    ]

-- What a tick publishes: each sensor that falls silent, once, as unreachable, in ascending order of the ids,
-- and nothing else, when the client is open and its channel has the room.
pub tick_events :
    (w : World) (c : RadioClient)
    → Ascending c.nodes
    → c.closed ≡ false
    → length (gone_sensors w.now c.heard c.sensors c.nodes) ≤ c.room
    → (tick w c).events ≡ then_states (gone_sensors w.now c.heard c.sensors c.nodes) c.events
unfolding tick
tick_events w c up is_open room = mark_silent-events w c.nodes c up is_open room
