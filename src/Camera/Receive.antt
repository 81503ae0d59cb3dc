-- ===== src/Camera/Receive.antt =====
-- What the radio client does with the frames of the sensors, with their silence and with commands,
-- internal/camera/radio.go. A call that the source makes with the lock held is one step.
use openqiara.Prelude.{
  ℕ, ◌+◌, ◌-◌, ◌*◌, ◌/◌, ◌%◌, ◌∷◌, Bool, true, false, ◌&&◌, ◌||◌, not, Option, none, some, List, [],
  ltb, if◌then◌else◌, Dict, lookup, insert,
}
use openqiara.Charmux.Varint.{u32_mod}
use openqiara.Charmux.Frame.{ManagedFrame, Parsed, deserialize, flag_z, flag_w, flag_a}
use openqiara.Radio.Types.{Model, EventKind, siren_state, Event, NodeInfo}
use openqiara.Radio.Sensors.{is_srn}
use openqiara.Radio.Engine
use openqiara.Camera.Sensors.{Sensor, state_known}
use openqiara.Camera.Registry.{delete_sensor}
use openqiara.Camera.Client.{World, RadioClient, emit, sensor_at, set_sensor, send}
use openqiara.Camera.Reload.{reload}

abbrev pub second : ℕ
second = 1000000000

abbrev pub minute : ℕ
minute = 60 * second

abbrev pub silence_limit : Model → ℕ
silence_limit m = if is_srn m then 30 * minute else 26 * 60 * minute

-- A frame of a sensor, not a report of the microcontroller.
abbrev pub from_sensor : ManagedFrame → Bool
from_sensor rx = flag_z rx.flags || flag_w rx.flags || flag_a rx.flags

-- `c.ids[addr]`, 0 if there is none.
abbrev pub id_at : ℕ → RadioClient → ℕ
id_at addr c = elim (lookup addr c.ids) [ none ↦ 0 | some id ↦ id ]

-- The frame of a paired sensor shows that it is there; whether it comes back.
unfoldable pub note : World → ManagedFrame → RadioClient → RadioClient × Bool
note w rx c = elim (lookup rx.src c.ids) [
  | none ↦ (c, false)
  | some id ↦
      if from_sensor rx
      then (let s = sensor_at id c in
          (
            record (set_sensor id (record s { last_seen = w.now / second; reachable = true }) c) {
              heard = insert id w.now c.heard;
              last_frame = some w.now;
            },
            not s.reachable,
          ))
      else (c, false)
]

-- `last - counter` on 32 bits, of a frame that was overtaken.
abbrev pub is_overtaken : ℕ → ℕ → Bool
is_overtaken last counter =
    let behind = (last + u32_mod - counter) % u32_mod in ltb 0 behind && ltb behind 256

abbrev pub is_siren : Option NodeInfo → Bool
is_siren none = false
is_siren (some n) = is_srn n.model

unfoldable pub stale_siren : ℕ → ManagedFrame → RadioClient → RadioClient × Bool
stale_siren id rx c =
    if not (is_siren (lookup id c.nodes)) || not (from_sensor rx)
    then (c, false)
    else elim (lookup id c.siren_counter) [
      | none ↦ (record c { siren_counter = insert id rx.counter c.siren_counter }, false)
      | some last ↦
          if is_overtaken last rx.counter
          then (c, true)
          else (record c { siren_counter = insert id rx.counter c.siren_counter }, false)
    ]

abbrev pub is_siren_state : EventKind → Bool
is_siren_state siren_state = true
is_siren_state _ = false

unfoldable pub without_siren : List Event → List Event
without_siren [] = []
without_siren (ev ∷ evs) =
    let rest = without_siren evs in if is_siren_state ev.kind then rest else ev ∷ rest

-- `receive` of a frame that can be read.
unfoldable pub receive_frame : World → ManagedFrame → RadioClient → RadioClient
receive_frame w rx c =
    let (c₁, back) = note w rx c in
    let (e, res) = Engine.receive w.bytecode c₁.engine (w.now / second) rx in
    let (c₂, stale) = stale_siren (id_at rx.src c) rx (record c₁ { engine = e }) in
    let kept = if stale then record res { events = without_siren res.events } else res in
    let c₃ = (send w kept c₂).0 in if back then emit (sensor_at (id_at rx.src c) c₃) c₃ else c₃

unfoldable pub receive : World → List ℕ → RadioClient → RadioClient
unfolding receive_frame deserialize
receive w bytes c = elim (deserialize bytes) [
  | Parsed.err e ↦ c
  | Parsed.ok rx ↦ receive_frame w rx c
]

-- Silent past the limit. A sensor that was never heard is.
abbrev pub is_silent : ℕ → Model → Option ℕ → Bool
is_silent now m none = true
is_silent now m (some at) = ltb (silence_limit m) (now - at)

-- The body of the loop of `markSilent`, and the loop over the nodes.
unfoldable pub silence : World → ℕ → NodeInfo → RadioClient → RadioClient
silence w id n c =
    let s = sensor_at id c in
    if not s.reachable || not (is_silent w.now n.model (lookup id c.heard))
    then c
    else (let gone = record s { reachable = false } in emit gone (set_sensor id gone c))

unfoldable pub mark_silent : World → Dict NodeInfo → RadioClient → RadioClient
mark_silent w [] c = c
mark_silent w ((id, n) ∷ nodes) c = mark_silent w nodes (silence w id n c)

-- `markSilent`, and what `run` does with a frame of the radio.
unfoldable pub tick : World → RadioClient → RadioClient
unfolding mark_silent
tick w c = mark_silent w c.nodes c

-- A command, to the engine's node of an address; false is an error.
unfoldable pub command : World → ℕ → List ℕ → RadioClient → RadioClient × Bool
unfolding send
command w addr payload c =
    if c.closed
    then (c, false)
    else (let (e, res) = Engine.command c.engine addr payload in
        send w res (record c { engine = e }))

-- The configuration loses the sensor, then the engine.
unfoldable pub drop_sensor : World → ℕ → RadioClient → RadioClient × Bool
unfolding delete_sensor reload
drop_sensor w id c =
    let (store, done) = delete_sensor w.saves id c.store in
    if done
    then (reload w (record c { store = store }), true)
    else (record c { store = store }, false)

unfoldable pub serves_siren : Dict NodeInfo → Bool
serves_siren [] = false
serves_siren ((id, n) ∷ nodes) = is_srn n.model || serves_siren nodes

-- `RadioHealth`, true if the radio is alive.
unfoldable pub radio_health : World → RadioClient → Bool
unfolding serves_siren
radio_health w c =
    if c.closed
    then false
    else (let since : ℕ = elim c.last_frame [ none ↦ c.started | some at ↦ at ] in
        not (serves_siren c.nodes && ltb (30 * minute) (w.now - since)))

-- `ReadSensor`: a sensor that has not reported its state has none.
unfoldable pub read_sensor : ℕ → RadioClient → Option Sensor
unfolding state_known
read_sensor id c = elim (lookup id c.sensors) [
  | none ↦ none
  | some s ↦ if state_known s then some s else none
]

unfoldable pub siren_addr : ℕ → RadioClient → Option ℕ
siren_addr id c = elim (lookup id c.nodes) [
  | none ↦ none
  | some n ↦ if is_srn n.model then some n.addr else none
]
