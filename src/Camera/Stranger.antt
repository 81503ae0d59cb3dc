-- ===== src/Camera/Stranger.antt =====
-- The frames of the sensors that the configuration has not (internal/camera/radio.go `receive`): nobody answers
-- them, and nothing comes of them.
use openqiara.Prelude.{
  ℕ, ◌/◌, ◌≡◌, true, false, none, List, [], ◌∷◌, ◌==◌, arith, refl, inl, inr, Option-cases, All,
  Dict, lookup, insert, lookup-insert, lookup-erase,
}
use openqiara.Charmux.Frame.{ManagedFrame}
use openqiara.Radio.Types.{NodeInfo}
use openqiara.Radio.Engine.{find, set_node}
use openqiara.Radio.Engine
use openqiara.Config.Types.{SensorEntry}
use openqiara.Camera.Sensors.{Sensor}
use openqiara.Camera.Client.{World, RadioClient, send, send_frames, publish_all, publish}
use openqiara.Camera.Reload.{
  Serving, radio_model, node_of, live_sensor, registered, serve, serve_all, to_serve, reload,
}
use openqiara.Camera.Receive.{note, stale_siren, receive_frame, from_sensor, id_at, second}
use openqiara.Camera.Serving.{Serves, Elsewhere, reload-absent}

abbrev pub NotNumbered : ℕ → SensorEntry → Type 0
NotNumbered k se = (k == se.id) ≡ false

-- No node has the id of no sensor.
registered-none :
    (k : ℕ) (old : Dict Sensor) (ses : List SensorEntry) (nodes : Dict NodeInfo)
    (sensors : Dict Sensor)
    → All (NotNumbered k) ses
    → lookup k nodes ≡ none
    → lookup k (registered old ses nodes sensors).0 ≡ none
unfolding registered lookup
registered-none k old [] nodes sensors e h = h
registered-none k old (se ∷ ses) nodes sensors (p, e) h =
    elim (Option-cases (radio_model se.type)) [
      | inl other ↦ rw (other, lookup) (registered-none k old ses nodes sensors e h)
      | inr (m, model) ↦ elim (Option-cases (node_of se m)) [
        | inl unserved ↦
            rw (model, unserved, lookup)
              (registered-none k old ses nodes
                (insert se.id (record (live_sensor old se) { reachable = false }) sensors) e h)
        | inr (n, served) ↦
            rw (model, served, lookup)
              (registered-none k old ses (insert se.id n nodes)
                (insert se.id (live_sensor old se) sensors) e
                (ground (arith, lookup-insert k se.id n nodes)))
      ]
    ]

serve-none :
    (k now id : ℕ) (n : NodeInfo) (s : Serving)
    → lookup k s.nodes ≡ none
    → lookup k (serve now id n s).nodes ≡ none
unfolding serve
serve-none k now id n s h = elim (Option-cases (set_node s.engine n)) [
  | inl refused ↦ rw (refused, serve) (ground (arith, lookup-erase k id s.nodes))
  | inr (e, set) ↦ rw (set, serve) h
]

serve_all-none :
    (k now : ℕ) (todo : Dict NodeInfo) (s : Serving)
    → lookup k s.nodes ≡ none
    → lookup k (serve_all now todo s).nodes ≡ none
unfolding serve_all
serve_all-none k now [] s h = h
serve_all-none k now ((id, n) ∷ todo) s h =
    serve_all-none k now todo (serve now id n s) (serve-none k now id n s h)

reload-none :
    (k : ℕ) (w : World) (c : RadioClient)
    → All (NotNumbered k) c.store.cfg.sensors
    → lookup k (reload w c).nodes ≡ none
unfolding reload
reload-none k w c h =
    serve_all-none k w.now (to_serve c).nodes (to_serve c)
      (registered-none k c.sensors c.store.cfg.sensors [] [] h (unfold lookup in refl))

-- Each step of `receive`, for a sensor that neither the client nor the engine knows.
note-absent :
    (w : World) (rx : ManagedFrame) (c : RadioClient)
    → lookup rx.src c.ids ≡ none
    → note w rx c ≡ (c, false)
unfolding note
note-absent w rx c ids = rw (ids, note)

engine-absent :
    (w : World) (rx : ManagedFrame) (c : RadioClient) (now : ℕ)
    → find rx.src c.engine.nodes ≡ none
    → from_sensor rx ≡ true
    → Engine.receive w.bytecode c.engine now rx ≡ (c.engine, Engine.unknown rx.src)
unfolding Engine.receive
engine-absent w rx c now nodes sensor = ground arith

stale_siren-absent :
    (rx : ManagedFrame) (c : RadioClient)
    → lookup 0 c.nodes ≡ none
    → stale_siren 0 rx c ≡ (c, false)
unfolding stale_siren
stale_siren-absent rx c nodes = rw (nodes, stale_siren)

send-absent :
    (w : World) (a : ℕ) (c : RadioClient)
    → lookup a c.ids ≡ none
    → send w (Engine.unknown a) c ≡ (c, true)
unfolding send send_frames publish_all publish
send-absent w a c ids = rw (ids, publish)

receive_frame-absent :
    (w : World) (rx : ManagedFrame) (c : RadioClient)
    → lookup rx.src c.ids ≡ none
    → find rx.src c.engine.nodes ≡ none
    → lookup 0 c.nodes ≡ none
    → from_sensor rx ≡ true
    → receive_frame w rx c ≡ c
unfolding receive_frame
receive_frame-absent w rx c ids nodes zero_id sensor =
    let no_id : id_at rx.src c ≡ 0 = rw (ids, id_at) in
    rw
      (
        note-absent w rx c ids,
        engine-absent w rx c (w.now / second) nodes sensor,
        no_id,
        stale_siren-absent rx c zero_id,
        send-absent w rx.src c ids,
      )
      refl

-- `reload` makes the client deaf to a sensor that the configuration has not, such as one that was deleted:
-- when the engine serves nobody but the client's nodes and no sensor of the configuration has the id 0, a
-- frame of an address that none of them has, with one of the flags Z, W and A, which the delivery
-- reports of the microcontroller have not, changes nothing, so it is not answered and nothing is
-- published.
pub reload-deaf :
    (w : World) (rx : ManagedFrame) (c : RadioClient)
    → Serves c
    → All (Elsewhere rx.src) c.store.cfg.sensors
    → All (NotNumbered 0) c.store.cfg.sensors
    → from_sensor rx ≡ true
    → receive_frame w rx (reload w c) ≡ reload w c
reload-deaf w rx c serves elsewhere numbered sensor =
    let (nodes, ids) = reload-absent w c rx.src serves elsewhere in
    receive_frame-absent w rx (reload w c) ids nodes (reload-none 0 w c numbered) sensor
