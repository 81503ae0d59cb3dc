-- ===== src/Camera/Reload.antt =====
-- What the engine serves, internal/camera/radio.go `reload`: the sensors of the configuration, but for those
-- that have no address and the keypads without a code.
use openqiara.Prelude.{
  ℕ, ◌∷◌, Bool, true, false, ◌&&◌, Option, none, some, List, [], ◌==◌, if◌then◌else◌, map, Dict,
  lookup, insert, erase, has,
}
use openqiara.Radio.Types.{Model, dws, pir, kpd, srn, NodeInfo, Engine}
use openqiara.Radio.Sensors.{is_srn}
use openqiara.Radio.Engine.{model_eq, set_node, remove_node, set_alarm_siren}
use openqiara.Config.Types.{SensorEntry}
use openqiara.Camera.Sensors.{Sensor, battery_percent}
use openqiara.Camera.Client.{World, RadioClient, no_sensor}
use Prim.Native.String.{String}
use text.Mathlib.Text.{◌==◌ as str_eq}

-- `radioModels`
unfoldable pub radio_model : String → Option Model
radio_model typ =
    if str_eq typ "DWS"
    then some dws
    else if str_eq typ "PIR"
    then some pir
    else if str_eq typ "KPD"
    then some kpd
    else if str_eq typ "SRN"
    then some srn
    else none

-- The live state of a sensor of the configuration: the one that it has, or a new one.
unfoldable pub live_sensor : Dict Sensor → SensorEntry → Sensor
unfolding battery_percent
live_sensor old se = elim (lookup se.id old) [
  | some s ↦ record s { type = se.type; item_id = se.radio.uid }
  | none ↦ record {
    id = se.id;
    type = se.type;
    item_id = se.radio.uid;
    battery = battery_percent se.type se.battery;
    reachable = true;
    temperature = se.temperature;
    is_open = none;
    motion = none;
    kpd_state = "";
    siren_state = "";
    last_seen = 0;
  }
]

-- What the engine is to serve of a sensor, if anything.
unfoldable pub node_of : SensorEntry → Model → Option NodeInfo
node_of se model =
    if se.radio.addr == 0
    then none
    else if model_eq model kpd
    then elim se.kpd_codes [
      | [] ↦ none
      | code ∷ codes ↦ some (record {
        addr = se.radio.addr;
        model = model;
        system_index = se.radio.system_index;
        pins = map (λ c. c.password) (code ∷ codes);
      })
    ]
    else some (record {
      addr = se.radio.addr;
      model = model;
      system_index = se.radio.system_index;
      pins = [];
    })

-- The loop over the sensors of the configuration.
unfoldable pub registered :
    Dict Sensor → List SensorEntry → Dict NodeInfo → Dict Sensor → Dict NodeInfo × Dict Sensor
unfolding live_sensor node_of
registered old [] nodes sensors = (nodes, sensors)
registered old (se ∷ ses) nodes sensors = elim (radio_model se.type) [
  | none ↦ registered old ses nodes sensors
  | some model ↦ elim (node_of se model) [
    | none ↦
        registered old ses nodes
          (insert se.id (record (live_sensor old se) { reachable = false }) sensors)
    | some n ↦ registered old ses (insert se.id n nodes) (insert se.id (live_sensor old se) sensors)
  ]
]

abbrev pub keeps_addr : ℕ → Option NodeInfo → Bool
keeps_addr addr none = false
keeps_addr addr (some n) = n.addr == addr

-- The loop over the nodes that were served.
unfoldable pub drop_gone : Dict NodeInfo → Dict NodeInfo → Engine → Engine
drop_gone nodes [] e = e
drop_gone nodes ((id, n) ∷ old) e =
    drop_gone nodes old (if keeps_addr n.addr (lookup id nodes) then e else remove_node e n.addr)

-- What the loop over the new nodes changes.
pub record Serving : Type 0 where
  pub engine : Engine
  pub nodes : Dict NodeInfo
  pub sensors : Dict Sensor
  pub ids : Dict ℕ
  pub heard : Dict ℕ
  pub siren : ℕ

abbrev pub unreachable : Option Sensor → Sensor
unreachable none = record no_sensor { reachable = false }
unreachable (some s) = record s { reachable = false }

unfoldable pub serve : ℕ → ℕ → NodeInfo → Serving → Serving
serve now id n s = elim (set_node s.engine n) [
  | none ↦ record s {
    engine = remove_node s.engine n.addr;
    nodes = erase id s.nodes;
    sensors = insert id (unreachable (lookup id s.sensors)) s.sensors;
  }
  | some e ↦ record s {
    engine = e;
    ids = insert n.addr id s.ids;
    heard = if has id s.heard then s.heard else insert id now s.heard;
    siren = if s.siren == 0 && is_srn n.model then n.addr else s.siren;
  }
]

unfoldable pub serve_all : ℕ → Dict NodeInfo → Serving → Serving
unfolding serve
serve_all now [] s = s
serve_all now ((id, n) ∷ nodes) s = serve_all now nodes (serve now id n s)

-- The loop over `heard`.
unfoldable pub only_served : Dict NodeInfo → Dict ℕ → Dict ℕ
only_served nodes [] = []
only_served nodes ((id, at) ∷ heard) =
    let rest = only_served nodes heard in if has id nodes then (id, at) ∷ rest else rest

-- What `reload` starts the loop with.
abbrev pub to_serve : RadioClient → Serving
to_serve c =
    let (nodes, sensors) = registered c.sensors c.store.cfg.sensors [] [] in
    record {
      engine = drop_gone nodes c.nodes c.engine;
      nodes = nodes;
      sensors = sensors;
      ids = [];
      heard = c.heard;
      siren = 0;
    }

unfoldable pub reload : World → RadioClient → RadioClient
unfolding registered drop_gone serve_all only_served
reload w c =
    let s = serve_all w.now (to_serve c).nodes (to_serve c) in
    record c {
      engine = set_alarm_siren s.engine s.siren;
      nodes = s.nodes;
      sensors = s.sensors;
      ids = s.ids;
      heard = only_served s.nodes s.heard;
    }
