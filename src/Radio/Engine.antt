-- ===== src/Radio/Engine.antt =====
-- The radio engine, internal/radio/engine.go. A method returns the new engine and what the caller
-- must send and publish. A node is worked on outside the map and put back.
use openqiara.Prelude.{
  ℕ, ◌/◌, ◌%◌, Bool, true, false, ◌&&◌, ◌||◌, not, Option, none, some, List, [], ◌∷◌, ◌++◌, ltb,
  ◌==◌, if◌then◌else◌,
}
use openqiara.Charmux.Frame.{ManagedFrame, flag_z, flag_w, flag_a}
use openqiara.Radio.Types.{
  Model, delivery_failed, unknown_sensor, pos, NodeInfo, idle, Node, SentFrame, Result, Engine,
}
use openqiara.Radio.Sensors.{is_srn, node_events, node_config, valid_pin}
use openqiara.Radio.Dialogue.{set_sent, command_frame, answer}

-- The map of the nodes.
unfoldable pub find : ℕ → List (ℕ × Node) → Option Node
find a [] = none
find a ((b, n) ∷ m) = if a == b then some n else find a m

unfoldable pub put : ℕ → Node → List (ℕ × Node) → List (ℕ × Node)
put a n [] = (a, n) ∷ []
put a n ((b, k) ∷ m) =
    let rest = put a n m in
    if a == b then (a, n) ∷ m else if ltb a b then (a, n) ∷ (b, k) ∷ m else (b, k) ∷ rest

unfoldable pub remove : ℕ → List (ℕ × Node) → List (ℕ × Node)
remove a [] = []
remove a ((b, k) ∷ m) = let rest = remove a m in if a == b then rest else (b, k) ∷ rest

module _ (bytecode : List ℕ → Option (List (List ℕ))) where
  -- What a frame of a known sensor makes: its events, and the answer if it is flagged Z.
  unfoldable pub receive_known : Engine → Node → ManagedFrame → ℕ → Engine × Result
  receive_known e n rx now =
      if flag_z rx.flags
      then (let (t, events) = answer bytecode e n rx now in
          (
            record t.engine { nodes = put rx.src t.node t.engine.nodes },
            record { send = t.out ∷ []; events = node_events n rx ++ events },
          ))
      else (e, record { send = []; events = node_events n rx })

abbrev pub nothing : Result
nothing = record { send = []; events = [] }

-- A lost frame's node: its config goes out again, its dialogue is dropped if it was the last frame.
unfoldable pub lose : ℕ → SentFrame → Node → Node
lose counter s n =
    let again = if s.config then record n { config_sent = false } else n in
    elim n.last_reply [
      | none ↦ again
      | some c ↦ if c == counter then record again { step = idle; vm = [] } else again
    ]

-- `Lost`, of a frame that is remembered.
unfoldable pub lost_frame : Engine → ℕ → SentFrame → Engine × Result
unfolding lose
lost_frame e counter s =
    let forgot = record e { sent = set_sent counter none e.sent } in
    elim (find s.addr e.nodes) [
      | none ↦ (forgot, nothing)
      | some n ↦ (
        record forgot { nodes = put s.addr (lose counter s n) e.nodes },
        record {
          send = [];
          events =
              record { addr = n.info.addr; kind = delivery_failed; value = pos counter; code = [] }
              ∷ [];
        },
      )
    ]

unfoldable pub lost : Engine → ℕ → Engine × Result
unfolding lost_frame
lost e counter = elim (e.sent counter) [ none ↦ (e, nothing) | some s ↦ lost_frame e counter s ]

abbrev pub unknown : ℕ → Result
unknown addr = record {
  send = [];
  events = record { addr = addr; kind = unknown_sensor; value = pos 0; code = [] } ∷ [];
}

module _ (bytecode : List ℕ → Option (List (List ℕ))) where
  -- `now` is in seconds. The reason of a report is in flag bits 6 to 9.
  unfoldable pub receive : Engine → ℕ → ManagedFrame → Engine × Result
  receive e now rx =
      if not (flag_z rx.flags || flag_w rx.flags || flag_a rx.flags)
      then if rx.flags / 64 % 16 == 0 then (e, nothing) else lost e rx.ack_cnt
      else elim (find rx.src e.nodes) [
        | none ↦ (e, unknown rx.src)
        | some n ↦ receive_known bytecode e n rx now
      ]

unfoldable pub command : Engine → ℕ → List ℕ → Engine × Result
unfolding command_frame
command e addr payload = elim (find addr e.nodes) [
  | none ↦ (e, unknown addr)
  | some n ↦
      (let (e', f) = command_frame e n payload false in (e', record { send = f ∷ []; events = [] }))
]

-- The loop of `Start` over the nodes, in ascending order of their addresses.
unfoldable pub start_loop : List (ℕ × Node) → Engine → Engine × List ManagedFrame
unfolding command_frame
start_loop [] e = (e, [])
start_loop ((a, n) ∷ m) e =
    if is_srn n.info.model
    then (let (e₁, f) = command_frame e n (node_config n e.alarm_siren) true in
        let noted = record e₁ { nodes = put a (record n { config_sent = true }) e₁.nodes } in
        let (e₂, fs) = start_loop m noted in (e₂, f ∷ fs))
    else start_loop m e

unfoldable pub start : Engine → Engine × Result
start e = let (e', fs) = start_loop e.nodes e in (e', record { send = fs; events = [] })

abbrev pub model_eq : Model → Model → Bool
model_eq Model.dws Model.dws = true
model_eq Model.pir Model.pir = true
model_eq Model.kpd Model.kpd = true
model_eq Model.srn Model.srn = true
model_eq (Model.other_model i) (Model.other_model j) = i == j
model_eq _ _ = false

abbrev pub all_valid : List (List ℕ) → Bool
all_valid [] = true
all_valid (pin ∷ pins) = valid_pin pin && all_valid pins

-- A sensor that is known keeps its dialogue; a new model or index means a new config.
unfoldable pub update_node : NodeInfo → Node → Node
update_node i n =
    let same = model_eq n.info.model i.model && n.info.system_index == i.system_index in
    record n { info = i; config_sent = if same then n.config_sent else false }

unfoldable pub new_node : NodeInfo → Node
new_node i = record {
  info = i;
  step = idle;
  vm = [];
  sent_ops = 0;
  need_time = false;
  config_sent = false;
  last_reply = none;
}

-- `none` is the error of a keypad code that is empty or has no digits only.
unfoldable pub set_node : Engine → NodeInfo → Option Engine
unfolding update_node new_node
set_node e i =
    if all_valid i.pins
    then elim (find i.addr e.nodes) [
      | some n ↦ some (record e { nodes = put i.addr (update_node i n) e.nodes })
      | none ↦ some (record e { nodes = put i.addr (new_node i) e.nodes })
    ]
    else none

unfoldable pub remove_node : Engine → ℕ → Engine
remove_node e addr = record e { nodes = remove addr e.nodes }

-- Every sensor but the siren gets its config again.
unfoldable pub forget_configs : List (ℕ × Node) → List (ℕ × Node)
forget_configs [] = []
forget_configs ((a, n) ∷ m) =
    (a, if is_srn n.info.model then n else record n { config_sent = false }) ∷ forget_configs m

unfoldable pub set_alarm_siren : Engine → ℕ → Engine
set_alarm_siren e addr =
    if addr == e.alarm_siren
    then e
    else record e { alarm_siren = addr; nodes = forget_configs e.nodes }

-- The loop of `New` over the sensors.
unfoldable pub new_loop : List NodeInfo → Engine → Option Engine
new_loop [] e = some e
new_loop (i ∷ is) e = elim (set_node e i) [ none ↦ none | some e' ↦ new_loop is e' ]

unfoldable pub new : ℕ → ℕ → List NodeInfo → Option Engine
unfolding new_loop
new gateway alarm_siren nodes = new_loop nodes (record {
  gateway = gateway;
  counter = 0;
  alarm_siren = alarm_siren;
  nodes = [];
  sent = λ c. none;
})
