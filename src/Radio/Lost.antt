-- ===== src/Radio/Lost.antt =====
-- What the radio engine makes of a frame that is reported lost (internal/radio/engine.go `Lost`).
use openqiara.Prelude.{ℕ, ◌≡◌, true, false, none, some, List, [], ◌∷◌, arith, refl, ap}
use openqiara.Charmux.Frame.{ManagedFrame}
use openqiara.Radio.Types.{Engine, Node, NodeInfo, idle, delivery_failed, pos}
use openqiara.Radio.Dialogue.{Turn, reply, finish}
use openqiara.Radio.Engine
use openqiara.Radio.Engine.{find, put, lost}

pub find-put : (a : ℕ) (n : Node) (m : List (ℕ × Node)) → find a (put a n m) ≡ some n
unfolding find put
find-put a n [] = ground arith
find-put a n ((b, k) ∷ m) = ground (arith, find-put a n m)

-- The engine once a turn is over: the node is back in the map.
abbrev pub settled : Turn → ℕ → Engine
settled t addr = record t.engine { nodes = put addr t.node t.engine.nodes }

lost_forgotten : (e : Engine) (c : ℕ) → e.sent c ≡ none → lost e c ≡ (e, Engine.nothing)
unfolding lost
lost_forgotten e c h = ground arith

-- A config that is lost as the last answer of a sensor.
lost_config :
    (e : Engine) (n : Node) (i : NodeInfo) (c : ℕ)
    → n.info ≡ i
    → e.sent c ≡ some (record { addr = i.addr; config = true })
    → find i.addr e.nodes ≡ some n
    → n.last_reply ≡ some c
    → (find i.addr (lost e c).0.nodes
        ≡ some (record n { config_sent = false; step = idle; vm = [] }))
      × ((lost e c).0.sent c ≡ none)
      × ((lost e c).1.events
          ≡ record { addr = i.addr; kind = delivery_failed; value = pos c; code = [] } ∷ [])
unfolding lost Engine.lost_frame Engine.lose
lost_config e n i c same h found last =
    ground (arith, find-put i.addr (record n { config_sent = false; step = idle; vm = [] }) e.nodes)

finish_config :
    (e : Engine) (n : Node) (rx : ManagedFrame) (now : ℕ)
    → n.need_time ≡ false
    → n.config_sent ≡ false
    → ((finish e n rx now).engine.sent (finish e n rx now).out.counter
        ≡ some (record { addr = n.info.addr; config = true }))
      × ((finish e n rx now).node.last_reply ≡ some (finish e n rx now).out.counter)
      × ((finish e n rx now).node.info ≡ n.info)
unfolding finish reply
finish_config e n rx now time config = ground arith

-- A sensor that has no config gets it at the end of its dialogue. If that frame is reported lost,
-- the sensor is due its config again and in no dialogue, and the loss is reported; a second report of
-- the same frame does nothing.
pub config_again :
    (e : Engine) (n : Node) (rx : ManagedFrame) (now : ℕ)
    → n.need_time ≡ false
    → n.config_sent ≡ false
    → let t = finish e n rx now in
      let (e', r) = lost (settled t n.info.addr) t.out.counter in
      ((n' : Node) × (find n.info.addr e'.nodes ≡ some n')
        × (n'.config_sent ≡ false)
        × (n'.step ≡ idle)
        × (n'.info ≡ n.info))
      × (r.events
          ≡ record {
            addr = n.info.addr;
            kind = delivery_failed;
            value = pos t.out.counter;
            code = [];
          }
            ∷ [])
      × ((lost e' t.out.counter).0 ≡ e')
      × ((lost e' t.out.counter).1.events ≡ [])
config_again e n rx now time config =
    let t = finish e n rx now in
    let s = settled t n.info.addr in
    let (kept, last, same) = finish_config e n rx now time config in
    let c = t.out.counter in
    let found = find-put n.info.addr t.node t.engine.nodes in
    let (again, gone, told) = lost_config s t.node n.info c same kept found last in
    let second = lost_forgotten (lost s c).0 c gone in
    (
      (record t.node { config_sent = false; step = idle; vm = [] }, again, refl, refl, same),
      told,
      ap (λ r. r.0) second,
      ap (λ r. r.1.events) second,
    )
