-- ===== src/Camera/Serving.antt =====
-- Whom the radio client serves after `reload` (internal/camera/radio.go): nobody but the sensors of the
-- configuration.
use openqiara.Prelude.{
  ℕ, ◌≡◌, Bool, false, ◌||◌, none, some, List, [], ◌∷◌, ◌==◌, if◌then◌else◌, arith, refl, inl, inr,
  Bool-cases, Option-cases, ==_iff, All, Dict, lookup, insert, lookup-insert,
}
use openqiara.Radio.Types.{NodeInfo, Node, Engine, Model}
use openqiara.Radio.Engine.{
  find, put, remove, set_node, remove_node, set_alarm_siren, forget_configs, update_node, new_node,
}
use openqiara.Config.Types.{SensorEntry}
use openqiara.Camera.Sensors.{Sensor}
use openqiara.Camera.Client.{World, RadioClient}
use openqiara.Camera.Reload.{
  Serving, radio_model, node_of, live_sensor, registered, keeps_addr, drop_gone, serve, serve_all,
  to_serve, reload,
}

find-put :
    (a k : ℕ) (n : Node) (m : List (ℕ × Node))
    → find a (put k n m) ≡ (if a == k then some n else find a m)
unfolding find put
find-put a k n [] = ground arith
find-put a k n ((b, v) ∷ m) = ground (arith, find-put a k n m)

pub find-remove :
    (a k : ℕ) (m : List (ℕ × Node)) → find a (remove k m) ≡ (if a == k then none else find a m)
unfolding find remove
find-remove a k [] = ground arith
find-remove a k ((b, v) ∷ m) = ground (arith, find-remove a k m)

find-forget_configs :
    (a : ℕ) (m : List (ℕ × Node)) → find a m ≡ none → find a (forget_configs m) ≡ none
unfolding find forget_configs
find-forget_configs a [] h = refl
find-forget_configs a ((b, v) ∷ m) h = elim (Bool-cases (a == b)) [
  | inl same ↦ ground arith
  | inr other ↦ rw other (find-forget_configs a m (ground arith))
]

pub find-set_alarm_siren :
    (a addr : ℕ) (e : Engine) → find a e.nodes ≡ none → find a (set_alarm_siren e addr).nodes ≡ none
unfolding set_alarm_siren
find-set_alarm_siren a addr e h = ground (arith, find-forget_configs a e.nodes h)

pub set_node-other :
    (a : ℕ) (e e' : Engine) (n : NodeInfo)
    → set_node e n ≡ some e'
    → (n.addr == a) ≡ false
    → find a e.nodes ≡ none
    → find a e'.nodes ≡ none
unfolding set_node
set_node-other a e e' n set other h = elim (Option-cases (find n.addr e.nodes)) [
  | inl new ↦ ground (arith, find-put a n.addr (new_node n) e.nodes)
  | inr (old, at) ↦ ground (arith, find-put a n.addr (update_node n old) e.nodes)
]

-- Some node has the address.
abbrev pub any_addr : ℕ → Dict NodeInfo → Bool
any_addr a [] = false
any_addr a ((id, n) ∷ nodes) = n.addr == a || any_addr a nodes

any_addr-insert :
    (a id : ℕ) (n : NodeInfo) (nodes : Dict NodeInfo)
    → (n.addr == a) ≡ false
    → any_addr a nodes ≡ false
    → any_addr a (insert id n nodes) ≡ false
unfolding insert
any_addr-insert a id n [] other h = ground arith
any_addr-insert a id n ((j, m) ∷ nodes) other h = ground (arith, any_addr-insert a id n nodes other)

pub lookup-any_addr :
    (a id : ℕ) (nodes : Dict NodeInfo)
    → any_addr a nodes ≡ false
    → keeps_addr a (lookup id nodes) ≡ false
unfolding lookup
lookup-any_addr a id [] h = refl
lookup-any_addr a id ((j, m) ∷ nodes) h = ground (arith, lookup-any_addr a id nodes)

-- The engine serves nobody but the nodes of the client.
abbrev pub Serves : RadioClient → Type 0
Serves c = (a : ℕ) → any_addr a c.nodes ≡ false → find a c.engine.nodes ≡ none

drop_one :
    (a id : ℕ) (n : NodeInfo) (nodes old : Dict NodeInfo) (e : Engine)
    → any_addr a nodes ≡ false
    → any_addr a old ≡ false
    → (any_addr a ((id, n) ∷ old) ≡ false → find a e.nodes ≡ none)
    → find a (if keeps_addr n.addr (lookup id nodes) then e else remove_node e n.addr).nodes ≡ none
unfolding remove_node
drop_one a id n nodes old e new rest h = elim (Bool-cases (n.addr == a)) [
  | inl same ↦
      ground (arith, ==_iff n.addr a, lookup-any_addr a id nodes, find-remove a n.addr e.nodes)
  | inr other ↦
      let gone : find a e.nodes ≡ none = h (rw (other, rest)) in
      ground (arith, find-remove a n.addr e.nodes)
]

pub drop_gone_lem :
    (a : ℕ) (nodes old : Dict NodeInfo) (e : Engine)
    → any_addr a nodes ≡ false
    → (any_addr a old ≡ false → find a e.nodes ≡ none)
    → find a (drop_gone nodes old e).nodes ≡ none
unfolding drop_gone
drop_gone_lem a nodes [] e new h = h refl
drop_gone_lem a nodes ((id, n) ∷ old) e new h =
    drop_gone_lem a nodes old
      (if keeps_addr n.addr (lookup id nodes) then e else remove_node e n.addr) new
      (λ rest. drop_one a id n nodes old e new rest h)

-- An address that no node has is served neither by the engine nor by the client.
abbrev Absent : ℕ → Serving → Type 0
Absent a s = (find a s.engine.nodes ≡ none) × (lookup a s.ids ≡ none)

serve-Absent :
    (now a id : ℕ) (n : NodeInfo) (s : Serving)
    → (n.addr == a) ≡ false
    → Absent a s
    → Absent a (serve now id n s)
unfolding serve remove_node
serve-Absent now a id n s other (e, i) = elim (Option-cases (set_node s.engine n)) [
  | inl refused ↦ rw (refused, serve) (ground (arith, find-remove a n.addr s.engine.nodes), i)
  | inr (e', set) ↦
      rw (set, serve)
        (
          set_node-other a s.engine e' n set other e,
          ground (arith, lookup-insert a n.addr id s.ids),
        )
]

serve_all-Absent :
    (now a : ℕ) (nodes : Dict NodeInfo) (s : Serving)
    → any_addr a nodes ≡ false
    → Absent a s
    → Absent a (serve_all now nodes s)
unfolding serve_all
serve_all-Absent now a [] s h absent = absent
serve_all-Absent now a ((id, n) ∷ nodes) s h absent =
    serve_all-Absent now a nodes (serve now id n s) (ground arith)
      (serve-Absent now a id n s (ground arith) absent)

-- The sensors that have not the address.
abbrev pub Elsewhere : ℕ → SensorEntry → Type 0
Elsewhere a se = (se.radio.addr == a) ≡ false

node_of-addr :
    (se : SensorEntry) (m : Model) (n : NodeInfo) → node_of se m ≡ some n → n.addr ≡ se.radio.addr
unfolding node_of
node_of-addr se m n h = ground arith

registered-any_addr :
    (a : ℕ) (old : Dict Sensor) (ses : List SensorEntry) (nodes : Dict NodeInfo)
    (sensors : Dict Sensor)
    → All (Elsewhere a) ses
    → any_addr a nodes ≡ false
    → any_addr a (registered old ses nodes sensors).0 ≡ false
unfolding registered
registered-any_addr a old [] nodes sensors e h = h
registered-any_addr a old (se ∷ ses) nodes sensors (p, e) h =
    elim (Option-cases (radio_model se.type)) [
      | inl other ↦ rw (other, any_addr) (registered-any_addr a old ses nodes sensors e h)
      | inr (m, model) ↦ elim (Option-cases (node_of se m)) [
        | inl unserved ↦
            rw (model, unserved, any_addr)
              (registered-any_addr a old ses nodes
                (insert se.id (record (live_sensor old se) { reachable = false }) sensors) e h)
        | inr (n, served) ↦
            rw (model, served, any_addr)
              (registered-any_addr a old ses (insert se.id n nodes)
                (insert se.id (live_sensor old se) sensors) e
                (any_addr-insert a se.id n nodes (rw (node_of-addr se m n served) p) h))
      ]
    ]

-- After `reload`, neither the engine nor the client knows an address that no sensor of the configuration has.
pub reload-absent :
    (w : World) (c : RadioClient) (a : ℕ)
    → Serves c
    → All (Elsewhere a) c.store.cfg.sensors
    → (find a (reload w c).engine.nodes ≡ none) × (lookup a (reload w c).ids ≡ none)
unfolding reload
reload-absent w c a serves elsewhere =
    let new : any_addr a (to_serve c).nodes ≡ false =
      registered-any_addr a c.sensors c.store.cfg.sensors [] [] elsewhere refl in
    let gone = drop_gone_lem a (to_serve c).nodes c.nodes c.engine new (serves a) in
    let (e, i) =
      serve_all-Absent w.now a (to_serve c).nodes (to_serve c) new (gone, unfold lookup in refl) in
    (find-set_alarm_siren a _ _ e, i)
