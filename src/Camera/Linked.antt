-- ===== src/Camera/Linked.antt =====
-- The engine serves nobody but the nodes of the client, before `reload` (internal/camera/radio.go) and after.
use openqiara.Prelude.{
  ℕ, ◌≡◌, true, false, none, some, List, [], ◌∷◌, ◌==◌, arith, refl, inl, inr, Bool-cases,
  Option-cases, Dict, lookup, insert, lookup-insert, lookup-erase, Above, Ascending, Holds,
  Holds-erase, Ascending-Holds, insert-Ascending,
}
use openqiara.Radio.Types.{NodeInfo, Engine}
use openqiara.Radio.Engine.{find, set_node, remove_node}
use openqiara.Config.Types.{SensorEntry}
use openqiara.Camera.Sensors.{Sensor}
use openqiara.Camera.Client.{World, RadioClient}
use openqiara.Camera.Reload.{
  Serving, radio_model, node_of, live_sensor, registered, keeps_addr, serve, serve_all, to_serve,
  reload,
}
use openqiara.Camera.Serving.{
  any_addr, lookup-any_addr, set_node-other, find-remove, find-set_alarm_siren, drop_gone_lem,
  Serves,
}

pub registered-Ascending :
    (old : Dict Sensor) (ses : List SensorEntry) (nodes : Dict NodeInfo) (sensors : Dict Sensor)
    → Ascending nodes
    → Ascending (registered old ses nodes sensors).0
unfolding registered
registered-Ascending old [] nodes sensors h = h
registered-Ascending old (se ∷ ses) nodes sensors h = elim (Option-cases (radio_model se.type)) [
  | inl other ↦ rw (other, Ascending) (registered-Ascending old ses nodes sensors h)
  | inr (m, model) ↦ elim (Option-cases (node_of se m)) [
    | inl unserved ↦
        rw (model, unserved, Ascending)
          (registered-Ascending old ses nodes
            (insert se.id (record (live_sensor old se) { reachable = false }) sensors) h)
    | inr (n, served) ↦
        rw (model, served, Ascending)
          (registered-Ascending old ses (insert se.id n nodes)
            (insert se.id (live_sensor old se) sensors) (insert-Ascending se.id n nodes h))
  ]
]

-- What the loop over the nodes keeps: `todo` are those to come.
record Linked (todo : Dict NodeInfo) (s : Serving) : Type 0 where
  pub kept : Holds s.nodes todo
  pub linked :
      (a id : ℕ)
      → lookup a s.ids ≡ some id
      → Above id todo × (keeps_addr a (lookup id s.nodes) ≡ true)
  pub only :
      (a : ℕ) → lookup a s.ids ≡ none → any_addr a todo ≡ false → find a s.engine.nodes ≡ none

refused-Linked :
    (now id : ℕ) (n : NodeInfo) (todo : Dict NodeInfo) (s : Serving)
    → Above id todo
    → set_node s.engine n ≡ none
    → Linked ((id, n) ∷ todo) s
    → Linked todo (serve now id n s)
unfolding serve remove_node
refused-Linked now id n todo s above refused l =
    rw (refused, serve)
      record {
        kept = Holds-erase id s.nodes todo above l.kept.1;
        linked = λ a j at.
            let (up, keeps) = l.linked a j at in (up.1, ground (arith, lookup-erase j id s.nodes));
        only = λ a free rest. elim (Bool-cases (n.addr == a)) [
          | inl same ↦ ground (arith, find-remove a n.addr s.engine.nodes)
          | inr other ↦
              let unserved : find a s.engine.nodes ≡ none = l.only a free (rw (other, rest)) in
              ground (arith, find-remove a n.addr s.engine.nodes)
        ];
      }

taken-Linked :
    (now id : ℕ) (n : NodeInfo) (todo : Dict NodeInfo) (s : Serving) (e : Engine)
    → Above id todo
    → set_node s.engine n ≡ some e
    → Linked ((id, n) ∷ todo) s
    → Linked todo (serve now id n s)
unfolding serve
taken-Linked now id n todo s e above set l =
    rw (set, serve)
      record {
        kept = l.kept.1;
        linked = λ a j at. elim (Bool-cases (a == n.addr)) [
          | inl same ↦
              let its_id : j ≡ id = ground (arith, lookup-insert a n.addr id s.ids) in
              rw its_id (above, ground (arith, l.kept.0))
          | inr other ↦
              let (up, keeps) = l.linked a j (ground (arith, lookup-insert a n.addr id s.ids)) in
              (up.1, keeps)
        ];
        only = λ a free rest. elim (Bool-cases (n.addr == a)) [
          | inl same ↦ ground (arith, lookup-insert a n.addr id s.ids)
          | inr other ↦
              set_node-other a s.engine e n set other
                (l.only a (ground (arith, lookup-insert a n.addr id s.ids)) (rw (other, rest)))
        ];
      }

serve_all-Linked :
    (now : ℕ) (todo : Dict NodeInfo) (s : Serving)
    → Ascending todo
    → Linked todo s
    → Linked [] (serve_all now todo s)
unfolding serve_all
serve_all-Linked now [] s up l = l
serve_all-Linked now ((id, n) ∷ todo) s (above, up) l =
    serve_all-Linked now todo (serve now id n s) up (elim (Option-cases (set_node s.engine n)) [
      | inl refused ↦ refused-Linked now id n todo s above refused l
      | inr (e, set) ↦ taken-Linked now id n todo s e above set l
    ])

Linked-absent :
    (a : ℕ) (s : Serving) → Linked [] s → any_addr a s.nodes ≡ false → find a s.engine.nodes ≡ none
Linked-absent a s l h = elim (Option-cases (lookup a s.ids)) [
  | inl free ↦ l.only a free refl
  | inr (id, at) ↦ absurd (ground (arith, l.linked a id at, lookup-any_addr a id s.nodes))
]

-- When the engine serves nobody but the nodes of the client, it does so after `reload` too: an address that
-- none of the new nodes has, such as that of a sensor that the configuration lost, is not in the engine.
pub reload-Serves :
    (w : World) (c : RadioClient) (a : ℕ)
    → Serves c
    → any_addr a (reload w c).nodes ≡ false
    → find a (reload w c).engine.nodes ≡ none
unfolding reload
reload-Serves w c a serves h =
    let nodes = (to_serve c).nodes in
    let up = registered-Ascending c.sensors c.store.cfg.sensors [] [] tt in
    let start : Linked nodes (to_serve c) = record {
      kept = Ascending-Holds nodes up;
      linked = λ b id at. absurd (unfold lookup in cc);
      only = λ b free new. drop_gone_lem b nodes c.nodes c.engine new (serves b);
    } in
    find-set_alarm_siren a _ _ (
      Linked-absent a (serve_all w.now nodes (to_serve c))
        (serve_all-Linked w.now nodes (to_serve c) up start) h)
