-- ===== src/Camera/Keypads.antt =====
-- No keypad is served without a code (internal/camera/radio.go `reload`).
use openqiara.Prelude.{
  ℕ, ◌≡◌, ◌≢◌, true, false, none, some, List, [], ◌∷◌, ◌==◌, arith, refl, sym, inl, inr, Bool-cases,
  Option-cases, ==_iff, Dict, lookup, insert, lookup-insert, lookup-erase, Above, Ascending, Holds,
  Holds-erase, Ascending-Holds,
}
use openqiara.Radio.Types.{Model, NodeInfo, Engine, kpd}
use openqiara.Radio.Engine.{model_eq, all_valid, set_node}
use openqiara.Config.Types.{SensorEntry}
use openqiara.Camera.Sensors.{Sensor}
use openqiara.Camera.Client.{World, RadioClient}
use openqiara.Camera.Reload.{
  Serving, radio_model, node_of, live_sensor, registered, serve, serve_all, to_serve, reload,
}
use openqiara.Camera.Linked.{registered-Ascending}

-- A node with an address, and with a code if it is a keypad.
abbrev pub IsCoded : NodeInfo → Type 0
IsCoded n = (n.addr ≢ 0) × (model_eq n.model kpd ≡ true → n.pins ≢ [])

abbrev AllCoded : Dict NodeInfo → Type 0
AllCoded nodes = (id : ℕ) (n : NodeInfo) → lookup id nodes ≡ some n → IsCoded n

node_of-IsCoded : (se : SensorEntry) (m : Model) (n : NodeInfo) → node_of se m ≡ some n → IsCoded n
unfolding node_of
node_of-IsCoded se m n h = (λ z. ground arith, λ k e. ground arith)

insert-AllCoded :
    (id : ℕ) (n : NodeInfo) (nodes : Dict NodeInfo)
    → IsCoded n
    → AllCoded nodes
    → AllCoded (insert id n nodes)
insert-AllCoded id n nodes coded all j m at = elim (Bool-cases (j == id)) [
  | inl same ↦ let is_n : n ≡ m = ground (arith, lookup-insert j id n nodes) in rw (sym is_n) coded
  | inr other ↦ all j m (ground (arith, lookup-insert j id n nodes))
]

registered-AllCoded :
    (old : Dict Sensor) (ses : List SensorEntry) (nodes : Dict NodeInfo) (sensors : Dict Sensor)
    → AllCoded nodes
    → AllCoded (registered old ses nodes sensors).0
unfolding registered
registered-AllCoded old [] nodes sensors h = h
registered-AllCoded old (se ∷ ses) nodes sensors h = elim (Option-cases (radio_model se.type)) [
  | inl other ↦ rw (other, registered) (registered-AllCoded old ses nodes sensors h)
  | inr (m, model) ↦ elim (Option-cases (node_of se m)) [
    | inl unserved ↦
        rw (model, unserved, registered)
          (registered-AllCoded old ses nodes
            (insert se.id (record (live_sensor old se) { reachable = false }) sensors) h)
    | inr (n, served) ↦
        rw (model, served, registered)
          (registered-AllCoded old ses (insert se.id n nodes)
            (insert se.id (live_sensor old se) sensors)
            (insert-AllCoded se.id n nodes (node_of-IsCoded se m n served) h))
  ]
]

set_node-valid : (e e' : Engine) (n : NodeInfo) → set_node e n ≡ some e' → all_valid n.pins ≡ true
unfolding set_node
set_node-valid e e' n h = ground arith

-- What the loop over the nodes keeps: `todo` are those to come.
record Checked (todo : Dict NodeInfo) (s : Serving) : Type 0 where
  pub kept : Holds s.nodes todo
  pub coded : AllCoded s.nodes
  pub valid :
      (j : ℕ) (m : NodeInfo)
      → lookup j s.nodes ≡ some m
      → lookup j todo ≡ none
      → all_valid m.pins ≡ true

serve-Checked :
    (now id : ℕ) (n : NodeInfo) (todo : Dict NodeInfo) (s : Serving)
    → Above id todo
    → Checked ((id, n) ∷ todo) s
    → Checked todo (serve now id n s)
unfolding serve lookup
serve-Checked now id n todo s above c = elim (Option-cases (set_node s.engine n)) [
  | inl refused ↦
      rw (refused, serve)
        record {
          kept = Holds-erase id s.nodes todo above c.kept.1;
          coded = λ j m at. c.coded j m (ground (arith, lookup-erase j id s.nodes));
          valid = λ j m at past.
              c.valid j m (ground (arith, lookup-erase j id s.nodes))
                (ground (arith, lookup-erase j id s.nodes));
        }
  | inr (e, set) ↦
      rw (set, serve)
        record {
          kept = c.kept.1;
          coded = c.coded;
          valid = λ j m at past. elim (Bool-cases (j == id)) [
            | inl same ↦ ground (arith, ==_iff j id, c.kept.0, set_node-valid s.engine e n set)
            | inr other ↦ c.valid j m at (rw other past)
          ];
        }
]

serve_all-Checked :
    (now : ℕ) (todo : Dict NodeInfo) (s : Serving)
    → Ascending todo
    → Checked todo s
    → Checked [] (serve_all now todo s)
unfolding serve_all
serve_all-Checked now [] s up c = c
serve_all-Checked now ((id, n) ∷ todo) s (above, up) c =
    serve_all-Checked now todo (serve now id n s) up (serve-Checked now id n todo s above c)

-- Every node that `reload` serves has an address; a keypad among them has a code, and all of its codes are
-- valid, so that none is served with its off button alone.
pub reload-coded :
    (w : World) (c : RadioClient) (id : ℕ) (n : NodeInfo)
    → lookup id (reload w c).nodes ≡ some n
    → (n.addr ≢ 0) × (model_eq n.model kpd ≡ true → n.pins ≢ []) × (all_valid n.pins ≡ true)
unfolding reload
reload-coded w c id n at =
    let nodes = (to_serve c).nodes in
    let up = registered-Ascending c.sensors c.store.cfg.sensors [] [] tt in
    let start : Checked nodes (to_serve c) = record {
      kept = Ascending-Holds nodes up;
      coded =
          registered-AllCoded c.sensors c.store.cfg.sensors [] []
            (λ j m none_at. absurd (unfold lookup in cc));
      valid = λ j m found absent. absurd (ground arith);
    } in
    let end = serve_all-Checked w.now nodes (to_serve c) up start in
    let (addr, pins) = end.coded id n at in (addr, pins, end.valid id n at (unfold lookup in refl))
