-- ===== src/Radio/Life.antt =====
-- The calls that reach the radio engine one after the other (internal/radio/engine.go, its methods), and
-- what all the engines that they reach have in common.
use openqiara.Prelude.{
  ℕ, ◌<◌, ◌≤◌, ◌≡◌, ◌==◌, Option, none, some, List, [], ◌∷◌, arith, refl, inl, inr, Option-cases,
  Bool-cases,
}
use openqiara.Charmux.Frame.{ManagedFrame}
use openqiara.Charmux.Varint.{u32_mod}
use openqiara.Radio.Types.{Engine, NodeInfo, SentFrame, sent_window}
use openqiara.Radio.Engine
use openqiara.Radio.Engine.{
  receive, command, start, set_node, remove_node, set_alarm_siren, new, new_loop, find,
}
use openqiara.Radio.Window.{
  Remembers, Window, age, receive-Remembers, command-Remembers, start_loop-Remembers,
}

pub data Call : Type 0 where
  received : ℕ → ManagedFrame → Call
  ordered : ℕ → List ℕ → Call
  started : Call
  node_set : NodeInfo → Call
  node_removed : ℕ → Call
  siren_set : ℕ → Call

-- A sensor that is refused leaves the engine as it is.
abbrev kept : Engine → Option Engine → Engine
kept e none = e
kept e (some e') = e'

module _ (bytecode : List ℕ → Option (List (List ℕ))) where
  unfoldable pub step : Engine → Call → Engine
  step e (received now rx) = (receive bytecode e now rx).0
  step e (ordered addr payload) = (command e addr payload).0
  step e started = (start e).0
  step e (node_set i) = kept e (set_node e i)
  step e (node_removed addr) = remove_node e addr
  step e (siren_set addr) = set_alarm_siren e addr

  unfoldable pub run : Engine → List Call → Engine
  run e [] = e
  run e (c ∷ cs) = run (step e c) cs

set_node-Remembers : (e : Engine) (i : NodeInfo) → Remembers e → Remembers (kept e (set_node e i))
unfolding set_node Remembers
set_node-Remembers e i w = elim (Bool-cases (Engine.all_valid i.pins)) [
  | inl valid ↦ elim (Option-cases (find i.addr e.nodes)) [
    | inl missing ↦ rw (set_node, valid, missing) w
    | inr (n, found) ↦ rw (set_node, valid, found) w
  ]
  | inr bad ↦ rw (set_node, bad) w
]

set_alarm_siren-Remembers : (e : Engine) (a : ℕ) → Remembers e → Remembers (set_alarm_siren e a)
unfolding set_alarm_siren Remembers
set_alarm_siren-Remembers e a w = elim (Bool-cases (a == e.alarm_siren)) [
  | inl same ↦ rw (set_alarm_siren, same) w
  | inr other ↦ rw (set_alarm_siren, other) w
]

module _ (bytecode : List ℕ → Option (List (List ℕ))) where
  step-Remembers : (e : Engine) (c : Call) → Remembers e → Remembers (step bytecode e c)
  unfolding step
  step-Remembers e (received now rx) w = receive-Remembers bytecode e now rx w
  step-Remembers e (ordered addr payload) w = command-Remembers e addr payload w
  step-Remembers e started w = unfold start in start_loop-Remembers e.nodes e w
  step-Remembers e (node_set i) w = set_node-Remembers e i w
  step-Remembers e (node_removed addr) w = unfold remove_node Remembers in w
  step-Remembers e (siren_set addr) w = set_alarm_siren-Remembers e addr w

  run-Remembers : (cs : List Call) (e : Engine) → Remembers e → Remembers (run bytecode e cs)
  unfolding run
  run-Remembers [] e w = w
  run-Remembers (c ∷ cs) e w = run-Remembers cs (step bytecode e c) (step-Remembers e c w)

set_kept :
    (e : Engine) (i : NodeInfo) (e₁ : Engine) → set_node e i ≡ some e₁ → e₁ ≡ kept e (set_node e i)
set_kept e i e₁ h = rw h refl

new_loop-Remembers :
    (is : List NodeInfo) (e e' : Engine) → new_loop is e ≡ some e' → Remembers e → Remembers e'
unfolding new_loop
new_loop-Remembers [] e e' h w = ground arith
new_loop-Remembers (i ∷ is) e e' h w = elim (Option-cases (set_node e i)) [
  | inl bad ↦ ground arith
  | inr (e₁, set) ↦
      new_loop-Remembers is e₁ e' (ground arith)
        (rw (set_kept e i e₁ set) (set_node-Remembers e i w))
]

-- An engine that `new` makes and any calls reach has a counter of 32 bits and remembers frames of the
-- last 256 only, whichever way the counter wrapped.
pub run_remembers :
    (bytecode : List ℕ → Option (List (List ℕ))) (gateway alarm_siren : ℕ) (nodes : List NodeInfo)
    (e : Engine) (cs : List Call)
    → new gateway alarm_siren nodes ≡ some e
    → let e' = run bytecode e cs in
      (e'.counter < u32_mod)
      × ((k : ℕ) (s : SentFrame)
          → e'.sent k ≡ some s
          → (k < u32_mod) × (1 ≤ age e'.counter k) × (age e'.counter k ≤ sent_window))
unfolding new Remembers Window
run_remembers bytecode gateway alarm_siren nodes e cs h =
    run-Remembers bytecode cs e
      (new_loop-Remembers nodes _ e h (ground arith, λ k s bad. ground arith))
