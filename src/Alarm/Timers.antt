-- ===== src/Alarm/Timers.antt =====
-- The timers of the alarm engine (internal/alarm/engine.go, `afterLocked`): a delay that is over
-- moves the alarm on, and a timer from before a change of state does nothing.
use openqiara.Prelude.{
  ℕ, ◌+◌, ◌≤◌, ◌<◌, false, List, [], ◌∷◌, ◌≡◌, ◌≢◌, arith, Option-cases, inl, inr, ◌/◌, ◌⊎◌,
}
use openqiara.Alarm.Types.{
  second, Effect, State, armed_night, armed_away, state_eq, Callback, siren, arm, cmd_disarm,
  cmd_arm_away, cmd_arm_night, other, Source, Engine, World,
}
use openqiara.Alarm.Engine
use openqiara.Alarm.Engine.{is_armed, emit}
use openqiara.Alarm.Life.{Event, command, sensor, report, timer, timings, closing, step, run}

-- The state is the same and the generation no smaller, or the generation has grown.
abbrev Moves : Engine → Engine → Type 0
Moves e f = (e.timer_gen < f.timer_gen) ⊎ ((e.timer_gen ≤ f.timer_gen) × (f.state ≡ e.state))

sensor_alarm-Moves : (w : World) (id : ℕ) (e : Engine) → Moves e (Engine.sensor_alarm w id e)
unfolding Engine.sensor_alarm
sensor_alarm-Moves w id e = ground arith

in_alarm-Moves : (w : World) (e : Engine) → Moves e (Engine.in_alarm w e)
unfolding Engine.in_alarm
in_alarm-Moves w e = elim (Option-cases (Engine.first_alarming w e (w.visit e.last_alarm))) [
  | inl q ↦ ground arith
  | inr (id, q) ↦ ground (arith, sensor_alarm-Moves w id e)
]

transition-gen :
    (w : World) (s : State) (e : Engine) → (Engine.transition w s e).timer_gen ≡ e.timer_gen + 1
unfolding Engine.transition
transition-gen w s e = ground arith

armed-gen : (w : World) (e : Engine) → e.timer_gen < (Engine.armed w e).timer_gen
unfolding Engine.armed
armed-gen w e =
    let stamped : Engine = record e { armed_at = w.now / second } in
    ground (
      arith,
      in_alarm-Moves w (Engine.transition w e.mode stamped),
      transition-gen w e.mode stamped,
    )

arm_dispatch-Moves :
    (w : World) (m : State) (s : Source) (e : Engine)
    → Moves e (Engine.arm_dispatch w m s e.state e)
unfolding Engine.arm_dispatch
arm_dispatch-Moves w m s e =
    let order : Effect = siren (arm (state_eq m armed_night) false) in
    ground (
      arith,
      armed-gen w (emit order (record e { mode = m; trig_by = 0 })),
      in_alarm-Moves w (emit order (Engine.transition w m (record e { mode = m }))),
      transition-gen w m (record e { mode = m }),
    )

step-Moves : (w : World) (ev : Event) (e : Engine) → Moves e (step w ev e)
unfolding step Engine.handle_command Engine.set_timings Engine.close Engine.fire
    Engine.handle_siren_state Engine.handle_sensor_event
step-Moves w (command cmd_disarm s) e = ground arith
step-Moves w (command cmd_arm_away s) e = arm_dispatch-Moves w armed_away s e
step-Moves w (command cmd_arm_night s) e = arm_dispatch-Moves w armed_night s e
step-Moves w (command (other t) s) e = ground arith
step-Moves w (sensor id kind alarming) e =
    ground (
      arith,
      sensor_alarm-Moves w id (record e { last_alarm = Engine.put id alarming e.last_alarm }),
    )
step-Moves w (report s) e = ground (arith, armed-gen w e)
step-Moves w (timer g c) e = ground (arith, armed-gen w e)
step-Moves w (timings a p) e = ground arith
step-Moves w closing e = ground arith

run-gen : (evs : List (World × Event)) (e : Engine) → e.timer_gen ≤ (run evs e).timer_gen
unfolding run
run-gen [] e = omega arith
run-gen ((w, ev) ∷ evs) e = ground (arith, step-Moves w ev e, run-gen evs (step w ev e))

fire_stale :
    (w : World) (g : ℕ) (c : Callback) (e : Engine) → g < e.timer_gen → Engine.fire w g c e ≡ e
unfolding Engine.fire
fire_stale w g c e h = ground arith

-- After a call that changes the state, a timer started before it does nothing, whatever happens
-- in between.
pub stale_timer_inert :
    (w v : World) (ev : Event) (evs : List (World × Event)) (g : ℕ) (c : Callback) (e : Engine)
    → g ≤ e.timer_gen
    → (step w ev e).state ≢ e.state
    → Engine.fire v g c (run evs (step w ev e)) ≡ run evs (step w ev e)
stale_timer_inert w v ev evs g c e h n =
    fire_stale v g c _ (ground (arith, step-Moves w ev e, run-gen evs (step w ev e)))
