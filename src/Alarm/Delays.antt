-- ===== src/Alarm/Delays.antt =====
-- The exit and entry delays of the alarm engine (internal/alarm/engine.go): a call that starts one starts
-- its timer, and that timer moves the alarm on.
use openqiara.Prelude.{
  ℕ, ◌+◌, true, false, Option, none, some, List, [], ◌∷◌, ◌≡◌, arith, refl, sym, ◌∙◌, Option-cases,
  inl, inr, ◌/◌, if◌then◌else◌,
}
use openqiara.Alarm.Types.{
  second, siren_margin, Effect, after, State, arming, armed_night, armed_away, pending, triggered,
  state_eq, Callback, exit_over, entry_over, siren, arm, alert, cmd_disarm, cmd_arm_away,
  cmd_arm_night, other, Source, Engine, World, StateFile,
}
use openqiara.Alarm.Engine
use openqiara.Alarm.Engine.{is_armed, emit}
use openqiara.Alarm.Life.{Event, command, sensor, report, timer, timings, closing, step, run, start}
use openqiara.Alarm.Invariant.{Inv, reachable-Inv}
use openqiara.Alarm.Orders.{last_told}
use openqiara.Alarm.Persist.{is_closing}

abbrev pub newest : List Effect → Option Effect
newest [] = none
newest (x ∷ xs) = some x

-- A delay `d` that starts: its end is known, and the last thing done was to start its timer, a margin
-- later if the siren counts too.
abbrev pub Starts : World → ℕ → Callback → Engine → Type 0
Starts w d c e =
    (e.deadline ≡ some (w.now + d))
    × (newest e.effects ≡ some (after (d + (if w.present then siren_margin else 0)) e.timer_gen c))

abbrev Pends : World → Engine → Engine → Type 0
Pends w e f = f.state ≡ pending → Starts w e.pending_delay entry_over f

sensor_alarm-Pends :
    (w : World) (id : ℕ) (e : Engine)
    → state_eq e.state pending ≡ false
    → Pends w e (Engine.sensor_alarm w id e)
unfolding Engine.sensor_alarm
sensor_alarm-Pends w id e n p = ground arith

in_alarm-Pends :
    (w : World) (e : Engine) → state_eq e.state pending ≡ false → Pends w e (Engine.in_alarm w e)
unfolding Engine.in_alarm
in_alarm-Pends w e n p = elim (Option-cases (Engine.first_alarming w e (w.visit e.last_alarm))) [
  | inl q ↦ ground arith
  | inr (id, q) ↦ ground (arith, sensor_alarm-Pends w id e n)
]

armed-Pends : (w : World) (e : Engine) → is_armed e.mode ≡ true → Pends w e (Engine.armed w e)
unfolding Engine.armed
armed-Pends w e h p =
    ground (
      arith,
      in_alarm-Pends w (Engine.transition w e.mode (record e { armed_at = w.now / second })),
    )

arm_dispatch-Pends :
    (w : World) (m : State) (s : Source) (e : Engine)
    → is_armed m ≡ true
    → state_eq e.state pending ≡ false
    → Pends w e (Engine.arm_dispatch w m s e.state e)
unfolding Engine.arm_dispatch
arm_dispatch-Pends w m s e a n p =
    let order : Effect = siren (arm (state_eq m armed_night) false) in
    ground (
      arith,
      armed-Pends w (emit order (record e { mode = m; trig_by = 0 })),
      in_alarm-Pends w (emit order (Engine.transition w m (record e { mode = m }))),
    )

step-Pends :
    (w : World) (ev : Event) (e : Engine)
    → Inv e
    → state_eq e.state pending ≡ false
    → Pends w e (step w ev e)
unfolding step Engine.handle_command Engine.set_timings Engine.close Engine.fire
    Engine.handle_siren_state Engine.handle_sensor_event
step-Pends w (command cmd_disarm s) e h n p = ground arith
step-Pends w (command cmd_arm_away s) e h n p = arm_dispatch-Pends w armed_away s e refl n p
step-Pends w (command cmd_arm_night s) e h n p = arm_dispatch-Pends w armed_night s e refl n p
step-Pends w (command (other t) s) e h n p = ground arith
step-Pends w (sensor id kind alarming) e h n p =
    ground (
      arith,
      sensor_alarm-Pends w id (record e { last_alarm = Engine.put id alarming e.last_alarm }),
    )
step-Pends w (report s) e h n p = ground (arith, armed-Pends w e)
step-Pends w (timer g c) e h n p = ground (arith, armed-Pends w e)
step-Pends w (timings a d) e h n p = ground arith
step-Pends w closing e h n p = ground arith

-- The calls keep the state, and none is `Close`.
abbrev pub Stays : State → List (World × Event) → Engine → Type 0
Stays s [] e = Unit
Stays s ((w, ev) ∷ evs) e =
    (is_closing ev ≡ false) × ((step w ev e).state ≡ s) × Stays s evs (step w ev e)

step_keeps_pending :
    (w : World) (ev : Event) (e : Engine)
    → is_closing ev ≡ false
    → e.state ≡ pending
    → (step w ev e).state ≡ pending
    → (step w ev e).timer_gen ≡ e.timer_gen
unfolding step Engine.handle_command Engine.set_timings Engine.close Engine.fire
    Engine.handle_siren_state Engine.handle_sensor_event Engine.sensor_alarm
step_keeps_pending w (command cmd_disarm s) e k p q = ground arith
step_keeps_pending w (command cmd_arm_away s) e k p q = ground arith
step_keeps_pending w (command cmd_arm_night s) e k p q = ground arith
step_keeps_pending w (command (other t) s) e k p q = ground arith
step_keeps_pending w (sensor id kind alarming) e k p q = ground arith
step_keeps_pending w (report s) e k p q = ground arith
step_keeps_pending w (timer g c) e k p q = ground arith
step_keeps_pending w (timings a d) e k p q = ground arith
step_keeps_pending w closing e k p q = cc

fire_ends_entry :
    (v : World) (g : ℕ) (evs : List (World × Event)) (e : Engine)
    → e.state ≡ pending
    → g ≡ e.timer_gen
    → Stays pending evs e
    → ((Engine.fire v g entry_over (run evs e)).state ≡ triggered)
      × (last_told (Engine.fire v g entry_over (run evs e)).effects ≡ some alert)
unfolding run Engine.fire
fire_ends_entry v g [] e p q stays = ground arith
fire_ends_entry v g ((w, ev) ∷ evs) e p q (running, here, rest) =
    fire_ends_entry v g evs (step w ev e) here (q ∙ sym (step_keeps_pending w ev e running p here))
      rest

abbrev Leaves : World → Engine → Engine → Type 0
Leaves w e f = f.state ≡ arming → Starts w e.arming_delay exit_over f

-- In an engine reached from a start, a call that starts the entry delay, from any other state,
-- sets its end to the delay of the engine's timings from now, and last starts the timer of the delay, five
-- seconds longer if the siren counts too. When that timer goes off after further calls that left the
-- state and did not close the engine, the alarm is set off and the siren told.
pub entry_delay_ends :
    (u w v : World) (f : StateFile) (before later : List (World × Event)) (ev : Event)
    → state_eq (run before (start u f)).state pending ≡ false
    → (step w ev (run before (start u f))).state ≡ pending
    → Stays pending later (step w ev (run before (start u f)))
    → let e = run before (start u f) in
      let p = step w ev e in
      let fired = Engine.fire v p.timer_gen entry_over (run later p) in
      Starts w e.pending_delay entry_over p
      × (fired.state ≡ triggered)
      × (last_told fired.effects ≡ some alert)
entry_delay_ends u w v f before later ev elsewhere enters stays =
    let e = run before (start u f) in
    let p = step w ev e in
    let h = reachable-Inv u f before in
    let (set_off, told) = fire_ends_entry v p.timer_gen later p enters refl stays in
    (step-Pends w ev e h elsewhere enters, set_off, told)
