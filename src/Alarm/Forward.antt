-- ===== src/Alarm/Forward.antt =====
-- How the alarm's state moves (internal/alarm/engine.go): forward only, except by a disarm command.
use openqiara.Prelude.{
  ℕ, ◌≤◌, ◌<◌, Bool, true, false, List, [], ◌∷◌, ◌⊎◌, ◌/◌, ◌≡◌, arith, Option-cases, inl, inr, refl,
  if◌then◌else◌,
}
use openqiara.Alarm.Types.{
  second, Effect, State, arming, armed_night, armed_away, pending, triggered, state_eq, Callback,
  siren, arm, SirenState, cmd_disarm, cmd_arm_away, cmd_arm_night, other, Source, Engine, World,
}
use openqiara.Alarm.Engine
use openqiara.Alarm.Engine.{is_armed, emit}
use openqiara.Alarm.Life.{Event, command, sensor, report, timer, timings, closing, step, run}
use openqiara.Alarm.Invariant.{Inv, step-Inv}
use Prim.Native.String.{String}

-- How far the alarm is: armed for the night or away is one stage.
abbrev pub rank : State → ℕ
rank arming = 1
rank armed_night = 2
rank armed_away = 2
rank pending = 3
rank triggered = 4
rank _ = 0

abbrev pub is_disarm : Event → Bool
is_disarm (command cmd_disarm s) = true
is_disarm _ = false

abbrev pub no_disarm : List (World × Event) → Bool
no_disarm [] = true
no_disarm ((w, ev) ∷ evs) = if is_disarm ev then false else no_disarm evs

sensor_alarm-rank :
    (w : World) (id : ℕ) (e : Engine) → rank e.state ≤ rank (Engine.sensor_alarm w id e).state
unfolding Engine.sensor_alarm
sensor_alarm-rank w id e = ground arith

in_alarm-rank : (w : World) (e : Engine) → rank e.state ≤ rank (Engine.in_alarm w e).state
unfolding Engine.in_alarm
in_alarm-rank w e = elim (Option-cases (Engine.first_alarming w e (w.visit e.last_alarm))) [
  | inl q ↦ ground arith
  | inr (id, q) ↦ ground (arith, sensor_alarm-rank w id e)
]

transition-state : (w : World) (s : State) (e : Engine) → (Engine.transition w s e).state ≡ s
unfolding Engine.transition
transition-state w s e = ground arith

pub armed-rank :
    (w : World) (e : Engine) → is_armed e.mode ≡ true → 2 ≤ rank (Engine.armed w e).state
unfolding Engine.armed
armed-rank w e h = ground (
  arith,
  in_alarm-rank w (Engine.transition w e.mode (record e { armed_at = w.now / second })),
  transition-state w e.mode (record e { armed_at = w.now / second }),
)

arm_dispatch-rank :
    (w : World) (m : State) (s : Source) (e : Engine)
    → is_armed m ≡ true
    → rank e.state ≤ rank (Engine.arm_dispatch w m s e.state e).state
unfolding Engine.arm_dispatch
arm_dispatch-rank w m s e a =
    let order : Effect = siren (arm (state_eq m armed_night) false) in
    ground (
      arith,
      armed-rank w (emit order (record e { mode = m; trig_by = 0 })),
      in_alarm-rank w (emit order (Engine.transition w m (record e { mode = m }))),
    )

sensor-rank :
    (w : World) (id : ℕ) (kind : String) (alarming : Bool) (e : Engine)
    → rank e.state ≤ rank (Engine.handle_sensor_event w id kind alarming e).state
unfolding Engine.handle_sensor_event
sensor-rank w id kind alarming e =
    ground (
      arith,
      sensor_alarm-rank w id (record e { last_alarm = Engine.put id alarming e.last_alarm }),
    )

report-rank :
    (w : World) (s : SirenState) (e : Engine)
    → Inv e
    → rank e.state ≤ rank (Engine.handle_siren_state w s e).state
unfolding Engine.handle_siren_state
report-rank w s e h = ground (arith, armed-rank w e)

fire-rank :
    (w : World) (g : ℕ) (c : Callback) (e : Engine)
    → Inv e
    → rank e.state ≤ rank (Engine.fire w g c e).state
unfolding Engine.fire
fire-rank w g c e h = ground (arith, armed-rank w e)

step-rank :
    (w : World) (ev : Event) (e : Engine)
    → Inv e
    → is_disarm ev ≡ false
    → rank e.state ≤ rank (step w ev e).state
unfolding step Engine.handle_command Engine.set_timings Engine.close
step-rank w (command cmd_disarm s) e h k = cc
step-rank w (command cmd_arm_away s) e h k = arm_dispatch-rank w armed_away s e refl
step-rank w (command cmd_arm_night s) e h k = arm_dispatch-rank w armed_night s e refl
step-rank w (command (other t) s) e h k = omega arith
step-rank w (sensor id kind alarming) e h k = sensor-rank w id kind alarming e
step-rank w (report s) e h k = report-rank w s e h
step-rank w (timer g c) e h k = fire-rank w g c e h
step-rank w (timings a p) e h k = omega arith
step-rank w closing e h k = omega arith

-- From any engine in good order, and through any sequence of calls, reports and timers without a
-- disarm command, the alarm only moves forward: disarmed, exit delay, armed, entry delay, set off.
pub run-rank :
    (evs : List (World × Event)) (e : Engine)
    → Inv e
    → no_disarm evs ≡ true
    → rank e.state ≤ rank (run evs e).state
unfolding run
run-rank [] e h k = omega arith
run-rank ((w, ev) ∷ evs) e h k =
    ground (arith, step-rank w ev e h, run-rank evs (step w ev e) (step-Inv w ev e h))

-- A report of the siren changes nothing, or moves an alarm that is not disarmed strictly forward.
handle_siren_state_forward :
    (w : World) (s : SirenState) (e : Engine)
    → Inv e
    → (Engine.handle_siren_state w s e ≡ e)
      ⊎ ((0 < rank e.state) × (rank e.state < rank (Engine.handle_siren_state w s e).state))
unfolding Engine.handle_siren_state
handle_siren_state_forward w s e h = ground (arith, armed-rank w e)
