-- ===== src/Alarm/Engine.antt =====
-- The alarm engine, internal/alarm/engine.go. A method that runs under the lock takes the engine
-- and returns the new one. What it does outside is pushed on `effects`, newest first: the
-- siren's commands, the snapshots handed to the callback, the timers started.
-- The state file is the field `file`: `save` replaces it whole (a temporary file renamed over it).
-- One call reads the clock once, and its log lines are left out.
use openqiara.Prelude.{
  ℕ, ◌+◌, ◌-◌, ◌/◌, Bool, true, false, not, ◌&&◌, ◌||◌, Option, none, some, List, [], ◌∷◌, ltb,
  ◌==◌, if◌then◌else◌,
}
use openqiara.Alarm.Types.{
  State, disarmed, arming, armed_night, armed_away, pending, triggered, blank, state_eq, SirenState,
  siren_armed, siren_entry_delay, siren_alert, siren_alert_over, Source, source_local,
  source_remote, arm, disarm, entry_delay, alert, Command, cmd_disarm, cmd_arm_away, cmd_arm_night,
  other, Snapshot, PersistedState, StateFile, parsed, Callback, exit_over, entry_over, Effect,
  siren, notify, after, Engine, World, second, default_arming_delay, default_pending_delay,
  siren_margin,
}
use Prim.Native.String.{String}
use text.Mathlib.Text.{◌==◌ as str_eq}

unfoldable pub new : StateFile → Engine
new f = record {
  state = disarmed;
  mode = blank;
  armed_at = 0;
  trig_by = 0;
  deadline = none;
  timer_gen = 0;
  closed = false;
  arming_delay = default_arming_delay;
  pending_delay = default_pending_delay;
  last_alarm = [];
  file = f;
  effects = [];
}

unfoldable pub set_timings : ℕ → ℕ → Engine → Engine
set_timings exit entry e = record e {
  arming_delay = if ltb 0 exit then exit else e.arming_delay;
  pending_delay = if ltb 0 entry then entry else e.pending_delay;
}

abbrev pub emit : Effect → Engine → Engine
emit x e = record e { effects = x ∷ e.effects }

-- Whole seconds left until the deadline; 0 with no deadline, or one that is past.
abbrev pub seconds_left : ℕ → Option ℕ → ℕ
seconds_left now none = 0
seconds_left now (some d) = (d - now) / second

unfoldable pub snapshot : World → Engine → Snapshot
snapshot w e = record {
  state = e.state;
  armed_at = e.armed_at;
  triggered_by = e.trig_by;
  previous_state = e.mode;
  timer_remaining = seconds_left w.now e.deadline;
}

unfoldable pub persisted : Engine → PersistedState
persisted e = record {
  state = e.state;
  mode = e.mode;
  armed_at = e.armed_at;
  triggered_by = e.trig_by;
  previous_state = blank;
}

-- A failed write leaves the old file.
unfoldable pub save : World → Engine → Engine
save w e =
    if e.closed then e else if w.writable then record e { file = parsed (persisted e) } else e

-- The `switch newState` of `transitionLocked`.
unfoldable pub enter : World → State → Engine → Engine
enter w disarmed e = record e { armed_at = 0; trig_by = 0; mode = blank; last_alarm = [] }
enter w arming e = record e { deadline = some (w.now + e.arming_delay) }
enter w pending e = record e { deadline = some (w.now + e.pending_delay) }
enter w _ e = e

unfoldable pub transition : World → State → Engine → Engine
unfolding enter save snapshot persisted
transition w s e =
    let entered =
      enter w s (record e { state = s; deadline = none; timer_gen = e.timer_gen + 1 }) in
    save w (emit (notify (snapshot w entered)) entered)

-- `margin`: the engine counts a delay longer than the siren, which reports its end first.
unfoldable pub margin : World → ℕ
margin w = if w.present then siren_margin else 0

-- `afterLocked`: the timer carries the generation it was started in.
unfoldable pub start_timer : ℕ → Callback → Engine → Engine
start_timer d c e = emit (after d e.timer_gen c) e

-- `time.Until`, 0 where the source's duration would be negative (the timer then runs at once).
abbrev pub until : World → Option ℕ → ℕ
until w none = 0
until w (some d) = d - w.now

unfoldable pub entry_timer : World → Engine → Engine
unfolding margin start_timer
entry_timer w e = start_timer (until w e.deadline + margin w) entry_over e

unfoldable pub trigger : World → Engine → Engine
unfolding transition
trigger w e = emit (siren alert) (transition w triggered e)

-- Whether a sensor sets the alarm off in the engine's mode.
unfoldable pub watched : World → Engine → ℕ → Bool
watched w e id = not (state_eq e.mode armed_night) || not (w.config_for id).night_allowed

-- The case of an armed engine in `sensorAlarmLocked`.
unfoldable pub sensor_armed : World → ℕ → Engine → Engine
unfolding trigger transition entry_timer
sensor_armed w id e =
    let seen = record e { trig_by = id } in
    if (w.config_for id).instant
    then trigger w seen
    else entry_timer w (emit (siren entry_delay) (transition w pending seen))

unfoldable pub sensor_dispatch : World → ℕ → State → Engine → Engine
unfolding sensor_armed
sensor_dispatch w id armed_away e = sensor_armed w id e
sensor_dispatch w id armed_night e = sensor_armed w id e
sensor_dispatch w id pending e = if (w.config_for id).instant then trigger w e else e
sensor_dispatch w id triggered e = emit (siren alert) e
sensor_dispatch w id _ e = e

unfoldable pub sensor_alarm : World → ℕ → Engine → Engine
unfolding sensor_dispatch
sensor_alarm w id e = sensor_dispatch w id e.state e

-- The first watched sensor in alarm, in the order of the visit.
unfoldable pub first_alarming : World → Engine → List (ℕ × Bool) → Option ℕ
unfolding watched
first_alarming w e [] = none
first_alarming w e ((id, in_alarm) ∷ m) =
    if in_alarm && watched w e id then some id else first_alarming w e m

unfoldable pub in_alarm : World → Engine → Engine
in_alarm w e = elim (first_alarming w e (w.visit e.last_alarm)) [
  | none ↦ e
  | some id ↦ sensor_alarm w id e
]

-- `armedLocked`
unfoldable pub armed : World → Engine → Engine
unfolding transition
armed w e =
    let stamped = record e { armed_at = w.now / second } in
    in_alarm w (transition w stamped.mode stamped)

-- The case of a disarmed engine in `HandleCommand`.
unfoldable pub arm_disarmed : World → State → Source → Engine → Engine
unfolding transition start_timer margin
arm_disarmed w m source_local e =
    let told =
      emit (siren (arm (state_eq m armed_night) true)) (record e { mode = m; trig_by = 0 }) in
    start_timer (e.arming_delay + margin w) exit_over (transition w arming told)
arm_disarmed w m source_remote e =
    armed w (emit (siren (arm (state_eq m armed_night) false)) (record e { mode = m; trig_by = 0 }))

-- The case of an armed engine: night to away or back.
unfoldable pub switch_mode : World → State → Engine → Engine
unfolding transition
switch_mode w m e =
    if state_eq e.state m
    then e
    else in_alarm w
        (emit (siren (arm (state_eq m armed_night) false)) (transition w m (record e { mode = m })))

unfoldable pub arm_dispatch : World → State → Source → State → Engine → Engine
unfolding arm_disarmed switch_mode
arm_dispatch w m s disarmed e = arm_disarmed w m s e
arm_dispatch w m s armed_away e = switch_mode w m e
arm_dispatch w m s armed_night e = switch_mode w m e
arm_dispatch w m s _ e = e

unfoldable pub handle_command : World → Command → Source → Engine → Engine
unfolding arm_dispatch transition
handle_command w cmd_disarm s e =
    if state_eq e.state disarmed then e else emit (siren disarm) (transition w disarmed e)
handle_command w cmd_arm_away s e = arm_dispatch w armed_away s e.state e
handle_command w cmd_arm_night s e = arm_dispatch w armed_night s e.state e
handle_command w (other _) s e = e

-- A write to the map `lastAlarm`.
unfoldable pub put : ℕ → Bool → List (ℕ × Bool) → List (ℕ × Bool)
put id b [] = (id, b) ∷ []
put id b ((j, c) ∷ m) = if j == id then (id, b) ∷ m else (j, c) ∷ put id b m

-- The last `switch` of `HandleSensorEvent`.
abbrev pub is_on : State → Bool
is_on armed_away = true
is_on armed_night = true
is_on pending = true
is_on triggered = true
is_on _ = false

unfoldable pub handle_sensor_event : World → ℕ → String → Bool → Engine → Engine
unfolding watched
handle_sensor_event w id kind alarming e =
    if str_eq kind "KPD"
    then e
    else (let seen = record e { last_alarm = put id alarming e.last_alarm } in
        if alarming && watched w seen id && is_on e.state then sensor_alarm w id seen else seen)

abbrev pub is_armed : State → Bool
is_armed armed_away = true
is_armed armed_night = true
is_armed _ = false

unfoldable pub handle_siren_state : World → SirenState → Engine → Engine
unfolding transition entry_timer
handle_siren_state w siren_armed e = if state_eq e.state arming then armed w e else e
handle_siren_state w siren_entry_delay e =
    if is_armed e.state then entry_timer w (transition w pending e) else e
handle_siren_state w siren_alert e =
    if not (state_eq e.state disarmed) && not (state_eq e.state triggered)
    then transition w triggered e
    else e
handle_siren_state w siren_alert_over e =
    if not (state_eq e.state disarmed) && not (state_eq e.state triggered)
    then transition w triggered e
    else e
handle_siren_state w _ e = e

-- The functions that `afterLocked` is given.
unfoldable pub run_callback : World → Callback → Engine → Engine
run_callback w exit_over e = if state_eq e.state arming then armed w e else e
run_callback w entry_over e = if state_eq e.state pending then trigger w e else e

-- A timer that goes off: nothing, if its generation is over.
unfoldable pub fire : World → ℕ → Callback → Engine → Engine
unfolding run_callback trigger
fire w g c e = if e.timer_gen == g then run_callback w c e else e

unfoldable pub close : Engine → Engine
close e = record e { timer_gen = e.timer_gen + 1; closed = true }
