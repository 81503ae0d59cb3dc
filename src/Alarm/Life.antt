-- ===== src/Alarm/Life.antt =====
-- The life of an alarm engine: `Load` after a start, then any sequence of the calls of its clients
-- and of its timers (internal/alarm/engine.go).
use openqiara.Prelude.{ℕ, ◌+◌, Bool, false, Option, none, some, List, [], ◌∷◌, if◌then◌else◌}
use openqiara.Alarm.Types.{
  State, disarmed, arming, armed_night, armed_away, pending, triggered, blank, state_eq, SirenState,
  Source, arm, disarm, Command, PersistedState, StateFile, missing, unreadable, unparsable, parsed,
  LoadError, read_state, parse_state, Callback, siren, Engine, World,
}
use openqiara.Alarm.Engine
use openqiara.Alarm.Engine.{emit}
use Prim.Native.String.{String}

-- The mode a file holds: its old name is read too, and anything but the night is away.
unfoldable pub loaded_mode : PersistedState → State
loaded_mode p =
    let mode = if state_eq p.mode blank then p.previous_state else p.mode in
    if state_eq mode armed_night then armed_night else armed_away

-- The `switch p.State` of `Load`.
restore : State → State → PersistedState → Engine → Engine
restore arming m p e = record e { state = m; mode = m; armed_at = p.armed_at }
restore armed_away m p e = record e { state = m; mode = m; armed_at = p.armed_at }
restore armed_night m p e = record e { state = m; mode = m; armed_at = p.armed_at }
restore pending m p e = record e {
  state = pending;
  mode = m;
  armed_at = p.armed_at;
  trig_by = p.triggered_by;
}
restore triggered m p e = record e {
  state = triggered;
  mode = m;
  armed_at = p.armed_at;
  trig_by = p.triggered_by;
}
restore _ m p e = record e { state = disarmed }

-- What `Load` does once the state is restored: the siren is told, an entry delay starts again.
unfoldable pub tell : World → Engine → Engine
unfolding Engine.entry_timer
tell w e =
    if state_eq e.state disarmed
    then emit (siren disarm) e
    else (let told = emit (siren (arm (state_eq e.mode armed_night) false)) e in
        if state_eq e.state pending
        then Engine.entry_timer w (record told { deadline = some (w.now + e.pending_delay) })
        else told)

unfoldable pub load_file : World → StateFile → Engine → Engine × Option LoadError
unfolding restore
load_file w missing e = (emit (siren disarm) e, none)
load_file w unreadable e = (emit (siren disarm) e, some read_state)
load_file w unparsable e = (emit (siren disarm) e, some parse_state)
load_file w (parsed p) e = (tell w (restore p.state (loaded_mode p) p e), none)

unfoldable pub load : World → Engine → Engine × Option LoadError
unfolding load_file
load w e = load_file w e.file e

-- The calls that reach an engine: its exported methods, and its timers.
pub data Event : Type 0 where
  command : Command → Source → Event
  sensor : ℕ → String → Bool → Event
  report : SirenState → Event
  timer : ℕ → Callback → Event
  timings : ℕ → ℕ → Event
  closing : Event

unfoldable pub step : World → Event → Engine → Engine
step w (command c s) e = Engine.handle_command w c s e
step w (sensor id kind alarming) e = Engine.handle_sensor_event w id kind alarming e
step w (report s) e = Engine.handle_siren_state w s e
step w (timer g c) e = Engine.fire w g c e
step w (timings a p) e = Engine.set_timings a p e
step w closing e = Engine.close e

unfoldable pub run : List (World × Event) → Engine → Engine
run [] e = e
run ((w, ev) ∷ evs) e = run evs (step w ev e)

-- The daemon hands the engine the delays of the settings before `Load`.
unfoldable pub start : World → StateFile → Engine
unfolding Engine.set_timings
start w f = (load w (Engine.set_timings w.exit_setting w.entry_setting (Engine.new f))).0
