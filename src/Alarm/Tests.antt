-- ===== src/Alarm/Tests.antt =====
-- Runs of the alarm, and each property at a concrete input.
use openqiara.Prelude.{ℕ, ◌≤◌, ◌==◌, true, false, some, List, [], ◌∷◌, ◌≡◌, ◌≢◌, arith, refl}
use openqiara.Alarm.Types.{
  state_eq, arming, armed_night, pending, triggered, source_local, source_remote, cmd_disarm,
  cmd_arm_away, cmd_arm_night, exit_over, entry_over, SensorConfig, missing, Engine, World, alert,
}
use openqiara.Alarm.Engine
use openqiara.Alarm.Engine.{is_armed}
use openqiara.Alarm.Life.{Event, command, sensor, timer, timings, step, run, start, load, tell}
use openqiara.Alarm.Invariant.{Inv, reachable-Inv}
use openqiara.Alarm.Forward.{rank, run-rank}
use openqiara.Alarm.Timers.{stale_timer_inert}
use openqiara.Alarm.Delays.{Starts, Stays, entry_delay_ends}
use openqiara.Alarm.Orders.{Told, siren-Told, last_told}
use openqiara.Alarm.Watch.{armed_quiet, alarms}
use openqiara.Alarm.Persist.{IsKept, restart_restores}
use mathlib.Core.List.Perm

-- The front door, 1, has an entry delay; the window, 2, has none; the cat's door, 3, is not watched
-- at night.
abbrev pub config : ℕ → SensorConfig
config id = record { night_allowed = id == 3; instant = id == 2 }

abbrev pub home : World
home = record {
  now = 1_700_000_000_000_000_000;
  present = true;
  writable = true;
  config_for = config;
  exit_setting = 30_000_000_000;
  entry_setting = 20_000_000_000;
  visit = λ m. m;
}

abbrev pub fresh : Engine
fresh = start home missing

-- Armed at the keypad for the night, then the exit delay ends.
abbrev leaving : List (World × Event)
leaving = (home, command cmd_arm_night source_local) ∷ []

abbrev night : List (World × Event)
night = (home, command cmd_arm_night source_local) ∷ (home, timer 1 exit_over) ∷ []

abbrev pub entered : List (World × Event)
entered = (home, command cmd_arm_away source_remote) ∷ (home, sensor 3 "PIR" true) ∷ []

leaving_state : (run leaving fresh).state ≡ arming
unfolding run step start Engine.set_timings load tell Engine.new Engine.handle_command
    Engine.transition
leaving_state = refl

night_state : (run night fresh).state ≡ armed_night
unfolding run step start Engine.set_timings load tell Engine.new Engine.handle_command Engine.fire
    Engine.armed Engine.in_alarm Engine.first_alarming
night_state = refl

entered_state : (run entered fresh).state ≡ pending
unfolding run step start Engine.set_timings load tell Engine.new Engine.handle_command Engine.armed
    Engine.in_alarm Engine.first_alarming Engine.handle_sensor_event Engine.put Engine.sensor_alarm
entered_state = refl

reachable-Inv_example : Inv (run entered fresh)
reachable-Inv_example = reachable-Inv home missing entered

run-rank_example : rank (run entered fresh).state ≤ rank (run night (run entered fresh)).state
run-rank_example = run-rank night (run entered fresh) (reachable-Inv home missing entered) refl

leaving_changes :
    (step home (command cmd_disarm source_local) (run leaving fresh)).state
    ≢ (run leaving fresh).state
unfolding run step start Engine.set_timings load tell Engine.new Engine.handle_command
    Engine.transition
leaving_changes = λ e. cc

leaving_gen : 1 ≤ (run leaving fresh).timer_gen
unfolding run step start Engine.set_timings load tell Engine.new Engine.handle_command
    Engine.transition
leaving_gen = omega arith

-- The exit delay's timer after a disarm and an arming.
stale_timer_inert_example :
    Engine.fire home 1 exit_over
      (run leaving (step home (command cmd_disarm source_local) (run leaving fresh)))
    ≡ run leaving (step home (command cmd_disarm source_local) (run leaving fresh))
stale_timer_inert_example =
    stale_timer_inert home home (command cmd_disarm source_local) leaving 1 exit_over
      (run leaving fresh) leaving_gen leaving_changes

-- The front door opens, and then the window's battery is changed.
abbrev armed_home : List (World × Event)
armed_home = (home, command cmd_arm_away source_remote) ∷ []

abbrev battery : List (World × Event)
battery = (home, sensor 2 "DWS" false) ∷ (home, timings 0 1) ∷ []

entry_starts :
    (state_eq (run armed_home fresh).state pending ≡ false)
    × ((step home (sensor 1 "DWS" true) (run armed_home fresh)).state ≡ pending)
    × Stays pending battery (step home (sensor 1 "DWS" true) (run armed_home fresh))
unfolding run step start Engine.set_timings load tell Engine.new Engine.handle_command Engine.armed
    Engine.in_alarm Engine.first_alarming Engine.handle_sensor_event Engine.put Engine.sensor_alarm
entry_starts = (refl, refl, (refl, refl, (refl, refl, tt)))

entry_delay_ends_example :
    let e = run armed_home fresh in
    let p = step home (sensor 1 "DWS" true) e in
    let fired = Engine.fire home p.timer_gen entry_over (run battery p) in
    Starts home e.pending_delay entry_over p
    × (fired.state ≡ triggered)
    × (last_told fired.effects ≡ some alert)
entry_delay_ends_example =
    entry_delay_ends home home home missing armed_home battery (sensor 1 "DWS" true)
      (entry_starts.0) (entry_starts.1) (entry_starts.2)

siren-Told_example : Told (run entered fresh)
siren-Told_example = siren-Told home missing entered

restart_restores_example : IsKept home (run entered fresh)
restart_restores_example = restart_restores home home missing entered refl

-- At night, a door opens.
night_door_changes :
    (Engine.handle_sensor_event home 1 "DWS" true (run night fresh)).state ≢ (run night fresh).state
unfolding run step start Engine.set_timings load tell Engine.new Engine.handle_command Engine.fire
    Engine.armed Engine.in_alarm Engine.first_alarming Engine.handle_sensor_event Engine.put
    Engine.sensor_alarm
night_door_changes = λ e. cc

night_armed : is_armed (run night fresh).state ≡ true
unfolding run step start Engine.set_timings load tell Engine.new Engine.handle_command Engine.fire
    Engine.armed Engine.in_alarm Engine.first_alarming
night_armed = refl

night_watches : Engine.watched home (run night fresh) 2 ≡ true
unfolding run step start Engine.set_timings load tell Engine.new Engine.handle_command Engine.fire
    Engine.armed Engine.in_alarm Engine.first_alarming Engine.watched
night_watches = refl

-- The cat's door stays open while the alarm arms for the night.
abbrev cat : Engine
cat = record (Engine.new missing) {
  state = arming;
  mode = armed_night;
  last_alarm = (3, true) ∷ (1, false) ∷ [];
}

cat_armed : is_armed (Engine.armed home cat).state ≡ true
unfolding Engine.new Engine.armed Engine.in_alarm Engine.first_alarming
cat_armed = refl

cat_watches : Engine.watched home cat 1 ≡ true
unfolding Engine.new Engine.watched
cat_watches = refl

armed_quiet_example : alarms 1 cat.last_alarm ≡ false
armed_quiet_example = armed_quiet home cat 1 (Perm.refl cat.last_alarm) refl cat_armed cat_watches
