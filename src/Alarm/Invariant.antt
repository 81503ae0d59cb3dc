-- ===== src/Alarm/Invariant.antt =====
-- What holds of an alarm engine between two calls.
use openqiara.Prelude.{
  ℕ, Bool, true, false, Option, none, some, List, [], ◌∷◌, ◌≡◌, ◌&&◌, ◌||◌, arith, ◌==◌, Bool-cases,
  Option-cases, inl, inr, refl,
}
use openqiara.Alarm.Types.{
  State, disarmed, arming, armed_night, armed_away, pending, triggered, blank, state_eq, Callback,
  exit_over, entry_over, arm, Effect, after, siren, notify, SirenCommand, Command, cmd_disarm,
  cmd_arm_away, cmd_arm_night, other, Source, SirenState, Engine, World, StateFile,
}
use openqiara.Alarm.Engine
use openqiara.Alarm.Engine.{is_armed, emit}
use openqiara.Alarm.Life.{
  Event, command, sensor, report, timer, timings, closing, step, run, start, load, loaded_mode,
  tell,
}
use Prim.Native.String.{String}
use text.Mathlib.Text.{◌==◌ as str_eq}

abbrev pub is_delay : State → Bool
is_delay arming = true
is_delay pending = true
is_delay _ = false

abbrev pub is_known : State → Bool
is_known s = state_eq s disarmed || is_delay s || is_armed s || state_eq s triggered

abbrev pub is_some : Option ℕ → Bool
is_some none = false
is_some (some d) = true

abbrev pub callback_eq : Callback → Callback → Bool
callback_eq exit_over exit_over = true
callback_eq entry_over entry_over = true
callback_eq _ _ = false

-- Whether a timer of the generation, with the callback, was started.
abbrev pub started : ℕ → Callback → List Effect → Bool
started g c [] = false
started g c (after d h b ∷ xs) = g == h && callback_eq c b || started g c xs
started g c (siren s ∷ xs) = started g c xs
started g c (notify s ∷ xs) = started g c xs

pub record Inv (e : Engine) : Type 0 where
  pub known : is_known e.state ≡ true
  pub off : e.state ≡ disarmed → (e.mode ≡ blank) × (e.armed_at ≡ 0) × (e.trig_by ≡ 0)
  pub on : state_eq e.state disarmed ≡ false → is_armed e.mode ≡ true
  pub in_mode : is_armed e.state ≡ true → e.mode ≡ e.state
  pub calm : (state_eq e.state arming || is_armed e.state) ≡ true → e.trig_by ≡ 0
  pub dated : is_some e.deadline ≡ is_delay e.state
  pub exit_timed :
      e.closed ≡ false → e.state ≡ arming → started e.timer_gen exit_over e.effects ≡ true
  pub entry_timed :
      e.closed ≡ false → e.state ≡ pending → started e.timer_gen entry_over e.effects ≡ true

pub sensor_alarm-Inv : (w : World) (id : ℕ) (e : Engine) → Inv e → Inv (Engine.sensor_alarm w id e)
unfolding Engine.sensor_alarm
sensor_alarm-Inv w id e h = ground arith

pub in_alarm-Inv : (w : World) (e : Engine) → Inv e → Inv (Engine.in_alarm w e)
unfolding Engine.in_alarm
in_alarm-Inv w e h = elim (Option-cases (Engine.first_alarming w e (w.visit e.last_alarm))) [
  | inl q ↦ ground arith
  | inr (id, q) ↦ ground (arith, sensor_alarm-Inv w id e h)
]

-- Entering an armed mode, whatever the state before.
pub transition_armed-Inv :
    (w : World) (e : Engine)
    → is_armed e.mode ≡ true
    → e.trig_by ≡ 0
    → Inv (Engine.transition w e.mode e)
unfolding Engine.transition
transition_armed-Inv w e h t = ground arith

pub armed-Inv :
    (w : World) (e : Engine) → is_armed e.mode ≡ true → e.trig_by ≡ 0 → Inv (Engine.armed w e)
unfolding Engine.armed
armed-Inv w e h t = in_alarm-Inv w _ (transition_armed-Inv w (record e { armed_at = _ }) h t)

switch_told-Inv :
    (w : World) (m : State) (s : SirenCommand) (e : Engine)
    → is_armed m ≡ true
    → e.trig_by ≡ 0
    → Inv (emit (siren s) (Engine.transition w m (record e { mode = m })))
unfolding Engine.transition
switch_told-Inv w m s e h t = ground arith

arm_dispatch-Inv :
    (w : World) (m : State) (s : Source) (e : Engine)
    → is_armed m ≡ true
    → Inv e
    → Inv (Engine.arm_dispatch w m s e.state e)
unfolding Engine.arm_dispatch
arm_dispatch-Inv w m s e a h = ground (
  arith,
  armed-Inv w
      (emit (siren (arm (state_eq m armed_night) false)) (record e { mode = m; trig_by = 0 })),
  in_alarm-Inv w (
      emit (siren (arm (state_eq m armed_night) false))
        (Engine.transition w m (record e { mode = m }))),
  switch_told-Inv w m (arm (state_eq m armed_night) false) e a,
)

pub handle_command-Inv :
    (w : World) (c : Command) (s : Source) (e : Engine)
    → Inv e
    → Inv (Engine.handle_command w c s e)
unfolding Engine.handle_command
handle_command-Inv w cmd_disarm s e h = ground arith
handle_command-Inv w cmd_arm_away s e h = arm_dispatch-Inv w armed_away s e refl h
handle_command-Inv w cmd_arm_night s e h = arm_dispatch-Inv w armed_night s e refl h
handle_command-Inv w (other t) s e h = h

-- The record of a sensor's report alone.
pub seen-Inv :
    (id : ℕ) (alarming : Bool) (e : Engine)
    → Inv e
    → Inv (record e { last_alarm = Engine.put id alarming e.last_alarm })
seen-Inv id alarming e h = record {
  known = h.known;
  off = h.off;
  on = h.on;
  in_mode = h.in_mode;
  calm = h.calm;
  dated = h.dated;
  exit_timed = h.exit_timed;
  entry_timed = h.entry_timed;
}

pub handle_sensor_event-Inv :
    (w : World) (id : ℕ) (kind : String) (alarming : Bool) (e : Engine)
    → Inv e
    → Inv (Engine.handle_sensor_event w id kind alarming e)
unfolding Engine.handle_sensor_event
handle_sensor_event-Inv w id kind alarming e h = elim (Bool-cases (str_eq kind "KPD")) [
  | inl keypad ↦ rw keypad h
  | inr other_kind ↦
      rw other_kind
        (elim (Bool-cases (alarming && Engine.watched w seen id && Engine.is_on e.state)) [
          | inl goes ↦ rw goes (sensor_alarm-Inv w id seen (seen-Inv id alarming e h))
          | inr stays ↦ rw stays (seen-Inv id alarming e h)
        ])
]
  where
    seen : Engine
    seen = record e { last_alarm = Engine.put id alarming e.last_alarm }

pub handle_siren_state-Inv :
    (w : World) (s : SirenState) (e : Engine) → Inv e → Inv (Engine.handle_siren_state w s e)
unfolding Engine.handle_siren_state
handle_siren_state-Inv w s e h = ground (arith, armed-Inv w e)

pub fire-Inv : (w : World) (g : ℕ) (c : Callback) (e : Engine) → Inv e → Inv (Engine.fire w g c e)
unfolding Engine.fire
fire-Inv w g c e h = ground (arith, armed-Inv w e)

pub close-Inv : (e : Engine) → Inv e → Inv (Engine.close e)
unfolding Engine.close
close-Inv e h = ground arith

-- Every call keeps the invariant.
pub step-Inv : (w : World) (ev : Event) (e : Engine) → Inv e → Inv (step w ev e)
unfolding step Engine.set_timings
step-Inv w (command c s) e h = handle_command-Inv w c s e h
step-Inv w (sensor id kind alarming) e h = handle_sensor_event-Inv w id kind alarming e h
step-Inv w (report s) e h = handle_siren_state-Inv w s e h
step-Inv w (timer g c) e h = fire-Inv w g c e h
step-Inv w (timings a p) e h = ground arith
step-Inv w closing e h = close-Inv e h

pub start-Inv : (w : World) (f : StateFile) → Inv (start w f)
unfolding start Engine.set_timings load tell loaded_mode Engine.new
start-Inv w f = ground arith

run-Inv : (evs : List (World × Event)) (e : Engine) → Inv e → Inv (run evs e)
unfolding run
run-Inv [] e h = h
run-Inv ((w, ev) ∷ evs) e h = run-Inv evs (step w ev e) (step-Inv w ev e h)

-- Every engine reached from a start, from any state file and through any sequence of commands,
-- sensor events, siren reports, timers, timings and a close, is well formed: its state is one of the
-- six; the mode, the arming time and the sensor are reset exactly as `Inv` says when it is disarmed,
-- and the mode is the night or away when it is not; an armed state is its mode; there is a deadline
-- in the exit and entry delays and only there; and, unless it is closed, a timer of the current
-- generation has been started for the delay in progress.
pub reachable-Inv :
    (w : World) (f : StateFile) (evs : List (World × Event)) → Inv (run evs (start w f))
reachable-Inv w f evs = run-Inv evs (start w f) (start-Inv w f)
