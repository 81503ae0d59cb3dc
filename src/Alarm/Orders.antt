-- ===== src/Alarm/Orders.antt =====
-- What the alarm engine orders its siren (internal/alarm/engine.go): the last arming it was given is
-- the one for the alarm's mode, and it is never alerted unarmed.
use openqiara.Prelude.{
  ℕ, Bool, true, false, List, [], ◌∷◌, ◌≡◌, ◌&&◌, arith, Option-cases, inl, inr, refl,
  if◌then◌else◌, Option, none, some,
}
use openqiara.Alarm.Types.{
  Effect, State, disarmed, armed_night, armed_away, state_eq, notify, after, SirenCommand,
  entry_delay, siren, arm, alert, disarm, cmd_disarm, cmd_arm_away, cmd_arm_night, other, Source,
  Engine, World, StateFile,
}
use openqiara.Alarm.Engine
use openqiara.Alarm.Engine.{is_armed, emit}
use openqiara.Alarm.Life.{
  Event, command, sensor, report, timer, timings, closing, step, run, start, load, tell,
}
use openqiara.Alarm.Invariant.{Inv, step-Inv, start-Inv}

-- The newest command to the siren.
abbrev pub last_told : List Effect → Option SirenCommand
last_told [] = none
last_told (siren c ∷ xs) = some c
last_told (notify s ∷ xs) = last_told xs
last_told (after d g c ∷ xs) = last_told xs

-- The newest arming or disarming: `some none` is off, `some (some night)` armed for that mode.
abbrev pub wanted : List Effect → Option (Option Bool)
wanted [] = none
wanted (siren (arm night delayed) ∷ xs) = some (some night)
wanted (siren disarm ∷ xs) = some none
wanted (siren entry_delay ∷ xs) = wanted xs
wanted (siren alert ∷ xs) = wanted xs
wanted (notify s ∷ xs) = wanted xs
wanted (after d g c ∷ xs) = wanted xs

abbrev is_on : Option (Option Bool) → Bool
is_on (some (some night)) = true
is_on _ = false

-- Every entry delay and every alert was ordered to a siren armed last.
abbrev pub never_unarmed : List Effect → Bool
never_unarmed [] = true
never_unarmed (siren (arm night delayed) ∷ xs) = never_unarmed xs
never_unarmed (siren disarm ∷ xs) = never_unarmed xs
never_unarmed (siren entry_delay ∷ xs) = is_on (wanted xs) && never_unarmed xs
never_unarmed (siren alert ∷ xs) = is_on (wanted xs) && never_unarmed xs
never_unarmed (notify s ∷ xs) = never_unarmed xs
never_unarmed (after d g c ∷ xs) = never_unarmed xs

pub record Told (e : Engine) : Type 0 where
  pub agrees :
      wanted e.effects
      ≡ some (if state_eq e.state disarmed then none else some (state_eq e.mode armed_night))
  pub ordered : never_unarmed e.effects ≡ true

sensor_alarm-Told : (w : World) (id : ℕ) (e : Engine) → Told e → Told (Engine.sensor_alarm w id e)
unfolding Engine.sensor_alarm
sensor_alarm-Told w id e h = ground arith

in_alarm-Told : (w : World) (e : Engine) → Told e → Told (Engine.in_alarm w e)
unfolding Engine.in_alarm
in_alarm-Told w e h = elim (Option-cases (Engine.first_alarming w e (w.visit e.last_alarm))) [
  | inl q ↦ ground arith
  | inr (id, q) ↦ ground (arith, sensor_alarm-Told w id e h)
]

-- Entering the armed mode after the siren was armed for it.
transition-Told :
    (w : World) (e : Engine)
    → is_armed e.mode ≡ true
    → wanted e.effects ≡ some (some (state_eq e.mode armed_night))
    → never_unarmed e.effects ≡ true
    → Told (Engine.transition w e.mode e)
unfolding Engine.transition
transition-Told w e m a o = ground arith

armed-Told :
    (w : World) (e : Engine)
    → is_armed e.mode ≡ true
    → wanted e.effects ≡ some (some (state_eq e.mode armed_night))
    → never_unarmed e.effects ≡ true
    → Told (Engine.armed w e)
unfolding Engine.armed
armed-Told w e m a o = in_alarm-Told w _ (transition-Told w (record e { armed_at = _ }) m a o)

-- The other mode, and then the siren armed for it.
switch-Told :
    (w : World) (m : State) (e : Engine)
    → is_armed m ≡ true
    → Told e
    → Told (
        emit
          (siren (arm (state_eq m armed_night) false))
          (Engine.transition w m (record e { mode = m })))
unfolding Engine.transition
switch-Told w m e a h = ground arith

arm_dispatch-Told :
    (w : World) (m : State) (s : Source) (e : Engine)
    → is_armed m ≡ true
    → Told e
    → Told (Engine.arm_dispatch w m s e.state e)
unfolding Engine.arm_dispatch
arm_dispatch-Told w m s e a h =
    let order : Effect = siren (arm (state_eq m armed_night) false) in
    ground (
      arith,
      armed-Told w (emit order (record e { mode = m; trig_by = 0 })),
      in_alarm-Told w (emit order (Engine.transition w m (record e { mode = m }))),
      switch-Told w m e a h,
    )

seen-Told :
    (id : ℕ) (alarming : Bool) (e : Engine)
    → Told e
    → Told (record e { last_alarm = Engine.put id alarming e.last_alarm })
seen-Told id alarming e h = record { agrees = h.agrees; ordered = h.ordered }

-- Every call keeps the siren's orders in step with the alarm.
pub step-Told : (w : World) (ev : Event) (e : Engine) → Inv e → Told e → Told (step w ev e)
unfolding step Engine.handle_command Engine.set_timings Engine.close Engine.fire
    Engine.handle_siren_state Engine.handle_sensor_event
step-Told w (command cmd_disarm s) e i h = ground arith
step-Told w (command cmd_arm_away s) e i h = arm_dispatch-Told w armed_away s e refl h
step-Told w (command cmd_arm_night s) e i h = arm_dispatch-Told w armed_night s e refl h
step-Told w (command (other t) s) e i h = h
step-Told w (sensor id kind alarming) e i h = ground (
  arith,
  sensor_alarm-Told w id (record e { last_alarm = Engine.put id alarming e.last_alarm })
      (seen-Told id alarming e h),
)
step-Told w (report s) e i h = ground (arith, armed-Told w e)
step-Told w (timer g c) e i h = ground (arith, armed-Told w e)
step-Told w (timings a p) e i h = ground arith
step-Told w closing e i h = ground arith

start-Told : (w : World) (f : StateFile) → Told (start w f)
unfolding start Engine.set_timings load tell Engine.new
start-Told w f = ground arith

run-Told : (evs : List (World × Event)) (e : Engine) → Inv e → Told e → Told (run evs e)
unfolding run
run-Told [] e i h = h
run-Told ((w, ev) ∷ evs) e i h =
    run-Told evs (step w ev e) (step-Inv w ev e i) (step-Told w ev e i h)

-- From any start and through any calls, reports and timers: the last arming or disarming that the
-- siren was told is the one for the alarm's state and mode, and no entry delay and no alert was
-- ever ordered to a siren that was not told to arm last.
pub siren-Told :
    (w : World) (f : StateFile) (evs : List (World × Event)) → Told (run evs (start w f))
siren-Told w f evs = run-Told evs (start w f) (start-Inv w f) (start-Told w f)
