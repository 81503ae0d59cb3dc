-- ===== src/Alarm/Persist.antt =====
-- The state file of the alarm engine (internal/alarm/engine.go, `saveLocked` and `Load`): a restart
-- finds the alarm as it was left.
use openqiara.Prelude.{
  ℕ, Bool, true, false, List, [], ◌∷◌, ◌≡◌, ◌&&◌, arith, Option-cases, inl, inr, refl, ◌∙◌,
  if◌then◌else◌, ◌/◌, ◌⊎◌,
}
use openqiara.Alarm.Types.{
  second, State, arming, armed_night, armed_away, state_eq, parsed, missing, unreadable, unparsable,
  siren, arm, SirenCommand, cmd_disarm, cmd_arm_away, cmd_arm_night, other, Source, Engine, World,
  StateFile,
}
use openqiara.Alarm.Engine
use openqiara.Alarm.Engine.{is_armed, emit}
use openqiara.Alarm.Life.{
  Event, command, sensor, report, timer, timings, closing, step, run, start, load, loaded_mode,
  tell,
}
use openqiara.Alarm.Invariant.{Inv, step-Inv, start-Inv}

-- The state that a restart finds: an exit delay that the restart cuts ends armed.
abbrev pub settled : State → State → State
settled arming mode = mode
settled s mode = s

-- A restart from the file of `e` would restore `e`.
pub record IsKept (w : World) (e : Engine) : Type 0 where
  pub state : (start w e.file).state ≡ settled e.state e.mode
  pub mode : (start w e.file).mode ≡ e.mode
  pub armed_at : (start w e.file).armed_at ≡ e.armed_at
  pub trig_by : (start w e.file).trig_by ≡ e.trig_by

-- A file that was just written restores the engine it was written from.
saved-IsKept : (w : World) (e : Engine) → Inv e → e.file ≡ parsed (Engine.persisted e) → IsKept w e
unfolding start Engine.set_timings load tell loaded_mode Engine.new Engine.persisted
saved-IsKept w e i f = ground arith

-- The file is the engine's, just written, or neither changed.
abbrev Written : Engine → Engine → Type 0
Written e f =
    (f.file ≡ parsed (Engine.persisted f))
    ⊎ ((f.file ≡ e.file)
        × (f.state ≡ e.state)
        × (f.mode ≡ e.mode)
        × (f.armed_at ≡ e.armed_at)
        × (f.trig_by ≡ e.trig_by))

module _ (w : World) (writable : w.writable ≡ true) where
  sensor_alarm-Written :
      (id : ℕ) (e : Engine) → e.closed ≡ false → Written e (Engine.sensor_alarm w id e)
  unfolding Engine.sensor_alarm Engine.persisted
  sensor_alarm-Written id e o = ground arith

  in_alarm-Written : (e : Engine) → e.closed ≡ false → Written e (Engine.in_alarm w e)
  unfolding Engine.in_alarm
  in_alarm-Written e o = elim (Option-cases (Engine.first_alarming w e (w.visit e.last_alarm))) [
    | inl q ↦ ground arith
    | inr (id, q) ↦ ground (arith, sensor_alarm-Written id e o)
  ]

  transition-Written :
      (s : State) (e : Engine)
      → e.closed ≡ false
      → ((Engine.transition w s e).file ≡ parsed (Engine.persisted (Engine.transition w s e)))
        × ((Engine.transition w s e).closed ≡ false)
  unfolding Engine.transition Engine.persisted
  transition-Written s e o = ground arith

  -- What follows a transition finds the file of the engine, and leaves it so.
  persisted-congr :
      (e f : Engine)
      → e.file ≡ parsed (Engine.persisted e)
      → Written e f
      → f.file ≡ parsed (Engine.persisted f)
  unfolding Engine.persisted
  persisted-congr e f h k = ground arith

  armed-Written :
      (e : Engine)
      → e.closed ≡ false
      → (Engine.armed w e).file ≡ parsed (Engine.persisted (Engine.armed w e))
  unfolding Engine.armed
  armed-Written e o =
      let t : Engine = Engine.transition w e.mode (record e { armed_at = w.now / second }) in
      let (saved, open_) = transition-Written e.mode (record e { armed_at = w.now / second }) o in
      persisted-congr t (Engine.in_alarm w t) saved (in_alarm-Written t open_)

  switch-Written :
      (m : State) (c : SirenCommand) (e : Engine)
      → e.closed ≡ false
      → let t = emit (siren c) (Engine.transition w m (record e { mode = m })) in
        (Engine.in_alarm w t).file ≡ parsed (Engine.persisted (Engine.in_alarm w t))
  switch-Written m c e o =
      let t : Engine = Engine.transition w m (record e { mode = m }) in
      let (saved, open_) = transition-Written m (record e { mode = m }) o in
      persisted-congr t (Engine.in_alarm w (emit (siren c) t)) saved
        (in_alarm-Written (emit (siren c) t) open_)

  arm_dispatch-Written :
      (m : State) (s : Source) (e : Engine)
      → e.closed ≡ false
      → Written e (Engine.arm_dispatch w m s e.state e)
  unfolding Engine.arm_dispatch
  arm_dispatch-Written m s e o =
      let order : SirenCommand = arm (state_eq m armed_night) false in
      ground (
        arith,
        armed-Written (emit (siren order) (record e { mode = m; trig_by = 0 })),
        switch-Written m order e o,
        Engine.persisted,
      )

  step-Written : (ev : Event) (e : Engine) → e.closed ≡ false → Written e (step w ev e)
  unfolding step Engine.handle_command Engine.set_timings Engine.close Engine.fire
      Engine.handle_siren_state Engine.handle_sensor_event Engine.persisted
  step-Written (command cmd_disarm s) e o = ground arith
  step-Written (command cmd_arm_away s) e o = arm_dispatch-Written armed_away s e o
  step-Written (command cmd_arm_night s) e o = arm_dispatch-Written armed_night s e o
  step-Written (command (other t) s) e o = ground arith
  step-Written (sensor id kind alarming) e o = ground (
    arith,
    sensor_alarm-Written id (record e { last_alarm = Engine.put id alarming e.last_alarm }) o,
  )
  step-Written (report s) e o = ground (arith, armed-Written e o)
  step-Written (timer g c) e o = ground (arith, armed-Written e o)
  step-Written (timings a p) e o = ground arith
  step-Written closing e o = ground arith

Written-IsKept : (w : World) (e f : Engine) → Inv f → Written e f → IsKept w e → IsKept w f
Written-IsKept w e f i (inl saved) k = saved-IsKept w f i saved
Written-IsKept w e f i (inr (file, state, mode, armed_at, trig_by)) k = record {
  state = cc (k.state, file, state, mode);
  mode = cc (k.mode, file, mode);
  armed_at = cc (k.armed_at, file, armed_at);
  trig_by = cc (k.trig_by, file, trig_by);
}

abbrev pub is_closing : Event → Bool
is_closing closing = true
is_closing _ = false

-- Calls that can write the file, in an engine that is not closed.
abbrev pub all_written : List (World × Event) → Bool
all_written [] = true
all_written ((w, ev) ∷ evs) = if is_closing ev then false else w.writable && all_written evs

transition-closed :
    (w : World) (s : State) (e : Engine) → (Engine.transition w s e).closed ≡ e.closed
unfolding Engine.transition
transition-closed w s e = ground arith

in_alarm-closed : (w : World) (e : Engine) → (Engine.in_alarm w e).closed ≡ e.closed
unfolding Engine.in_alarm Engine.sensor_alarm
in_alarm-closed w e = ground arith

armed-closed : (w : World) (e : Engine) → (Engine.armed w e).closed ≡ e.closed
unfolding Engine.armed
armed-closed w e =
    let stamped : Engine = record e { armed_at = w.now / second } in
    in_alarm-closed w (Engine.transition w e.mode stamped) ∙ transition-closed w e.mode stamped

arm_dispatch-closed :
    (w : World) (m : State) (s : Source) (e : Engine)
    → (Engine.arm_dispatch w m s e.state e).closed ≡ e.closed
unfolding Engine.arm_dispatch
arm_dispatch-closed w m s e =
    let order : SirenCommand = arm (state_eq m armed_night) false in
    let t : Engine = Engine.transition w m (record e { mode = m }) in
    ground (
      arith,
      armed-closed w (emit (siren order) (record e { mode = m; trig_by = 0 })),
      in_alarm-closed w (emit (siren order) t),
      transition-closed w m (record e { mode = m }),
    )

step-closed :
    (w : World) (ev : Event) (e : Engine) → is_closing ev ≡ false → (step w ev e).closed ≡ e.closed
unfolding step Engine.handle_command Engine.set_timings Engine.fire Engine.handle_siren_state
    Engine.handle_sensor_event Engine.sensor_alarm
step-closed w (command cmd_disarm s) e k = ground arith
step-closed w (command cmd_arm_away s) e k = arm_dispatch-closed w armed_away s e
step-closed w (command cmd_arm_night s) e k = arm_dispatch-closed w armed_night s e
step-closed w (command (other t) s) e k = refl
step-closed w (sensor id kind alarming) e k = ground arith
step-closed w (report s) e k = ground (arith, armed-closed w e)
step-closed w (timer g c) e k = ground (arith, armed-closed w e)
step-closed w (timings a p) e k = refl
step-closed w closing e k = cc

start-file :
    (v : World) (f : StateFile)
    → ((start v f).file ≡ f)
      × ((start v f).closed ≡ false)
      × (state_eq (start v f).state arming ≡ false)
unfolding start Engine.set_timings load tell loaded_mode Engine.new
start-file v f = ground arith

abbrev summary : Engine → State × State × ℕ × ℕ
summary e = (e.state, e.mode, e.armed_at, e.trig_by)

-- What `Load` restores depends on the file alone.
load-summary : (w v : World) (f : StateFile) → summary (start w f) ≡ summary (start v f)
unfolding start Engine.set_timings load tell Engine.new
load-summary w v missing = refl
load-summary w v unreadable = refl
load-summary w v unparsable = refl
load-summary w v (parsed p) = ground arith

settled_self : (s m : State) → state_eq s arming ≡ false → settled s m ≡ s
settled_self s m h = ground arith

start-IsKept : (w v : World) (f : StateFile) → IsKept w (start v f)
start-IsKept w v f =
    ground
      (arith, load-summary w v f, start-file v f, settled_self (start v f).state (start v f).mode)

all_written-cons :
    (w : World) (ev : Event) (evs : List (World × Event))
    → all_written ((w, ev) ∷ evs) ≡ true
    → ((is_closing ev ≡ false) × (w.writable ≡ true)) × (all_written evs ≡ true)
all_written-cons w ev evs h = ground arith

run-IsKept :
    (w : World) (evs : List (World × Event)) (e : Engine)
    → Inv e
    → e.closed ≡ false
    → IsKept w e
    → all_written evs ≡ true
    → IsKept w (run evs e)
unfolding run
run-IsKept w [] e i o k h = k
run-IsKept w ((v, ev) ∷ evs) e i o k h =
    let (goes, rest) = all_written-cons v ev evs h in
    let i' = step-Inv v ev e i in
    let k' = Written-IsKept w e (step v ev e) i' (step-Written v goes.1 ev e o) k in
    run-IsKept w evs (step v ev e) i' (step-closed v ev e goes.0 ∙ o) k' rest

-- From any start, and through any calls, reports and timers whose writes succeed and with no
-- `Close`, a restart from the state file finds the alarm as it is: the same mode, arming time and
-- sensor, and the same state, except that an exit delay ends armed.
pub restart_restores :
    (w v : World) (f : StateFile) (evs : List (World × Event))
    → all_written evs ≡ true
    → IsKept w (run evs (start v f))
restart_restores w v f evs h =
    run-IsKept w evs (start v f) (start-Inv v f) (start-file v f).1 (start-IsKept w v f) h
