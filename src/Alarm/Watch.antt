-- ===== src/Alarm/Watch.antt =====
-- Which sensors set the alarm off (internal/alarm/engine.go, `HandleSensorEvent`, `inAlarmLocked`).
use openqiara.Prelude.{
  ℕ, ◌≤◌, Bool, true, false, List, [], ◌∷◌, ◌≡◌, ◌≢◌, ◌&&◌, ◌||◌, arith, Option-cases, inl, inr,
  refl, if◌then◌else◌, ◌==◌, ◌/◌, ◌⊎◌, none, sym, ap, ◌∙◌,
}
use openqiara.Alarm.Types.{second, pending, triggered, Engine, World}
use openqiara.Alarm.Engine
use openqiara.Alarm.Engine.{is_armed, emit}
use openqiara.Alarm.Forward.{rank}
use Prim.Native.String.{String}
use text.Mathlib.Text.{◌==◌ as str_eq}
use mathlib.Core.List.{Perm, Permᴰ}
use mathlib.Core.Logic.{∥∥₁_elim}
use mathlib.Core.Bool.{Bool-set}

sensor_alarm-trig_by :
    (w : World) (id : ℕ) (e : Engine)
    → (Engine.sensor_alarm w id e).state ≢ e.state
    → (rank e.state ≡ 2 → (Engine.sensor_alarm w id e).trig_by ≡ id)
      × (2 ≤ rank e.state)
      × (rank e.state ≤ 3)
unfolding Engine.sensor_alarm
sensor_alarm-trig_by w id e n = ground arith

-- A sensor's event that changes the alarm's state comes from a sensor in alarm that is no keypad and
-- that the mode watches, and reaches an alarm that is armed or in its entry delay. From the entry
-- delay only an instant sensor moves it on, and then it is set off.
sensor_event_moves :
    (w : World) (id : ℕ) (kind : String) (alarming : Bool) (e : Engine)
    → (Engine.handle_sensor_event w id kind alarming e).state ≢ e.state
    → (str_eq kind "KPD" ≡ false)
      × (alarming ≡ true)
      × (Engine.watched w e id ≡ true)
      × (((rank e.state ≡ 2) × ((Engine.handle_sensor_event w id kind alarming e).trig_by ≡ id))
          ⊎ ((e.state ≡ pending)
              × ((w.config_for id).instant ≡ true)
              × ((Engine.handle_sensor_event w id kind alarming e).state ≡ triggered)))
unfolding Engine.handle_sensor_event Engine.sensor_alarm
sensor_event_moves w id kind alarming e n = ground arith

-- Armed, a watched sensor in alarm always moves the alarm on: set off by an instant sensor, the
-- entry delay by another, with the sensor remembered.
pub watched_sensor_noticed :
    (w : World) (id : ℕ) (kind : String) (e : Engine)
    → is_armed e.state ≡ true
    → str_eq kind "KPD" ≡ false
    → Engine.watched w e id ≡ true
    → ((Engine.handle_sensor_event w id kind true e).state
        ≡ (if (w.config_for id).instant then triggered else pending))
      × ((Engine.handle_sensor_event w id kind true e).trig_by ≡ id)
unfolding Engine.handle_sensor_event Engine.watched Engine.sensor_alarm
watched_sensor_noticed w id kind e a k h = ground arith

-- Whether the map has the sensor in alarm.
abbrev pub alarms : ℕ → List (ℕ × Bool) → Bool
alarms id [] = false
alarms id (x ∷ m) = x.1 && x.0 == id || alarms id m

or_swap : (a b c : Bool) → (a || (b || c)) ≡ (b || (a || c))
or_swap a b c = ground arith

alarms-permᴰ : (id : ℕ) {l m : List (ℕ × Bool)} → Permᴰ l m → alarms id l ≡ alarms id m
alarms-permᴰ id Permᴰ.nil = refl
alarms-permᴰ id (Permᴰ.cons p h) = rw (p, alarms-permᴰ id h)
alarms-permᴰ id (Permᴰ.swap {l = l} p q) = rw (p, q) (or_swap _ _ (alarms id l))
alarms-permᴰ id (Permᴰ.trans h k) = alarms-permᴰ id h ∙ alarms-permᴰ id k

alarms-perm : (id : ℕ) {l m : List (ℕ × Bool)} → Perm l m → alarms id l ≡ alarms id m
alarms-perm id h = ∥∥₁_elim h (Bool-set _ _) (alarms-permᴰ id)

first_alarming-none :
    (w : World) (e : Engine) (m : List (ℕ × Bool)) (id : ℕ)
    → Engine.first_alarming w e m ≡ none
    → alarms id m ≡ true
    → Engine.watched w e id ≡ false
unfolding Engine.first_alarming
first_alarming-none w e [] id h a = cc
first_alarming-none w e (x ∷ m) id h a = ground (arith, first_alarming-none w e m id)

sensor_alarm-leaves :
    (w : World) (id : ℕ) (e : Engine)
    → is_armed e.state ≡ true
    → is_armed (Engine.sensor_alarm w id e).state ≡ false
unfolding Engine.sensor_alarm
sensor_alarm-leaves w id e h = ground arith

in_alarm-none :
    (w : World) (e : Engine)
    → is_armed e.state ≡ true
    → is_armed (Engine.in_alarm w e).state ≡ true
    → Engine.first_alarming w e (w.visit e.last_alarm) ≡ none
unfolding Engine.in_alarm
in_alarm-none w e h a = elim (Option-cases (Engine.first_alarming w e (w.visit e.last_alarm))) [
  | inl q ↦ q
  | inr (id, q) ↦ ground (arith, sensor_alarm-leaves w id e h)
]

transition-keeps :
    (w : World) (e : Engine) (id : ℕ)
    → is_armed e.mode ≡ true
    → ((Engine.transition w e.mode e).last_alarm ≡ e.last_alarm)
      × (Engine.watched w (Engine.transition w e.mode e) id ≡ Engine.watched w e id)
      × ((Engine.transition w e.mode e).state ≡ e.mode)
unfolding Engine.transition Engine.watched
transition-keeps w e id m = ground arith

in_alarm-quiet :
    (w : World) (e : Engine) (id : ℕ)
    → Perm (w.visit e.last_alarm) e.last_alarm
    → is_armed e.state ≡ true
    → is_armed (Engine.in_alarm w e).state ≡ true
    → Engine.watched w e id ≡ true
    → alarms id e.last_alarm ≡ false
in_alarm-quiet w e id visits s a h = ground (
  arith,
  alarms-perm id visits,
  first_alarming-none w e (w.visit e.last_alarm) id (in_alarm-none w e s a),
)

-- When the engine has armed itself, and its state is still an armed one, no watched sensor is in
-- alarm. This rests on `range` visiting each entry of the map once, in any order.
pub armed_quiet :
    (w : World) (e : Engine) (id : ℕ)
    → Perm (w.visit e.last_alarm) e.last_alarm
    → is_armed e.mode ≡ true
    → is_armed (Engine.armed w e).state ≡ true
    → Engine.watched w e id ≡ true
    → alarms id e.last_alarm ≡ false
unfolding Engine.armed
armed_quiet w e id visits m a h =
    let (same, watch, state) = transition-keeps w (record e { armed_at = w.now / second }) id m in
    ap (alarms id) (sym same)
    ∙ in_alarm-quiet w (Engine.transition w e.mode (record e { armed_at = w.now / second })) id
        (rw same visits) (rw state m) a (watch ∙ unfold Engine.watched in h)
