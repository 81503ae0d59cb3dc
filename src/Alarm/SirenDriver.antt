-- ===== src/Alarm/SirenDriver.antt =====
-- The driver of the siren, internal/alarm/siren.go. What the driver sends is pushed on `out`, newest
-- first. The radio's errors are only logged in the source, and are left out.
use openqiara.Prelude.{
  ℕ, ◌+◌, ◌-◌, Bool, true, false, not, ◌&&◌, Option, none, some, List, [], ◌∷◌, ltb, if◌then◌else◌,
}
use openqiara.Alarm.Types.{
  SirenState, siren_off, siren_test, siren_exit_delay, siren_armed, siren_entry_delay, siren_alert,
  siren_alert_over, siren_blank, siren_other, Effect, siren, SirenCommand,
}
use openqiara.Alarm.Types

pub data Want : Type 0 where
  want_unknown want_off want_armed : Want

-- The calls of `SirenRadio`, and the timer that `rearmLocked` starts.
pub data Order : Type 0 where
  radio_arm : Bool → Bool → Order
  radio_entry_delay radio_alert radio_wail radio_disarm radio_request_state : Order
  retry_after : ℕ → Order

pub record Driver : Type 0 where
  pub want : Want
  pub night : Bool
  pub armed : Option Bool
  pub last : SirenState
  pub delayed : Option Bool
  pub last_rearm : Option ℕ
  pub retrying : Bool
  pub out : List Order

-- What a call finds: whether a siren keeps the alarm, and the clock in nanoseconds.
pub record Radio : Type 0 where
  pub present : Bool
  pub now : ℕ

abbrev pub rearm_every : ℕ
rearm_every = 5_000_000_000

unfoldable pub new_driver : Driver
new_driver = record {
  want = want_unknown;
  night = false;
  armed = none;
  last = siren_blank;
  delayed = none;
  last_rearm = none;
  retrying = false;
  out = [];
}

abbrev pub send : Order → Driver → Driver
send x d = record d { out = x ∷ d.out }

abbrev pub bool_eq : Bool → Bool → Bool
bool_eq true b = b
bool_eq false b = not b

-- `armLocked`
unfoldable pub arm_now : Bool → Driver → Driver
arm_now delay d = send (radio_arm d.night delay) (record d {
  armed = some d.night;
  last = if delay then siren_exit_delay else siren_armed;
  delayed = none;
})

-- A siren armed for the mode already, `d.armed != nil && *d.armed == night`.
abbrev pub armed_for : Option Bool → Bool → Bool
armed_for none night = false
armed_for (some mode) night = bool_eq mode night

-- The `switch d.last` of `Arm`.
unfoldable pub arm_dispatch : SirenState → Bool → Bool → Driver → Driver
unfolding arm_now
arm_dispatch siren_blank night delay d =
    send radio_request_state (record d { delayed = some delay })
arm_dispatch siren_entry_delay night delay d = d
arm_dispatch siren_alert night delay d = d
arm_dispatch siren_alert_over night delay d = d
arm_dispatch siren_armed night delay d =
    if armed_for d.armed night then d else arm_now delay (send radio_disarm d)
arm_dispatch siren_exit_delay night delay d =
    if armed_for d.armed night && delay then d else arm_now delay (send radio_disarm d)
arm_dispatch _ night delay d = arm_now delay d

unfoldable pub drive_arm : Radio → Bool → Bool → Driver → Driver
unfolding arm_dispatch
drive_arm r night delay d =
    let wanting = record d { want = want_armed; night = night } in
    if r.present then arm_dispatch d.last night delay wanting else wanting

-- `rearmEvery - time.Since(lastRearm)`, 0 where it is not positive. The zero time is long past.
abbrev pub rearm_wait : ℕ → Option ℕ → ℕ
rearm_wait now none = 0
rearm_wait now (some t) = t + rearm_every - now

unfoldable pub rearm : Radio → Driver → Driver
unfolding arm_now
rearm r d =
    let wait = rearm_wait r.now d.last_rearm in
    if ltb 0 wait
    then if d.retrying then d else send (retry_after wait) (record d { retrying = true })
    else arm_now false (record d { last_rearm = some r.now })

abbrev pub is_want_armed : Want → Bool
is_want_armed want_armed = true
is_want_armed _ = false

-- The function that `rearmLocked` hands to its timer.
unfoldable pub retry : Driver → Driver
retry d =
    let due = record d { retrying = false } in
    if is_want_armed d.want then send radio_request_state due else due

unfoldable pub drive_disarm : Driver → Driver
drive_disarm d =
    send radio_disarm (record d { want = want_off; armed = none; delayed = none; last = siren_off })

unfoldable pub drive_entry_delay : Radio → Driver → Driver
drive_entry_delay r d = if r.present then send radio_entry_delay d else d

unfoldable pub drive_alert : Radio → Driver → Driver
drive_alert r d = if r.present then send radio_wail (send radio_alert d) else d

-- `s != SirenOff && s != SirenTest`
abbrev pub is_live : SirenState → Bool
is_live siren_off = false
is_live siren_test = false
is_live _ = true

abbrev pub is_off : SirenState → Bool
is_off siren_off = true
is_off _ = false

-- The cases of `HandleReport` for a siren that is present.
unfoldable pub report_dispatch : Want → SirenState → Radio → Driver → Driver
unfolding rearm arm_now
report_dispatch want_off s r d = if is_live s then send radio_disarm d else d
report_dispatch want_armed s r d =
    if is_off s then elim d.delayed [ none ↦ rearm r d | some delay ↦ arm_now delay d ] else d
report_dispatch want_unknown s r d = d

unfoldable pub handle_report : Radio → SirenState → Driver → Driver
unfolding report_dispatch
handle_report r s d =
    let heard = record d { last = s } in
    if not r.present
    then if is_live s then send radio_disarm heard else heard
    else report_dispatch d.want s r heard

-- The calls that reach a driver.
pub data Call : Type 0 where
  order : SirenCommand → Call
  reported : SirenState → Call
  retried : Call

unfoldable pub obey : Radio → SirenCommand → Driver → Driver
obey r (Types.SirenCommand.arm night delay) d = drive_arm r night delay d
obey r Types.SirenCommand.disarm d = drive_disarm d
obey r Types.SirenCommand.entry_delay d = drive_entry_delay r d
obey r Types.SirenCommand.alert d = drive_alert r d

unfoldable pub drive : Radio → Call → Driver → Driver
unfolding obey
drive r (order c) d = obey r c d
drive r (reported s) d = handle_report r s d
drive r retried d = retry d

unfoldable pub drive_all : List (Radio × Call) → Driver → Driver
drive_all [] d = d
drive_all ((r, c) ∷ cs) d = drive_all cs (drive r c d)
