-- ===== src/Alarm/SirenWant.antt =====
-- What the siren's driver (internal/alarm/siren.go) does for its master: it wants what it was told
-- last, and brings the siren back to that on a report.
use openqiara.Prelude.{
  ℕ, ◌+◌, ◌-◌, ◌≤◌, ◌<◌, ltb, Bool-cases, Option-cases, inl, inr, Bool, true, false, not, ◌&&◌,
  ◌||◌, Option, none, some, List, [], ◌∷◌, ◌++◌, ◌≡◌, ◌⊎◌, arith, refl, ◌∙◌, ap, if◌then◌else◌,
}
use openqiara.Alarm.Types.{
  State, SirenState, siren_off, siren_test, siren_exit_delay, siren_armed, siren_entry_delay,
  siren_alert, siren_alert_over, siren_blank, siren_other, Effect, siren, SirenCommand, notify,
  after, armed_night, disarmed, state_eq, World, StateFile,
}
use openqiara.Alarm.Types
use openqiara.Alarm.SirenDriver.{
  Want, want_unknown, want_off, want_armed, Order, radio_arm, radio_disarm, Driver, Radio,
  new_driver, rearm, rearm_every, retry_after, drive_arm, retry, drive_disarm, drive_alert,
  drive_entry_delay, handle_report, Call, order, reported, retried, drive, drive_all, is_live,
  is_off, is_want_armed,
}
use openqiara.Alarm.Orders.{wanted, siren-Told}
use openqiara.Alarm.Life.{Event, run, start}

-- What is newly sent by a call.
abbrev pub newest : List Order → Option Order
newest [] = none
newest (x ∷ xs) = some x

abbrev pub is_want_off : Want → Bool
is_want_off want_off = true
is_want_off _ = false

-- The siren is in an alarm, or armed, and should be off: its master said so, or it is left out.
abbrev pub is_stray : Radio → SirenState → Driver → Bool
is_stray r s d = is_live s && (not r.present || is_want_off d.want)

-- The siren is off and should be armed.
abbrev pub is_lost : Radio → SirenState → Driver → Bool
is_lost r s d = is_off s && r.present && is_want_armed d.want

-- No siren was found off within the last `rearm_every`.
abbrev pub IsDue : Radio → Option ℕ → Type 0
IsDue r none = Unit
IsDue r (some t) = t + rearm_every ≤ r.now

-- How a siren found off is armed again, `e` after `d`: as the arming that waited for the report says; else
-- at once, the time kept; or, sooner than `rearm_every` after the last time, by a timer that is
-- started for what is left of it, unless one is due already.
abbrev pub Rearms : Radio → Driver → Driver → Type 0
Rearms r d e =
    ((delay : Bool) × (d.delayed ≡ some delay) × (e.out ≡ radio_arm d.night delay ∷ d.out))
    ⊎ (((d.delayed ≡ none)
          × IsDue r d.last_rearm
          × (e.out ≡ radio_arm d.night false ∷ d.out)
          × (e.last_rearm ≡ some r.now))
        ⊎ ((d.delayed ≡ none)
            × ((t : ℕ) × (d.last_rearm ≡ some t)
                × (r.now < t + rearm_every)
                × (e.retrying ≡ true)
                × (e.out ≡ (
                    if d.retrying then d.out else retry_after (t + rearm_every - r.now) ∷ d.out)))))

-- The driver without an arming that waits.
rearm-Rearms :
    (r : Radio) (s : SirenState) (d : Driver)
    → d.delayed ≡ none
    → Rearms r d (rearm r (record d { last = s }))
unfolding rearm
rearm-Rearms r s d none_waits = elim (Option-cases d.last_rearm) [
  | inl never ↦ inr (inl (none_waits, rw never tt, ground arith, ground arith))
  | inr (t, at) ↦ elim (Bool-cases (ltb r.now (t + rearm_every))) [
    | inl early ↦ inr (inr (none_waits, (t, at, ground arith, ground arith, ground arith)))
    | inr late ↦ inr (inl (none_waits, rw at (ground arith), ground arith, ground arith))
  ]
]

report-Rearms :
    (r : Radio) (s : SirenState) (d : Driver)
    → is_lost r s d ≡ true
    → Rearms r d (handle_report r s d)
unfolding handle_report
report-Rearms r s d lost = elim (Option-cases d.delayed) [
  | inl none_waits ↦
      let shape : handle_report r s d ≡ rearm r (record d { last = s }) = ground arith in
      rw shape (rearm-Rearms r s d none_waits)
  | inr (delay, waits) ↦ inl (delay, waits, ground arith)
]

-- A siren reported armed, in an alarm or in an unknown state that should be off, or is left out of the
-- alarm, is disarmed. One reported off while it should be armed is armed for the wanted mode: as the
-- arming that waited for the report says, or at once, or by a timer for the rest of `rearm_every`
-- since the last time. On any other report the driver sends nothing.
pub report_corrects :
    (r : Radio) (s : SirenState) (d : Driver)
    → ((is_stray r s d ≡ true) × ((handle_report r s d).out ≡ radio_disarm ∷ d.out))
      ⊎ (((is_lost r s d ≡ true) × Rearms r d (handle_report r s d))
          ⊎ ((is_stray r s d ≡ false)
              × (is_lost r s d ≡ false)
              × ((handle_report r s d).out ≡ d.out)))
unfolding handle_report
report_corrects r s d = elim (Bool-cases (is_lost r s d)) [
  | inl lost ↦ inr (inl (lost, report-Rearms r s d lost))
  | inr kept ↦ ground arith
]

-- What the driver is to want after the engine's commands, newest first: the last arming or
-- disarming.
abbrev pub Follows : Option (Option Bool) → Driver → Type 0
Follows none d = d.want ≡ want_unknown
Follows (some none) d = d.want ≡ want_off
Follows (some (some night)) d = (d.want ≡ want_armed) × (d.night ≡ night)

-- The commands that the master gives, among the calls that reach the driver.
abbrev pub commands : List (Radio × Call) → List SirenCommand
commands [] = []
commands ((r, order c) ∷ cs) = c ∷ commands cs
commands ((r, reported s) ∷ cs) = commands cs
commands ((r, retried) ∷ cs) = commands cs

-- What the last of the commands leaves wanted, `w` before them.
abbrev pub wants : Option (Option Bool) → List SirenCommand → Option (Option Bool)
wants w [] = w
wants w (Types.SirenCommand.arm night delayed ∷ cs) = wants (some (some night)) cs
wants w (Types.SirenCommand.disarm ∷ cs) = wants (some none) cs
wants w (Types.SirenCommand.entry_delay ∷ cs) = wants w cs
wants w (Types.SirenCommand.alert ∷ cs) = wants w cs

drive-Follows :
    (r : Radio) (c : Call) (d : Driver) (w : Option (Option Bool))
    → Follows w d
    → Follows (wants w (commands ((r, c) ∷ []))) (drive r c d)
unfolding drive drive_arm drive_disarm drive_entry_delay drive_alert handle_report retry
drive-Follows r (order (Types.SirenCommand.arm night delay)) d w h = ground arith
drive-Follows r (order Types.SirenCommand.disarm) d w h = ground arith
drive-Follows r (order Types.SirenCommand.entry_delay) d w h = ground arith
drive-Follows r (order Types.SirenCommand.alert) d w h = ground arith
drive-Follows r (reported s) d w h = ground arith
drive-Follows r retried d w h = ground arith

wants-append :
    (r : Radio) (c : Call) (cs : List (Radio × Call)) (w : Option (Option Bool))
    → wants (wants w (commands ((r, c) ∷ []))) (commands cs) ≡ wants w (commands ((r, c) ∷ cs))
wants-append r (order (Types.SirenCommand.arm night delay)) cs w = refl
wants-append r (order Types.SirenCommand.disarm) cs w = refl
wants-append r (order Types.SirenCommand.entry_delay) cs w = refl
wants-append r (order Types.SirenCommand.alert) cs w = refl
wants-append r (reported s) cs w = refl
wants-append r retried cs w = refl

pub drive_all-Follows :
    (cs : List (Radio × Call)) (d : Driver) (w : Option (Option Bool))
    → Follows w d
    → Follows (wants w (commands cs)) (drive_all cs d)
unfolding drive_all
drive_all-Follows [] d w h = h
drive_all-Follows ((r, c) ∷ cs) d w h =
    rw (← wants-append r c cs w) (drive_all-Follows cs (drive r c d) _ (drive-Follows r c d w h))

-- The engine's commands to its siren, oldest first.
abbrev pub told_orders : List Effect → List SirenCommand
told_orders [] = []
told_orders (siren c ∷ xs) = told_orders xs ++ (c ∷ [])
told_orders (notify s ∷ xs) = told_orders xs
told_orders (after d g c ∷ xs) = told_orders xs

pub wants-snoc :
    (w : Option (Option Bool)) (cs : List SirenCommand) (c : SirenCommand)
    → wants w (cs ++ (c ∷ [])) ≡ wants (wants w cs) (c ∷ [])
wants-snoc w [] c = refl
wants-snoc w (Types.SirenCommand.arm night delay ∷ cs) c = wants-snoc (some (some night)) cs c
wants-snoc w (Types.SirenCommand.disarm ∷ cs) c = wants-snoc (some none) cs c
wants-snoc w (Types.SirenCommand.entry_delay ∷ cs) c = wants-snoc w cs c
wants-snoc w (Types.SirenCommand.alert ∷ cs) c = wants-snoc w cs c

wants-told : (xs : List Effect) → wants none (told_orders xs) ≡ wanted xs
wants-told [] = refl
wants-told (siren (Types.SirenCommand.arm night delay) ∷ xs) = rw wants-snoc
wants-told (siren Types.SirenCommand.disarm ∷ xs) = rw wants-snoc
wants-told (siren Types.SirenCommand.entry_delay ∷ xs) = rw wants-snoc (wants-told xs)
wants-told (siren Types.SirenCommand.alert ∷ xs) = rw wants-snoc (wants-told xs)
wants-told (notify s ∷ xs) = wants-told xs
wants-told (after d g c ∷ xs) = wants-told xs

-- The engine and its driver together: whatever the alarm went through since a start, and whatever
-- the siren reported between the engine's commands, the driver wants the siren off when the alarm
-- is disarmed, and else armed for the alarm's mode.
pub driver_wants_alarm :
    (w : World) (f : StateFile) (evs : List (World × Event)) (cs : List (Radio × Call))
    → commands cs ≡ told_orders (run evs (start w f)).effects
    → Follows
        (some (
          if state_eq (run evs (start w f)).state disarmed
          then none
          else some (state_eq (run evs (start w f)).mode armed_night)))
        (drive_all cs new_driver)
driver_wants_alarm w f evs cs h =
    let wanted_now =
      ap (wants none) h ∙ wants-told (run evs (start w f)).effects ∙ (siren-Told w f evs).agrees in
    rw wanted_now at (drive_all-Follows cs new_driver none (unfold new_driver in refl))
