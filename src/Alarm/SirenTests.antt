-- ===== src/Alarm/SirenTests.antt =====
-- Runs of the siren's driver, and each property at a concrete input.
use openqiara.Prelude.{
  ℕ, ◌-◌, ◌*◌, ◌≤◌, true, false, none, some, List, [], ◌∷◌, ◌≡◌, ◌⊎◌, arith, refl, if◌then◌else◌,
}
use openqiara.Alarm.Types.{
  disarmed, armed_night, state_eq, SirenState, siren_entry_delay, siren_alert_over, siren_off,
  siren_test, siren_exit_delay, siren_armed, siren_alert, siren_blank, missing,
}
use openqiara.Alarm.Types
use openqiara.Alarm.Life.{run, start, step, load, tell}
use openqiara.Alarm.Engine
use openqiara.Alarm.SirenDriver.{
  Driver, Radio, radio_arm, radio_disarm, retry_after, radio_request_state, new_driver,
  handle_report, Call, order, reported, retried, drive, drive_all, drive_arm, drive_disarm,
  armed_for, rearm_every, drive_alert, drive_entry_delay, retry, obey, rearm_wait,
}
use openqiara.Alarm.SirenWant.{
  report_corrects, driver_wants_alarm, is_stray, is_lost, Rearms, Follows, commands, told_orders,
}
use openqiara.Alarm.SirenRate.{rearm_rate, arms}
use openqiara.Alarm.Tests.{home, fresh, entered}

abbrev radio : ℕ → Radio
radio t = record { present = true; now = t }

abbrev left_out : Radio
left_out = record { present = false; now = 0 }

-- A night arming that waited for the siren's first report, answered at once.
abbrev waiting : List (Radio × Call)
waiting = (radio 7, order (Types.SirenCommand.arm true true)) ∷ (radio 8, reported siren_off) ∷ []

waiting_arms : (drive_all waiting new_driver).out ≡ radio_arm true true ∷ radio_request_state ∷ []
unfolding drive_all drive drive_arm handle_report new_driver
waiting_arms = refl

-- A siren that is armed and was found off before.
abbrev torn : Driver
torn = record {
  want = openqiara.Alarm.SirenDriver.want_armed;
  night = true;
  armed = some true;
  last = siren_armed;
  delayed = none;
  last_rearm = some 1_000_000_000;
  retrying = false;
  out = [];
}

-- A siren that is found off again two seconds after it was armed again, and one in an unknown state
-- while it should be off.
abbrev again : Driver
again = torn

report_corrects_example :
    ((is_stray (radio 3_000_000_000) siren_off again ≡ true)
      × ((handle_report (radio 3_000_000_000) siren_off again).out ≡ radio_disarm ∷ again.out))
    ⊎ (((is_lost (radio 3_000_000_000) siren_off again ≡ true)
          × Rearms
              (radio 3_000_000_000)
              again
              (handle_report (radio 3_000_000_000) siren_off again))
        ⊎ ((is_stray (radio 3_000_000_000) siren_off again ≡ false)
            × (is_lost (radio 3_000_000_000) siren_off again ≡ false)
            × ((handle_report (radio 3_000_000_000) siren_off again).out ≡ again.out)))
report_corrects_example = report_corrects (radio 3_000_000_000) siren_off again

again_waits :
    (handle_report (radio 3_000_000_000) siren_off again).out ≡ retry_after 3_000_000_000 ∷ []
unfolding handle_report
again_waits = refl

blank_disarmed :
    (handle_report (radio 1) siren_blank (drive_disarm new_driver)).out
    ≡ radio_disarm ∷ radio_disarm ∷ []
unfolding handle_report drive_disarm new_driver
blank_disarmed = refl

-- The engine's orders when somebody enters, with a report in between.
abbrev watch : List (Radio × Call)
watch =
    (radio 1, order Types.SirenCommand.disarm)
    ∷ (radio 2, order (Types.SirenCommand.arm false false))
    ∷ (radio 3, reported siren_armed)
    ∷ (radio 4, order Types.SirenCommand.entry_delay)
    ∷ []

watch_told : commands watch ≡ told_orders (run entered fresh).effects
unfolding run step start Engine.set_timings load tell Engine.new Engine.handle_command Engine.armed
    Engine.in_alarm Engine.first_alarming Engine.handle_sensor_event Engine.put Engine.sensor_alarm
watch_told = refl

driver_wants_alarm_example :
    Follows
      (some (
        if state_eq (run entered fresh).state disarmed
        then none
        else some (state_eq (run entered fresh).mode armed_night)))
      (drive_all watch new_driver)
driver_wants_alarm_example = driver_wants_alarm home missing entered watch watch_told

-- Three reports within the delay.
abbrev offs : List (Radio × Call)
offs =
    (radio 2_000_000_000, reported siren_off)
    ∷ (radio 6_000_000_000, retried)
    ∷ (radio 6_000_000_000, reported siren_off)
    ∷ (radio 7_000_000_000, reported siren_off)
    ∷ []

offs_arm_once : arms (drive_all offs torn).out ≡ 1
unfolding drive_all drive handle_report retry
offs_arm_once = refl

rearm_rate_example :
    (arms (drive_all offs torn).out - arms torn.out) * rearm_every ≤ 8_000_000_000 - 1_000_000_000
rearm_rate_example = rearm_rate offs torn 1_000_000_000 8_000_000_000 refl refl (omega arith) refl
