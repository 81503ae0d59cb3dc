-- ===== src/Hlevents/Tests.antt =====
-- The dispatcher of the detections at concrete inputs (internal/hlevents/dispatcher.go).
use openqiara.Prelude.{◌≡◌, ◌||◌, true, false, some, List, [], ◌∷◌, refl, lookup, insert, erase}
use openqiara.Hlevents.Dispatcher.{
  IvObject, NotificationData, Dispatcher, entered, exited, other_type, new_detection, has_timer,
  handle_iv, go_on, sections, update_objects, update_object, apply_iv_event, enter_all, enter, show,
  reset_exit_timer, stop, fire, expire, run_late, leave_present, leave, cancel_exit_timer,
}
use openqiara.Hlevents.Expiry.{there, ends, named, awaiting, gone}
use openqiara.Hlevents.Runs.{Step, notified, went_on, fired, run, idle, detection_ends}

abbrev cat : IvObject
cat = record { class = "eOC_Pet"; confidence = 1; id = 26 }

abbrev cat_enters : NotificationData
cat_enters = record { events = entered ∷ []; objects = cat ∷ [] }

-- The notification, both parts of its handling.
abbrev cat_comes : List Step
cat_comes = notified cat_enters ∷ went_on ∷ []

abbrev cat_there : Dispatcher
cat_there = (run cat_comes idle).dispatcher

-- The cat is seen again while the function of its first timer waits for the lock; the timer fires
-- between the parts.
abbrev seen_again : List Step
seen_again = notified cat_enters ∷ went_on ∷ notified cat_enters ∷ fired 0 26 ∷ went_on ∷ []

cat_is_there : there 26 (run seen_again idle).dispatcher ≡ true
unfolding run handle_iv go_on update_objects update_object sections apply_iv_event enter_all enter
    show reset_exit_timer stop fire lookup insert
cat_is_there = refl

detection_ends_example :
    (ends 26 (run seen_again idle).dispatcher || named 26 (awaiting (run seen_again idle).todo))
    ≡ true
detection_ends_example =
    detection_ends seen_again 26 ((tt, tt), (tt, ((tt, tt), (tt, (tt, tt))))) cat_is_there

-- Both parts are done.
seen_again_done : (run seen_again idle).todo ≡ []
unfolding run handle_iv go_on update_objects update_object sections apply_iv_event enter_all enter
    show reset_exit_timer stop fire lookup insert
seen_again_done = refl

timer_runs : has_timer 0 26 cat_there.running ≡ true
unfolding run handle_iv go_on update_objects update_object sections apply_iv_event enter_all enter
    show reset_exit_timer stop lookup insert
timer_runs = refl

cat_kept : lookup 26 cat_there.state ≡ some (new_detection cat)
unfolding run handle_iv go_on update_objects update_object sections apply_iv_event enter_all enter
    show reset_exit_timer stop lookup insert
cat_kept = refl

-- Seen again, the cat is gone all the same once that function gets the lock.
test_late_timer : there 26 (run_late 26 (run seen_again idle).dispatcher) ≡ false
unfolding run handle_iv go_on update_objects update_object sections apply_iv_event enter_all enter
    show reset_exit_timer stop fire run_late expire lookup insert erase
test_late_timer = refl

-- An event of an unknown type leaves its object there, with no timer and the sink not told.
abbrev unknown_event : Dispatcher
unknown_event =
    (run
      (notified (record { events = other_type "eObjectMoved" ∷ []; objects = cat ∷ [] })
        ∷ went_on
        ∷ [])
      idle).dispatcher

test_unknown_event :
    (there 26 unknown_event ≡ true) × (ends 26 unknown_event ≡ false) × (unknown_event.told ≡ [])
unfolding run handle_iv go_on update_objects update_object sections apply_iv_event lookup insert
test_unknown_event = (refl, refl, refl)

-- An event without objects empties the scene.
test_exit :
    (run
      (notified (record { events = exited ∷ []; objects = [] }) ∷ went_on ∷ [])
      (run cat_comes idle)).dispatcher.told
    ≡ gone (new_detection cat) ∷ new_detection cat ∷ []
unfolding run handle_iv go_on update_objects update_object sections apply_iv_event enter_all enter
    show reset_exit_timer stop lookup insert leave_present leave cancel_exit_timer erase
test_exit = refl
