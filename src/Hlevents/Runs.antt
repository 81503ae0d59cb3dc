-- ===== src/Hlevents/Runs.antt =====
-- Every detection that is there will end, whatever reaches the dispatcher (internal/hlevents/dispatcher.go).
use openqiara.Prelude.{
  ℕ, ◌≡◌, true, false, ◌||◌, some, List, [], ◌∷◌, ◌++◌, ◌==◌, arith, refl, inl, inr, Bool-cases,
  Option-cases, ==_iff, lookup, lookup-insert, All,
}
use openqiara.Hlevents.Dispatcher.{
  IvObject, NotificationData, Detection, Dispatcher, Handling, handle_iv, go_on, stop, has_timer,
  fire, expire, waits, without_one, run_late, reset,
}
use openqiara.Hlevents.Expiry.{
  there, ends, named, awaiting, EndsBut, EndsDue, IsKnown, gone, left-there, runs-stop,
  handle_when-EndsDue, next_section-EndsDue,
}

expire-there :
    (i id : ℕ) (d : Dispatcher)
    → there i (expire id d) ≡ true
    → ((i == id) ≡ false) × (there i d ≡ true) × (ends i (expire id d) ≡ ends i d)
unfolding expire
expire-there i id d t = elim (Option-cases (lookup id d.state)) [
  | inl unknown ↦ elim (Bool-cases (i == id)) [
    | inl same ↦ absurd (ground (arith, ==_iff i id))
    | inr other ↦ (other, ground arith, rw (unknown, expire) refl)
  ]
  | inr (det, at) ↦ elim (Bool-cases det.present) [
    | inl here ↦
        let (other, before) = left-there i id det d (rw (at, expire, here) at t) in
        (other, before, rw (at, expire, here) refl)
    | inr away ↦ elim (Bool-cases (i == id)) [
      | inl same ↦ absurd (ground (arith, ==_iff i id))
      | inr other ↦ (other, ground arith, rw (at, expire, away) refl)
    ]
  ]
]

waits-without_one :
    (i id : ℕ) (ids : List ℕ) → (i == id) ≡ false → waits i (without_one id ids) ≡ waits i ids
unfolding without_one
waits-without_one i id [] h = refl
waits-without_one i id (j ∷ ids) h = ground (arith, waits-without_one i id ids)

waits-append : (i id : ℕ) (ids : List ℕ) → waits i (ids ++ (id ∷ [])) ≡ (waits i ids || id == i)
waits-append i id [] = ground arith
waits-append i id (j ∷ ids) = ground (arith, waits-append i id ids)

fire-EndsBut :
    (os : List IvObject) (t id : ℕ) (d : Dispatcher) → EndsBut os d → EndsBut os (fire t id d)
unfolding fire
fire-EndsBut os t id d h i there_i = elim (Bool-cases (i == id)) [
  | inl same ↦ ground (arith, h i, ==_iff i id, waits-append i id d.late)
  | inr other ↦ ground (arith, h i, runs-stop i t id d.running, waits-append i id d.late)
]

run_late-EndsBut :
    (os : List IvObject) (id : ℕ) (d : Dispatcher) → EndsBut os d → EndsBut os (run_late id d)
unfolding run_late
run_late-EndsBut os id d h i t = elim (Bool-cases (waits id d.late)) [
  | inl waiting ↦
      let d' : Dispatcher = record d { late = without_one id d.late } in
      let shape : run_late id d ≡ expire id d' = rw (waiting, run_late) refl in
      let (other, before, same) = expire-there i id d' (rw shape at t) in
      ground (arith, h i before, waits-without_one i id d.late)
  | inr none_waits ↦ ground (arith, h i)
]

-- What reaches a dispatcher: a notification, the next part of the one that is handled, a timer that fires, the
-- function of one that gets the lock, and `Reset`.
pub data Step : Type 0 where
  notified : NotificationData → Step
  went_on : Step
  fired : ℕ → ℕ → Step
  ran : ℕ → Step
  was_reset : Step

unfoldable pub step : Step → Handling → Handling
step (notified n) h = handle_iv n h
step went_on h = go_on h
step (fired t id) h = record h { dispatcher = fire t id h.dispatcher }
step (ran id) h = record h { dispatcher = run_late id h.dispatcher }
step was_reset h = record h { dispatcher = reset h.dispatcher }

unfoldable pub run : List Step → Handling → Handling
unfolding step
run [] h = h
run (s ∷ ss) h = run ss (step s h)

abbrev pub HasKnown : Step → Type 0
HasKnown (notified n) = All IsKnown n.events
HasKnown _ = Unit

abbrev Ends : Handling → Type 0
Ends h = EndsDue h.todo h.dispatcher

step-Ends : (s : Step) (h : Handling) → HasKnown s → Ends h → Ends (step s h)
unfolding step handle_iv go_on
step-Ends (notified n) h k e = handle_when-EndsDue h.todo n h.dispatcher k e
step-Ends went_on h k e = next_section-EndsDue h.todo h.dispatcher e
step-Ends (fired t id) h k (e, ks) = (fire-EndsBut (awaiting h.todo) t id h.dispatcher e, ks)
step-Ends (ran id) h k (e, ks) = (run_late-EndsBut (awaiting h.todo) id h.dispatcher e, ks)
step-Ends was_reset h k (e, ks) = ((λ i t. absurd (unfold reset lookup in cc)), ks)

-- The dispatcher at its start.
abbrev pub new_dispatcher : Dispatcher
new_dispatcher = record { state = []; timers = []; running = []; late = []; next = 0; told = [] }

abbrev pub idle : Handling
idle = record { dispatcher = new_dispatcher; todo = [] }

run-Ends : (ss : List Step) (h : Handling) → All HasKnown ss → Ends h → Ends (run ss h)
unfolding run
run-Ends [] h k e = e
run-Ends (s ∷ ss) h (k, ks) e = run-Ends ss (step s h) ks (step-Ends s h k e)

idle-Ends : Ends idle
idle-Ends = ((λ i h. absurd (unfold lookup in cc)), tt)

-- From the start, through any notifications of known event types, whose parts, timers that fire, functions of
-- timers that get the lock and resets come in any order: a detection that is there has a timer
-- that runs, or the function of one waits for the lock, or its object is one of the notification
-- that is being handled.
pub detection_ends :
    (ss : List Step) (id : ℕ)
    → All HasKnown ss
    → there id (run ss idle).dispatcher ≡ true
    → (ends id (run ss idle).dispatcher || named id (awaiting (run ss idle).todo)) ≡ true
detection_ends ss id k t = (run-Ends ss idle k idle-Ends).0 id t

-- A timer of a detection that is there fires, and its function gets the lock: the detection is gone, and the
-- sink is told so.
expiry_told :
    (t id : ℕ) (det : Detection) (d : Dispatcher)
    → has_timer t id d.running ≡ true
    → lookup id d.state ≡ some det
    → det.present ≡ true
    → (there id (run_late id (fire t id d)) ≡ false)
      × ((run_late id (fire t id d)).told ≡ gone det ∷ d.told)
unfolding expire
expiry_told t id det d timer at here =
    let fired_d : Dispatcher = record d {
      running = stop t id d.running;
      late = d.late ++ (id ∷ []);
    } in
    let ran_d : Dispatcher = record fired_d { late = without_one id fired_d.late } in
    let fires : fire t id d ≡ fired_d = unfold fire in rw (timer, fire) refl in
    let waiting : waits id fired_d.late ≡ true = ground (arith, waits-append id id d.late) in
    let runs_it : run_late id fired_d ≡ expire id ran_d =
      unfold run_late in rw (waiting, run_late) refl in
    rw (fires, runs_it)
      (ground (arith, lookup-insert id id (gone det) d.state), rw (at, expire, here) refl)
