-- ===== src/Hlevents/Dispatcher.antt =====
-- The dispatcher of the camera's detections, internal/hlevents/dispatcher.go and types.go. The id of an object
-- is text that is only compared: a number stands for it, 0 for the empty text. A confidence is only copied: a
-- number stands for its bits. A timer is its number; one that has fired waits for the lock as the id in
-- `late`. The map of the detections is in ascending order of the ids, where Go's order is any.
use openqiara.Prelude.{
  ℕ, ◌+◌, Bool, true, false, ◌&&◌, Option, none, some, List, [], ◌∷◌, ◌++◌, ◌==◌, if◌then◌else◌,
  Dict, lookup, insert, erase,
}
use Prim.Native.String.{String}

pub data EventType : Type 0 where
  entered exited classified lost : EventType
  other_type : String → EventType

pub record IvObject : Type 0 where
  pub class : String
  pub confidence : ℕ
  pub id : ℕ

pub record NotificationData : Type 0 where
  pub events : List EventType
  pub objects : List IvObject

pub record Detection : Type 0 where
  pub class : String
  pub confidence : ℕ
  pub object_id : ℕ
  pub present : Bool

-- `running` are the timers that have not fired, each with its object; `told` are the detections given to the
-- sink, newest first.
pub record Dispatcher : Type 0 where
  pub state : Dict Detection
  pub timers : Dict ℕ
  pub running : List (ℕ × ℕ)
  pub late : List ℕ
  pub next : ℕ
  pub told : List Detection

abbrev pub new_detection : IvObject → Detection
new_detection o = record {
  class = o.class;
  confidence = o.confidence;
  object_id = o.id;
  present = true;
}

abbrev pub emit : Detection → Dispatcher → Dispatcher
emit det d = record d { told = det ∷ d.told }

-- `t.Stop()`: a timer that has fired is not stopped.
unfoldable pub stop : ℕ → ℕ → List (ℕ × ℕ) → List (ℕ × ℕ)
stop t id [] = []
stop t id ((u, i) ∷ ts) =
    let rest = stop t id ts in if u == t && i == id then rest else (u, i) ∷ rest

abbrev pub stop_timer : Option ℕ → ℕ → List (ℕ × ℕ) → List (ℕ × ℕ)
stop_timer none id ts = ts
stop_timer (some t) id ts = stop t id ts

unfoldable pub reset_exit_timer : ℕ → Dispatcher → Dispatcher
reset_exit_timer id d = record d {
  timers = insert id d.next d.timers;
  running = (d.next, id) ∷ stop_timer (lookup id d.timers) id d.running;
  next = d.next + 1;
}

unfoldable pub cancel_exit_timer : ℕ → Dispatcher → Dispatcher
cancel_exit_timer id d = elim (lookup id d.timers) [
  | none ↦ d
  | some t ↦ record d { running = stop t id d.running; timers = erase id d.timers }
]

-- The first loop of `handleIV`: class and confidence.
unfoldable pub update_object : IvObject → Dispatcher → Dispatcher
update_object o d = if o.id == 0 then d else record d {
  state =
      insert o.id
        (elim (lookup o.id d.state) [
          | none ↦ new_detection o
          | some det ↦ record det { class = o.class; confidence = o.confidence }
        ])
        d.state;
}

unfoldable pub update_objects : List IvObject → Dispatcher → Dispatcher
update_objects [] d = d
update_objects (o ∷ os) d = update_objects os (update_object o d)

-- An object that is there, or comes: its detection is published and its timer starts again.
unfoldable pub show : ℕ → Detection → Dispatcher → Dispatcher
show id det d =
    let here = record det { present = true } in
    reset_exit_timer id (emit here (record d { state = insert id here d.state }))

unfoldable pub enter : IvObject → Dispatcher → Dispatcher
enter o d = elim (lookup o.id d.state) [
  | none ↦ show o.id (new_detection o) d
  | some det ↦ show o.id det d
]

unfoldable pub enter_all : List IvObject → Dispatcher → Dispatcher
enter_all [] d = d
enter_all (o ∷ os) d = enter_all os (enter o d)

-- An object that leaves.
unfoldable pub leave : ℕ → Dispatcher → Dispatcher
leave id d = elim (lookup id d.state) [
  | none ↦ d
  | some det ↦
      let gone = record det { present = false } in
      cancel_exit_timer id (emit gone (record d { state = insert id gone d.state }))
]

unfoldable pub leave_all : List IvObject → Dispatcher → Dispatcher
leave_all [] d = d
leave_all (o ∷ os) d = leave_all os (leave o.id d)

-- Every object that is there leaves.
unfoldable pub leave_present : Dict Detection → Dispatcher → Dispatcher
leave_present [] d = d
leave_present ((id, det) ∷ dets) d = leave_present dets (if det.present then leave id d else d)

unfoldable pub apply_iv_event : EventType → List IvObject → Dispatcher → Dispatcher
apply_iv_event entered os d = enter_all os d
apply_iv_event classified os d = enter_all os d
apply_iv_event exited [] d = leave_present d.state d
apply_iv_event exited (o ∷ os) d = leave_all (o ∷ os) d
apply_iv_event lost [] d = leave_present d.state d
apply_iv_event lost (o ∷ os) d = leave_all (o ∷ os) d
apply_iv_event (other_type name) os d = d

-- A notification with objects only: the detections that are known are published again.
unfoldable pub refresh : List IvObject → Dispatcher → Dispatcher
refresh [] d = d
refresh (o ∷ os) d =
    refresh os (elim (lookup o.id d.state) [ none ↦ d | some det ↦ show o.id det d ])

-- What `handleIV` does after the update of the objects, the lock released before each: an event is
-- applied, or the objects of a notification without events are published again.
pub data Section : Type 0 where
  event : EventType → List IvObject → Section
  again : List IvObject → Section

unfoldable pub run_section : Section → Dispatcher → Dispatcher
run_section (event ev os) d = apply_iv_event ev os d
run_section (again os) d = refresh os d

unfoldable pub event_sections : List EventType → List IvObject → List Section
event_sections [] os = []
event_sections (ev ∷ evs) os = event ev os ∷ event_sections evs os

unfoldable pub sections_of : List EventType → List IvObject → List Section
unfolding event_sections
sections_of [] os = again os ∷ []
sections_of (ev ∷ evs) os = event_sections (ev ∷ evs) os

unfoldable pub sections : NotificationData → List Section
unfolding sections_of
sections n = sections_of n.events n.objects

-- The dispatcher, and what is left to do of the notification that is being handled.
pub record Handling : Type 0 where
  pub dispatcher : Dispatcher
  pub todo : List Section

unfoldable pub handle_when : List Section → NotificationData → Dispatcher → Handling
unfolding sections
handle_when [] n d = record { dispatcher = update_objects n.objects d; todo = sections n }
handle_when (s ∷ ss) n d = record { dispatcher = d; todo = s ∷ ss }

-- The first locked part of `handleIV`. One goroutine handles the notifications, one after the other.
unfoldable pub handle_iv : NotificationData → Handling → Handling
unfolding handle_when
handle_iv n h = handle_when h.todo n h.dispatcher

unfoldable pub next_section : List Section → Dispatcher → Handling
unfolding run_section
next_section [] d = record { dispatcher = d; todo = [] }
next_section (s ∷ ss) d = record { dispatcher = run_section s d; todo = ss }

-- The next part of `handleIV`, once it has the lock again.
unfoldable pub go_on : Handling → Handling
unfolding next_section
go_on h = next_section h.todo h.dispatcher

-- A timer fires, and its function waits for the lock.
abbrev pub has_timer : ℕ → ℕ → List (ℕ × ℕ) → Bool
has_timer t id [] = false
has_timer t id ((u, i) ∷ ts) = if u == t && i == id then true else has_timer t id ts

unfoldable pub fire : ℕ → ℕ → Dispatcher → Dispatcher
unfolding stop
fire t id d =
    if has_timer t id d.running
    then record d { running = stop t id d.running; late = d.late ++ (id ∷ []) }
    else d

-- The function of a timer, once it has the lock.
unfoldable pub expire : ℕ → Dispatcher → Dispatcher
expire id d =
    let expired : Dispatcher = elim (lookup id d.state) [
      | none ↦ d
      | some det ↦
          if det.present
          then (let gone = record det { present = false } in
              emit gone (record d { state = insert id gone d.state }))
          else d
    ] in
    record expired { timers = erase id expired.timers }

abbrev pub waits : ℕ → List ℕ → Bool
waits id [] = false
waits id (i ∷ ids) = if i == id then true else waits id ids

unfoldable pub without_one : ℕ → List ℕ → List ℕ
without_one id [] = []
without_one id (i ∷ ids) = if i == id then ids else i ∷ without_one id ids

-- The functions that wait get the lock in any order.
unfoldable pub run_late : ℕ → Dispatcher → Dispatcher
run_late id d = if waits id d.late then expire id (record d { late = without_one id d.late }) else d

-- `Reset` stops the timers that it knows.
unfoldable pub stop_known : Dict ℕ → List (ℕ × ℕ) → List (ℕ × ℕ)
stop_known [] ts = ts
stop_known ((id, t) ∷ timers) ts = stop_known timers (stop t id ts)

unfoldable pub reset : Dispatcher → Dispatcher
reset d = record d { state = []; timers = []; running = stop_known d.timers d.running }
