-- ===== src/Hlevents/Expiry.antt =====
-- Every detection that is there will end (internal/hlevents/dispatcher.go): one of its timers runs, or the
-- function of one waits for the lock.
use openqiara.Prelude.{
  ℕ, ◌≡◌, Bool, true, false, ◌||◌, Option, none, some, List, [], ◌∷◌, ◌==◌, arith, refl, sym, inl,
  inr, Bool-cases, Option-cases, ==_iff, Dict, lookup, insert, lookup-insert, All,
}
use openqiara.Hlevents.Dispatcher.{
  EventType, entered, exited, classified, lost, other_type, IvObject, NotificationData, Detection,
  Dispatcher, new_detection, emit, stop, stop_timer, reset_exit_timer, cancel_exit_timer,
  update_object, update_objects, show, enter, enter_all, leave, leave_all, leave_present,
  apply_iv_event, refresh, Section, event, again, run_section, event_sections, sections_of,
  handle_when, next_section, waits,
}

abbrev pub is_there : Option Detection → Bool
is_there none = false
is_there (some det) = det.present

abbrev pub there : ℕ → Dispatcher → Bool
there id d = is_there (lookup id d.state)

-- A timer of the object runs.
abbrev pub runs : ℕ → List (ℕ × ℕ) → Bool
runs id [] = false
runs id ((t, i) ∷ ts) = i == id || runs id ts

abbrev pub ends : ℕ → Dispatcher → Bool
ends id d = runs id d.running || waits id d.late

-- The object is one of a notification.
abbrev pub named : ℕ → List IvObject → Bool
named id [] = false
named id (o ∷ os) = o.id == id || named id os

-- Every detection that is there will end, but for those of some objects.
abbrev pub EndsBut : List IvObject → Dispatcher → Type 0
EndsBut os d = (id : ℕ) → there id d ≡ true → (ends id d || named id os) ≡ true

pub runs-stop :
    (i t id : ℕ) (ts : List (ℕ × ℕ)) → (i == id) ≡ false → runs i (stop t id ts) ≡ runs i ts
unfolding stop
runs-stop i t id [] h = refl
runs-stop i t id ((u, j) ∷ ts) h = ground (arith, runs-stop i t id ts)

runs-stop_timer :
    (i id : ℕ) (t : Option ℕ) (ts : List (ℕ × ℕ))
    → (i == id) ≡ false
    → runs i (stop_timer t id ts) ≡ runs i ts
runs-stop_timer i id none ts h = refl
runs-stop_timer i id (some t) ts h = runs-stop i t id ts h

-- What `show` makes of each object.
show-EndsBut :
    (o : IvObject) (os : List IvObject) (det : Detection) (d : Dispatcher)
    → EndsBut (o ∷ os) d
    → EndsBut os (show o.id det d)
unfolding show reset_exit_timer
show-EndsBut o os det d h i t = elim (Bool-cases (i == o.id)) [
  | inl same ↦ ground arith
  | inr other ↦
      let here = record det { present = true } in
      let before : there i d ≡ true = ground (arith, lookup-insert i o.id here d.state) in
      ground (arith, h i before, runs-stop_timer i o.id (lookup o.id d.timers) d.running)
]

cancel-EndsBut :
    (i id : ℕ) (d : Dispatcher) → (i == id) ≡ false → ends i (cancel_exit_timer id d) ≡ ends i d
unfolding cancel_exit_timer
cancel-EndsBut i id d h = elim (Option-cases (lookup id d.timers)) [
  | inl none_set ↦ rw (none_set, cancel_exit_timer) refl
  | inr (t, set) ↦ rw (set, cancel_exit_timer) (ground (arith, runs-stop i t id d.running))
]

cancel-state : (id : ℕ) (d : Dispatcher) → (cancel_exit_timer id d).state ≡ d.state
unfolding cancel_exit_timer
cancel-state id d = ground arith

abbrev pub gone : Detection → Detection
gone det = record det { present = false }

pub left-there :
    (i id : ℕ) (det : Detection) (d : Dispatcher)
    → is_there (lookup i (insert id (gone det) d.state)) ≡ true
    → ((i == id) ≡ false) × (there i d ≡ true)
left-there i id det d t = elim (Bool-cases (i == id)) [
  | inl same ↦ absurd (ground (arith, lookup-insert i id (gone det) d.state))
  | inr other ↦ (other, ground (arith, lookup-insert i id (gone det) d.state))
]

-- Whoever is there after an object left is another one, and was there.
leave-there :
    (i id : ℕ) (d : Dispatcher)
    → there i (leave id d) ≡ true
    → ((i == id) ≡ false) × (there i d ≡ true) × (ends i (leave id d) ≡ ends i d)
unfolding leave
leave-there i id d t = elim (Option-cases (lookup id d.state)) [
  | inl unknown ↦ elim (Bool-cases (i == id)) [
    | inl same ↦ absurd (ground (arith, ==_iff i id))
    | inr other ↦ (other, ground arith, rw (unknown, leave) refl)
  ]
  | inr (det, at) ↦
      let d' : Dispatcher = emit (gone det) (record d { state = insert id (gone det) d.state }) in
      let shape : leave id d ≡ cancel_exit_timer id d' = rw (at, leave) refl in
      let (other, before) = left-there i id det d (rw (sym (cancel-state id d')) (rw shape at t)) in
      (other, before, rw shape (cancel-EndsBut i id d' other))
]

leave-EndsBut :
    (o : IvObject) (os : List IvObject) (d : Dispatcher)
    → EndsBut (o ∷ os) d
    → EndsBut os (leave o.id d)
leave-EndsBut o os d h i t =
    let (other, before, same) = leave-there i o.id d t in ground (arith, h i before)

leave_any-EndsBut : (id : ℕ) (d : Dispatcher) → EndsBut [] d → EndsBut [] (leave id d)
leave_any-EndsBut id d h i t =
    let (other, before, same) = leave-there i id d t in ground (arith, h i before)

leave_all-EndsBut :
    (os : List IvObject) (d : Dispatcher) → EndsBut os d → EndsBut [] (leave_all os d)
unfolding leave_all
leave_all-EndsBut [] d h = h
leave_all-EndsBut (o ∷ os) d h = leave_all-EndsBut os (leave o.id d) (leave-EndsBut o os d h)

leave_present-EndsBut :
    (dets : Dict Detection) (d : Dispatcher) → EndsBut [] d → EndsBut [] (leave_present dets d)
unfolding leave_present
leave_present-EndsBut [] d h = h
leave_present-EndsBut ((id, det) ∷ dets) d h = elim (Bool-cases det.present) [
  | inl here ↦ rw here (leave_present-EndsBut dets (leave id d) (leave_any-EndsBut id d h))
  | inr away ↦ rw away (leave_present-EndsBut dets d h)
]

enter-EndsBut :
    (o : IvObject) (os : List IvObject) (d : Dispatcher)
    → EndsBut (o ∷ os) d
    → EndsBut os (enter o d)
unfolding enter
enter-EndsBut o os d h = elim (Option-cases (lookup o.id d.state)) [
  | inl new ↦ rw (new, enter) (show-EndsBut o os (new_detection o) d h)
  | inr (det, at) ↦ rw (at, enter) (show-EndsBut o os det d h)
]

enter_all-EndsBut :
    (os : List IvObject) (d : Dispatcher) → EndsBut os d → EndsBut [] (enter_all os d)
unfolding enter_all
enter_all-EndsBut [] d h = h
enter_all-EndsBut (o ∷ os) d h = enter_all-EndsBut os (enter o d) (enter-EndsBut o os d h)

EndsBut-skip :
    (o : IvObject) (os : List IvObject) (d : Dispatcher)
    → lookup o.id d.state ≡ none
    → EndsBut (o ∷ os) d
    → EndsBut os d
EndsBut-skip o os d unknown h i t = ground (arith, h i t, ==_iff o.id i)

pub EndsBut-more : (os : List IvObject) (d : Dispatcher) → EndsBut [] d → EndsBut os d
EndsBut-more os d h i t = ground (arith, h i t)

refresh-EndsBut : (os : List IvObject) (d : Dispatcher) → EndsBut os d → EndsBut [] (refresh os d)
unfolding refresh
refresh-EndsBut [] d h = h
refresh-EndsBut (o ∷ os) d h = elim (Option-cases (lookup o.id d.state)) [
  | inl unknown ↦ rw (unknown, refresh) (refresh-EndsBut os d (EndsBut-skip o os d unknown h))
  | inr (det, at) ↦
      rw (at, refresh) (refresh-EndsBut os (show o.id det d) (show-EndsBut o os det d h))
]

-- The types of event that the dispatcher knows.
abbrev pub IsKnown : EventType → Type 0
IsKnown (other_type name) = ⊥
IsKnown _ = Unit

apply_iv_event-EndsBut :
    (ev : EventType) (os : List IvObject) (d : Dispatcher)
    → IsKnown ev
    → EndsBut os d
    → EndsBut [] (apply_iv_event ev os d)
unfolding apply_iv_event
apply_iv_event-EndsBut entered os d k h = enter_all-EndsBut os d h
apply_iv_event-EndsBut classified os d k h = enter_all-EndsBut os d h
apply_iv_event-EndsBut exited [] d k h = leave_present-EndsBut d.state d h
apply_iv_event-EndsBut exited (o ∷ os) d k h = leave_all-EndsBut (o ∷ os) d h
apply_iv_event-EndsBut lost [] d k h = leave_present-EndsBut d.state d h
apply_iv_event-EndsBut lost (o ∷ os) d k h = leave_all-EndsBut (o ∷ os) d h
apply_iv_event-EndsBut (other_type name) os d k h = absurd k

update_object-EndsBut :
    (o : IvObject) (os : List IvObject) (d : Dispatcher)
    → named o.id os ≡ true
    → EndsBut os d
    → EndsBut os (update_object o d)
unfolding update_object
update_object-EndsBut o os d n h i t = elim (Bool-cases (i == o.id)) [
  | inl same ↦ ground (arith, ==_iff i o.id)
  | inr other ↦ elim (Option-cases (lookup o.id d.state)) [
    | inl new ↦ ground (arith, h i, lookup-insert i o.id (new_detection o) d.state)
    | inr (det, at) ↦
        let det' = record det { class = o.class; confidence = o.confidence } in
        ground (arith, h i, lookup-insert i o.id det' d.state)
  ]
]

update_objects-EndsBut :
    (os xs : List IvObject) (d : Dispatcher)
    → ((i : ℕ) → named i os ≡ true → named i xs ≡ true)
    → EndsBut xs d
    → EndsBut xs (update_objects os d)
unfolding update_objects
update_objects-EndsBut [] xs d sub h = h
update_objects-EndsBut (o ∷ os) xs d sub h =
    update_objects-EndsBut os xs (update_object o d) (λ i n. sub i (ground arith))
      (update_object-EndsBut o xs d (sub o.id (ground arith)) h)

-- The objects of the section that is due: they were put into the map, and have no timer yet.
abbrev pub awaiting : List Section → List IvObject
awaiting [] = []
awaiting (event ev os ∷ ss) = os
awaiting (again os ∷ ss) = os

abbrev pub IsKnownSection : Section → Type 0
IsKnownSection (event ev os) = IsKnown ev
IsKnownSection (again os) = Unit

-- Every detection that is there will end, but for those of the objects of the section that is due.
abbrev pub EndsDue : List Section → Dispatcher → Type 0
EndsDue todo d = EndsBut (awaiting todo) d × All IsKnownSection todo

run_section-EndsBut :
    (s : Section) (d : Dispatcher)
    → IsKnownSection s
    → EndsBut (awaiting (s ∷ [])) d
    → EndsBut [] (run_section s d)
unfolding run_section
run_section-EndsBut (event ev os) d k h = apply_iv_event-EndsBut ev os d k h
run_section-EndsBut (again os) d k h = refresh-EndsBut os d h

awaiting-head : (s : Section) (ss : List Section) → awaiting (s ∷ ss) ≡ awaiting (s ∷ [])
awaiting-head (event ev os) ss = refl
awaiting-head (again os) ss = refl

pub next_section-EndsDue :
    (todo : List Section) (d : Dispatcher)
    → EndsDue todo d
    → EndsDue (next_section todo d).todo (next_section todo d).dispatcher
unfolding next_section
next_section-EndsDue [] d e = e
next_section-EndsDue (s ∷ ss) d (h, (k, ks)) = (
  EndsBut-more (awaiting ss) (run_section s d)
      (run_section-EndsBut s d k (rw (← awaiting-head s ss) h)),
  ks,
)

event_sections-known :
    (evs : List EventType) (os : List IvObject)
    → All IsKnown evs
    → All IsKnownSection (event_sections evs os)
unfolding event_sections
event_sections-known [] os k = tt
event_sections-known (ev ∷ evs) os (k, ks) = (k, event_sections-known evs os ks)

sections-due :
    (evs : List EventType) (os : List IvObject) (d : Dispatcher)
    → All IsKnown evs
    → EndsBut os d
    → EndsDue (sections_of evs os) d
unfolding sections_of event_sections
sections-due [] os d k h = (h, (tt, tt))
sections-due (ev ∷ evs) os d k h = (h, event_sections-known (ev ∷ evs) os k)

pub handle_when-EndsDue :
    (todo : List Section) (n : NotificationData) (d : Dispatcher)
    → All IsKnown n.events
    → EndsDue todo d
    → EndsDue (handle_when todo n d).todo (handle_when todo n d).dispatcher
unfolding handle_when
handle_when-EndsDue [] n d k (h, ks) =
    sections-due n.events n.objects (update_objects n.objects d) k
      (update_objects-EndsBut n.objects n.objects d (λ i m. m) (EndsBut-more n.objects d h))
handle_when-EndsDue (s ∷ ss) n d k e = e
