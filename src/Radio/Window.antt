-- ===== src/Radio/Window.antt =====
-- The frames that the radio engine remembers (internal/radio/engine.go `frame`, `sent`): the counter
-- wraps, and the oldest frame makes room for a new one.
use openqiara.Prelude.{
  ℕ, suc, ◌+◌, ◌-◌, ◌%◌, ◌≤◌, ◌<◌, ◌≡◌, Bool, true, false, Option, none, some, List, [], ◌∷◌, arith,
  inl, inr, Option-cases, Bool-cases, get_or, take, drop, le32,
}
use openqiara.Charmux.Frame.{ManagedFrame, flag_z}
use openqiara.Charmux.Varint.{u32_mod}
use openqiara.Radio.Types.{
  Engine, Node, SentFrame, sent_window, idle, reading_status, flags_manage, sending_time, wf_app,
  wf_time, qiara_epoch, flags_ack, wf_read_status, read_status_all,
}
use openqiara.Radio.Sensors.{needs_time, app_answer, node_config, is_srn}
use openqiara.Radio.Dialogue.{
  set_sent, frame, reply, command_frame, next_vm, finish, on_status, on_vm_ack, on_other, answer,
  give_vm,
}
use openqiara.Radio.Engine
use openqiara.Radio.Engine.{find, put, receive, lost, command, start, start_loop, set_node, new}

abbrev pub age : ℕ → ℕ → ℕ
age c k = (c + u32_mod - k) % u32_mod

-- The frames that are remembered are among the last 256.
unfoldable pub Window : ℕ → (ℕ → Option SentFrame) → Type 0
Window c sent =
    (c < u32_mod)
    × ((k : ℕ) (s : SentFrame)
        → sent k ≡ some s
        → (k < u32_mod) × (1 ≤ age c k) × (age c k ≤ sent_window))

age_next :
    (c k : ℕ)
    → c < u32_mod
    → k < u32_mod
    → 1 ≤ age c k
    → age c k < sent_window
    → age ((c + 1) % u32_mod) k ≡ suc (age c k)
age_next c k h l a b = omega arith

age_oldest :
    (c k : ℕ)
    → c < u32_mod
    → k < u32_mod
    → age c k ≡ sent_window
    → k ≡ (c + u32_mod - sent_window) % u32_mod
age_oldest c k h l a = omega arith

age_new : (c : ℕ) → c < u32_mod → age ((c + 1) % u32_mod) c ≡ 1
age_new c h = omega arith

next_kept :
    (c k : ℕ) (v s : SentFrame) (sent : ℕ → Option SentFrame)
    → c < u32_mod
    → ((k : ℕ) (s : SentFrame)
        → sent k ≡ some s
        → (k < u32_mod) × (1 ≤ age c k) × (age c k ≤ sent_window))
    → set_sent c (some v) (set_sent ((c + u32_mod - sent_window) % u32_mod) none sent) k ≡ some s
    → (k < u32_mod) × (1 ≤ age ((c + 1) % u32_mod) k) × (age ((c + 1) % u32_mod) k ≤ sent_window)
next_kept c k v s sent h w kept =
    ground (arith, w k s, age_next c k h, age_oldest c k h, age_new c h)

again_kept :
    (c k : ℕ) (v : Option SentFrame) (s : SentFrame) (sent : ℕ → Option SentFrame)
    → c < u32_mod
    → ((k : ℕ) (s : SentFrame)
        → sent k ≡ some s
        → (k < u32_mod)
          × (1 ≤ age ((c + 1) % u32_mod) k)
          × (age ((c + 1) % u32_mod) k ≤ sent_window))
    → set_sent c v sent k ≡ some s
    → (k < u32_mod) × (1 ≤ age ((c + 1) % u32_mod) k) × (age ((c + 1) % u32_mod) k ≤ sent_window)
again_kept c k v s sent l w kept = ground (arith, w k s, age_new c l)

-- The memory once a frame has taken the number `c`.
Window-next :
    (c : ℕ) (v : SentFrame) (sent : ℕ → Option SentFrame)
    → Window c sent
    → Window
        ((c + 1) % u32_mod)
        (set_sent c (some v) (set_sent ((c + u32_mod - sent_window) % u32_mod) none sent))
unfolding Window
Window-next c v sent (h, w) = (omega arith, λ k s kept. next_kept c k v s sent h w kept)

Window-again :
    (c : ℕ) (v : Option SentFrame) (sent : ℕ → Option SentFrame)
    → c < u32_mod
    → Window ((c + 1) % u32_mod) sent
    → Window ((c + 1) % u32_mod) (set_sent c v sent)
unfolding Window
Window-again c v sent l (h, w) = (h, λ k s kept. again_kept c k v s sent l w kept)

Window-forget :
    (c k : ℕ) (sent : ℕ → Option SentFrame) → Window c sent → Window c (set_sent k none sent)
unfolding Window
Window-forget c k sent (h, w) = (h, λ j s kept. ground (arith, w j s))

-- An engine that remembers the last frames only.
unfoldable pub Remembers : Engine → Type 0
Remembers e = Window e.counter e.sent

frame-Remembers :
    (e : Engine) (n : Node) (flags wflags : ℕ) (payload : List ℕ)
    → Remembers e
    → Remembers (frame e n flags wflags payload).0
unfolding frame Remembers
frame-Remembers e n flags wflags payload w = Window-next e.counter _ e.sent w

reply-Remembers :
    (e : Engine) (n : Node) (rx : ManagedFrame) (flags wflags : ℕ) (payload : List ℕ)
    → Remembers e
    → Remembers (reply e n rx flags wflags payload).engine
unfolding reply
reply-Remembers e n rx flags wflags payload w = frame-Remembers e n flags wflags payload w

command_frame-Remembers :
    (e : Engine) (n : Node) (payload : List ℕ) (config : Bool)
    → Remembers e
    → Remembers (command_frame e n payload config).0
unfolding command_frame frame Remembers
command_frame-Remembers e n payload config w =
    Window-again e.counter _ _ (unfold Window in w.0) (Window-next e.counter _ e.sent w)

noted-Remembers :
    (e : Engine) (n : Node) (rx : ManagedFrame) (flags wflags : ℕ) (payload : List ℕ)
    (v : SentFrame)
    → Remembers e
    → let t = reply e n rx flags wflags payload in
      Remembers (record t.engine { sent = set_sent t.out.counter (some v) t.engine.sent })
unfolding reply frame Remembers
noted-Remembers e n rx flags wflags payload v w =
    Window-again e.counter (some v) _ (unfold Window in w.0) (Window-next e.counter _ e.sent w)

finish-Remembers :
    (e : Engine) (n : Node) (rx : ManagedFrame) (now : ℕ)
    → Remembers e
    → Remembers (finish e n rx now).engine
unfolding finish
finish-Remembers e n rx now w = ground (
  arith,
  reply-Remembers e (record n { step = sending_time; need_time = false }) rx flags_manage wf_time
      (le32 ((now + u32_mod - qiara_epoch) % u32_mod)) w,
  reply-Remembers e (record n { step = idle }) rx flags_ack 0 [] w,
  noted-Remembers e (record n { step = idle; config_sent = true }) rx flags_manage wf_app
      (node_config n e.alarm_siren) (record { addr = n.info.addr; config = true }) w,
)

next_vm-Remembers :
    (e : Engine) (n : Node) (rx : ManagedFrame) (payload : List ℕ) (rest : List (List ℕ))
    → Remembers e
    → Remembers (next_vm e n rx payload rest).engine
unfolding next_vm
next_vm-Remembers e n rx payload rest w = reply-Remembers e _ rx _ _ payload w

give_vm-Remembers :
    (e : Engine) (n : Node) (rx : ManagedFrame) (now : ℕ) (vm : Option (List (List ℕ)))
    → Remembers e
    → Remembers (give_vm e n rx now vm).0.engine
unfolding give_vm
give_vm-Remembers e n rx now (some (payload ∷ rest)) w = next_vm-Remembers e _ rx payload rest w
give_vm-Remembers e n rx now (some []) w = finish-Remembers e n rx now w
give_vm-Remembers e n rx now none w = finish-Remembers e n rx now w

on_vm_ack-Remembers :
    (e : Engine) (n : Node) (rx : ManagedFrame) (now : ℕ) (vm : List (List ℕ))
    → Remembers e
    → Remembers (on_vm_ack e n rx now vm).engine
unfolding on_vm_ack
on_vm_ack-Remembers e n rx now [] w = ground (
  arith,
  finish-Remembers e n rx now w,
  reply-Remembers e (record n { step = idle; vm = [] }) rx flags_ack 0 [] w,
)
on_vm_ack-Remembers e n rx now (payload ∷ rest) w = ground (
  arith,
  next_vm-Remembers e n rx payload rest w,
  reply-Remembers e (record n { step = idle; vm = [] }) rx flags_ack 0 [] w,
)

on_other-Remembers :
    (e : Engine) (n : Node) (rx : ManagedFrame) → Remembers e → Remembers (on_other e n rx).0.engine
unfolding on_other
on_other-Remembers e n rx w = ground (
  arith,
  reply-Remembers e n rx (app_answer n rx.payload).0 (app_answer n rx.payload).1
      (app_answer n rx.payload).2 w,
  reply-Remembers e n rx flags_ack 0 [] w,
)

module _ (bytecode : List ℕ → Option (List (List ℕ))) where
  on_status-Remembers :
      (e : Engine) (n : Node) (rx : ManagedFrame) (now : ℕ)
      → Remembers e
      → Remembers (on_status bytecode e n rx now).0.engine
  unfolding on_status
  on_status-Remembers e n rx now w =
      let timed = record n { need_time = needs_time (get_or rx.payload 0 0) } in
      ground (
        arith,
        finish-Remembers e timed rx now w,
        give_vm-Remembers e timed rx now (bytecode (take 8 (drop 2 rx.payload))) w,
      )

  answer-Remembers :
      (e : Engine) (n : Node) (rx : ManagedFrame) (now : ℕ)
      → Remembers e
      → Remembers (answer bytecode e n rx now).0.engine
  unfolding answer
  answer-Remembers e n rx now w = ground (
    arith,
    on_status-Remembers e n rx now w,
    on_vm_ack-Remembers e n rx now n.vm w,
    finish-Remembers e n rx now w,
    on_other-Remembers e n rx w,
    reply-Remembers e (record n { step = reading_status; vm = [] }) rx flags_manage wf_read_status
        (read_status_all ∷ []) w,
  )

  receive_known-Remembers :
      (e : Engine) (n : Node) (rx : ManagedFrame) (now : ℕ)
      → Remembers e
      → Remembers (Engine.receive_known bytecode e n rx now).0
  unfolding Engine.receive_known
  receive_known-Remembers e n rx now w = elim (Bool-cases (flag_z rx.flags)) [
    | inl zed ↦ rw zed (unfold Remembers in answer-Remembers e n rx now w)
    | inr plain ↦ rw plain w
  ]

pub start_loop-Remembers :
    (m : List (ℕ × Node)) (e : Engine) → Remembers e → Remembers (start_loop m e).0
unfolding start_loop Remembers
start_loop-Remembers [] e w = w
start_loop-Remembers ((a, n) ∷ m) e w = elim (Bool-cases (is_srn n.info.model)) [
  | inl siren ↦
      rw siren (
        start_loop-Remembers m _ (command_frame-Remembers e n (node_config n e.alarm_siren) true w))
  | inr plain ↦ rw plain (start_loop-Remembers m e w)
]

lost-Remembers : (e : Engine) (c : ℕ) → Remembers e → Remembers (lost e c).0
unfolding lost Engine.lost_frame Remembers
lost-Remembers e c w = elim (Option-cases (e.sent c)) [
  | inl missing ↦ rw (lost, missing) w
  | inr (s, kept) ↦
      rw (lost, kept)
        (elim (Option-cases (find s.addr e.nodes)) [
          | inl missing ↦ rw (Engine.lost_frame, missing) (Window-forget e.counter c e.sent w)
          | inr (n, found) ↦ rw (Engine.lost_frame, found) (Window-forget e.counter c e.sent w)
        ])
]

pub command-Remembers :
    (e : Engine) (addr : ℕ) (payload : List ℕ) → Remembers e → Remembers (command e addr payload).0
unfolding command
command-Remembers e addr payload w = elim (Option-cases (find addr e.nodes)) [
  | inl missing ↦ rw (command, missing) w
  | inr (n, found) ↦ rw (command, found) (command_frame-Remembers e n payload false w)
]

module _ (bytecode : List ℕ → Option (List (List ℕ))) where
  pub receive-Remembers :
      (e : Engine) (now : ℕ) (rx : ManagedFrame)
      → Remembers e
      → Remembers (receive bytecode e now rx).0
  unfolding receive
  receive-Remembers e now rx w = elim (Option-cases (find rx.src e.nodes)) [
    | inl missing ↦ ground (arith, lost-Remembers e rx.ack_cnt w, missing)
    | inr (n, found) ↦
        ground (
          arith,
          lost-Remembers e rx.ack_cnt w,
          found,
          receive_known-Remembers bytecode e n rx now w,
        )
  ]
