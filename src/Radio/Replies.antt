-- ===== src/Radio/Replies.antt =====
-- The answers of the radio engine (internal/radio/engine.go): one to each frame that asks for it, and
-- each is a frame that the wire format can tell.
use openqiara.Prelude.{
  ℕ, ◌*◌, ◌<◌, ◌≡◌, ◌⊎◌, true, false, ◌||◌, Option, none, some, List, [], ◌∷◌, arith, refl, ap, ◌∙◌,
  if◌then◌else◌, inl, inr, Bool-cases, get_or, take, drop,
}
use openqiara.Charmux.Frame.{ManagedFrame, flag_z, flag_w, flag_a, hops, ok, serialize, deserialize}
use openqiara.Charmux.Varint.{u32_mod}
use openqiara.Charmux.RoundTrip.{on_wire, deserialize-serialize}
use openqiara.Radio.Types.{
  Engine, Node, idle, reading_status, flags_manage, flags_ack, wf_read_status, read_status_all,
}
use openqiara.Radio.Sensors.{app_answer, needs_time}
use openqiara.Radio.Dialogue.{
  reply, next_vm, finish, on_status, on_vm_ack, on_other, answer, give_vm,
}
use openqiara.Radio.Engine
use openqiara.Radio.Engine.{find, receive}

-- Nothing but the empty payload goes without the flag W.
abbrev pub Whole : ℕ → ℕ → List ℕ → Type 0
Whole flags wflags payload =
    ((if flag_w flags then wflags else 0) ≡ wflags)
    × ((if flag_w flags then payload else []) ≡ payload)

-- The frame that answers `rx`: from the gateway to the sensor, the next of the counter, it acknowledges
-- `rx` and is not routed. It has a payload only with the flag W, without which neither the payload nor
-- its flags go over the wire.
pub record Answers (e : Engine) (addr : ℕ) (rx : ManagedFrame) (f : ManagedFrame) : Type 0 where
  pub to : f.gw_dst ≡ addr
  pub from : (f.gw_src ≡ e.gateway) × (f.src ≡ e.gateway)
  pub numbered : f.counter ≡ e.counter
  pub acknowledges : (flag_a f.flags ≡ true) × (f.ack_dst ≡ rx.src) × (f.ack_cnt ≡ rx.counter)
  pub whole : Whole f.flags f.wflags f.payload
  pub direct : (f.route ≡ 0) × (hops f.flags ≡ 0) × (f.flags < 65536)

reply-Answers :
    (e : Engine) (n : Node) (rx : ManagedFrame) (flags wflags : ℕ) (payload : List ℕ)
    → flag_a flags ≡ true
    → hops flags ≡ 0
    → flags < 65536
    → Whole flags wflags payload
    → Answers e n.info.addr rx (reply e n rx flags wflags payload).out
unfolding reply
reply-Answers e n rx flags wflags payload a h r w = record {
  to = refl;
  from = (refl, refl);
  numbered = refl;
  acknowledges = (a, refl, refl);
  whole = w;
  direct = (refl, h, r);
}

next_vm-Answers :
    (e : Engine) (n : Node) (rx : ManagedFrame) (payload : List ℕ) (rest : List (List ℕ))
    → Answers e n.info.addr rx (next_vm e n rx payload rest).out
unfolding next_vm reply
next_vm-Answers e n rx payload rest = ground arith

finish-Answers :
    (e : Engine) (n : Node) (rx : ManagedFrame) (now : ℕ)
    → Answers e n.info.addr rx (finish e n rx now).out
unfolding finish
finish-Answers e n rx now = unfold reply in ground arith

app_answer_flags :
    (n : Node) (p : List ℕ)
    → (flag_a (app_answer n p).0 ≡ true)
      × (hops (app_answer n p).0 ≡ 0)
      × ((app_answer n p).0 < 65536)
      × Whole (app_answer n p).0 (app_answer n p).1 (app_answer n p).2
unfolding app_answer
app_answer_flags n p = ground arith

on_other-Answers :
    (e : Engine) (n : Node) (rx : ManagedFrame) → Answers e n.info.addr rx (on_other e n rx).0.out
unfolding on_other
on_other-Answers e n rx = ground (
  arith,
  app_answer_flags n rx.payload,
  reply-Answers e n rx (app_answer n rx.payload).0 (app_answer n rx.payload).1
      (app_answer n rx.payload).2,
  reply-Answers e n rx flags_ack 0 [],
)

on_vm_ack-Answers :
    (e : Engine) (n : Node) (rx : ManagedFrame) (now : ℕ) (vm : List (List ℕ))
    → Answers e n.info.addr rx (on_vm_ack e n rx now vm).out
unfolding on_vm_ack
on_vm_ack-Answers e n rx now [] = ground (
  arith,
  finish-Answers e n rx now,
  reply-Answers e (record n { step = idle; vm = [] }) rx flags_ack 0 [],
)
on_vm_ack-Answers e n rx now (payload ∷ rest) = ground (
  arith,
  next_vm-Answers e n rx payload rest,
  reply-Answers e (record n { step = idle; vm = [] }) rx flags_ack 0 [],
)

give_vm-Answers :
    (e : Engine) (n : Node) (rx : ManagedFrame) (now : ℕ) (vm : Option (List (List ℕ)))
    → Answers e n.info.addr rx (give_vm e n rx now vm).0.out
unfolding give_vm
give_vm-Answers e n rx now (some (payload ∷ rest)) =
    next_vm-Answers e (record n { config_sent = false }) rx payload rest
give_vm-Answers e n rx now (some []) = finish-Answers e n rx now
give_vm-Answers e n rx now none = finish-Answers e n rx now

-- Nothing of an answer is lost on the wire.
on_wire-whole : (e : Engine) (addr : ℕ) (rx f : ManagedFrame) → Answers e addr rx f → on_wire f ≡ f
on_wire-whole e addr rx f h = rw (h.whole.0, h.whole.1, h.acknowledges.0, h.direct.0) refl

-- An answer is a frame that the wire format can tell.
Answers-reads :
    (e : Engine) (addr : ℕ) (rx f : ManagedFrame)
    → Answers e addr rx f
    → addr < u32_mod
    → e.gateway < u32_mod
    → e.counter * 2 < u32_mod
    → rx.src < u32_mod
    → rx.counter < u32_mod
    → deserialize (serialize f) ≡ ok f
Answers-reads e addr rx f h a g c s k =
    deserialize-serialize f (ground arith)
      (record { carries = rw (h.acknowledges.0) refl; direct = inl (h.direct.0, h.direct.1) })
    ∙ ap ok (on_wire-whole e addr rx f h)

module _ (bytecode : List ℕ → Option (List (List ℕ))) where
  on_status-Answers :
      (e : Engine) (n : Node) (rx : ManagedFrame) (now : ℕ)
      → Answers e n.info.addr rx (on_status bytecode e n rx now).0.out
  unfolding on_status
  on_status-Answers e n rx now =
      let timed = record n { need_time = needs_time (get_or rx.payload 0 0) } in
      ground (
        arith,
        finish-Answers e timed rx now,
        give_vm-Answers e timed rx now (bytecode (take 8 (drop 2 rx.payload))),
      )

  answer-Answers :
      (e : Engine) (n : Node) (rx : ManagedFrame) (now : ℕ)
      → Answers e n.info.addr rx (answer bytecode e n rx now).0.out
  unfolding answer
  answer-Answers e n rx now = ground (
    arith,
    on_status-Answers e n rx now,
    on_vm_ack-Answers e n rx now n.vm,
    finish-Answers e n rx now,
    on_other-Answers e n rx,
    reply-Answers e (record n { step = reading_status; vm = [] }) rx flags_manage wf_read_status
        (read_status_all ∷ []),
  )

  -- A frame of a known sensor that is flagged Z gets one answer: it goes to the sensor, acknowledges the
  -- frame, takes the next number, and is read back from the wire as it was written. One that is not
  -- flagged Z gets none.
  pub receive-Answers :
      (e : Engine) (n : Node) (rx : ManagedFrame) (now : ℕ)
      → find rx.src e.nodes ≡ some n
      → (flag_z rx.flags || flag_w rx.flags || flag_a rx.flags) ≡ true
      → n.info.addr < u32_mod
      → e.gateway < u32_mod
      → e.counter * 2 < u32_mod
      → rx.src < u32_mod
      → rx.counter < u32_mod
      → ((flag_z rx.flags ≡ false) × ((receive bytecode e now rx).1.send ≡ []))
        ⊎ ((f : ManagedFrame) × ((receive bytecode e now rx).1.send ≡ f ∷ [])
            × (flag_z rx.flags ≡ true)
            × Answers e n.info.addr rx f
            × (deserialize (serialize f) ≡ ok f))
  unfolding receive Engine.receive_known
  receive-Answers e n rx now found asks a g c s k = elim (Bool-cases (flag_z rx.flags)) [
    | inr plain ↦ inl (plain, ground arith)
    | inl zed ↦
        let t = answer bytecode e n rx now in
        let h = answer-Answers e n rx now in
        inr (t.0.out, ground arith, zed, h, Answers-reads e n.info.addr rx t.0.out h a g c s k)
  ]
