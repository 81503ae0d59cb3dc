-- ===== src/Radio/Dialogue.antt =====
-- The dialogue with a sensor, internal/radio/engine.go: the frames that answer it, and the reaction
-- table. The source of the bytecode is a parameter: `none` is an error, or no source.
use openqiara.Prelude.{
  ℕ, zero, suc, ◌+◌, ◌-◌, ◌*◌, ◌%◌, ◌^◌, Bool, true, false, ◌&&◌, not, Option, none, some, List, [],
  ◌∷◌, leb, ◌==◌, length, get_or, take, drop, if◌then◌else◌, le32,
}
use openqiara.Charmux.Frame.{ManagedFrame, flag_w}
use openqiara.Charmux.Varint.{u32_mod}
use openqiara.Radio.Types.{
  Event, unhandled, no_bytecode, pos, Step, idle, reading_status, writing_vm, sending_time, Node,
  SentFrame, Engine, wf_app, wf_manage_answer, wf_status, wf_time, wf_read_status, wf_bytecode,
  flags_manage, flags_command, flags_ack, read_status_all, qiara_epoch, sent_window,
}
use openqiara.Radio.Sensors.{needs_time, needs_bytecode, node_config, app_answer}

-- The map of the sent frames.
abbrev pub set_sent : ℕ → Option SentFrame → (ℕ → Option SentFrame) → ℕ → Option SentFrame
set_sent c v sent k = if k == c then v else sent k

-- `frame`: the oldest remembered frame is forgotten for the new one. The counter is a uint32.
unfoldable pub frame : Engine → Node → ℕ → ℕ → List ℕ → Engine × ManagedFrame
frame e n flags wflags payload = (
  record e {
    sent =
        set_sent e.counter (some (record { addr = n.info.addr; config = false }))
          (set_sent ((e.counter + u32_mod - sent_window) % u32_mod) none e.sent);
    counter = (e.counter + 1) % u32_mod;
  },
  record {
    gw_dst = n.info.addr;
    gw_src = e.gateway;
    rf_byte = 0;
    counter = e.counter;
    src = e.gateway;
    flags = flags;
    route = 0;
    ack_dst = 0;
    ack_cnt = 0;
    wflags = wflags;
    payload = payload;
  },
)

-- What a step of a dialogue leaves: the engine, the node, and the frame that goes out.
pub record Turn : Type 0 where
  pub engine : Engine
  pub node : Node
  pub out : ManagedFrame

unfoldable pub reply : Engine → Node → ManagedFrame → ℕ → ℕ → List ℕ → Turn
unfolding frame
reply e n rx flags wflags payload =
    let (e', f) = frame e n flags wflags payload in
    record {
      engine = e';
      node = record n { last_reply = some f.counter };
      out = record f { ack_dst = rx.src; ack_cnt = rx.counter };
    }

unfoldable pub command_frame : Engine → Node → List ℕ → Bool → Engine × ManagedFrame
unfolding frame
command_frame e n payload config =
    let (e', f) = frame e n flags_command wf_app payload in
    (
      record e' {
        sent = set_sent f.counter (some (record { addr = n.info.addr; config = config })) e'.sent;
      },
      record f { route = n.info.addr },
    )

-- The ops of a VM write frame behind its marker; `fuel` is its length, and each round takes a byte.
unfoldable pub count_loop : ℕ → List ℕ → ℕ
count_loop zero bs = 0
count_loop (suc fuel) [] = 0
count_loop (suc fuel) (op ∷ bs) =
    let write_rest = count_loop fuel (drop (5 + get_or bs 4 0) bs) in
    let boot_rest = count_loop fuel (drop 6 bs) in
    let rest = count_loop fuel bs in
    if op == 0x87
    then if leb (length bs) 4 then 1 else suc write_rest
    else if op == 0x82
    then suc boot_rest
    else suc rest

unfoldable pub count_ops : List ℕ → ℕ
unfolding count_loop
count_ops p = count_loop (length p) (drop 1 p)

-- `nextVM`, of the frames that are not sent yet, `vm`; the source indexes the first and is called
-- with one at least.
unfoldable pub next_vm : Engine → Node → ManagedFrame → List ℕ → List (List ℕ) → Turn
next_vm e n rx payload rest =
    reply e (record n { vm = rest; step = writing_vm; sent_ops = count_ops payload }) rx
      flags_manage wf_bytecode payload

unfoldable pub finish : Engine → Node → ManagedFrame → ℕ → Turn
finish e n rx now =
    if n.need_time
    then reply e (record n { step = sending_time; need_time = false }) rx flags_manage wf_time
        (le32 ((now + u32_mod - qiara_epoch) % u32_mod))
    else if n.config_sent
    then reply e (record n { step = idle }) rx flags_ack 0 []
    else (let t =
          reply e (record n { step = idle; config_sent = true }) rx flags_manage wf_app
            (node_config n e.alarm_siren) in
        record t {
          engine = record t.engine {
            sent =
                set_sent t.out.counter (some (record { addr = n.info.addr; config = true }))
                  t.engine.sent;
          };
        })

-- `1<<sentOps - 1` as a uint32: all the ops of the frame were taken.
abbrev pub all_acked : ℕ → ℕ
all_acked ops = (2 ^ ops % u32_mod + u32_mod - 1) % u32_mod

-- `binary.LittleEndian.Uint32`
abbrev pub read32 : List ℕ → ℕ
read32 bs = get_or bs 0 0 + 256 * get_or bs 1 0 + 65536 * get_or bs 2 0 + 16777216 * get_or bs 3 0

abbrev pub is_reading : Step → Bool
is_reading reading_status = true
is_reading _ = false

abbrev pub is_writing : Step → Bool
is_writing writing_vm = true
is_writing _ = false

abbrev pub is_timing : Step → Bool
is_timing sending_time = true
is_timing _ = false

-- A sensor that lost its VM: the bytecode's first frame, or the end of the dialogue if there is no
-- bytecode for it. The sensor lost its config with the VM.
unfoldable pub give_vm :
    Engine → Node → ManagedFrame → ℕ → Option (List (List ℕ)) → Turn × List Event
give_vm e n rx now (some (payload ∷ rest)) =
    (next_vm e (record n { config_sent = false }) rx payload rest, [])
give_vm e n rx now _ = (
  finish e n rx now,
  record { addr = n.info.addr; kind = no_bytecode; value = pos 0; code = [] } ∷ [],
)

module _ (bytecode : List ℕ → Option (List (List ℕ))) where
  -- The answer to a sensor's status: its bytecode if it lost it, else the end of the dialogue.
  unfoldable pub on_status : Engine → Node → ManagedFrame → ℕ → Turn × List Event
  on_status e n rx now =
      let status = get_or rx.payload 0 0 in
      let timed = record n { need_time = needs_time status } in
      if needs_bytecode status
      then give_vm e timed rx now (bytecode (take 8 (drop 2 rx.payload)))
      else (finish e timed rx now, [])

-- The answer to the acknowledgement of a bytecode frame.
unfoldable pub on_vm_ack : Engine → Node → ManagedFrame → ℕ → List (List ℕ) → Turn
on_vm_ack e n rx now [] =
    if read32 rx.payload == all_acked n.sent_ops
    then finish e n rx now
    else reply e (record n { step = idle; vm = [] }) rx flags_ack 0 []
on_vm_ack e n rx now (payload ∷ rest) =
    if read32 rx.payload == all_acked n.sent_ops
    then next_vm e n rx payload rest
    else reply e (record n { step = idle; vm = [] }) rx flags_ack 0 []

-- The answers that belong to no dialogue: an application frame, or one that is not understood.
unfoldable pub on_other : Engine → Node → ManagedFrame → Turn × List Event
on_other e n rx =
    if rx.wflags == wf_app
    then (let (flags, wflags, payload) = app_answer n rx.payload in
        (reply e n rx flags wflags payload, []))
    else (
      reply e n rx flags_ack 0 [],
      record { addr = n.info.addr; kind = unhandled; value = pos rx.wflags; code = [] } ∷ [],
    )

module _ (bytecode : List ℕ → Option (List (List ℕ))) where
  -- The reaction table: the one frame that goes back to a frame flagged Z.
  unfoldable pub answer : Engine → Node → ManagedFrame → ℕ → Turn × List Event
  answer e n rx now =
      if rx.wflags == wf_status
      then (
        reply e (record n { step = reading_status; vm = [] }) rx flags_manage wf_read_status
            (read_status_all ∷ []),
        [],
      )
      else if is_reading n.step
          && rx.wflags == wf_manage_answer
          && leb 10 (length rx.payload)
          && get_or rx.payload 1 0 == read_status_all
      then on_status bytecode e n rx now
      else if is_writing n.step && rx.wflags == wf_manage_answer && length rx.payload == 5
      then (on_vm_ack e n rx now n.vm, [])
      else if is_timing n.step && not (flag_w rx.flags)
      then (finish e n rx now, [])
      else on_other e n rx
