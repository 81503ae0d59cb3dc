-- ===== src/Radio/Tests.antt =====
-- Each property of the radio engine at a concrete input.
use openqiara.Prelude.{
  ℕ, ◌≡◌, ◌<◌, ◌≤◌, ◌⊎◌, true, false, Option, none, some, List, [], ◌∷◌, arith, refl,
}
use openqiara.Charmux.Frame.{ManagedFrame, flag_z, serialize, deserialize, ok}
use openqiara.Charmux.Varint.{u32_mod}
use openqiara.Domusvm.Ops.{Frame, start_init, erase, write, boot, encode_frame}
use openqiara.Radio.Types.{
  dws, Engine, NodeInfo, Node, SentFrame, idle, delivery_failed, pos, sent_window,
}
use openqiara.Radio.Dialogue.{finish, count_ops}
use openqiara.Radio.Engine
use openqiara.Radio.Engine.{receive, find, lost, new, new_node}
use openqiara.Radio.Replies.{Answers, receive-Answers}
use openqiara.Radio.Ops.{count_ops-encode_frame}
use openqiara.Radio.Lost.{settled, config_again}
use openqiara.Radio.Window.{age}
use openqiara.Radio.Life.{received, started, run, run_remembers}

abbrev no_source : List ℕ → Option (List (List ℕ))
no_source firmware = none

abbrev contact_info : NodeInfo
contact_info = record { addr = 7; model = dws; system_index = 1; pins = [] }

abbrev contact : Node
contact = record {
  info = contact_info;
  step = idle;
  vm = [];
  sent_ops = 0;
  need_time = false;
  config_sent = false;
  last_reply = none;
}

abbrev one_contact : Engine
one_contact = record {
  gateway = 1;
  counter = 3;
  alarm_siren = 9;
  nodes = (7, contact) ∷ [];
  sent = λ c. none;
}

-- The contact's status, flagged Z.
abbrev heard : ManagedFrame
heard = record {
  gw_dst = 1;
  gw_src = 7;
  rf_byte = 0;
  counter = 40;
  src = 7;
  flags = 0x0103;
  route = 0;
  ack_dst = 0;
  ack_cnt = 0;
  wflags = 0x82;
  payload = 0x00 ∷ 90 ∷ [];
}

found_contact : find 7 one_contact.nodes ≡ some contact
unfolding find
found_contact = refl

receive-Answers_example :
    ((flag_z heard.flags ≡ false) × ((receive no_source one_contact 0 heard).1.send ≡ []))
    ⊎ ((f : ManagedFrame) × ((receive no_source one_contact 0 heard).1.send ≡ f ∷ [])
        × (flag_z heard.flags ≡ true)
        × Answers one_contact 7 heard f
        × (deserialize (serialize f) ≡ ok f))
receive-Answers_example =
    receive-Answers no_source one_contact contact heard 0 found_contact refl (omega arith)
      (omega arith) (omega arith) (omega arith) (omega arith)

abbrev reset_frame : Frame
reset_frame = record { ops = start_init ∷ write 5 (1 ∷ 2 ∷ []) ∷ boot 1 7 ∷ erase ∷ [] }

abbrev reset_bytes : List ℕ
reset_bytes = 1 ∷ 0x80 ∷ 0x87 ∷ 5 ∷ 0 ∷ 0 ∷ 0 ∷ 2 ∷ 1 ∷ 2 ∷ 0x82 ∷ 1 ∷ 0 ∷ 7 ∷ 0 ∷ 0 ∷ 0 ∷ 0x88 ∷ []

reset_frame_encoded : encode_frame reset_frame ≡ some reset_bytes
unfolding encode_frame
reset_frame_encoded = refl

count_ops-encode_frame_example : count_ops reset_bytes ≡ 4
count_ops-encode_frame_example = count_ops-encode_frame reset_frame reset_bytes reset_frame_encoded

config_again_example :
    let t = finish one_contact contact heard 0 in
    let (e', r) = lost (settled t 7) t.out.counter in
    ((n' : Node) × (find 7 e'.nodes ≡ some n')
      × (n'.config_sent ≡ false)
      × (n'.step ≡ idle)
      × (n'.info ≡ contact_info))
    × (r.events
        ≡ record { addr = 7; kind = delivery_failed; value = pos t.out.counter; code = [] } ∷ [])
    × ((lost e' t.out.counter).0 ≡ e')
    × ((lost e' t.out.counter).1.events ≡ [])
config_again_example = config_again one_contact contact heard 0 refl refl

abbrev fresh : Engine
fresh = record {
  gateway = 1;
  counter = 0;
  alarm_siren = 9;
  nodes = (7, new_node contact_info) ∷ [];
  sent = λ c. none;
}

fresh_made : new 1 9 (contact_info ∷ []) ≡ some fresh
unfolding new Engine.set_node find Engine.put
fresh_made = refl

run_remembers_example :
    let e' = run no_source fresh (received 0 heard ∷ started ∷ []) in
    (e'.counter < u32_mod)
    × ((k : ℕ) (s : SentFrame)
        → e'.sent k ≡ some s
        → (k < u32_mod) × (1 ≤ age e'.counter k) × (age e'.counter k ≤ sent_window))
run_remembers_example =
    run_remembers no_source 1 9 (contact_info ∷ []) fresh (received 0 heard ∷ started ∷ [])
      fresh_made
