-- ===== src/Charmux/Tests.antt =====
-- Each property of the managed frames at a concrete input.
use openqiara.Prelude.{◌≡◌, ◌∷◌, [], inr, arith, refl}
use openqiara.Charmux.Frame.{ManagedFrame, ok, serialize, deserialize}
use openqiara.Charmux.RoundTrip.{IsFrame, IsPlain, on_wire, deserialize-serialize}

-- A routed command to the siren, address 300.
abbrev siren_command : ManagedFrame
siren_command = record {
  gw_dst = 300;
  gw_src = 1;
  rf_byte = 0;
  counter = 70_000;
  src = 1;
  flags = 0x0543;
  route = 300;
  ack_dst = 0;
  ack_cnt = 0;
  wflags = 1;
  payload = 0x55 ∷ 0x06 ∷ [];
}

siren_command-IsFrame : IsFrame siren_command
siren_command-IsFrame = omega arith

siren_command-IsPlain : IsPlain siren_command
siren_command-IsPlain = record { carries = refl; direct = inr (omega arith, refl) }

deserialize-serialize_example : deserialize (serialize siren_command) ≡ ok (on_wire siren_command)
deserialize-serialize_example =
    deserialize-serialize siren_command siren_command-IsFrame siren_command-IsPlain
