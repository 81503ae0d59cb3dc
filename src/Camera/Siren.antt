-- ===== src/Camera/Siren.antt =====
-- The commands of the siren, internal/camera/radio.go. A duration is in nanoseconds and not negative.
use openqiara.Prelude.{
  ℕ, zero, suc, ◌+◌, ◌-◌, ◌*◌, ◌/◌, ◌%◌, ◌^◌, Bool, false, ◌&&◌, none, some, List, [], ◌∷◌, ◌++◌,
  ltb, ◌==◌, if◌then◌else◌, Dict, lookup,
}
use openqiara.Radio.Types.{NodeInfo}
use openqiara.Camera.Client.{World, RadioClient}
use openqiara.Camera.Receive.{second, command, siren_addr}
use Prim.Native.Nat.{bit_or}

abbrev pub siren_off : List ℕ
siren_off = 0x55 ∷ 0x05 ∷ 0x00 ∷ []

abbrev pub siren_get_state : List ℕ
siren_get_state = 0x55 ∷ 0x06 ∷ []

abbrev pub min : ℕ → ℕ → ℕ
min a b = if ltb b a then b else a

unfoldable pub siren_sound : ℕ → ℕ → List ℕ
siren_sound power d = 0x55 ∷ 0x05 ∷ 0x01 ∷ power ∷ min (d / (second / 4)) 0xff ∷ []

pub record SirenArming : Type 0 where
  pub exit_delay : ℕ
  pub entry_delay : ℕ
  pub alert : ℕ
  pub active : List ℕ
  pub delayed : List ℕ
  pub quiet : Bool

unfoldable pub siren_seconds : ℕ → ℕ → ℕ
siren_seconds d unit = min ((d + unit - 1) / unit) 0xff

-- One bit per system index of the sensors served.
unfoldable pub mask : Dict NodeInfo → List ℕ → ℕ → ℕ
mask nodes [] m = m
mask nodes (id ∷ ids) m = elim (lookup id nodes) [
  | none ↦ mask nodes ids m
  | some n ↦ mask nodes ids (if ltb n.system_index 64 then bit_or m (2 ^ n.system_index) else m)
]

-- The `k` bytes of `v`, the high one first (`binary.BigEndian.AppendUint64`).
abbrev pub big_endian : ℕ → ℕ → List ℕ
big_endian zero v = []
big_endian (suc k) v = (v / 256 ^ k % 256) ∷ big_endian k v

unfoldable pub arming_frame : RadioClient → SirenArming → List ℕ
unfolding siren_seconds mask
arming_frame c a =
    0x55
    ∷ 0x04
    ∷ siren_seconds a.exit_delay second
    ∷ siren_seconds a.entry_delay second
    ∷ siren_seconds a.alert (2 * second)
    ∷ (if a.quiet then 0 else 5)
    ∷ 0x64
    ∷ (if a.exit_delay == 0 then 3 else 2)
    ∷ (big_endian 8 (mask c.nodes a.active 0) ++ big_endian 8 (mask c.nodes a.delayed 0))

-- The arming and the question for the state, which is asked whether the siren took the arming or not.
unfoldable pub arm_siren : World → ℕ → SirenArming → RadioClient → RadioClient × Bool
unfolding arming_frame siren_addr
arm_siren w id a c = elim (siren_addr id c) [
  | none ↦ (c, false)
  | some addr ↦
      let (c₁, armed) = command w addr (arming_frame c a) c in
      let (c₂, asked) = command w addr siren_get_state c₁ in (c₂, armed && asked)
]

unfoldable pub siren_command : World → ℕ → List ℕ → RadioClient → RadioClient × Bool
unfolding siren_addr
siren_command w id payload c = elim (siren_addr id c) [
  | none ↦ (c, false)
  | some addr ↦ command w addr payload c
]

unfoldable pub siren_entry_delay : World → ℕ → RadioClient → RadioClient × Bool
unfolding siren_command
siren_entry_delay w id c = siren_command w id (0x55 ∷ 0x05 ∷ 0x04 ∷ []) c

unfoldable pub siren_alert : World → ℕ → RadioClient → RadioClient × Bool
unfolding siren_command
siren_alert w id c = siren_command w id (0x55 ∷ 0x05 ∷ 0x05 ∷ []) c

unfoldable pub request_siren_state : World → ℕ → RadioClient → RadioClient × Bool
unfolding siren_command
request_siren_state w id c = siren_command w id siren_get_state c

unfoldable pub trigger_siren : World → ℕ → RadioClient → RadioClient × Bool
unfolding siren_command siren_sound
trigger_siren w id c = siren_command w id (siren_sound 10 (10 * second)) c

unfoldable pub trigger_siren_alarm : World → ℕ → ℕ → RadioClient → RadioClient × Bool
unfolding siren_command siren_sound
trigger_siren_alarm w id duration c =
    siren_command w id (siren_sound 100 (if duration == 0 then 10 * second else duration)) c

unfoldable pub stop_siren : World → ℕ → RadioClient → RadioClient × Bool
unfolding siren_command
stop_siren w id c = siren_command w id siren_off c
