-- ===== src/Radio/Sensors.antt =====
-- What sensors report and are told, internal/radio/sensors.go.
use openqiara.Prelude.{
  ℕ, ◌+◌, ◌-◌, ◌*◌, ◌/◌, ◌%◌, Bool, true, false, ◌&&◌, none, some, List, [], ◌∷◌, ◌++◌, ltb, leb,
  ◌==◌, length, get_elem?, get_or, drop, if◌then◌else◌, le16, le32,
}
use openqiara.Charmux.Frame.{ManagedFrame}
use openqiara.Radio.Types.{
  Model, dws, pir, kpd, srn, other_model, EventKind, opened, closed, motion_start, motion_end,
  armed_away, armed_night, disarmed, emergency, tamper, siren_state, battery, temperature, rebooted,
  unhandled, ℤ, pos, negsuc, Event, Node, wf_app, wf_status, flags_manage, flags_event_ack,
  flags_dws_ack,
}

-- `status&statusNeedTime != 0` and `status&statusNeedBytecode != 0`
abbrev pub needs_time : ℕ → Bool
needs_time status = status / 16 % 2 == 1

abbrev pub needs_bytecode : ℕ → Bool
needs_bytecode status = status / 64 % 2 == 1

unfoldable pub state_kinds : Model → List EventKind
state_kinds dws = opened ∷ closed ∷ tamper ∷ []
state_kinds pir = motion_start ∷ motion_end ∷ tamper ∷ []
state_kinds kpd = disarmed ∷ armed_away ∷ armed_night ∷ emergency ∷ tamper ∷ []
state_kinds srn = []
state_kinds (other_model i) = []

abbrev pub is_srn : Model → Bool
is_srn srn = true
is_srn _ = false

abbrev pub is_kpd : Model → Bool
is_kpd kpd = true
is_kpd _ = false

abbrev pub is_dws : Model → Bool
is_dws dws = true
is_dws _ = false

abbrev pub is_disarmed : EventKind → Bool
is_disarmed disarmed = true
is_disarmed _ = false

-- A nibble of a code: '0' is 10, '1' to '9' are 0 to 8. A byte sum wraps.
unfoldable pub code_digit : ℕ → ℕ
code_digit nibble = if nibble == 0x0a then b'0' else (b'1' + nibble) % 256

unfoldable pub keypad_code : ℕ → ℕ → List ℕ
unfolding code_digit
keypad_code lo hi =
    code_digit (lo % 16) ∷ code_digit (lo / 16) ∷ code_digit (hi % 16) ∷ code_digit (hi / 16) ∷ []

-- `len(rest) == 4`, then the code of its first two bytes.
unfoldable pub code_of : EventKind → List ℕ → List ℕ
unfolding keypad_code
code_of k rest =
    if is_disarmed k && length rest == 4
    then keypad_code (get_or rest 0 0) (get_or rest 1 0)
    else []

unfoldable pub node_state : Node → ℕ → List ℕ → Event
unfolding state_kinds
node_state n value rest =
    if is_srn n.info.model
    then record { addr = n.info.addr; kind = siren_state; value = pos value; code = [] }
    else elim (get_elem? (state_kinds n.info.model) value) [
      | some k ↦ record { addr = n.info.addr; kind = k; value = pos 0; code = code_of k rest }
      | none ↦ record { addr = n.info.addr; kind = unhandled; value = pos value; code = [] }
    ]

-- `int(int8(b))`
abbrev pub signed : ℕ → ℤ
signed b = if ltb b 128 then pos b else negsuc (255 - b)

-- The case of a status heartbeat.
unfoldable pub heartbeat : Node → ℕ → ℕ → List Event
heartbeat n status level =
    if needs_bytecode status
    then record { addr = n.info.addr; kind = rebooted; value = pos 0; code = [] } ∷ []
    else record { addr = n.info.addr; kind = battery; value = pos level; code = [] } ∷ []

-- An application frame: `55 01 …` with 8 bytes or more, or `55 0a t`.
unfoldable pub application : Node → List ℕ → List Event
application n p =
    if leb 8 (length p) && get_or p 0 0 == 0x55 && get_or p 1 0 == 0x01
    then node_state n (get_or p 7 0) (drop 8 p) ∷ []
    else if leb 3 (length p) && get_or p 0 0 == 0x55 && get_or p 1 0 == 0x0a
    then record { addr = n.info.addr; kind = temperature; value = signed (get_or p 2 0); code = [] }
      ∷ []
    else []

unfoldable pub node_events : Node → ManagedFrame → List Event
unfolding heartbeat application
node_events n rx =
    if rx.wflags == wf_status && leb 2 (length rx.payload)
    then heartbeat n (get_or rx.payload 0 0) (get_or rx.payload 1 0)
    else if rx.wflags == wf_app
    then application n rx.payload
    else []

unfoldable pub node_config : Node → ℕ → List ℕ
node_config n alarm_siren =
    if is_srn n.info.model
    then 0x55 ∷ 0x06 ∷ []
    else 0x55 ∷ 0x00 ∷ n.info.system_index ∷ le32 alarm_siren

unfoldable pub keypad_digit : ℕ → ℕ
keypad_digit c = if c == b'0' then 0x0a else (c + 256 - b'1') % 256

-- The digits of a code two by two, the first in the low half. `d << 4` is a byte; the codes have
-- digits only (`validPIN`), and the halves of a byte do not overlap.
unfoldable pub pack_digits : List ℕ → List ℕ
unfolding keypad_digit
pack_digits [] = []
pack_digits (c ∷ []) = keypad_digit c ∷ []
pack_digits (c ∷ d ∷ cs) = (keypad_digit c + keypad_digit d * 16) % 256 ∷ pack_digits cs

unfoldable pub codes_body : List (List ℕ) → List ℕ
unfolding pack_digits
codes_body [] = []
codes_body (pin ∷ pins) = length pin % 256 ∷ (pack_digits pin ++ codes_body pins)

unfoldable pub keypad_codes : List (List ℕ) → List ℕ
keypad_codes pins = le16 (length (codes_body pins) % 65536) ++ codes_body pins

-- The flags, the wake flags and the payload of the answer to an application frame.
unfoldable pub app_answer : Node → List ℕ → ℕ × ℕ × List ℕ
app_answer n p =
    if is_kpd n.info.model && leb 2 (length p) && get_or p 0 0 == 0x55 && get_or p 1 0 == 0x09
    then (flags_manage, wf_app, keypad_codes n.info.pins)
    else if is_dws n.info.model
    then (flags_dws_ack, 0, [])
    else (flags_event_ack, 0, [])

abbrev pub all_digits : List ℕ → Bool
all_digits [] = true
all_digits (c ∷ cs) = leb b'0' c && leb c b'9' && all_digits cs

unfoldable pub valid_pin : List ℕ → Bool
valid_pin [] = false
valid_pin (c ∷ cs) = all_digits (c ∷ cs)
