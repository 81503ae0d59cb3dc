-- ===== src/Charmux/Frame.antt =====
-- The managed frames of the radio, internal/charmux/managed.go: their fields, and their wire format.
use openqiara.Prelude.{
  ℕ, zero, suc, ◌+◌, ◌*◌, ◌/◌, ◌%◌, ◌^◌, Bool, not, ◌||◌, List, [], ◌∷◌, ◌++◌, ltb, ◌==◌, length,
  if◌then◌else◌,
}
use openqiara.Charmux.Varint.{append_varint, decode_varint, u32_mod}

pub record ManagedFrame : Type 0 where
  pub gw_dst : ℕ  -- uint32
  pub gw_src : ℕ  -- uint32
  pub rf_byte : ℕ  -- byte
  pub counter : ℕ  -- uint32
  pub src : ℕ  -- uint32
  pub flags : ℕ  -- uint16
  pub route : ℕ  -- uint32
  pub ack_dst : ℕ  -- uint32
  pub ack_cnt : ℕ  -- uint32
  pub wflags : ℕ  -- byte
  pub payload : List ℕ  -- bytes

pub data FrameError : Type 0 where
  too_short truncated_rf truncated_flags : FrameError

pub data Parsed : Type 0 where
  ok : ManagedFrame → Parsed
  err : FrameError → Parsed

-- `f.Flags & (1 << k) != 0`
abbrev pub flag : ℕ → ℕ → Bool
flag k flags = flags / 2 ^ k % 2 == 1

abbrev pub flag_z : ℕ → Bool
flag_z = flag 0

abbrev pub flag_w : ℕ → Bool
flag_w = flag 1

abbrev pub flag_a : ℕ → Bool
flag_a = flag 2

-- The route hops that flag bits 11 to 13 count.
abbrev pub hops : ℕ → ℕ
hops flags = flags / 2048 % 8

-- `flags&^routeMask | 1<<routeShift`
abbrev pub one_hop : ℕ → ℕ
one_hop flags = flags / 16384 * 16384 + 2048 + flags % 2048

-- The flags as they go out.
abbrev pub wire_flags : ManagedFrame → ℕ
wire_flags f = if f.route == 0 then f.flags else one_hop f.flags

unfoldable pub append_route : ManagedFrame → List ℕ → List ℕ
append_route f buf = if f.route == 0 then buf else append_varint buf f.route

unfoldable pub append_ack : ManagedFrame → List ℕ → List ℕ
append_ack f buf =
    if flag_a f.flags then append_varint (append_varint buf f.ack_dst) f.ack_cnt else buf

unfoldable pub append_payload : ManagedFrame → List ℕ → List ℕ
append_payload f buf = if flag_w f.flags then buf ++ (f.wflags ∷ f.payload) else buf

unfoldable pub serialize : ManagedFrame → List ℕ
unfolding append_route append_ack append_payload
serialize f =
    let addressed = append_varint (append_varint [] f.gw_dst) f.gw_src ++ (f.rf_byte ∷ []) in
    let sourced = append_varint (append_varint addressed (f.counter * 2 % u32_mod)) f.src in
    let flagged = sourced ++ (wire_flags f % 256 ∷ wire_flags f / 256 ∷ []) in
    append_payload f (append_ack f (append_route f flagged))

-- The loop over the hops: it keeps the last, `route` before the first.
unfoldable pub read_hops : ℕ → ℕ → List ℕ → ℕ × List ℕ
read_hops zero route bs = (route, bs)
read_hops (suc n) route bs = let (r, rest) = decode_varint bs in read_hops n r rest

-- The last part: the wake flags and the payload, if they are there.
unfoldable pub read_payload : List ℕ → ManagedFrame → ManagedFrame
read_payload [] f = f
read_payload (w ∷ bs) f = if flag_w f.flags then record f { wflags = w; payload = bs } else f

-- A delivery report's, or an acknowledgement's, address and counter.
unfoldable pub read_ack : List ℕ → ManagedFrame → ManagedFrame
unfolding read_payload
read_ack bs f =
    let (dst, bs₁) = decode_varint bs in
    let (cnt, bs₂) = decode_varint bs₁ in
    read_payload bs₂ (record f { ack_dst = dst; ack_cnt = cnt })

-- The counter alone: a routed frame's last hop is its address.
unfoldable pub read_routed_ack : List ℕ → ManagedFrame → ManagedFrame
unfolding read_payload
read_routed_ack bs f =
    let (cnt, rest) = decode_varint bs in
    read_payload rest (record f { ack_dst = f.route; ack_cnt = cnt })

unfoldable pub read_routed : List ℕ → ManagedFrame → ManagedFrame
unfolding read_hops read_ack read_routed_ack read_payload
read_routed bs f =
    let (route, rest) = read_hops (hops f.flags) 0 bs in
    let g = record f { route = route } in
    if flag_a f.flags
    then if route == 0 then read_ack rest g else read_routed_ack rest g
    else read_payload rest g

unfoldable pub read_flags : List ℕ → ManagedFrame → Parsed
unfolding read_routed read_ack
read_flags [] f = err truncated_flags
read_flags (lo ∷ []) f = err truncated_flags
read_flags (lo ∷ hi ∷ bs) f =
    let g = record f { flags = lo + 256 * hi } in
    if not (flag_z g.flags || flag_w g.flags || flag_a g.flags)
    then ok (read_ack bs g)
    else ok (read_routed bs g)

unfoldable pub read_rf : List ℕ → ManagedFrame → Parsed
unfolding read_flags
read_rf [] f = err truncated_rf
read_rf (rf ∷ bs) f =
    let (cnt, bs₁) = decode_varint bs in
    let (src, bs₂) = decode_varint bs₁ in
    read_flags bs₂ (record f { rf_byte = rf; counter = cnt / 2; src = src })

-- The zero frame, `&ManagedFrame{}`.
abbrev pub empty_frame : ManagedFrame
empty_frame = record {
  gw_dst = 0;
  gw_src = 0;
  rf_byte = 0;
  counter = 0;
  src = 0;
  flags = 0;
  route = 0;
  ack_dst = 0;
  ack_cnt = 0;
  wflags = 0;
  payload = [];
}

unfoldable pub deserialize : List ℕ → Parsed
unfolding read_rf
deserialize bytes =
    let (dst, bs₁) = decode_varint bytes in
    let (src, bs₂) = decode_varint bs₁ in
    if ltb (length bytes) 8
    then err too_short
    else read_rf bs₂ (record empty_frame { gw_dst = dst; gw_src = src })
