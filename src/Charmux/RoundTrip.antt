-- ===== src/Charmux/RoundTrip.antt =====
-- Managed frames that are written and read back (internal/charmux/managed.go).
use openqiara.Prelude.{
  ℕ, zero, suc, ◌+◌, ◌*◌, ◌/◌, ◌%◌, ◌≤◌, ◌<◌, ◌≡◌, ◌⊎◌, inl, inr, true, false, not, ◌||◌, List, [],
  ◌∷◌, ◌++◌, ◌==◌, length, length-append, if◌then◌else◌, arith, Bool-cases, ◌∙◌, ap,
}
use openqiara.Charmux.Varint.{u32_mod, encoding, append_varint-encoding, decode-encoding}
use openqiara.Charmux.Frame.{
  ManagedFrame, ok, flag_z, flag_w, flag_a, hops, one_hop, wire_flags, append_route, append_ack,
  append_payload, serialize, read_routed, read_flags, read_rf, empty_frame, deserialize,
}
use mathlib.Core.List.{append_assoc, append-nil}

-- The ranges of the fields.
pub record IsFrame (f : ManagedFrame) : Type 0 where
  pub gw_dst : f.gw_dst < u32_mod
  pub gw_src : f.gw_src < u32_mod
  pub counter : f.counter * 2 < u32_mod
  pub src : f.src < u32_mod
  pub flags : f.flags < 65536
  pub route : f.route < u32_mod
  pub ack_dst : f.ack_dst < u32_mod
  pub ack_cnt : f.ack_cnt < u32_mod

-- The frames that the format can tell: one that acknowledges or carries a payload; its flags
-- count no hop unless it is routed, and a routed one acknowledges nothing.
pub record IsPlain (f : ManagedFrame) : Type 0 where
  pub carries : (flag_a f.flags || flag_w f.flags) ≡ true
  pub direct : ((f.route ≡ 0) × (hops f.flags ≡ 0)) ⊎ ((0 < f.route) × (flag_a f.flags ≡ false))

-- What is left of a frame on the wire: the hop count is in its flags, and a field is there only with
-- its flag.
abbrev pub on_wire : ManagedFrame → ManagedFrame
on_wire f = record f {
  flags = wire_flags f;
  ack_dst = if flag_a f.flags then f.ack_dst else 0;
  ack_cnt = if flag_a f.flags then f.ack_cnt else 0;
  wflags = if flag_w f.flags then f.wflags else 0;
  payload = if flag_w f.flags then f.payload else [];
}

tail_payload : ManagedFrame → List ℕ
tail_payload f = if flag_w f.flags then f.wflags ∷ f.payload else []

tail_ack : ManagedFrame → List ℕ
unfolding tail_payload
tail_ack f =
    if flag_a f.flags
    then encoding 4 f.ack_dst ++ (encoding 4 f.ack_cnt ++ tail_payload f)
    else tail_payload f

tail : ManagedFrame → List ℕ
unfolding tail_ack
tail f = if f.route == 0 then tail_ack f else encoding 4 f.route ++ tail_ack f

head : ManagedFrame → List ℕ → List ℕ
head f rest =
    encoding 4 f.gw_dst
    ++ (encoding 4 f.gw_src
        ++ (f.rf_byte
            ∷ (encoding 4 (f.counter * 2 % u32_mod)
                ++ (encoding 4 f.src ++ (wire_flags f % 256 ∷ wire_flags f / 256 ∷ rest)))))

append_payload-tail :
    (f : ManagedFrame) (buf : List ℕ) → append_payload f buf ≡ buf ++ tail_payload f
unfolding append_payload tail_payload
append_payload-tail f buf = elim (Bool-cases (flag_w f.flags)) [
  | inl there ↦ rw there
  | inr not_there ↦ rw not_there (simp append-nil)
]

append_ack-tail :
    (f : ManagedFrame) (buf : List ℕ) → append_payload f (append_ack f buf) ≡ buf ++ tail_ack f
unfolding append_ack tail_ack
append_ack-tail f buf = elim (Bool-cases (flag_a f.flags)) [
  | inl there ↦ simp (append_payload-tail) (rw there (simp (append_varint-encoding, append_assoc)))
  | inr not_there ↦ simp (append_payload-tail) (rw not_there)
]

append_tail :
    (f : ManagedFrame) (buf : List ℕ)
    → append_payload f (append_ack f (append_route f buf)) ≡ buf ++ tail f
unfolding append_route tail
append_tail f buf = elim (Bool-cases (f.route == 0)) [
  | inl direct ↦ simp (append_ack-tail) (rw direct)
  | inr routed ↦ simp (append_ack-tail) (rw routed (simp (append_varint-encoding, append_assoc)))
]

serialize-eq : (f : ManagedFrame) → serialize f ≡ head f (tail f)
unfolding serialize head
serialize-eq f = append_tail f _ ∙ simp (append_varint-encoding, append_assoc)

abbrev base : ManagedFrame → ManagedFrame
base f = record empty_frame {
  gw_dst = f.gw_dst;
  gw_src = f.gw_src;
  rf_byte = f.rf_byte;
  counter = f.counter;
  src = f.src;
  flags = wire_flags f;
}

one_hop_flags :
    (n : ℕ)
    → (flag_z (one_hop n) ≡ flag_z n)
      × (flag_w (one_hop n) ≡ flag_w n)
      × (flag_a (one_hop n) ≡ flag_a n)
      × (hops (one_hop n) ≡ 1)
one_hop_flags n = ground arith

read_tail : (f : ManagedFrame) → IsFrame f → IsPlain f → read_routed (tail f) (base f) ≡ on_wire f
unfolding read_routed tail
read_tail f b p = ground (
  arith,
  one_hop_flags f.flags,
  decode-encoding f.route (tail_ack f) b.route,
  decode-encoding f.ack_dst (encoding 4 f.ack_cnt ++ tail_payload f) b.ack_dst,
  decode-encoding f.ack_cnt (tail_payload f) b.ack_cnt,
)

length-encoding : (n v : ℕ) → 1 ≤ length (encoding n v)
unfolding encoding
length-encoding zero v = omega arith
length-encoding (suc n) v = ground arith

-- What acknowledges or carries a payload has a byte at least after its flags.
length-tail : (f : ManagedFrame) → IsPlain f → 1 ≤ length (tail f)
unfolding tail
length-tail f p = ground (
  arith,
  length-append (encoding 4 f.route) (tail_ack f),
  length-append (encoding 4 f.ack_dst) (encoding 4 f.ack_cnt ++ tail_payload f),
  length-encoding 4 f.route,
  length-encoding 4 f.ack_dst,
)

-- The shortest of these frames has the eight bytes that the reader asks for.
length-head : (f : ManagedFrame) → IsPlain f → 8 ≤ length (head f (tail f))
unfolding head
length-head f p = simp (length-append) (
    omega (
      arith,
      length-tail f p,
      length-encoding 4 f.gw_dst,
      length-encoding 4 f.gw_src,
      length-encoding 4 (f.counter * 2 % u32_mod),
      length-encoding 4 f.src,
    ))

join_bytes : (n : ℕ) → n % 256 + 256 * (n / 256) ≡ n
join_bytes n = omega arith

-- The reader does not take such a frame for a delivery report.
carried :
    (f : ManagedFrame)
    → IsPlain f
    → not (flag_z (wire_flags f) || flag_w (wire_flags f) || flag_a (wire_flags f)) ≡ false
carried f p = ground (arith, one_hop_flags f.flags)

read_flags_lem :
    (f : ManagedFrame)
    → IsFrame f
    → IsPlain f
    → read_flags (wire_flags f % 256 ∷ wire_flags f / 256 ∷ tail f) (record (base f) { flags = 0 })
      ≡ ok (on_wire f)
unfolding read_flags
read_flags_lem f b p = rw (join_bytes (wire_flags f), carried f p) (ap ok (read_tail f b p))

-- A frame in range that acknowledges or carries a payload, and that is routed only if it
-- acknowledges nothing, is read back as it was written: the hop count is in its flags if it is
-- routed, and the fields whose flag is not set are left at zero.
pub deserialize-serialize :
    (f : ManagedFrame) → IsFrame f → IsPlain f → deserialize (serialize f) ≡ ok (on_wire f)
unfolding deserialize read_rf head
deserialize-serialize f b p = rw (serialize-eq f) (
    ground (
      arith,
      length-head f p,
      decode-encoding f.gw_dst
          (encoding 4 f.gw_src
            ++ (f.rf_byte
                ∷ (encoding 4 (f.counter * 2 % u32_mod)
                    ++ (encoding 4 f.src ++ (wire_flags f % 256 ∷ wire_flags f / 256 ∷ tail f)))))
          b.gw_dst,
      decode-encoding f.gw_src
          (f.rf_byte
            ∷ (encoding 4 (f.counter * 2 % u32_mod)
                ++ (encoding 4 f.src ++ (wire_flags f % 256 ∷ wire_flags f / 256 ∷ tail f))))
          b.gw_src,
      decode-encoding (f.counter * 2 % u32_mod)
          (encoding 4 f.src ++ (wire_flags f % 256 ∷ wire_flags f / 256 ∷ tail f)) (omega arith),
      decode-encoding f.src (wire_flags f % 256 ∷ wire_flags f / 256 ∷ tail f) b.src,
      read_flags_lem f b p,
    ))
