-- ===== src/Media/H264.antt =====
-- The H.264 packetizer, internal/publisher/h264rtp.go. A payload is a value here; the source hands the
-- kept SPS and PPS out without a copy, and writes over them only when a new one comes.
use openqiara.Prelude.{
  ℕ, zero, suc, ◌+◌, ◌*◌, ◌/◌, ◌%◌, Bool, true, false, ◌&&◌, List, [], ◌∷◌, ◌++◌, leb, ◌==◌, length,
  take, drop, if◌then◌else◌,
}

-- The packets of the RTP library, with the fields that the code sets; the version is always 2.
pub record Packet : Type 0 where
  pub payload_type : ℕ
  pub sequence_number : ℕ
  pub timestamp : ℕ
  pub ssrc : ℕ
  pub marker : Bool
  pub payload : List ℕ

pub record H264Packetizer : Type 0 where
  pub ssrc : ℕ
  pub payload_type : ℕ
  pub seq : ℕ
  pub timestamp : ℕ
  pub sps : List ℕ
  pub pps : List ℕ

abbrev pub h264_nal_idr : ℕ
h264_nal_idr = 5

abbrev pub h264_nal_sps : ℕ
h264_nal_sps = 7

abbrev pub h264_nal_pps : ℕ
h264_nal_pps = 8

abbrev pub h264_rtp_payload_type : ℕ
h264_rtp_payload_type = 99

abbrev pub rtp_mtu : ℕ
rtp_mtu = 1378

abbrev pub fu_payload_mtu : ℕ
fu_payload_mtu = 1376

-- The clock that seeds the numbers is the argument `now`.
unfoldable pub new_h264_packetizer : ℕ → ℕ → H264Packetizer
new_h264_packetizer now ssrc = record {
  ssrc = ssrc;
  payload_type = h264_rtp_payload_type;
  seq = now % 65536;
  timestamp = 0;
  sps = [];
  pps = [];
}

unfoldable pub set_payload_type : ℕ → H264Packetizer → H264Packetizer
set_payload_type pt p = record p { payload_type = pt }

unfoldable pub set_timestamp : ℕ → H264Packetizer → H264Packetizer
set_timestamp ts p = record p { timestamp = ts }

unfoldable pub make_packet : H264Packetizer → List ℕ → Bool → H264Packetizer × Packet
make_packet p payload marker = (
  record p { seq = (p.seq + 1) % 65536 },
  record {
    payload_type = p.payload_type;
    sequence_number = p.seq;
    timestamp = p.timestamp;
    ssrc = p.ssrc;
    marker = marker;
    payload = payload;
  },
)

-- `nalHeader & 0xE0 | 28`
abbrev pub fu_indicator : ℕ → ℕ
fu_indicator header = header / 32 * 32 + 28

-- `nalHeader & 0x1F`, with 0x80 on the first fragment and 0x40 on the last.
abbrev pub fu_header : ℕ → Bool → Bool → ℕ
fu_header header is_first is_last =
    header % 32 + (if is_first then 128 else 0) + (if is_last then 64 else 0)

-- The loop over the offsets, on what is left of the body. `fuel` is the body's length: each round takes
-- a byte at least.
unfoldable pub fragments :
    ℕ → H264Packetizer → ℕ → Bool → List ℕ → Bool → H264Packetizer × List Packet
unfolding make_packet
fragments fuel p header is_first [] set_marker = (p, [])
fragments zero p header is_first (b ∷ bs) set_marker = (p, [])
fragments (suc fuel) p header is_first (b ∷ bs) set_marker =
    let is_last = leb (length (b ∷ bs)) fu_payload_mtu in
    let (p', pkt) =
      make_packet p
        (fu_indicator header ∷ fu_header header is_first is_last ∷ take fu_payload_mtu (b ∷ bs))
        (set_marker && is_last) in
    let (p'', pkts) = fragments fuel p' header false (drop fu_payload_mtu (b ∷ bs)) set_marker in
    (p'', pkt ∷ pkts)

unfoldable pub packetize_nal : H264Packetizer → List ℕ → Bool → H264Packetizer × List Packet
unfolding make_packet fragments
packetize_nal p [] set_marker = (p, [])
packetize_nal p (header ∷ body) set_marker =
    if leb (length (header ∷ body)) rtp_mtu
    then (let (p', pkt) = make_packet p (header ∷ body) set_marker in (p', pkt ∷ []))
    else fragments (length body) p header true body set_marker

-- SPS and PPS are kept.
unfoldable pub cache : ℕ → List ℕ → H264Packetizer → H264Packetizer
cache nal_type nal p =
    if nal_type == h264_nal_sps
    then record p { sps = nal }
    else if nal_type == h264_nal_pps
    then record p { pps = nal }
    else p

-- What goes out before the unit: SPS and PPS before an IDR. No packets are made of an empty one.
unfoldable pub prepend : ℕ → H264Packetizer → H264Packetizer × List Packet
unfolding packetize_nal
prepend nal_type p =
    if nal_type == h264_nal_idr
    then (let (p₁, out₁) = packetize_nal p p.sps false in
        let (p₂, out₂) = packetize_nal p₁ p.pps false in (p₂, out₁ ++ out₂))
    else (p, [])

unfoldable pub packetize_with_marker : H264Packetizer → List ℕ → Bool → H264Packetizer × List Packet
unfolding cache prepend packetize_nal
packetize_with_marker p [] is_last_of_au = (p, [])
packetize_with_marker p (header ∷ body) is_last_of_au =
    let (p₁, out₁) = prepend (header % 32) (cache (header % 32) (header ∷ body) p) in
    let (p₂, out₂) = packetize_nal p₁ (header ∷ body) is_last_of_au in (p₂, out₁ ++ out₂)

unfoldable pub packetize : H264Packetizer → List ℕ → H264Packetizer × List Packet
unfolding packetize_with_marker
packetize p nal = packetize_with_marker p nal true
