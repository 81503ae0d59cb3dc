-- ===== src/Media/Tests.antt =====
-- The properties of the packetizer at concrete inputs, and the sizes at its limit.
use openqiara.Prelude.{
  ℕ, ◌≡◌, ◌%◌, true, List, [], ◌∷◌, ◌++◌, ◌==◌, if◌then◌else◌, length, arith, refl, replicate,
}
use openqiara.Media.H264.{
  H264Packetizer, h264_nal_idr, h264_nal_sps, h264_nal_pps, packetize_with_marker,
  new_h264_packetizer, packetize,
}
use openqiara.Media.Fragments.{payloads, reassemble}
use openqiara.Media.Reassembly.{IsCached, unit_of, reassemble-packetize}
use openqiara.Media.Numbering.{IsStream, marked, packetize-IsStream}

-- A stream that has sent its parameter sets, at the last number before the wrap.
abbrev running : H264Packetizer
running = record {
  ssrc = 17;
  payload_type = 99;
  seq = 65_535;
  timestamp = 900;
  sps = 0x67 ∷ 0x42 ∷ [];
  pps = 0x68 ∷ 0xce ∷ [];
}

running-IsCached : IsCached running
running-IsCached = record { sps_type = refl; pps_type = refl }

abbrev key_frame : List ℕ
key_frame = 0x88 ∷ 0x84 ∷ []

reassemble-packetize_example :
    let (p', out) = packetize_with_marker running (0x65 ∷ key_frame) true in
    (reassemble [] (payloads out)
      ≡ (if 0x65 % 32 == h264_nal_idr then unit_of running.sps ++ unit_of running.pps else [])
        ++ ((0x65 ∷ key_frame) ∷ []))
    × IsCached p'
    × (p'.sps ≡ (if 0x65 % 32 == h264_nal_sps then 0x65 ∷ key_frame else running.sps))
    × (p'.pps ≡ (if 0x65 % 32 == h264_nal_pps then 0x65 ∷ key_frame else running.pps))
reassemble-packetize_example =
    reassemble-packetize running 0x65 key_frame true refl running-IsCached

packetize-IsStream_example :
    let (p', out) = packetize_with_marker running (0x65 ∷ key_frame) true in
    IsStream running p' out × (marked true out ≡ true)
packetize-IsStream_example = packetize-IsStream running 0x65 key_frame true (omega arith)

-- A unit of 3000 bytes takes three packets, one at the limit one.
long_unit : length (packetize (new_h264_packetizer 5 1) (0x41 ∷ replicate 2999 0)).1 ≡ 3
unfolding packetize
long_unit = refl

unit_at_limit : length (packetize (new_h264_packetizer 5 1) (0x41 ∷ replicate 1377 0)).1 ≡ 1
unfolding packetize
unit_at_limit = refl
