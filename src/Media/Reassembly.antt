-- ===== src/Media/Reassembly.antt =====
-- The packets of the H.264 packetizer (internal/publisher/h264rtp.go), as a receiver of RFC 6184 puts
-- them together again.
use openqiara.Prelude.{
  ℕ, zero, suc, ◌%◌, ◌≡◌, Bool, true, false, List, [], ◌∷◌, ◌++◌, leb, ◌==◌, length, drop,
  if◌then◌else◌, arith, refl, sym, ap, ◌∙◌, inl, inr, Bool-cases,
}
use openqiara.Media.H264.{
  Packet, H264Packetizer, h264_nal_idr, h264_nal_sps, h264_nal_pps, fu_payload_mtu, rtp_mtu,
  fragments, packetize_nal, cache, prepend, packetize_with_marker,
}
use mathlib.Core.List.{append_assoc, append-nil}
use openqiara.Media.Fragments.{payloads, reassemble, is_unit, reassemble-packetize_nal}

fragments_keep :
    (fuel : ℕ) (p : H264Packetizer) (header : ℕ) (is_first : Bool) (body : List ℕ) (m : Bool)
    → ((fragments fuel p header is_first body m).0.sps ≡ p.sps)
      × ((fragments fuel p header is_first body m).0.pps ≡ p.pps)
unfolding fragments
fragments_keep fuel p header is_first [] m = (refl, refl)
fragments_keep zero p header is_first (b ∷ bs) m = (refl, refl)
fragments_keep (suc fuel) p header is_first (b ∷ bs) m =
    fragments_keep fuel _ header false (drop fu_payload_mtu (b ∷ bs)) m

packetize_nal_keeps :
    (p : H264Packetizer) (nal : List ℕ) (m : Bool)
    → ((packetize_nal p nal m).0.sps ≡ p.sps) × ((packetize_nal p nal m).0.pps ≡ p.pps)
unfolding packetize_nal
packetize_nal_keeps p [] m = (refl, refl)
packetize_nal_keeps p (header ∷ body) m = elim (Bool-cases (leb (length (header ∷ body)) rtp_mtu)) [
  | inl fits ↦ rw fits (refl, refl)
  | inr long ↦ rw long (fragments_keep (length body) p header true body m)
]

abbrev pub has_type : ℕ → List ℕ → Bool
has_type t [] = true
has_type t (header ∷ body) = header % 32 == t

-- What is kept is what it is kept as, if anything is.
pub record IsCached (p : H264Packetizer) : Type 0 where
  pub sps_type : has_type h264_nal_sps p.sps ≡ true
  pub pps_type : has_type h264_nal_pps p.pps ≡ true

-- The units that an empty one is none of.
abbrev pub unit_of : List ℕ → List (List ℕ)
unit_of [] = []
unit_of (header ∷ body) = (header ∷ body) ∷ []

payloads-append : (xs ys : List Packet) → payloads (xs ++ ys) ≡ payloads xs ++ payloads ys
payloads-append [] ys = refl
payloads-append (x ∷ xs) ys = ap (λ u. x.payload ∷ u) (payloads-append xs ys)

reassemble-kept :
    (p : H264Packetizer) (t : ℕ) (nal : List ℕ) (m : Bool) (rest : List (List ℕ))
    → has_type t nal ≡ true
    → ((t == 28) ≡ false)
    → reassemble [] (payloads (packetize_nal p nal m).1 ++ rest) ≡ unit_of nal ++ reassemble [] rest
reassemble-kept p t [] m rest h k = unfold packetize_nal in refl
reassemble-kept p t (header ∷ body) m rest h k =
    reassemble-packetize_nal p (header ∷ body) m rest (ground arith)

reassemble-prepend :
    (nal_type : ℕ) (p : H264Packetizer) (rest : List (List ℕ))
    → IsCached p
    → (reassemble [] (payloads (prepend nal_type p).1 ++ rest)
        ≡ (if nal_type == h264_nal_idr then unit_of p.sps ++ unit_of p.pps else [])
          ++ reassemble [] rest)
      × ((prepend nal_type p).0.sps ≡ p.sps)
      × ((prepend nal_type p).0.pps ≡ p.pps)
unfolding prepend
reassemble-prepend nal_type p rest c = elim (Bool-cases (nal_type == h264_nal_idr)) [
  | inr other ↦ rw other (refl, refl, refl)
  | inl idr ↦
      let (p₁, out₁) = packetize_nal p p.sps false in
      let (p₂, out₂) = packetize_nal p₁ p.pps false in
      let (s₁, q₁) = packetize_nal_keeps p p.sps false in
      let (s₂, q₂) = packetize_nal_keeps p₁ p.pps false in
      rw idr (
        ap (λ u. reassemble [] (u ++ rest)) (payloads-append out₁ out₂)
            ∙ ap (reassemble []) (append_assoc (payloads out₁) (payloads out₂) rest)
            ∙ reassemble-kept p h264_nal_sps p.sps false (payloads out₂ ++ rest) c.sps_type
                (ground arith)
            ∙ ap (λ u. unit_of p.sps ++ u)
                (reassemble-kept p₁ h264_nal_pps p.pps false rest c.pps_type (ground arith))
            ∙ sym (append_assoc (unit_of p.sps) (unit_of p.pps) (reassemble [] rest)),
        s₂ ∙ s₁,
        q₂ ∙ q₁,
      )
]

cache_lem :
    (header : ℕ) (body : List ℕ) (p : H264Packetizer)
    → IsCached p
    → IsCached (cache (header % 32) (header ∷ body) p)
unfolding cache
cache_lem header body p c = ground arith

cache_fields :
    (header : ℕ) (body : List ℕ) (p : H264Packetizer)
    → let p' = cache (header % 32) (header ∷ body) p in
      (p'.sps ≡ (if header % 32 == h264_nal_sps then header ∷ body else p.sps))
      × (p'.pps ≡ (if header % 32 == h264_nal_pps then header ∷ body else p.pps))
      × ((if header % 32 == h264_nal_idr then unit_of p'.sps ++ unit_of p'.pps else [])
          ≡ (if header % 32 == h264_nal_idr then unit_of p.sps ++ unit_of p.pps else []))
unfolding cache
cache_fields header body p = ground arith

-- A unit that is no fragment itself is put together again by a receiver, whatever its length; before an
-- IDR come the SPS and the PPS that are kept. What is kept then is the last of each, and is what it
-- is kept as.
pub reassemble-packetize :
    (p : H264Packetizer) (header : ℕ) (body : List ℕ) (is_last_of_au : Bool)
    → is_unit (header ∷ body) ≡ true
    → IsCached p
    → let (p', out) = packetize_with_marker p (header ∷ body) is_last_of_au in
      (reassemble [] (payloads out)
        ≡ (if header % 32 == h264_nal_idr then unit_of p.sps ++ unit_of p.pps else [])
          ++ ((header ∷ body) ∷ []))
      × IsCached p'
      × (p'.sps ≡ (if header % 32 == h264_nal_sps then header ∷ body else p.sps))
      × (p'.pps ≡ (if header % 32 == h264_nal_pps then header ∷ body else p.pps))
unfolding packetize_with_marker reassemble
reassemble-packetize p header body is_last_of_au u c =
    let p₀ = cache (header % 32) (header ∷ body) p in
    let p₁ = (prepend (header % 32) p₀).0 in
    let out₁ = (prepend (header % 32) p₀).1 in
    let out₂ = (packetize_nal p₁ (header ∷ body) is_last_of_au).1 in
    let c₀ = cache_lem header body p c in
    let (r, s, q) = reassemble-prepend (header % 32) p₀ (payloads out₂) c₀ in
    let (s', q') = packetize_nal_keeps p₁ (header ∷ body) is_last_of_au in
    let (a, b, idr) = cache_fields header body p in
    let alone =
      ap (reassemble []) (sym (append-nil (payloads out₂)))
      ∙ reassemble-packetize_nal p₁ (header ∷ body) is_last_of_au [] u in
    (
      ap (reassemble []) (payloads-append out₁ out₂)
          ∙ r
          ∙ ap
              (λ v.
                (if header % 32 == h264_nal_idr then unit_of p₀.sps ++ unit_of p₀.pps else []) ++ v)
              alone
          ∙ ap (λ v. v ++ ((header ∷ body) ∷ [])) idr,
      record {
        sps_type = ap (has_type h264_nal_sps) (s' ∙ s) ∙ c₀.sps_type;
        pps_type = ap (has_type h264_nal_pps) (q' ∙ q) ∙ c₀.pps_type;
      },
      s' ∙ s ∙ a,
      q' ∙ q ∙ b,
    )
