-- ===== src/Media/Fragments.antt =====
-- The packets of one unit (internal/publisher/h264rtp.go `packetizeNAL`), as a receiver of RFC 6184 puts
-- them together again.
use openqiara.Prelude.{
  ℕ, zero, suc, ◌+◌, ◌-◌, ◌*◌, ◌/◌, ◌%◌, ◌≤◌, ◌≡◌, Bool, true, false, ◌&&◌, not, List, [], ◌∷◌,
  ◌++◌, leb, ◌==◌, length, take, drop, if◌then◌else◌, arith, refl, sym, ap, ◌∙◌, inl, inr,
  Bool-cases, take-append-drop, length-drop,
}
use openqiara.Media.H264.{
  Packet, H264Packetizer, fu_payload_mtu, rtp_mtu, make_packet, fu_indicator, fu_header, fragments,
  packetize_nal,
}
use mathlib.Core.List.{append_assoc, append-nil}

abbrev pub payloads : List Packet → List (List ℕ)
payloads [] = []
payloads (p ∷ ps) = p.payload ∷ payloads ps

-- A receiver of RFC 6184: a payload of type 28 is a fragment, whose second byte says whether it
-- is the first, 0x80, and the last, 0x40; any other is a whole unit. `pending` are the fragments since the first.
unfoldable pub reassemble : List ℕ → List (List ℕ) → List (List ℕ)
reassemble pending [] = []
reassemble pending ([] ∷ ps) = reassemble pending ps
reassemble pending ((b ∷ []) ∷ ps) = (b ∷ []) ∷ reassemble pending ps
reassemble pending ((b ∷ h ∷ part) ∷ ps) =
    let now = if h / 128 == 1 then (b / 32 * 32 + h % 32) ∷ part else pending ++ part in
    let whole = (b ∷ h ∷ part) ∷ reassemble pending ps in
    let last = now ∷ reassemble [] ps in
    let more = reassemble now ps in
    if b % 32 == 28 then if h / 64 % 2 == 1 then last else more else whole

reassemble-single :
    (pending : List ℕ) (header : ℕ) (body : List ℕ) (ps : List (List ℕ))
    → ((header % 32 == 28) ≡ false)
    → reassemble pending ((header ∷ body) ∷ ps) ≡ (header ∷ body) ∷ reassemble pending ps
unfolding reassemble
reassemble-single pending header [] ps h = refl
reassemble-single pending header (b ∷ body) ps h = rw h refl

header_bits :
    (header : ℕ) (is_first is_last : Bool)
    → ((fu_header header is_first is_last / 128 == 1) ≡ is_first)
      × ((fu_header header is_first is_last / 64 % 2 == 1) ≡ is_last)
      × (fu_indicator header / 32 * 32 + fu_header header is_first is_last % 32 ≡ header)
      × ((fu_indicator header % 32 == 28) ≡ true)
header_bits header true true = ground arith
header_bits header true false = ground arith
header_bits header false true = ground arith
header_bits header false false = ground arith

-- One fragment.
reassemble-fragment :
    (pending : List ℕ) (header : ℕ) (is_first is_last : Bool) (part : List ℕ) (ps : List (List ℕ))
    → reassemble pending ((fu_indicator header ∷ fu_header header is_first is_last ∷ part) ∷ ps) ≡ (
        let now = if is_first then header ∷ part else pending ++ part in
        if is_last then now ∷ reassemble [] ps else reassemble now ps)
unfolding reassemble
reassemble-fragment pending header is_first is_last part ps =
    let (a, b, c, d) = header_bits header is_first is_last in rw (a, b, c, d) refl

nil_of_length : (xs : List ℕ) → length xs ≡ 0 → xs ≡ []
nil_of_length [] h = refl
nil_of_length (x ∷ xs) h = ground arith

-- What is left of a body that one more fragment takes.
pub last_part :
    (n : ℕ) (body : List ℕ) → leb (length body) n ≡ true → (take n body ≡ body) × (drop n body ≡ [])
last_part n body h =
    let nothing = nil_of_length (drop n body) (ground (arith, length-drop n body)) in
    (
      sym (append-nil (take n body))
          ∙ ap (λ u. take n body ++ u) (sym nothing)
          ∙ take-append-drop n body,
      nothing,
    )

-- A body that fills one more fragment leaves some.
pub more_part :
    (n : ℕ) (body : List ℕ)
    → leb (length body) n ≡ false
    → (c : ℕ) × (cs : List ℕ) × (drop n body ≡ c ∷ cs) × (length (c ∷ cs) + n ≡ length body)
more_part n body h = go (drop n body) (length-drop n body)
  where
    go :
        (left : List ℕ)
        → length left ≡ length body - n
        → (c : ℕ) × (cs : List ℕ) × (left ≡ c ∷ cs) × (length (c ∷ cs) + n ≡ length body)
    go [] e = absurd (ground arith)
    go (c ∷ cs) e = (c, cs, refl, ground arith)

-- The round of the loop that takes what is left of a body, and one that leaves some.
module _ (fuel : ℕ) (p : H264Packetizer) (header : ℕ) (is_first m : Bool) (body : List ℕ)
    (pending : List ℕ) (rest : List (List ℕ)) where
  abbrev part : List ℕ
  part = take fu_payload_mtu body

  abbrev others : List (List ℕ)
  others = payloads (fragments fuel p header false (drop fu_payload_mtu body) m).1 ++ rest

  abbrev joined : List ℕ
  joined = if is_first then header ∷ part else pending ++ part

  last_round :
      leb (length body) fu_payload_mtu ≡ true
      → (if leb (length body) fu_payload_mtu
          then joined ∷ reassemble [] others
          else reassemble joined others)
        ≡ (if is_first then header ∷ body else pending ++ body) ∷ reassemble [] rest
  last_round last =
      let (all, none_left) = last_part fu_payload_mtu body last in
      ap (λ d. if d then joined ∷ reassemble [] others else reassemble joined others) last
      ∙ ap (λ u. (if is_first then header ∷ u else pending ++ u) ∷ reassemble [] others) all
      ∙ ap
          (λ u.
            (if is_first then header ∷ body else pending ++ body)
            ∷ reassemble [] (payloads (fragments fuel p header false u m).1 ++ rest))
          none_left
      ∙ unfold fragments in refl

joined-append :
    (header : ℕ) (is_first : Bool) (pending xs ys : List ℕ)
    → (if is_first then header ∷ xs else pending ++ xs) ++ ys
      ≡ (if is_first then header ∷ (xs ++ ys) else pending ++ (xs ++ ys))
joined-append header true pending xs ys = refl
joined-append header false pending xs ys = append_assoc pending xs ys

-- The fragments of what is left of a body: its first ones, or those after the first.
reassemble-fragments :
    (fuel : ℕ) (p : H264Packetizer) (header : ℕ) (is_first : Bool) (b : ℕ) (bs : List ℕ) (m : Bool)
    (pending : List ℕ) (rest : List (List ℕ))
    → length (b ∷ bs) ≤ fuel
    → reassemble pending (payloads (fragments fuel p header is_first (b ∷ bs) m).1 ++ rest)
      ≡ (if is_first then header ∷ b ∷ bs else pending ++ (b ∷ bs)) ∷ reassemble [] rest
unfolding fragments
reassemble-fragments zero p header is_first b bs m pending rest h = absurd (omega arith)
reassemble-fragments (suc fuel) p header is_first b bs m pending rest h =
    let body = b ∷ bs in
    let is_last = leb (length body) fu_payload_mtu in
    let front = take fu_payload_mtu body in
    let p' =
      (make_packet p (fu_indicator header ∷ fu_header header is_first is_last ∷ front)
        (m && is_last)).0 in
    let now = if is_first then header ∷ front else pending ++ front in
    let after = others fuel p' header is_first m body pending rest in
    reassemble-fragment pending header is_first is_last front after ∙ elim (Bool-cases is_last) [
      | inl last ↦ last_round fuel p' header is_first m body pending rest last
      | inr more ↦
          let (c, cs, left, size) = more_part fu_payload_mtu body more in
          ap (λ d. if d then now ∷ reassemble [] after else reassemble now after) more
          ∙ ap (λ u. reassemble now (payloads (fragments fuel p' header false u m).1 ++ rest)) left
          ∙ reassemble-fragments fuel p' header false c cs m now rest (omega (arith, size, h))
          ∙ ap (λ u. u ∷ reassemble [] rest)
              (ap (λ u. now ++ u) (sym left)
                ∙ joined-append header is_first pending front (drop fu_payload_mtu body)
                ∙ ap (λ u. if is_first then header ∷ u else pending ++ u)
                    (take-append-drop fu_payload_mtu body))
    ]

-- The type of a unit is not that of a fragment.
abbrev pub is_unit : List ℕ → Bool
is_unit [] = false
is_unit (header ∷ body) = not (header % 32 == 28)

pub reassemble-packetize_nal :
    (p : H264Packetizer) (nal : List ℕ) (m : Bool) (rest : List (List ℕ))
    → is_unit nal ≡ true
    → reassemble [] (payloads (packetize_nal p nal m).1 ++ rest) ≡ nal ∷ reassemble [] rest
unfolding packetize_nal
reassemble-packetize_nal p [] m rest u = cc
reassemble-packetize_nal p (header ∷ []) m rest u = unfold reassemble in refl
reassemble-packetize_nal p (header ∷ b ∷ bs) m rest u =
    elim (Bool-cases (leb (length (header ∷ b ∷ bs)) rtp_mtu)) [
      | inl fits ↦ rw fits (reassemble-single [] header (b ∷ bs) rest (ground arith))
      | inr long ↦
          rw long
            (reassemble-fragments (length (b ∷ bs)) p header true b bs m [] rest (omega arith))
    ]
