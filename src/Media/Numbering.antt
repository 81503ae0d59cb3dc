-- ===== src/Media/Numbering.antt =====
-- The headers of the H.264 packetizer's packets (internal/publisher/h264rtp.go): numbers, markers and
-- sizes.
use openqiara.Prelude.{
  ℕ, zero, suc, ◌+◌, ◌%◌, ◌≤◌, ◌<◌, ◌≡◌, Bool, true, false, ◌&&◌, not, List, [], ◌∷◌, ◌++◌, leb,
  ◌==◌, length, take, drop, arith, refl, sym, length-append, length-take, inl, inr, Bool-cases, ◌∙◌,
  ap, if◌then◌else◌,
}
use openqiara.Media.Fragments.{last_part, more_part}
use openqiara.Media.H264.{
  h264_nal_idr, Packet, H264Packetizer, rtp_mtu, fu_payload_mtu, make_packet, fu_indicator,
  fu_header, fragments, packetize_nal, cache, prepend, packetize_with_marker,
}

-- Packets that follow each other from the number `n` on, none over the limit, all of the stream and the time
-- of `p`.
unfoldable pub Follow : ℕ → H264Packetizer → List Packet → Type 0
Follow n p [] = Unit
Follow n p (k ∷ ks) =
    (k.sequence_number ≡ n)
    × (length k.payload ≤ rtp_mtu)
    × (k.ssrc ≡ p.ssrc)
    × (k.timestamp ≡ p.timestamp)
    × (k.payload_type ≡ p.payload_type)
    × Follow ((n + 1) % 65536) p ks

-- What the packets `out` leave of the packetizer `p`.
pub record IsStream (p p' : H264Packetizer) (out : List Packet) : Type 0 where
  pub follow : Follow p.seq p out
  pub next : p.seq < 65536 → (p'.seq ≡ (p.seq + length out) % 65536) × (p'.seq < 65536)
  pub same : (p'.ssrc ≡ p.ssrc) × (p'.timestamp ≡ p.timestamp) × (p'.payload_type ≡ p.payload_type)

make_packet-IsStream :
    (p : H264Packetizer) (payload : List ℕ) (marker : Bool)
    → length payload ≤ rtp_mtu
    → IsStream p (make_packet p payload marker).0 ((make_packet p payload marker).1 ∷ [])
unfolding make_packet Follow
make_packet-IsStream p payload marker h = record {
  follow = (refl, h, refl, refl, refl, tt);
  next = λ s. (refl, omega arith);
  same = (refl, refl, refl);
}

Follow-same :
    (p q : H264Packetizer) (n : ℕ) (ks : List Packet)
    → (q.ssrc ≡ p.ssrc) × (q.timestamp ≡ p.timestamp) × (q.payload_type ≡ p.payload_type)
    → Follow n q ks
    → Follow n p ks
unfolding Follow
Follow-same p q n [] same f = tt
Follow-same p q n (k ∷ ks) same (a, b, c, d, e, f) =
    (a, b, c ∙ same.0, d ∙ same.1, e ∙ same.2, Follow-same p q ((n + 1) % 65536) ks same f)

Follow-number :
    (p : H264Packetizer) (n m : ℕ) (ks : List Packet) → n ≡ m → Follow n p ks → Follow m p ks
Follow-number p n m ks e f = rw (sym e) f

Follow-append :
    (p : H264Packetizer) (n m : ℕ) (xs ys : List Packet)
    → n < 65536
    → m ≡ (n + length xs) % 65536
    → Follow n p xs
    → Follow m p ys
    → Follow n p (xs ++ ys)
unfolding Follow
Follow-append p n m [] ys s e f g = let same : m ≡ n = omega arith in rw (sym same) g
Follow-append p n m (x ∷ xs) ys s e (a, b, c, d, k, f) g =
    (a, b, c, d, k, Follow-append p ((n + 1) % 65536) m xs ys (omega arith) (omega arith) f g)

IsStream-append :
    (p q r : H264Packetizer) (xs ys : List Packet)
    → p.seq < 65536
    → IsStream p q xs
    → IsStream q r ys
    → IsStream p r (xs ++ ys)
IsStream-append p q r xs ys s f g = record {
  follow =
      Follow-append p p.seq q.seq xs ys s (f.next s).0 f.follow
        (Follow-same p q q.seq ys f.same g.follow);
  next = λ _. omega (arith, length-append xs ys, f.next s, g.next (f.next s).1);
  same = (g.same.0 ∙ f.same.0, g.same.1 ∙ f.same.1, g.same.2 ∙ f.same.2);
}

IsStream-none : (p : H264Packetizer) → IsStream p p []
unfolding Follow
IsStream-none p = record { follow = tt; next = λ s. omega (arith, s); same = (refl, refl, refl) }

fragments-IsStream :
    (fuel : ℕ) (p : H264Packetizer) (header : ℕ) (is_first : Bool) (body : List ℕ) (m : Bool)
    → p.seq < 65536
    → let (p', out) = fragments fuel p header is_first body m in IsStream p p' out
unfolding fragments
fragments-IsStream fuel p header is_first [] m s = IsStream-none p
fragments-IsStream zero p header is_first (b ∷ bs) m s = IsStream-none p
fragments-IsStream (suc fuel) p header is_first (b ∷ bs) m s =
    let body = b ∷ bs in
    let is_last = leb (length body) fu_payload_mtu in
    let payload =
      fu_indicator header ∷ fu_header header is_first is_last ∷ take fu_payload_mtu body in
    let one =
      make_packet-IsStream p payload (m && is_last)
        (omega (arith, length-take fu_payload_mtu body)) in
    let p' = (make_packet p payload (m && is_last)).0 in
    IsStream-append p p' _ _ _ s one
      (fragments-IsStream fuel p' header false (drop fu_payload_mtu body) m (one.next s).1)

packetize_nal-IsStream :
    (p : H264Packetizer) (nal : List ℕ) (m : Bool)
    → p.seq < 65536
    → let (p', out) = packetize_nal p nal m in IsStream p p' out
unfolding packetize_nal
packetize_nal-IsStream p [] m s = IsStream-none p
packetize_nal-IsStream p (header ∷ body) m s =
    elim (Bool-cases (leb (length (header ∷ body)) rtp_mtu)) [
      | inl fits ↦ rw fits (make_packet-IsStream p (header ∷ body) m (ground arith))
      | inr long ↦ rw long (fragments-IsStream (length body) p header true body m s)
    ]

prepend-IsStream :
    (nal_type : ℕ) (p : H264Packetizer)
    → p.seq < 65536
    → let (p', out) = prepend nal_type p in IsStream p p' out
unfolding prepend
prepend-IsStream nal_type p s = elim (Bool-cases (nal_type == h264_nal_idr)) [
  | inr other ↦ rw other (IsStream-none p)
  | inl idr ↦
      let f = packetize_nal-IsStream p p.sps false s in
      let p₁ = (packetize_nal p p.sps false).0 in
      rw idr (IsStream-append p p₁ _ _ _ s f (packetize_nal-IsStream p₁ p.pps false (f.next s).1))
]

-- No packet ends the access unit.
unfoldable pub unmarked : List Packet → Bool
unmarked [] = true
unmarked (k ∷ ks) = not k.marker && unmarked ks

-- The last packet, and no other, ends the access unit if `m`.
unfoldable pub marked : Bool → List Packet → Bool
marked m [] = false
marked m (k ∷ []) = if k.marker then m else not m
marked m (k ∷ j ∷ ks) = not k.marker && marked m (j ∷ ks)

marked-append :
    (m : Bool) (xs ys : List Packet)
    → unmarked xs ≡ true
    → marked m ys ≡ true
    → marked m (xs ++ ys) ≡ true
unfolding unmarked marked
marked-append m [] ys u h = h
marked-append m (x ∷ []) [] u h = cc
marked-append m (x ∷ []) (y ∷ ys) u h = ground arith
marked-append m (x ∷ x' ∷ xs) ys u h = ground (arith, marked-append m (x' ∷ xs) ys)

unmarked-append :
    (xs ys : List Packet) → unmarked xs ≡ true → unmarked ys ≡ true → unmarked (xs ++ ys) ≡ true
unfolding unmarked
unmarked-append [] ys u h = h
unmarked-append (x ∷ xs) ys u h = ground (arith, unmarked-append xs ys)

fragments-unmarked :
    (fuel : ℕ) (p : H264Packetizer) (header : ℕ) (is_first : Bool) (body : List ℕ)
    → unmarked (fragments fuel p header is_first body false).1 ≡ true
unfolding fragments unmarked
fragments-unmarked fuel p header is_first [] = refl
fragments-unmarked zero p header is_first (b ∷ bs) = refl
fragments-unmarked (suc fuel) p header is_first (b ∷ bs) =
    fragments-unmarked fuel _ header false (drop fu_payload_mtu (b ∷ bs))

packetize_nal-unmarked :
    (p : H264Packetizer) (nal : List ℕ) → unmarked (packetize_nal p nal false).1 ≡ true
unfolding packetize_nal unmarked
packetize_nal-unmarked p [] = refl
packetize_nal-unmarked p (header ∷ body) =
    elim (Bool-cases (leb (length (header ∷ body)) rtp_mtu)) [
      | inl fits ↦ rw fits refl
      | inr long ↦ rw long (fragments-unmarked (length body) p header true body)
    ]

lone_marker : (m is_last : Bool) → is_last ≡ true → (if m && is_last then m else not m) ≡ true
lone_marker true is_last h = rw h refl
lone_marker false is_last h = refl

self_marker : (m : Bool) → (if m then m else not m) ≡ true
self_marker true = refl
self_marker false = refl

inner_marker : (m is_last : Bool) → is_last ≡ false → (not (m && is_last) && true) ≡ true
inner_marker true is_last h = rw h refl
inner_marker false is_last h = refl

fragments-marked :
    (fuel : ℕ) (p : H264Packetizer) (header : ℕ) (is_first : Bool) (b : ℕ) (bs : List ℕ) (m : Bool)
    → length (b ∷ bs) ≤ fuel
    → marked m (fragments fuel p header is_first (b ∷ bs) m).1 ≡ true
unfolding fragments marked
fragments-marked zero p header is_first b bs m h = absurd (omega arith)
fragments-marked (suc fuel) p header is_first b bs m h =
    let body = b ∷ bs in
    let is_last = leb (length body) fu_payload_mtu in
    let payload =
      fu_indicator header ∷ fu_header header is_first is_last ∷ take fu_payload_mtu body in
    let p' = (make_packet p payload (m && is_last)).0 in
    let pkt = (make_packet p payload (m && is_last)).1 in
    elim (Bool-cases is_last) [
      | inl last ↦
          ap (λ u. marked m (pkt ∷ (fragments fuel p' header false u m).1))
            (last_part fu_payload_mtu body last).1
          ∙ unfold make_packet in lone_marker m is_last last
      | inr more ↦
          let (c, cs, left, size) = more_part fu_payload_mtu body more in
          marked-append m (pkt ∷ []) (fragments fuel p' header false (drop fu_payload_mtu body) m).1
            (unfold unmarked make_packet in inner_marker m is_last more)
            (ap (λ u. marked m (fragments fuel p' header false u m).1) left
              ∙ fragments-marked fuel p' header false c cs m (omega (arith, size, h)))
    ]

packetize_nal-marked :
    (p : H264Packetizer) (header : ℕ) (body : List ℕ) (m : Bool)
    → marked m (packetize_nal p (header ∷ body) m).1 ≡ true
unfolding packetize_nal
packetize_nal-marked p header [] true = unfold marked make_packet in refl
packetize_nal-marked p header [] false = unfold marked make_packet in refl
packetize_nal-marked p header (b ∷ bs) m =
    elim (Bool-cases (leb (length (header ∷ b ∷ bs)) rtp_mtu)) [
      | inl fits ↦ rw fits (unfold marked make_packet in self_marker m)
      | inr long ↦ rw long (fragments-marked (length (b ∷ bs)) p header true b bs m (omega arith))
    ]

prepend-unmarked : (nal_type : ℕ) (p : H264Packetizer) → unmarked (prepend nal_type p).1 ≡ true
unfolding prepend
prepend-unmarked nal_type p = elim (Bool-cases (nal_type == h264_nal_idr)) [
  | inr other ↦ rw other (unfold unmarked in refl)
  | inl idr ↦ rw idr (
      unmarked-append _ _ (packetize_nal-unmarked p p.sps)
        (packetize_nal-unmarked (packetize_nal p p.sps false).0 p.pps))
]

cache_headers :
    (nal_type : ℕ) (nal : List ℕ) (p : H264Packetizer)
    → ((cache nal_type nal p).seq ≡ p.seq)
      × ((cache nal_type nal p).ssrc ≡ p.ssrc)
      × ((cache nal_type nal p).timestamp ≡ p.timestamp)
      × ((cache nal_type nal p).payload_type ≡ p.payload_type)
unfolding cache
cache_headers nal_type nal p = ground arith

-- The packets of a unit have the numbers from the packetizer's on, across the wrap, no payload over the
-- limit, the packetizer's stream, type and time; the last one, and no other, has the marker if the unit is the
-- last of its picture. The next unit's numbers follow.
pub packetize-IsStream :
    (p : H264Packetizer) (header : ℕ) (body : List ℕ) (is_last_of_au : Bool)
    → p.seq < 65536
    → let (p', out) = packetize_with_marker p (header ∷ body) is_last_of_au in
      IsStream p p' out × (marked is_last_of_au out ≡ true)
unfolding packetize_with_marker
packetize-IsStream p header body is_last_of_au s =
    let p₀ = cache (header % 32) (header ∷ body) p in
    let p₁ = (prepend (header % 32) p₀).0 in
    let (a, b, c, d) = cache_headers (header % 32) (header ∷ body) p in
    let f = prepend-IsStream (header % 32) p₀ (omega (arith, a, s)) in
    let g =
      packetize_nal-IsStream p₁ (header ∷ body) is_last_of_au (f.next (omega (arith, a, s))).1 in
    let both = IsStream-append p₀ p₁ _ _ _ (omega (arith, a, s)) f g in
    (
      record {
        follow = Follow-number p p₀.seq p.seq _ a (Follow-same p p₀ p₀.seq _ (b, c, d) both.follow);
        next = λ h. omega (arith, a, both.next (omega (arith, a, s)));
        same = (both.same.0 ∙ b, both.same.1 ∙ c, both.same.2 ∙ d);
      },
      marked-append is_last_of_au (prepend (header % 32) p₀).1
          (packetize_nal p₁ (header ∷ body) is_last_of_au).1 (prepend-unmarked (header % 32) p₀)
          (packetize_nal-marked p₁ header body is_last_of_au),
    )
