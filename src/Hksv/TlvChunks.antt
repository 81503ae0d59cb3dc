-- ===== src/Hksv/TlvChunks.antt =====
-- The chunks of a TLV8 value are read back as one value (internal/hksv/tlv.go `encode`, `decode`).
use openqiara.Prelude.{
  take-length, drop-length, take-append-drop, ℕ, zero, suc, ◌+◌, ◌*◌, ◌%◌, ◌≤◌, ◌<◌, ◌≡◌, ◌⊎◌,
  false, List, [], ◌∷◌, ◌++◌, ltb, ◌==◌, length, if◌then◌else◌, ap, take, drop, arith, refl, sym,
  length-append, inl, inr, Bool-cases, ◌∙◌,
}
use openqiara.Hksv.Tlv.{Item, chunk_size, chunk, encode_loop, join, decode_loop}
use mathlib.Core.List.{append_assoc, append-nil}

take-all : (n : ℕ) (xs : List ℕ) → drop n xs ≡ [] → take n xs ≡ xs
take-all zero xs h = ground arith
take-all (suc n) [] h = refl
take-all (suc n) (x ∷ xs) h = ground (arith, take-all n xs h)

length-chunk : (v : List ℕ) (n : ℕ) → n ≤ length v → length (take n v) ≡ n
length-chunk v zero h = ground arith
length-chunk [] (suc n) h = ground arith
length-chunk (x ∷ v) (suc n) h = ground (arith, length-chunk v n)

length-drop : (v : List ℕ) (n : ℕ) → n ≤ length v → length (drop n v) + n ≡ length v
length-drop v zero h = ground arith
length-drop [] (suc n) h = ground arith
length-drop (x ∷ v) (suc n) h = ground (arith, length-drop v n)

decode_read :
    (fuel t : ℕ) (xs rest : List ℕ) (items : List Item)
    → decode_loop (suc fuel) (t ∷ length xs ∷ (xs ++ rest)) items
      ≡ decode_loop fuel rest (join t xs items)
unfolding decode_loop
decode_read fuel t xs rest items =
    ground (arith, length-append xs rest, take-length xs rest, drop-length xs rest)

chunk_size-length : (v : List ℕ) → (chunk_size v % 256 ≡ length (take (chunk_size v) v))
chunk_size-length v = ground (arith, length-chunk v (chunk_size v))

decode_chunk :
    (fuel t : ℕ) (v rest : List ℕ) (items : List Item)
    → decode_loop (suc fuel) (chunk t v ++ rest) items
      ≡ decode_loop fuel rest (join t (take (chunk_size v) v) items)
decode_chunk fuel t v rest items =
    rw (chunk_size-length v) (decode_read fuel t (take (chunk_size v) v) rest items)

-- The number of chunks of a value.
unfoldable pub rounds : ℕ → List ℕ → ℕ
rounds zero v = 1
rounds (suc fuel) v =
    let more = rounds fuel (drop (chunk_size v) v) in
    if length (drop (chunk_size v) v) == 0 then 1 else suc more

join_more :
    (t : ℕ) (p v : List ℕ) (items : List Item)
    → ((t == 0) ≡ false)
    → length p % 255 ≡ 0
    → 0 < length p
    → join t v (record { t = t; v = p } ∷ items) ≡ record { t = t; v = p ++ v } ∷ items
unfolding join
join_more t p v items a b c = ground arith

chunk_size-last : (v : List ℕ) → length v ≤ 255 → chunk_size v ≡ length v
chunk_size-last v h = ground arith

chunk_size-more : (v : List ℕ) → 255 < length v → chunk_size v ≡ 255
chunk_size-more v h = ground arith

drop-length_all : (v : List ℕ) → drop (length v) v ≡ []
drop-length_all v = ap (drop (length v)) (sym (append-nil v)) ∙ drop-length v []

last_chunk :
    (f t : ℕ) (v : List ℕ)
    → length v ≤ 255
    → (encode_loop f t v ≡ chunk t v) × (rounds f v ≡ 1) × (take (chunk_size v) v ≡ v)
unfolding encode_loop rounds
last_chunk zero t v h =
    (refl, refl, rw (chunk_size-last v h) (take-all (length v) v (drop-length_all v)))
last_chunk (suc f) t v h =
    let none_left = ap length (ap (λ n. drop n v) (chunk_size-last v h) ∙ drop-length_all v) in
    (
      ground (arith, none_left),
      ground (arith, none_left),
      rw (chunk_size-last v h) (take-all (length v) v (drop-length_all v)),
    )

more_chunks :
    (f t : ℕ) (v : List ℕ)
    → 255 < length v
    → (encode_loop (suc f) t v ≡ chunk t v ++ encode_loop f t (drop (chunk_size v) v))
      × (rounds (suc f) v ≡ suc (rounds f (drop (chunk_size v) v)))
      × (length (take (chunk_size v) v) ≡ 255)
      × (length (drop (chunk_size v) v) + 255 ≡ length v)
unfolding encode_loop rounds
more_chunks f t v h =
    let size = chunk_size-more v h in
    let left = length-drop v (chunk_size v) (rw size (ground arith)) in
    (
      ground (arith, size, left),
      ground (arith, size, left),
      length-chunk v (chunk_size v) (rw size (ground arith)) ∙ size,
      ground (arith, size, left),
    )

suc_add : (a b : ℕ) → suc a + b ≡ suc (a + b)
suc_add a b = omega arith

-- A value of one chunk.
decode_last :
    (f fuel t : ℕ) (v rest : List ℕ) (items : List Item)
    → length v ≤ 255
    → decode_loop (rounds f v + fuel) (encode_loop f t v ++ rest) items
      ≡ decode_loop fuel rest (join t v items)
decode_last f fuel t v rest items l =
    let (e, r, w) = last_chunk f t v l in
    ap (λ n. decode_loop (n + fuel) (encode_loop f t v ++ rest) items) r
    ∙ ap (λ n. decode_loop n (encode_loop f t v ++ rest) items) (omega arith)
    ∙ ap (λ bs. decode_loop (suc fuel) (bs ++ rest) items) e
    ∙ decode_chunk fuel t v rest items
    ∙ ap (λ u. decode_loop fuel rest (join t u items)) w

-- A chunk that is not a value's last.
decode_more :
    (f fuel t : ℕ) (v rest : List ℕ) (items : List Item)
    → 255 < length v
    → decode_loop (rounds (suc f) v + fuel) (encode_loop (suc f) t v ++ rest) items
      ≡ decode_loop
          (rounds f (drop (chunk_size v) v) + fuel)
          (encode_loop f t (drop (chunk_size v) v) ++ rest)
          (join t (take (chunk_size v) v) items)
decode_more f fuel t v rest items h =
    let (e, r, k, d) = more_chunks f t v h in
    let left = drop (chunk_size v) v in
    ap (λ n. decode_loop (n + fuel) (encode_loop (suc f) t v ++ rest) items) r
    ∙ ap (λ bs. decode_loop (suc (rounds f left) + fuel) (bs ++ rest) items) e
    ∙ ap (λ bs. decode_loop (suc (rounds f left) + fuel) bs items)
        (append_assoc (chunk t v) (encode_loop f t left) rest)
    ∙ ap (λ n. decode_loop n (chunk t v ++ (encode_loop f t left ++ rest)) items)
        (suc_add (rounds f left) fuel)
    ∙ decode_chunk (rounds f left + fuel) t v (encode_loop f t left ++ rest) items

decode_rest :
    (f fuel t : ℕ) (v p rest : List ℕ) (items : List Item)
    → length v ≤ 255 * suc f
    → ((t == 0) ≡ false)
    → length p % 255 ≡ 0
    → 0 < length p
    → decode_loop (rounds f v + fuel) (encode_loop f t v ++ rest) (record { t = t; v = p } ∷ items)
      ≡ decode_loop fuel rest (record { t = t; v = p ++ v } ∷ items)
decode_rest zero fuel t v p rest items l a b c =
    decode_last zero fuel t v rest (record { t = t; v = p } ∷ items) (omega (arith, l))
    ∙ ap (decode_loop fuel rest) (join_more t p v items a b c)
decode_rest (suc f) fuel t v p rest items l a b c = elim (Bool-cases (ltb 255 (length v))) [
  | inr few ↦
      decode_last (suc f) fuel t v rest (record { t = t; v = p } ∷ items) (ground arith)
      ∙ ap (decode_loop fuel rest) (join_more t p v items a b c)
  | inl long ↦
      let (e, r, k, d) = more_chunks f t v (ground arith) in
      let left = drop (chunk_size v) v in
      let now = take (chunk_size v) v in
      let grown = length-append p now in
      decode_more f fuel t v rest (record { t = t; v = p } ∷ items) (ground arith)
      ∙ ap (decode_loop (rounds f left + fuel) (encode_loop f t left ++ rest))
          (join_more t p now items a b c)
      ∙ decode_rest f fuel t left (p ++ now) rest items (omega (arith, d, l)) a
          (omega (arith, grown, k, b)) (omega (arith, grown, k))
      ∙ ap (λ u. decode_loop fuel rest (record { t = t; v = u } ∷ items))
          (append_assoc p now left ∙ ap (λ u. p ++ u) (take-append-drop (chunk_size v) v))
]

-- A value that does not go on with the item before it.
pub decode_value :
    (f fuel t : ℕ) (v rest : List ℕ) (items : List Item)
    → length v ≤ f
    → ((t == 0) ≡ false) ⊎ (length v ≤ 255)
    → ((u : List ℕ) → join t u items ≡ record { t = t; v = u } ∷ items)
    → decode_loop (rounds f v + fuel) (encode_loop f t v ++ rest) items
      ≡ decode_loop fuel rest (record { t = t; v = v } ∷ items)
decode_value f fuel t v rest items l (inr few) fresh =
    decode_last f fuel t v rest items few ∙ ap (decode_loop fuel rest) (fresh v)
decode_value zero fuel t v rest items l (inl a) fresh =
    decode_last zero fuel t v rest items (omega (arith, l)) ∙ ap (decode_loop fuel rest) (fresh v)
decode_value (suc f) fuel t v rest items l (inl a) fresh = elim (Bool-cases (ltb 255 (length v))) [
  | inr few ↦
      decode_last (suc f) fuel t v rest items (ground arith) ∙ ap (decode_loop fuel rest) (fresh v)
  | inl long ↦
      let (e, r, k, d) = more_chunks f t v (ground arith) in
      let left = drop (chunk_size v) v in
      let now = take (chunk_size v) v in
      decode_more f fuel t v rest items (ground arith)
      ∙ ap (decode_loop (rounds f left + fuel) (encode_loop f t left ++ rest)) (fresh now)
      ∙ decode_rest f fuel t left now rest items (omega (arith, d, l)) a (omega (arith, k))
          (omega (arith, k))
      ∙ ap (λ u. decode_loop fuel rest (record { t = t; v = u } ∷ items))
          (take-append-drop (chunk_size v) v)
]
