-- ===== src/Hksv/TlvRoundTrip.antt =====
-- TLV8 items are read back as they were written (internal/hksv/tlv.go `encode`, `decode`).
use openqiara.Prelude.{
  ℕ, zero, suc, ◌+◌, ◌≤◌, ◌≡◌, ◌⊎◌, ◌-◌, ◌&&◌, ◌||◌, not, leb, Bool, true, false, Option, none,
  some, List, [], ◌∷◌, ◌++◌, ◌==◌, length, ap, drop, arith, refl, length-append, ◌∙◌,
}
use openqiara.Hksv.Tlv.{
  Item, chunk_size, chunk, encode_loop, encode, joins, join, decode_loop, rev_onto, decode, list,
}
use mathlib.Core.List.{append-nil}
use openqiara.Hksv.TlvChunks.{rounds, decode_value}

-- The item of type 0 is in one chunk, and none goes on with the one before it.
abbrev fits : Item → Bool
fits i = not (i.t == 0) || leb (length i.v) 255

unfoldable pub tells : Option Item → List Item → Bool
tells before [] = true
tells none (i ∷ is) = fits i && tells (some i) is
tells (some j) (i ∷ is) = fits i && not (joins j i.t) && tells (some i) is

abbrev newest : List Item → Option Item
newest [] = none
newest (i ∷ is) = some i

all_rounds : List Item → ℕ
all_rounds [] = 0
all_rounds (i ∷ is) = rounds (length i.v) i.v + all_rounds is

tells-join :
    (i : Item) (is items : List Item)
    → tells (newest items) (i ∷ is) ≡ true
    → ((u : List ℕ) → join i.t u items ≡ record { t = i.t; v = u } ∷ items)
      × (tells (some i) is ≡ true)
      × (((i.t == 0) ≡ false) ⊎ (length i.v ≤ 255))
unfolding tells join
tells-join i is [] h = (λ u. refl, ground arith, ground arith)
tells-join i is (j ∷ items) h = (λ u. ground arith, ground arith, ground arith)

decode_items :
    (is : List Item) (fuel : ℕ) (items : List Item)
    → tells (newest items) is ≡ true
    → decode_loop (all_rounds is + fuel) (encode is) items ≡ some (rev_onto is items)
unfolding all_rounds encode
decode_items [] fuel items h = unfold decode_loop in refl
decode_items (i ∷ is) fuel items h =
    let (fresh, apart, fit) = tells-join i is items h in
    ap (λ n. decode_loop n (encode_loop (length i.v) i.t i.v ++ encode is) items) (omega arith)
    ∙ decode_value (length i.v) (all_rounds is + fuel) i.t i.v (encode is) items (omega arith) fit
        fresh
    ∙ decode_items is fuel (i ∷ items) apart

rounds-length : (f t : ℕ) (v : List ℕ) → rounds f v ≤ length (encode_loop f t v)
unfolding rounds encode_loop
rounds-length zero t v = ground arith
rounds-length (suc f) t v = ground (
  arith,
  rounds-length f t (drop (chunk_size v) v),
  length-append (chunk t v) (encode_loop f t (drop (chunk_size v) v)),
)

all_rounds-length : (is : List Item) → all_rounds is ≤ length (encode is)
unfolding all_rounds encode
all_rounds-length [] = ground arith
all_rounds-length (i ∷ is) = ground (
  arith,
  rounds-length (length i.v) i.t i.v,
  all_rounds-length is,
  length-append (encode_loop (length i.v) i.t i.v) (encode is),
)

rev_onto-rev_onto :
    (is acc front : List Item) → rev_onto (rev_onto is acc) front ≡ rev_onto acc (is ++ front)
rev_onto-rev_onto [] acc front = refl
rev_onto-rev_onto (i ∷ is) acc front = rev_onto-rev_onto is (i ∷ acc) front

decode_loop-encode :
    (is : List Item)
    → tells none is ≡ true
    → decode_loop (length (encode is)) (encode is) [] ≡ some (rev_onto is [])
decode_loop-encode is h =
    let fuel = length (encode is) - all_rounds is in
    ap (λ n. decode_loop n (encode is) []) (omega (arith, all_rounds-length is))
    ∙ decode_items is fuel [] h

-- Items are read back as they were written, values of more than 255 bytes included, if none of
-- type 0 has more than 255 bytes and none has the type of an item just before it that a decoder would
-- go on with: one of that type, not 0, with a positive multiple of 255 bytes.
pub decode-encode : (is : List Item) → tells none is ≡ true → decode (encode is) ≡ some is
unfolding decode
decode-encode is h =
    rw (decode, decode_loop-encode is h) (ap some (rev_onto-rev_onto is [] [] ∙ append-nil is))

tells-list :
    (t : ℕ) (vs : List (List ℕ)) (before : Item)
    → ((t == 0) ≡ false)
    → before.t ≡ 0
    → (tells none (list t vs) ≡ true) × (tells (some before) (list t vs) ≡ true)
unfolding tells list
tells-list t [] before h b = (refl, refl)
tells-list t (v ∷ []) before h b = (ground arith, ground arith)
tells-list t (v ∷ w ∷ vs) before h b =
    let next = tells-list t (w ∷ vs) (record { t = 0; v = [] }) h refl in
    (ground (arith, next), ground (arith, next))

-- The values of a list of a type other than 0, of any length, are read back as they were written,
-- separators included.
decode-encode-list :
    (t : ℕ) (vs : List (List ℕ))
    → ((t == 0) ≡ false)
    → decode (encode (list t vs)) ≡ some (list t vs)
decode-encode-list t vs h =
    decode-encode (list t vs) ((tells-list t vs (record { t = 0; v = [] }) h refl).0)
