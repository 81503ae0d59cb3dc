-- ===== src/Hksv/Tlv.antt =====
-- TLV8, internal/hksv/tlv.go. The decoder's items stand newest first until it returns them.
use openqiara.Prelude.{
  ℕ, zero, suc, ◌%◌, Bool, ◌&&◌, not, Option, none, some, List, [], ◌∷◌, ◌++◌, ltb, ◌==◌, length,
  take, drop, if◌then◌else◌,
}

pub record Item : Type 0 where
  pub t : ℕ
  pub v : List ℕ

-- `min(len(v), 255)`
abbrev pub chunk_size : List ℕ → ℕ
chunk_size v = if ltb (length v) 255 then length v else 255

abbrev pub chunk : ℕ → List ℕ → List ℕ
chunk t v = t ∷ chunk_size v % 256 ∷ take (chunk_size v) v

-- The inner loop of `encode`. `fuel` is the value's length: a round with one after it takes 255 bytes.
unfoldable pub encode_loop : ℕ → ℕ → List ℕ → List ℕ
encode_loop zero t v = chunk t v
encode_loop (suc fuel) t v =
    let rest = drop (chunk_size v) v in
    let more = encode_loop fuel t rest in if length rest == 0 then chunk t v else chunk t v ++ more

unfoldable pub encode : List Item → List ℕ
encode [] = []
encode (i ∷ is) = encode_loop (length i.v) i.t i.v ++ encode is

-- A chunk goes on with the item before it.
abbrev pub joins : Item → ℕ → Bool
joins i t = i.t == t && not (t == 0) && length i.v % 255 == 0 && ltb 0 (length i.v)

unfoldable pub join : ℕ → List ℕ → List Item → List Item
join t v [] = record { t = t; v = v } ∷ []
join t v (i ∷ is) =
    if joins i t then record i { v = i.v ++ v } ∷ is else record { t = t; v = v } ∷ i ∷ is

-- `fuel` is the length of the bytes: each round takes two at least. `none` is the error.
unfoldable pub decode_loop : ℕ → List ℕ → List Item → Option (List Item)
unfolding join
decode_loop fuel [] items = some items
decode_loop fuel (t ∷ []) items = none
decode_loop zero (t ∷ n ∷ b) items = none
decode_loop (suc fuel) (t ∷ n ∷ b) items =
    let rest = decode_loop fuel (drop n b) (join t (take n b) items) in
    if ltb (length b) n then none else rest

abbrev pub rev_onto : List Item → List Item → List Item
rev_onto [] acc = acc
rev_onto (i ∷ is) acc = rev_onto is (i ∷ acc)

unfoldable pub decode : List ℕ → Option (List Item)
unfolding decode_loop
decode b = elim (decode_loop (length b) b []) [
  | none ↦ none
  | some items ↦ some (rev_onto items [])
]

unfoldable pub list : ℕ → List (List ℕ) → List Item
list t [] = []
list t (v ∷ []) = record { t = t; v = v } ∷ []
list t (v ∷ w ∷ vs) = record { t = t; v = v } ∷ record { t = 0; v = [] } ∷ list t (w ∷ vs)
