-- ===== src/Hksv/Opack.antt =====
-- The encoding of the messages of the data stream, internal/hksv/opack.go. An error is `none`.
use openqiara.Prelude.{
  ℕ, zero, suc, ◌+◌, ◌-◌, ◌*◌, true, false, ◌&&◌, ◌||◌, Option, none, some, List, [], ◌∷◌, ◌++◌,
  ltb, leb, ◌==◌, length, get_elem?, take, drop, if◌then◌else◌, le16, le32, le64,
}
use openqiara.Radio.Types.{ℤ, pos, negsuc}
use openqiara.Hksv.OpackValue.{
  Value, null, bool, int, float, text, raw, array, dict, Values, nil, cons, Fields, end, field,
  count, count_fields, put,
}

abbrev pub two64 : ℕ
two64 = 18_446_744_073_709_551_616

-- Two's complement: -(n + 1) is written as `2 ^ w - 1 - n`.
unfoldable pub encode_int : ℤ → List ℕ
encode_int (pos n) =
    if leb n 39
    then (8 + n) ∷ []
    else if leb n 127
    then 0x30 ∷ n ∷ []
    else if leb n 32_767
    then 0x31 ∷ le16 n
    else if leb n 2_147_483_647
    then 0x32 ∷ le32 n
    else 0x33 ∷ le64 n
encode_int (negsuc n) =
    if n == 0
    then 7 ∷ []
    else if leb n 127
    then 0x30 ∷ (255 - n) ∷ []
    else if leb n 32_767
    then 0x31 ∷ le16 (65_535 - n)
    else if leb n 2_147_483_647
    then 0x32 ∷ le32 (4_294_967_295 - n)
    else 0x33 ∷ le64 (18_446_744_073_709_551_615 - n)

-- The tag and the length that come before a string or data.
unfoldable pub encode_length : ℕ → ℕ → ℕ → List ℕ
encode_length n inline long =
    if leb n 32
    then (inline + n) ∷ []
    else if leb n 255
    then long ∷ n ∷ []
    else if leb n 65_535
    then (long + 1) ∷ le16 n
    else (long + 2) ∷ le32 n

unfoldable pub encode_bytes : List ℕ → ℕ → ℕ → List ℕ
unfolding encode_length
encode_bytes v inline long = encode_length (length v) inline long ++ v

abbrev pub open_array : ℕ → List ℕ
open_array n = (if leb n 12 then 0xd0 + n else 0xdf) ∷ []

abbrev pub close_array : ℕ → List ℕ
close_array n = if ltb 12 n then 3 ∷ [] else []

abbrev pub open_dict : ℕ → List ℕ
open_dict n = (if leb n 14 then 0xe0 + n else 0xef) ∷ []

abbrev pub close_dict : ℕ → List ℕ
close_dict n = if ltb 14 n then 3 ∷ [] else []

unfoldable mutual
  unfolding encode_int encode_bytes

  pub encode_value : Value → List ℕ
  encode_value null = 4 ∷ []
  encode_value (bool b) = (if b then 1 else 2) ∷ []
  encode_value (int n) = encode_int n
  encode_value (float bits) = 0x36 ∷ le64 bits
  encode_value (text cs) = encode_bytes cs 0x40 0x61
  encode_value (raw bs) = encode_bytes bs 0x70 0x91
  encode_value (array vs) = open_array (count vs) ++ (encode_values vs ++ close_array (count vs))
  encode_value (dict fs) =
      open_dict (count_fields fs) ++ (encode_fields fs ++ close_dict (count_fields fs))

  pub encode_values : Values → List ℕ
  encode_values nil = []
  encode_values (cons v vs) = encode_value v ++ encode_values vs

  pub encode_fields : Fields → List ℕ
  encode_fields end = []
  encode_fields (field k v fs) = encode_bytes k 0x40 0x61 ++ (encode_value v ++ encode_fields fs)

-- What a tag says is to come. `size` of a length or an integer is the power of two of its bytes.
pub data Tag : Type 0 where
  one : Value → Tag
  nothing uuid bits32 bits64 : Tag
  integer : ℕ → Tag
  short_text short_raw long_text long_raw back : ℕ → Tag
  elements entries : Option ℕ → Tag
  unknown : Tag

unfoldable pub tag_of : ℕ → Tag
tag_of tag =
    if tag == 1
    then one (bool true)
    else if tag == 2
    then one (bool false)
    else if tag == 4
    then nothing
    else if tag == 5
    then uuid
    else if tag == 6 || tag == 0x36
    then bits64
    else if tag == 0x35
    then bits32
    else if tag == 7
    then one (int (negsuc 0))
    else if leb 8 tag && leb tag 0x2f
    then one (int (pos (tag - 8)))
    else if leb 0x30 tag && leb tag 0x33
    then integer (tag - 0x30)
    else if leb 0x40 tag && leb tag 0x60
    then short_text (tag - 0x40)
    else if leb 0x61 tag && leb tag 0x64
    then long_text (tag - 0x61)
    else if leb 0x70 tag && leb tag 0x90
    then short_raw (tag - 0x70)
    else if leb 0x91 tag && leb tag 0x94
    then long_raw (tag - 0x91)
    else if leb 0xa0 tag && leb tag 0xcf
    then back (tag - 0xa0)
    else if leb 0xd0 tag && leb tag 0xdf
    then elements (if tag == 0xdf then none else some (tag - 0xd0))
    else if leb 0xe0 tag && leb tag 0xef
    then entries (if tag == 0xef then none else some (tag - 0xe0))
    else unknown

-- The bytes left and the primitives seen.
pub record Decoder : Type 0 where
  pub b : List ℕ
  pub tracked : List Value

abbrev pub Result : Type 0 → Type 0
Result A = Option (A × Decoder)

unfoldable pub take_bytes : ℕ → Decoder → Result (List ℕ)
take_bytes n d = if ltb (length d.b) n then none else some (take n d.b, record d { b = drop n d.b })

abbrev pub track : Value → Decoder → Result Value
track v d = some (v, record d { tracked = d.tracked ++ (v ∷ []) })

unfoldable pub of_le : List ℕ → ℕ
of_le [] = 0
of_le (b ∷ bs) = b + 256 * of_le bs

abbrev pub size_bytes : ℕ → ℕ
size_bytes size = if size == 0 then 1 else if size == 1 then 2 else if size == 2 then 4 else 8

-- The conversions of an integer of some bytes, as two's complement.
abbrev pub signed : ℕ → ℕ → ℤ
signed size x =
    let m =
      if size == 0
      then 128
      else if size == 1
      then 32_768
      else if size == 2
      then 2_147_483_648
      else 9_223_372_036_854_775_808 in
    if ltb x m then pos x else negsuc (m + m - 1 - x)

unfoldable pub length_prefixed : ℕ → Decoder → Result (List ℕ)
unfolding take_bytes of_le
length_prefixed size d = elim (take_bytes (size_bytes size) d) [
  | none ↦ none
  | some (l, d') ↦ if ltb (length d'.b) (of_le l) then none else take_bytes (of_le l) d'
]

-- What `i < n` or the end mark says: `some` of what is left when the loop is over.
unfoldable pub loop_end : Option ℕ → List ℕ → Option (List ℕ)
loop_end (some zero) b = some b
loop_end (some (suc n)) b = none
loop_end none [] = none
loop_end none (c ∷ b) = if c == 3 then some b else none

abbrev pub less : Option ℕ → Option ℕ
less none = none
less (some n) = some (n - 1)

module _ (value : Decoder → Result Value) where
  -- The loop of an array; each round takes a byte at least, so the bytes are fuel enough.
  unfoldable pub array_loop : ℕ → Option ℕ → Decoder → Result Values
  unfolding loop_end
  array_loop zero more d = none
  array_loop (suc fuel) more d = elim (loop_end more d.b) [
    | some b ↦ some (nil, record d { b = b })
    | none ↦ elim (value d) [
      | none ↦ none
      | some (v, d') ↦ elim (array_loop fuel (less more) d') [
        | none ↦ none
        | some (vs, d'') ↦ some (cons v vs, d'')
      ]
    ]
  ]

  unfoldable pub dict_loop : ℕ → Option ℕ → Fields → Decoder → Result Fields
  unfolding loop_end put
  dict_loop zero more m d = none
  dict_loop (suc fuel) more m d = elim (loop_end more d.b) [
    | some b ↦ some (m, record d { b = b })
    | none ↦ elim (value d) [
      | none ↦ none
      | some (k, d') ↦ elim k [
        | text ks ↦ elim (value d') [
          | none ↦ none
          | some (v, d'') ↦ dict_loop fuel (less more) (put ks v m) d''
        ]
        | _ ↦ none
      ]
    ]
  ]

abbrev pub tracked_bytes : (List ℕ → Value) → Result (List ℕ) → Result Value
tracked_bytes make none = none
tracked_bytes make (some (l, d)) = track (make l) d

abbrev pub array_of : Result Values → Result Value
array_of none = none
array_of (some (vs, d)) = some (array vs, d)

abbrev pub dict_of : Result Fields → Result Value
dict_of none = none
dict_of (some (fs, d)) = some (dict fs, d)

-- `widen` is the conversion of a 32-bit float to a 64-bit one.
module _ (widen : ℕ → ℕ) where
  -- The switch of `value`, with the call of itself as an argument.
  unfoldable pub read : (Decoder → Result Value) → Tag → Decoder → Result Value
  unfolding length_prefixed take_bytes array_loop dict_loop of_le
  read value (one v) d = track v d
  read value nothing d = some (null, d)
  read value uuid d = tracked_bytes raw (take_bytes 16 d)
  read value bits32 d = tracked_bytes (λ l. float (widen (of_le l))) (take_bytes 4 d)
  read value bits64 d = tracked_bytes (λ l. float (of_le l)) (take_bytes 8 d)
  read value (integer size) d =
      tracked_bytes (λ l. int (signed size (of_le l))) (take_bytes (size_bytes size) d)
  read value (short_text n) d = tracked_bytes text (take_bytes n d)
  read value (short_raw n) d = tracked_bytes raw (take_bytes n d)
  read value (long_text size) d = tracked_bytes text (length_prefixed size d)
  read value (long_raw size) d = tracked_bytes raw (length_prefixed size d)
  read value (back i) d = elim (get_elem? d.tracked i) [ none ↦ none | some v ↦ some (v, d) ]
  read value (elements n) d = array_of (array_loop value (suc (length d.b)) n d)
  read value (entries n) d = dict_of (dict_loop value (suc (length d.b)) n end d)
  read value unknown d = none

  -- The fuel is how deep the values go.
  unfoldable pub value : ℕ → Decoder → Result Value
  unfolding read tag_of
  value zero d = none
  value (suc fuel) d = elim d.b [
    | [] ↦ none
    | t ∷ b ↦ read (value fuel) (tag_of t) (record d { b = b })
  ]

  unfoldable pub decode_dict : List ℕ → Option (Fields × List ℕ)
  unfolding value
  decode_dict b = elim (value (length b) (record { b = b; tracked = [] })) [
    | none ↦ none
    | some (v, d) ↦ elim v [ dict fs ↦ some (fs, d.b) | _ ↦ none ]
  ]
