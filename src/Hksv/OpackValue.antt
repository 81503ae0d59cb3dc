-- ===== src/Hksv/OpackValue.antt =====
-- The values of the messages of the data stream, internal/hksv/opack.go (`any` there). A float is its bits.
-- A map has its keys in order, none twice.
use openqiara.Prelude.{
  ℕ, suc, ◌≡◌, ◌<◌, Bool, true, false, ◌&&◌, ◌||◌, List, [], ◌∷◌, ltb, ◌==◌, length, if◌then◌else◌,
}
use openqiara.Radio.Types.{ℤ, pos, negsuc}

mutual
  pub data Value : Type 0 where
    null : Value
    bool : Bool → Value
    int : ℤ → Value
    float : ℕ → Value
    text : List ℕ → Value
    raw : List ℕ → Value
    array : Values → Value
    dict : Fields → Value

  pub data Values : Type 0 where
    nil : Values
    cons : Value → Values → Values

  pub data Fields : Type 0 where
    end : Fields
    field : List ℕ → Value → Fields → Fields

abbrev pub count : Values → ℕ
count nil = 0
count (cons v vs) = suc (count vs)

abbrev pub count_fields : Fields → ℕ
count_fields end = 0
count_fields (field k v fs) = suc (count_fields fs)

-- The order of strings.
abbrev pub text_lt : List ℕ → List ℕ → Bool
text_lt [] [] = false
text_lt [] (d ∷ ds) = true
text_lt (c ∷ cs) [] = false
text_lt (c ∷ cs) (d ∷ ds) = ltb c d || (c == d && text_lt cs ds)

abbrev pub text_eq : List ℕ → List ℕ → Bool
text_eq [] [] = true
text_eq [] (d ∷ ds) = false
text_eq (c ∷ cs) [] = false
text_eq (c ∷ cs) (d ∷ ds) = c == d && text_eq cs ds

-- `m[k] = v`
unfoldable pub put : List ℕ → Value → Fields → Fields
put k v end = field k v end
put k v (field l w fs) =
    let rest = put k v fs in
    if text_lt l k
    then field l w rest
    else if text_eq l k
    then field k v fs
    else field k v (field l w fs)

-- A key is after those of a map.
abbrev pub IsAfter : Fields → List ℕ → Type 0
IsAfter end k = Unit
IsAfter (field l w fs) k = (text_lt l k ≡ true) × IsAfter fs k

-- What a Go value of these types is: an int64, 64 bits of a float, lengths that the encoding can say, a map.
abbrev pub IsInt64 : ℤ → Type 0
IsInt64 (pos n) = n < 9_223_372_036_854_775_808
IsInt64 (negsuc n) = n < 9_223_372_036_854_775_808

abbrev pub append_fields : Fields → Fields → Fields
append_fields end gs = gs
append_fields (field k v fs) gs = field k v (append_fields fs gs)

abbrev mutual
  pub IsValue : Value → Type 0
  IsValue null = Unit
  IsValue (bool b) = Unit
  IsValue (int n) = IsInt64 n
  IsValue (float bits) = bits < 18_446_744_073_709_551_616
  IsValue (text cs) = length cs < 4_294_967_296
  IsValue (raw bs) = length bs < 4_294_967_296
  IsValue (array vs) = IsValues vs
  IsValue (dict fs) = IsFields end fs

  pub IsValues : Values → Type 0
  IsValues nil = Unit
  IsValues (cons v vs) = IsValue v × IsValues vs

  pub IsFields : Fields → Fields → Type 0
  IsFields before end = Unit
  IsFields before (field k v fs) =
      (length k < 4_294_967_296)
      × IsAfter before k
      × IsValue v
      × IsFields (append_fields before (field k v end)) fs
