-- ===== src/Hksv/OpackShape.antt =====
-- The sizes of the data stream messages and the bytes they begin with (internal/hksv/opack.go).
use openqiara.Prelude.{
  ℕ, suc, ◌+◌, ◌-◌, ◌≤◌, ◌<◌, ◌≡◌, Bool, true, false, Option, none, some, List, [], ◌∷◌, ◌++◌, leb,
  ◌==◌, length, if◌then◌else◌, le16, le32, le64, arith, refl, ap, length-append,
}
use openqiara.Radio.Types.{ℤ, pos, negsuc}
use openqiara.Hksv.OpackValue.{
  Value, null, bool, int, float, text, raw, array, dict, Values, nil, cons, Fields, end, field,
  count, count_fields, put, append_fields, IsAfter,
}
use openqiara.Hksv.Opack.{
  encode_int, encode_length, encode_bytes, close_array, close_dict, encode_value, encode_values,
  encode_fields, loop_end, less,
}

pub append_fields-end : (fs : Fields) → append_fields fs end ≡ fs
append_fields-end end = refl
append_fields-end (field k v fs) = ap (field k v) (append_fields-end fs)

pub append_fields_assoc :
    (fs gs hs : Fields)
    → append_fields (append_fields fs gs) hs ≡ append_fields fs (append_fields gs hs)
append_fields_assoc end gs hs = refl
append_fields_assoc (field k v fs) gs hs = ap (field k v) (append_fields_assoc fs gs hs)

-- The fuel that a value needs.
unfoldable mutual
  pub need : Value → ℕ
  need null = 1
  need (bool b) = 1
  need (int n) = 1
  need (float bits) = 1
  need (text cs) = 1
  need (raw bs) = 1
  need (array vs) = 1 + need_values vs
  need (dict fs) = 1 + need_fields fs

  pub need_values : Values → ℕ
  need_values nil = 0
  need_values (cons v vs) = need v + need_values vs

  pub need_fields : Fields → ℕ
  need_fields end = 0
  need_fields (field k v fs) = 1 + need v + need_fields fs

-- Bytes whose first one does not end a loop.
unfoldable pub IsGoing : List ℕ → Type 0
IsGoing [] = ⊥
IsGoing (b ∷ bs) = (b == 3) ≡ false

going : (b : ℕ) (bs : List ℕ) → 4 ≤ b → IsGoing (b ∷ bs)
unfolding IsGoing
going b bs l = ground arith

if-IsGoing : (c : Bool) (x y : List ℕ) → IsGoing x → IsGoing y → IsGoing (if c then x else y)
if-IsGoing true x y p q = p
if-IsGoing false x y p q = q

append-IsGoing : (x y : List ℕ) → IsGoing x → IsGoing (x ++ y)
unfolding IsGoing
append-IsGoing [] y h = absurd h
append-IsGoing (b ∷ x) y h = h

IsGoing-length : (x : List ℕ) → IsGoing x → 1 ≤ length x
unfolding IsGoing
IsGoing-length [] h = absurd h
IsGoing-length (b ∷ x) h = omega arith

pub encode_bytes-IsGoing : (v : List ℕ) (s t : ℕ) → 4 ≤ s → 4 ≤ t → IsGoing (encode_bytes v s t)
unfolding encode_bytes encode_length
encode_bytes-IsGoing v s t h k = append-IsGoing (encode_length (length v) s t) v (
    if-IsGoing (leb (length v) 32) ((s + length v) ∷ []) _ (going (s + length v) [] (omega arith)) (
      if-IsGoing (leb (length v) 255) (t ∷ length v ∷ []) _ (going t (length v ∷ []) k) (
        if-IsGoing (leb (length v) 65_535) ((t + 1) ∷ le16 (length v)) ((t + 2) ∷ le32 (length v))
          (going (t + 1) (le16 (length v)) (omega arith))
          (going (t + 2) (le32 (length v)) (omega arith)))))

encode_int-IsGoing : (n : ℤ) → IsGoing (encode_int n)
unfolding encode_int
encode_int-IsGoing (pos n) =
    if-IsGoing (leb n 39) ((8 + n) ∷ []) _ (going (8 + n) [] (omega arith)) (
      if-IsGoing (leb n 127) (0x30 ∷ n ∷ []) _ (going 0x30 (n ∷ []) (omega arith)) (
        if-IsGoing (leb n 32_767) (0x31 ∷ le16 n) _ (going 0x31 (le16 n) (omega arith)) (
          if-IsGoing (leb n 2_147_483_647) (0x32 ∷ le32 n) (0x33 ∷ le64 n)
            (going 0x32 (le32 n) (omega arith)) (going 0x33 (le64 n) (omega arith)))))
encode_int-IsGoing (negsuc n) = if-IsGoing (n == 0) (7 ∷ []) _ (going 7 [] (omega arith)) (
    if-IsGoing (leb n 127) (0x30 ∷ (255 - n) ∷ []) _ (going 0x30 ((255 - n) ∷ []) (omega arith)) (
      if-IsGoing (leb n 32_767) (0x31 ∷ le16 (65_535 - n)) _
        (going 0x31 (le16 (65_535 - n)) (omega arith))
        (if-IsGoing (leb n 2_147_483_647) (0x32 ∷ le32 (4_294_967_295 - n))
          (0x33 ∷ le64 (18_446_744_073_709_551_615 - n))
          (going 0x32 (le32 (4_294_967_295 - n)) (omega arith))
          (going 0x33 (le64 (18_446_744_073_709_551_615 - n)) (omega arith)))))

pub encode_value-IsGoing : (v : Value) → IsGoing (encode_value v)
unfolding IsGoing encode_value
encode_value-IsGoing null = refl
encode_value-IsGoing (bool true) = refl
encode_value-IsGoing (bool false) = refl
encode_value-IsGoing (int n) = encode_int-IsGoing n
encode_value-IsGoing (float bits) = refl
encode_value-IsGoing (text cs) = encode_bytes-IsGoing cs 0x40 0x61 (omega arith) (omega arith)
encode_value-IsGoing (raw bs) = encode_bytes-IsGoing bs 0x70 0x91 (omega arith) (omega arith)
encode_value-IsGoing (array vs) = ground arith
encode_value-IsGoing (dict fs) = ground arith

-- A value takes a byte at least, and as many as it needs fuel.
mutual
  unfolding need encode_value

  pub need-le : (v : Value) → need v ≤ length (encode_value v)
  need-le null = omega arith
  need-le (bool b) = omega arith
  need-le (int n) = IsGoing-length (encode_int n) (encode_int-IsGoing n)
  need-le (float bits) = omega arith
  need-le (text cs) =
      IsGoing-length (encode_bytes cs 0x40 0x61)
        (encode_bytes-IsGoing cs 0x40 0x61 (omega arith) (omega arith))
  need-le (raw bs) =
      IsGoing-length (encode_bytes bs 0x70 0x91)
        (encode_bytes-IsGoing bs 0x70 0x91 (omega arith) (omega arith))
  need-le (array vs) =
      omega (arith, need_values-le vs, length-append (encode_values vs) (close_array (count vs)))
  need-le (dict fs) =
      omega
        (arith, need_fields-le fs, length-append (encode_fields fs) (close_dict (count_fields fs)))

  need_values-le : (vs : Values) → need_values vs ≤ length (encode_values vs)
  need_values-le nil = omega arith
  need_values-le (cons v vs) =
      omega (arith, need-le v, need_values-le vs, length-append (encode_value v) (encode_values vs))

  need_fields-le : (fs : Fields) → need_fields fs ≤ length (encode_fields fs)
  need_fields-le end = omega arith
  need_fields-le (field k v fs) =
      let key =
        IsGoing-length (encode_bytes k 0x40 0x61)
          (encode_bytes-IsGoing k 0x40 0x61 (omega arith) (omega arith)) in
      let all : length (encode_fields (field k v fs))
          ≡ length (encode_bytes k 0x40 0x61) + length (encode_value v ++ encode_fields fs) =
        length-append (encode_bytes k 0x40 0x61) (encode_value v ++ encode_fields fs) in
      omega (
        arith,
        key,
        all,
        need-le v,
        need_fields-le fs,
        length-append (encode_value v) (encode_fields fs),
      )

mutual
  unfolding need

  pub count-le : (v : Value) → 1 ≤ need v
  count-le null = omega arith
  count-le (bool b) = omega arith
  count-le (int n) = omega arith
  count-le (float bits) = omega arith
  count-le (text cs) = omega arith
  count-le (raw bs) = omega arith
  count-le (array vs) = omega arith
  count-le (dict fs) = omega arith

  count_values-le : (vs : Values) → count vs ≤ need_values vs
  count_values-le nil = omega arith
  count_values-le (cons v vs) = omega (arith, count-le v, count_values-le vs)

  count_fields-le : (fs : Fields) → count_fields fs ≤ need_fields fs
  count_fields-le end = omega arith
  count_fields-le (field k v fs) = omega (arith, count_fields-le fs)

pub array_room :
    (vs : Values) (rest : List ℕ)
    → count vs < suc (length ((encode_values vs ++ close_array (count vs)) ++ rest))
array_room vs rest = omega (
  arith,
  count_values-le vs,
  need_values-le vs,
  length-append (encode_values vs) (close_array (count vs)),
  length-append (encode_values vs ++ close_array (count vs)) rest,
)

pub dict_room :
    (fs : Fields) (rest : List ℕ)
    → count_fields fs < suc (length ((encode_fields fs ++ close_dict (count_fields fs)) ++ rest))
dict_room fs rest = omega (
  arith,
  count_fields-le fs,
  need_fields-le fs,
  length-append (encode_fields fs) (close_dict (count_fields fs)),
  length-append (encode_fields fs ++ close_dict (count_fields fs)) rest,
)

-- A key goes at the end of the map it is after.
pub put-after :
    (k : List ℕ) (v : Value) (fs : Fields)
    → IsAfter fs k
    → put k v fs ≡ append_fields fs (field k v end)
unfolding put
put-after k v end h = refl
put-after k v (field l w fs) (lt, h) = rw (lt, put) (ap (field l w) (put-after k v fs h))

-- How a loop is opened and closed: with a count, or with an end mark.
unfoldable pub more_of : Bool → ℕ → Option ℕ
more_of b n = if b then some n else none

unfoldable pub close_of : Bool → List ℕ
close_of b = if b then [] else 3 ∷ []

pub loop_end-close :
    (b : Bool) (rest : List ℕ) → loop_end (more_of b 0) (close_of b ++ rest) ≡ some rest
unfolding loop_end more_of close_of
loop_end-close true rest = refl
loop_end-close false rest = refl

pub loop_end-going :
    (b : Bool) (n : ℕ) (x y : List ℕ) → IsGoing x → loop_end (more_of b (suc n)) (x ++ y) ≡ none
unfolding loop_end more_of IsGoing
loop_end-going b n [] y h = absurd h
loop_end-going true n (c ∷ x) y h = refl
loop_end-going false n (c ∷ x) y h = rw h refl

pub less-more : (b : Bool) (n : ℕ) → less (more_of b (suc n)) ≡ more_of b n
unfolding more_of
less-more true n = ap some (omega arith)
less-more false n = refl

pub close_array-close : (n : ℕ) → close_array n ≡ close_of (leb n 12)
unfolding close_of
close_array-close n = ground arith

pub close_dict-close : (n : ℕ) → close_dict n ≡ close_of (leb n 14)
unfolding close_of
close_dict-close n = ground arith
