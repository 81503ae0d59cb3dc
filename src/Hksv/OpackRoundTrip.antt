-- ===== src/Hksv/OpackRoundTrip.antt =====
-- The messages of the data stream are read as they are written (internal/hksv/opack.go).
use openqiara.Prelude.{
  ℕ, zero, suc, ◌≤◌, ◌<◌, ◌≡◌, Bool, some, List, [], ◌∷◌, ◌++◌, leb, length, arith, refl, sym, ap,
  ◌∙◌, length-append,
}
use openqiara.Hksv.OpackValue.{
  Value, null, bool, int, float, text, raw, array, dict, Values, nil, cons, Fields, end, field,
  count, count_fields, append_fields, IsValue, IsValues, IsFields,
}
use openqiara.Hksv.Opack.{
  encode_bytes, close_array, close_dict, encode_value, encode_values, encode_fields, array_loop,
  dict_loop, value, decode_dict,
}
use openqiara.Hksv.OpackNumbers.{
  value-encode_int, value-encode_text, value-encode_raw, value-encode_float,
}
use openqiara.Hksv.OpackShape.{
  need, need_values, need_fields, append_fields_assoc, append_fields-end, encode_bytes-IsGoing,
  encode_value-IsGoing, array_room, dict_room, put-after, more_of, close_of, need-le, count-le,
}
use openqiara.Hksv.OpackSteps.{
  array_loop-last, dict_loop-last, array_loop-step, dict_loop-step, null_read, bool_read,
  array_read, dict_read,
}
use mathlib.Core.List.{append_assoc}
use mathlib.Core.Path.{subst}

module _ (widen : ℕ → ℕ) where
  -- A decoder reads a value, and leaves the rest.
  Reads : ℕ → Value → Type 0
  Reads fuel v =
      (rest : List ℕ) (tracked : List Value)
      → (tracked' : List Value) × (value widen fuel
            (record { b = encode_value v ++ rest; tracked = tracked })
          ≡ some (v, record { b = rest; tracked = tracked' }))

  mutual
    unfolding need Reads encode_value

    value-encode : (v : Value) (fuel : ℕ) → need v ≤ fuel → IsValue v → Reads fuel v
    value-encode v zero l h = absurd (omega (arith, l, count-le v))
    value-encode null (suc fuel) l h = λ rest tracked. (tracked, null_read widen fuel rest tracked)
    value-encode (bool b) (suc fuel) l h = λ rest tracked. (_, bool_read widen fuel rest tracked b)
    value-encode (int n) (suc fuel) l h =
        λ rest tracked. (_, value-encode_int widen fuel rest tracked n h)
    value-encode (float bits) (suc fuel) l h =
        λ rest tracked. (_, value-encode_float widen fuel rest tracked bits h)
    value-encode (text cs) (suc fuel) l h =
        λ rest tracked. (_, value-encode_text widen fuel rest tracked cs h)
    value-encode (raw bs) (suc fuel) l h =
        λ rest tracked. (_, value-encode_raw widen fuel rest tracked bs h)
    value-encode (array vs) (suc fuel) l h = λ rest tracked.
        let n = count vs in
        let (t, e) =
          array_loop-encode vs fuel (suc (length ((encode_values vs ++ close_array n) ++ rest)))
            (leb n 12) rest tracked (omega (arith, l)) (array_room vs rest) h in
        (t, array_read widen fuel rest tracked n (encode_values vs) vs t e)
    value-encode (dict fs) (suc fuel) l h = λ rest tracked.
        let n = count_fields fs in
        let (t, e) =
          dict_loop-encode fs fuel (suc (length ((encode_fields fs ++ close_dict n) ++ rest)))
            (leb n 14) end rest tracked (omega (arith, l)) (dict_room fs rest) h in
        (t, dict_read widen fuel rest tracked n (encode_fields fs) fs t e)

    array_loop-encode :
        (vs : Values) (fuel lf : ℕ) (b : Bool) (rest : List ℕ) (tracked : List Value)
        → need_values vs ≤ fuel
        → count vs < lf
        → IsValues vs
        → (tracked' : List Value) × (array_loop
              (value widen fuel)
              lf
              (more_of b (count vs))
              (record { b = encode_values vs ++ (close_of b ++ rest); tracked = tracked })
            ≡ some (vs, record { b = rest; tracked = tracked' }))
    array_loop-encode vs fuel zero b rest tracked l c h = absurd (omega (arith, c))
    array_loop-encode nil fuel (suc lf) b rest tracked l c h =
        (tracked, array_loop-last (value widen fuel) b lf rest tracked)
    array_loop-encode (cons v vs) fuel (suc lf) b rest tracked l c (h, hs) =
        let (t₁, e) =
          value-encode v fuel (omega (arith, l)) h (encode_values vs ++ (close_of b ++ rest))
            tracked in
        let (t₂, k) =
          array_loop-encode vs fuel lf b rest t₁ (omega (arith, l)) (omega (arith, c)) hs in
        (
          t₂,
          subst
              (λ bs.
                array_loop (value widen fuel) (suc lf) (more_of b (suc (count vs)))
                  (record { b = bs; tracked = tracked })
                ≡ some (cons v vs, record { b = rest; tracked = t₂ }))
              (sym (append_assoc (encode_value v) (encode_values vs) (close_of b ++ rest)))
              (array_loop-step (value widen fuel) b (count vs) lf (encode_value v)
                (encode_values vs ++ (close_of b ++ rest)) rest v vs tracked t₁ t₂
                (encode_value-IsGoing v) e k),
        )

    dict_loop-encode :
        (fs : Fields) (fuel lf : ℕ) (b : Bool) (before : Fields) (rest : List ℕ)
        (tracked : List Value)
        → need_fields fs ≤ fuel
        → count_fields fs < lf
        → IsFields before fs
        → (tracked' : List Value) × (dict_loop
              (value widen fuel)
              lf
              (more_of b (count_fields fs))
              before
              (record { b = encode_fields fs ++ (close_of b ++ rest); tracked = tracked })
            ≡ some (append_fields before fs, record { b = rest; tracked = tracked' }))
    dict_loop-encode fs fuel zero b before rest tracked l c h = absurd (omega (arith, c))
    dict_loop-encode end fuel (suc lf) b before rest tracked l c h = (
      tracked,
      dict_loop-last (value widen fuel) b lf rest before tracked
          ∙ ap (λ m. some (m, record { b = rest; tracked = tracked }))
              (sym (append_fields-end before)),
    )
    dict_loop-encode (field k v fs) zero (suc lf) b before rest tracked l c h =
        absurd (omega (arith, l))
    dict_loop-encode (field k v fs) (suc fuel) (suc lf) b before rest tracked l c
          (small, after, h, hs) =
        let x = encode_bytes k 0x40 0x61 in
        let y = encode_value v in
        let z = encode_fields fs ++ (close_of b ++ rest) in
        let t₁ = tracked ++ (text k ∷ []) in
        let (t₂, e) = value-encode v (suc fuel) (omega (arith, l)) h z t₁ in
        let (t₃, i) =
          dict_loop-encode fs (suc fuel) lf b (append_fields before (field k v end)) rest t₂
            (omega (arith, l)) (omega (arith, c)) hs in
        (
          t₃,
          ap
                (λ bs.
                  dict_loop (value widen (suc fuel)) (suc lf) (more_of b (suc (count_fields fs)))
                    before (record { b = bs; tracked = tracked }))
                (append_assoc x (y ++ encode_fields fs) (close_of b ++ rest)
                  ∙ ap (λ bs. x ++ bs) (append_assoc y (encode_fields fs) (close_of b ++ rest)))
              ∙ dict_loop-step (value widen (suc fuel)) b (count_fields fs) lf x y z k v before
                  tracked t₁ t₂ (encode_bytes-IsGoing k 0x40 0x61 (omega arith) (omega arith))
                  (value-encode_text widen fuel (y ++ z) tracked k small) e
              ∙ ap
                  (λ m.
                    dict_loop (value widen (suc fuel)) lf (more_of b (count_fields fs)) m
                      (record { b = z; tracked = t₂ }))
                  (put-after k v before after)
              ∙ i
              ∙ ap (λ m. some (m, record { b = rest; tracked = t₃ }))
                  (append_fields_assoc before (field k v end) fs),
        )

-- A message is read back as it was written, whatever it holds and whatever comes after it.
pub decode_dict-encode_value :
    (widen : ℕ → ℕ) (fs : Fields) (rest : List ℕ)
    → IsFields end fs
    → decode_dict widen (encode_value (dict fs) ++ rest) ≡ some (fs, rest)
unfolding decode_dict Reads
decode_dict-encode_value widen fs rest h =
    let b = encode_value (dict fs) ++ rest in
    let enough : need (dict fs) ≤ length b =
      omega (arith, need-le (dict fs), length-append (encode_value (dict fs)) rest) in
    let (t, e) = value-encode widen (dict fs) (length b) enough h rest [] in
    rw (e, decode_dict) refl
