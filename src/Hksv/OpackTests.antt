-- ===== src/Hksv/OpackTests.antt =====
-- The data stream messages at concrete inputs.
use openqiara.Prelude.{
  ℕ, zero, suc, ◌≡◌, ◌≤◌, true, some, none, [], ◌∷◌, ◌++◌, replicate, arith, refl,
}
use openqiara.Radio.Types.{pos, negsuc}
use openqiara.Hksv.OpackValue.{
  null, bool, int, text, array, dict, Values, nil, cons, Fields, end, field, IsValues, IsFields,
}
use openqiara.Hksv.Opack.{encode_value, decode_dict}
use openqiara.Hksv.OpackRoundTrip.{decode_dict-encode_value}

-- A list longer than a tag can count, a long string and numbers of several sizes.
abbrev many : ℕ → Values
many zero = nil
many (suc n) = cons (int (pos n)) (many n)

abbrev message : Fields
message = field (b'a' ∷ []) (array (many 13)) (
    field (b'b' ∷ []) (text (replicate 40 b'x')) (
      field (b'c' ∷ []) (dict (field [] (int (negsuc 299)) end)) (
        field (b'd' ∷ []) (array (cons (bool true) (cons null (cons (int (pos 70_000)) nil))))
          end)))

many-IsValues : (n : ℕ) → n ≤ 100 → IsValues (many n)
many-IsValues zero l = tt
many-IsValues (suc n) l = (omega arith, many-IsValues n (omega arith))

message-IsFields : IsFields end message
message-IsFields = (
  omega arith,
  tt,
  many-IsValues 13 (omega arith),
  (
    omega arith,
    (refl, tt),
    omega arith,
    (
      omega arith,
      (refl, (refl, tt)),
      (omega arith, tt, omega arith, tt),
      (omega arith, (refl, (refl, (refl, tt))), (tt, (tt, (omega arith, tt))), tt),
    ),
  ),
)

-- A reference to a primitive that came before: the key.
back_reference :
    decode_dict (λ f. f) (0xe1 ∷ 0x41 ∷ b'k' ∷ 0xa0 ∷ [])
    ≡ some (field (b'k' ∷ []) (text (b'k' ∷ [])) end, [])
unfolding decode_dict
back_reference = refl

-- A list with no end mark is an error.
unended : decode_dict (λ f. f) (0xe1 ∷ 0x41 ∷ b'k' ∷ 0xdf ∷ 0x01 ∷ []) ≡ none
unfolding decode_dict
unended = refl

decode_dict-encode_value_example :
    decode_dict (λ f. f) (encode_value (dict message) ++ (7 ∷ [])) ≡ some (message, 7 ∷ [])
decode_dict-encode_value_example =
    decode_dict-encode_value (λ f. f) message (7 ∷ []) message-IsFields
