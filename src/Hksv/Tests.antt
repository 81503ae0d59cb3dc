-- ===== src/Hksv/Tests.antt =====
-- The properties of TLV8 at concrete inputs.
use openqiara.Prelude.{◌≡◌, some, [], ◌∷◌, List, refl}
use openqiara.Hksv.Tlv.{Item, encode, decode}
use openqiara.Hksv.TlvRoundTrip.{tells, decode-encode}

-- Two values of one type with the separator between them.
abbrev separated : List Item
separated =
    record { t = 1; v = 7 ∷ 8 ∷ [] } ∷ record { t = 0; v = [] } ∷ record { t = 1; v = 9 ∷ [] } ∷ []

decode-encode_example : decode (encode separated) ≡ some separated
decode-encode_example = decode-encode separated (unfold tells in refl)
