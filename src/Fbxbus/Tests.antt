-- ===== src/Fbxbus/Tests.antt =====
-- A reply of the event collector on the bus (internal/fbxbus/wire.go).
use openqiara.Prelude.{◌≡◌, none, some, [], ◌∷◌, length, arith, refl}
use openqiara.Fbxbus.Wire.{
  Message, type_error, header, put_fields, put_field, header_fields, align, append_string,
  parse_header,
}
use openqiara.Fbxbus.RoundTrip.{received, parse_header-header}

abbrev refusal : Message
refusal = record {
  type = type_error;
  serial = 7;
  reply_serial = 70000;
  path = b'/' ∷ b'h' ∷ b'l' ∷ [];
  member = b'g' ∷ [];
  error_code = 1879048196;
  signature = b's' ∷ [];
  sender = b':' ∷ b'1' ∷ [];
  body = 1 ∷ 0 ∷ 0 ∷ 0 ∷ b'a' ∷ 0 ∷ [];
}

header_size : length (header refusal) ≡ 64
unfolding header header_fields put_fields put_field align append_string
header_size = refl

bad_magic : parse_header (0 ∷ 1 ∷ 0 ∷ 0 ∷ 0 ∷ 0 ∷ 0 ∷ 0 ∷ 1 ∷ 0 ∷ 0 ∷ 0 ∷ 0 ∷ []) ≡ none
unfolding parse_header
bad_magic = refl

parse_header-header_example :
    parse_header (header refusal) ≡ some (received refusal, length (header refusal), 6)
parse_header-header_example = parse_header-header refusal (
  omega arith,
  omega arith,
  omega arith,
  omega arith,
  omega arith,
  omega arith,
  omega arith,
  λ h. ground arith,
)
