-- ===== src/Fbxbus/Wire.antt =====
-- The headers of the bus's messages, internal/fbxbus/wire.go. Text is bytes. The parser has the rest of the bytes
-- beside its offset. A length of 2 ^ 31 or more is refused, as by an int of 64 bits.
use openqiara.Prelude.{
  ℕ, zero, suc, ◌+◌, ◌-◌, ◌*◌, ◌%◌, Option, none, some, List, [], ◌∷◌, ◌++◌, ltb, ◌==◌, length,
  take, drop, replicate, if◌then◌else◌, le32,
}

abbrev pub type_error : ℕ
type_error = 3

abbrev pub field_path : ℕ
field_path = 1

abbrev pub field_member : ℕ
field_member = 3

abbrev pub field_error_code : ℕ
field_error_code = 4

abbrev pub field_reply_serial : ℕ
field_reply_serial = 5

abbrev pub field_sender : ℕ
field_sender = 7

abbrev pub field_signature : ℕ
field_signature = 8

abbrev pub magic : ℕ
magic = b'l'

pub record Message : Type 0 where
  pub type : ℕ
  pub serial : ℕ
  pub reply_serial : ℕ
  pub path : List ℕ
  pub member : List ℕ
  pub error_code : ℕ
  pub signature : List ℕ
  pub sender : List ℕ
  pub body : List ℕ

-- What is missing to a multiple of `n`.
abbrev pub pad : ℕ → ℕ → ℕ
pad n off = (n - off % n) % n

unfoldable pub align : ℕ → List ℕ → List ℕ
align n b = b ++ replicate (pad n (length b)) 0

unfoldable pub append_string : List ℕ → List ℕ → List ℕ
unfolding align
append_string s b = ((align 4 b ++ le32 (length s)) ++ s) ++ (0 ∷ [])

-- The functions `uint` and `str` of `header`, as one on a field.
pub data Value : Type 0 where
  uint : ℕ → Value
  str : List ℕ → Value

unfoldable pub put_field : ℕ → Value → List ℕ → List ℕ
unfolding align append_string
put_field fc (uint v) b = align 4 (b ++ (fc ∷ b'u' ∷ [])) ++ le32 v
put_field fc (str s) b = append_string s (b ++ (fc ∷ b's' ∷ []))

-- The fields that `header` writes, in order.
unfoldable pub header_fields : Message → List (ℕ × Value)
header_fields m =
    (if m.reply_serial == 0 then [] else (field_reply_serial, uint m.reply_serial) ∷ [])
    ++ ((field_path, str m.path)
        ∷ (field_member, str m.member)
        ∷ ((if m.type == type_error then (field_error_code, uint m.error_code) ∷ [] else [])
            ++ ((field_signature, str m.signature) ∷ [])))

unfoldable pub put_fields : List (ℕ × Value) → List ℕ → List ℕ
unfolding put_field
put_fields [] b = b
put_fields ((fc, v) ∷ fs) b = put_fields fs (put_field fc v b)

unfoldable pub header : Message → List ℕ
unfolding header_fields put_fields align
header m =
    let start = (magic ∷ m.type ∷ 0 ∷ 0 ∷ []) ++ (le32 (length m.body) ++ le32 m.serial) in
    align 8 (put_fields (header_fields m) start ++ (0 ∷ []))

abbrev pub from_le32 : ℕ → ℕ → ℕ → ℕ → ℕ
from_le32 a b c d = a + 256 * b + 65536 * c + 16777216 * d

-- `binary.LittleEndian.Uint32`, and the bytes after it; `none` if there are not four.
abbrev pub take_le32 : List ℕ → Option (ℕ × List ℕ)
take_le32 (a ∷ b ∷ c ∷ d ∷ rest) = some (from_le32 a b c d, rest)
take_le32 _ = none

unfoldable pub set_uint : ℕ → ℕ → Message → Message
set_uint fc v m =
    if fc == field_reply_serial
    then record m { reply_serial = v }
    else if fc == field_error_code
    then record m { error_code = v }
    else m

unfoldable pub set_str : ℕ → List ℕ → Message → Message
set_str fc s m =
    if fc == field_path
    then record m { path = s }
    else if fc == field_member
    then record m { member = s }
    else if fc == field_signature
    then record m { signature = s }
    else if fc == field_sender
    then record m { sender = s }
    else m

-- The loop of `parseHeader`, with the offset where the fields end. `fuel` is the length of the packet: a round
-- takes a byte at least.
unfoldable pub parse_loop : ℕ → ℕ → List ℕ → Message → Option (Message × ℕ)
parse_loop zero off rest m = none
parse_loop (suc fuel) off [] m = none
parse_loop (suc fuel) off (fc ∷ []) m = if fc == 0 then some (m, off + 1) else none
parse_loop (suc fuel) off (fc ∷ sig ∷ rest) m =
    if fc == 0 then some (m, off + 1) else elim (take_le32 (drop (pad 4 (off + 2)) rest)) [
      | none ↦ none
      | some (v, after) ↦
          let start = off + 2 + pad 4 (off + 2) + 4 in
          let next_uint = parse_loop fuel start after (set_uint fc v m) in
          let next_str =
            parse_loop fuel (start + v + 1) (drop (v + 1) after) (set_str fc (take v after) m) in
          if sig == b'u'
          then next_uint
          else if sig == b's'
          then if ltb (length after) (v + 1) then none else next_str
          else none
    ]

abbrev pub empty_message : Message
empty_message = record {
  type = 0;
  serial = 0;
  reply_serial = 0;
  path = [];
  member = [];
  error_code = 0;
  signature = [];
  sender = [];
  body = [];
}

-- The message, the length of its header and that of its body.
unfoldable pub parse_header : List ℕ → Option (Message × ℕ × ℕ)
unfolding parse_loop
parse_header (l ∷ t ∷ x ∷ y ∷ b₀ ∷ b₁ ∷ b₂ ∷ b₃ ∷ s₀ ∷ s₁ ∷ s₂ ∷ s₃ ∷ rest) =
    if l == magic
    then elim (parse_loop (12 + length rest) 12 rest
        (record empty_message { type = t; serial = from_le32 s₀ s₁ s₂ s₃ })) [
          | none ↦ none
          | some (m, off) ↦ some (m, off + pad 8 off, from_le32 b₀ b₁ b₂ b₃)
        ]
    else none
parse_header _ = none
