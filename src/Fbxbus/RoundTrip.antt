-- ===== src/Fbxbus/RoundTrip.antt =====
-- A header of the bus is read back as it was written (internal/fbxbus/wire.go `header`, `parseHeader`).
use openqiara.Prelude.{
  ℕ, zero, suc, ◌+◌, ◌≤◌, ◌<◌, ◌≡◌, Bool, true, false, some, List, [], ◌∷◌, ◌++◌, ◌==◌, length,
  replicate, if◌then◌else◌, arith, refl, sym, ap, ◌∙◌, All, le32, ==_iff, length-append,
  length-replicate,
}
use openqiara.Fbxbus.Wire.{
  Message, Value, uint, str, pad, align, put_fields, header_fields, header, magic, set_uint,
  set_str, field_path, field_member, field_error_code, field_reply_serial, field_signature,
  parse_loop, parse_header, empty_message, type_error,
}
use mathlib.Core.List.{append_assoc, append-nil}
use openqiara.Fbxbus.Fields.{
  field_bytes, IsShort, set_value, from_le32-le32, put_field-bytes, parse_field,
}

abbrev bytes_of : ℕ → List (ℕ × Value) → List ℕ
bytes_of off [] = []
bytes_of off ((fc, v) ∷ fs) =
    field_bytes off fc v ++ bytes_of (off + length (field_bytes off fc v)) fs

put_fields-bytes :
    (fs : List (ℕ × Value)) (b : List ℕ) → put_fields fs b ≡ b ++ bytes_of (length b) fs
unfolding put_fields
put_fields-bytes [] b = sym (append-nil b)
put_fields-bytes ((fc, v) ∷ fs) b = rw (put_field-bytes fc v b) (
    put_fields-bytes fs (b ++ field_bytes (length b) fc v)
    ∙ rw (length-append b (field_bytes (length b) fc v)) (
        append_assoc b (field_bytes (length b) fc v)
          (bytes_of (length b + length (field_bytes (length b) fc v)) fs)))

abbrev set_values : List (ℕ × Value) → Message → Message
set_values [] m = m
set_values ((fc, v) ∷ fs) m = set_values fs (set_value fc v m)

abbrev IsField : (ℕ × Value) → Type 0
IsField (fc, v) = ((fc == 0) ≡ false) × IsShort v

parse_end :
    (fuel off : ℕ) (tail : List ℕ) (m : Message)
    → parse_loop (suc fuel) off (0 ∷ tail) m ≡ some (m, off + 1)
unfolding parse_loop
parse_end fuel off [] m = refl
parse_end fuel off (x ∷ tail) m = refl

parse_fields :
    (fs : List (ℕ × Value)) (fuel off : ℕ) (tail : List ℕ) (m : Message)
    → All IsField fs
    → length fs < fuel
    → parse_loop fuel off (bytes_of off fs ++ (0 ∷ tail)) m
      ≡ some (set_values fs m, off + length (bytes_of off fs) + 1)
parse_fields fs zero off tail m fields enough = absurd (omega arith)
parse_fields [] (suc fuel) off tail m fields enough =
    parse_end fuel off tail m ∙ ap (λ n. some (m, n)) (omega arith)
parse_fields ((fc, v) ∷ fs) (suc fuel) off tail m ((some_field, short), rest) enough =
    let bytes = field_bytes off fc v in
    let next = off + length bytes in
    ap (λ xs. parse_loop (suc fuel) off xs m) (append_assoc bytes (bytes_of next fs) (0 ∷ tail))
    ∙ parse_field fuel off fc v (bytes_of next fs ++ (0 ∷ tail)) m some_field short
    ∙ parse_fields fs fuel next tail (set_value fc v m) rest (omega arith)
    ∙ ap (λ n. some (set_values fs (set_value fc v m), n))
        (omega (arith, length-append bytes (bytes_of next fs)))

-- What the fields of a message can hold. An error code is written in an error only.
abbrev pub IsSendable : Message → Type 0
IsSendable m =
    (length m.body < 2147483648)
    × (m.serial < 4294967296)
    × (m.reply_serial < 4294967296)
    × (length m.path < 2147483648)
    × (length m.member < 2147483648)
    × (length m.signature < 2147483648)
    × (m.error_code < 4294967296)
    × ((m.type == type_error) ≡ false → m.error_code ≡ 0)

-- The fields, by the two tests of `header`.
abbrev fields_by : Bool → Bool → Message → List (ℕ × Value)
fields_by no_serial is_error m =
    (if no_serial then [] else (field_reply_serial, uint m.reply_serial) ∷ [])
    ++ ((field_path, str m.path)
        ∷ (field_member, str m.member)
        ∷ ((if is_error then (field_error_code, uint m.error_code) ∷ [] else [])
            ++ ((field_signature, str m.signature) ∷ [])))

fields_by-IsField :
    (no_serial is_error : Bool) (m : Message)
    → IsSendable m
    → All IsField (fields_by no_serial is_error m)
fields_by-IsField true true m (_, _, _, p, n, s, e, _) =
    ((refl, p), ((refl, n), ((refl, e), ((refl, s), tt))))
fields_by-IsField true false m (_, _, _, p, n, s, e, _) = ((refl, p), ((refl, n), ((refl, s), tt)))
fields_by-IsField false true m (_, _, r, p, n, s, e, _) =
    ((refl, r), ((refl, p), ((refl, n), ((refl, e), ((refl, s), tt)))))
fields_by-IsField false false m (_, _, r, p, n, s, e, _) =
    ((refl, r), ((refl, p), ((refl, n), ((refl, s), tt))))

length-fields_by :
    (no_serial is_error : Bool) (m : Message) → length (fields_by no_serial is_error m) ≤ 5
length-fields_by true true m = omega arith
length-fields_by true false m = omega arith
length-fields_by false true m = omega arith
length-fields_by false false m = omega arith

-- What the parser starts its loop on.
abbrev started : Message → Message
started m = record empty_message { type = m.type; serial = m.serial }

abbrev pub received : Message → Message
received m = record m { sender = []; body = [] }

set_values-fields_by :
    (no_serial is_error : Bool) (m : Message)
    → (no_serial ≡ true → m.reply_serial ≡ 0)
    → (is_error ≡ false → m.error_code ≡ 0)
    → set_values (fields_by no_serial is_error m) (started m) ≡ received m
unfolding set_uint set_str
set_values-fields_by true true m r e =
    ap (λ n. record m { reply_serial = n; sender = []; body = [] }) (sym (r refl))
set_values-fields_by true false m r e =
    ap (λ n. record m { reply_serial = n; error_code = 0; sender = []; body = [] }) (sym (r refl))
    ∙ ap (λ n. record m { error_code = n; sender = []; body = [] }) (sym (e refl))
set_values-fields_by false true m r e = refl
set_values-fields_by false false m r e =
    ap (λ n. record m { error_code = n; sender = []; body = [] }) (sym (e refl))

abbrev fields_end : Message → ℕ
fields_end m = 12 + length (bytes_of 12 (header_fields m)) + 1

-- The header: its start, the fields, their end and the padding.
header-bytes :
    (m : Message)
    → header m
      ≡ ((magic ∷ m.type ∷ 0 ∷ 0 ∷ []) ++ (le32 (length m.body) ++ le32 m.serial))
        ++ (bytes_of 12 (header_fields m) ++ (0 ∷ replicate (pad 8 (fields_end m)) 0))
unfolding header align
header-bytes m =
    let fs = header_fields m in
    let start : List ℕ = (magic ∷ m.type ∷ 0 ∷ 0 ∷ []) ++ (le32 (length m.body) ++ le32 m.serial) in
    rw (put_fields-bytes fs start) (
      rw (length-append (start ++ bytes_of 12 fs) (0 ∷ []), length-append start (bytes_of 12 fs))
        (simp append_assoc))

length-header : (m : Message) → length (header m) ≡ fields_end m + pad 8 (fields_end m)
length-header m =
    let fields = bytes_of 12 (header_fields m) in
    let n = pad 8 (fields_end m) in
    ap length (header-bytes m)
    ∙ omega (arith, length-append fields (0 ∷ replicate n 0), length-replicate {A = ℕ} n 0)

-- A header whose numbers are below 2 ^ 32 and whose lengths are below 2 ^ 31 is parsed to the
-- message it was made of, without sender and body, the length of the header and that of the body,
-- provided that a message with an error code is an error.
pub parse_header-header :
    (m : Message)
    → IsSendable m
    → parse_header (header m) ≡ some (received m, length (header m), length m.body)
unfolding parse_header header_fields
parse_header-header m sendable =
    let n = pad 8 (fields_end m) in
    let no_serial = m.reply_serial == 0 in
    let is_error = m.type == type_error in
    let fields = header_fields m in
    let (body, serial, _, _, _, _, _, code) = sendable in
    let rest = bytes_of 12 fields ++ (0 ∷ replicate n 0) in
    let parsed =
      parse_fields fields (12 + length rest) 12 (replicate n 0) (started m)
        (fields_by-IsField no_serial is_error m sendable)
        (omega (arith, length-fields_by no_serial is_error m))
      ∙ ap (λ x. some (x, fields_end m))
          (set_values-fields_by no_serial is_error m ((==_iff m.reply_serial 0).0) code) in
    ap parse_header (header-bytes m)
    ∙ rw
        (
          from_le32-le32 m.serial serial,
          parsed,
          from_le32-le32 (length m.body) (omega arith),
          length-header m,
        )
        refl
