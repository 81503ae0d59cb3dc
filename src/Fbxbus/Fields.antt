-- ===== src/Fbxbus/Fields.antt =====
-- A field of a header is read back as it was written (internal/fbxbus/wire.go).
use openqiara.Prelude.{
  ℕ, zero, suc, ◌+◌, ◌/◌, ◌%◌, ◌<◌, ◌≡◌, false, some, List, [], ◌∷◌, ◌++◌, ltb, ◌==◌, length, take,
  drop, replicate, arith, refl, sym, ap, ◌∙◌, le32, length-append, length-replicate, take-length,
  drop-length,
}
use openqiara.Fbxbus.Wire.{
  Message, Value, uint, str, pad, align, append_string, put_field, from_le32, take_le32, set_uint,
  set_str, parse_loop,
}
use mathlib.Core.List.{append_assoc}

-- The bytes of a field that starts at an offset.
abbrev pub field_bytes : ℕ → ℕ → Value → List ℕ
field_bytes off fc (uint v) = fc ∷ b'u' ∷ (replicate (pad 4 (off + 2)) 0 ++ le32 v)
field_bytes off fc (str s) =
    fc ∷ b's' ∷ (replicate (pad 4 (off + 2)) 0 ++ (le32 (length s) ++ (s ++ (0 ∷ []))))

pub put_field-bytes :
    (fc : ℕ) (v : Value) (b : List ℕ) → put_field fc v b ≡ b ++ field_bytes (length b) fc v
unfolding put_field align append_string
put_field-bytes fc (uint v) b = rw (length-append b (fc ∷ b'u' ∷ [])) (simp append_assoc)
put_field-bytes fc (str s) b = rw (length-append b (fc ∷ b's' ∷ [])) (simp append_assoc)

abbrev pub set_value : ℕ → Value → Message → Message
set_value fc (uint v) m = set_uint fc v m
set_value fc (str s) m = set_str fc s m

-- What the code can write: a uint32, and a string whose length is an int32.
abbrev pub IsShort : Value → Type 0
IsShort (uint v) = v < 4294967296
IsShort (str s) = length s < 2147483648

drop-replicate : (n : ℕ) (a : ℕ) (xs : List ℕ) → drop n (replicate n a ++ xs) ≡ xs
drop-replicate zero a xs = refl
drop-replicate (suc n) a xs = drop-replicate n a xs

pub from_le32-le32 :
    (v : ℕ)
    → v < 4294967296
    → from_le32 (v % 256) (v / 256 % 256) (v / 65536 % 256) (v / 16777216 % 256) ≡ v
from_le32-le32 v h = omega arith

take_le32-le32 :
    (v : ℕ) (tail : List ℕ) → v < 4294967296 → take_le32 (le32 v ++ tail) ≡ some (v, tail)
take_le32-le32 v tail h = ap (λ x. some (x, tail)) (from_le32-le32 v h)

module _ (s tail : List ℕ) where
  length-string : length (s ++ (0 ∷ [])) ≡ length s + 1
  length-string = length-append s (0 ∷ [])

  string_fits : ltb (length ((s ++ (0 ∷ [])) ++ tail)) (length s + 1) ≡ false
  string_fits = ground (arith, length-string, length-append (s ++ (0 ∷ [])) tail)

  take-string : take (length s) ((s ++ (0 ∷ [])) ++ tail) ≡ s
  take-string = rw (append_assoc s (0 ∷ []) tail) (take-length s ((0 ∷ []) ++ tail))

  drop-string : drop (length s + 1) ((s ++ (0 ∷ [])) ++ tail) ≡ tail
  drop-string =
      ap (λ n. drop n ((s ++ (0 ∷ [])) ++ tail)) (sym length-string)
      ∙ drop-length (s ++ (0 ∷ [])) tail

module _ (fuel off fc : ℕ) (tail : List ℕ) (m : Message) (some_field : (fc == 0) ≡ false) where
  parse_uint :
      (v : ℕ)
      → v < 4294967296
      → parse_loop (suc fuel) off (field_bytes off fc (uint v) ++ tail) m
        ≡ parse_loop fuel (off + 2 + pad 4 (off + 2) + 4) tail (set_uint fc v m)
  unfolding parse_loop
  parse_uint v short =
      rw
        (
          some_field,
          append_assoc (replicate (pad 4 (off + 2)) 0) (le32 v) tail,
          drop-replicate (pad 4 (off + 2)) 0 (le32 v ++ tail),
          from_le32-le32 v short,
        )
        refl

  parse_str :
      (s : List ℕ)
      → length s < 2147483648
      → parse_loop (suc fuel) off (field_bytes off fc (str s) ++ tail) m
        ≡ parse_loop fuel (off + 2 + pad 4 (off + 2) + 4 + length s + 1) tail (set_str fc s m)
  unfolding parse_loop
  parse_str s short =
      rw
        (
          some_field,
          append_assoc (replicate (pad 4 (off + 2)) 0) (le32 (length s) ++ (s ++ (0 ∷ []))) tail,
          drop-replicate (pad 4 (off + 2)) 0 ((le32 (length s) ++ (s ++ (0 ∷ []))) ++ tail),
          from_le32-le32 (length s) (omega arith),
        )
        (rw (string_fits s tail, take-string s tail, drop-string s tail) refl)

pub parse_field :
    (fuel off fc : ℕ) (v : Value) (tail : List ℕ) (m : Message)
    → (fc == 0) ≡ false
    → IsShort v
    → parse_loop (suc fuel) off (field_bytes off fc v ++ tail) m
      ≡ parse_loop fuel (off + length (field_bytes off fc v)) tail (set_value fc v m)
parse_field fuel off fc (uint v) tail m some_field short =
    parse_uint fuel off fc tail m some_field v short
    ∙ ap (λ n. parse_loop fuel n tail (set_uint fc v m))
        (omega (
          arith,
          length-append (replicate (pad 4 (off + 2)) 0) (le32 v),
          length-replicate {A = ℕ} (pad 4 (off + 2)) 0,
        ))
parse_field fuel off fc (str s) tail m some_field short =
    parse_str fuel off fc tail m some_field s short
    ∙ ap (λ n. parse_loop fuel n tail (set_str fc s m))
        (omega (
          arith,
          length-append (replicate (pad 4 (off + 2)) 0) (le32 (length s) ++ (s ++ (0 ∷ []))),
          length-replicate {A = ℕ} (pad 4 (off + 2)) 0,
          length-append s (0 ∷ []),
        ))
