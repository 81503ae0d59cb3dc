-- ===== src/Charmux/Varint.antt =====
-- Variable-length integers, internal/charmux/managed.go: seven bits to a byte, lowest first.
-- A byte slice is a list of numbers. A decoder returns the value and what it has not read.
use openqiara.Prelude.{
  ℕ, zero, suc, ◌+◌, ◌-◌, ◌*◌, ◌/◌, ◌%◌, ◌^◌, ◌≤◌, ◌<◌, ◌≡◌, arith, List, [], ◌∷◌, ◌++◌, ltb, leb,
  if◌then◌else◌, refl, ap,
}
use mathlib.Core.List.{append_assoc}
use native.Mathlib.Numerals.{towards_suc}
use native.Mathlib.Nat.{div-add-mod, pow-suc}
use native.Mathlib.Decide.{dec_lt}

abbrev pub u32_mod : ℕ
u32_mod = 4294967296

-- `byte(v) | 0x80` is `v % 128 + 128`. A uint32 has at most four groups before its last.
varint_loop : ℕ → List ℕ → ℕ → List ℕ
varint_loop zero buf v = buf ++ (v % 256 ∷ [])
varint_loop (suc rounds) buf v =
    let rest = varint_loop rounds (buf ++ ((v % 128 + 128) ∷ [])) (v / 128) in
    if ltb v 128 then buf ++ (v % 256 ∷ []) else rest

pub append_varint : List ℕ → ℕ → List ℕ
append_varint buf v = varint_loop 4 buf v

-- `v |= uint32(b&0x7F) << shift` is a sum: `v` has its bits below `shift`.
decode_loop : List ℕ → ℕ → ℕ → ℕ × List ℕ
decode_loop [] v shift = (v, [])
decode_loop (b ∷ bs) v shift =
    let v' = v + b % 128 * 2 ^ shift % u32_mod in
    let rest = decode_loop bs v' (shift + 7) in
    if ltb b 128 then (v', bs) else if leb 32 (shift + 7) then (v', bs) else rest

pub decode_varint : List ℕ → ℕ × List ℕ
decode_varint bs = decode_loop bs 0 0

-- What is appended for a number.
unfoldable pub encoding : ℕ → ℕ → List ℕ
encoding zero v = v % 256 ∷ []
encoding (suc rounds) v =
    let rest = encoding rounds (v / 128) in
    if ltb v 128 then v % 256 ∷ [] else (v % 128 + 128) ∷ rest

varint_loop-encoding : (n : ℕ) (buf : List ℕ) (v : ℕ) → varint_loop n buf v ≡ buf ++ encoding n v
unfolding varint_loop encoding
varint_loop-encoding zero buf v = refl
varint_loop-encoding (suc n) buf v = ground (
  arith,
  varint_loop-encoding n (buf ++ ((v % 128 + 128) ∷ [])) (v / 128),
  append_assoc buf ((v % 128 + 128) ∷ []) (encoding n (v / 128)),
)

pub append_varint-encoding : (buf : List ℕ) (v : ℕ) → append_varint buf v ≡ buf ++ encoding 4 v
unfolding append_varint
append_varint-encoding buf v = varint_loop-encoding 4 buf v

-- One more step of the shift multiplies the weight of a group by 128.
weight_step : (shift : ℕ) → 2 ^ (shift + 7) ≡ 2 ^ shift * 128
weight_step shift = simp towards_suc (omega arith)

-- A number at weight `p` is its lowest group at `p` and the others at the next weight.
low_group : (w p q : ℕ) → q ≡ p * 128 → w % 128 * p + w / 128 * q ≡ w * p
low_group w p q h =
    omega (arith, h, ap (λ (t : ℕ). w / 128 * t) h, ap (λ (t : ℕ). t * p) (div-add-mod w 128))

pow_grows : (k : ℕ) → 33554432 ≤ 2 ^ (k + 25)
pow_grows zero = omega arith
pow_grows (suc k) = omega (
  arith,
  pow_grows k,
  ap (λ (t : ℕ). 2 ^ t) (let e : suc k + 25 ≡ suc (k + 25) = omega arith in e),
  pow-suc 2 (k + 25),
)

-- A group that is not the last leaves room for the next shift.
shift_room : (w s : ℕ) → 128 ≤ w → w * 2 ^ s < u32_mod → s + 7 < 32
shift_room w s h k = elim (dec_lt s 25) [
  | yes below ↦ omega arith
  | no above ↦ absurd (too_wide (s - 25) (omega arith))
]
  where
    too_wide : (d : ℕ) → s ≡ d + 25 → ⊥
    too_wide d e = grind (arith, pow_grows d, ap (λ (t : ℕ). 2 ^ t) e)

last_byte :
    (w acc shift : ℕ) (rest : List ℕ)
    → w < 128
    → acc + w * 2 ^ shift < u32_mod
    → decode_loop ((w % 256) ∷ rest) acc shift ≡ (acc + w * 2 ^ shift, rest)
unfolding decode_loop
last_byte w acc shift rest h fits =
    ground (arith, ap (λ (t : ℕ). t * 2 ^ shift) (let e : w % 256 % 128 ≡ w = omega arith in e))

inner_byte :
    (g acc shift : ℕ) (rest : List ℕ)
    → g < 128
    → shift + 7 < 32
    → acc + g * 2 ^ shift < u32_mod
    → decode_loop ((g + 128) ∷ rest) acc shift ≡ decode_loop rest (acc + g * 2 ^ shift) (shift + 7)
unfolding decode_loop
inner_byte g acc shift rest h room fits =
    ground (arith, ap (λ (t : ℕ). t * 2 ^ shift) (let e : (g + 128) % 128 ≡ g = omega arith in e))

decode_loop-encoding :
    (n w acc shift : ℕ) (rest : List ℕ)
    → w < 128 ^ suc n
    → acc + w * 2 ^ shift < u32_mod
    → decode_loop (encoding n w ++ rest) acc shift ≡ (acc + w * 2 ^ shift, rest)
unfolding encoding
decode_loop-encoding zero w acc shift rest h fits = last_byte w acc shift rest (omega arith) fits
decode_loop-encoding (suc n) w acc shift rest h fits = ground (
  arith,
  last_byte w acc shift rest,
  low_group w (2 ^ shift) (2 ^ (shift + 7)) (weight_step shift),
  shift_room w shift,
  inner_byte (w % 128) acc shift (encoding n (w / 128) ++ rest),
  decode_loop-encoding n (w / 128) (acc + w % 128 * 2 ^ shift) (shift + 7) rest (omega arith),
)

-- The decoder reads back every uint32 that was appended, and stops right behind it.
pub decode-encoding :
    (v : ℕ) (rest : List ℕ) → v < u32_mod → decode_varint (encoding 4 v ++ rest) ≡ (v, rest)
unfolding decode_varint
decode-encoding v rest h = ground (arith, decode_loop-encoding 4 v 0 0 rest)

-- The value is a uint32 at each shift: the sum of the model is the source's `|=`, with no carry.
bound_28 : (bs : List ℕ) (v : ℕ) → v < 268435456 → (decode_loop bs v 28).0 < u32_mod
unfolding decode_loop
bound_28 [] v h = omega arith
bound_28 (b ∷ bs) v h = ground arith

bound_21 : (bs : List ℕ) (v : ℕ) → v < 2097152 → (decode_loop bs v 21).0 < u32_mod
unfolding decode_loop
bound_21 [] v h = omega arith
bound_21 (b ∷ bs) v h = ground (arith, bound_28 bs (v + b % 128 * 2 ^ 21 % u32_mod))

bound_14 : (bs : List ℕ) (v : ℕ) → v < 16384 → (decode_loop bs v 14).0 < u32_mod
unfolding decode_loop
bound_14 [] v h = omega arith
bound_14 (b ∷ bs) v h = ground (arith, bound_21 bs (v + b % 128 * 2 ^ 14 % u32_mod))

bound_7 : (bs : List ℕ) (v : ℕ) → v < 128 → (decode_loop bs v 7).0 < u32_mod
unfolding decode_loop
bound_7 [] v h = omega arith
bound_7 (b ∷ bs) v h = ground (arith, bound_14 bs (v + b % 128 * 2 ^ 7 % u32_mod))

-- Whatever the bytes, the decoder's value is a uint32.
pub decode_varint-lt : (bs : List ℕ) → (decode_varint bs).0 < u32_mod
unfolding decode_varint decode_loop
decode_varint-lt [] = omega arith
decode_varint-lt (b ∷ bs) = ground (arith, bound_7 bs (b % 128))
