-- ===== src/Radio/Keypad.antt =====
-- The codes of a keypad (internal/radio/sensors.go): the packing of a code that is sent to it, and the
-- code that it reports.
use openqiara.Prelude.{ℕ, ◌+◌, ◌*◌, ◌/◌, ◌%◌, ◌<◌, ◌≡◌, ◌&&◌, true, [], ◌∷◌, ◌++◌, leb, arith}
use openqiara.Radio.Types.{disarmed}
use openqiara.Radio.Sensors.{code_digit, keypad_code, code_of, keypad_digit, pack_digits, valid_pin}

keypad_digit-lt : (c : ℕ) → (leb b'0' c && leb c b'9') ≡ true → (keypad_digit c < 16)
unfolding keypad_digit
keypad_digit-lt c h = ground arith

code_digit-keypad_digit :
    (c : ℕ) → (leb b'0' c && leb c b'9') ≡ true → code_digit (keypad_digit c) ≡ c
unfolding code_digit keypad_digit
code_digit-keypad_digit c h = ground arith

low_half : (x y : ℕ) → x < 16 → y < 16 → (x + y * 16) % 256 % 16 ≡ x
low_half x y h k = omega arith

high_half : (x y : ℕ) → x < 16 → y < 16 → (x + y * 16) % 256 / 16 ≡ y
high_half x y h k = omega arith

digit_pair :
    (c d : ℕ)
    → (leb b'0' c && leb c b'9') ≡ true
    → (leb b'0' d && leb d b'9') ≡ true
    → (code_digit ((keypad_digit c + keypad_digit d * 16) % 256 % 16) ≡ c)
      × (code_digit ((keypad_digit c + keypad_digit d * 16) % 256 / 16) ≡ d)
digit_pair c d h k = (
  rw (low_half (keypad_digit c) (keypad_digit d) (keypad_digit-lt c h) (keypad_digit-lt d k))
      (code_digit-keypad_digit c h),
  rw (high_half (keypad_digit c) (keypad_digit d) (keypad_digit-lt c h) (keypad_digit-lt d k))
      (code_digit-keypad_digit d k),
)

-- A code of four digits that a keypad sends back the way it was packed for it, with two more bytes, is
-- reported as it was.
code_of-pack_digits :
    (c₀ c₁ c₂ c₃ x y : ℕ)
    → valid_pin (c₀ ∷ c₁ ∷ c₂ ∷ c₃ ∷ []) ≡ true
    → code_of disarmed (pack_digits (c₀ ∷ c₁ ∷ c₂ ∷ c₃ ∷ []) ++ (x ∷ y ∷ []))
      ≡ c₀ ∷ c₁ ∷ c₂ ∷ c₃ ∷ []
unfolding code_of keypad_code pack_digits valid_pin
code_of-pack_digits c₀ c₁ c₂ c₃ x y h =
    let (p, q) = digit_pair c₀ c₁ (ground arith) (ground arith) in
    let (r, s) = digit_pair c₂ c₃ (ground arith) (ground arith) in ground (arith, p, q, r, s)
