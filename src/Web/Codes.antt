-- ===== src/Web/Codes.antt =====
-- The codes that the web server takes are codes that the radio engine serves (internal/web/server.go
-- `validateKPDCodes`, internal/radio/engine.go `SetNode`).
use openqiara.Prelude.{
  ℕ, ◌≤◌, ◌≡◌, ◌≢◌, true, ◌||◌, not, none, some, List, [], ◌∷◌, ◌++◌, map, ltb, ◌==◌, length, arith,
  refl, sym, ap, ◌∙◌, inl, inr, Bool-cases,
}
use openqiara.Config.Types.{KpdCode}
use openqiara.Radio.Types.{NodeInfo, Engine}
use openqiara.Radio.Sensors.{all_digits, valid_pin}
use openqiara.Radio.Engine.{all_valid, set_node}
use openqiara.Web.Keypad.{is_code, validate_loop, validate_kpd_codes, max_kpd_codes}
use Prim.Native.String.{String}
use mathlib.Core.List.{append-nil, append_assoc, map-append}

abbrev pub password_of : KpdCode → List ℕ
password_of c = c.password

four_digits : (p : List ℕ) → (length p == 4) ≡ true → all_digits p ≡ true → valid_pin p ≡ true
unfolding valid_pin
four_digits [] four digits = absurd (ground arith)
four_digits (c ∷ cs) four digits = digits

loop_valid :
    (trim : String → String) (cs out res : List KpdCode)
    → validate_loop trim cs out ≡ some res
    → (all_valid (map password_of cs) ≡ true)
      × (map password_of res ≡ map password_of out ++ map password_of cs)
unfolding validate_loop
loop_valid trim [] out res h =
    let same : out ≡ res = ground arith in
    (refl, ap (map password_of) (sym same) ∙ sym (append-nil (map password_of out)))
loop_valid trim (c ∷ cs) out res h =
    let c' = record c { label = trim c.label } in
    elim (Bool-cases (not (length c.password == 4) || not (all_digits c.password))) [
      | inl bad ↦ absurd (ground arith)
      | inr good ↦ elim (Bool-cases (is_code c.password out)) [
        | inl twice ↦ absurd (ground arith)
        | inr new ↦
            let rest : validate_loop trim cs (out ++ (c' ∷ [])) ≡ some res = rw (good, new) at h in
            let (valid, kept) = loop_valid trim cs (out ++ (c' ∷ [])) res rest in
            let pin : valid_pin c.password ≡ true =
              four_digits c.password (ground arith) (ground arith) in
            (
              rw (pin, valid) refl,
              kept
                  ∙ ap (λ ps. ps ++ map password_of cs) (map-append password_of out (c' ∷ []))
                  ∙ append_assoc (map password_of out) (c.password ∷ []) (map password_of cs),
            )
      ]
    ]

-- Codes that the web server takes are kept in their order, at most ten of them, and the radio engine serves
-- a keypad that has them, whatever it serves besides: it never refuses them.
pub kpd_codes_served :
    (trim : String → String) (codes valid : List KpdCode) (e : Engine) (n : NodeInfo)
    → validate_kpd_codes trim codes ≡ some valid
    → n.pins ≡ map password_of valid
    → (length codes ≤ 10) × (map password_of valid ≡ map password_of codes) × (set_node e n ≢ none)
unfolding validate_kpd_codes set_node
kpd_codes_served trim codes valid e n h pins =
    elim (Bool-cases (ltb max_kpd_codes (length codes))) [
      | inl many ↦ absurd (ground arith)
      | inr few ↦
          let taken : validate_loop trim codes [] ≡ some valid = rw few at h in
          let (all, kept) = loop_valid trim codes [] valid taken in
          let served : all_valid n.pins ≡ true = rw (pins, kept) all in
          (ground arith, kept, λ none_set. ground arith)
    ]
