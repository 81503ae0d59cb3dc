-- ===== src/Web/Keypad.antt =====
-- The codes of the keypad, internal/web/server.go. The trimming of a label is a parameter, and so is what
-- reloads the radio client.
use openqiara.Prelude.{
  ℕ, Bool, false, ◌||◌, not, Option, none, some, List, [], ◌∷◌, ◌++◌, ltb, ◌==◌, length,
  if◌then◌else◌,
}
use openqiara.Config.Types.{Config, SensorEntry, KpdCode}
use openqiara.Config.Login.{same_bytes}
use openqiara.Radio.Sensors.{all_digits}
use openqiara.Config.Store.{update}
use openqiara.Camera.Client.{World, RadioClient, set_entry}
use openqiara.Camera.Reload.{reload}
use Prim.Native.String.{String}
use text.Mathlib.Text.{◌==◌ as str_eq}

abbrev pub max_kpd_codes : ℕ
max_kpd_codes = 10

-- The answers of the handlers.
pub data Answer : Type 0 where
  done : Answer
  bad_request not_found conflict server_error : Answer

abbrev pub is_code : List ℕ → List KpdCode → Bool
is_code password [] = false
is_code password (c ∷ cs) = same_bytes c.password password || is_code password cs

-- The loop of `validateKPDCodes`; `out` are the codes so far, in order.
unfoldable pub validate_loop :
    (String → String) → List KpdCode → List KpdCode → Option (List KpdCode)
validate_loop trim [] out = some out
validate_loop trim (c ∷ cs) out =
    let rest = validate_loop trim cs (out ++ (record c { label = trim c.label } ∷ [])) in
    if not (length c.password == 4) || not (all_digits c.password)
    then none
    else if is_code c.password out
    then none
    else rest

unfoldable pub validate_kpd_codes : (String → String) → List KpdCode → Option (List KpdCode)
unfolding validate_loop
validate_kpd_codes trim codes =
    if ltb max_kpd_codes (length codes) then none else validate_loop trim codes []

-- `requireSingleKPD`: the keypad, or which error; `found` is the one so far.
pub data Keypads : Type 0 where
  one : SensorEntry → Keypads
  none_paired several : Keypads

unfoldable pub require_loop : Keypads → List SensorEntry → Keypads
require_loop found [] = found
require_loop found (se ∷ ses) =
    if not (str_eq se.type "KPD") then require_loop found ses else elim found [
      | none_paired ↦ require_loop (one se) ses
      | one k ↦ several
      | several ↦ several
    ]

unfoldable pub require_single_kpd : Config → Keypads
unfolding require_loop
require_single_kpd cfg = require_loop none_paired cfg.sensors

unfoldable pub store_codes : World → SensorEntry → List KpdCode → RadioClient → RadioClient × Answer
store_codes w kpd codes c =
    let (store, saved) =
      update w.saves
        (λ cfg. record cfg {
          sensors = set_entry kpd.id (λ se. record se { kpd_codes = codes }) cfg.sensors;
        })
        c.store in
    let changed : RadioClient = record c { store = store } in
    if saved then (reload w changed, done) else (changed, server_error)

-- `handlePutKPDCodes` of a list that can be read.
unfoldable pub put_kpd_codes :
    (String → String) → World → List KpdCode → RadioClient → RadioClient × Answer
unfolding validate_kpd_codes require_single_kpd store_codes
put_kpd_codes trim w codes c = elim (validate_kpd_codes trim codes) [
  | none ↦ (c, bad_request)
  | some valid ↦ elim (require_single_kpd c.store.cfg) [
    | one kpd ↦ store_codes w kpd valid c
    | none_paired ↦ (c, not_found)
    | several ↦ (c, conflict)
  ]
]
