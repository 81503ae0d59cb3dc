-- ===== src/Daemon/SirenWatch.antt =====
-- What the armed siren watches (cmd/openqiarad/siren.go).
use openqiara.Prelude.{
  ℕ, ◌<◌, ◌≡◌, ◌≢◌, Bool, true, false, ◌&&◌, ◌||◌, ap, not, List, [], ◌∷◌, if◌then◌else◌, ltb,
  arith, refl, sym, ◌∙◌, All, All-mono,
}
use openqiara.Config.Types.{Config, SensorEntry}
use openqiara.Config.Settings.{arming_delay, pending_delay, wail_duration}
use openqiara.Camera.Registry.{contains}
use openqiara.Camera.Unique.{Apart, Distinct}
use openqiara.Daemon.Siren.{watched, collect, arming}
use mathlib.Core.List.{Memᴰ}
use mathlib.Core.Path.{subst}
use text.Mathlib.Text.{◌==◌ as str_eq}

pending_delay-positive : (cfg : Config) → 0 < pending_delay cfg
unfolding pending_delay
pending_delay-positive cfg = ground arith

wail_duration-positive : (cfg : Config) → 0 < wail_duration cfg
unfolding wail_duration
wail_duration-positive cfg = ground arith

exit_delay-positive :
    (delayed : Bool) (cfg : Config) → ltb 0 (if delayed then arming_delay cfg else 0) ≡ delayed
unfolding arming_delay
exit_delay-positive true cfg = ground arith
exit_delay-positive false cfg = refl

All-Memᴰ :
    (P : SensorEntry → Type 0) (se : SensorEntry) (ses : List SensorEntry)
    → All P ses
    → Memᴰ se ses
    → P se
All-Memᴰ P se [] h m = elim m [ ]
All-Memᴰ P se (x ∷ ses) (p, h) (Memᴰ.head e) = subst P (sym e) p
All-Memᴰ P se (x ∷ ses) (p, h) (Memᴰ.tail m) = All-Memᴰ P se ses h m

-- A round of the loop, for another sensor and for the one that it is about.
round : Bool → Bool → ℕ → List ℕ → List ℕ → List ℕ × List ℕ
round w instant id active delayed =
    if w then (id ∷ active, if not instant then id ∷ delayed else delayed) else (active, delayed)

round_other :
    (w instant : Bool) (id other : ℕ) (active delayed : List ℕ)
    → id ≢ other
    → (contains id (round w instant other active delayed).0 ≡ contains id active)
      × (contains id (round w instant other active delayed).1 ≡ contains id delayed)
unfolding round
round_other false instant id other active delayed n = (refl, refl)
round_other true true id other active delayed n = (ground arith, refl)
round_other true false id other active delayed n = (ground arith, ground arith)

round_own :
    (w instant : Bool) (id : ℕ) (active delayed : List ℕ)
    → contains id active ≡ false
    → contains id delayed ≡ false
    → (contains id (round w instant id active delayed).0 ≡ w)
      × (contains id (round w instant id active delayed).1 ≡ (w && not instant))
unfolding round
round_own false instant id active delayed a d = (a, d)
round_own true true id active delayed a d = (ground arith, d)
round_own true false id active delayed a d = (ground arith, ground arith)

collect-other :
    (night : Bool) (id : ℕ) (ses : List SensorEntry)
    → All (λ se. id ≢ se.id) ses
    → (contains id (collect night ses).0 ≡ false) × (contains id (collect night ses).1 ≡ false)
unfolding collect round
collect-other night id [] h = (refl, refl)
collect-other night id (se ∷ ses) (n, h) =
    let (a, d) = collect-other night id ses h in
    let (r, q) =
      round_other (watched night se) se.instant id se.id (collect night ses).0 (collect night ses).1
        n in
    (r ∙ a, q ∙ d)

collect-watched :
    (night : Bool) (se : SensorEntry) (ses : List SensorEntry)
    → Distinct ses
    → Memᴰ se ses
    → (contains se.id (collect night ses).0 ≡ watched night se)
      × (contains se.id (collect night ses).1 ≡ (watched night se && not se.instant))
unfolding collect round
collect-watched night se [] d m = elim m [ ]
collect-watched night se (x ∷ ses) (a, d) (Memᴰ.head e) =
    let (r, q) =
      collect-other night x.id ses (All-mono (Apart x) (λ y. x.id ≢ y.id) ses (λ y h. h.0) a) in
    rw e
      (round_own (watched night x) x.instant x.id (collect night ses).0 (collect night ses).1 r q)
collect-watched night se (x ∷ ses) (a, d) (Memᴰ.tail m) =
    let (f, g) = collect-watched night se ses d m in
    let apart = All-Memᴰ (Apart x) se ses a m in
    let (r, q) =
      round_other (watched night x) x.instant se.id x.id (collect night ses).0 (collect night ses).1
        (λ e. apart.0 (sym e)) in
    (r ∙ f, q ∙ g)

-- A door or a motion sensor that the night does not leave out.
abbrev pub is_guard : Bool → SensorEntry → Bool
is_guard true se = (str_eq se.type "DWS" || str_eq se.type "PIR") && not se.night_allowed
is_guard false se = str_eq se.type "DWS" || str_eq se.type "PIR"

watched-guard : (night : Bool) (se : SensorEntry) → watched night se ≡ is_guard night se
unfolding watched
watched-guard true se = ground arith
watched-guard false se = ground arith

-- Of sensors that are apart, the siren watches a door or motion sensor unless the night leaves it out,
-- and no other sensor; it gives those that are not instant the entry delay. Its delays are not 0, but
-- for an exit delay not asked for.
pub arming_watches :
    (night delayed : Bool) (cfg : Config) (se : SensorEntry)
    → Distinct cfg.sensors
    → Memᴰ se cfg.sensors
    → let a = arming night delayed cfg in
      (contains se.id a.active ≡ is_guard night se)
      × (contains se.id a.delayed ≡ (is_guard night se && not se.instant))
      × (0 < a.entry_delay)
      × (0 < a.alert)
      × (ltb 0 a.exit_delay ≡ delayed)
unfolding arming
arming_watches night delayed cfg se d m =
    let (active, late) = collect-watched night se cfg.sensors d m in
    let guard = watched-guard night se in
    (
      active ∙ guard,
      late ∙ ap (λ b. b && not se.instant) guard,
      pending_delay-positive cfg,
      wail_duration-positive cfg,
      exit_delay-positive delayed cfg,
    )
