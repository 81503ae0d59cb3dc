-- ===== src/Daemon/Siren.antt =====
-- The siren as the alarm arms it, cmd/openqiarad/siren.go. The sensors that the camera's client knows are
-- an argument.
use openqiara.Prelude.{ℕ, Bool, ◌&&◌, ◌||◌, not, List, [], ◌∷◌, ◌==◌, if◌then◌else◌}
use openqiara.Config.Types.{Config, SensorEntry}
use openqiara.Config.Settings.{arming_delay, pending_delay, wail_duration, siren_sounds_mode}
use Prim.Native.String.{String}
use openqiara.Camera.Siren.{SirenArming}
use text.Mathlib.Text.{◌==◌ as str_eq}

-- The siren of the alarm; 0 for none.
unfoldable pub siren_id : List (ℕ × String) → ℕ
siren_id [] = 0
siren_id ((id, type) ∷ ses) = if str_eq type "SRN" then id else siren_id ses

unfoldable pub present : List (ℕ × String) → Config → Bool
unfolding siren_id
present cached cfg = not (siren_id cached == 0) && not (str_eq (siren_sounds_mode cfg) "none")

-- The sensors that the loop does not leave out.
unfoldable pub watched : Bool → SensorEntry → Bool
watched night se = (str_eq se.type "DWS" || str_eq se.type "PIR") && not (night && se.night_allowed)

-- `a.Active` and `a.Delayed` after the loop.
unfoldable pub collect : Bool → List SensorEntry → List ℕ × List ℕ
unfolding watched
collect night [] = ([], [])
collect night (se ∷ ses) =
    let (active, delayed) = collect night ses in
    if watched night se
    then (se.id ∷ active, if not se.instant then se.id ∷ delayed else delayed)
    else (active, delayed)

unfoldable pub arming : Bool → Bool → Config → SirenArming
unfolding collect arming_delay pending_delay wail_duration siren_sounds_mode
arming night delayed cfg = record {
  exit_delay = if delayed then arming_delay cfg else 0;
  entry_delay = pending_delay cfg;
  alert = wail_duration cfg;
  quiet = str_eq (siren_sounds_mode cfg) "alarm_only";
  active = (collect night cfg.sensors).0;
  delayed = (collect night cfg.sensors).1;
}
