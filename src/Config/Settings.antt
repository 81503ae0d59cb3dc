-- ===== src/Config/Settings.antt =====
-- The settings of the alarm with their defaults, internal/config/config.go. Times are nanoseconds. A setting
-- that is negative there is 0 here, which has the default too.
use openqiara.Prelude.{ℕ, ◌*◌, ltb, if◌then◌else◌}
use openqiara.Config.Types.{Config}
use Prim.Native.String.{String}
use text.Mathlib.Text.{◌==◌ as str_eq}

abbrev pub second : ℕ
second = 1_000_000_000

abbrev pub default_arming_delay_seconds : ℕ
default_arming_delay_seconds = 60

abbrev pub default_pending_delay_seconds : ℕ
default_pending_delay_seconds = 60

abbrev pub default_wail_duration_seconds : ℕ
default_wail_duration_seconds = 300

unfoldable pub arming_delay : Config → ℕ
arming_delay c =
    if ltb 0 c.alarm.arming_delay_seconds
    then c.alarm.arming_delay_seconds * second
    else default_arming_delay_seconds * second

unfoldable pub pending_delay : Config → ℕ
pending_delay c =
    if ltb 0 c.alarm.pending_delay_seconds
    then c.alarm.pending_delay_seconds * second
    else default_pending_delay_seconds * second

unfoldable pub wail_duration : Config → ℕ
wail_duration c =
    if ltb 0 c.alarm.wail_duration_seconds
    then c.alarm.wail_duration_seconds * second
    else default_wail_duration_seconds * second

unfoldable pub siren_sounds_mode : Config → String
siren_sounds_mode c =
    if str_eq c.alarm.siren_sounds "alarm_only"
    then c.alarm.siren_sounds
    else if str_eq c.alarm.siren_sounds "none"
    then c.alarm.siren_sounds
    else "all"
