-- ===== src/Alarm/SirenRate.antt =====
-- What the siren's driver (internal/alarm/siren.go) sends, and how often.
use openqiara.Prelude.{
  ℕ, suc, ◌+◌, ◌-◌, ◌*◌, ◌≤◌, Bool, true, false, not, ◌&&◌, Option, none, some, List, [], ◌∷◌, leb,
  ◌≡◌, arith, refl, if◌then◌else◌,
}
use openqiara.Alarm.Types.{
  SirenState, siren_off, siren_test, siren_exit_delay, siren_armed, siren_entry_delay, siren_alert,
  siren_alert_over, SirenCommand,
}
use openqiara.Alarm.Types
use openqiara.Alarm.SirenDriver.{
  Order, radio_arm, radio_disarm, radio_request_state, retry_after, Driver, Radio, rearm_every,
  drive_arm, retry, drive_disarm, drive_alert, drive_entry_delay, handle_report, Call, order,
  reported, retried, drive, drive_all,
}

-- The armings sent.
abbrev pub arms : List Order → ℕ
arms [] = 0
arms (radio_arm night delay ∷ xs) = suc (arms xs)
arms (_ ∷ xs) = arms xs

-- The orders that make a siren keep an alarm or sound.
abbrev pub is_loud : Order → Bool
is_loud radio_disarm = false
is_loud radio_request_state = false
is_loud (retry_after d) = false
is_loud _ = true

abbrev pub all_absent : List (Radio × Call) → Bool
all_absent [] = true
all_absent ((r, c) ∷ cs) = not r.present && all_absent cs

abbrev pub loud : List Order → ℕ
loud [] = 0
loud (x ∷ xs) = if is_loud x then suc (loud xs) else loud xs

drive-loud :
    (r : Radio) (c : Call) (d : Driver) → r.present ≡ false → loud (drive r c d).out ≡ loud d.out
unfolding drive drive_arm drive_disarm drive_entry_delay drive_alert handle_report retry
drive-loud r (order (Types.SirenCommand.arm night delay)) d p = ground arith
drive-loud r (order Types.SirenCommand.disarm) d p = ground arith
drive-loud r (order Types.SirenCommand.entry_delay) d p = ground arith
drive-loud r (order Types.SirenCommand.alert) d p = ground arith
drive-loud r (reported s) d p = ground arith
drive-loud r retried d p = ground arith

-- While no siren keeps the alarm (`siren_sounds` none), no commands and no reports make the driver
-- arm the siren or sound it.
absent_siren_silent :
    (cs : List (Radio × Call)) (d : Driver)
    → all_absent cs ≡ true
    → loud (drive_all cs d).out ≡ loud d.out
unfolding drive_all
absent_siren_silent [] d h = refl
absent_siren_silent ((r, c) ∷ cs) d h =
    ground (arith, drive-loud r c d, absent_siren_silent cs (drive r c d))

-- Reports and retries only, up to a time.
abbrev pub reports_until : ℕ → List (Radio × Call) → Bool
reports_until t [] = true
reports_until t ((r, order c) ∷ cs) = false
reports_until t ((r, reported s) ∷ cs) = leb r.now t && reports_until t cs
reports_until t ((r, retried) ∷ cs) = leb r.now t && reports_until t cs

-- When the driver last armed a siren that it found off.
abbrev since : Driver → ℕ
since d = elim d.last_rearm [ none ↦ 0 | some t ↦ t ]

abbrev is_set : Option ℕ → Bool
is_set none = false
is_set (some t) = true

-- One report or retry keeps the spacing.
record Spaced (d e : Driver) (t : ℕ) : Type 0 where
  set : is_set e.last_rearm ≡ true
  waiting : e.delayed ≡ none
  past : since e ≤ t
  spaced : arms e.out * rearm_every + since d ≤ arms d.out * rearm_every + since e

drive-Spaced :
    (r : Radio) (c : Call) (d : Driver) (t : ℕ)
    → reports_until t ((r, c) ∷ []) ≡ true
    → is_set d.last_rearm ≡ true
    → d.delayed ≡ none
    → since d ≤ t
    → Spaced d (drive r c d) t
unfolding drive handle_report retry
drive-Spaced r (order c) d t h s w p = cc
drive-Spaced r (reported x) d t h s w p = ground arith
drive-Spaced r retried d t h s w p = ground arith

arms_spaced :
    (cs : List (Radio × Call)) (d : Driver) (t : ℕ)
    → reports_until t cs ≡ true
    → is_set d.last_rearm ≡ true
    → d.delayed ≡ none
    → since d ≤ t
    → arms (drive_all cs d).out * rearm_every + since d ≤ arms d.out * rearm_every + t
unfolding drive_all
arms_spaced [] d t h s w p = omega arith
arms_spaced ((r, order c) ∷ cs) d t h s w p = cc
arms_spaced ((r, reported x) ∷ cs) d t h s w p =
    ground (arith, drive-Spaced r (reported x) d t, arms_spaced cs (drive r (reported x) d) t)
arms_spaced ((r, retried) ∷ cs) d t h s w p =
    ground (arith, drive-Spaced r retried d t, arms_spaced cs (drive r retried d) t)

-- A siren that keeps reporting itself off, or keeps refusing, is not armed in a loop: once the driver
-- has armed it again at the time `u`, the reports and retries up to a time `t` make it send one
-- arming for each `rearm_every` in between at most.
pub rearm_rate :
    (cs : List (Radio × Call)) (d : Driver) (u t : ℕ)
    → d.last_rearm ≡ some u
    → d.delayed ≡ none
    → u ≤ t
    → reports_until t cs ≡ true
    → (arms (drive_all cs d).out - arms d.out) * rearm_every ≤ t - u
rearm_rate cs d u t l w p h = ground (arith, arms_spaced cs d t h)
