-- ===== src/Daemon/AlarmoMode.antt =====
-- In alarmo mode the engine of the alarm stays as it is (cmd/openqiarad/main.go).
use openqiara.Prelude.{
  ◌≡◌, true, List, [], ◌∷◌, arith, refl, ◌∙◌, inl, inr, Bool-cases, Option-cases,
}
use openqiara.Camera.Sensors.{SensorEvent}
use openqiara.Alarm.Types.{World, source_local}
use openqiara.Alarm.SirenDriver.{Radio}
use openqiara.Daemon.Forward.{
  Daemon, alarmo_mode, normalised, dispatch_known, dispatch_alarm_command, on_siren_state,
  is_action, report_siren, feed_alarm, forward_event, forward_events,
}
use Prim.Native.String.{String}

-- The engine and the configuration are the same.
abbrev pub Idle : Daemon → Daemon → Type 0
Idle d d' = (d'.alarm ≡ d.alarm) × (d'.config ≡ d.config)

Idle-trans : (a b c : Daemon) → Idle a b → Idle b c → Idle a c
Idle-trans a b c (p, q) (r, s) = (r ∙ p, s ∙ q)

dispatch-Idle :
    (w : World) (cmd : String) (d : Daemon)
    → alarmo_mode d.config ≡ true
    → Idle d (dispatch_alarm_command w cmd source_local d)
unfolding dispatch_alarm_command dispatch_known
dispatch-Idle w cmd d alarmo = elim (Option-cases (normalised cmd)) [
  | inl other ↦ rw (other, dispatch_alarm_command) (refl, refl)
  | inr (c, known) ↦ rw (known, dispatch_alarm_command, alarmo) (ground arith, ground arith)
]

module _ (w : World) (r : Radio) where
  report-Idle :
      (ev : SensorEvent) (d : Daemon) → alarmo_mode d.config ≡ true → Idle d (report_siren w r ev d)
  unfolding report_siren on_siren_state
  report-Idle ev d alarmo = elim (Bool-cases ev.siren_report) [
    | inl report ↦ rw (report, report_siren, alarmo) (refl, refl)
    | inr plain ↦ rw (plain, report_siren) (refl, refl)
  ]

  event-Idle :
      (ev : SensorEvent) (d : Daemon)
      → alarmo_mode d.config ≡ true
      → Idle d (forward_event w r ev d)
  unfolding forward_event feed_alarm
  event-Idle ev d alarmo = elim (Bool-cases (is_action ev.sensor)) [
    | inl action ↦ rw (action, forward_event) (dispatch-Idle w ev.sensor.kpd_state d alarmo)
    | inr state ↦
        let shown : Daemon = record d { published = ev.sensor ∷ d.published } in
        let (alarm, config) = report-Idle ev shown alarmo in
        let still : alarmo_mode (report_siren w r ev shown).config ≡ true = rw config alarmo in
        rw (state, forward_event, still) (alarm, config)
  ]

  -- In alarmo mode, whatever events the sensors, the siren and the keypads make, the daemon leaves
  -- its engine as it is, and stays in alarmo mode.
  pub alarmo_engine_idle :
      (evs : List SensorEvent) (d : Daemon)
      → alarmo_mode d.config ≡ true
      → ((forward_events w r evs d).alarm ≡ d.alarm)
        × (alarmo_mode (forward_events w r evs d).config ≡ true)
  unfolding forward_events
  alarmo_engine_idle [] d alarmo = (refl, alarmo)
  alarmo_engine_idle (ev ∷ evs) d alarmo =
      let d' = forward_event w r ev d in
      let (alarm, config) = event-Idle ev d alarmo in
      let (later, mode) = alarmo_engine_idle evs d' (rw config alarmo) in (later ∙ alarm, mode)
