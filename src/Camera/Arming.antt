-- ===== src/Camera/Arming.antt =====
-- The delays of the frame that arms the siren (internal/camera/radio.go `ArmSiren`).
use openqiara.Prelude.{ℕ, ◌+◌, ◌*◌, ◌≤◌, ◌<◌, arith}
use openqiara.Camera.Receive.{second}
use openqiara.Camera.Siren.{siren_seconds}

-- Delays that fit, at most 255 s and an alert of at most 510 s, are rounded up: the siren waits no shorter than
-- it is told to, and less than a unit longer. The numbers are bytes.
siren_seconds_rounded :
    (d alert : ℕ)
    → d ≤ 255 * second
    → alert ≤ 510 * second
    → (d ≤ siren_seconds d second * second)
      × (siren_seconds d second * second < d + second)
      × (siren_seconds d second ≤ 255)
      × (alert ≤ siren_seconds alert (2 * second) * (2 * second))
      × (siren_seconds alert (2 * second) * (2 * second) < alert + 2 * second)
      × (siren_seconds alert (2 * second) ≤ 255)
unfolding siren_seconds
siren_seconds_rounded d alert h k =
    (ground arith, ground arith, ground arith, ground arith, ground arith, ground arith)
