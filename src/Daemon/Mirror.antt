-- ===== src/Daemon/Mirror.antt =====
-- The siren's driver follows Alarmo (cmd/openqiarad/siren_controller.go, internal/alarm/siren.go).
use openqiara.Prelude.{
  ◌≡◌, Bool, false, Option, none, some, List, [], ◌∷◌, if◌then◌else◌, arith, refl, ap, ◌∙◌, inl,
  inr, Bool-cases,
}
use openqiara.Alarm.Types.{SirenCommand}
use openqiara.Alarm.SirenDriver.{Radio, Call, new_driver, drive_all}
use openqiara.Alarm.SirenWant.{Follows, commands, wants, wants-snoc, drive_all-Follows}
use openqiara.Daemon.Controller.{
  SirenController, new_siren_controller, armed_state, is_night_state, command_of, enqueue, handle,
  handle_all,
}
use Prim.Native.String.{String}
use text.Mathlib.Text.{◌==◌ as str_eq}
use text.Mathlib.TextEquality.{eq_iff}

-- What the siren is to be after a state of Alarmo, `w` before it: off or armed for a mode. The entry delay and
-- the alert leave it armed.
unfoldable pub after_state : String → Option (Option Bool) → Option (Option Bool)
after_state s w =
    if str_eq s "disarmed"
    then some none
    else if str_eq s "arming"
    then some (some false)
    else if armed_state s
    then some (some (is_night_state s))
    else w

unfoldable pub mirrored : Option (Option Bool) → List String → Option (Option Bool)
unfolding after_state
mirrored w [] = w
mirrored w (s ∷ ss) = mirrored (after_state s w) ss

-- The command of a state, if it has one.
abbrev wants_of : Option (Option Bool) → Option SirenCommand → Option (Option Bool)
wants_of w none = w
wants_of w (some c) = wants w (c ∷ [])

command-after_state :
    (s : String) (w : Option (Option Bool)) → wants_of w (command_of s) ≡ after_state s w
unfolding command_of after_state
command-after_state s w = ground arith

wants-enqueue :
    (o : Option SirenCommand) (c : SirenController)
    → wants none (enqueue o c).orders ≡ wants_of (wants none c.orders) o
wants-enqueue none c = refl
wants-enqueue (some order) c = wants-snoc none c.orders order

last-enqueue : (o : Option SirenCommand) (c : SirenController) → (enqueue o c).last ≡ c.last
last-enqueue none c = refl
last-enqueue (some order) c = refl

-- A state that is handled again says nothing new.
after_state_again :
    (s : String) (w : Option (Option Bool)) → after_state s (after_state s w) ≡ after_state s w
unfolding after_state
after_state_again s w = ground arith

-- The commands given so far leave wanted what the states say, the last one included.
record Mirrors (w : Option (Option Bool)) (c : SirenController) : Type 0 where
  pub agrees : wants none c.orders ≡ w
  pub settled : after_state c.last w ≡ w

handle-Mirrors :
    (s : String) (w : Option (Option Bool)) (c : SirenController)
    → Mirrors w c
    → Mirrors (after_state s w) (handle s c)
handle-Mirrors s w c m = elim (Bool-cases (str_eq s c.last)) [
  | inl same ↦
      let again : after_state s w ≡ w = rw ((eq_iff s c.last).0 same) m.settled in
      let still : handle s c ≡ c = unfold handle in rw same refl in rw (again, still) m
  | inr new ↦
      let c' : SirenController = record c { last = s } in
      let taken : handle s c ≡ enqueue (command_of s) c' = unfold handle in rw new refl in
      rw taken record {
        agrees =
            wants-enqueue (command_of s) c'
            ∙ ap (λ x. wants_of x (command_of s)) m.agrees
            ∙ command-after_state s w;
        settled = rw (last-enqueue (command_of s) c') (after_state_again s w);
      }
]

handle_all-Mirrors :
    (ss : List String) (w : Option (Option Bool)) (c : SirenController)
    → Mirrors w c
    → Mirrors (mirrored w ss) (handle_all ss c)
unfolding mirrored handle_all
handle_all-Mirrors [] w c m = m
handle_all-Mirrors (s ∷ ss) w c m =
    handle_all-Mirrors ss (after_state s w) (handle s c) (handle-Mirrors s w c m)

-- The mirror and the driver together: whatever states Alarmo went through, whatever the siren reported between
-- the commands that the mirror gave, the driver wants what the last state says that disarms or arms, in its
-- mode, and nothing before the first such state.
pub driver_mirrors_alarmo :
    (ss : List String) (cs : List (Radio × Call))
    → commands cs ≡ (handle_all ss new_siren_controller).orders
    → Follows (mirrored none ss) (drive_all cs new_driver)
driver_mirrors_alarmo ss cs given =
    let m =
      handle_all-Mirrors ss none new_siren_controller
        (record { agrees = refl; settled = unfold after_state in refl }) in
    rw (← (ap (wants none) given ∙ m.agrees))
      (drive_all-Follows cs new_driver none (unfold new_driver in refl))
