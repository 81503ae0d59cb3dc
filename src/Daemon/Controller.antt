-- ===== src/Daemon/Controller.antt =====
-- The mirror of Alarmo on the siren, cmd/openqiarad/siren_controller.go. The queue of its commands is run in
-- order: `orders` are the commands that it gave, oldest first.
use openqiara.Prelude.{
  Bool, true, false, ◌||◌, Option, none, some, List, [], ◌∷◌, ◌++◌, if◌then◌else◌,
}
use openqiara.Alarm.Types.{SirenCommand, arm, disarm, entry_delay, alert}
use Prim.Native.String.{String}
use text.Mathlib.Text.{◌==◌ as str_eq}

-- `last` is "" before the first state.
pub record SirenController : Type 0 where
  pub last : String
  pub orders : List SirenCommand

abbrev pub new_siren_controller : SirenController
new_siren_controller = record { last = ""; orders = [] }

-- `nightStates`
abbrev pub is_night_state : String → Bool
is_night_state state =
    str_eq state "armed_night" || (str_eq state "armed_home" || str_eq state "armed_custom_bypass")

abbrev pub armed_state : String → Bool
armed_state state =
    str_eq state "armed_away"
    || (str_eq state "armed_vacation"
        || (str_eq state "armed_night"
            || (str_eq state "armed_home" || str_eq state "armed_custom_bypass")))

-- The function that `Handle` runs in the queue, as the command that it gives, if any.
unfoldable pub command_of : String → Option SirenCommand
command_of state =
    if str_eq state "disarmed"
    then some disarm
    else if str_eq state "arming"
    then some (arm false true)
    else if armed_state state
    then some (arm (is_night_state state) false)
    else if str_eq state "pending"
    then some entry_delay
    else if str_eq state "triggered"
    then some alert
    else none

abbrev pub enqueue : Option SirenCommand → SirenController → SirenController
enqueue none c = c
enqueue (some order) c = record c { orders = c.orders ++ (order ∷ []) }

unfoldable pub handle : String → SirenController → SirenController
unfolding command_of
handle state c =
    if str_eq state c.last then c else enqueue (command_of state) (record c { last = state })

unfoldable pub handle_all : List String → SirenController → SirenController
unfolding handle
handle_all [] c = c
handle_all (s ∷ ss) c = handle_all ss (handle s c)
