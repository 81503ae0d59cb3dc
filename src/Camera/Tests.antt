-- ===== src/Camera/Tests.antt =====
-- The properties of the registry at concrete inputs: a pairing, the pairing of the same sensor again, one
-- that cannot be saved, and a removal.
use openqiara.Prelude.{ℕ, ◌≡◌, true, false, none, List, [], ◌∷◌, arith, refl, All}
use openqiara.Config.Types.{RadioNode}
use openqiara.Config.Store.{Store}
use openqiara.Camera.Registry.{reserve_addr, adopt, new_entry}
use openqiara.Camera.Unique.{Distinct, IsEntry}
use openqiara.Camera.Pairings.{
  Call, reserved, paired, deleted, forgotten, step, run, IsPaired, Ascend, run_registered,
}

abbrev node_at : ℕ → ℕ → RadioNode
node_at addr digit = record { addr = addr; uid = b'a' ∷ digit ∷ []; system_index = 0 }

-- A sensor of an older configuration, at address 7, above the counter.
abbrev old_store : Store
old_store = record {
  cfg = record {
    admin = record { password_hash = []; password = [] };
    alarm = record {
      mode = "";
      alarmo_command_topic = "";
      alarmo_state_topic = "";
      siren_sounds = "";
      arming_delay_seconds = 0;
      pending_delay_seconds = 0;
      wail_duration_seconds = 0;
    };
    sensors = record (new_entry 1) { radio = node_at 7 b'1' } ∷ [];
    deleted_ids = 2 ∷ [];
    radio_next_addr = 0;
    shutter_closed = false;
  };
  file = none;
}

abbrev calls : List Call
calls =
    reserved true
    ∷ paired true "dws" (node_at 9 b'2')
    ∷ reserved false
    ∷ reserved true
    ∷ paired false "pir" (node_at 10 b'3')
    ∷ paired true "pir" (node_at 10 b'1')
    ∷ forgotten true 3
    ∷ deleted true 1
    ∷ []

calls-IsPaired : All IsPaired calls
calls-IsPaired = (
  tt,
  (
    (omega arith, omega arith, λ e. cc),
    (
      tt,
      (
        tt,
        (
          (omega arith, omega arith, λ e. cc),
          ((omega arith, omega arith, λ e. cc), (tt, (tt, tt))),
        ),
      ),
    ),
  ),
)

old-IsEntry : All IsEntry old_store.cfg.sensors
old-IsEntry = ((λ z. cc, omega arith), tt)

-- Addresses 9 and 10: 8 is the gateway's.
registered : (run 8 (old_store, []) calls).1 ≡ 10 ∷ 9 ∷ []
unfolding run step reserve_addr adopt
registered = refl

run_registered_example :
    let (s', given) = run 8 (old_store, []) calls in
    Distinct s'.cfg.sensors × All IsEntry s'.cfg.sensors × Ascend s'.cfg.radio_next_addr given
run_registered_example =
    run_registered 8 calls old_store (tt, tt) old-IsEntry calls-IsPaired (omega arith)
