-- ===== src/Config/Store.antt =====
-- The store of the configuration, internal/config/config.go. The file is written whole or not at all:
-- the argument `saves` says which.
use openqiara.Prelude.{Bool, true, false, Option, some, if◌then◌else◌}
use openqiara.Config.Types.{Config}

-- The configuration in memory, and the one in the file.
pub record Store : Type 0 where
  pub cfg : Config
  pub file : Option Config

unfoldable pub save : Bool → Store → Store × Bool
save saves s = if saves then (record s { file = some s.cfg }, true) else (s, false)

-- `Update`: a change that cannot be saved is undone.
unfoldable pub update : Bool → (Config → Config) → Store → Store × Bool
unfolding save
update saves fn s =
    let (s', done) = save saves (record s { cfg = fn s.cfg }) in
    if done then (s', true) else (record s' { cfg = s.cfg }, false)

-- What holds of the configuration and of the changed one, holds after the change, saved or not.
pub update_keeps :
    (P : Config → Type 0) (saves : Bool) (fn : Config → Config) (s : Store)
    → P s.cfg
    → P (fn s.cfg)
    → P (update saves fn s).0.cfg
unfolding update save
update_keeps P true fn s before after = after
update_keeps P false fn s before after = before
