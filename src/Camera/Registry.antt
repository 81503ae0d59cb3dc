-- ===== src/Camera/Registry.antt =====
-- The registry of the paired sensors, internal/camera/radio.go: the addresses that pairings give, the
-- sensors that they add, and their removal. The changes are those that `Store.Update` makes.
use openqiara.Prelude.{
  ℕ, zero, suc, ◌+◌, ◌%◌, Bool, true, false, ◌&&◌, ◌||◌, not, Option, none, some, List, [], ◌∷◌,
  ◌++◌, ltb, leb, ◌==◌, length, if◌then◌else◌,
}
use openqiara.Charmux.Varint.{u32_mod}
use openqiara.Config.Types.{Config, SensorEntry, RadioNode}
use openqiara.Config.Store.{Store, update}
use openqiara.Radio.Types.{pos}
use Prim.Native.String.{String}

abbrev pub max : ℕ → ℕ → ℕ
max a b = if ltb a b then b else a

-- ASCII text without regard to case, as hexadecimal is (`strings.EqualFold`).
abbrev pub lower : ℕ → ℕ
lower c = if leb b'A' c && leb c b'Z' then c + 32 else c

abbrev pub equal_fold : List ℕ → List ℕ → Bool
equal_fold [] [] = true
equal_fold [] (d ∷ ds) = false
equal_fold (c ∷ cs) [] = false
equal_fold (c ∷ cs) (d ∷ ds) = lower c == lower d && equal_fold cs ds

-- The loop of `reserveAddr`. A uint32 wraps.
unfoldable pub above_addrs : ℕ → List SensorEntry → ℕ
above_addrs addr [] = addr
above_addrs addr (se ∷ ses) = above_addrs (max addr ((se.radio.addr + 1) % u32_mod)) ses

unfoldable pub next_addr : ℕ → Config → ℕ
unfolding above_addrs
next_addr gateway cfg =
    let addr = above_addrs (max cfg.radio_next_addr 2) cfg.sensors in
    if addr == gateway then (addr + 1) % u32_mod else addr

-- `none` is an error: the address cannot be saved, or none is left.
unfoldable pub reserve_addr : Bool → ℕ → Store → Store × Option ℕ
unfolding next_addr update
reserve_addr saves gateway s =
    let addr = next_addr gateway s.cfg in
    let (s', done) =
      update saves (λ cfg. record cfg { radio_next_addr = (addr + 1) % u32_mod }) s in
    (s', if not done then none else if ltb 0xff addr then none else some addr)

unfoldable pub max_id : ℕ → List SensorEntry → ℕ
max_id id [] = id
max_id id (se ∷ ses) = max_id (max id se.id) ses

unfoldable pub max_deleted : ℕ → List ℕ → ℕ
max_deleted id [] = id
max_deleted id (d ∷ ds) = max_deleted (max id d) ds

unfoldable pub next_id : Config → ℕ
unfolding max_id max_deleted
next_id cfg = max_deleted (max_id 0 cfg.sensors) cfg.deleted_ids + 1

abbrev pub has_index : ℕ → List SensorEntry → Bool
has_index i [] = false
has_index i (se ∷ ses) = (not (se.radio.addr == 0) && se.radio.system_index == i) || has_index i ses

-- The loop over the 64 indexes; the fuel is how many are left.
unfoldable pub free_loop : ℕ → ℕ → List SensorEntry → Option ℕ
free_loop zero i ses = none
free_loop (suc fuel) i ses =
    let rest = free_loop fuel (i + 1) ses in if not (has_index i ses) then some i else rest

unfoldable pub free_system_index : List SensorEntry → Option ℕ
unfolding free_loop
free_system_index ses = free_loop 64 0 ses

-- The position of the sensor with a hardware id.
unfoldable pub index_of_uid : List ℕ → List SensorEntry → Option ℕ
index_of_uid uid [] = none
index_of_uid uid (se ∷ ses) =
    if equal_fold se.radio.uid uid
    then some 0
    else elim (index_of_uid uid ses) [ none ↦ none | some i ↦ some (suc i) ]

abbrev pub no_radio : RadioNode
no_radio = record { addr = 0; uid = []; system_index = 0 }

-- The loop that takes an address from the sensors that had it, but for the one at `i`; `j` counts.
unfoldable pub clear_others : ℕ → ℕ → ℕ → List SensorEntry → List SensorEntry
clear_others j i addr [] = []
clear_others j i addr (se ∷ ses) =
    (if not (j == i) && se.radio.addr == addr then record se { radio = no_radio } else se)
    ∷ clear_others (j + 1) i addr ses

abbrev pub new_entry : ℕ → SensorEntry
new_entry id = record {
  id = id;
  type = "";
  model = "";
  label = "";
  night_allowed = false;
  instant = false;
  kpd_codes = [];
  radio = no_radio;
  battery = pos 0;
  temperature = none;
}

-- The end of the change: the sensor at `i` gets the address and its type.
unfoldable pub take_over : ℕ → String → RadioNode → List SensorEntry → List SensorEntry
take_over i typ node [] = []
take_over zero typ node (se ∷ ses) = record se { type = typ; radio = node } ∷ ses
take_over (suc i) typ node (se ∷ ses) = se ∷ take_over i typ node ses

unfoldable pub claim : ℕ → String → RadioNode → List SensorEntry → List SensorEntry
unfolding clear_others take_over
claim i typ node ses = take_over i typ node (clear_others 0 i node.addr ses)

-- `cfg.Sensors[i].Radio.SystemIndex`
abbrev pub index_at : ℕ → List SensorEntry → ℕ
index_at i [] = 0
index_at zero (se ∷ ses) = se.radio.system_index
index_at (suc i) (se ∷ ses) = index_at i ses

-- The change of `adopt`; `none` if no system index is left.
unfoldable pub adopt_in : String → RadioNode → Config → Option Config
unfolding claim next_id free_system_index index_of_uid
adopt_in typ node cfg = elim (index_of_uid node.uid cfg.sensors) [
  | some i ↦ some (record cfg {
    sensors = claim i typ (record node { system_index = index_at i cfg.sensors }) cfg.sensors;
  })
  | none ↦ elim (free_system_index cfg.sensors) [
    | none ↦ none
    | some index ↦ some (record cfg {
      sensors =
          claim (length cfg.sensors) typ (record node { system_index = index })
            (cfg.sensors ++ (new_entry (next_id cfg) ∷ []));
    })
  ]
]

-- The configuration is left as it is if the set is full, and written all the same.
unfoldable pub adopt : Bool → String → RadioNode → Store → Store × Bool
unfolding adopt_in update
adopt saves typ node s = elim (adopt_in typ node s.cfg) [
  | none ↦ ((update saves (λ cfg. cfg) s).0, false)
  | some cfg' ↦ update saves (λ cfg. cfg') s
]

-- `DeleteSensor`, and the change of the web server's handler, which keeps the id from coming back.
unfoldable pub without : ℕ → List SensorEntry → List SensorEntry
without id [] = []
without id (se ∷ ses) = if se.id == id then without id ses else se ∷ without id ses

unfoldable pub delete_sensor : Bool → ℕ → Store → Store × Bool
unfolding without update
delete_sensor saves id s = update saves (λ cfg. record cfg { sensors = without id cfg.sensors }) s

-- The change of the web server's handler: the id is kept as deleted (internal/web/server.go).
abbrev pub contains : ℕ → List ℕ → Bool
contains id [] = false
contains id (d ∷ ds) = d == id || contains id ds

unfoldable pub without_first : ℕ → List SensorEntry → List SensorEntry
without_first id [] = []
without_first id (se ∷ ses) = if se.id == id then ses else se ∷ without_first id ses

unfoldable pub forget_sensor : Bool → ℕ → Store → Store × Bool
unfolding without_first update
forget_sensor saves id s =
    update saves
      (λ cfg. record cfg {
        sensors = without_first id cfg.sensors;
        deleted_ids =
            if contains id cfg.deleted_ids then cfg.deleted_ids else cfg.deleted_ids ++ (id ∷ []);
      })
      s
