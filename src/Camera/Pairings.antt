-- ===== src/Camera/Pairings.antt =====
-- The registry over the whole life of the gateway (internal/camera/radio.go, internal/web/server.go): any
-- reservations, pairings and removals, one after the other, saved or not.
use openqiara.Prelude.{
  ℕ, suc, ◌+◌, ◌*◌, ◌≤◌, ◌<◌, ◌≡◌, ◌≢◌, Bool, true, false, Option, none, some, List, [], ◌∷◌, ◌==◌,
  length, arith, refl, sym, inl, inr, Bool-cases, Option-cases, All,
}
use openqiara.Charmux.Varint.{u32_mod}
use openqiara.Config.Types.{Config, SensorEntry, RadioNode}
use openqiara.Config.Store.{Store, save, update, update_keeps}
use openqiara.Camera.Registry.{
  max, next_addr, reserve_addr, adopt_in, adopt, without, without_first, delete_sensor,
  forget_sensor,
}
use openqiara.Camera.Unique.{Apart, Distinct, IsEntry}
use openqiara.Camera.Adopt.{adopt_in-Distinct, above_addrs_below}
use mathlib.Core.Path.{subst}
use Prim.Native.String.{String}

-- Each with whether the configuration can be saved.
pub data Call : Type 0 where
  reserved : Bool → Call
  paired : Bool → String → RadioNode → Call
  deleted : Bool → ℕ → Call
  forgotten : Bool → ℕ → Call

-- The store, and the addresses given, newest first.
unfoldable pub step : ℕ → Store × List ℕ → Call → Store × List ℕ
step gateway (s, given) (reserved saves) =
    let (s', addr) = reserve_addr saves gateway s in
    (s', elim addr [ none ↦ given | some a ↦ a ∷ given ])
step gateway (s, given) (paired saves typ node) = ((adopt saves typ node s).0, given)
step gateway (s, given) (deleted saves id) = ((delete_sensor saves id s).0, given)
step gateway (s, given) (forgotten saves id) = ((forget_sensor saves id s).0, given)

unfoldable pub run : ℕ → Store × List ℕ → List Call → Store × List ℕ
run gateway st [] = st
run gateway st (c ∷ cs) = run gateway (step gateway st c) cs

-- What a pairing ends with: an address that is a byte and not 0, and the hardware id as text.
abbrev pub IsPaired : Call → Type 0
IsPaired (reserved saves) = Unit
IsPaired (paired saves typ node) = (node.addr ≢ 0) × (node.addr < 256) × (node.uid ≢ [])
IsPaired (deleted saves id) = Unit
IsPaired (forgotten saves id) = Unit

-- The addresses given, newest first: each is above all that were given before it, and below `n`.
abbrev pub Ascend : ℕ → List ℕ → Type 0
Ascend n [] = Unit
Ascend n (a ∷ given) = (a < n) × Ascend a given

abbrev pub IsRegistry : List SensorEntry → Type 0
IsRegistry ses = Distinct ses × All IsEntry ses

All-without :
    (P : SensorEntry → Type 0) (id : ℕ) (ses : List SensorEntry)
    → All P ses
    → All P (without id ses) × All P (without_first id ses)
unfolding without without_first
All-without P id [] h = (tt, tt)
All-without P id (se ∷ ses) (p, h) = elim (Bool-cases (se.id == id)) [
  | inl gone ↦ rw gone ((All-without P id ses h).0, h)
  | inr other ↦ rw other ((p, (All-without P id ses h).0), (p, (All-without P id ses h).1))
]

Distinct-without :
    (id : ℕ) (ses : List SensorEntry)
    → Distinct ses
    → Distinct (without id ses) × Distinct (without_first id ses)
unfolding without without_first
Distinct-without id [] d = (tt, tt)
Distinct-without id (se ∷ ses) (a, d) = elim (Bool-cases (se.id == id)) [
  | inl gone ↦ rw gone ((Distinct-without id ses d).0, d)
  | inr other ↦
      let (b, c) = All-without (Apart se) id ses a in
      let (e, f) = Distinct-without id ses d in rw other ((b, e), (c, f))
]

next_addr-le :
    (gateway : ℕ) (cfg : Config)
    → All IsEntry cfg.sensors
    → max cfg.radio_next_addr 256 + 3 < u32_mod
    → (cfg.radio_next_addr ≤ next_addr gateway cfg)
      × (next_addr gateway cfg ≤ max cfg.radio_next_addr 256 + 1)
unfolding next_addr
next_addr-le gateway cfg en room =
    let (a, l, u) = above_addrs_below (max cfg.radio_next_addr 2) cfg.sensors en in
    (ground arith, ground arith)

-- A reservation, whatever comes of it.
reserve_addr_step :
    (saves : Bool) (gateway : ℕ) (s : Store)
    → All IsEntry s.cfg.sensors
    → max s.cfg.radio_next_addr 256 + 3 < u32_mod
    → let (s', addr) = reserve_addr saves gateway s in
      (s'.cfg.sensors ≡ s.cfg.sensors)
      × (s.cfg.radio_next_addr ≤ s'.cfg.radio_next_addr)
      × (s'.cfg.radio_next_addr ≤ max s.cfg.radio_next_addr 256 + 2)
      × ((a : ℕ) → addr ≡ some a → (s.cfg.radio_next_addr ≤ a) × (a < s'.cfg.radio_next_addr))
unfolding reserve_addr
reserve_addr_step true gateway s en room =
    let (l, u) = next_addr-le gateway s.cfg en room in
    (refl, ground arith, ground arith, λ a e. (ground arith, ground arith))
reserve_addr_step false gateway s en room = (refl, omega arith, ground arith, λ a e. cc)

adopt_in-next :
    (typ : String) (node : RadioNode) (cfg cfg' : Config)
    → adopt_in typ node cfg ≡ some cfg'
    → cfg'.radio_next_addr ≡ cfg.radio_next_addr
unfolding adopt_in
adopt_in-next typ node cfg cfg' h = ground arith

-- What a change leaves: the registry, and the next address as it was.
Left : Config → Config → Type 0
Left cfg cfg' = IsRegistry cfg'.sensors × (cfg'.radio_next_addr ≡ cfg.radio_next_addr)

adopt-Left :
    (saves : Bool) (typ : String) (node : RadioNode) (s : Store)
    → IsRegistry s.cfg.sensors
    → node.addr ≢ 0
    → node.addr < 256
    → node.uid ≢ []
    → Left s.cfg (adopt saves typ node s).0.cfg
unfolding adopt Left
adopt-Left saves typ node s (d, h) n b u = elim (Option-cases (adopt_in typ node s.cfg)) [
  | inl e ↦
      rw (e, adopt) (update_keeps (Left s.cfg) saves (λ cfg. cfg) s ((d, h), refl) ((d, h), refl))
  | inr (cfg', e) ↦
      rw (e, adopt)
        (update_keeps (Left s.cfg) saves (λ cfg. cfg') s ((d, h), refl)
          (adopt_in-Distinct typ node s.cfg cfg' e d h n b u, adopt_in-next typ node s.cfg cfg' e))
]

delete_sensor-Left :
    (saves : Bool) (id : ℕ) (s : Store)
    → IsRegistry s.cfg.sensors
    → Left s.cfg (delete_sensor saves id s).0.cfg × Left s.cfg (forget_sensor saves id s).0.cfg
unfolding delete_sensor forget_sensor Left update save
delete_sensor-Left true id s (d, h) =
    let (d1, d2) = Distinct-without id s.cfg.sensors d in
    let (h1, h2) = All-without IsEntry id s.cfg.sensors h in (((d1, h1), refl), ((d2, h2), refl))
delete_sensor-Left false id s reg = ((reg, refl), (reg, refl))

-- The invariant of the life: the sensors, the addresses given, and room below the wrap for `k` calls.
abbrev Kept : ℕ → Store × List ℕ → Type 0
Kept k (s, given) =
    IsRegistry s.cfg.sensors
    × Ascend s.cfg.radio_next_addr given
    × (max s.cfg.radio_next_addr 256 + 2 * k + 3 < u32_mod)

Ascend-mono : (n m : ℕ) (given : List ℕ) → n ≤ m → Ascend n given → Ascend m given
Ascend-mono n m [] l h = tt
Ascend-mono n m (a ∷ given) l (p, h) = (omega arith, h)

Left-Kept :
    (k : ℕ) (s s' : Store) (given : List ℕ)
    → Left s.cfg s'.cfg
    → Kept (suc k) (s, given)
    → Kept k (s', given)
unfolding Left
Left-Kept k s s' given (reg', e) (reg, asc, room) = (
  reg',
  subst (λ n. Ascend n given) (sym e) asc,
  subst (λ n. max n 256 + 2 * k + 3 < u32_mod) (sym e) (omega arith),
)

reserve_addr-Kept :
    (k next : ℕ) (s : Store) (addr : Option ℕ) (given : List ℕ)
    → IsRegistry s.cfg.sensors
    → (next ≤ s.cfg.radio_next_addr)
    → (s.cfg.radio_next_addr ≤ max next 256 + 2)
    → ((a : ℕ) → addr ≡ some a → (next ≤ a) × (a < s.cfg.radio_next_addr))
    → Ascend next given
    → max next 256 + 2 * suc k + 3 < u32_mod
    → Kept k (s, elim addr [ none ↦ given | some a ↦ a ∷ given ])
reserve_addr-Kept k next s none given reg low high fresh asc room =
    (reg, Ascend-mono _ _ given low asc, ground arith)
reserve_addr-Kept k next s (some a) given reg low high fresh asc room =
    let (l, u) = fresh a refl in (reg, (u, Ascend-mono _ _ given l asc), ground arith)

step-Kept :
    (gateway k : ℕ) (st : Store × List ℕ) (c : Call)
    → IsPaired c
    → Kept (suc k) st
    → Kept k (step gateway st c)
unfolding step
step-Kept gateway k (s, given) (reserved saves) pc (reg, asc, room) =
    let (same, low, high, fresh) = reserve_addr_step saves gateway s reg.1 (omega arith) in
    reserve_addr-Kept k s.cfg.radio_next_addr (reserve_addr saves gateway s).0
      (reserve_addr saves gateway s).1 given (subst IsRegistry (sym same) reg) low high fresh asc
      room
step-Kept gateway k (s, given) (paired saves typ node) (n, b, u) (reg, asc, room) =
    Left-Kept k s (adopt saves typ node s).0 given (adopt-Left saves typ node s reg n b u)
      (reg, asc, room)
step-Kept gateway k (s, given) (deleted saves id) pc (reg, asc, room) =
    Left-Kept k s (delete_sensor saves id s).0 given (delete_sensor-Left saves id s reg).0
      (reg, asc, room)
step-Kept gateway k (s, given) (forgotten saves id) pc (reg, asc, room) =
    Left-Kept k s (forget_sensor saves id s).0 given (delete_sensor-Left saves id s reg).1
      (reg, asc, room)

run-Kept :
    (gateway : ℕ) (cs : List Call) (st : Store × List ℕ)
    → All IsPaired cs
    → Kept (length cs) st
    → Kept 0 (run gateway st cs)
unfolding run
run-Kept gateway [] st p h = h
run-Kept gateway (c ∷ cs) st (p, ps) h =
    run-Kept gateway cs (step gateway st c) ps (step-Kept gateway (length cs) st c p h)

-- In any sequence of reservations, pairings and removals, saved or not, from a registry whose sensors are
-- apart: the sensors stay apart, and the addresses given rise, so none is given twice, so long as the
-- counter cannot wrap.
pub run_registered :
    (gateway : ℕ) (cs : List Call) (s : Store)
    → Distinct s.cfg.sensors
    → All IsEntry s.cfg.sensors
    → All IsPaired cs
    → max s.cfg.radio_next_addr 256 + 2 * length cs + 3 < u32_mod
    → let (s', given) = run gateway (s, []) cs in
      Distinct s'.cfg.sensors × All IsEntry s'.cfg.sensors × Ascend s'.cfg.radio_next_addr given
run_registered gateway cs s d h ps room =
    let ((d', h'), asc, low) = run-Kept gateway cs (s, []) ps ((d, h), tt, room) in (d', h', asc)
