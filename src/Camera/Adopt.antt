-- ===== src/Camera/Adopt.antt =====
-- The pairings and removals of sensors (internal/camera/radio.go), one after the other: the registry keeps
-- its sensors apart, and no address is given twice.
use openqiara.Prelude.{
  ℕ, ◌+◌, ◌%◌, ◌≤◌, ◌<◌, ◌≡◌, ◌≢◌, Bool, true, false, none, some, List, [], ◌∷◌, ◌++◌, ◌==◌, length,
  if◌then◌else◌, arith, refl, sym, ap, ◌∙◌, inl, inr, Option-cases, All, All-split, All-join,
  All-mono,
}
use openqiara.Charmux.Varint.{u32_mod}
use openqiara.Config.Types.{Config, SensorEntry, RadioNode}
use openqiara.Config.Store.{Store}
use openqiara.Camera.Registry.{
  max, equal_fold, above_addrs, next_addr, reserve_addr, next_id, max_id, max_deleted,
  free_system_index, index_of_uid, index_at, claim, new_entry, adopt_in,
}
use openqiara.Camera.Unique.{
  Apart, Distinct, IsEntry, Frees, claim-IsDistinct, has_index-Frees, index_of_uid-middle,
  free_loop-some, Distinct-middle, Distinct-insert,
}
use mathlib.Core.List.{append-nil}
use mathlib.Core.Path.{subst}
use Prim.Native.String.{String}

index_at-middle :
    (xs ys : List SensorEntry) (y : SensorEntry)
    → index_at (length xs) (xs ++ (y ∷ ys)) ≡ y.radio.system_index
index_at-middle [] ys y = refl
index_at-middle (x ∷ xs) ys y = index_at-middle xs ys y

Apart-Frees :
    (y : SensorEntry) (ses : List SensorEntry)
    → y.radio.addr ≢ 0
    → All (Apart y) ses
    → All (Frees y.radio.system_index) ses
Apart-Frees y [] n a = tt
Apart-Frees y (se ∷ ses) n ((i, r, x), a) = (x n, Apart-Frees y ses n a)

equal_fold-nil : (uid : List ℕ) → equal_fold [] uid ≡ true → uid ≡ []
equal_fold-nil [] h = refl
equal_fold-nil (c ∷ cs) h = cc

-- A sensor with the hardware id of another one has an address.
paired_addr :
    (y : SensorEntry) (uid : List ℕ)
    → IsEntry y
    → equal_fold y.radio.uid uid ≡ true
    → uid ≢ []
    → y.radio.addr ≢ 0
paired_addr y uid h same n z =
    n (equal_fold-nil uid (ap (λ u. equal_fold u uid) (sym (h.0 z)) ∙ same))

-- A sensor that is paired again.
adopt_known :
    (typ : String) (node : RadioNode) (cfg cfg' : Config) (i : ℕ)
    → index_of_uid node.uid cfg.sensors ≡ some i
    → adopt_in typ node cfg ≡ some cfg'
    → cfg'.sensors ≡ claim i typ (record node { system_index = index_at i cfg.sensors }) cfg.sensors
unfolding adopt_in
adopt_known typ node cfg cfg' i found h = ground arith

-- A new one.
adopt_new :
    (typ : String) (node : RadioNode) (cfg cfg' : Config) (k : ℕ)
    → index_of_uid node.uid cfg.sensors ≡ none
    → free_system_index cfg.sensors ≡ some k
    → adopt_in typ node cfg ≡ some cfg'
    → cfg'.sensors
      ≡ claim
          (length cfg.sensors)
          typ
          (record node { system_index = k })
          (cfg.sensors ++ (new_entry (next_id cfg) ∷ []))
unfolding adopt_in
adopt_new typ node cfg cfg' k missing found h = ground arith

adopt_full :
    (typ : String) (node : RadioNode) (cfg : Config)
    → index_of_uid node.uid cfg.sensors ≡ none
    → free_system_index cfg.sensors ≡ none
    → adopt_in typ node cfg ≡ none
unfolding adopt_in
adopt_full typ node cfg missing full = ground arith

max_id_below :
    (id : ℕ) (ses : List SensorEntry) → All (λ se. se.id ≤ max_id id ses) ses × (id ≤ max_id id ses)
unfolding max_id
max_id_below id [] = (tt, omega arith)
max_id_below id (se ∷ ses) =
    let (h, l) = max_id_below (max id se.id) ses in ((ground arith, h), ground arith)

max_deleted_below :
    (id : ℕ) (ds : List ℕ) → All (λ d. d ≤ max_deleted id ds) ds × (id ≤ max_deleted id ds)
unfolding max_deleted
max_deleted_below id [] = (tt, omega arith)
max_deleted_below id (d ∷ ds) =
    let (h, l) = max_deleted_below (max id d) ds in ((ground arith, h), ground arith)

new_entry-Apart :
    (id : ℕ) (ses : List SensorEntry) → All (λ se. se.id < id) ses → All (Apart (new_entry id)) ses
new_entry-Apart id [] h = tt
new_entry-Apart id (se ∷ ses) (l, h) =
    ((λ e. omega (arith, e), λ z. absurd (z refl), λ z. absurd (z refl)), new_entry-Apart id ses h)

-- The id of a new sensor is above every id that is in use or deleted.
pub next_id_new :
    (cfg : Config)
    → All (λ se. se.id < next_id cfg) cfg.sensors × All (λ d. d < next_id cfg) cfg.deleted_ids
unfolding next_id
next_id_new cfg =
    let (h, l) = max_id_below 0 cfg.sensors in
    let (k, m) = max_deleted_below (max_id 0 cfg.sensors) cfg.deleted_ids in
    (
      All-mono _ _ cfg.sensors (λ se p. omega (arith, p, m)) h,
      All-mono _ _ cfg.deleted_ids (λ e p. omega (arith, p)) k,
    )

claim_known :
    (typ : String) (node : RadioNode) (ses : List SensorEntry) (i : ℕ)
    → index_of_uid node.uid ses ≡ some i
    → Distinct ses
    → All IsEntry ses
    → node.addr ≢ 0
    → node.addr < 256
    → node.uid ≢ []
    → Distinct (claim i typ (record node { system_index = index_at i ses }) ses)
      × All IsEntry (claim i typ (record node { system_index = index_at i ses }) ses)
claim_known typ node ses i found d h n b u =
    let (xs, y, ys, e, l, same) = index_of_uid-middle node.uid ses i found in
    let d' : Distinct (xs ++ (y ∷ ys)) = subst Distinct e d in
    let h' : All IsEntry (xs ++ (y ∷ ys)) = subst (All IsEntry) e h in
    let (others, apart) = Distinct-middle xs ys y d' in
    let hy = (All-split IsEntry xs (y ∷ ys) h').1.0 in
    let frees = Apart-Frees y (xs ++ ys) (paired_addr y node.uid hy same u) apart in
    rw e (
      rw (sym l) (
        rw (index_at-middle xs ys y) (
          claim-IsDistinct typ (record node { system_index = y.radio.system_index }) xs ys y d' h'
            frees n b)))

claim_new :
    (typ : String) (node : RadioNode) (ses : List SensorEntry) (id k : ℕ)
    → All (λ se. se.id < id) ses
    → free_system_index ses ≡ some k
    → Distinct ses
    → All IsEntry ses
    → node.addr ≢ 0
    → node.addr < 256
    → Distinct
        (claim (length ses) typ (record node { system_index = k }) (ses ++ (new_entry id ∷ [])))
      × All IsEntry
          (claim (length ses) typ (record node { system_index = k }) (ses ++ (new_entry id ∷ [])))
unfolding free_system_index
claim_new typ node ses id k below free d h n b =
    let y = new_entry id in
    claim-IsDistinct typ (record node { system_index = k }) ses [] y
      (Distinct-insert ses [] y (rw (append-nil ses) d)
        (rw (append-nil ses) (new_entry-Apart id ses below)))
      (All-join IsEntry ses (y ∷ []) h ((λ z. refl, omega arith), tt))
      (rw (append-nil ses) (has_index-Frees k ses (free_loop-some 64 0 k ses free).0)) n b

pub adopt_in-Distinct :
    (typ : String) (node : RadioNode) (cfg cfg' : Config)
    → adopt_in typ node cfg ≡ some cfg'
    → Distinct cfg.sensors
    → All IsEntry cfg.sensors
    → node.addr ≢ 0
    → node.addr < 256
    → node.uid ≢ []
    → Distinct cfg'.sensors × All IsEntry cfg'.sensors
adopt_in-Distinct typ node cfg cfg' h d en n b u =
    elim (Option-cases (index_of_uid node.uid cfg.sensors)) [
      | inr (i, found) ↦
          subst (λ ses. Distinct ses × All IsEntry ses)
            (sym (adopt_known typ node cfg cfg' i found h))
            (claim_known typ node cfg.sensors i found d en n b u)
      | inl missing ↦ elim (Option-cases (free_system_index cfg.sensors)) [
        | inl full ↦ absurd (cc (adopt_full typ node cfg missing full))
        | inr (k, free) ↦
            subst (λ ses. Distinct ses × All IsEntry ses)
              (sym (adopt_new typ node cfg cfg' k missing free h))
              (claim_new typ node cfg.sensors (next_id cfg) k (next_id_new cfg).0 free d en n b)
      ]
    ]

pub above_addrs_below :
    (addr : ℕ) (ses : List SensorEntry)
    → All IsEntry ses
    → All (λ se. se.radio.addr < above_addrs addr ses) ses
      × (addr ≤ above_addrs addr ses)
      × (above_addrs addr ses ≤ max addr 256)
unfolding above_addrs
above_addrs_below addr [] h = (tt, omega arith, ground arith)
above_addrs_below addr (se ∷ ses) (p, h) =
    let (a, l, u) = above_addrs_below (max addr ((se.radio.addr + 1) % u32_mod)) ses h in
    ((ground arith, a), ground arith, ground arith)

-- A reservation that gives an address.
reserve_addr_given :
    (saves : Bool) (gateway : ℕ) (s s' : Store) (addr : ℕ)
    → reserve_addr saves gateway s ≡ (s', some addr)
    → (addr ≡ next_addr gateway s.cfg)
      × (addr < 256)
      × (s'.cfg.radio_next_addr ≡ (addr + 1) % u32_mod)
      × (s'.file ≡ some s'.cfg)
      × (s'.cfg.sensors ≡ s.cfg.sensors)
unfolding reserve_addr
reserve_addr_given true gateway s s' addr h = ground arith
reserve_addr_given false gateway s s' addr h = ground arith

pub next_addr_fresh :
    (gateway : ℕ) (cfg : Config)
    → All IsEntry cfg.sensors
    → cfg.radio_next_addr + 3 < u32_mod
    → (2 ≤ next_addr gateway cfg)
      × (next_addr gateway cfg ≢ gateway)
      × All (λ se. se.radio.addr < next_addr gateway cfg) cfg.sensors
      × (cfg.radio_next_addr ≤ next_addr gateway cfg)
unfolding next_addr
next_addr_fresh gateway cfg en room =
    let start = max cfg.radio_next_addr 2 in
    let (a, l, u) = above_addrs_below start cfg.sensors en in
    (
      ground arith,
      ground arith,
      All-mono _ _ cfg.sensors
          (λ se p.
            next_above (above_addrs start cfg.sensors) gateway se.radio.addr p (ground arith))
          a,
      ground arith,
    )
  where
    next_above :
        (addr gateway b : ℕ)
        → b < addr
        → addr + 1 < u32_mod
        → b < (if addr == gateway then (addr + 1) % u32_mod else addr)
    next_above addr gateway b p q = ground arith

-- The address that a pairing gives is saved as given first; it is no sensor's, not the gateway's, not
-- broadcast, and above every one given before.
reserve_addr_fresh :
    (saves : Bool) (gateway : ℕ) (s s' : Store) (addr : ℕ)
    → reserve_addr saves gateway s ≡ (s', some addr)
    → All IsEntry s.cfg.sensors
    → s.cfg.radio_next_addr + 3 < u32_mod
    → (2 ≤ addr)
      × (addr < 256)
      × (addr ≢ gateway)
      × All (λ se. se.radio.addr < addr) s.cfg.sensors
      × (s.cfg.radio_next_addr ≤ addr)
      × (s'.cfg.radio_next_addr ≡ addr + 1)
      × (s'.file ≡ some s'.cfg)
      × (s'.cfg.sensors ≡ s.cfg.sensors)
unfolding reserve_addr
reserve_addr_fresh saves gateway s s' addr h en room =
    let (e, low, next, saved, same) = reserve_addr_given saves gateway s s' addr h in
    let (two, other, above, old) = next_addr_fresh gateway s.cfg en room in
    (
      omega (arith, two, e),
      low,
      λ g. other (sym e ∙ g),
      subst (λ a. All (λ se. se.radio.addr < a) s.cfg.sensors) (sym e) above,
      omega (arith, old, e),
      omega (arith, next, low),
      saved,
      same,
    )
