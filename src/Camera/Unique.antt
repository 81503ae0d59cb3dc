-- ===== src/Camera/Unique.antt =====
-- The sensors of the registry stay apart (internal/camera/radio.go `adopt`, `reserveAddr`): no two share an id,
-- an address or a system index.
use openqiara.Prelude.{
  ℕ, zero, suc, ◌+◌, ◌<◌, ◌≡◌, ◌≢◌, true, false, some, List, [], ◌∷◌, ◌++◌, ◌==◌, length,
  if◌then◌else◌, arith, refl, sym, ap, ◌∙◌, inl, inr, Bool-cases, Option-cases, All, All-split,
  All-join,
}
use openqiara.Config.Types.{SensorEntry, RadioNode}
use openqiara.Camera.Registry.{
  equal_fold, has_index, free_loop, index_of_uid, no_radio, clear_others, take_over, claim,
}
use Prim.Native.String.{String}

-- Two sensors that cannot be taken for each other.
abbrev pub Apart : SensorEntry → SensorEntry → Type 0
Apart a b =
    (a.id ≢ b.id)
    × (a.radio.addr ≢ 0 → a.radio.addr ≢ b.radio.addr)
    × (a.radio.addr ≢ 0 → b.radio.addr ≢ 0 → a.radio.system_index ≢ b.radio.system_index)

abbrev pub Distinct : List SensorEntry → Type 0
Distinct [] = Unit
Distinct (a ∷ bs) = All (Apart a) bs × Distinct bs

Apart-sym : (a b : SensorEntry) → Apart a b → Apart b a
Apart-sym a b (i, r, x) =
    (λ e. i (sym e), λ z e. r (λ w. z (e ∙ w)) (sym e), λ y z e. x z y (sym e))

-- A sensor in the middle is apart from all the others.
pub Distinct-middle :
    (xs ys : List SensorEntry) (y : SensorEntry)
    → Distinct (xs ++ (y ∷ ys))
    → Distinct (xs ++ ys) × All (Apart y) (xs ++ ys)
Distinct-middle [] ys y (a, d) = (d, a)
Distinct-middle (x ∷ xs) ys y (a, d) =
    let (d', a') = Distinct-middle xs ys y d in
    let (p, (q, r)) = All-split (Apart x) xs (y ∷ ys) a in
    ((All-join (Apart x) xs ys p r, d'), (Apart-sym x y q, a'))

pub Distinct-insert :
    (xs ys : List SensorEntry) (y : SensorEntry)
    → Distinct (xs ++ ys)
    → All (Apart y) (xs ++ ys)
    → Distinct (xs ++ (y ∷ ys))
Distinct-insert [] ys y d a = (a, d)
Distinct-insert (x ∷ xs) ys y (a, d) (p, b) =
    let (q, r) = All-split (Apart x) xs ys a in
    (All-join (Apart x) xs (y ∷ ys) q (Apart-sym y x p, r), Distinct-insert xs ys y d b)

-- What the loop of `adopt` leaves of the others.
abbrev clear : ℕ → SensorEntry → SensorEntry
clear addr se = if se.radio.addr == addr then record se { radio = no_radio } else se

abbrev clear_all : ℕ → List SensorEntry → List SensorEntry
clear_all addr [] = []
clear_all addr (se ∷ ses) = clear addr se ∷ clear_all addr ses

clear_others-after :
    (j i addr : ℕ) (ses : List SensorEntry) → i < j → clear_others j i addr ses ≡ clear_all addr ses
unfolding clear_others
clear_others-after j i addr [] h = refl
clear_others-after j i addr (se ∷ ses) h = ground (arith, clear_others-after (j + 1) i addr ses)

clear_others-middle :
    (j i addr : ℕ) (xs ys : List SensorEntry) (y : SensorEntry)
    → i ≡ j + length xs
    → clear_others j i addr (xs ++ (y ∷ ys)) ≡ clear_all addr xs ++ (y ∷ clear_all addr ys)
unfolding clear_others
clear_others-middle j i addr [] ys y e = ground (arith, clear_others-after (j + 1) i addr ys)
clear_others-middle j i addr (x ∷ xs) ys y e =
    ground (arith, clear_others-middle (j + 1) i addr xs ys y)

pub length-clear_all :
    (addr : ℕ) (ses : List SensorEntry) → length (clear_all addr ses) ≡ length ses
length-clear_all addr [] = refl
length-clear_all addr (se ∷ ses) = ap suc (length-clear_all addr ses)

take_over-middle :
    (i : ℕ) (typ : String) (node : RadioNode) (xs ys : List SensorEntry) (y : SensorEntry)
    → i ≡ length xs
    → take_over i typ node (xs ++ (y ∷ ys)) ≡ xs ++ (record y { type = typ; radio = node } ∷ ys)
unfolding take_over
take_over-middle zero typ node [] ys y e = refl
take_over-middle (suc i) typ node [] ys y e = absurd (omega arith)
take_over-middle zero typ node (x ∷ xs) ys y e = absurd (omega arith)
take_over-middle (suc i) typ node (x ∷ xs) ys y e =
    ap (λ zs. x ∷ zs) (take_over-middle i typ node xs ys y (omega arith))

claim-middle :
    (typ : String) (node : RadioNode) (xs ys : List SensorEntry) (y : SensorEntry)
    → claim (length xs) typ node (xs ++ (y ∷ ys))
      ≡ clear_all node.addr xs ++ (record y { type = typ; radio = node } ∷ clear_all node.addr ys)
unfolding claim
claim-middle typ node xs ys y =
    ap (take_over (length xs) typ node)
      (clear_others-middle 0 (length xs) node.addr xs ys y (omega arith))
    ∙ take_over-middle (length xs) typ node (clear_all node.addr xs) (clear_all node.addr ys) y
        (sym (length-clear_all node.addr xs))

clear_all-append :
    (addr : ℕ) (xs ys : List SensorEntry)
    → clear_all addr (xs ++ ys) ≡ clear_all addr xs ++ clear_all addr ys
clear_all-append addr [] ys = refl
clear_all-append addr (x ∷ xs) ys = ap (λ zs. clear addr x ∷ zs) (clear_all-append addr xs ys)

clear-Apart : (addr : ℕ) (a b : SensorEntry) → Apart a b → Apart (clear addr a) (clear addr b)
clear-Apart addr a b (i, r, x) = ground arith

clear_all-Apart :
    (addr : ℕ) (a : SensorEntry) (ses : List SensorEntry)
    → All (Apart a) ses
    → All (Apart (clear addr a)) (clear_all addr ses)
clear_all-Apart addr a [] h = tt
clear_all-Apart addr a (se ∷ ses) (p, h) = (clear-Apart addr a se p, clear_all-Apart addr a ses h)

clear_all-Distinct :
    (addr : ℕ) (ses : List SensorEntry) → Distinct ses → Distinct (clear_all addr ses)
clear_all-Distinct addr [] d = tt
clear_all-Distinct addr (se ∷ ses) (a, d) =
    (clear_all-Apart addr se ses a, clear_all-Distinct addr ses d)

-- The sensor that takes an address is apart from those that it is taken from.
claimed-Apart :
    (typ : String) (node : RadioNode) (a b : SensorEntry)
    → a.id ≢ b.id
    → (b.radio.addr ≢ 0 → node.system_index ≢ b.radio.system_index)
    → Apart (record a { type = typ; radio = node }) (clear node.addr b)
claimed-Apart typ node a b i x = ground arith

-- What holds of each sensor: one with no address has no hardware id, and an address is a byte.
abbrev pub IsEntry : SensorEntry → Type 0
IsEntry se = (se.radio.addr ≡ 0 → se.radio.uid ≡ []) × (se.radio.addr < 256)

clear_all-IsEntry :
    (addr : ℕ) (ses : List SensorEntry) → All IsEntry ses → All IsEntry (clear_all addr ses)
clear_all-IsEntry addr [] h = tt
clear_all-IsEntry addr (se ∷ ses) (p, h) = (clear-IsEntry, clear_all-IsEntry addr ses h)
  where
    clear-IsEntry : IsEntry (clear addr se)
    clear-IsEntry = ground arith

-- No served sensor has the index `i`.
abbrev pub Frees : ℕ → SensorEntry → Type 0
Frees i se = se.radio.addr ≢ 0 → i ≢ se.radio.system_index

claimed-All :
    (typ : String) (node : RadioNode) (y : SensorEntry) (ses : List SensorEntry)
    → All (Apart y) ses
    → All (Frees node.system_index) ses
    → All (Apart (record y { type = typ; radio = node })) (clear_all node.addr ses)
claimed-All typ node y [] a f = tt
claimed-All typ node y (se ∷ ses) ((i, r, z), a) (x, f) =
    (claimed-Apart typ node y se i x, claimed-All typ node y ses a f)

-- The set stays one when a sensor in it takes an address.
pub claim-IsDistinct :
    (typ : String) (node : RadioNode) (xs ys : List SensorEntry) (y : SensorEntry)
    → Distinct (xs ++ (y ∷ ys))
    → All IsEntry (xs ++ (y ∷ ys))
    → All (Frees node.system_index) (xs ++ ys)
    → node.addr ≢ 0
    → node.addr < 256
    → Distinct (claim (length xs) typ node (xs ++ (y ∷ ys)))
      × All IsEntry (claim (length xs) typ node (xs ++ (y ∷ ys)))
claim-IsDistinct typ node xs ys y d h f n b =
    let (others, apart) = Distinct-middle xs ys y d in
    let (hx, (hy, hys)) = All-split IsEntry xs (y ∷ ys) h in
    let y' = record y { type = typ; radio = node } in
    rw (claim-middle typ node xs ys y) (
      Distinct-insert (clear_all node.addr xs) (clear_all node.addr ys) y'
          (rw (sym (clear_all-append node.addr xs ys))
            (clear_all-Distinct node.addr (xs ++ ys) others))
          (rw (sym (clear_all-append node.addr xs ys)) (claimed-All typ node y (xs ++ ys) apart f)),
      All-join IsEntry (clear_all node.addr xs) (y' ∷ clear_all node.addr ys)
          (clear_all-IsEntry node.addr xs hx)
          ((λ z. absurd (n z), b), clear_all-IsEntry node.addr ys hys),
    )

pub free_loop-some :
    (fuel i k : ℕ) (ses : List SensorEntry)
    → free_loop fuel i ses ≡ some k
    → (has_index k ses ≡ false) × (k < i + fuel)
unfolding free_loop
free_loop-some zero i k ses h = cc
free_loop-some (suc fuel) i k ses h = ground (arith, free_loop-some fuel (i + 1) k ses)

pub has_index-Frees : (k : ℕ) (ses : List SensorEntry) → has_index k ses ≡ false → All (Frees k) ses
has_index-Frees k [] h = tt
has_index-Frees k (se ∷ ses) h = (head_free, has_index-Frees k ses (ground arith))
  where
    head_free : Frees k se
    head_free = ground arith

pub index_of_uid-middle :
    (uid : List ℕ) (ses : List SensorEntry) (i : ℕ)
    → index_of_uid uid ses ≡ some i
    → (xs : List SensorEntry) × (y : SensorEntry) × (ys : List SensorEntry) × (ses ≡ xs ++ (y ∷ ys))
      × (length xs ≡ i)
      × (equal_fold y.radio.uid uid ≡ true)
unfolding index_of_uid
index_of_uid-middle uid [] i h = cc
index_of_uid-middle uid (se ∷ ses) i h = elim (Bool-cases (equal_fold se.radio.uid uid)) [
  | inl same ↦ ([], se, ses, refl, ground arith, same)
  | inr other ↦ elim (Option-cases (index_of_uid uid ses)) [
    | inl missing ↦ ground arith
    | inr (k, found) ↦
        let (xs, y, ys, e, l, same) = index_of_uid-middle uid ses k found in
        (se ∷ xs, y, ys, ap (λ zs. se ∷ zs) e, ground arith, same)
  ]
]
