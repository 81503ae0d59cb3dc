-- ===== src/Prelude/Maps.antt =====
-- Maps with numbers for keys, as lists in ascending order of the keys.
use Prim.Native.Nat.{ℕ, ◌<◌}
use mathlib.Core.Path.{◌≡◌, refl}
use mathlib.Core.Logic.{inl, inr}
use mathlib.Core.Bool.{Bool, true, false}
use mathlib.Core.Option.{Option, none, some}
use mathlib.Core.List.{List, [], ◌∷◌}
use native.Mathlib.Omega.{arith}
use openqiara.Prelude.Tests.{ltb, ◌==◌, if◌then◌else◌, ltb→lt, ==_iff, Bool-cases}

abbrev pub Dict {ℓ} : Type ℓ → Type ℓ
Dict V = List (ℕ × V)

module _ {ℓ} {V : Type ℓ} where
  unfoldable pub lookup : ℕ → Dict V → Option V
  lookup k [] = none
  lookup k ((j, v) ∷ d) = if k == j then some v else lookup k d

  -- `d[k] = v`
  unfoldable pub insert : ℕ → V → Dict V → Dict V
  insert k v [] = (k, v) ∷ []
  insert k v ((j, w) ∷ d) =
      let rest = insert k v d in
      if k == j then (k, v) ∷ d else if ltb k j then (k, v) ∷ (j, w) ∷ d else (j, w) ∷ rest

  -- `delete(d, k)`
  unfoldable pub erase : ℕ → Dict V → Dict V
  erase k [] = []
  erase k ((j, w) ∷ d) = let rest = erase k d in if k == j then rest else (j, w) ∷ rest

  pub lookup-insert :
      (j k : ℕ) (v : V) (d : Dict V)
      → lookup j (insert k v d) ≡ (if j == k then some v else lookup j d)
  unfolding lookup insert
  lookup-insert j k v [] = ground arith
  lookup-insert j k v ((i, w) ∷ d) = ground (arith, lookup-insert j k v d)

  pub lookup-erase :
      (j k : ℕ) (d : Dict V) → lookup j (erase k d) ≡ (if j == k then none else lookup j d)
  unfolding lookup erase
  lookup-erase j k [] = ground arith
  lookup-erase j k ((i, w) ∷ d) = ground (arith, lookup-erase j k d)

abbrev pub has {ℓ} : {V : Type ℓ} → ℕ → Dict V → Bool
has k d = elim (lookup k d) [ none ↦ false | some v ↦ true ]

-- The keys are above `k`, and ascend.
abbrev pub Above {ℓ} : {V : Type ℓ} → ℕ → Dict V → Type 0
Above k [] = Unit
Above k ((j, v) ∷ d) = (k < j) × Above k d

abbrev pub Ascending {ℓ} : {V : Type ℓ} → Dict V → Type 0
Ascending [] = Unit
Ascending ((k, v) ∷ d) = Above k d × Ascending d

module _ {ℓ} {V : Type ℓ} where
  pub Above-trans : (j k : ℕ) (d : Dict V) → j < k → Above k d → Above j d
  Above-trans j k [] lt a = tt
  Above-trans j k ((i, v) ∷ d) lt (p, a) = (omega arith, Above-trans j k d lt a)

  pub lookup-Above : (k : ℕ) (d : Dict V) → Above k d → lookup k d ≡ none
  unfolding lookup
  lookup-Above k [] a = refl
  lookup-Above k ((i, v) ∷ d) (p, a) = ground (arith, lookup-Above k d a)

  insert-Above : (j k : ℕ) (v : V) (d : Dict V) → j < k → Above j d → Above j (insert k v d)
  unfolding insert
  insert-Above j k v [] lt a = (lt, tt)
  insert-Above j k v ((i, w) ∷ d) lt (p, a) = elim (Bool-cases (k == i)) [
    | inl same ↦ rw same (lt, a)
    | inr other ↦ elim (Bool-cases (ltb k i)) [
      | inl below ↦ rw (other, below) (lt, (p, a))
      | inr above ↦ rw (other, above) (p, insert-Above j k v d lt a)
    ]
  ]

  pub insert-Ascending : (k : ℕ) (v : V) (d : Dict V) → Ascending d → Ascending (insert k v d)
  unfolding insert
  insert-Ascending k v [] a = (tt, tt)
  insert-Ascending k v ((i, w) ∷ d) (p, a) = elim (Bool-cases (k == i)) [
    | inl same ↦ rw same (rw ((==_iff k i).0 same) p, a)
    | inr other ↦ elim (Bool-cases (ltb k i)) [
      | inl below ↦
          rw (other, below) ((ltb→lt k i below, Above-trans k i d (ltb→lt k i below) p), (p, a))
      | inr above ↦
          rw (other, above) (insert-Above i k v d (ground arith) p, insert-Ascending k v d a)
    ]
  ]

  -- Every entry is found under its key.
  abbrev pub Holds : Dict V → Dict V → Type ℓ
  Holds d [] = Unit
  Holds d ((k, v) ∷ es) = (lookup k d ≡ some v) × Holds d es

  pub Holds-erase : (k : ℕ) (d es : Dict V) → Above k es → Holds d es → Holds (erase k d) es
  Holds-erase k d [] a h = tt
  Holds-erase k d ((j, w) ∷ es) (p, a) (at, h) =
      (ground (arith, lookup-erase j k d), Holds-erase k d es a h)

  Holds-skip : (k : ℕ) (v : V) (d es : Dict V) → Above k es → Holds d es → Holds ((k, v) ∷ d) es
  unfolding lookup
  Holds-skip k v d [] a h = tt
  Holds-skip k v d ((j, w) ∷ es) (p, a) (at, h) = (ground arith, Holds-skip k v d es a h)

  pub Ascending-Holds : (d : Dict V) → Ascending d → Holds d d
  unfolding lookup
  Ascending-Holds [] a = tt
  Ascending-Holds ((k, v) ∷ d) (p, a) = (ground arith, Holds-skip k v d d p (Ascending-Holds d a))
