-- ===== src/Domusvm/Split.antt =====
-- Frames and their ops (internal/domusvm/frame.go): nothing is lost, and a frame is flushed once it is
-- over the limit and not before.
use openqiara.Prelude.{
  ℕ, ◌+◌, ◌≤◌, ◌≡◌, Bool, not, true, false, List, [], ◌∷◌, ◌++◌, ltb, leb, ◌&&◌, if◌then◌else◌,
  arith, refl, ap, sym, ◌∙◌, Bool-cases, inl, inr,
}
use openqiara.Domusvm.Ops.{
  Op, Frame, size_contribution, max_write_bytes, flush, split_loop, split_ops,
}
use mathlib.Core.List.{append_assoc, append-nil}

abbrev pub all_ops : List Frame → List Op
all_ops [] = []
all_ops (f ∷ fs) = f.ops ++ all_ops fs

all_ops-snoc : (fs : List Frame) (f : Frame) → all_ops (fs ++ (f ∷ [])) ≡ all_ops fs ++ f.ops
all_ops-snoc [] f = append-nil f.ops
all_ops-snoc (g ∷ fs) f = simp (all_ops-snoc fs f, append_assoc)

append_fresh : (fs : List Frame) (c : List Op) → flush fs c ≡ fs ++ flush [] c
unfolding flush
append_fresh fs [] = sym (append-nil fs)
append_fresh fs (op ∷ c) = refl

-- The frames made so far only stand in front.
split_loop-append :
    (ops : List Op) (fs : List Frame) (c : List Op) (n : ℕ)
    → split_loop ops fs c n ≡ fs ++ split_loop ops [] c n
unfolding split_loop
split_loop-append [] fs c n = append_fresh fs c
split_loop-append (op ∷ ops) fs c n =
    let f : Frame = record { ops = c ++ (op ∷ []) } in
    elim (Bool-cases (ltb max_write_bytes (n + size_contribution op))) [
      | inl full ↦ rw full (
          split_loop-append ops (fs ++ (f ∷ [])) [] 0
          ∙ append_assoc fs (f ∷ []) (split_loop ops [] [] 0)
          ∙ ap (λ t. fs ++ t) (sym (split_loop-append ops (f ∷ []) [] 0)))
      | inr open_ ↦ rw open_ (split_loop-append ops fs (c ++ (op ∷ [])) (n + size_contribution op))
    ]

-- One op, with nothing made before.
split_loop-cons :
    (op : Op) (ops : List Op) (c : List Op) (n : ℕ)
    → split_loop (op ∷ ops) [] c n ≡ (
        if ltb max_write_bytes (n + size_contribution op)
        then record { ops = c ++ (op ∷ []) } ∷ split_loop ops [] [] 0
        else split_loop ops [] (c ++ (op ∷ [])) (n + size_contribution op))
unfolding split_loop
split_loop-cons op ops c n = rw (split_loop-append ops (record { ops = c ++ (op ∷ []) } ∷ []) [] 0)

flush-ops : (c : List Op) → all_ops (flush [] c) ≡ c
unfolding flush
flush-ops [] = refl
flush-ops (op ∷ c) = append-nil (op ∷ c)

split_loop-ops : (ops : List Op) (c : List Op) (n : ℕ) → all_ops (split_loop ops [] c n) ≡ c ++ ops
split_loop-ops [] c n = unfold split_loop in flush-ops c ∙ sym (append-nil c)
split_loop-ops (op ∷ ops) c n = elim (Bool-cases (ltb max_write_bytes (n + size_contribution op))) [
  | inl full ↦
      rw (split_loop-cons op ops c n, full)
        (ap (λ t. (c ++ (op ∷ [])) ++ t) (split_loop-ops ops [] 0) ∙ append_assoc c (op ∷ []) ops)
  | inr open_ ↦
      rw (split_loop-cons op ops c n, open_)
        (split_loop-ops ops (c ++ (op ∷ [])) (n + size_contribution op)
          ∙ append_assoc c (op ∷ []) ops)
]

abbrev pub size : List Op → ℕ
size [] = 0
size (op ∷ ops) = size_contribution op + size ops

-- Every proper prefix is within the limit, `n` bytes standing before.
abbrev pub prefixes_fit : ℕ → List Op → Bool
prefixes_fit n [] = true
prefixes_fit n (op ∷ []) = true
prefixes_fit n (op ∷ p ∷ ops) =
    leb (n + size_contribution op) max_write_bytes
    && prefixes_fit (n + size_contribution op) (p ∷ ops)

abbrev is_empty : List Op → Bool
is_empty [] = true
is_empty (op ∷ ops) = false

-- The flush rule over the frames: none is empty, each is over the limit by its last op alone, and only
-- the last frame may stay within the limit.
abbrev pub flushed : List Frame → Bool
flushed [] = true
flushed (f ∷ []) = not (is_empty f.ops) && prefixes_fit 0 f.ops
flushed (f ∷ g ∷ fs) =
    not (is_empty f.ops)
    && prefixes_fit 0 f.ops
    && ltb max_write_bytes (size f.ops)
    && flushed (g ∷ fs)

size-snoc : (c : List Op) (op : Op) → size (c ++ (op ∷ [])) ≡ size c + size_contribution op
size-snoc [] op = omega arith
size-snoc (x ∷ c) op = omega (arith, size-snoc c op)

prefixes_fit-snoc :
    (c : List Op) (op : Op) (n : ℕ)
    → n + size c ≤ max_write_bytes
    → prefixes_fit n (c ++ (op ∷ [])) ≡ true
prefixes_fit-snoc [] op n h = refl
prefixes_fit-snoc (x ∷ []) op n h = ground arith
prefixes_fit-snoc (x ∷ y ∷ c) op n h =
    ground (arith, prefixes_fit-snoc (y ∷ c) op (n + size_contribution x) (omega arith))

prefixes_fit-within : (c : List Op) (n : ℕ) → n + size c ≤ max_write_bytes → prefixes_fit n c ≡ true
prefixes_fit-within [] n h = refl
prefixes_fit-within (x ∷ []) n h = refl
prefixes_fit-within (x ∷ y ∷ c) n h =
    ground (arith, prefixes_fit-within (y ∷ c) (n + size_contribution x) (omega arith))

not_empty-snoc : (c : List Op) (op : Op) → is_empty (c ++ (op ∷ [])) ≡ false
not_empty-snoc [] op = refl
not_empty-snoc (x ∷ c) op = refl

flushed-cons :
    (f : Frame) (fs : List Frame)
    → is_empty f.ops ≡ false
    → prefixes_fit 0 f.ops ≡ true
    → ltb max_write_bytes (size f.ops) ≡ true
    → flushed fs ≡ true
    → flushed (f ∷ fs) ≡ true
flushed-cons f [] e p s h = ground arith
flushed-cons f (g ∷ fs) e p s h = ground arith

flush-flushed : (c : List Op) → size c ≤ max_write_bytes → flushed (flush [] c) ≡ true
unfolding flush
flush-flushed [] h = refl
flush-flushed (op ∷ c) h = prefixes_fit-within (op ∷ c) 0 (omega arith)

split_loop-flushed :
    (ops : List Op) (c : List Op)
    → size c ≤ max_write_bytes
    → flushed (split_loop ops [] c (size c)) ≡ true
split_loop-flushed [] c h = unfold split_loop in flush-flushed c h
split_loop-flushed (op ∷ ops) c h =
    elim (Bool-cases (ltb max_write_bytes (size c + size_contribution op))) [
      | inl full ↦
          rw (split_loop-cons op ops c (size c), full)
            (flushed-cons (record { ops = c ++ (op ∷ []) }) (split_loop ops [] [] 0)
              (not_empty-snoc c op) (prefixes_fit-snoc c op 0 (omega arith))
              (rw (size-snoc c op) full) (split_loop-flushed ops [] (omega arith)))
      | inr open_ ↦
          rw (split_loop-cons op ops c (size c), open_)
            (rw (size-snoc c op) at
              (split_loop-flushed ops (c ++ (op ∷ [])) (rw (size-snoc c op) (ground arith))))
    ]

-- The frames hold the ops in order, none lost; none is empty, each is over the limit by its last op
-- alone, and only the last may stay within the limit.
pub split_ops_frames :
    (ops : List Op) → (all_ops (split_ops ops) ≡ ops) × (flushed (split_ops ops) ≡ true)
unfolding split_ops
split_ops_frames ops = (split_loop-ops ops [] 0, split_loop-flushed ops [] (omega arith))
