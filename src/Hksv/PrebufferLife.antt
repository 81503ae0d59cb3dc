-- ===== src/Hksv/PrebufferLife.antt =====
-- The prebuffer over the samples that come (internal/hksv/prebuffer.go `add`).
use openqiara.Prelude.{
  ℕ, zero, suc, ◌+◌, ◌≤◌, ◌<◌, ◌≡◌, ◌⊎◌, inl, inr, Bool, true, false, ◌&&◌, List, [], ◌∷◌, ◌++◌,
  length, arith, refl, sym, ap, ◌∙◌, Bool-cases,
}
use openqiara.Hksv.Prebuffer.{
  Sample, Prebuffer, max_prebuffer_bytes, pts_at, opens, bytes_of, gop_start, note_start,
  append_sample, is_empty, add, trim, run, new_prebuffer,
}
use openqiara.Hksv.PrebufferTrim.{
  opens_at, Rising, IsStarts, IsSuffix, IsTight, IsBuffer, IsTrimmed, trim-IsTrimmed,
}
use mathlib.Core.List.{append_assoc, append-nil}
use mathlib.Core.Path.{subst}

opens_at-length : (i : ℕ) (ss : List Sample) → opens_at i ss ≡ true → i < length ss
opens_at-length i [] h = absurd cc
opens_at-length zero (s ∷ ss) h = omega arith
opens_at-length (suc i) (s ∷ ss) h = omega (arith, opens_at-length i ss h)

opens_at-append :
    (i : ℕ) (ss : List Sample) (s : Sample)
    → opens_at i ss ≡ true
    → opens_at i (ss ++ (s ∷ [])) ≡ true
opens_at-append i [] s h = absurd cc
opens_at-append zero (t ∷ ss) s h = h
opens_at-append (suc i) (t ∷ ss) s h = opens_at-append i ss s h

opens_at-last :
    (ss : List Sample) (s : Sample) → opens s ≡ true → opens_at (length ss) (ss ++ (s ∷ [])) ≡ true
opens_at-last [] s h = h
opens_at-last (t ∷ ss) s h = opens_at-last ss s h

bytes_of-append :
    (ss : List Sample) (s : Sample) → bytes_of (ss ++ (s ∷ [])) ≡ bytes_of ss + length s.bytes
unfolding bytes_of
bytes_of-append [] s = omega arith
bytes_of-append (t ∷ ss) s = omega (arith, bytes_of-append ss s)

Rising-append :
    (i : ℕ) (js : List ℕ) (ss : List Sample) (s : Sample)
    → Rising i js ss
    → Rising i js (ss ++ (s ∷ []))
Rising-append i [] ss s h = tt
Rising-append i (j ∷ js) ss s (l, o, h) = (l, opens_at-append j ss s o, Rising-append j js ss s h)

Rising-snoc :
    (i : ℕ) (js : List ℕ) (ss : List Sample) (s : Sample)
    → i < length ss
    → opens s ≡ true
    → Rising i js ss
    → Rising i (js ++ (length ss ∷ [])) (ss ++ (s ∷ []))
Rising-snoc i [] ss s b o h = (b, opens_at-last ss s o, tt)
Rising-snoc i (j ∷ js) ss s b o (l, oj, h) =
    (l, opens_at-append j ss s oj, Rising-snoc j js ss s (opens_at-length j ss oj) o h)

IsStarts-snoc :
    (is : List ℕ) (ss : List Sample) (s : Sample)
    → opens s ≡ true
    → IsStarts is ss
    → IsStarts (is ++ (length ss ∷ [])) (ss ++ (s ∷ []))
IsStarts-snoc [] ss s o h = rw h (refl, o, tt)
IsStarts-snoc (i ∷ is) ss s o (z, first, h) =
    (z, opens_at-append 0 ss s first, Rising-snoc 0 is ss s (opens_at-length 0 ss first) o h)

IsStarts-append :
    (is : List ℕ) (ss : List Sample) (s : Sample)
    → is_empty is ≡ false
    → IsStarts is ss
    → IsStarts is (ss ++ (s ∷ []))
IsStarts-append [] ss s n h = absurd cc
IsStarts-append (i ∷ is) ss s n (z, first, h) =
    (z, opens_at-append 0 ss s first, Rising-append 0 is ss s h)

gop_start-opens : (s : Sample) (p : Prebuffer) → gop_start s p ≡ true → opens s ≡ true
unfolding gop_start
gop_start-opens s p h = ground arith

is_empty-nil : (is : List ℕ) → is_empty is ≡ true → is ≡ []
is_empty-nil [] h = refl
is_empty-nil (i ∷ is) h = absurd cc

is_empty-snoc : (is : List ℕ) (i : ℕ) → is_empty (is ++ (i ∷ [])) ≡ false
is_empty-snoc [] i = refl
is_empty-snoc (j ∷ is) i = refl

and-true : (b : Bool) → (b && true) ≡ b
and-true true = refl
and-true false = refl

-- With nothing kept a sample that opens a group is a start.
gop_start-empty : (s : Sample) (p : Prebuffer) → is_empty p.starts ≡ true → gop_start s p ≡ opens s
unfolding gop_start
gop_start-empty s p h = rw (is_empty-nil p.starts h) (and-true (opens s))

note_start-same : (s : Sample) (p : Prebuffer) → gop_start s p ≡ false → note_start s p ≡ p
note_start-same s p e = rw e refl

-- Nothing is kept after a sample that opens no group.
note_start-empty :
    (s : Sample) (p : Prebuffer) → is_empty (note_start s p).starts ≡ true → gop_start s p ≡ false
note_start-empty s p n = elim (Bool-cases (gop_start s p)) [
  | inl e ↦ absurd (cc (kept e))
  | inr e ↦ e
]
  where
    kept : gop_start s p ≡ true → is_empty (note_start s p).starts ≡ false
    kept e = rw e (is_empty-snoc p.starts (length p.samples))

append_sample-IsBuffer :
    (s : Sample) (p : Prebuffer)
    → is_empty (note_start s p).starts ≡ false
    → IsBuffer p
    → IsBuffer (append_sample s (note_start s p))
append_sample-IsBuffer s p n b = elim (Bool-cases (gop_start s p)) [
  | inl e ↦ rw e (record {
    starts = IsStarts-snoc p.starts p.samples s (gop_start-opens s p e) b.starts;
    sized = omega (arith, b.sized, bytes_of-append p.samples s);
  })
  | inr e ↦ rw e (record {
    starts =
        IsStarts-append p.starts p.samples s
          (ap (λ q. is_empty q.starts) (sym (note_start-same s p e)) ∙ n) b.starts;
    sized = omega (arith, b.sized, bytes_of-append p.samples s);
  })
]

-- What holds of the prebuffer after the samples `all`.
pub record IsKept (keep : ℕ) (all : List Sample) (p : Prebuffer) : Type 0 where
  pub buffer : IsBuffer p
  pub small : p.size ≤ max_prebuffer_bytes
  pub suffix : IsSuffix p.samples all
  pub keeps : p.keep ≡ keep
  pub tight : IsTight p.starts p

IsStarts-none : (is : List ℕ) (ss : List Sample) → is_empty is ≡ true → IsStarts is ss → ss ≡ []
IsStarts-none [] ss n h = h
IsStarts-none (i ∷ is) ss n h = absurd cc

-- A sample that is not kept, as nothing is.
skipped-IsKept :
    (keep : ℕ) (all : List Sample) (s : Sample) (p : Prebuffer)
    → IsKept keep all p
    → is_empty p.starts ≡ true
    → IsKept keep (all ++ (s ∷ [])) p
skipped-IsKept keep all s p k n = record {
  buffer = k.buffer;
  small = k.small;
  suffix = (
    all ++ (s ∷ []),
    rw (IsStarts-none p.starts p.samples n k.buffer.starts) (sym (append-nil (all ++ (s ∷ [])))),
  );
  keeps = k.keeps;
  tight = k.tight;
}

note_start-keep :
    (s : Sample) (p : Prebuffer)
    → ((note_start s p).keep ≡ p.keep)
      × ((note_start s p).size ≡ p.size)
      × ((note_start s p).samples ≡ p.samples)
note_start-keep s p = elim (Bool-cases (gop_start s p)) [
  | inl e ↦ rw e (refl, refl, refl)
  | inr e ↦ rw e (refl, refl, refl)
]

trimmed-IsKept :
    (keep : ℕ) (all : List Sample) (s : Sample) (p p' : Prebuffer)
    → IsKept keep all p
    → IsTrimmed (append_sample s (note_start s p)) p'
    → IsKept keep (all ++ (s ∷ [])) p'
trimmed-IsKept keep all s p p' k t = record {
  buffer = t.buffer;
  small = t.small;
  suffix = (
    k.suffix.0 ++ t.suffix.0,
    ap (λ ts. ts ++ (s ∷ [])) k.suffix.1
        ∙ append_assoc k.suffix.0 p.samples (s ∷ [])
        ∙ ap (λ ts. k.suffix.0 ++ ts)
            (ap (λ ts. ts ++ (s ∷ [])) (sym (note_start-keep s p).2) ∙ t.suffix.1)
        ∙ sym (append_assoc k.suffix.0 t.suffix.0 p'.samples),
  );
  keeps = t.keep ∙ (note_start-keep s p).0 ∙ k.keeps;
  tight = t.tight;
}

-- The two ways of a sample: not kept, or appended and trimmed.
add-cases :
    (s : Sample) (p : Prebuffer)
    → ((is_empty p.starts ≡ true) × (opens s ≡ false) × (add s p ≡ p))
      ⊎ ((is_empty (note_start s p).starts ≡ false)
          × (add s p ≡ trim (append_sample s (note_start s p))))
unfolding add
add-cases s p = elim (Bool-cases (is_empty (note_start s p).starts)) [
  | inl n ↦
      let shut = note_start-empty s p n in
      let same = note_start-same s p shut in
      let empty = ap (λ q. is_empty q.starts) (sym same) ∙ n in
      inl (empty, sym (gop_start-empty s p empty) ∙ shut, rw (n, add) same)
  | inr n ↦ inr (n, rw (n, add) refl)
]

add-IsKept :
    (keep : ℕ) (all : List Sample) (s : Sample) (p : Prebuffer)
    → IsKept keep all p
    → IsKept keep (all ++ (s ∷ [])) (add s p)
add-IsKept keep all s p k = elim (add-cases s p) [
  | inl (n, shut, e) ↦ rw e (skipped-IsKept keep all s p k n)
  | inr (n, e) ↦
      let t =
        trim-IsTrimmed (append_sample s (note_start s p)) (append_sample-IsBuffer s p n k.buffer) in
      rw e (trimmed-IsKept keep all s p (trim (append_sample s (note_start s p))) k t)
]

run-Kept :
    (keep : ℕ) (all ss : List Sample) (p : Prebuffer)
    → IsKept keep all p
    → IsKept keep (all ++ ss) (run p ss)
unfolding run
run-Kept keep all [] p k = rw (append-nil all) k
run-Kept keep all (s ∷ ss) p k =
    subst (λ ts. IsKept keep ts (run (add s p) ss)) (append_assoc all (s ∷ []) ss)
      (run-Kept keep (all ++ (s ∷ [])) ss (add s p) (add-IsKept keep all s p k))

-- After any samples the prebuffer is empty or begins with a video sample that a recording can start on. It
-- is the last of the samples that came, takes 8 MB at most, and without its oldest group of pictures it
-- would not cover what it is to keep.
pub run-IsKept : (keep : ℕ) (ss : List Sample) → IsKept keep ss (run (new_prebuffer keep) ss)
run-IsKept keep ss = run-Kept keep [] ss (new_prebuffer keep) (record {
  buffer = record { starts = refl; sized = unfold bytes_of in refl };
  small = omega arith;
  suffix = ([], refl);
  keeps = refl;
  tight = tt;
})

-- A sample that leaves the prebuffer within 8 MB is kept, or comes before the first group; older samples
-- are given up only if the rest still covers what is to be kept.
add_covers :
    (keep : ℕ) (ss : List Sample) (s : Sample)
    → (run (new_prebuffer keep) ss).size + length s.bytes ≤ max_prebuffer_bytes
    → let p = run (new_prebuffer keep) ss in
      let p' = add s p in
      ((p.samples ≡ []) × (opens s ≡ false) × (p'.samples ≡ []))
      ⊎ ((p'.samples ≡ p.samples ++ (s ∷ [])) ⊎ (keep + pts_at 0 p'.samples ≤ p'.last))
add_covers keep ss s l =
    let p = run (new_prebuffer keep) ss in
    let k = run-IsKept keep ss in
    elim (add-cases s p) [
      | inl (n, shut, e) ↦
          let none = IsStarts-none p.starts p.samples n k.buffer.starts in
          inl (none, shut, ap (λ q. q.samples) e ∙ none)
      | inr (n, e) ↦
          let t =
            trim-IsTrimmed (append_sample s (note_start s p))
              (append_sample-IsBuffer s p n k.buffer) in
          let (kept, size, samples) = note_start-keep s p in
          let (same, covers) = t.covers (omega (arith, l, size)) in
          inr (
            rw e (elim covers [
              | inl all ↦ inl (all ∙ ap (λ ts. ts ++ (s ∷ [])) samples)
              | inr enough ↦ inr (omega (arith, enough, same, kept, k.keeps))
            ]))
    ]
