-- ===== src/Hksv/PrebufferTrim.antt =====
-- What `trim` leaves of the prebuffer (internal/hksv/prebuffer.go).
use openqiara.Prelude.{
  ℕ, zero, suc, ◌+◌, ◌-◌, ◌≤◌, ◌<◌, ◌≡◌, ◌⊎◌, inl, inr, Bool, true, false, none, some, List, [],
  ◌∷◌, ◌++◌, map, ltb, length, take, drop, arith, refl, sym, ap, ◌∙◌, Bool-cases, Option-cases,
  take-append-drop, length-map,
}
use openqiara.Hksv.Prebuffer.{
  Sample, Prebuffer, max_prebuffer_bytes, pts_at, opens, bytes_of, second, drop_samples, check_size,
  fits, trim_loop, trim,
}
use mathlib.Core.List.{append_assoc, append-nil}
use mathlib.Core.Path.{subst}

-- Whether a group of pictures can open at a position.
abbrev pub opens_at : ℕ → List Sample → Bool
opens_at n [] = false
opens_at zero (s ∷ ss) = opens s
opens_at (suc n) (s ∷ ss) = opens_at n ss

abbrev pub Rising : ℕ → List ℕ → List Sample → Type 0
Rising i [] ss = Unit
Rising i (j ∷ js) ss = (i < j) × (opens_at j ss ≡ true) × Rising j js ss

-- The samples begin with the first group, or there are none.
abbrev pub IsStarts : List ℕ → List Sample → Type 0
IsStarts [] ss = ss ≡ []
IsStarts (i ∷ is) ss = (i ≡ 0) × (opens_at 0 ss ≡ true) × Rising 0 is ss

abbrev pub IsSuffix : List Sample → List Sample → Type 0
IsSuffix ss all = (gone : List Sample) × (all ≡ gone ++ ss)

-- Without its oldest group the buffer would not cover what it keeps.
abbrev pub IsTight : List ℕ → Prebuffer → Type 0
IsTight [] p = Unit
IsTight (i ∷ []) p = Unit
IsTight (i ∷ j ∷ js) p = p.last < p.keep + pts_at j p.samples

opens_at-drop : (n i : ℕ) (ss : List Sample) → n ≤ i → opens_at (i - n) (drop n ss) ≡ opens_at i ss
opens_at-drop zero i ss l = ap (λ k. opens_at k ss) (omega arith)
opens_at-drop (suc n) zero ss l = absurd (omega (arith, l))
opens_at-drop (suc n) (suc i) [] l = refl
opens_at-drop (suc n) (suc i) (s ∷ ss) l =
    ap (λ k. opens_at k (drop n ss)) (omega arith) ∙ opens_at-drop n i ss (omega arith)

pts_at-drop : (n : ℕ) (ss : List Sample) → pts_at 0 (drop n ss) ≡ pts_at n ss
unfolding pts_at
pts_at-drop zero ss = refl
pts_at-drop (suc n) [] = refl
pts_at-drop (suc n) (s ∷ ss) = pts_at-drop n ss

bytes_of-take-drop :
    (n : ℕ) (ss : List Sample) → bytes_of ss ≡ bytes_of (take n ss) + bytes_of (drop n ss)
unfolding bytes_of
bytes_of-take-drop zero ss = omega arith
bytes_of-take-drop (suc n) [] = omega arith
bytes_of-take-drop (suc n) (s ∷ ss) = omega (arith, bytes_of-take-drop n ss)

Rising-drop :
    (n i : ℕ) (js : List ℕ) (ss : List Sample)
    → n ≤ i
    → Rising i js ss
    → Rising (i - n) (map (λ k. k - n) js) (drop n ss)
Rising-drop n i [] ss l h = tt
Rising-drop n i (j ∷ js) ss l (a, o, h) =
    (omega arith, opens_at-drop n j ss (omega arith) ∙ o, Rising-drop n j js ss (omega arith) h)

-- The second group becomes the first.
IsStarts-drop :
    (i j : ℕ) (js : List ℕ) (ss : List Sample)
    → IsStarts (i ∷ j ∷ js) ss
    → IsStarts (map (λ k. k - j) (j ∷ js)) (drop j ss)
IsStarts-drop i j js ss (z, o, (l, oj, h)) =
    let same : j - j ≡ 0 = omega arith in
    (
      same,
      subst (λ k. opens_at k (drop j ss) ≡ true) same (opens_at-drop j j ss (omega arith) ∙ oj),
      subst (λ k. Rising k (map (λ k. k - j) js) (drop j ss)) same
          (Rising-drop j j js ss (omega arith) h),
    )

-- What a loop of `trim` takes for granted, and what it leaves.
pub record IsBuffer (p : Prebuffer) : Type 0 where
  pub starts : IsStarts p.starts p.samples
  pub sized : p.size ≡ bytes_of p.samples

pub record IsTrimmed (p p' : Prebuffer) : Type 0 where
  pub buffer : IsBuffer p'
  pub small : p'.size ≤ max_prebuffer_bytes
  pub suffix : IsSuffix p'.samples p.samples
  pub keep : p'.keep ≡ p.keep
  pub tight : IsTight p'.starts p'
  pub covers :
      p.size ≤ max_prebuffer_bytes
      → (p'.last ≡ p.last) × ((p'.samples ≡ p.samples) ⊎ (p.keep + pts_at 0 p'.samples ≤ p.last))

second-some :
    (is : List ℕ) (j : ℕ) → second is ≡ some j → (i : ℕ) × (js : List ℕ) × (is ≡ i ∷ j ∷ js)
second-some [] j h = absurd cc
second-some (i ∷ []) j h = absurd cc
second-some (i ∷ k ∷ js) j h = (i, js, cc)

second-none : (is : List ℕ) (q : Prebuffer) → second is ≡ none → IsTight is q
second-none [] q h = tt
second-none (i ∷ []) q h = tt
second-none (i ∷ k ∷ js) q h = absurd cc

drop_samples-IsBuffer :
    (p : Prebuffer) (i j : ℕ) (js : List ℕ)
    → p.starts ≡ i ∷ j ∷ js
    → IsBuffer p
    → IsBuffer (drop_samples j p)
unfolding drop_samples
drop_samples-IsBuffer p i j js e b = record {
  starts = rw e (IsStarts-drop i j js p.samples (subst (λ is. IsStarts is p.samples) e b.starts));
  sized = omega (arith, b.sized, bytes_of-take-drop j p.samples);
}

check_size-IsTrimmed :
    (p : Prebuffer) → IsBuffer p → second p.starts ≡ none → IsTrimmed p (check_size p)
check_size-IsTrimmed p b t = elim (Bool-cases (ltb max_prebuffer_bytes p.size)) [
  | inl e ↦ rw e (record {
    buffer = record { starts = refl; sized = unfold bytes_of in refl };
    small = omega arith;
    suffix = (p.samples, sym (append-nil p.samples));
    keep = refl;
    tight = tt;
    covers = λ l. absurd (ground arith);
  })
  | inr e ↦ rw e (record {
    buffer = b;
    small = ground arith;
    suffix = ([], refl);
    keep = refl;
    tight = second-none p.starts p t;
    covers = λ l. (refl, inl refl);
  })
]

-- Samples that begin where the second group did cover what is kept.
ready :
    (p : Prebuffer) (j : ℕ) {pts : ℕ}
    → fits (pts_at j p.samples) p ≡ false
    → p.size ≤ max_prebuffer_bytes
    → pts ≡ pts_at j p.samples
    → p.keep + pts ≤ p.last
ready p j f l e = ground arith

fits-IsTrimmed :
    (p : Prebuffer) (i j : ℕ) (js : List ℕ)
    → p.starts ≡ i ∷ j ∷ js
    → fits (pts_at j p.samples) p ≡ true
    → IsBuffer p
    → IsTrimmed p p
fits-IsTrimmed p i j js e f b = record {
  buffer = b;
  small = ground arith;
  suffix = ([], refl);
  keep = refl;
  tight = subst (λ is. IsTight is p) (sym e) (ground arith);
  covers = λ l. (refl, inl refl);
}

drop_samples-length :
    (p : Prebuffer) (i j : ℕ) (js : List ℕ)
    → p.starts ≡ i ∷ j ∷ js
    → length (drop_samples j p).starts + 1 ≡ length p.starts
unfolding drop_samples
drop_samples-length p i j js e = rw e (omega (arith, length-map js (λ k. k - j)))

-- A round that drops the oldest group.
drop-IsTrimmed :
    (p p' : Prebuffer) (i j : ℕ) (js : List ℕ)
    → p.starts ≡ i ∷ j ∷ js
    → fits (pts_at j p.samples) p ≡ false
    → IsTrimmed (drop_samples j p) p'
    → IsTrimmed p p'
unfolding drop_samples
drop-IsTrimmed p p' i j js e f t = record {
  buffer = t.buffer;
  small = t.small;
  suffix = (
    take j p.samples ++ t.suffix.0,
    sym (take-append-drop j p.samples)
        ∙ ap (λ ss. take j p.samples ++ ss) t.suffix.1
        ∙ sym (append_assoc (take j p.samples) t.suffix.0 p'.samples),
  );
  keep = t.keep;
  tight = t.tight;
  covers = λ l.
      let (same, kept) = t.covers (omega (arith, l)) in
      (
        same,
        inr (elim kept [
          | inl all ↦ ready p j f l (ap (λ ss. pts_at 0 ss) all ∙ pts_at-drop j p.samples)
          | inr enough ↦ enough
        ]),
      );
}

trim_loop-IsTrimmed :
    (fuel : ℕ) (p : Prebuffer)
    → length p.starts < fuel
    → IsBuffer p
    → IsTrimmed p (trim_loop fuel p)
unfolding trim_loop
trim_loop-IsTrimmed zero p l b = absurd (omega (arith, l))
trim_loop-IsTrimmed (suc fuel) p l b = elim (Option-cases (second p.starts)) [
  | inl last ↦ rw (last, trim_loop) (check_size-IsTrimmed p b last)
  | inr (j, more) ↦
      let (i, js, e) = second-some p.starts j more in
      elim (Bool-cases (fits (pts_at j p.samples) p)) [
        | inl f ↦ rw (more, trim_loop) (rw f (fits-IsTrimmed p i j js e f b))
        | inr f ↦
            rw (more, trim_loop)
              (rw f (
                drop-IsTrimmed p (trim_loop fuel (drop_samples j p)) i j js e f (
                  trim_loop-IsTrimmed fuel (drop_samples j p)
                    (omega (arith, l, drop_samples-length p i j js e))
                    (drop_samples-IsBuffer p i j js e b))))
      ]
]

pub trim-IsTrimmed : (p : Prebuffer) → IsBuffer p → IsTrimmed p (trim p)
unfolding trim
trim-IsTrimmed p b = trim_loop-IsTrimmed (suc (length p.starts)) p (omega arith) b
