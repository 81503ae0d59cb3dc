-- ===== src/Hksv/Prebuffer.antt =====
-- The samples kept from before a recording, internal/hksv/prebuffer.go. A PTS is not negative.
use openqiara.Prelude.{
  ℕ, zero, suc, ◌+◌, ◌-◌, ◌*◌, ◌%◌, Bool, true, false, ◌&&◌, ◌||◌, not, Option, none, some, List,
  [], ◌∷◌, ◌++◌, map, ltb, leb, ◌==◌, length, take, drop, if◌then◌else◌,
}

-- internal/camera/sample.go
pub record Sample : Type 0 where
  pub is_video : Bool
  pub pts : ℕ
  pub bytes : List ℕ

abbrev pub max_prebuffer_bytes : ℕ
max_prebuffer_bytes = 8 * 1_048_576

abbrev pub nal_idr : ℕ
nal_idr = 5

abbrev pub nal_sps : ℕ
nal_sps = 7

abbrev pub nal_type : List ℕ → ℕ
nal_type [] = 0
nal_type (b ∷ bs) = b % 32

-- `starts` are positions in `samples`; `last` is the PTS of the newest video sample.
pub record Prebuffer : Type 0 where
  pub keep : ℕ
  pub samples : List Sample
  pub starts : List ℕ
  pub size : ℕ
  pub last : ℕ

-- `samples[n].PTS`. A position past the end has no PTS in the source.
unfoldable pub pts_at : ℕ → List Sample → ℕ
pts_at n [] = 0
pts_at zero (s ∷ ss) = s.pts
pts_at (suc n) (s ∷ ss) = pts_at n ss

-- The last of the starts.
abbrev pub newest : ℕ → List ℕ → ℕ
newest i [] = i
newest i (j ∷ js) = newest j js

abbrev pub opens : Sample → Bool
opens s = s.is_video && (nal_type s.bytes == nal_sps || nal_type s.bytes == nal_idr)

unfoldable pub gop_start : Sample → Prebuffer → Bool
unfolding pts_at
gop_start s p = opens s && is_new p.starts
  where
    is_new : List ℕ → Bool
    is_new [] = true
    is_new (i ∷ is) = not (pts_at (newest i is) p.samples == s.pts)

unfoldable pub bytes_of : List Sample → ℕ
bytes_of [] = 0
bytes_of (s ∷ ss) = length s.bytes + bytes_of ss

abbrev pub tail : List ℕ → List ℕ
tail [] = []
tail (i ∷ is) = is

-- `starts[1]`
abbrev pub second : List ℕ → Option ℕ
second [] = none
second (i ∷ []) = none
second (i ∷ j ∷ js) = some j

-- The first `n` samples, and the first start.
unfoldable pub drop_samples : ℕ → Prebuffer → Prebuffer
unfolding bytes_of
drop_samples n p = record p {
  samples = drop n p.samples;
  starts = map (λ i. i - n) (tail p.starts);
  size = p.size - bytes_of (take n p.samples);
}

abbrev pub reset : Prebuffer → Prebuffer
reset p = record { keep = p.keep; samples = []; starts = []; size = 0; last = 0 }

-- The end of `trim`.
abbrev pub check_size : Prebuffer → Prebuffer
check_size p = if ltb max_prebuffer_bytes p.size then reset p else p

-- `p.last - second < p.keep && p.size <= maxPrebufferBytes`, with the subtraction on the other side.
abbrev pub fits : ℕ → Prebuffer → Bool
fits second p = ltb p.last (p.keep + second) && leb p.size max_prebuffer_bytes

-- The loop of `trim`, a start less in each round; the fuel is the number of starts.
unfoldable pub trim_loop : ℕ → Prebuffer → Prebuffer
unfolding pts_at drop_samples
trim_loop zero p = p
trim_loop (suc fuel) p = elim (second p.starts) [
  | none ↦ check_size p
  | some j ↦
      let rest = trim_loop fuel (drop_samples j p) in
      if fits (pts_at j p.samples) p then p else rest
]

unfoldable pub trim : Prebuffer → Prebuffer
unfolding trim_loop
trim p = trim_loop (suc (length p.starts)) p

-- `add`, in its steps: the start, the sample, and `trim`.
abbrev pub note_start : Sample → Prebuffer → Prebuffer
note_start s p =
    if gop_start s p then record p { starts = p.starts ++ (length p.samples ∷ []) } else p

abbrev pub append_sample : Sample → Prebuffer → Prebuffer
append_sample s p = record p {
  samples = p.samples ++ (s ∷ []);
  size = p.size + length s.bytes;
  last = if s.is_video then s.pts else p.last;
}

abbrev pub is_empty : List ℕ → Bool
is_empty [] = true
is_empty (i ∷ is) = false

unfoldable pub add : Sample → Prebuffer → Prebuffer
unfolding gop_start trim
add s p = let p' = note_start s p in if is_empty p'.starts then p' else trim (append_sample s p')

abbrev pub new_prebuffer : ℕ → Prebuffer
new_prebuffer keep = record { keep = keep; samples = []; starts = []; size = 0; last = 0 }

abbrev pub snapshot : Prebuffer → List Sample
snapshot p = p.samples

unfoldable pub run : Prebuffer → List Sample → Prebuffer
unfolding add
run p [] = p
run p (s ∷ ss) = run (add s p) ss
