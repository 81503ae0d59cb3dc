-- ===== src/Domusvm/Install.antt =====
-- What the init sequence installs (internal/domusvm/coordinator.go, bytecode.go).
use openqiara.Prelude.{
  ℕ, zero, suc, ◌+◌, ◌-◌, ◌%◌, ◌≤◌, ◌<◌, ◌≡◌, Bool, true, false, Option, none, some, List, [], ◌∷◌,
  ◌++◌, ltb, leb, ◌==◌, ◌&&◌, ◌||◌, length, if◌then◌else◌, le32, le64, take, drop, replicate, arith,
  refl, take-append-drop, length-take, length-drop, length-append, length-replicate, Bool-cases,
  inl, inr, ap, ◌∙◌, ◌⊎◌,
}
use openqiara.Domusvm.Ops.{
  Op, start_init, erase, write, boot, Frame, encode_frame, encode_ops, encode_op, split_ops,
}
use openqiara.Domusvm.Split.{all_ops, split_ops_frames}
use openqiara.Domusvm.Init.{
  vm_chunk_size, vm_addr_timeout, vm_default_timeout_ms, vm_boot_entry, chunks, config_writes,
  build_init_sequence, ManifestEntry, lookup, bytes, failed, wrong_size, load_bytecode, encoded,
  encode_all, frames_of, frames,
}
use native.Mathlib.Decide.{dec_lt}
use Prim.Native.String.{String}

-- What consecutive writes put at the addresses from `at` on; `none` if one lies elsewhere.
abbrev pub written : ℕ → List Op → Option (List ℕ)
written at [] = some []
written at (write addr ds ∷ ops) =
    let rest = written (at + length ds) ops in
    if addr == at then elim rest [ none ↦ none | some more ↦ some (ds ++ more) ] else none
written at (op ∷ ops) = none

-- Writes of 1 to 64 bytes.
abbrev pub small_writes : List Op → Bool
small_writes [] = true
small_writes (write addr ds ∷ ops) = leb 1 (length ds) && leb (length ds) 64 && small_writes ops
small_writes (op ∷ ops) = false

drop-nil : (n : ℕ) (xs : List ℕ) → length xs ≤ n → drop n xs ≡ []
drop-nil zero [] h = refl
drop-nil zero (x ∷ xs) h = absurd (omega arith)
drop-nil (suc n) [] h = refl
drop-nil (suc n) (x ∷ xs) h = drop-nil n xs (omega arith)

chunks-nil : (fuel offset : ℕ) → chunks fuel offset [] ≡ []
unfolding chunks
chunks-nil zero offset = refl
chunks-nil (suc fuel) offset = refl

-- The next chunk starts where this one ends, if there is one.
next_chunk :
    (fuel offset b : ℕ) (bs : List ℕ)
    → chunks fuel (offset + vm_chunk_size) (drop 63 bs)
      ≡ chunks fuel (offset + length (take vm_chunk_size (b ∷ bs))) (drop 63 bs)
next_chunk fuel offset b bs = elim (dec_lt 63 (length bs)) [
  | yes long ↦
      ap (λ t. chunks fuel (offset + t) (drop 63 bs))
        (let e : 64 ≡ suc (length (take 63 bs)) = omega (arith, length-take 63 bs) in e)
  | no short ↦ rw (drop-nil 63 bs (omega arith), chunks-nil fuel _, chunks-nil fuel _)
]

written-write :
    (at addr : ℕ) (ds more : List ℕ) (ops : List Op)
    → addr ≡ at
    → written (at + length ds) ops ≡ some more
    → written at (write addr ds ∷ ops) ≡ some (ds ++ more)
written-write at addr ds more ops e h = ground arith

chunks-written :
    (fuel offset : ℕ) (rest : List ℕ)
    → length rest ≤ fuel
    → offset + length rest ≤ 4294967296
    → written offset (chunks fuel offset rest) ≡ some rest
unfolding chunks
chunks-written zero offset [] h k = refl
chunks-written zero offset (b ∷ bs) h k = absurd (omega arith)
chunks-written (suc fuel) offset [] h k = refl
chunks-written (suc fuel) offset (b ∷ bs) h k =
    let chunk = take vm_chunk_size (b ∷ bs) in
    let rest =
      chunks-written fuel (offset + length chunk) (drop 63 bs) (omega (arith, length-drop 63 bs))
        (omega (arith, length-drop 63 bs, length-take 63 bs)) in
    written-write offset (offset % 4294967296) chunk (drop 63 bs) _ (omega arith)
      (rw (next_chunk fuel offset b bs) rest)
    ∙ ap some (ap (λ t. b ∷ t) (take-append-drop 63 bs))

small-write :
    (addr : ℕ) (ds : List ℕ) (ops : List Op)
    → 1 ≤ length ds
    → length ds ≤ 64
    → small_writes ops ≡ true
    → small_writes (write addr ds ∷ ops) ≡ true
small-write addr ds ops l h k = ground arith

chunks-small : (fuel offset : ℕ) (rest : List ℕ) → small_writes (chunks fuel offset rest) ≡ true
unfolding chunks
chunks-small zero offset rest = refl
chunks-small (suc fuel) offset [] = refl
chunks-small (suc fuel) offset (b ∷ bs) =
    small-write (offset % 4294967296) (take vm_chunk_size (b ∷ bs))
      (chunks fuel (offset + vm_chunk_size) (drop 63 bs)) (omega arith)
      (omega (arith, length-take 63 bs)) (chunks-small fuel (offset + vm_chunk_size) (drop 63 bs))

-- The init sequence resets the VM, erases it, writes the whole bytecode at the addresses from 0 on in
-- writes of at most 64 bytes, and then the configuration if there is one, the timeout and the boot.
pub init_installs :
    (bytecode conf : List ℕ)
    → length bytecode ≤ 4294967296
    → (ws : List Op) × (build_init_sequence bytecode conf
        ≡ start_init
          ∷ erase
          ∷ (ws
              ++ (config_writes conf
                  ++ (write vm_addr_timeout (le32 vm_default_timeout_ms)
                      ∷ boot 0 vm_boot_entry
                      ∷ []))))
      × (written 0 ws ≡ some bytecode)
      × (small_writes ws ≡ true)
unfolding build_init_sequence
init_installs bytecode conf h = (
  chunks (length bytecode) 0 bytecode,
  refl,
  chunks-written (length bytecode) 0 bytecode (omega arith) (omega arith),
  chunks-small (length bytecode) 0 bytecode,
)

abbrev encodable : List Op → Bool
encodable [] = true
encodable (write addr ds ∷ ops) = leb (length ds) 255 && encodable ops
encodable (op ∷ ops) = encodable ops

encodable-append : (xs ys : List Op) → encodable (xs ++ ys) ≡ (encodable xs && encodable ys)
encodable-append [] ys = refl
encodable-append (start_init ∷ xs) ys = encodable-append xs ys
encodable-append (erase ∷ xs) ys = encodable-append xs ys
encodable-append (write addr ds ∷ xs) ys = ground (arith, encodable-append xs ys)
encodable-append (boot m e ∷ xs) ys = encodable-append xs ys

small-encodable : (ws : List Op) → small_writes ws ≡ true → encodable ws ≡ true
small-encodable [] h = refl
small-encodable (start_init ∷ xs) h = cc
small-encodable (erase ∷ xs) h = cc
small-encodable (write addr ds ∷ xs) h = ground (arith, small-encodable xs)
small-encodable (boot m e ∷ xs) h = cc

encode_ops-some :
    (ops : List Op) (out : List ℕ)
    → encodable ops ≡ true
    → (res : List ℕ) × (encode_ops ops out ≡ some res)
unfolding encode_ops encode_op
encode_ops-some [] out h = (out, refl)
encode_ops-some (start_init ∷ xs) out h = encode_ops-some xs (out ++ (0x80 ∷ [])) h
encode_ops-some (erase ∷ xs) out h = encode_ops-some xs (out ++ (0x88 ∷ [])) h
encode_ops-some (write addr ds ∷ xs) out h = elim (dec_lt 255 (length ds)) [
  | yes long ↦ absurd (ground arith)
  | no fits ↦
      let (res, e) =
        encode_ops-some xs (out ++ (0x87 ∷ []) ++ le32 addr ++ (length ds % 256 ∷ ds))
          (ground arith) in
      (res, ground (arith, e))
]
encode_ops-some (boot m e ∷ xs) out h = encode_ops-some xs _ h

encode_frame-some :
    (f : Frame) → encodable f.ops ≡ true → (res : List ℕ) × (encode_frame f ≡ some res)
unfolding encode_frame
encode_frame-some f h = encode_ops-some f.ops (0x01 ∷ []) h

encode_all-encoded :
    (fs : List Frame)
    → encodable (all_ops fs) ≡ true
    → (outs : List (List ℕ)) × (encode_all fs ≡ encoded outs)
unfolding encode_all
encode_all-encoded [] h = ([], refl)
encode_all-encoded (f ∷ fs) h =
    let split = encodable-append f.ops (all_ops fs) in
    let (out, e) = encode_frame-some f (ground (arith, split)) in
    let (outs, es) = encode_all-encoded fs (ground (arith, split)) in
    (out ∷ outs, ground (arith, e, es))

init-encodable : (bytecode : List ℕ) → encodable (build_init_sequence bytecode []) ≡ true
unfolding build_init_sequence
init-encodable bytecode =
    let ws = chunks (length bytecode) 0 bytecode in
    ground (
      arith,
      encodable-append ws
          (write vm_addr_timeout (le32 vm_default_timeout_ms) ∷ boot 0 vm_boot_entry ∷ []),
      small-encodable ws (chunks-small (length bytecode) 0 bytecode),
    )

frames_of-encoded :
    (bytecode : List ℕ) → (outs : List (List ℕ)) × (frames_of (bytes bytecode) ≡ encoded outs)
unfolding frames_of
frames_of-encoded bytecode =
    encode_all-encoded (split_ops (build_init_sequence bytecode []))
      (rw ((split_ops_frames (build_init_sequence bytecode [])).0) (init-encodable bytecode))

length-le64 : (n : ℕ) (xs : List ℕ) → length (le64 n ++ xs) ≡ 8 + length xs
unfolding le64
length-le64 n xs = omega arith

drop-le64 : (n : ℕ) (xs : List ℕ) → drop 8 (le64 n ++ xs) ≡ xs
unfolding le64
drop-le64 n xs = refl

take-le64 : (n : ℕ) (xs : List ℕ) → take 8 (le64 n ++ xs) ≡ le64 n
unfolding le64
take-le64 n xs = refl

sizes_fit :
    (raw : List ℕ) (vm_size : ℕ)
    → (ltb (length raw) 12 || ltb vm_size (length raw - 4)) ≡ false
    → (12 ≤ length raw) × (length raw - 4 ≤ vm_size)
sizes_fit raw vm_size h = ground arith

-- A prefix that is long enough has the whole of the front.
take-take-append :
    (xs ys : List ℕ) (n : ℕ) → length xs ≤ n → take (length xs) (take n (xs ++ ys)) ≡ xs
take-take-append [] ys n h = refl
take-take-append (x ∷ xs) ys zero h = absurd (omega arith)
take-take-append (x ∷ xs) ys (suc n) h = ap (λ t. x ∷ t) (take-take-append xs ys n (omega arith))

-- `LoadBytecode`: a file that is too short for its header and placeholder, or too long for the VM, is
-- refused. Of any other the size header is dropped and the placeholder filled with the 64-bit sum
-- of the code after it, padded with zeros to the VM's size less eight.
load_bytecode_sizes :
    (sum64 : List ℕ → ℕ) (raw : List ℕ) (vm_size : ℕ)
    → ((load_bytecode sum64 (some raw) vm_size ≡ failed wrong_size)
        × ((length raw < 12) ⊎ (vm_size < length raw - 4)))
      ⊎ ((out padded : List ℕ) × (load_bytecode sum64 (some raw) vm_size ≡ bytes out)
          × (length out ≡ length raw - 4)
          × (length out ≤ vm_size)
          × (drop 8 out ≡ drop 12 raw)
          × (take 8 out ≡ le64 (sum64 padded))
          × (take (length raw - 12) padded ≡ drop 12 raw)
          × (length padded ≡ vm_size - 8))
unfolding load_bytecode
load_bytecode_sizes sum64 raw vm_size =
    let code = drop 12 raw in
    let padded = take (vm_size - 8) (code ++ replicate (vm_size - 8) 0) in
    elim (Bool-cases (ltb (length raw) 12 || ltb vm_size (length raw - 4))) [
      | inl bad ↦ inl (rw bad, ground arith)
      | inr good ↦ inr (
        le64 (sum64 padded) ++ code,
        padded,
        rw good,
        omega (
          arith,
          length-drop 12 raw,
          length-le64 (sum64 padded) code,
          sizes_fit raw vm_size good,
        ),
        omega (
          arith,
          length-drop 12 raw,
          length-le64 (sum64 padded) code,
          sizes_fit raw vm_size good,
        ),
        drop-le64 (sum64 padded) code,
        take-le64 (sum64 padded) code,
        ap (λ t. take t padded)
              (let k : length raw - 12 ≡ length code = omega (arith, length-drop 12 raw) in k)
            ∙ take-take-append code (replicate (vm_size - 8) 0) (vm_size - 8)
                (omega (arith, length-drop 12 raw, sizes_fit raw vm_size good)),
        omega (
          arith,
          length-take (vm_size - 8) (code ++ replicate (vm_size - 8) 0),
          length-append code (replicate (vm_size - 8) 0),
          length-replicate {A = ℕ} (vm_size - 8) 0,
        ),
      )
    ]

load_bytecode-bytes :
    (sum64 : List ℕ → ℕ) (raw : List ℕ) (vm_size : ℕ)
    → 12 ≤ length raw
    → length raw - 4 ≤ vm_size
    → (out : List ℕ) × (load_bytecode sum64 (some raw) vm_size ≡ bytes out)
unfolding load_bytecode
load_bytecode-bytes sum64 raw vm_size long fits =
    let padded = take (vm_size - 8) (drop 12 raw ++ replicate (vm_size - 8) 0) in
    (le64 (sum64 padded) ++ drop 12 raw, ground arith)

-- `Frames` never panics: with a manifest entry for the firmware whose file is there and fits its VM,
-- every frame is encoded.
frames_encoded :
    (sum64 : List ℕ → ℕ) (file : String → Option (List ℕ)) (manifest : List ManifestEntry)
    (fw_hash : String) (e : ManifestEntry) (raw : List ℕ)
    → lookup fw_hash manifest ≡ some e
    → file e.bytecode_hash ≡ some raw
    → 12 ≤ length raw
    → length raw - 4 ≤ e.vm_size
    → (outs : List (List ℕ)) × (frames sum64 file manifest fw_hash ≡ encoded outs)
unfolding frames
frames_encoded sum64 file manifest fw_hash e raw found there long fits =
    let (code, loaded) = load_bytecode-bytes sum64 raw e.vm_size long fits in
    let (outs, done) = frames_of-encoded code in (outs, ground (arith, found, there, loaded, done))
