-- ===== src/Radio/Ops.antt =====
-- The radio engine counts the ops of a VM write frame as they were encoded (internal/radio/engine.go
-- `countOps`, internal/domusvm): the sensor's acknowledgement has a bit for each.
use openqiara.Prelude.{
  drop-length, ℕ, zero, suc, ◌%◌, ◌≤◌, ◌≡◌, Bool, true, some, List, [], ◌∷◌, ◌++◌, length, ◌&&◌,
  Option-cases, inl, inr, arith, refl, length-append, ltb, le16, le32,
}
use openqiara.Domusvm.Ops.{
  Op, start_init, erase, write, boot, Frame, encode_op, encode_ops, encode_frame,
}
use openqiara.Radio.Dialogue.{count_loop, count_ops}
use mathlib.Core.List.{append_assoc, append-nil}

-- The bytes of an op that is encoded.
abbrev op_bytes : Op → List ℕ
op_bytes start_init = 0x80 ∷ []
op_bytes erase = 0x88 ∷ []
op_bytes (write addr ds) = 0x87 ∷ (le32 addr ++ (length ds % 256 ∷ ds))
op_bytes (boot mode entry) = 0x82 ∷ (le16 mode ++ le32 entry)

abbrev ops_bytes : List Op → List ℕ
ops_bytes [] = []
ops_bytes (op ∷ ops) = op_bytes op ++ ops_bytes ops

encode_op-bytes :
    (op : Op) (out res : List ℕ) → encode_op op out ≡ some res → res ≡ out ++ op_bytes op
unfolding encode_op
encode_op-bytes start_init out res h = cc
encode_op-bytes erase out res h = cc
encode_op-bytes (write addr ds) out res h = ground (
  arith,
  append_assoc (out ++ (0x87 ∷ [])) (le32 addr) (length ds % 256 ∷ ds),
  append_assoc out (0x87 ∷ []) (le32 addr ++ (length ds % 256 ∷ ds)),
)
encode_op-bytes (boot mode entry) out res h = ground (
  arith,
  append_assoc (out ++ (0x82 ∷ [])) (le16 mode) (le32 entry),
  append_assoc out (0x82 ∷ []) (le16 mode ++ le32 entry),
)

fits : Op → Bool
fits (write addr ds) = ltb (length ds) 256
fits op = true

encode_op-fits : (op : Op) (out res : List ℕ) → encode_op op out ≡ some res → fits op ≡ true
unfolding encode_op fits
encode_op-fits op out res h = ground arith

small : (n : ℕ) → ltb n 256 ≡ true → n % 256 ≡ n
small n h = ground arith

count_op :
    (op : Op) (rest : List ℕ) (fuel : ℕ)
    → fits op ≡ true
    → count_loop (suc fuel) (op_bytes op ++ rest) ≡ suc (count_loop fuel rest)
unfolding count_loop fits
count_op start_init rest fuel h = refl
count_op erase rest fuel h = refl
count_op (write addr ds) rest fuel h = ground (arith, small (length ds) h, drop-length ds rest)
count_op (boot mode entry) rest fuel h = refl

ops_fit : List Op → Bool
ops_fit [] = true
ops_fit (op ∷ ops) = fits op && ops_fit ops

-- The ops of an encoded list: their bytes behind the output, and no write over a byte's length.
encode_ops-bytes :
    (ops : List Op) (out res : List ℕ)
    → encode_ops ops out ≡ some res
    → (res ≡ out ++ ops_bytes ops) × (ops_fit ops ≡ true)
unfolding encode_ops ops_fit
encode_ops-bytes [] out res h = (ground (arith, append-nil out), refl)
encode_ops-bytes (op ∷ ops) out res h = elim (Option-cases (encode_op op out)) [
  | inl refused ↦ ground arith
  | inr (out', done) ↦ ground (
    arith,
    encode_op-bytes op out out' done,
    encode_op-fits op out out' done,
    encode_ops-bytes ops out' res,
    append_assoc out (op_bytes op) (ops_bytes ops),
  )
]

op_bytes-length : (op : Op) → 1 ≤ length (op_bytes op)
op_bytes-length start_init = ground arith
op_bytes-length erase = ground arith
op_bytes-length (write addr ds) = ground arith
op_bytes-length (boot mode entry) = ground arith

count_loop-ops :
    (ops : List Op) (fuel : ℕ)
    → ops_fit ops ≡ true
    → length (ops_bytes ops) ≤ fuel
    → count_loop fuel (ops_bytes ops) ≡ length ops
unfolding ops_fit
count_loop-ops [] zero h l = unfold count_loop in refl
count_loop-ops [] (suc fuel) h l = unfold count_loop in refl
count_loop-ops (op ∷ ops) zero h l =
    ground (arith, op_bytes-length op, length-append (op_bytes op) (ops_bytes ops))
count_loop-ops (op ∷ ops) (suc fuel) h l = ground (
  arith,
  op_bytes-length op,
  length-append (op_bytes op) (ops_bytes ops),
  count_op op (ops_bytes ops) fuel,
  count_loop-ops ops fuel,
)

-- A frame that is encoded is counted as many ops as it has.
pub count_ops-encode_frame :
    (f : Frame) (out : List ℕ) → encode_frame f ≡ some out → count_ops out ≡ length f.ops
unfolding encode_frame count_ops
count_ops-encode_frame f out h =
    let (bytes, fit) = encode_ops-bytes f.ops (0x01 ∷ []) out h in
    rw bytes (count_loop-ops f.ops (suc (length (ops_bytes f.ops))) fit (ground arith))
