-- ===== src/Domusvm/Ops.antt =====
-- The opcodes of a VM write frame and the frames, internal/domusvm/opcode.go and frame.go.
use openqiara.Prelude.{
  ℕ, ◌+◌, ◌%◌, Option, none, some, List, [], ◌∷◌, ◌++◌, ltb, length, if◌then◌else◌, le16, le32,
}

pub data Op : Type 0 where
  start_init erase : Op
  write : ℕ → List ℕ → Op
  boot : ℕ → ℕ → Op

-- `none` is the panic of `OpWrite.Encode`.
unfoldable pub encode_op : Op → List ℕ → Option (List ℕ)
encode_op start_init dst = some (dst ++ (0x80 ∷ []))
encode_op erase dst = some (dst ++ (0x88 ∷ []))
encode_op (write addr bytes) dst =
    if ltb 255 (length bytes)
    then none
    else some (dst ++ (0x87 ∷ []) ++ le32 addr ++ (length bytes % 256 ∷ bytes))
encode_op (boot mode entry) dst = some (dst ++ (0x82 ∷ []) ++ le16 mode ++ le32 entry)

abbrev pub size_contribution : Op → ℕ
size_contribution start_init = 1
size_contribution erase = 1
size_contribution (write addr bytes) = 5 + length bytes
size_contribution (boot mode entry) = 5

abbrev pub max_write_bytes : ℕ
max_write_bytes = 100

pub record Frame : Type 0 where
  pub ops : List Op

unfoldable pub encode_ops : List Op → List ℕ → Option (List ℕ)
encode_ops [] out = some out
encode_ops (op ∷ ops) out = elim (encode_op op out) [
  | none ↦ none
  | some out' ↦ encode_ops ops out'
]

unfoldable pub encode_frame : Frame → Option (List ℕ)
unfolding encode_ops encode_op
encode_frame f = encode_ops f.ops (0x01 ∷ [])

-- The last lines of `SplitOps`: what is left makes a frame.
unfoldable pub flush : List Frame → List Op → List Frame
flush frames [] = frames
flush frames (op ∷ ops) = frames ++ (record { ops = op ∷ ops } ∷ [])

unfoldable pub split_loop : List Op → List Frame → List Op → ℕ → List Frame
split_loop [] frames current size = flush frames current
split_loop (op ∷ ops) frames current size =
    let size' = size + size_contribution op in
    let full = split_loop ops (frames ++ (record { ops = current ++ (op ∷ []) } ∷ [])) [] 0 in
    let open_ = split_loop ops frames (current ++ (op ∷ [])) size' in
    if ltb max_write_bytes size' then full else open_

unfoldable pub split_ops : List Op → List Frame
unfolding split_loop
split_ops ops = split_loop ops [] [] 0
