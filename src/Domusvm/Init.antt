-- ===== src/Domusvm/Init.antt =====
-- The init sequence of a sensor's VM and the bytecode files, internal/domusvm/coordinator.go and
-- bytecode.go. The manifest is parsed already; the files and the 64-bit FNV-1a hash are parameters.
use openqiara.Prelude.{
  ℕ, zero, suc, ◌+◌, ◌-◌, ◌%◌, Option, none, some, List, [], ◌∷◌, ◌++◌, ltb, length, if◌then◌else◌,
  le32, le64, take, drop, replicate, ◌||◌,
}
use openqiara.Domusvm.Ops.{Op, start_init, erase, write, boot, Frame, encode_frame, split_ops}
use Prim.Native.String.{String}
use text.Mathlib.Text.{◌==◌ as str_eq}

abbrev pub vm_addr_config : ℕ
vm_addr_config = 0x800000c0

abbrev pub vm_addr_timeout : ℕ
vm_addr_timeout = 0x800000d8

abbrev pub vm_default_timeout_ms : ℕ
vm_default_timeout_ms = 0x2580

abbrev pub vm_chunk_size : ℕ
vm_chunk_size = 64

abbrev pub vm_boot_entry : ℕ
vm_boot_entry = 8

-- The loop over the offsets: `rest` is `bytecode[offset:]`. Each round takes a byte at least, so its
-- length is fuel enough.
unfoldable pub chunks : ℕ → ℕ → List ℕ → List Op
chunks zero offset rest = []
chunks (suc fuel) offset [] = []
chunks (suc fuel) offset (b ∷ bs) =
    write (offset % 4294967296) (take vm_chunk_size (b ∷ bs))
    ∷ chunks fuel (offset + vm_chunk_size) (drop vm_chunk_size (b ∷ bs))

unfoldable pub config_writes : List ℕ → List Op
config_writes [] = []
config_writes (b ∷ bs) = write vm_addr_config (b ∷ bs) ∷ []

unfoldable pub build_init_sequence : List ℕ → List ℕ → List Op
unfolding config_writes chunks
build_init_sequence bytecode dynamic_conf =
    start_init
    ∷ erase
    ∷ (chunks (length bytecode) 0 bytecode
        ++ (config_writes dynamic_conf
            ++ (write vm_addr_timeout (le32 vm_default_timeout_ms) ∷ boot 0 vm_boot_entry ∷ [])))

pub record ManifestEntry : Type 0 where
  pub hash_image : String
  pub model : String
  pub bytecode_hash : String
  pub vm_size : ℕ

-- The first entry for the firmware.
unfoldable pub lookup : String → List ManifestEntry → Option ManifestEntry
lookup fw_hash [] = none
lookup fw_hash (e ∷ es) = if str_eq e.hash_image fw_hash then some e else lookup fw_hash es

pub data LoadError : Type 0 where
  unreadable wrong_size : LoadError

pub data Loaded : Type 0 where
  bytes : List ℕ → Loaded
  failed : LoadError → Loaded

module _ (sum64 : List ℕ → ℕ) where
  -- `none` for a file that cannot be read.
  unfoldable pub load_bytecode : Option (List ℕ) → ℕ → Loaded
  load_bytecode none vm_size = failed unreadable
  load_bytecode (some raw) vm_size =
      let padded = take (vm_size - 8) (drop 12 raw ++ replicate (vm_size - 8) 0) in
      if ltb (length raw) 12 || ltb vm_size (length raw - 4)
      then failed wrong_size
      else bytes (le64 (sum64 padded) ++ drop 12 raw)

pub data FramesError : Type 0 where
  not_in_manifest panicked : FramesError
  load_failed : LoadError → FramesError

pub data FramesResult : Type 0 where
  encoded : List (List ℕ) → FramesResult
  refused : FramesError → FramesResult

-- The loop of `Frames` over the frames; a panic of an encoder ends it.
unfoldable pub encode_all : List Frame → FramesResult
encode_all [] = encoded []
encode_all (f ∷ fs) =
    let rest = encode_all fs in
    elim (encode_frame f) [
      | none ↦ refused panicked
      | some out ↦ elim rest [ encoded outs ↦ encoded (out ∷ outs) | refused e ↦ refused e ]
    ]

unfoldable pub frames_of : Loaded → FramesResult
frames_of (bytes bytecode) = encode_all (split_ops (build_init_sequence bytecode []))
frames_of (failed e) = refused (load_failed e)

module _ (sum64 : List ℕ → ℕ) (file : String → Option (List ℕ)) where
  -- `fw_hash` is the hex string of the firmware's hash.
  unfoldable pub frames : List ManifestEntry → String → FramesResult
  unfolding frames_of lookup
  frames manifest fw_hash = elim (lookup fw_hash manifest) [
    | none ↦ refused not_in_manifest
    | some e ↦ frames_of (load_bytecode sum64 (file e.bytecode_hash) e.vm_size)
  ]
