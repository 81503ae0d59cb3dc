-- ===== src/Domusvm/Tests.antt =====
-- Each property of the VM writes at a concrete input.
use openqiara.Prelude.{
  ℕ, ◌≡◌, true, some, List, [], ◌∷◌, ◌++◌, length, le32, arith, refl, replicate,
}
use openqiara.Domusvm.Ops.{Op, start_init, erase, write, boot}
use openqiara.Domusvm.Init.{
  build_init_sequence, config_writes, vm_addr_timeout, vm_default_timeout_ms, vm_boot_entry,
  ManifestEntry, lookup,
}
use openqiara.Domusvm.Install.{written, small_writes, init_installs}

abbrev code : List ℕ
code = replicate 70 7

init_installs_example :
    (ws : List Op) × (build_init_sequence code (1 ∷ [])
      ≡ start_init
        ∷ erase
        ∷ (ws
            ++ (config_writes (1 ∷ [])
                ++ (write vm_addr_timeout (le32 vm_default_timeout_ms)
                    ∷ boot 0 vm_boot_entry
                    ∷ []))))
    × (written 0 ws ≡ some code)
    × (small_writes ws ≡ true)
init_installs_example = init_installs code (1 ∷ []) (omega arith)

-- A stand-in for the hash, and a file of 14 bytes.
abbrev sum : List ℕ → ℕ
sum bs = length bs

abbrev raw : List ℕ
raw = replicate 14 3

abbrev door : ManifestEntry
door = record { hash_image = "932f"; model = "HOMELABDWS"; bytecode_hash = "6b5a"; vm_size = 16 }

door_found : lookup "932f" (door ∷ []) ≡ some door
unfolding lookup
door_found = refl
