-- ===== src/Erasure/Heal.antt =====
-- cmd/erasure-healfile.go: the missing parts of an erasure-coded file are reconstructed from the disks
-- that have the latest version and appended to a file on every outdated disk.
pub mod Restored
use minio.Base.{
  ℕ, zero, suc, ◌+◌, ◌-◌, Bool, List, [], ◌∷◌, ◌++◌, Option, none, some, ltb, if◌then◌else◌, length,
  replicate, map,
}
use minio.Erasure.{Bytes, bytes_of, get_chunk_size}
use minio.Erasure.Read.{Coder, decode_data}

-- What `erasureHealFile` returns where it fails; `index_panic` is the panic for an outdated disk
-- without a latest one at its index.
pub data HealError (E : Type 0) : Type 0 where
  decode_failed index_panic : HealError E
  append_failed : E → HealError E

-- An outdated disk: nil, or without a file at the path, or with one.
abbrev pub OutDated : Type 0
OutDated = Option (Option Bytes)

abbrev pub content : Option Bytes → Bytes
content none = []
content (some f) = f

-- The outdated disks, and what was given to their hashes.
pub record Healed (E : Type 0) : Type 0 where
  pub files : List OutDated
  pub hashed : List Bytes
  pub error : Option (HealError E)

abbrev pub healed : {E : Type 0} → List OutDated → List Bytes → Option (HealError E) → Healed E
healed files hashed error = record { files = files; hashed = hashed; error = error }

-- What one latest disk gives: nothing where it is nil or fails.
abbrev pub read_latest : {D : Type 0} → (D → ℕ → ℕ → Option Bytes) → ℕ → ℕ → Option D → Option Bytes
read_latest read_file offset size none = none
read_latest read_file offset size (some disk) = read_file disk offset size

-- `ReadFile` of a latest disk fills a buffer of a size from an offset, or fails; `AppendFile` of an
-- outdated disk at some index fails and leaves some bytes or no file, or appends, and creates a file
-- where there is none.
module _ {D E : Type 0} (read_file : D → ℕ → ℕ → Option Bytes) (coder : Coder)
    (append_fails : ℕ → Option Bytes → Bytes → Option (E × Option Bytes))
    (data_blocks parity_blocks : ℕ) where
  -- The loop over the outdated disks, from an index on, which stops at the first failure.
  unfoldable pub append_outdated :
      ℕ
      → List OutDated
      → List Bytes
      → List (Option Bytes)
      → List OutDated × List Bytes × Option (HealError E)
  append_outdated index (none ∷ files) (h ∷ hashed) [] =
      let rest = append_outdated (suc index) files hashed [] in (none ∷ rest.0, h ∷ rest.1, rest.2)
  append_outdated index (none ∷ files) (h ∷ hashed) (b ∷ en_blocks) =
      let rest = append_outdated (suc index) files hashed en_blocks in
      (none ∷ rest.0, h ∷ rest.1, rest.2)
  append_outdated index (some f ∷ files) (h ∷ hashed) [] =
      (some f ∷ files, h ∷ hashed, some index_panic)
  append_outdated index (some f ∷ files) (h ∷ hashed) (b ∷ en_blocks) =
      let rest = append_outdated (suc index) files hashed en_blocks in
      elim (append_fails index f (bytes_of b)) [
        | some (e, f') ↦ (some f' ∷ files, h ∷ hashed, some (append_failed e))
        | none ↦
            (some (some (content f ++ bytes_of b)) ∷ rest.0, (h ++ bytes_of b) ∷ rest.1, rest.2)
      ]
  append_outdated index files hashed en_blocks = (files, hashed, none)

  -- The loop of `erasureHealFile`; `none` is out of fuel.
  unfoldable pub heal_blocks :
      ℕ → List (Option D) → ℕ → ℕ → ℕ → List OutDated → List Bytes → Option (Healed E)
  heal_blocks zero latest_disks block_size offset remaining_size files hashed = none
  heal_blocks (suc fuel) latest_disks block_size offset zero files hashed =
      some (healed files hashed none)
  heal_blocks (suc fuel) latest_disks block_size offset (suc r) files hashed =
      let remaining_size = suc r in
      let cur_block_size = if ltb remaining_size block_size then remaining_size else block_size in
      let cur_enc_block_size = get_chunk_size cur_block_size data_blocks in
      elim (decode_data coder (map (read_latest read_file offset cur_enc_block_size) latest_disks)
        data_blocks parity_blocks) [
          | none ↦ some (healed files hashed (some decode_failed))
          | some en_blocks ↦
              let r = append_outdated 0 files hashed en_blocks in
              elim r.2 [
                | some e ↦ some (healed r.0 r.1 (some e))
                | none ↦
                    heal_blocks fuel latest_disks block_size (offset + cur_enc_block_size)
                      (remaining_size - cur_block_size) r.0 r.1
              ]
        ]

  -- `erasureHealFile` on outdated disks with some files. Where blocks have a size, every round takes a
  -- byte from what remains, so that this fuel is enough.
  unfoldable pub erasure_heal_file : List (Option D) → List OutDated → ℕ → ℕ → Option (Healed E)
  erasure_heal_file latest_disks out_dated_files size block_size =
      heal_blocks (suc size) latest_disks block_size 0 size out_dated_files
        (replicate (length out_dated_files) [])
