-- ===== src/Distribution.antt =====
-- `getOrderedDisks` and `getOrderedPartsMetadata` of cmd/xl-v1-utils.go: what belongs to the disks, put in
-- the order of a distribution.
pub mod Places
pub mod HashOrder
use minio.Base.{
  ℕ, ◌-◌, Bool, ◌||◌, List, [], ◌∷◌, Option, none, some, ltb, ◌==◌, if◌then◌else◌, length, set,
  replicate,
}

-- The loop of both functions; `none` is an index out of range.
unfoldable pub place : {A : Type 0} → List ℕ → List A → List A → Option (List A)
place distribution [] ordered = some ordered
place [] (x ∷ xs) ordered = none
place (block_index ∷ distribution) (x ∷ xs) ordered =
    let rest = place distribution xs (set ordered (block_index - 1) x) in
    if block_index == 0 || ltb (length ordered) block_index then none else rest

unfoldable pub get_ordered_disks :
    {D : Type 0} → List ℕ → List (Option D) → Option (List (Option D))
get_ordered_disks distribution disks = place distribution disks (replicate (length disks) none)

-- The zero value of the metadata is an argument.
unfoldable pub get_ordered_parts_metadata : {M : Type 0} → M → List ℕ → List M → Option (List M)
get_ordered_parts_metadata zero_value distribution parts_metadata =
    place distribution parts_metadata (replicate (length parts_metadata) zero_value)
