-- ===== src/Tests/Distribution.antt =====
-- The order of three disks in cmd/xl-v1-utils.go.
use minio.Base.{ℕ, ◌-◌, ◌<◌, ◌≡◌, refl, List, [], ◌∷◌, Option, none, some, arith, length, get_elem?}
use minio.Base.Text.{codes}
use minio.XlMeta.{order_from, hash_order}
use minio.Distribution.{place, get_ordered_disks, get_ordered_parts_metadata}
use minio.Distribution.HashOrder.{get_ordered_disks-hash_order}

program : Unit {0}
unfolding order_from hash_order place get_ordered_disks get_ordered_parts_metadata
program = tt

abbrev disks : List (Option ℕ)
disks = some 10 ∷ none ∷ some 12 ∷ []

get_ordered_disks_test :
    get_ordered_disks (2 ∷ 3 ∷ 1 ∷ []) disks ≡ some (some 12 ∷ some 10 ∷ none ∷ [])
unfolding program
get_ordered_disks_test = refl

get_ordered_parts_metadata_test :
    get_ordered_parts_metadata {M = ℕ} 0 (2 ∷ 3 ∷ 1 ∷ []) (5 ∷ 6 ∷ 7 ∷ []) ≡ some (7 ∷ 5 ∷ 6 ∷ [])
unfolding program
get_ordered_parts_metadata_test = refl

-- A place that is not there panics.
panic_test : get_ordered_disks (2 ∷ 4 ∷ 1 ∷ []) disks ≡ none
unfolding program
panic_test = refl

get_ordered_disks-hash_order_example :
    (distribution : List ℕ) × (r : List (Option ℕ)) × (hash_order length (codes "bucket/object") 3
      ≡ some distribution)
    × (get_ordered_disks distribution disks ≡ some r)
    × ((i b : ℕ)
        → get_elem? distribution i ≡ some b
        → i < 3
        → get_elem? r (b - 1) ≡ get_elem? disks i)
get_ordered_disks-hash_order_example =
    get_ordered_disks-hash_order length (codes "bucket/object") disks (omega arith)
