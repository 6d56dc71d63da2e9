-- ===== src/Tests/BytePool.antt =====
-- pkg/bpool/bpool.go on a pool of two slices.
use minio.Base.{ℕ, ◌≡◌, ◌⊎◌, refl, true, false, [], ◌∷◌, none, some}
use minio.BytePool.{BytePool, new_byte_pool, take_slot, get_slice, reset_pool}
use minio.BytePool.Slots.{free, Hands, get_slice-Hands}

program : Unit {0}
unfolding new_byte_pool take_slot get_slice reset_pool free
program = tt

abbrev half_used : BytePool
half_used = record {
  slots = record { buf = some 4; used = true } ∷ record { buf = none; used = false } ∷ [];
  size = 4;
}

get_slice_test :
    get_slice half_used
    ≡ some (
      1,
      record half_used {
        slots = record { buf = some 4; used = true } ∷ record { buf = some 4; used = true } ∷ [];
      },
    )
unfolding program
get_slice_test = refl

get_slice-Hands_example :
    ((get_slice half_used ≡ none) × (free half_used.slots ≡ 0))
    ⊎ ((i : ℕ) × (b' : BytePool) × (get_slice half_used ≡ some (i, b'))
        × Hands half_used.size half_used.slots i b'.slots)
get_slice-Hands_example = get_slice-Hands half_used
