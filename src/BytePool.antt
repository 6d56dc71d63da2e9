-- ===== src/BytePool.antt =====
-- pkg/bpool/bpool.go: a pool of byte slices of a fixed size.
pub mod Slots
use minio.Base.{
  ℕ, ◌+◌, Bool, true, false, List, [], ◌∷◌, Option, none, some, if◌then◌else◌, map, replicate,
}

-- `buf[i]` and `used[i]`. A slice that is allocated keeps its contents, which the pool does not
-- read; `none` is nil, and the number is the length of the slice.
pub record Slot : Type 0 where
  pub buf : Option ℕ
  pub used : Bool

pub record BytePool : Type 0 where
  pub slots : List Slot
  pub size : ℕ

unfoldable pub new_byte_pool : ℕ → ℕ → BytePool
new_byte_pool size n = record {
  slots = replicate n (record { buf = none; used = false });
  size = size;
}

-- The slot as `Get` leaves it, with the slice made where there is none.
abbrev pub taken : ℕ → Slot → Slot
taken size slot = record { buf = elim slot.buf [ none ↦ some size | some n ↦ some n ]; used = true }

-- The loop of `Get`: the index of the slice, and the slots afterwards.
unfoldable pub take_slot : ℕ → ℕ → List Slot → Option (ℕ × List Slot)
take_slot size i [] = none
take_slot size i (slot ∷ slots) =
    let rest = take_slot size (i + 1) slots in
    if slot.used
    then (elim rest [ none ↦ none | some r ↦ some (r.0, slot ∷ r.1) ])
    else some (i, taken size slot ∷ slots)

-- `Get`; `none` is `ErrBpoolNoFree`.
unfoldable pub get_slice : BytePool → Option (ℕ × BytePool)
get_slice b = elim (take_slot b.size 0 b.slots) [
  | none ↦ none
  | some r ↦ some (r.0, record b { slots = r.1 })
]

-- The loop of `Reset`.
unfoldable pub mark_unused : List Slot → List Slot
mark_unused [] = []
mark_unused (slot ∷ slots) = record slot { used = false } ∷ mark_unused slots

-- `Reset`.
unfoldable pub reset_pool : BytePool → BytePool
reset_pool b = record b { slots = mark_unused b.slots }
