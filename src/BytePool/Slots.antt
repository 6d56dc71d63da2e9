-- ===== src/BytePool/Slots.antt =====
-- The slices that pkg/bpool/bpool.go hands out.
use minio.Base.{
  ℕ, zero, suc, ◌+◌, ◌≡◌, ◌≢◌, ◌⊎◌, refl, true, false, List, [], ◌∷◌, none, some, if◌then◌else◌,
  Bool-cases, inl, inr, arith, get_elem?,
}
use minio.BytePool.{Slot, BytePool, taken, take_slot, get_slice}

-- The slices that are not in use.
unfoldable pub free : List Slot → ℕ
free [] = 0
free (slot ∷ slots) = (if slot.used then 0 else 1) + free slots

-- The slot at the index was free, is in use now, and is the only one that changed.
pub record Hands (size : ℕ) (slots : List Slot) (i : ℕ) (slots' : List Slot) : Type 0 where
  pub slot : Slot
  pub was_free : (get_elem? slots i ≡ some slot) × (slot.used ≡ false)
  pub in_use : get_elem? slots' i ≡ some (taken size slot)
  pub one_less : free slots' + 1 ≡ free slots
  pub others : (j : ℕ) → j ≢ i → get_elem? slots' j ≡ get_elem? slots j

skip_used :
    (size i : ℕ) (slot : Slot) (slots slots' : List Slot)
    → slot.used ≡ true
    → Hands size slots i slots'
    → Hands size (slot ∷ slots) (suc i) (slot ∷ slots')
unfolding free
skip_used size i slot slots slots' u h = record {
  slot = h.slot;
  was_free = h.was_free;
  in_use = h.in_use;
  one_less = ground (arith, h.one_less);
  others = λ j n.
      elim j as (λ k. k ≢ suc i → get_elem? (slot ∷ slots') k ≡ get_elem? (slot ∷ slots) k) [
        | zero ↦ λ m. refl
        | suc k ↦ λ m. h.others k (λ e. m (omega arith))
      ]
        n;
}

take_slot-Hands :
    (size k : ℕ) (slots : List Slot)
    → ((take_slot size k slots ≡ none) × (free slots ≡ 0))
      ⊎ ((i : ℕ) × (slots' : List Slot) × (take_slot size k slots ≡ some (k + i, slots'))
          × Hands size slots i slots')
unfolding take_slot free
take_slot-Hands size k [] = inl (refl, refl)
take_slot-Hands size k (slot ∷ slots) = elim (Bool-cases slot.used) [
  | inl u ↦ elim (take_slot-Hands size (k + 1) slots) [
    | inl (e, f) ↦ inl (ground arith, ground arith)
    | inr (i, slots', e, h) ↦
        inr (suc i, slot ∷ slots', ground arith, skip_used size i slot slots slots' u h)
  ]
  | inr u ↦ inr (
    0,
    taken size slot ∷ slots,
    ground arith,
    record {
      slot = slot;
      was_free = (refl, u);
      in_use = refl;
      one_less = ground arith;
      others = λ j n.
          elim j
              as (λ t. t ≢ 0 → get_elem? (taken size slot ∷ slots) t ≡ get_elem? (slot ∷ slots) t) [
                | zero ↦ λ m. absurd (m refl)
                | suc t ↦ λ m. refl
              ]
            n;
    },
  )
]

-- `Get` fails exactly when all slices are in use; otherwise it hands out one that was free, marks
-- it as used, makes it where there was none, and changes no other, so that no slice is handed out
-- twice before a `Reset`.
pub get_slice-Hands :
    (b : BytePool)
    → ((get_slice b ≡ none) × (free b.slots ≡ 0))
      ⊎ ((i : ℕ) × (b' : BytePool) × (get_slice b ≡ some (i, b')) × Hands b.size b.slots i b'.slots)
unfolding get_slice
get_slice-Hands b = elim (take_slot-Hands b.size 0 b.slots) [
  | inl (e, f) ↦ inl (ground arith, f)
  | inr (i, slots', e, h) ↦ inr (i, record b { slots = slots' }, ground arith, h)
]
