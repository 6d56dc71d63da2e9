-- ===== src/Distribution/HashOrder.antt =====
-- The order that `hashOrder` of cmd/xl-v1-utils.go makes is a distribution over the disks.
use minio.Base.{
  ℕ, zero, suc, ◌+◌, ◌-◌, ◌*◌, ◌/◌, ◌%◌, ◌≤◌, ◌<◌, ◌≡◌, ◌≢◌, ◌⊎◌, inl, inr, refl, ap, false, List,
  Option, some, arith, ◌==◌, length, get_elem?, All,
}
use minio.Base.Text.{Text}
use minio.XlMeta.{order_from, hash_order, with_low_bit}
use minio.Erasure.Read.Slices.{next_multiple}
use minio.Distribution.{get_ordered_disks}
use minio.Distribution.Places.{IsDistribution, get_ordered_disks-Placed}

lt_or_le : (a b : ℕ) → (a < b) ⊎ (b ≤ a)
lt_or_le a b = omega arith

multiple_le : (n j k : ℕ) → j ≤ k → j * n ≤ k * n
multiple_le n j k h = grind arith

module _ (n start : ℕ) (some_disk : 0 < n) where
  mod_ne : (a b : ℕ) → a < b → b < a + n → b % n ≢ a % n
  mod_ne a b h k e =
      let p : a / n * n + a % n ≡ a = grind arith in
      let q : b / n * n + b % n ≡ b = grind arith in
      elim (lt_or_le (a / n) (b / n)) [
        | inl l ↦ let m = next_multiple n (a / n) (b / n) l in omega (arith, m, p, q, e, k)
        | inr l ↦ let m = multiple_le n (b / n) (a / n) l in omega (arith, m, p, q, e, h)
      ]

  order_from-ne :
      (i j left : ℕ)
      → i < j
      → j + left ≤ i + n
      → All (λ c. c ≢ 1 + (start + i) % n) (order_from start n j left)
  unfolding order_from
  order_from-ne i j zero h k = tt
  order_from-ne i j (suc left) h k = (
    (λ e. mod_ne (start + i) (start + j) (omega arith) (omega arith) (omega (arith, e))),
    order_from-ne i (j + 1) left (omega arith) (omega arith),
  )

  order_from-IsDistribution : (i left : ℕ) → left ≤ n → IsDistribution n (order_from start n i left)
  unfolding order_from
  order_from-IsDistribution i zero h = tt
  order_from-IsDistribution i (suc left) h =
      let small : (start + i) % n < n = grind arith in
      (
        omega arith,
        omega (arith, small),
        order_from-ne i (i + 1) left (omega arith) (omega arith),
        order_from-IsDistribution (i + 1) left (omega arith),
      )

  length-order_from : (i left : ℕ) → length (order_from start n i left) ≡ left
  unfolding order_from
  length-order_from i zero = refl
  length-order_from i (suc left) = ap suc (length-order_from (i + 1) left)

-- The order that `hashOrder` makes for any object name and at least one disk has a place of its own for
-- every disk: `getOrderedDisks` puts each of them there.
pub get_ordered_disks-hash_order :
    {D : Type 0} (crc32 : Text → ℕ) (key : Text) (disks : List (Option D))
    → 0 < length disks
    → (distribution : List ℕ) × (r : List (Option D)) × (hash_order crc32 key (length disks)
        ≡ some distribution)
      × (get_ordered_disks distribution disks ≡ some r)
      × ((i b : ℕ)
          → get_elem? distribution i ≡ some b
          → i < length disks
          → get_elem? r (b - 1) ≡ get_elem? disks i)
unfolding hash_order
get_ordered_disks-hash_order crc32 key disks h =
    let n = length disks in
    let start = with_low_bit (crc32 key % n) in
    let t : (n == 0) ≡ false = ground arith in
    let l = length-order_from n start h 1 n in
    let (r, e, found) =
      get_ordered_disks-Placed (order_from start n 1 n) disks
        (order_from-IsDistribution n start h 1 n (omega arith)) (omega (arith, l)) in
    (order_from start n 1 n, r, rw t refl, e, found)
