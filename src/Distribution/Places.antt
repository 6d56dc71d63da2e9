-- ===== src/Distribution/Places.antt =====
-- Every disk is found at its place in the distribution, in cmd/xl-v1-utils.go.
use mathlib.Core.Path.{subst}
use minio.Base.{
  ℕ, zero, suc, ◌-◌, ◌≤◌, ◌<◌, ◌≡◌, ◌≢◌, refl, sym, ap, ◌∙◌, false, ◌||◌, List, [], ◌∷◌, Option,
  none, some, arith, ltb, ◌==◌, length, set, get_elem?, replicate, length-replicate, All,
}
use minio.Distribution.{place, get_ordered_disks, get_ordered_parts_metadata}

module _ {A : Type 0} where
  length-set : (l : List A) (i : ℕ) (x : A) → length (set l i x) ≡ length l
  length-set [] i x = refl
  length-set (y ∷ l) zero x = refl
  length-set (y ∷ l) (suc i) x = ap suc (length-set l i x)

  get_elem?-set_self :
      (l : List A) (i : ℕ) (x : A) → i < length l → get_elem? (set l i x) i ≡ some x
  get_elem?-set_self [] i x h = absurd (omega arith)
  get_elem?-set_self (y ∷ l) zero x h = refl
  get_elem?-set_self (y ∷ l) (suc i) x h = get_elem?-set_self l i x (omega arith)

  get_elem?-set_ne :
      (l : List A) (i j : ℕ) (x : A) → i ≢ j → get_elem? (set l i x) j ≡ get_elem? l j
  get_elem?-set_ne [] i j x h = refl
  get_elem?-set_ne (y ∷ l) zero zero x h = absurd (h refl)
  get_elem?-set_ne (y ∷ l) zero (suc j) x h = refl
  get_elem?-set_ne (y ∷ l) (suc i) zero x h = refl
  get_elem?-set_ne (y ∷ l) (suc i) (suc j) x h = get_elem?-set_ne l i j x (λ e. h (ap suc e))

some_inj : (a b : ℕ) → some a ≡ some b → a ≡ b
some_inj a b h = cc

-- The numbers from 1 to the number of disks, none of them twice.
abbrev pub IsDistribution : ℕ → List ℕ → Type 0
IsDistribution n [] = Unit
IsDistribution n (b ∷ distribution) =
    (0 < b) × (b ≤ n) × All (λ c. c ≢ b) distribution × IsDistribution n distribution

module _ {A : Type 0} where
  -- What is placed stands at its place, and the other places are as they were.
  abbrev Placed : List ℕ → List A → List A → List A → Type 0
  Placed distribution xs ordered r =
      ((j : ℕ) → All (λ c. c ≢ suc j) distribution → get_elem? r j ≡ get_elem? ordered j)
      × ((i b : ℕ)
          → get_elem? distribution i ≡ some b
          → i < length xs
          → get_elem? r (b - 1) ≡ get_elem? xs i)

  place-Placed :
      (distribution : List ℕ) (xs ordered : List A)
      → IsDistribution (length ordered) distribution
      → length xs ≤ length distribution
      → (r : List A) × (place distribution xs ordered ≡ some r) × Placed distribution xs ordered r
  unfolding place
  place-Placed distribution [] ordered d h =
      (ordered, refl, ((λ j a. refl), λ i b e k. absurd (omega arith)))
  place-Placed [] (x ∷ xs) ordered d h = absurd (omega arith)
  place-Placed (b ∷ distribution) (x ∷ xs) ordered (positive, small, other, d) h =
      let l = length-set ordered (b - 1) x in
      let (r, e, placed) =
        place-Placed distribution xs (set ordered (b - 1) x) (rw l d) (omega arith) in
      let (kept, found) = placed in
      let t : (b == 0 || ltb (length ordered) b) ≡ false = ground arith in
      let here : b ≡ suc (b - 1) = omega arith in
      (
        r,
        rw t e,
        (
          λ j a. kept j a.1 ∙ get_elem?-set_ne ordered (b - 1) j x (λ f. a.0 (here ∙ ap suc f)),
          λ i.
              elim i
                as (λ i.
                  (c : ℕ)
                  → get_elem? (b ∷ distribution) i ≡ some c
                  → i < length (x ∷ xs)
                  → get_elem? r (c - 1) ≡ get_elem? (x ∷ xs) i) [
                    | zero ↦ λ c f k.
                        let g : b ≡ c = some_inj b c f in
                        ap (λ n. get_elem? r (n - 1)) (sym g)
                        ∙ (kept (b - 1) (subst (λ n. All (λ c. c ≢ n) distribution) here other)
                            ∙ get_elem?-set_self ordered (b - 1) x (omega arith))
                    | suc i ↦ λ c f k. found i c f (omega (arith, k))
                  ],
        ),
      )

-- With a distribution that names places within the disks and none of them twice, and as many disks as
-- places or fewer, `getOrderedDisks` puts each disk at its place.
pub get_ordered_disks-Placed :
    {D : Type 0} (distribution : List ℕ) (disks : List (Option D))
    → IsDistribution (length disks) distribution
    → length disks ≤ length distribution
    → (r : List (Option D)) × (get_ordered_disks distribution disks ≡ some r)
      × ((i b : ℕ)
          → get_elem? distribution i ≡ some b
          → i < length disks
          → get_elem? r (b - 1) ≡ get_elem? disks i)
unfolding get_ordered_disks
get_ordered_disks-Placed {D} distribution disks d h =
    let n = length-replicate {A = Option D} (length disks) none in
    let (r, e, placed) =
      place-Placed distribution disks (replicate (length disks) none) (rw n d) h in
    (r, e, placed.1)

-- And `getOrderedPartsMetadata` does so with the metadata, so that the metadata at a place is that of
-- the disk at the place.
pub get_ordered_parts_metadata-Placed :
    {M : Type 0} (zero_value : M) (distribution : List ℕ) (metas : List M)
    → IsDistribution (length metas) distribution
    → length metas ≤ length distribution
    → (r : List M) × (get_ordered_parts_metadata zero_value distribution metas ≡ some r)
      × ((i b : ℕ)
          → get_elem? distribution i ≡ some b
          → i < length metas
          → get_elem? r (b - 1) ≡ get_elem? metas i)
unfolding get_ordered_parts_metadata
get_ordered_parts_metadata-Placed zero_value distribution metas d h =
    let n = length-replicate (length metas) zero_value in
    let (r, e, placed) =
      place-Placed distribution metas (replicate (length metas) zero_value) (rw n d) h in
    (r, e, placed.1)
