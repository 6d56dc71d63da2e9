-- ===== src/Erasure/Read/Picks.antt =====
-- The disks that `getReadDisks` of cmd/erasure-readfile.go picks for one round.
use minio.Base.{
  drop-append_self, ℕ, ◌+◌, ◌≤◌, ◌<◌, ◌≡◌, ◌⊎◌, refl, ap, ◌||◌, List, [], ◌∷◌, ◌++◌, Option, none,
  some, ltb, ◌==◌, Bool-cases, Option-cases, inl, inr, arith, length, replicate, length-append,
  if◌then◌else◌, take-append_self,
}
use minio.Erasure.{count_blocks, pick, get_read_disks, picked, read_quorum}
use minio.Erasure.Disks.{available, count_blocks-sum}
use minio.Erasure.Read.Lists.{available-append}

module _ {D : Type 0} where
  abbrev pub nones : {A : Type 0} → List (Option D) → List (Option A)
  nones l = replicate (length l) none

  pub nones-append :
      {A : Type 0} (a b : List (Option D)) → nones {A = A} (a ++ b) ≡ nones a ++ nones b
  nones-append [] b = refl
  nones-append (x ∷ a) b = ap (◌∷◌ none) (nones-append a b)

  module _ (n : ℕ) where
    -- What the loop of `getReadDisks` picks: all disks up to the one with which there are enough.
    abbrev pub PicksUpTo : List (Option D) → ℕ → ℕ → Option (List (Option D) × ℕ) → Type 0
    PicksUpTo l i seen none = seen + available l < n
    PicksUpTo l i seen (some r) =
        (a : List (Option D)) × (b : List (Option D)) × (l ≡ a ++ b)
        × (r.0 ≡ a ++ nones b)
        × (r.1 ≡ i + length a)
        × (0 < length a)
        × (seen + available a ≡ n)

    pub pick-PicksUpTo :
        (l : List (Option D)) (i d p : ℕ) → d + p < n → PicksUpTo l i (d + p) (pick n l i d p)
    unfolding pick
    pick-PicksUpTo [] i d p h = omega arith
    pick-PicksUpTo (none ∷ l) i d p h =
        elim (pick n l (i + 1) d p)
            as (λ r.
              PicksUpTo l (i + 1) (d + p) r
              → PicksUpTo (none ∷ l) i (d + p)
                  (elim r [ none ↦ none | some (c, next) ↦ some (none ∷ c, next) ])) [
                    | none ↦ λ k. k
                    | some r ↦ λ (a, b, e, f, g, m, s).
                        (none ∷ a, b, ap (◌∷◌ none) e, ap (◌∷◌ none) f, omega arith, omega arith, s)
                  ]
          (pick-PicksUpTo l (i + 1) d p h)
    pick-PicksUpTo (some x ∷ l) i d p h =
        let d' = if ltb i n then d + 1 else d in
        let p' = if ltb i n then p else p + 1 in
        let more : d' + p' ≡ d + p + 1 = ground arith in
        elim (Bool-cases (d' == n || d' + p' == n)) [
          | inl stop ↦
              let full : d + p + 1 ≡ n = ground arith in
              rw stop (some x ∷ [], l, refl, refl, omega arith, omega arith, omega (arith, full))
          | inr go ↦
              let ih = pick-PicksUpTo l (i + 1) d' p' (ground arith) in
              rw go (
                elim (pick n l (i + 1) d' p')
                    as (λ r.
                      PicksUpTo l (i + 1) (d' + p') r
                      → PicksUpTo (some x ∷ l) i (d + p)
                          (elim r [ none ↦ none | some (c, next) ↦ some (some x ∷ c, next) ])) [
                            | none ↦ λ k. omega (arith, more, k)
                            | some r ↦ λ (a, b, e, f, g, m, s). (
                              some x ∷ a,
                              b,
                              ap (◌∷◌ (some x)) e,
                              ap (◌∷◌ (some x)) f,
                              omega (arith, g),
                              omega arith,
                              omega (arith, more, s),
                            )
                          ]
                  ih)
        ]

    pub get_read_disks-split :
        (before after : List (Option D))
        → available before < n
        → ((a : List (Option D)) × (b : List (Option D)) × (after ≡ a ++ b)
            × (get_read_disks n (before ++ after) (length before)
                ≡ picked (nones before ++ (a ++ nones b)) (length before + length a))
            × (0 < length a))
          ⊎ ((get_read_disks n (before ++ after) (length before) ≡ read_quorum)
              × (available (before ++ after) < n))
    unfolding get_read_disks
    get_read_disks-split before after few =
        let counts = count_blocks before 0 n 0 0 in
        let sum = count_blocks-sum before 0 n 0 0 in
        let t = take-append_self before after in
        let d = drop-append_self before after in
        let out = pick-PicksUpTo after (length before) counts.0 counts.1 (omega (arith, sum)) in
        let within : length before ≤ length (before ++ after) =
          omega (arith, length-append before after) in
        elim (Option-cases (pick n after (length before) counts.0 counts.1)) [
          | inl e ↦
              let short : counts.0 + counts.1 + available after < n = rw e at out in
              inr (ground arith, omega (arith, available-append before after, sum, short))
          | inr (r, e) ↦ let (a, b, f, g, m, k, s) = rw e at out in inl (a, b, f, ground arith, k)
        ]
