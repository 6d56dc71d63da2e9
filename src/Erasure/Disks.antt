-- ===== src/Erasure/Disks.antt =====
-- The counting tests and the choice of disks of cmd/erasure-readfile.go.
use minio.Base.{
  ℕ, zero, suc, ◌+◌, ◌≤◌, ◌<◌, ◌≡◌, ◌≢◌, ◌↔◌, ◌⊎◌, refl, ap, sym, ◌∙◌, true, ◌||◌, List, [], ◌∷◌,
  ◌++◌, Option, none, some, ltb, ◌==◌, Bool-cases, Option-cases, inl, inr, arith, length, take,
  drop, replicate, All, length-drop, length-take, take-append-drop, if◌then◌else◌,
}
use minio.Erasure.{
  Bytes, count_blocks, is_success_decode_blocks, is_success_data_blocks, pick, get_read_disks,
  picked, read_quorum,
}

module _ {A : Type 0} where
  -- How many are there.
  abbrev pub available : List (Option A) → ℕ
  available [] = 0
  available (none ∷ l) = available l
  available (some _ ∷ l) = suc (available l)

  pub available-le : (l : List (Option A)) → available l ≤ length l
  available-le [] = omega arith
  available-le (none ∷ l) = omega (arith, available-le l)
  available-le (some _ ∷ l) = omega (arith, available-le l)

  available-append : (l k : List (Option A)) → available (l ++ k) ≡ available l + available k
  available-append [] k = omega arith
  available-append (none ∷ l) k = available-append l k
  available-append (some _ ∷ l) k = omega (arith, available-append l k)

  All-present : (l : List (Option A)) → length l ≤ available l → All (λ b. b ≢ none) l
  All-present [] h = tt
  All-present (none ∷ l) h = absurd (omega (arith, available-le l))
  All-present (some a ∷ l) h = (λ e. cc, All-present l (omega arith))

  present-All : (l : List (Option A)) → All (λ b. b ≢ none) l → available l ≡ length l
  present-All [] h = refl
  present-All (none ∷ l) h = absurd (h.0 refl)
  present-All (some a ∷ l) h = ap suc (present-All l h.1)

  pub count_blocks-sum :
      (l : List (Option A)) (i n d p : ℕ)
      → (count_blocks l i n d p).0 + (count_blocks l i n d p).1 ≡ d + p + available l
  unfolding count_blocks
  count_blocks-sum [] i n d p = omega arith
  count_blocks-sum (none ∷ l) i n d p = count_blocks-sum l (i + 1) n d p
  count_blocks-sum (some _ ∷ l) i n d p =
      ground (arith, count_blocks-sum l (i + 1) n (d + 1) p, count_blocks-sum l (i + 1) n d (p + 1))

  count_blocks-data :
      (l : List (Option A)) (i n d p : ℕ)
      → i + length l ≤ n
      → (count_blocks l i n d p).0 ≡ d + available l
  unfolding count_blocks
  count_blocks-data [] i n d p h = omega arith
  count_blocks-data (none ∷ l) i n d p h = count_blocks-data l (i + 1) n d p (omega arith)
  count_blocks-data (some _ ∷ l) i n d p h =
      ground (arith, count_blocks-data l (i + 1) n (d + 1) p (omega arith))

pub available-nones : (A : Type 0) (n : ℕ) → available {A = A} (replicate n none) ≡ 0
available-nones A zero = refl
available-nones A (suc n) = available-nones A n

-- A block can be decoded exactly when at least as many of its chunks were read, data or parity, as
-- there are data disks.
pub is_success_decode_blocks_iff :
    (en_blocks : List (Option Bytes)) (data_blocks : ℕ)
    → (is_success_decode_blocks en_blocks data_blocks ≡ true) ↔ (data_blocks ≤ available en_blocks)
unfolding is_success_decode_blocks
is_success_decode_blocks_iff l n = ground (arith, count_blocks-sum l 0 n 0 0)

-- Decoding is skipped exactly when none of the data chunks is missing.
pub is_success_data_blocks_iff :
    (en_blocks : List (Option Bytes)) (data_blocks : ℕ)
    → data_blocks ≤ length en_blocks
    → (is_success_data_blocks en_blocks data_blocks ≡ true)
      ↔ All (λ b. b ≢ none) (take data_blocks en_blocks)
unfolding is_success_data_blocks
is_success_data_blocks_iff l n h =
    let m : length (take n l) ≡ n = omega (arith, length-take n l) in
    let c : (count_blocks (take n l) 0 n 0 0).0 ≡ available (take n l) =
      omega (arith, count_blocks-data (take n l) 0 n 0 0 (omega (arith, m))) in
    (
      λ e. All-present (take n l) (ground arith),
      λ a. let k = present-All (take n l) a in ground arith,
    )

-- The left list keeps some of the right one's disks, each in its place.
module _ {D : Type 0} where
  abbrev pub Keeps : List (Option D) → List (Option D) → Type 0
  Keeps [] [] = Unit
  Keeps (none ∷ c) (_ ∷ l) = Keeps c l
  Keeps (some a ∷ c) (some b ∷ l) = (a ≡ b) × Keeps c l
  Keeps _ _ = ⊥

  Keeps-nones : (l : List (Option D)) → Keeps (replicate (length l) none) l
  Keeps-nones [] = tt
  Keeps-nones (_ ∷ l) = Keeps-nones l

  Keeps-append : (c c' l l' : List (Option D)) → Keeps c l → Keeps c' l' → Keeps (c ++ c') (l ++ l')
  Keeps-append [] c' [] l' h k = k
  Keeps-append [] c' (_ ∷ l) l' h k = absurd h
  Keeps-append (none ∷ c) c' [] l' h k = absurd h
  Keeps-append (some _ ∷ c) c' [] l' h k = absurd h
  Keeps-append (none ∷ c) c' (_ ∷ l) l' h k = Keeps-append c c' l l' h k
  Keeps-append (some _ ∷ c) c' (none ∷ l) l' h k = absurd h
  Keeps-append (some _ ∷ c) c' (some _ ∷ l) l' h k = (h.0, Keeps-append c c' l l' h.1 k)

  module _ (n : ℕ) where
    -- What the second loop returns, from `d + p` chunks that were counted before.
    abbrev PickOutcome : List (Option D) → ℕ → ℕ → Option (List (Option D) × ℕ) → Type 0
    PickOutcome l i seen none = seen + available l < n
    PickOutcome l i seen (some (chosen, next)) =
        Keeps chosen l × (seen + available chosen ≡ n) × (i < next) × (next ≤ i + length l)

    abbrev shift : Option D → Option (List (Option D) × ℕ) → Option (List (Option D) × ℕ)
    shift o r = elim r [ none ↦ none | some (chosen, next) ↦ some (o ∷ chosen, next) ]

    shift-none :
        (l : List (Option D)) (i seen : ℕ) (r : Option (List (Option D) × ℕ))
        → PickOutcome l (i + 1) seen r
        → PickOutcome (none ∷ l) i seen (shift none r)
    shift-none l i seen none h = h
    shift-none l i seen (some (chosen, next)) (k, s, a, b) = (k, s, omega arith, omega arith)

    shift-some :
        (l : List (Option D)) (i seen : ℕ) (a : D) (r : Option (List (Option D) × ℕ))
        → PickOutcome l (i + 1) (seen + 1) r
        → PickOutcome (some a ∷ l) i seen (shift (some a) r)
    shift-some l i seen a none h = omega arith
    shift-some l i seen a (some (chosen, next)) (k, s, b, c) =
        ((refl, k), omega arith, omega arith, omega arith)

    pick-PickOutcome :
        (l : List (Option D)) (i d p : ℕ) → d + p < n → PickOutcome l i (d + p) (pick n l i d p)
    unfolding pick
    pick-PickOutcome [] i d p h = omega arith
    pick-PickOutcome (none ∷ l) i d p h =
        shift-none l i (d + p) (pick n l (i + 1) d p) (pick-PickOutcome l (i + 1) d p h)
    pick-PickOutcome (some a ∷ l) i d p h =
        let d' = if ltb i n then d + 1 else d in
        let p' = if ltb i n then p else p + 1 in
        let more : d' + p' ≡ d + p + 1 = ground arith in
        elim (Bool-cases (d' == n || d' + p' == n)) [
          | inl stop ↦
              let full : d + p + 1 ≡ n = ground arith in
              rw stop (
                (refl, Keeps-nones l),
                omega (arith, available-nones D (length l), full),
                omega arith,
                omega arith,
              )
          | inr go ↦ rw go (
              shift-some l i (d + p) a _
                (rw more at (pick-PickOutcome l (i + 1) d' p' (ground arith))))
        ]

    module _ (disks : List (Option D)) (index : ℕ) (h : index ≤ length disks) where
      Keeps-picked :
          (chosen : List (Option D))
          → Keeps chosen (drop index disks)
          → Keeps (replicate index none ++ chosen) disks
      Keeps-picked chosen k =
          let m : length (take index disks) ≡ index = omega (arith, length-take index disks) in
          let left : Keeps (replicate index none) (take index disks) =
            rw m at (Keeps-nones (take index disks)) in
          rw (take-append-drop index disks) at (
            Keeps-append (replicate index none) chosen (take index disks) (drop index disks) left k)

      -- While fewer chunks than data blocks were read, `getReadDisks` does not fail by its sanity
      -- checks. It picks disks from the index on, each in its place, so many that with the disks
      -- before the index there are as many as data blocks, and moves the index on; or it reports a
      -- missing read quorum, and then there are fewer disks than data blocks.
      pub get_read_disks-outcome :
          available (take index disks) < n
          → ((chosen : List (Option D)) × (next : ℕ) × (get_read_disks n disks index
                ≡ picked chosen next)
              × Keeps chosen disks
              × (available (take index disks) + available chosen ≡ n)
              × (index < next)
              × (next ≤ length disks))
            ⊎ ((get_read_disks n disks index ≡ read_quorum) × (available disks < n))
      unfolding get_read_disks
      get_read_disks-outcome few =
          let before = take index disks in
          let after = drop index disks in
          let counts = count_blocks before 0 n 0 0 in
          let sum : counts.0 + counts.1 ≡ available before =
            omega (arith, count_blocks-sum before 0 n 0 0) in
          let out : PickOutcome after index (counts.0 + counts.1)
              (pick n after index counts.0 counts.1) =
            pick-PickOutcome after index counts.0 counts.1 (omega (arith, sum)) in
          let whole : available disks ≡ available before + available after =
            ap available (sym (take-append-drop index disks)) ∙ available-append before after in
          elim (Option-cases (pick n after index counts.0 counts.1)) [
            | inl e ↦
                let short : counts.0 + counts.1 + available after < n = rw e at out in
                inr (ground arith, omega (arith, whole, sum, short))
            | inr ((c, next), e) ↦
                let (k, s, a, b) = rw e at out in
                inl (
                  replicate index none ++ c,
                  next,
                  ground arith,
                  Keeps-picked c k,
                  omega (
                    arith,
                    available-append (replicate index none) c,
                    available-nones D index,
                    sum,
                    s,
                  ),
                  a,
                  omega (arith, length-drop index disks, b),
                )
          ]
