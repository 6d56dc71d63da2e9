-- ===== src/Erasure/Read/Chunks.antt =====
-- The inner loop of `erasureReadFile`: the chunks of one block are read from the disks until there are
-- as many as data blocks, or there are no more disks.
use mathlib.Core.List.{append_assoc}
use minio.Base.{
  ℕ, zero, suc, ◌+◌, ◌≤◌, ◌<◌, ◌≡◌, refl, sym, ap, ap₂, ◌∙◌, List, [], ◌∷◌, ◌++◌, Option, none,
  some, ◌==◌, Bool-cases, Option-cases, inl, inr, arith, length, map, length-append,
  length-replicate,
}
use minio.Erasure.{Bytes, is_success_decode_blocks, get_read_disks, read_quorum}
use minio.Erasure.Disks.{available, available-nones, available-le, is_success_decode_blocks_iff}
use minio.Erasure.Read.Lists.{available-append, map-append, length-map, available-map}
use minio.Erasure.Read.{
  Storage, read_chunk, parallel_read, read_block, BlockRead, enough, lacking, no_read_quorum,
}
use minio.Erasure.Read.Picks.{nones, nones-append, get_read_disks-split}

module _ {D : Type 0} where
  module _ (storage : Storage D) (offset size : ℕ) where
    -- What a disk that is there gives.
    abbrev pub chunk_of : Option D → Option Bytes
    chunk_of none = none
    chunk_of (some disk) = read_chunk storage offset size disk

    -- A disk that gives nothing is taken out.
    abbrev pub alive : Option D → Option D
    alive o = elim (chunk_of o) [ none ↦ none | some b ↦ o ]

    available-alive : (l : List (Option D)) → available (map alive l) ≡ available (map chunk_of l)
    available-alive [] = refl
    available-alive (none ∷ l) = available-alive l
    available-alive (some disk ∷ l) =
        elim (read_chunk storage offset size disk)
          as (λ c.
            available ((elim c [ none ↦ none | some b ↦ some disk ]) ∷ map alive l)
            ≡ available (c ∷ map chunk_of l)) [
              | none ↦ available-alive l
              | some b ↦ ap suc (available-alive l)
            ]

    parallel_read-append :
        (r r' o o' : List (Option D)) (e e' : List (Option Bytes))
        → length r ≡ length o
        → length r ≡ length e
        → parallel_read storage offset size (r ++ r') (o ++ o') (e ++ e') ≡ (
          (parallel_read storage offset size r o e).0
              ++ (parallel_read storage offset size r' o' e').0,
          (parallel_read storage offset size r o e).1
              ++ (parallel_read storage offset size r' o' e').1,
        )
    unfolding parallel_read
    parallel_read-append [] r' [] o' [] e' h k = refl
    parallel_read-append [] r' (_ ∷ o) o' e e' h k = absurd (omega arith)
    parallel_read-append [] r' [] o' (_ ∷ e) e' h k = absurd (omega arith)
    parallel_read-append (_ ∷ r) r' [] o' e e' h k = absurd (omega arith)
    parallel_read-append (_ ∷ r) r' (_ ∷ o) o' [] e' h k = absurd (omega arith)
    parallel_read-append (none ∷ r) r' (x ∷ o) o' (b ∷ e) e' h k =
        let ih = parallel_read-append r r' o o' e e' (omega arith) (omega arith) in
        ap₂ (λ s t. (x ∷ s, b ∷ t)) (ap (λ p. p.0) ih) (ap (λ p. p.1) ih)
    parallel_read-append (some disk ∷ r) r' (x ∷ o) o' (b ∷ e) e' h k =
        let ih = parallel_read-append r r' o o' e e' (omega arith) (omega arith) in
        elim (Option-cases (read_chunk storage offset size disk)) [
          | inl c ↦
              rw (c, parallel_read)
                (ap₂ (λ s t. (none ∷ s, b ∷ t)) (ap (λ p. p.0) ih) (ap (λ p. p.1) ih))
          | inr (buf, c) ↦
              rw (c, parallel_read)
                (ap₂ (λ s t. (x ∷ s, some buf ∷ t)) (ap (λ p. p.0) ih) (ap (λ p. p.1) ih))
        ]

    parallel_read-nones :
        (o : List (Option D)) (e : List (Option Bytes))
        → length o ≡ length e
        → parallel_read storage offset size (nones o) o e ≡ (o, e)
    unfolding parallel_read
    parallel_read-nones [] e h = refl
    parallel_read-nones (x ∷ o) [] h = absurd (omega arith)
    parallel_read-nones (x ∷ o) (b ∷ e) h =
        let ih = parallel_read-nones o e (omega arith) in
        ap₂ (λ s t. (x ∷ s, b ∷ t)) (ap (λ p. p.0) ih) (ap (λ p. p.1) ih)

    parallel_read-all :
        (l : List (Option D))
        → parallel_read storage offset size l l (nones l) ≡ (map alive l, map chunk_of l)
    unfolding parallel_read
    parallel_read-all [] = refl
    parallel_read-all (none ∷ l) =
        let ih = parallel_read-all l in
        ap₂ (λ s t. (none ∷ s, none ∷ t)) (ap (λ p. p.0) ih) (ap (λ p. p.1) ih)
    parallel_read-all (some disk ∷ l) =
        let ih = parallel_read-all l in
        elim (Option-cases (read_chunk storage offset size disk)) [
          | inl c ↦
              rw (c, parallel_read, alive)
                (ap₂ (λ s t. (none ∷ s, none ∷ t)) (ap (λ p. p.0) ih) (ap (λ p. p.1) ih))
          | inr (buf, c) ↦
              rw (c, parallel_read, alive)
                (ap₂ (λ s t. (some disk ∷ s, some buf ∷ t)) (ap (λ p. p.0) ih) (ap (λ p. p.1) ih))
        ]

    -- One round: the disks picked are read, and all others stay.
    parallel_read-round :
        (before a b : List (Option D))
        → parallel_read storage offset size
            (nones (map alive before) ++ (a ++ nones b))
            (map alive before ++ (a ++ b))
            (map chunk_of before ++ nones (a ++ b))
          ≡ (map alive (before ++ a) ++ b, map chunk_of (before ++ a) ++ nones b)
    parallel_read-round before a b =
        let la = length-map alive before in
        let lc = length-map chunk_of before in
        let split : nones {A = Bytes} (a ++ b) ≡ nones a ++ nones b = nones-append a b in
        rw
          (
            split,
            map-append alive before a,
            map-append chunk_of before a,
            append_assoc,
            append_assoc,
          )
          (parallel_read-append (nones (map alive before)) (a ++ nones b) (map alive before)
              (a ++ b) (map chunk_of before) (nones a ++ nones b)
              (length-replicate (length (map alive before)) none)
              (length-replicate (length (map alive before)) none ∙ (la ∙ sym lc))
            ∙ ap₂ (λ x y. (x.0 ++ y.0, x.1 ++ y.1))
                (parallel_read-nones (map alive before) (map chunk_of before) (la ∙ sym lc))
                (parallel_read-append a (nones b) a b (nones a) (nones b) refl
                    (sym (length-replicate (length a) none))
                  ∙ ap₂ (λ x y. (x.0 ++ y.0, x.1 ++ y.1)) (parallel_read-all a)
                      (parallel_read-nones b (nones b) (sym (length-replicate (length b) none)))))

    -- The loop ends with enough chunks: all disks up to some one were read, and the ones that gave
    -- nothing are taken out; or all disks were read and gave too few.
    abbrev pub BlockOutcome : ℕ → List (Option D) → BlockRead D → Type 0
    BlockOutcome n disks (enough disks' en_blocks) =
        (a : List (Option D)) × (b : List (Option D)) × (disks ≡ a ++ b)
        × (disks' ≡ map alive a ++ b)
        × (en_blocks ≡ map chunk_of a ++ nones b)
        × (n ≤ available (map chunk_of a))
    BlockOutcome n disks (lacking e) = (e ≡ no_read_quorum) × (available (map chunk_of disks) < n)

    pub read_block-BlockOutcome :
        (n fuel : ℕ) (before after : List (Option D))
        → available (map chunk_of before) < n
        → length after < fuel
        → BlockOutcome n (before ++ after) (
            read_block storage fuel n offset size
              (map alive before ++ after)
              (map chunk_of before ++ nones after)
              (length before))
    unfolding read_block
    read_block-BlockOutcome n zero before after few f = absurd (omega arith)
    read_block-BlockOutcome n (suc fuel) before after few f =
        let l = length-map alive before in
        let c = available-alive before in
        elim (get_read_disks-split n (map alive before) after (omega arith)) [
          | inr (e, short) ↦
              let e' : get_read_disks n (map alive before ++ after) (length before) ≡ read_quorum =
                rw l at e in
              rw (e', read_block)
                (
                  refl,
                  rw (map-append chunk_of before after) (
                      omega (
                        arith,
                        available-append (map chunk_of before) (map chunk_of after),
                        available-append (map alive before) after,
                        available-map chunk_of refl after,
                      )),
                )
          | inl (a, b, e, g, pos') ↦
              let g' = rw (l, e) at g in
              let r = rw l at (parallel_read-round before a b) in
              let en = map chunk_of (before ++ a) ++ nones b in
              let ok = is_success_decode_blocks_iff en n in
              let count : available en ≡ available (map chunk_of (before ++ a)) = omega (
                arith,
                available-append (map chunk_of (before ++ a)) (nones b),
                available-nones Bytes (length b),
              ) in
              rw e (elim (Bool-cases (is_success_decode_blocks en n)) [
                | inl t ↦
                    rw (g', read_block, r, t)
                      (
                        before ++ a,
                        b,
                        sym (append_assoc before a b),
                        refl,
                        refl,
                        omega (arith, ok.0 t, count),
                      )
                | inr t ↦
                    let few' : available (map chunk_of (before ++ a)) < n = ground (arith, count) in
                    elim (Bool-cases
                      (length before + length a == length (map alive before ++ (a ++ b)))) [
                        | inl u ↦
                            rw (g', read_block, r, t, u)
                              (
                                refl,
                                let v : length before + length a
                                        ≡ length (map alive before ++ (a ++ b)) =
                                      ground arith in
                                    rw
                                      (
                                        ← append_assoc before a b,
                                        map-append chunk_of (before ++ a) b,
                                      )
                                      (omega (
                                        arith,
                                        few',
                                        v,
                                        l,
                                        length-append (map alive before) (a ++ b),
                                        length-append a b,
                                        available-append (map chunk_of (before ++ a))
                                            (map chunk_of b),
                                        available-map chunk_of refl b,
                                        available-le b,
                                      )),
                              )
                        | inr u ↦
                            rw (g', read_block, r, t, u)
                              (rw (← append_assoc before a b, ← length-append before a)
                                (read_block-BlockOutcome n fuel (before ++ a) b few'
                                  (omega (arith, f, ap length e, length-append a b))))
                      ]
              ])
        ]
