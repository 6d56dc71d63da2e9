-- ===== src/Erasure/Blocks.antt =====
-- `writeDataBlocks` of cmd/erasure-utils.go writes a range of the data, and the tests on the blocks
-- read of cmd/erasure-readfile.go count them.
use mathlib.Core.List.{append-nil, append_assoc}
use minio.Base.{
  ℕ, zero, suc, ◌+◌, ◌-◌, ◌≤◌, ◌<◌, ◌≡◌, refl, sym, ap, ap₂, ◌∙◌, true, List, [], ◌∷◌, ◌++◌, Option,
  some, ltb, leb, Bool-cases, inl, inr, arith, length, take, drop, length-append, length-take,
}
use native.Mathlib.Nat.{sub-zero, add-zero}
use minio.Base.Int.{pos}
use minio.Erasure.{
  Bytes, bytes_of, get_data_block_len, Written, wrote, write_blocks, write_data_blocks,
}

-- The bytes of some blocks, in order.
abbrev pub joined : List (Option Bytes) → Bytes
joined [] = []
joined (b ∷ bs) = bytes_of b ++ joined bs

-- The bytes from an offset on, as many as asked for or as there are.
abbrev pub range : ℕ → ℕ → Bytes → Bytes
range offset len bytes = take len (drop offset bytes)

pub drop-append_le : (n : ℕ) (xs ys : Bytes) → n ≤ length xs → drop n (xs ++ ys) ≡ drop n xs ++ ys
drop-append_le zero xs ys h = refl
drop-append_le (suc n) [] ys h = absurd (omega arith)
drop-append_le (suc n) (x ∷ xs) ys h = drop-append_le n xs ys (omega arith)

pub drop-append_ge :
    (n : ℕ) (xs ys : Bytes) → length xs ≤ n → drop n (xs ++ ys) ≡ drop (n - length xs) ys
drop-append_ge n [] ys h = rw (sub-zero n)
drop-append_ge zero (x ∷ xs) ys h = absurd (omega arith)
drop-append_ge (suc n) (x ∷ xs) ys h =
    drop-append_ge n xs ys (omega arith) ∙ ap (λ t. drop t ys) (omega arith)

take-append_lt : (n : ℕ) (xs ys : Bytes) → n ≤ length xs → take n (xs ++ ys) ≡ take n xs
take-append_lt zero xs ys h = refl
take-append_lt (suc n) [] ys h = absurd (omega arith)
take-append_lt (suc n) (x ∷ xs) ys h = ap (◌∷◌ x) (take-append_lt n xs ys (omega arith))

pub take-append_ge :
    (n : ℕ) (xs ys : Bytes) → length xs ≤ n → take n (xs ++ ys) ≡ xs ++ take (n - length xs) ys
take-append_ge n [] ys h = rw (sub-zero n)
take-append_ge zero (x ∷ xs) ys h = absurd (omega arith)
take-append_ge (suc n) (x ∷ xs) ys h =
    ap (◌∷◌ x) (take-append_ge n xs ys (omega arith) ∙ ap (λ t. xs ++ take t ys) (omega arith))

-- A writer that keeps all that is copied to it.
abbrev pub append_to : Bytes → Bytes → Option Bytes
append_to dst b = some (dst ++ b)

pub range-nil : (offset len : ℕ) → range offset len [] ≡ []
range-nil zero zero = refl
range-nil zero (suc len) = refl
range-nil (suc offset) zero = refl
range-nil (suc offset) (suc len) = refl

abbrev outcome : Bytes → ℕ → Bytes → Bytes × Written
outcome dst total out = (dst ++ out, wrote (total + length out))

lt_of_test : (a b : ℕ) → ltb a b ≡ true → a < b
lt_of_test a b h = ground arith

regroup :
    (dst tail out : Bytes) (total : ℕ)
    → outcome (dst ++ tail) (total + length tail) out ≡ outcome dst total (tail ++ out)
regroup dst tail out total =
    let n : total + length tail + length out ≡ total + length (tail ++ out) =
      omega (arith, length-append tail out) in
    ap₂ (λ a b. (a, wrote b)) (append_assoc dst tail out) n

write_blocks-range :
    (bs : List (Option Bytes)) (offset write total : ℕ) (dst : Bytes)
    → write_blocks append_to bs offset write total dst
      ≡ outcome dst total (range offset write (joined bs))
unfolding write_blocks
write_blocks-range [] offset write total dst =
    rw (range-nil offset write, append-nil dst, add-zero total)
write_blocks-range (b ∷ bs) offset write total dst =
    let block = bytes_of b in
    let tail = drop offset block in
    let rest = joined bs in
    elim (Bool-cases (leb (length block) offset)) [
      | inl skip ↦ rw skip (
          write_blocks-range bs (offset - length block) write total dst
          ∙ ap (λ t. outcome dst total (take write t))
              (sym (drop-append_ge offset block (joined bs) (ground arith))))
      | inr here ↦ elim (Bool-cases (ltb write (length (drop offset block)))) [
        | inl part ↦
            let e : range offset write (block ++ rest) ≡ take write tail =
              ap (take write) (drop-append_le offset block rest (ground arith))
              ∙ take-append_lt write tail rest (ground arith) in
            let n : length (take write tail) ≡ write =
              omega (arith, length-take write tail, lt_of_test write (length tail) part) in
            rw (here, part, e, n)
        | inr whole ↦
            let more = write - length tail in
            let e : range offset write (block ++ rest) ≡ tail ++ take more rest =
              ap (take write) (drop-append_le offset block rest (ground arith))
              ∙ take-append_ge write tail rest (ground arith) in
            rw (here, whole, e)
              (write_blocks-range bs 0 more (total + length tail) (dst ++ tail)
                ∙ regroup dst tail (take more rest) total)
      ]
    ]

-- With enough blocks and data, `writeDataBlocks` appends to its destination exactly the bytes of the
-- data blocks from the offset on, as many as asked for or as there are, and returns their number.
pub write_data_blocks-range :
    (en_blocks : List (Option Bytes)) (data_blocks offset len : ℕ) (dst : Bytes)
    → data_blocks ≤ length en_blocks
    → len ≤ get_data_block_len en_blocks data_blocks
    → write_data_blocks append_to en_blocks data_blocks (pos offset) (pos len) dst ≡ (
      dst ++ range offset len (joined (take data_blocks en_blocks)),
      wrote (length (range offset len (joined (take data_blocks en_blocks)))),
    )
unfolding write_data_blocks
write_data_blocks-range bs d offset len dst h k =
    ground (arith, write_blocks-range (take d bs) offset len 0 dst)
