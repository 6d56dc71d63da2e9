-- ===== src/Erasure/Read/Slices.antt =====
-- Ranges of bytes and the blocks of a file.
use mathlib.Core.List.{append_assoc}
use minio.Base.{
  ℕ, zero, suc, ◌+◌, ◌*◌, ◌/◌, ◌%◌, ◌≤◌, ◌<◌, ◌≡◌, refl, sym, ap, ◌∙◌, List, [], ◌∷◌, ◌++◌, Option,
  arith, length, take, drop, length-append,
}
use minio.Erasure.{Bytes, bytes_of, sum_lengths}
use minio.Erasure.Blocks.{joined, range}

drop-nil : (n : ℕ) → drop {A = ℕ} n [] ≡ []
drop-nil zero = refl
drop-nil (suc n) = refl

pub take-nil : (n : ℕ) → take {A = ℕ} n [] ≡ []
take-nil zero = refl
take-nil (suc n) = refl

pub drop-drop : (a b : ℕ) (l : Bytes) → drop a (drop b l) ≡ drop (b + a) l
drop-drop a zero l = ap (λ n. drop n l) (omega arith)
drop-drop a (suc b) [] = drop-nil a ∙ sym (drop-nil (suc b + a))
drop-drop a (suc b) (x ∷ l) =
    let e : suc (b + a) ≡ suc b + a = omega arith in drop-drop a b l ∙ ap (λ n. drop n (x ∷ l)) e

pub take-add : (a b : ℕ) (l : Bytes) → take (a + b) l ≡ take a l ++ take b (drop a l)
take-add zero b l = ap (λ n. take n l) (omega arith)
take-add (suc a) b [] = take-nil (suc a + b) ∙ sym (take-nil b)
take-add (suc a) b (x ∷ l) =
    let e : suc a + b ≡ suc (a + b) = omega arith in
    ap (λ n. take n (x ∷ l)) e ∙ ap (◌∷◌ x) (take-add a b l)

-- A range within the first bytes is one of the whole.
pub range-take : (o n m : ℕ) (l : Bytes) → o + n ≤ m → range o n (take m l) ≡ range o n l
range-take zero zero m l h = refl
range-take zero (suc n) zero l h = absurd (omega arith)
range-take zero (suc n) (suc m) [] h = refl
range-take zero (suc n) (suc m) (x ∷ l) h = ap (◌∷◌ x) (range-take zero n m l (omega arith))
range-take (suc o) n zero l h = absurd (omega arith)
range-take (suc o) n (suc m) [] h = refl
range-take (suc o) n (suc m) (x ∷ l) h = range-take o n m l (omega arith)

-- And so is one that ends before the bytes that are appended.
pub range-append : (o n : ℕ) (l k : Bytes) → o + n ≤ length l → range o n (l ++ k) ≡ range o n l
range-append zero zero l k h = refl
range-append zero (suc n) [] k h = absurd (omega arith)
range-append zero (suc n) (x ∷ l) k h = ap (◌∷◌ x) (range-append zero n l k (omega arith))
range-append (suc o) n [] k h = absurd (omega arith)
range-append (suc o) n (x ∷ l) k h = range-append o n l k (omega arith)

-- Two ranges, one after the other.
pub range-range :
    (dst : Bytes) (o a n : ℕ) (l : Bytes)
    → (dst ++ range o a l) ++ range (o + a) n l ≡ dst ++ range o (a + n) l
range-range dst o a n l =
    append_assoc dst (range o a l) (range (o + a) n l)
    ∙ ap (◌++◌ dst)
        (ap (λ x. range o a l ++ take n x) (sym (drop-drop a o l)) ∙ sym (take-add a n (drop o l)))

pub sum_lengths-joined : (bs : List (Option Bytes)) → sum_lengths bs ≡ length (joined bs)
unfolding sum_lengths
sum_lengths-joined [] = refl
sum_lengths-joined (b ∷ bs) =
    omega (arith, sum_lengths-joined bs, length-append (bytes_of b) (joined bs))

-- The bytes of one block of a file.
abbrev pub block_of : ℕ → Bytes → ℕ → Bytes
block_of block_size file k = take block_size (drop (k * block_size) file)

pub range-block_of :
    (bs k o n : ℕ) (file : Bytes)
    → o + n ≤ bs
    → range o n (block_of bs file k) ≡ range (k * bs + o) n file
range-block_of bs k o n file h =
    range-take o n bs (drop (k * bs) file) h ∙ ap (take n) (drop-drop o (k * bs) file)

-- Division by the size of a block.
module _ (bs : ℕ) where
  pub quotient : (n k : ℕ) → k * bs ≤ n → n < k * bs + bs → n / bs ≡ k
  quotient n k p q = grind arith

  pub parts : (n : ℕ) → 0 < bs → (n / bs * bs + n % bs ≡ n) × (n % bs < bs)
  parts n p = (grind arith, grind arith)

  pub next_multiple : (j k : ℕ) → j < k → j * bs + bs ≤ k * bs
  next_multiple j k h = grind arith

  -- Where one block begins, the next one does a block later.
  pub suc_multiple : (k : ℕ) → (k + 1) * bs ≡ k * bs + bs
  suc_multiple k = omega arith

  pub div_le : (a b : ℕ) → 0 < bs → a ≤ b → a / bs ≤ b / bs
  div_le a b p h = grind arith
