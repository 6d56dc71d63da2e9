-- ===== src/Erasure/Read/Lists.antt =====
-- Lists of optional values: which are there, and which agree with a list of values.
use minio.Base.{
  ℕ, zero, suc, ◌+◌, ◌≤◌, ◌≡◌, refl, ap, ap₂, List, [], ◌∷◌, ◌++◌, Option, none, some, arith,
  length, take, replicate, map, All, ◌≢◌,
}
use minio.Erasure.{Bytes}
use minio.Erasure.Disks.{available}

module _ {A : Type 0} where
  pub available-append : (l k : List (Option A)) → available (l ++ k) ≡ available l + available k
  available-append [] k = omega arith
  available-append (none ∷ l) k = available-append l k
  available-append (some _ ∷ l) k = omega (arith, available-append l k)

module _ {A B : Type 0} (f : Option A → Option B) where
  pub map-append : (xs ys : List (Option A)) → map f (xs ++ ys) ≡ map f xs ++ map f ys
  map-append [] ys = refl
  map-append (x ∷ xs) ys = ap (◌∷◌ (f x)) (map-append xs ys)

  pub length-map : (xs : List (Option A)) → length (map f xs) ≡ length xs
  length-map [] = refl
  length-map (x ∷ xs) = ap suc (length-map xs)

  -- A map that makes nothing out of nothing makes no more than there is.
  pub available-map : f none ≡ none → (xs : List (Option A)) → available (map f xs) ≤ available xs
  available-map h [] = omega arith
  available-map h (none ∷ xs) = rw h (available-map h xs)
  available-map h (some x ∷ xs) =
      elim (f (some x)) as (λ o. available (o ∷ map f xs) ≤ suc (available xs)) [
        | none ↦ omega (arith, available-map h xs)
        | some b ↦ omega (arith, available-map h xs)
      ]

-- Every value that is there is the one at its place.
abbrev pub Agrees : List (Option Bytes) → List Bytes → Type 0
Agrees [] [] = Unit
Agrees (none ∷ e) (_ ∷ s) = Agrees e s
Agrees (some b ∷ e) (a ∷ s) = (b ≡ a) × Agrees e s
Agrees _ _ = ⊥

pub length-Agrees : (e : List (Option Bytes)) (s : List Bytes) → Agrees e s → length e ≡ length s
length-Agrees [] [] h = refl
length-Agrees [] (_ ∷ s) h = absurd h
length-Agrees (none ∷ e) [] h = absurd h
length-Agrees (some _ ∷ e) [] h = absurd h
length-Agrees (none ∷ e) (_ ∷ s) h = ap suc (length-Agrees e s h)
length-Agrees (some _ ∷ e) (_ ∷ s) h = ap suc (length-Agrees e s h.1)

-- What is left out of the end still agrees.
pub Agrees-cut :
    (a b : List (Option Bytes)) (s : List Bytes)
    → Agrees (a ++ b) s
    → Agrees (a ++ replicate (length b) none) s
Agrees-cut [] [] s h = h
Agrees-cut [] (b ∷ bs) [] h =
    elim b as (λ o. Agrees (o ∷ bs) [] → Agrees (none ∷ replicate (length bs) none) []) [
      | none ↦ λ k. absurd k
      | some x ↦ λ k. absurd k
    ]
      h
Agrees-cut [] (none ∷ bs) (_ ∷ s) h = Agrees-cut [] bs s h
Agrees-cut [] (some b ∷ bs) (_ ∷ s) h = Agrees-cut [] bs s h.1
Agrees-cut (none ∷ a) b [] h = absurd h
Agrees-cut (some _ ∷ a) b [] h = absurd h
Agrees-cut (none ∷ a) b (_ ∷ s) h = Agrees-cut a b s h
Agrees-cut (some _ ∷ a) b (_ ∷ s) h = (h.0, Agrees-cut a b s h.1)

-- Where all of the first blocks are there, they are the first values.
pub take-Agrees :
    (n : ℕ) (e : List (Option Bytes)) (s : List Bytes)
    → Agrees e s
    → All (λ b. b ≢ none) (take n e)
    → take n e ≡ map some (take n s)
take-Agrees zero e s h a = refl
take-Agrees (suc n) [] [] h a = refl
take-Agrees (suc n) [] (_ ∷ s) h a = absurd h
take-Agrees (suc n) (none ∷ e) s h a = absurd (a.0 refl)
take-Agrees (suc n) (some _ ∷ e) [] h a = absurd h
take-Agrees (suc n) (some b ∷ e) (_ ∷ s) h a = ap₂ ◌∷◌ (ap some h.0) (take-Agrees n e s h.1 a.1)

pub take-map-some : (n : ℕ) (s : List Bytes) → take n (map some s) ≡ map some (take n s)
take-map-some zero s = refl
take-map-some (suc n) [] = refl
take-map-some (suc n) (b ∷ s) = ap (◌∷◌ (some b)) (take-map-some n s)
