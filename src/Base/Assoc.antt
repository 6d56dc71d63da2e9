-- ===== src/Base/Assoc.antt =====
-- Go maps as association lists over keys with a decidable equality, their laws of lookup, and the
-- sum of a measure over the entries.
use Prim.Native.Nat.{ℕ, ◌+◌, ◌≤◌}
use mathlib.Core.Path.{◌≡◌, refl}
use mathlib.Core.Logic.{◌≢◌, ite}
use mathlib.Core.Option.{Option, none, some}
use mathlib.Core.List.{List, [], ◌∷◌}
use native.Mathlib.Omega.{arith}

-- `m[k]`, `m[k] = v` and `delete(m, k)`.
module _ {ℓ} {K V : Type ℓ} (dec : Discrete K) where
  unfoldable pub get : K → List (K × V) → Option V
  get k [] = none
  get k ((j, v) ∷ m) = ite (dec j k) (some v) (get k m)

  unfoldable pub put : K → V → List (K × V) → List (K × V)
  put k v [] = (k, v) ∷ []
  put k v ((j, w) ∷ m) = ite (dec j k) ((k, v) ∷ m) ((j, w) ∷ put k v m)

  unfoldable pub remove : K → List (K × V) → List (K × V)
  remove k [] = []
  remove k ((j, w) ∷ m) = ite (dec j k) (remove k m) ((j, w) ∷ remove k m)

  -- No key twice.
  abbrev pub Distinct : List (K × V) → Type ℓ
  Distinct [] = Unit
  Distinct ((j, w) ∷ m) = (get j m ≡ none) × Distinct m

  pub get-put :
      (k j : K) (v : V) (m : List (K × V)) → get j (put k v m) ≡ ite (dec k j) (some v) (get j m)
  unfolding get put
  get-put k j v [] = refl
  get-put k j v ((i, w) ∷ m) = ground (arith, get-put k j v m)

  pub get-remove : (k j : K) (m : List (K × V)) → get j (remove k m) ≡ ite (dec k j) none (get j m)
  unfolding get remove
  get-remove k j [] = ground arith
  get-remove k j ((i, w) ∷ m) = ground (arith, get-remove k j m)

  pub get-put_self : (k : K) (v : V) (m : List (K × V)) → get k (put k v m) ≡ some v
  get-put_self k v m = ground (arith, get-put k k v m)

  pub get-put_ne : (k j : K) (v : V) (m : List (K × V)) → k ≢ j → get j (put k v m) ≡ get j m
  get-put_ne k j v m h = ground (arith, get-put k j v m)

  pub get-remove_self : (k : K) (m : List (K × V)) → get k (remove k m) ≡ none
  get-remove_self k m = ground (arith, get-remove k k m)

  pub get-remove_ne : (k j : K) (m : List (K × V)) → k ≢ j → get j (remove k m) ≡ get j m
  get-remove_ne k j m h = ground (arith, get-remove k j m)

  pub remove_absent : (k : K) (m : List (K × V)) → get k m ≡ none → remove k m ≡ m
  unfolding get remove
  remove_absent k [] h = refl
  remove_absent k ((i, w) ∷ m) h = ground (arith, remove_absent k m)

  pub put-Distinct : (k : K) (v : V) (m : List (K × V)) → Distinct m → Distinct (put k v m)
  unfolding get put
  put-Distinct k v [] h = (refl, tt)
  put-Distinct k v ((i, w) ∷ m) h = ground (arith, put-Distinct k v m, get-put k i v m)

  pub remove-Distinct : (k : K) (m : List (K × V)) → Distinct m → Distinct (remove k m)
  unfolding get remove
  remove-Distinct k [] h = tt
  remove-Distinct k ((i, w) ∷ m) h = ground (arith, remove-Distinct k m, get-remove k i m)

  module _ (size : V → ℕ) where
    -- The sum of a measure over the entries.
    unfoldable pub total : List (K × V) → ℕ
    total [] = 0
    total ((j, v) ∷ m) = size v + total m

    pub total-nil : total [] ≡ 0
    unfolding total
    total-nil = refl

    pub total-put_new :
        (k : K) (v : V) (m : List (K × V)) → get k m ≡ none → total (put k v m) ≡ total m + size v
    unfolding get put total
    total-put_new k v [] h = omega arith
    total-put_new k v ((i, w) ∷ m) h = ground (arith, total-put_new k v m)

    pub total-put_old :
        (k : K) (v w : V) (m : List (K × V))
        → get k m ≡ some w
        → total (put k v m) + size w ≡ total m + size v
    unfolding get put total
    total-put_old k v w [] h = ground arith
    total-put_old k v w ((i, u) ∷ m) h = ground (arith, total-put_old k v w m)

    pub total-remove :
        (k : K) (w : V) (m : List (K × V))
        → Distinct m
        → get k m ≡ some w
        → total (remove k m) + size w ≡ total m
    unfolding get remove total
    total-remove k w [] d h = ground arith
    total-remove k w ((i, u) ∷ m) d h = ground (arith, total-remove k w m, remove_absent k m)

    pub size-le-total : (k : K) (w : V) (m : List (K × V)) → get k m ≡ some w → size w ≤ total m
    unfolding get total
    size-le-total k w [] h = ground arith
    size-le-total k w ((i, u) ∷ m) h = ground (arith, size-le-total k w m)
