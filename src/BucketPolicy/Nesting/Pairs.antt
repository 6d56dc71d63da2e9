-- ===== src/BucketPolicy/Nesting/Pairs.antt =====
-- Two resources of which one is a prefix of the other, among those that `checkBucketPolicyResources` of
-- cmd/bucket-policy-parser.go sorts.
use mathlib.Core.Path.{subst}
use minio.Base.{
  ◌≡◌, ◌≢◌, refl, sym, ◌∙◌, Bool, true, false, List, [], ◌∷◌, arith, any, map, inl, inr, Bool-cases,
}
use minio.Base.Text.{Text, same, same_iff, has_prefix}
use minio.BucketPolicy.Nesting.Sorted.{nested, any_pair}
use minio.BucketPolicy.Nesting.Gathered.{Once}

module _ (f : Text → Text) where
  -- Two entries that differ, one a prefix of the other after `f`.
  abbrev pub Pair : (Text → Bool) → Type 0
  Pair member =
      (t : Text) × (u : Text) × (member t ≡ true)
      × (member u ≡ true)
      × (t ≢ u)
      × (has_prefix (f u) (f t) ≡ true)

  abbrev pub among : List Text → Text → Bool
  among l t = any (same t) l

  found :
      (x : Text) (l : List Text)
      → any (nested (f x)) (map f l) ≡ true
      → (y : Text) × (among l y ≡ true) × (nested (f x) (f y) ≡ true)
  found x [] h = absurd (cc)
  found x (z ∷ l) h = elim (Bool-cases (nested (f x) (f z))) [
    | inl t ↦ (z, (let r = (same_iff z z).1 refl in rw r refl), t)
    | inr n ↦ let (y, m, k) = found x l (rw n at h) in (y, ground arith, k)
  ]

  apart : (x y : Text) (l : List Text) → any (same x) l ≡ false → any (same y) l ≡ true → x ≢ y
  apart x y l h k e = let k' = subst (λ z. any (same z) l ≡ true) (sym e) k in ground arith

  pub any_pair-Pair : (l : List Text) → Once l → any_pair (map f l) ≡ true → Pair (among l)
  any_pair-Pair [] o h = absurd (cc)
  any_pair-Pair (x ∷ l) o h =
      let self : same x x ≡ true = (same_iff x x).1 refl in
      elim (Bool-cases (any (nested (f x)) (map f l))) [
        | inl t ↦
            let (y, m, k) = found x l t in
            let n = apart x y l o.0 m in
            elim (Bool-cases (has_prefix (f y) (f x))) [
              | inl p ↦ (x, y, ground arith, ground arith, n, p)
              | inr p ↦ (y, x, ground arith, ground arith, (λ e. n (sym e)), ground arith)
            ]
        | inr n ↦
            let (t, u, a, b, d, p) = any_pair-Pair l o.1 (rw n at h) in
            (t, u, ground arith, ground arith, d, p)
      ]

  nested-among :
      (x y : Text) (l : List Text)
      → among l y ≡ true
      → nested (f x) (f y) ≡ true
      → any (nested (f x)) (map f l) ≡ true
  nested-among x y [] h k = absurd (cc)
  nested-among x y (z ∷ l) h k = elim (Bool-cases (same y z)) [
    | inl t ↦ let k' = subst (λ w. nested (f x) (f w) ≡ true) ((same_iff y z).0 t) k in rw k' refl
    | inr n ↦ let r = nested-among x y l (rw n at h) k in ground arith
  ]

  pub Pair-any_pair : (l : List Text) → Pair (among l) → any_pair (map f l) ≡ true
  Pair-any_pair [] (t, u, a, b, d, p) = absurd (cc)
  Pair-any_pair (x ∷ l) (t, u, a, b, d, p) = elim (Bool-cases (same t x)) [
    | inl h ↦
        let e : t ≡ x = (same_iff t x).0 h in
        let other : same u x ≡ false = elim (Bool-cases (same u x)) [
          | inl k ↦ absurd (d (e ∙ sym ((same_iff u x).0 k)))
          | inr k ↦ k
        ] in
        let inside : among l u ≡ true = rw other at b in
        let p' = subst (λ w. has_prefix (f u) (f w) ≡ true) e p in
        let r = nested-among x u l inside (ground arith) in ground arith
    | inr h ↦ elim (Bool-cases (same u x)) [
      | inl k ↦
          let e : u ≡ x = (same_iff u x).0 k in
          let inside : among l t ≡ true = rw h at a in
          let p' = subst (λ w. has_prefix (f w) (f t) ≡ true) e p in
          let r = nested-among x t l inside (ground arith) in ground arith
      | inr k ↦ let r = Pair-any_pair l (t, u, rw h at a, rw k at b, d, p) in ground arith
    ]
  ]
