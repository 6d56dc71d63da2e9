-- ===== src/XlObject/Parts.antt =====
-- The disks with their checksums, as `GetObject` of cmd/xl-v1-object.go hands them to `erasureReadFile`
-- for one part after the other.
use mathlib.Core.Path.{subst}
use minio.Base.{
  suc, ◌≡◌, refl, sym, ap, Bool, true, ◌&&◌, List, [], ◌∷◌, Option, none, some, arith,
  if◌then◌else◌, map, length, All, Bool-cases, inl, inr,
}
use minio.Base.Text.{Text, text_discrete}
use minio.XlMeta.{XlMetaV1, get_check_sum_info}
use minio.Erasure.{Bytes}
use minio.Erasure.Disks.{available}
use minio.Erasure.Read.{Storage, is_valid_block}
use minio.Erasure.Read.Lists.{Agrees}
use minio.Erasure.Read.Steady.{Part, keep}
use minio.XlObject.{check_sums_of, strip}

module _ {A : Type 0} where
  -- What holds of some values, holds of a part of them.
  pub Part-All :
      (P : A → Type 0) (a b : List (Option A))
      → Part a b
      → All (λ o. elim o [ none ↦ Unit {0} | some x ↦ P x ]) b
      → All (λ o. elim o [ none ↦ Unit {0} | some x ↦ P x ]) a
  Part-All P [] b p h = tt
  Part-All P (none ∷ a) [] p h = absurd p
  Part-All P (some x ∷ a) [] p h = absurd p
  Part-All P (none ∷ a) (_ ∷ b) p h = (tt, Part-All P a b p h.1)
  Part-All P (some x ∷ a) (none ∷ b) p h = absurd p
  Part-All P (some x ∷ a) (some y ∷ b) p h = (subst P (sym p.0) h.0, Part-All P a b p.1 h.1)

  module _ (f : Option A → Option Bytes) (nothing : f none ≡ none) where
    pub Part-Agrees :
        (a b : List (Option A)) (s : List Bytes)
        → Part a b
        → Agrees (map f b) s
        → Agrees (map f a) s
    Part-Agrees [] [] s p h = h
    Part-Agrees [] (_ ∷ b) s p h = absurd p
    Part-Agrees (none ∷ a) [] s p h = absurd p
    Part-Agrees (some x ∷ a) [] s p h = absurd p
    Part-Agrees (some x ∷ a) (none ∷ b) s p h = absurd p
    Part-Agrees (none ∷ a) (y ∷ b) [] p h =
        elim (f y) as (λ o. Agrees (o ∷ map f b) [] → Agrees (map f (none ∷ a)) []) [
          | none ↦ λ k. absurd k
          | some c ↦ λ k. absurd k
        ]
          h
    Part-Agrees (none ∷ a) (y ∷ b) (t ∷ s) p h = rw nothing (
        elim (f y) as (λ o. Agrees (o ∷ map f b) (t ∷ s) → Agrees (map f a) s) [
          | none ↦ λ k. Part-Agrees a b s p k
          | some c ↦ λ k. Part-Agrees a b s p k.1
        ]
          h)
    Part-Agrees (some x ∷ a) (some y ∷ b) [] p h =
        elim (f (some y)) as (λ o. Agrees (o ∷ map f b) [] → Agrees (map f (some x ∷ a)) []) [
          | none ↦ λ k. absurd k
          | some c ↦ λ k. absurd k
        ]
          h
    Part-Agrees (some x ∷ a) (some y ∷ b) (t ∷ s) p h =
        subst (λ o. Agrees (o ∷ map f a) (t ∷ s)) (sym (ap (λ z. f (some z)) p.0))
          (elim (f (some y)) as (λ o. Agrees (o ∷ map f b) (t ∷ s) → Agrees (o ∷ map f a) (t ∷ s)) [
            | none ↦ λ k. Part-Agrees a b s p.1 k
            | some c ↦ λ k. (k.0, Part-Agrees a b s p.1 k.1)
          ]
            h)

-- The checksums of some of the disks are some of the checksums, under the same algorithm.
pub check_sums_of-Part :
    {D : Type 0} (algo part_name : Text) (a b : List (Option D)) (metas : List XlMetaV1)
    → Part a b
    → Part (check_sums_of algo part_name a metas []).0 (check_sums_of algo part_name b metas []).0
unfolding check_sums_of text_discrete
check_sums_of-Part algo part_name [] [] metas p = tt
check_sums_of-Part algo part_name [] (_ ∷ b) metas p = absurd p
check_sums_of-Part algo part_name (none ∷ a) [] metas p = absurd p
check_sums_of-Part algo part_name (some x ∷ a) [] metas p = absurd p
check_sums_of-Part algo part_name (some x ∷ a) (none ∷ b) metas p = absurd p
check_sums_of-Part algo part_name (none ∷ a) (none ∷ b) [] p = tt
check_sums_of-Part algo part_name (none ∷ a) (some y ∷ b) [] p = tt
check_sums_of-Part algo part_name (some x ∷ a) (some y ∷ b) [] p = tt
check_sums_of-Part algo part_name (none ∷ a) (none ∷ b) (m ∷ metas) p =
    check_sums_of-Part algo part_name a b metas p
check_sums_of-Part algo part_name (none ∷ a) (some y ∷ b) (m ∷ metas) p =
    check_sums_of-Part algo part_name a b metas p
check_sums_of-Part algo part_name (some x ∷ a) (some y ∷ b) (m ∷ metas) p = (
  ap (λ d. (d, (get_check_sum_info m.erasure algo part_name).hash)) p.0,
  check_sums_of-Part algo part_name a b metas p.1,
)

-- No algorithm is ever set: the test in the loop is the wrong way round.
pub check_sums_of-algo :
    {D : Type 0} (algo part_name : Text) (disks : List (Option D)) (metas : List XlMetaV1)
    → (check_sums_of algo part_name disks metas []).1 ≡ []
unfolding check_sums_of text_discrete
check_sums_of-algo algo part_name [] metas = refl
check_sums_of-algo algo part_name (none ∷ disks) [] = refl
check_sums_of-algo algo part_name (some x ∷ disks) [] = refl
check_sums_of-algo algo part_name (none ∷ disks) (m ∷ metas) =
    check_sums_of-algo algo part_name disks metas
check_sums_of-algo algo part_name (some x ∷ disks) (m ∷ metas) =
    check_sums_of-algo algo part_name disks metas

pub strip-Part :
    {D : Type 0} (algo part_name : Text) (x : List (Option (D × Text))) (a : List (Option D))
    (metas : List XlMetaV1)
    → length a ≡ length metas
    → Part x (check_sums_of algo part_name a metas []).0
    → Part (strip x) a
unfolding check_sums_of text_discrete
strip-Part algo part_name [] [] metas l p = tt
strip-Part algo part_name (none ∷ x) [] metas l p = absurd p
strip-Part algo part_name (some y ∷ x) [] metas l p = absurd p
strip-Part algo part_name x (_ ∷ a) [] l p = absurd (omega arith)
strip-Part algo part_name [] (none ∷ a) (m ∷ metas) l p = absurd p
strip-Part algo part_name [] (some d ∷ a) (m ∷ metas) l p = absurd p
strip-Part algo part_name (none ∷ x) (none ∷ a) (m ∷ metas) l p =
    strip-Part algo part_name x a metas (omega arith) p
strip-Part algo part_name (none ∷ x) (some d ∷ a) (m ∷ metas) l p =
    strip-Part algo part_name x a metas (omega arith) p
strip-Part algo part_name (some y ∷ x) (none ∷ a) (m ∷ metas) l p = absurd p
strip-Part algo part_name (some y ∷ x) (some d ∷ a) (m ∷ metas) l p =
    (ap (λ t. t.0) p.0, strip-Part algo part_name x a metas (omega arith) p.1)

pub strip-check_sums_of :
    {D : Type 0} (algo part_name : Text) (a : List (Option D)) (metas : List XlMetaV1)
    → length a ≡ length metas
    → strip (check_sums_of algo part_name a metas []).0 ≡ a
unfolding check_sums_of text_discrete
strip-check_sums_of algo part_name [] metas l = refl
strip-check_sums_of algo part_name (_ ∷ a) [] l = absurd (omega arith)
strip-check_sums_of algo part_name (none ∷ a) (m ∷ metas) l =
    ap (◌∷◌ none) (strip-check_sums_of algo part_name a metas (omega arith))
strip-check_sums_of algo part_name (some d ∷ a) (m ∷ metas) l =
    ap (◌∷◌ (some d)) (strip-check_sums_of algo part_name a metas (omega arith))

module _ {D : Type 0} (steady : D → Bool) where
  abbrev pub steady_disk : Option D → Option D
  steady_disk none = none
  steady_disk (some d) = if steady d then some d else none

module _ {D : Type 0} (storage : Storage (D × Text)) (steady : D → Bool) where
  -- A steady disk passes its checksum.
  abbrev pub Sound : List (Option (D × Text)) → Type 0
  Sound disks =
      All
        (λ o. elim o [
          | none ↦ Unit {0}
          | some x ↦ steady x.0 ≡ true → is_valid_block storage (some x) ≡ true
        ])
        disks

  abbrev pub steady_valid : D × Text → Bool
  steady_valid x = steady x.0 && is_valid_block storage (some x)

  pub available-steady :
      (disks : List (Option (D × Text)))
      → Sound disks
      → available (map (keep storage steady_valid) disks)
        ≡ available (map (steady_disk steady) (strip disks))
  available-steady [] h = refl
  available-steady (none ∷ disks) h = available-steady disks h.1
  available-steady (some x ∷ disks) h = elim (Bool-cases (steady x.0)) [
    | inl t ↦ let valid = h.0 t in rw (t, valid) (ap suc (available-steady disks h.1))
    | inr t ↦ rw t (available-steady disks h.1)
  ]
