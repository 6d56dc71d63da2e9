-- ===== src/Erasure/Read/Steady.antt =====
-- Disks of which it is known that they give every chunk.
use minio.Base.{
  length, suc, ℕ, ◌≤◌, ◌≡◌, refl, sym, ap, ap₂, ◌∙◌, Bool, true, List, [], ◌∷◌, ◌++◌, Option, none,
  some, arith, if◌then◌else◌, map, inl, inr, Bool-cases, Option-cases,
}
use minio.Erasure.{Bytes}
use minio.Erasure.Disks.{available}
use minio.Erasure.Read.Lists.{Agrees, length-Agrees, map-append}
use minio.Erasure.Read.Chunks.{chunk_of, alive}
use minio.Erasure.Read.{Storage, read_chunk}

module _ {D : Type 0} where
  -- Some of the disks at their places.
  abbrev pub Part : List (Option D) → List (Option D) → Type 0
  Part [] [] = Unit
  Part (none ∷ a) (_ ∷ b) = Part a b
  Part (some x ∷ a) (some y ∷ b) = (x ≡ y) × Part a b
  Part _ _ = ⊥

  pub Part-refl : (a : List (Option D)) → Part a a
  Part-refl [] = tt
  Part-refl (none ∷ a) = Part-refl a
  Part-refl (some x ∷ a) = (refl, Part-refl a)

  pub length-Part : (a b : List (Option D)) → Part a b → length a ≡ length b
  length-Part [] [] p = refl
  length-Part [] (_ ∷ b) p = absurd p
  length-Part (none ∷ a) [] p = absurd p
  length-Part (some x ∷ a) [] p = absurd p
  length-Part (none ∷ a) (_ ∷ b) p = ap suc (length-Part a b p)
  length-Part (some x ∷ a) (none ∷ b) p = absurd p
  length-Part (some x ∷ a) (some y ∷ b) p = ap suc (length-Part a b p.1)

  pub Part-trans : (a b c : List (Option D)) → Part a b → Part b c → Part a c
  Part-trans [] [] [] p q = tt
  Part-trans [] [] (_ ∷ c) p q = absurd q
  Part-trans [] (_ ∷ b) c p q = absurd p
  Part-trans (none ∷ a) [] c p q = absurd p
  Part-trans (some x ∷ a) [] c p q = absurd p
  Part-trans (some x ∷ a) (none ∷ b) c p q = absurd p
  Part-trans (none ∷ a) (none ∷ b) [] p q = absurd q
  Part-trans (none ∷ a) (some y ∷ b) [] p q = absurd q
  Part-trans (none ∷ a) (none ∷ b) (_ ∷ c) p q = Part-trans a b c p q
  Part-trans (none ∷ a) (some y ∷ b) (none ∷ c) p q = absurd q
  Part-trans (none ∷ a) (some y ∷ b) (some z ∷ c) p q = Part-trans a b c p q.1
  Part-trans (some x ∷ a) (some y ∷ b) [] p q = absurd q
  Part-trans (some x ∷ a) (some y ∷ b) (none ∷ c) p q = absurd q
  Part-trans (some x ∷ a) (some y ∷ b) (some z ∷ c) p q = (p.0 ∙ q.0, Part-trans a b c p.1 q.1)

module _ {D : Type 0} (storage : Storage D) (steady : D → Bool) where
  -- The disks that are steady.
  abbrev pub keep : Option D → Option D
  keep none = none
  keep (some disk) = if steady disk then some disk else none

  module _ (o n : ℕ)
      (serving : (disk : D)
        → steady disk ≡ true
        → (b : Bytes) × (read_chunk storage o n disk ≡ some b)) where
    pub keep-alive : (x : Option D) → keep (alive storage o n x) ≡ keep x
    keep-alive none = refl
    keep-alive (some disk) = elim (Bool-cases (steady disk)) [
      | inl t ↦ let (b, e) = serving disk t in rw (e, alive) refl
      | inr t ↦ elim (Option-cases (read_chunk storage o n disk)) [
        | inl e ↦ rw (e, alive, t) refl
        | inr (b, e) ↦ rw (e, alive) refl
      ]
    ]

    pub map-keep-alive : (l : List (Option D)) → map keep (map (alive storage o n) l) ≡ map keep l
    map-keep-alive [] = refl
    map-keep-alive (x ∷ l) = ap₂ ◌∷◌ (keep-alive x) (map-keep-alive l)

    pub available-keep :
        (l : List (Option D)) → available (map keep l) ≤ available (map (chunk_of storage o n) l)
    available-keep [] = omega arith
    available-keep (none ∷ l) = available-keep l
    available-keep (some disk ∷ l) = elim (Bool-cases (steady disk)) [
      | inl t ↦ let (b, e) = serving disk t in rw (t, e, chunk_of) (omega (arith, available-keep l))
      | inr t ↦ elim (Option-cases (read_chunk storage o n disk)) [
        | inl e ↦ rw (t, e) (available-keep l)
        | inr (b, e) ↦ rw (t, e) (omega (arith, available-keep l))
      ]
    ]

    pub map-keep-left :
        (a b : List (Option D)) → map keep (map (alive storage o n) a ++ b) ≡ map keep (a ++ b)
    map-keep-left a b =
        map-append keep (map (alive storage o n) a) b
        ∙ (ap (λ l. l ++ map keep b) (map-keep-alive a) ∙ sym (map-append keep a b))

  pub alive-Part :
      (o n : ℕ) (a b : List (Option D)) → Part (map (alive storage o n) a ++ b) (a ++ b)
  alive-Part o n [] b = Part-refl b
  alive-Part o n (none ∷ a) b = alive-Part o n a b
  alive-Part o n (some disk ∷ a) b = elim (Option-cases (read_chunk storage o n disk)) [
    | inl e ↦ rw (e, alive) (alive-Part o n a b)
    | inr (buf, e) ↦ rw (e, alive) (refl, alive-Part o n a b)
  ]

  -- Taking disks out that give nothing leaves what the others give as it is.
  pub Agrees-alive :
      (o n o' n' : ℕ) (a b : List (Option D)) (s : List Bytes)
      → Agrees (map (chunk_of storage o' n') (a ++ b)) s
      → Agrees (map (chunk_of storage o' n') (map (alive storage o n) a ++ b)) s
  Agrees-alive o n o' n' [] b s h = h
  Agrees-alive o n o' n' (x ∷ a) b [] h =
      let e = length-Agrees (map (chunk_of storage o' n') (x ∷ (a ++ b))) [] h in
      absurd (omega (arith, e))
  Agrees-alive o n o' n' (none ∷ a) b (_ ∷ s) h = Agrees-alive o n o' n' a b s h
  Agrees-alive o n o' n' (some disk ∷ a) b (t ∷ s) h =
      let later = map (chunk_of storage o' n') (map (alive storage o n) a ++ b) in
      elim (Option-cases (read_chunk storage o n disk)) [
        | inl e ↦
            rw (e, alive)
              (elim (read_chunk storage o' n' disk)
                  as (λ c.
                    Agrees (c ∷ map (chunk_of storage o' n') (a ++ b)) (t ∷ s) → Agrees later s) [
                      | none ↦ λ k. Agrees-alive o n o' n' a b s k
                      | some y ↦ λ k. Agrees-alive o n o' n' a b s k.1
                    ]
                h)
        | inr (buf, e) ↦
            rw (e, alive)
              (elim (read_chunk storage o' n' disk)
                  as (λ c.
                    Agrees (c ∷ map (chunk_of storage o' n') (a ++ b)) (t ∷ s)
                    → Agrees (c ∷ later) (t ∷ s)) [
                      | none ↦ λ k. Agrees-alive o n o' n' a b s k
                      | some y ↦ λ k. (k.0, Agrees-alive o n o' n' a b s k.1)
                    ]
                h)
      ]
