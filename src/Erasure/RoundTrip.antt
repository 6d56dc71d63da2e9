-- ===== src/Erasure/RoundTrip.antt =====
-- What is written with cmd/erasure-createfile.go, then read with cmd/erasure-readfile.go or healed with
-- cmd/erasure-healfile.go, from disks that keep files.
pub mod WriteRead
pub mod WriteHeal
use mathlib.Core.Path.{subst}
use minio.Base.{
  ℕ, zero, suc, ◌+◌, ◌-◌, ◌*◌, ◌/◌, ◌≤◌, ◌<◌, ◌≡◌, refl, sym, ap, ap₂, ◌∙◌, Bool, true, false, ◌&&◌,
  ◌||◌, List, [], ◌∷◌, ◌++◌, Option, none, some, arith, ◌==◌, if◌then◌else◌, length, take, drop,
  map, any, All, inl, inr, Bool-cases,
}
use minio.Base.Text.{Text, same, same_iff}
use minio.Erasure.{Bytes, get_chunk_size}
use minio.Erasure.Disks.{available}
use minio.Erasure.Blocks.{range}
use minio.Erasure.Create.{Files}
use minio.Erasure.Create.Hashes.{Matches, Fresh}
use minio.Erasure.Read.{Storage, is_valid_block, read_chunk}
use minio.Erasure.Read.Chunks.{chunk_of}
use minio.Erasure.Read.Steady.{keep}
use minio.Erasure.Read.Lists.{Agrees}
use minio.Erasure.Shards.{grow}

-- A disk fills a buffer from its file, or fails.
abbrev pub read_at : Bytes → ℕ → ℕ → Option Bytes
read_at f offset size =
    if length (range offset size f) == size then some (range offset size f) else none

-- Disks with a file and the checksum that xl.json holds for it, where the pool always gives a buffer.
abbrev pub storage_of : (Bytes → Text) → Storage (Bytes × Text)
storage_of sum = record {
  check_sum = λ disk. disk.1;
  hash_sum = λ disk. some (sum disk.0);
  pooled = λ disk. true;
  read_file = λ disk. read_at disk.0;
}

-- The file of a disk that passes its checksum.
abbrev pub intact : (Bytes → Text) → Option (Bytes × Text) → Option Bytes
intact sum none = none
intact sum (some disk) = if is_valid_block (storage_of sum) (some disk) then some disk.0 else none

-- The disks after a write: each is lost, or holds the checksum of what was written, and a file, which
-- may have changed, but not into another one of the same checksum.
abbrev pub Survive : (Bytes → Text) → List (Option (Bytes × Text)) → Files → List Bytes → Type 0
Survive sum [] [] [] = Unit
Survive sum (none ∷ disks) (_ ∷ files) (_ ∷ hashed) = Survive sum disks files hashed
Survive sum (some disk ∷ disks) (some f ∷ files) (h ∷ hashed) =
    (disk.1 ≡ sum h) × (sum disk.0 ≡ sum f → disk.0 ≡ f) × Survive sum disks files hashed
Survive sum _ _ _ = ⊥

abbrev pub given : ℕ → ℕ → Option Bytes → Option Bytes
given o n none = none
given o n (some f) = read_at f o n

-- From files that are whole at a place, every disk with a file gives the part of it.
pub given-Agrees :
    (o n : ℕ) (e : List (Option Bytes)) (whole : List Bytes)
    → Agrees e whole
    → All (λ s. length s ≡ n) (map (range o n) whole)
    → Agrees (map (given o n) e) (map (range o n) whole)
      × (available (map (given o n) e) ≡ available e)
given-Agrees o n [] [] h a = (tt, refl)
given-Agrees o n [] (_ ∷ whole) h a = absurd h
given-Agrees o n (none ∷ e) [] h a = absurd h
given-Agrees o n (some _ ∷ e) [] h a = absurd h
given-Agrees o n (none ∷ e) (w ∷ whole) h a = given-Agrees o n e whole h a.1
given-Agrees o n (some f ∷ e) (w ∷ whole) h a =
    let (r, k) = given-Agrees o n e whole h.1 a.1 in
    let same_part = ap (range o n) h.0 in
    let full : (length (range o n f) == n) ≡ true =
      let l = ap length same_part ∙ a.0 in ground arith in
    rw full ((same_part, r), ap suc k)

range-any :
    (o n : ℕ) (f : Bytes) (whole : List Bytes)
    → All (λ s. length s ≡ n) (map (range o n) whole)
    → any (same f) whole ≡ true
    → length (range o n f) ≡ n
range-any o n f [] a h = absurd (ground arith)
range-any o n f (w ∷ whole) a h = elim (Bool-cases (same f w)) [
  | inl t ↦ ap (λ x. length (range o n x)) ((same_iff f w).0 t) ∙ a.0
  | inr t ↦ range-any o n f whole a.1 (rw t at h)
]

-- Every one of some files is one of them.
members :
    (whole parts : List Bytes)
    → ((w : Bytes) → any (same w) parts ≡ true → any (same w) whole ≡ true)
    → All (λ w. any (same w) whole ≡ true) parts
members whole [] f = tt
members whole (w ∷ parts) f = (
  f w (let t = (same_iff w w).1 refl in rw t refl),
  members whole parts (λ x h. f x (ground arith)),
)

module _ (sum : Bytes → Text) where
  valid-sum :
      (disk : Bytes × Text)
      → is_valid_block (storage_of sum) (some disk) ≡ true
      → sum disk.0 ≡ disk.1
  unfolding is_valid_block
  valid-sum disk h = elim (Bool-cases (same disk.1 [])) [
    | inl t ↦ let h' = rw t at h in absurd (ground arith)
    | inr t ↦ (same_iff (sum disk.0) disk.1).0 (rw t at h)
  ]

  Survive-Agrees :
      (disks : List (Option (Bytes × Text))) (files : Files) (parts hashed : List Bytes)
      → Survive sum disks (grow files parts) hashed
      → Matches (grow files parts) hashed
      → Fresh files
      → length parts ≡ length files
      → Agrees (map (intact sum) disks) parts
  Survive-Agrees [] [] [] hashed s m f l = tt
  Survive-Agrees disks [] (_ ∷ parts) hashed s m f l = absurd (omega arith)
  Survive-Agrees disks (_ ∷ files) [] hashed s m f l = absurd (omega arith)
  Survive-Agrees (none ∷ disks) [] [] hashed s m f l = absurd s
  Survive-Agrees (some x ∷ disks) [] [] hashed s m f l = absurd s
  Survive-Agrees disks (none ∷ files) (b ∷ parts) [] s m f l = absurd m
  Survive-Agrees disks (some x ∷ files) (b ∷ parts) [] s m f l = absurd m
  Survive-Agrees [] (none ∷ files) (b ∷ parts) (h ∷ hashed) s m f l = absurd s
  Survive-Agrees [] (some x ∷ files) (b ∷ parts) (h ∷ hashed) s m f l = absurd s
  Survive-Agrees (some disk ∷ disks) (none ∷ files) (b ∷ parts) (h ∷ hashed) s m f l = absurd s
  Survive-Agrees (none ∷ disks) (none ∷ files) (b ∷ parts) (h ∷ hashed) s m f l =
      Survive-Agrees disks files parts hashed s m f.1 (omega arith)
  Survive-Agrees (none ∷ disks) (some x ∷ files) (b ∷ parts) (h ∷ hashed) s m f l =
      Survive-Agrees disks files parts hashed s m.1 f.1 (omega arith)
  Survive-Agrees (some disk ∷ disks) (some x ∷ files) (b ∷ parts) (h ∷ hashed) s m f l =
      let rest = Survive-Agrees disks files parts hashed s.2 m.1 f.1 (omega arith) in
      elim (Bool-cases (is_valid_block (storage_of sum) (some disk))) [
        | inr t ↦ rw t rest
        | inl t ↦
            let whole : disk.0 ≡ x ++ b = s.1 (valid-sum disk t ∙ (s.0 ∙ ap sum (sym m.0))) in
            rw t (whole ∙ ap (λ y. y ++ b) f.0, rest)
      ]

  -- What a disk gives of a block is what its file has there, if it passes its checksum.
  chunks_of-intact :
      (o n : ℕ) (disks : List (Option (Bytes × Text)))
      → map (chunk_of (storage_of sum) o n) disks ≡ map (given o n) (map (intact sum) disks)
  unfolding read_chunk
  chunks_of-intact o n [] = refl
  chunks_of-intact o n (none ∷ disks) = ap (◌∷◌ none) (chunks_of-intact o n disks)
  chunks_of-intact o n (some disk ∷ disks) =
      elim (Bool-cases (is_valid_block (storage_of sum) (some disk))) [
        | inl t ↦
            rw (t, read_chunk, chunk_of)
              (ap (◌∷◌ (read_at disk.0 o n)) (chunks_of-intact o n disks))
        | inr t ↦ rw (t, read_chunk, chunk_of) (ap (◌∷◌ none) (chunks_of-intact o n disks))
      ]

  -- The disks that pass their checksum with one of the files.
  abbrev pub sound : List Bytes → Bytes × Text → Bool
  sound whole disk = is_valid_block (storage_of sum) (some disk) && any (same disk.0) whole

  pub sound-served :
      (whole : List Bytes) (o n : ℕ) (disk : Bytes × Text)
      → All (λ s. length s ≡ n) (map (range o n) whole)
      → sound whole disk ≡ true
      → (b : Bytes) × (chunk_of (storage_of sum) o n (some disk) ≡ some b)
  unfolding read_chunk
  sound-served whole o n disk all h =
      let valid : is_valid_block (storage_of sum) (some disk) ≡ true = ground arith in
      let member : any (same disk.0) whole ≡ true = ground arith in
      let full : (length (range o n disk.0) == n) ≡ true =
        let e = range-any o n disk.0 whole all member in ground arith in
      (range o n disk.0, rw (valid, full, read_chunk) refl)

  pub available-sound :
      (whole parts : List Bytes) (disks : List (Option (Bytes × Text)))
      → All (λ w. any (same w) whole ≡ true) parts
      → Agrees (map (intact sum) disks) parts
      → available (map (keep (storage_of sum) (sound whole)) disks)
        ≡ available (map (intact sum) disks)
  available-sound whole parts [] a h = refl
  available-sound whole [] (none ∷ disks) a h = absurd h
  available-sound whole (w ∷ parts) (none ∷ disks) a h = available-sound whole parts disks a.1 h
  available-sound whole [] (some disk ∷ disks) a h =
      elim (Bool-cases (is_valid_block (storage_of sum) (some disk))) [
        | inl t ↦ absurd (rw t at h)
        | inr t ↦ absurd (rw t at h)
      ]
  available-sound whole (w ∷ parts) (some disk ∷ disks) a h =
      elim (Bool-cases (is_valid_block (storage_of sum) (some disk))) [
        | inl t ↦
            let h' : (disk.0 ≡ w) × Agrees (map (intact sum) disks) parts = rw t at h in
            let member : any (same disk.0) whole ≡ true =
              subst (λ x. any (same x) whole ≡ true) (sym h'.0) a.0 in
            rw (t, member) (ap suc (available-sound whole parts disks a.1 h'.1))
        | inr t ↦
            let h' : Agrees (map (intact sum) disks) parts = rw t at h in
            rw t (available-sound whole parts disks a.1 h')
      ]
