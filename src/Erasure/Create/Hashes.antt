-- ===== src/Erasure/Create/Hashes.antt =====
-- The checksums of `erasureCreateFile` in cmd/erasure-createfile.go are those of the files.
use minio.Base.{
  ℕ, zero, suc, ◌+◌, ◌<◌, ◌≡◌, refl, ap, ◌∙◌, ◌&&◌, List, [], ◌∷◌, ◌++◌, none, some, arith, ltb,
  ◌==◌, length, take, drop, replicate, inl, inr, Bool-cases, Option-cases, length-drop, All,
}
use minio.Erasure.{Bytes}
use minio.Erasure.Create.{
  Ending, at_eof, at_unexpected_eof, broken, is_broken, Files, Created, Environment, stop,
  reader_failed, encode_failed, append_failed, encode_data, append_all, append_file, at_end,
  create_blocks, erasure_create_file,
}

-- Every file that is there is what its hash was given.
abbrev pub Matches : Files → List Bytes → Type 0
Matches [] [] = Unit
Matches (none ∷ files) (h ∷ hashed) = Matches files hashed
Matches (some f ∷ files) (h ∷ hashed) = (f ≡ h) × Matches files hashed
Matches _ _ = ⊥

-- Files that begin empty.
abbrev pub Fresh : Files → Type 0
Fresh files = All (λ f. elim f [ none ↦ Unit {0} | some b ↦ b ≡ [] ]) files

pub Fresh-Matches : (files : Files) → Fresh files → Matches files (replicate (length files) [])
Fresh-Matches [] h = tt
Fresh-Matches (none ∷ files) h = Fresh-Matches files h.1
Fresh-Matches (some f ∷ files) h = (h.0, Fresh-Matches files h.1)

module _ {E : Type 0} (env : Environment E)
    (atomic : (i : ℕ) (f b : Bytes) (r : E × Bytes)
      → env.append_fails i f b ≡ some r
      → r.1 ≡ f) where
  append_all-Matches :
      (i : ℕ) (files : Files) (hashed blocks : List Bytes)
      → Matches files hashed
      → Matches (append_all env i files hashed blocks).0 (append_all env i files hashed blocks).1
  unfolding append_all
  append_all-Matches i [] [] blocks h = h
  append_all-Matches i [] (_ ∷ hashed) blocks h = absurd h
  append_all-Matches i (none ∷ files) [] blocks h = absurd h
  append_all-Matches i (some f ∷ files) [] blocks h = absurd h
  append_all-Matches i (none ∷ files) (k ∷ hashed) [] h = h
  append_all-Matches i (some f ∷ files) (k ∷ hashed) [] h = h
  append_all-Matches i (none ∷ files) (k ∷ hashed) (b ∷ blocks) h =
      append_all-Matches (suc i) files hashed blocks h
  append_all-Matches i (some f ∷ files) (k ∷ hashed) (b ∷ blocks) h =
      let rest = append_all-Matches (suc i) files hashed blocks h.1 in
      elim (Option-cases (env.append_fails i f b)) [
        | inl n ↦ rw (n, append_all) (ap (λ x. x ++ b) h.0, rest)
        | inr (r, n) ↦ rw (n, append_all) (atomic i f b r n ∙ h.0, rest)
      ]

  at_end-Matches :
      (ending : Ending) (files : Files) (hashed : List Bytes) (n write_quorum : ℕ)
      → Matches files hashed
      → Matches
          (at_end env ending files hashed n write_quorum).files
          (at_end env ending files hashed n write_quorum).hashed
  unfolding at_end append_file
  at_end-Matches at_unexpected_eof files hashed n q h = h
  at_end-Matches broken files hashed n q h = h
  at_end-Matches at_eof files hashed n q h =
      let m = append_all-Matches 0 files hashed (replicate (length files) []) h in
      elim (Bool-cases (n == 0)) [
        | inr t ↦ rw t h
        | inl t ↦
            elim (Option-cases (append_file env files hashed (replicate (length files) []) q).2) [
              | inl e ↦ rw (t, e) m
              | inr (x, e) ↦ rw (t, e) m
            ]
      ]

  create_blocks-Matches :
      (fuel : ℕ) (stream : Bytes) (ending : Ending) (bs : ℕ) (files : Files) (hashed : List Bytes)
      (n q : ℕ)
      → 0 < bs
      → length stream < fuel
      → Matches files hashed
      → (c : Created E) × (create_blocks env fuel stream ending bs files hashed n q ≡ some c)
        × Matches c.files c.hashed
  unfolding create_blocks append_file
  create_blocks-Matches zero stream ending bs files hashed n q p f h = absurd (omega arith)
  create_blocks-Matches (suc fuel) [] ending bs files hashed n q p f h =
      (at_end env ending files hashed n q, refl, at_end-Matches ending files hashed n q h)
  create_blocks-Matches (suc fuel) (x ∷ s) ending bs files hashed n q p f h =
      elim (Bool-cases (ltb (length (x ∷ s)) bs && is_broken ending)) [
        | inl t ↦ (stop env files hashed reader_failed, rw (t, create_blocks) refl, h)
        | inr t ↦ elim (Option-cases (encode_data env (take bs (x ∷ s)))) [
          | inl e ↦ (stop env files hashed encode_failed, rw (t, e, create_blocks) refl, h)
          | inr (blocks, e) ↦
              let m = append_all-Matches 0 files hashed blocks h in
              let r = append_file env files hashed blocks q in
              elim (Option-cases r.2) [
                | inr (y, g) ↦
                    (stop env r.0 r.1 (append_failed y), rw (t, e, g, create_blocks) refl, m)
                | inl g ↦
                    let (c, eq, done) =
                      create_blocks-Matches fuel (drop bs (x ∷ s)) ending bs r.0 r.1
                        (n + length (take bs (x ∷ s))) q p
                        (omega (arith, f, p, length-drop bs (x ∷ s))) m in
                    (c, rw (t, e, g, create_blocks) eq, done)
              ]
        ]
      ]

  -- Where blocks have a size, the files begin empty and a failed append leaves a file as it is,
  -- erasureCreateFile ends on every stream, and whatever appends failed, each file holds then the
  -- bytes that its checksum is of.
  pub erasure_create_file-Matches :
      (files : Files) (stream : Bytes) (ending : Ending) (block_size write_quorum : ℕ)
      → 0 < block_size
      → Fresh files
      → (c : Created E) × (erasure_create_file env files stream ending block_size write_quorum
          ≡ some c)
        × Matches c.files c.hashed
  unfolding erasure_create_file
  erasure_create_file-Matches files stream ending bs q p fresh =
      create_blocks-Matches (suc (length stream)) stream ending bs files
        (replicate (length files) []) 0 q p (omega arith) (Fresh-Matches files fresh)
