-- ===== src/Erasure/Read/Decoding.antt =====
-- What is relied on of Reed-Solomon coding, and the blocks that `erasureReadFile` writes.
use minio.Base.{
  ℕ, suc, ◌+◌, ◌≤◌, ◌<◌, ◌≡◌, refl, ap, ◌∙◌, true, List, [], ◌∷◌, ◌++◌, Option, some, arith, length,
  take, map, Bool-cases, inl, inr,
}
use minio.Erasure.{Bytes, is_success_data_blocks}
use minio.Erasure.Disks.{available, is_success_data_blocks_iff}
use minio.Erasure.Blocks.{joined}
use minio.Erasure.Read.Lists.{Agrees, length-Agrees, take-Agrees, take-map-some}
use minio.Erasure.Read.{Coder, decode_data, complete}

-- The documented behaviour of the library for one pair of numbers, with `shards` what `Split` and
-- `Encode` make of some bytes: the first shards are the bytes with padding, as many shards as
-- there are data blocks give back all of them, and what was encoded is verified, where it is not empty.
pub record Codes (coder : Coder) (d p : ℕ) (shards : Bytes → List Bytes) : Type 0 where
  pub is_new : coder.new_ok d p ≡ true
  pub padding : Bytes → Bytes
  pub data_first : (b : Bytes) → joined (map some (take d (shards b))) ≡ b ++ padding b
  pub shard_count : (b : Bytes) → length (shards b) ≡ d + p
  pub reconstructs :
      (b : Bytes) (en : List (Option Bytes))
      → 0 < length b
      → Agrees en (shards b)
      → d ≤ available en
      → coder.reconstruct d p en ≡ some (map some (shards b))
  pub verifies : (b : Bytes) → 0 < length b → coder.verify d p (map some (shards b)) ≡ some true

length-map-some : (s : List Bytes) → length (map some s) ≡ length s
length-map-some [] = refl
length-map-some (b ∷ s) = ap suc (length-map-some s)

-- From enough chunks, decoding gives all shards.
pub decode_data-shards :
    (coder : Coder) (d p : ℕ) (shards : Bytes → List Bytes) (b : Bytes) (en : List (Option Bytes))
    → Codes coder d p shards
    → 0 < length b
    → Agrees en (shards b)
    → d ≤ available en
    → decode_data coder en d p ≡ some (map some (shards b))
unfolding decode_data
decode_data-shards coder d p shards b en codes some_bytes agrees there =
    rw (codes.is_new, codes.reconstructs b en some_bytes agrees there, codes.verifies b some_bytes)
      refl

-- From enough chunks, with or without decoding, the data blocks are those of the encoding.
pub complete-joined :
    (coder : Coder) (d p : ℕ) (shards : Bytes → List Bytes) (b : Bytes) (en : List (Option Bytes))
    (codes : Codes coder d p shards)
    → 0 < length b
    → Agrees en (shards b)
    → d ≤ available en
    → (blocks : List (Option Bytes)) × (complete coder en d p ≡ some blocks)
      × (d ≤ length blocks)
      × (joined (take d blocks) ≡ b ++ codes.padding b)
unfolding complete
complete-joined coder d p shards b en codes some_bytes agrees there =
    let n : length en ≡ d + p = length-Agrees en (shards b) agrees ∙ codes.shard_count b in
    elim (Bool-cases (is_success_data_blocks en d)) [
      | inl t ↦
          let all = (is_success_data_blocks_iff en d (omega (arith, n))).0 t in
          (
            en,
            rw t refl,
            omega (arith, n),
            ap joined (take-Agrees d en (shards b) agrees all) ∙ codes.data_first b,
          )
      | inr t ↦ (
        map some (shards b),
        rw t (decode_data-shards coder d p shards b en codes some_bytes agrees there),
        omega (arith, length-map-some (shards b), codes.shard_count b),
        ap joined (take-map-some d (shards b)) ∙ codes.data_first b,
      )
    ]
