-- ===== src/XlMeta/Offsets.antt =====
-- The offsets of parts in cmd/xl-v1-metadata.go, and the choice of valid metadata.
use minio.Base.{
  ℕ, suc, ◌+◌, ◌-◌, ◌≤◌, ◌<◌, ◌≡◌, refl, List, [], ◌∷◌, none, some, arith, ltb, Bool-cases, inl,
  inr, get_elem?, take,
}
use minio.XlMeta.{ObjectPartInfo, XlMetaV1, seek_part, object_to_part_offset}

-- The bytes of the parts.
unfoldable pub size_of : List ObjectPartInfo → ℕ
size_of [] = 0
size_of (part ∷ parts) = part.size + size_of parts

-- The offset lies in the part with this index, counted from `j`, at this offset of the part.
abbrev pub LiesAt : ℕ → List ObjectPartInfo → ℕ → ℕ × ℕ → Type 0
LiesAt j parts offset at =
    (i : ℕ) × (part : ObjectPartInfo) × (get_elem? parts i ≡ some part)
    × (at.0 ≡ j + i)
    × (at.1 < part.size)
    × (offset ≡ size_of (take i parts) + at.1)

seek_part-found :
    (j : ℕ) (parts : List ObjectPartInfo) (offset : ℕ)
    → offset < size_of parts
    → (at : ℕ × ℕ) × (seek_part j parts offset ≡ some at) × LiesAt j parts offset at
unfolding seek_part size_of
seek_part-found j [] offset h = absurd (omega arith)
seek_part-found j (part ∷ parts) offset h = elim (Bool-cases (ltb offset part.size)) [
  | inl t ↦ ((j, offset), ground arith, (0, part, refl, omega arith, ground arith, omega arith))
  | inr t ↦
      let (at, e, (i, p, g, a, b, c)) =
        seek_part-found (j + 1) parts (offset - part.size) (ground arith) in
      (at, ground arith, (suc i, p, g, omega arith, b, ground arith))
]

seek_part-beyond :
    (j : ℕ) (parts : List ObjectPartInfo) (offset : ℕ)
    → size_of parts ≤ offset
    → seek_part j parts offset ≡ none
unfolding seek_part size_of
seek_part-beyond j [] offset h = refl
seek_part-beyond j (part ∷ parts) offset h =
    ground (arith, seek_part-beyond (j + 1) parts (offset - part.size))

-- An offset inside the object, other than 0, is translated to the part that holds it and to the
-- offset in that part, behind the bytes of the parts before it.
pub object_to_part_offset-found :
    (m : XlMetaV1) (offset : ℕ)
    → 0 < offset
    → offset < size_of m.parts
    → (at : ℕ × ℕ) × (object_to_part_offset m offset ≡ some at) × LiesAt 0 m.parts offset at
unfolding object_to_part_offset
object_to_part_offset-found m offset p h =
    let (at, e, l) = seek_part-found 0 m.parts offset h in (at, ground arith, l)

-- An offset at or behind the end of the object, other than 0, is `InvalidRange`.
pub object_to_part_offset-beyond :
    (m : XlMetaV1) (offset : ℕ)
    → 0 < offset
    → size_of m.parts ≤ offset
    → object_to_part_offset m offset ≡ none
unfolding object_to_part_offset
object_to_part_offset-beyond m offset p h = ground (arith, seek_part-beyond 0 m.parts offset h)
