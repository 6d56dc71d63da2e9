-- ===== src/HttpRange/Selection.antt =====
-- The bytes that cmd/httprange.go selects.
use minio.Base.{
  ℕ, ◌+◌, ◌-◌, ◌≤◌, ◌<◌, ◌≡◌, ◌↔◌, refl, Option, none, some, arith, ltb, leb, ◌==◌, inl, inr,
  Option-cases, Bool-cases,
}
use minio.Base.Text.{Text}
use mathlib.Core.Path.{subst}
use minio.Base.Int.{ℤ, pos, negsuc}
use minio.HttpRange.Header.{Header, byte_positions_iff}
use minio.HttpRange.{
  HttpRange, minus, get_length, RangeResult, satisfiable, malformed, invalid_range, byte_positions,
  resolve, parse_request_range,
}

-- The position is at most the end.
abbrev pub UpTo : ℕ → ℤ → Type 0
UpTo k (pos e) = k ≤ e
UpTo k (negsuc n) = ⊥

-- The byte is in the range.
abbrev pub InRange : ℕ → HttpRange → Type 0
InRange k hrange = (hrange.offset_begin ≤ k) × UpTo k hrange.offset_end

-- What the header asks for: from a first byte to a last one, from a first byte on, or the last
-- bytes of the resource.
abbrev pub Asked : Option ℕ → Option ℕ → ℕ → ℕ → Type 0
Asked (some first) (some last) size k = (first ≤ k) × (k ≤ last)
Asked (some first) none size k = first ≤ k
Asked none (some last) size k = size ≤ k + last
Asked none none size k = ⊥

-- Nothing is asked for, or a last position before the first.
abbrev pub Senseless : Option ℕ → Option ℕ → Type 0
Senseless (some first) (some last) = last < first
Senseless (some first) none = ⊥
Senseless none (some last) = ⊥
Senseless none none = Unit

-- What a result says of the bytes that are asked for.
abbrev pub Selects : Option ℕ → Option ℕ → ℕ → RangeResult → Type 0
Selects first last size (satisfiable hrange) =
    (hrange.resource_size ≡ size)
    × ((k : ℕ) → InRange k hrange ↔ ((k < size) × Asked first last size k))
Selects first last size malformed = Senseless first last
Selects first last size invalid_range = (k : ℕ) → ¬ ((k < size) × Asked first last size k)

UpTo-minus : (k size : ℕ) → UpTo k (minus size 1) ↔ (k < size)
UpTo-minus k size = elim (Bool-cases (ltb size 1)) [
  | inl t ↦ rw t (λ h. absurd h, λ h. absurd (ground arith))
  | inr t ↦ rw t (λ h. ground arith, λ h. ground arith)
]

resolve-Selects :
    (first last : Option ℕ) (size : ℕ) → Selects first last size (resolve first last size)
unfolding resolve
resolve-Selects (some first) (some last) size = elim (Bool-cases (ltb last first)) [
  | inl t ↦ rw t (ground arith)
  | inr t ↦ elim (Bool-cases (leb size first)) [
    | inl t' ↦ rw (t, t') (λ k (l, (p, q)). ground arith)
    | inr t' ↦ elim (Bool-cases (leb size last)) [
      | inl t'' ↦
          rw (t, t', t'')
            (
              refl,
              λ k.
                  let u = UpTo-minus k size in
                  (λ (p, q). (u.0 q, (p, ground (arith, u.0 q))), λ (l, (p, q)). (p, u.1 l)),
            )
      | inr t'' ↦
          rw (t, t', t'') (refl, λ k. (λ (p, q). (ground arith, (p, q)), λ (l, (p, q)). (p, q)))
    ]
  ]
]
resolve-Selects (some first) none size = elim (Bool-cases (leb size first)) [
  | inl t ↦ rw t (λ k (l, h). ground arith)
  | inr t ↦
      rw t (refl, λ k. let u = UpTo-minus k size in (λ (p, q). (u.0 q, p), λ (p, q). (q, u.1 p)))
]
resolve-Selects none (some last) size = elim (Bool-cases (last == 0)) [
  | inl t ↦ rw t (λ k (l, h). ground arith)
  | inr t ↦ elim (Bool-cases (leb size last)) [
    | inl t' ↦
        rw (t, t')
          (
            refl,
            λ k.
                let u = UpTo-minus k size in
                (λ (p, q). (u.0 q, ground arith), λ (l, h). (ground arith, u.1 l)),
          )
    | inr t' ↦
        rw (t, t')
          (
            refl,
            λ k.
                let u = UpTo-minus k size in
                (λ (p, q). (u.0 q, ground arith), λ (l, h). (ground arith, u.1 l)),
          )
  ]
]
resolve-Selects none none size = tt

resolve-Senseless :
    (first last : Option ℕ) (size : ℕ) → Senseless first last → resolve first last size ≡ malformed
unfolding resolve
resolve-Senseless (some first) (some last) size h = ground arith
resolve-Senseless (some first) none size h = absurd h
resolve-Senseless none (some last) size h = absurd h
resolve-Senseless none none size h = refl

-- A header `bytes=first-last`, with each position a numeral in base 10 below 2^63 or left out, is
-- answered with exactly the bytes of the resource that it asks for (those from the first position
-- to the last, those from the first on, or as many last bytes as the last position says), or with
-- `errInvalidRange` where it asks for none of them, and is malformed exactly where both positions
-- are left out or the last is before the first; every other header is malformed.
pub parse_request_range-Selects :
    (range_string : Text) (size : ℕ)
    → ((first last : Option ℕ)
        → Header range_string first last
        → Selects first last size (parse_request_range range_string size)
          × (Senseless first last → parse_request_range range_string size ≡ malformed))
      × (((first last : Option ℕ) → ¬ Header range_string first last)
          → parse_request_range range_string size ≡ malformed)
unfolding parse_request_range
parse_request_range-Selects range_string size = (
  λ first last h.
      let e = (byte_positions_iff range_string first last).1 h in
      rw (e, parse_request_range)
        (resolve-Selects first last size, resolve-Senseless first last size),
  λ n. elim (Option-cases (byte_positions range_string)) [
    | inl e ↦ ground arith
    | inr ((first, last), e) ↦
        absurd (n first last ((byte_positions_iff range_string first last).0 e))
  ],
)

minus_one : (size : ℕ) → 0 < size → minus size 1 ≡ pos (size - 1)
minus_one size p = ground arith

-- A range on a resource that is not empty has its first and its last byte in the resource.
abbrev Inside : ℕ → RangeResult → Type 0
Inside size (satisfiable hrange) =
    (e : ℕ) × (hrange.offset_end ≡ pos e) × (hrange.offset_begin ≤ e) × (e < size)
Inside size malformed = Unit
Inside size invalid_range = Unit

resolve-Inside :
    (first last : Option ℕ) (size : ℕ) → 0 < size → Inside size (resolve first last size)
unfolding resolve
resolve-Inside (some first) (some last) size p = elim (Bool-cases (ltb last first)) [
  | inl t ↦ rw t tt
  | inr t ↦ elim (Bool-cases (leb size first)) [
    | inl t' ↦ rw (t, t') tt
    | inr t' ↦ elim (Bool-cases (leb size last)) [
      | inl t'' ↦ rw (t, t', t'') (size - 1, minus_one size p, ground arith, omega arith)
      | inr t'' ↦ rw (t, t', t'') (last, refl, ground arith, ground arith)
    ]
  ]
]
resolve-Inside (some first) none size p = elim (Bool-cases (leb size first)) [
  | inl t ↦ rw t tt
  | inr t ↦ rw t (size - 1, minus_one size p, ground arith, omega arith)
]
resolve-Inside none (some last) size p = elim (Bool-cases (last == 0)) [
  | inl t ↦ rw t tt
  | inr t ↦ elim (Bool-cases (leb size last)) [
    | inl t' ↦ rw (t, t') (size - 1, minus_one size p, omega arith, omega arith)
    | inr t' ↦ rw (t, t') (size - 1, minus_one size p, ground arith, omega arith)
  ]
]
resolve-Inside none none size p = tt

-- The length of a range that is accepted on a resource that is not empty is the number of bytes
-- from its begin to its end; the range lies within the resource.
pub parse_request_range-length :
    (range_string : Text) (size : ℕ) (hrange : HttpRange)
    → 0 < size
    → parse_request_range range_string size ≡ satisfiable hrange
    → (n : ℕ) × (get_length hrange ≡ pos n) × (0 < n) × (hrange.offset_begin + n ≤ size)
unfolding parse_request_range get_length
parse_request_range-length range_string size hrange p h =
    elim (Option-cases (byte_positions range_string)) [
      | inl e ↦ absurd (cc (rw (e, parse_request_range) at h))
      | inr ((first, last), e) ↦
          let q : resolve first last size ≡ satisfiable hrange = ground arith in
          let inside : Inside size (satisfiable hrange) =
            subst (λ r. Inside size r) q (resolve-Inside first last size p) in
          let (end, f, b, l) = inside in
          (
            1 + end - hrange.offset_begin,
            rw (f, get_length) (ground arith),
            omega arith,
            omega arith,
          )
    ]
