-- ===== src/HttpRange/Header.antt =====
-- Which texts cmd/httprange.go reads as a range, and what they ask for.
use mathlib.Core.Path.{subst}
use native.Mathlib.Nat.{pow-suc}
use minio.Base.{
  ℕ, ◌+◌, ◌-◌, ◌*◌, ◌^◌, ◌≤◌, ◌<◌, ◌≡◌, ◌↔◌, refl, sym, ap, ap₂, ◌∙◌, true, false, [], ◌∷◌, ◌++◌,
  Option, none, some, arith, ◌==◌, length, drop, inl, inr, Option-cases, Bool-cases, All,
}
use minio.Base.Text.{Text, codes, has_prefix, has_prefix_iff}
use minio.HttpRange.{
  byte_range_prefix, dash, all_digits, value_of, byte_position, split_at_dash, byte_positions,
}

-- A numeral in base 10, and its value.
abbrev pub IsDecimal : Text → Type 0
IsDecimal s = All (λ c. (b'0' ≤ c) × (c ≤ b'9')) s

abbrev pub decimal : Text → ℕ
decimal [] = 0
decimal (c ∷ s) = (c - b'0') * 10 ^ length s + decimal s

-- A text that gives a position in an int64, or leaves it out.
abbrev pub Position : Text → Option ℕ → Type 0
Position s none = s ≡ []
Position s (some n) = (0 < length s) × IsDecimal s × (n ≡ decimal s) × (n < 2 ^ 63)

-- The header `bytes=first-last`, where both positions can be left out.
abbrev pub Header : Text → Option ℕ → Option ℕ → Type 0
Header s first last =
    (a : Text) × (b : Text) × (s ≡ codes "bytes=" ++ (a ++ (b'-' ∷ b)))
    × Position a first
    × Position b last

all_digits_iff : (s : Text) → (all_digits s ≡ true) ↔ IsDecimal s
unfolding all_digits
all_digits_iff [] = (λ _. tt, λ _. refl)
all_digits_iff (c ∷ s) =
    let (to, of) = all_digits_iff s in
    (λ h. ((ground arith, ground arith), to (ground arith)), λ (p, q). let r = of q in ground arith)

-- Horner's rule.
horner : (acc d v t : ℕ) → (10 * acc + d) * t + v ≡ acc * (t * 10) + (d * t + v)
horner acc d v t = grind arith

value_of-decimal : (acc : ℕ) (s : Text) → value_of acc s ≡ acc * 10 ^ length s + decimal s
unfolding value_of
value_of-decimal acc [] = omega arith
value_of-decimal acc (c ∷ s) =
    value_of-decimal (10 * acc + (c - 48)) s
    ∙ (horner acc (c - 48) (decimal s) (10 ^ length s)
        ∙ ap (λ t. acc * t + ((c - 48) * 10 ^ length s + decimal s)) (sym (pow-suc 10 (length s))))

value : (s : Text) → value_of 0 s ≡ decimal s
value s = omega (arith, value_of-decimal 0 s)

some_inj : (a b : Option ℕ) → some a ≡ some b → a ≡ b
some_inj a b h = cc

byte_position_iff : (s : Text) (n : Option ℕ) → (byte_position s ≡ some n) ↔ Position s n
unfolding byte_position
byte_position_iff [] none = (λ _. refl, λ _. refl)
byte_position_iff [] (some n) = (λ h. absurd (cc), λ (p, _, _, _). absurd (omega arith))
byte_position_iff (c ∷ s) none = (λ h. absurd (ground arith), λ h. absurd (cc))
byte_position_iff (c ∷ s) (some n) =
    let (to, of) = all_digits_iff (c ∷ s) in
    let v = value (c ∷ s) in
    (
      λ h. (omega arith, to (ground arith), ground arith, ground arith),
      λ (p, q, e, l). let t = of q in ground arith,
    )

no_dash : (a b : Text) → IsDecimal a → split_at_dash (a ++ (dash ∷ b)) ≡ some (a, b)
unfolding split_at_dash
no_dash [] b h = refl
no_dash (c ∷ a) b h =
    let other : (c == dash) ≡ false = ground arith in rw (other, no_dash a b h.1) refl

split_at_dash-joined : (s a b : Text) → split_at_dash s ≡ some (a, b) → s ≡ a ++ (dash ∷ b)
unfolding split_at_dash
split_at_dash-joined [] a b h = absurd (cc)
split_at_dash-joined (c ∷ s) a b h = elim (Bool-cases (c == dash)) [
  | inl t ↦
      let h' : ◌≡◌ {A = Option (Text × Text)} (some ([], s)) (some (a, b)) = rw t at h in
      let first : [] ≡ a = cc in
      let second : s ≡ b = cc in let e : c ≡ dash = ground arith in rw (e, ← first, ← second) refl
  | inr t ↦ elim (Option-cases (split_at_dash s)) [
    | inl e ↦
        absurd (let h' : ◌≡◌ {A = Option (Text × Text)} none (some (a, b)) = rw (t, e) at h in cc)
    | inr ((a', b'), e) ↦
        let h' : ◌≡◌ {A = Option (Text × Text)} (some (c ∷ a', b')) (some (a, b)) =
          rw (t, e) at h in
        let first : c ∷ a' ≡ a = cc in
        let second : b' ≡ b = cc in
        ap (◌∷◌ c) (split_at_dash-joined s a' b' e) ∙ ap₂ (λ x y. x ++ (dash ∷ y)) first second
  ]
]

Position-IsDecimal : (s : Text) (n : Option ℕ) → Position s n → IsDecimal s
Position-IsDecimal s none h = subst IsDecimal (sym h) tt
Position-IsDecimal s (some n) h = h.1

-- The positions that are read are those of the header.
pub byte_positions_iff :
    (s : Text) (first last : Option ℕ)
    → (byte_positions s ≡ some (first, last)) ↔ Header s first last
unfolding byte_positions
byte_positions_iff s first last = (
  λ h. elim (Bool-cases (has_prefix s byte_range_prefix)) [
    | inr f ↦ absurd (
        let h' : ◌≡◌ {A = Option (Option ℕ × Option ℕ)} none (some (first, last)) = rw f at h in cc)
    | inl t ↦
        let (rest, joined) = (has_prefix_iff s byte_range_prefix).0 t in
        let left : drop (length byte_range_prefix) s ≡ rest =
          ap (drop (length byte_range_prefix)) joined in
        elim (Option-cases (split_at_dash rest)) [
          | inl e ↦ absurd (
              let h' : ◌≡◌ {A = Option (Option ℕ × Option ℕ)} none (some (first, last)) =
                rw (t, left, e) at h in
              cc)
          | inr ((a, b), e) ↦ elim (Option-cases (byte_position a)) [
            | inl p ↦ absurd (
                let h' : ◌≡◌ {A = Option (Option ℕ × Option ℕ)} none (some (first, last)) =
                  rw (t, left, e, p) at h in
                cc)
            | inr (x, p) ↦ elim (Option-cases (byte_position b)) [
              | inl q ↦ absurd (
                  let h' : ◌≡◌ {A = Option (Option ℕ × Option ℕ)} none (some (first, last)) =
                    rw (t, left, e, p, q) at h in
                  cc)
              | inr (y, q) ↦
                  let h' : ◌≡◌ {A = Option (Option ℕ × Option ℕ)} (some (x, y))
                      (some (first, last)) =
                    rw (t, left, e, p, q) at h in
                  let i : x ≡ first = cc in
                  let j : y ≡ last = cc in
                  (
                    a,
                    b,
                    joined ∙ ap (λ r. codes "bytes=" ++ r) (split_at_dash-joined rest a b e),
                    (byte_position_iff a first).0 (p ∙ ap some i),
                    (byte_position_iff b last).0 (q ∙ ap some j),
                  )
            ]
          ]
        ]
  ],
  λ (a, b, e, p, q).
      let t = (has_prefix_iff s byte_range_prefix).1 (a ++ (dash ∷ b), e) in
      let left : drop (length byte_range_prefix) s ≡ a ++ (dash ∷ b) =
        ap (drop (length byte_range_prefix)) e in
      let x = (byte_position_iff a first).1 p in
      let y = (byte_position_iff b last).1 q in
      rw (t, left, no_dash a b (Position-IsDecimal a first p), x, y) refl,
)
