-- ===== src/StreamingSignature/HexUint.antt =====
-- `parseHexUint` of cmd/streaming-signature-v4.go as a number in base 16.
use Prim.Native.Nat.{max, digits, bit_or, bit_or-bitwise}
use mathlib.Core.Path.{subst}
use native.Mathlib.Nat.{pow-suc}
use minio.Base.{
  ℕ, zero, suc, ◌+◌, ◌-◌, ◌*◌, ◌/◌, ◌%◌, ◌^◌, ◌≤◌, ◌<◌, ◌≡◌, ◌↔◌, ◌⊎◌, leb, refl, sym, ap, ap₂, ◌∙◌,
  false, [], ◌∷◌, none, some, arith, ◌==◌, if◌then◌else◌, length, inl, inr, Bool-cases,
  Option-cases, All, ◌≢◌,
}
use minio.Base.Text.{Text}
use minio.StreamingSignature.Lines.{
  is_eof, Result, StreamError, got, failed, invalid_byte, too_large, hex_digit, parse_hex_from,
  parse_hex_uint,
}

-- `|` adds a number that fits below the digits of the other one.
digits-add : (k a q j r : ℕ) → a ≤ k → a ≡ q * 2 ^ j → r < 2 ^ j → digits (λ b. b) max k a r ≡ a + r
digits-add zero zero q j r h e f = omega arith
digits-add zero (suc a) q j r h e f = absurd (omega arith)
digits-add (suc k) zero q j r h e f = omega arith
digits-add (suc k) (suc a) q zero r h e f =
    let none_left : r ≡ 0 = omega arith in
    let ih =
      digits-add k (suc a / 2) (suc a / 2) 0 (r / 2) (omega arith) (omega arith) (omega arith) in
    ground (arith, ih, none_left)
digits-add (suc k) (suc a) q (suc j) r h e f =
    let twice : q * 2 ^ suc j ≡ 2 * (q * 2 ^ j) =
      omega (arith, ap (λ (t : ℕ). q * t) (pow-suc 2 j)) in
    let power = pow-suc 2 j in
    let ih =
      digits-add k (suc a / 2) q j (r / 2) (omega arith) (omega (arith, e, twice))
        (omega (arith, f, power)) in
    ground (arith, ih, e, twice)

bit_or-add : (n d : ℕ) → d < 16 → bit_or (n * 16) d ≡ n * 16 + d
bit_or-add n d h = simp bit_or-bitwise (digits-add (n * 16) (n * 16) n 4 d (omega arith) refl h)

hex_digit-lt : (b d : ℕ) → hex_digit b ≡ some d → d < 16
unfolding hex_digit
hex_digit-lt b d h = ground arith

-- A numeral in base 16, of the digits 0 to 9 and the letters A to F, capital or small, and its value.
abbrev pub IsHexDigit : ℕ → Type 0
IsHexDigit b = ((b'0' ≤ b) × (b ≤ b'9')) ⊎ (((b'A' ≤ b) × (b ≤ b'F')) ⊎ ((b'a' ≤ b) × (b ≤ b'f')))

abbrev pub IsHex : Text → Type 0
IsHex v = All IsHexDigit v

abbrev pub digit_value : ℕ → ℕ
digit_value b =
    if leb b b'9' then b - b'0' else if leb b b'F' then 10 + (b - b'A') else 10 + (b - b'a')

no_hex_digit : (b : ℕ) → hex_digit b ≡ none → IsHexDigit b → ⊥
unfolding hex_digit
no_hex_digit b h (inl p) = ground arith
no_hex_digit b h (inr (inl p)) = ground arith
no_hex_digit b h (inr (inr p)) = ground arith

hex_digit-IsHexDigit : (b d : ℕ) → hex_digit b ≡ some d → IsHexDigit b × (digit_value b ≡ d)
unfolding hex_digit
hex_digit-IsHexDigit b d h = elim (Bool-cases (leb b 57)) [
  | inl s ↦ (inl (ground arith), ground arith)
  | inr s ↦ elim (Bool-cases (leb b 70)) [
    | inl t ↦ (inr (inl (ground arith)), ground arith)
    | inr t ↦ (inr (inr (ground arith)), ground arith)
  ]
]

abbrev pub value : Text → ℕ
value [] = 0
value (b ∷ v) = digit_value b * 16 ^ length v + value v

-- The room that is left in 64 bits, where `k` more digits may follow.
abbrev Fits : ℕ → ℕ → Type 0
Fits n k = (n + 1) * 16 ^ k ≤ 2 ^ 64

one_le_pow : (k : ℕ) → 1 ≤ 16 ^ k
one_le_pow zero = omega arith
one_le_pow (suc k) = omega (arith, one_le_pow k, pow-suc 16 k)

regroup : (n t : ℕ) → (n + 1) * (t * 16) ≡ (n * 16 + 16) * t
regroup n t = grind arith

-- Horner's rule.
horner : (n d v t : ℕ) → n * (t * 16) + (d * t + v) ≡ (n * 16 + d) * t + v
horner n d v t = grind arith

Fits-digit :
    (n d k : ℕ) → d < 16 → Fits n (suc k) → (n * 16 % 2 ^ 64 ≡ n * 16) × Fits (n * 16 + d) k
Fits-digit n d k h f =
    let o = one_le_pow k in
    let twice : (n + 1) * 16 ^ suc k ≡ (n * 16 + 16) * 16 ^ k =
      ap (λ (t : ℕ). (n + 1) * t) (pow-suc 16 k) ∙ regroup n (16 ^ k) in
    let m : (n * 16 + d + 1) * 16 ^ k ≤ (n * 16 + 16) * 16 ^ k = grind arith in
    let l : n * 16 + 16 ≤ (n * 16 + 16) * 16 ^ k = grind arith in
    (grind arith, omega (arith, m, twice, f))

got_inj : (n m : ℕ) → got n ≡ got m → n ≡ m
got_inj n m h = cc

failed_ne : (e : StreamError) (m : ℕ) → failed e ≢ got m
failed_ne e m h = cc

no_digit :
    (i n b : ℕ) (v : Text) → hex_digit b ≡ none → parse_hex_from i n (b ∷ v) ≡ failed invalid_byte
unfolding parse_hex_from
no_digit i n b v e = rw (e, parse_hex_from) refl

digit :
    (i n b d : ℕ) (v : Text)
    → hex_digit b ≡ some d
    → parse_hex_from i n (b ∷ v) ≡ (
        if i == 16 then failed too_large else parse_hex_from (suc i) (bit_or (n * 16 % 2 ^ 64) d) v)
unfolding parse_hex_from
digit i n b d v e = rw (e, parse_hex_from) refl

parse_hex_from_iff :
    (v : Text) (i k n m : ℕ)
    → i + k ≡ 16
    → Fits n k
    → (parse_hex_from i n v ≡ got m)
      ↔ (IsHex v × (length v ≤ k) × (m ≡ n * 16 ^ length v + value v))
unfolding parse_hex_from
parse_hex_from_iff [] i k n m h f =
    (λ e. (tt, omega arith, omega (arith, got_inj n m e)), λ (_, _, e). ap got (omega (arith, e)))
parse_hex_from_iff (b ∷ v) i k n m h f = elim (Option-cases (hex_digit b)) [
  | inl e ↦ (
    λ x. absurd (failed_ne invalid_byte m (sym (no_digit i n b v e) ∙ x)),
    λ (a, _, _). absurd (no_hex_digit b e a.0),
  )
  | inr (d, e) ↦ elim (Bool-cases (i == 16)) [
    | inl t ↦
        let over : k ≡ 0 = ground arith in
        let step : parse_hex_from i n (b ∷ v) ≡ failed too_large = digit i n b d v e ∙ rw t refl in
        (
          λ x. absurd (failed_ne too_large m (sym step ∙ x)),
          λ (_, l, _). absurd (omega (arith, l, over)),
        )
    | inr t ↦
        let more : suc (i + (k - 1)) ≡ 16 = ground arith in
        let (whole, f') =
          Fits-digit n d (k - 1) (hex_digit-lt b d e) (subst (Fits n) (omega (arith, more, h)) f) in
        let sum = bit_or-add n d (hex_digit-lt b d e) in
        let step : parse_hex_from i n (b ∷ v) ≡ parse_hex_from (suc i) (n * 16 + d) v =
          digit i n b d v e
          ∙ (rw t refl ∙ ap (λ x. parse_hex_from (suc i) x v) (ap (λ x. bit_or x d) whole ∙ sum)) in
        let (to, of) =
          parse_hex_from_iff v (suc i) (k - 1) (n * 16 + d) m (omega (arith, more)) f' in
        let (hex, head) = hex_digit-IsHexDigit b d e in
        let total : n * 16 ^ suc (length v) + value (b ∷ v)
            ≡ (n * 16 + d) * 16 ^ length v + value v =
          ap₂ (λ (x y : ℕ). n * x + (y * 16 ^ length v + value v)) (pow-suc 16 (length v)) head
          ∙ horner n d (value v) (16 ^ length v) in
        (
          λ x.
              let (a, l, y) = to (sym step ∙ x) in
              ((hex, a), omega (arith, l, more, h), y ∙ sym total),
          λ (a, l, y). step ∙ of (a.1, omega (arith, l, more, h), y ∙ total),
        )
  ]
]

-- `parseHexUint` returns a number exactly when the text is at most 16 digits in base 16, and then
-- their value: the shifts do not lose a digit.
pub parse_hex_uint_iff :
    (v : Text) (n : ℕ) → (parse_hex_uint v ≡ got n) ↔ (IsHex v × (length v ≤ 16) × (n ≡ value v))
unfolding parse_hex_uint
parse_hex_uint_iff v n =
    let (to, of) = parse_hex_from_iff v 0 16 0 n (omega arith) (omega arith) in
    (
      λ e. let (a, l, y) = to e in (a, l, omega (arith, y)),
      λ (a, l, y). of (a, l, omega (arith, y)),
    )

known_error :
    (a b : StreamError)
    → ◌≡◌ {A = Result ℕ} (failed a) (failed b)
    → is_eof a ≡ false
    → is_eof b ≡ false
known_error a b h k = let e : a ≡ b = cc in sym (ap is_eof e) ∙ k

parse_hex_from-not_eof :
    (v : Text) (i n : ℕ) (e : StreamError) → parse_hex_from i n v ≡ failed e → is_eof e ≡ false
unfolding parse_hex_from
parse_hex_from-not_eof [] i n e h = absurd (cc)
parse_hex_from-not_eof (b ∷ v) i n e h = elim (Option-cases (hex_digit b)) [
  | inl f ↦ known_error invalid_byte e (sym (no_digit i n b v f) ∙ h) refl
  | inr (d, f) ↦ elim (Bool-cases (i == 16)) [
    | inl t ↦
        let step : parse_hex_from i n (b ∷ v) ≡ failed too_large = digit i n b d v f ∙ rw t refl in
        known_error too_large e (sym step ∙ h) refl
    | inr t ↦
        let step : parse_hex_from i n (b ∷ v)
            ≡ parse_hex_from (suc i) (bit_or (n * 16 % 2 ^ 64) d) v =
          digit i n b d v f ∙ rw t refl in
        parse_hex_from-not_eof v (suc i) _ e (sym step ∙ h)
  ]
]

pub parse_hex_uint-not_eof :
    (v : Text) (e : StreamError) → parse_hex_uint v ≡ failed e → is_eof e ≡ false
unfolding parse_hex_uint
parse_hex_uint-not_eof v e h = parse_hex_from-not_eof v 0 0 e h
