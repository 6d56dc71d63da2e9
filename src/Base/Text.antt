-- ===== src/Base/Text.antt =====
-- Texts as sequences of numbers (bytes, or the runes that a `range` over a Go string visits).
use Prim.Native.Nat.{ℕ}
use Prim.Native.Char.{code}
use Prim.Native.String.{String}
use mathlib.Core.Path.{◌≡◌, refl, ap₂}
use mathlib.Core.Logic.{◌≢◌, ◌↔◌, ite}
use mathlib.Core.Bool.{Bool, true, false, ◌&&◌}
use mathlib.Core.List.{List, [], ◌∷◌, ◌++◌}
use native.Mathlib.Omega.{arith}
use minio.Base.Tests.{◌==◌}
use native.Mathlib.Decide.{ℕ_discrete}

abbrev pub Text : Type 0
Text = List ℕ

-- The code points of a literal: its bytes, where it is ASCII.
abbrev pub codes : String → Text
codes String.[] = []
codes (String.◌∷◌ c s) = code c ∷ codes s

unfoldable pub text_discrete : Discrete Text
unfolding ℕ_discrete
text_discrete = hlevel ℕ_discrete

-- Go's `==` on strings.
abbrev pub same : Text → Text → Bool
same a b = ite (text_discrete a b) true false

pub same_iff : (a b : Text) → (same a b ≡ true) ↔ (a ≡ b)
same_iff a b = ground arith

pub ne_of_same : (a b : Text) → same a b ≡ false → a ≢ b
ne_of_same a b h = ground arith

-- `strings.HasPrefix`.
unfoldable pub has_prefix : Text → Text → Bool
has_prefix s [] = true
has_prefix [] (c ∷ p) = false
has_prefix (x ∷ s) (c ∷ p) = x == c && has_prefix s p

-- `has_prefix` finds the prefix exactly when the text begins with it.
pub has_prefix_iff : (s p : Text) → (has_prefix s p ≡ true) ↔ ((rest : Text) × (s ≡ p ++ rest))
unfolding has_prefix
has_prefix_iff s [] = (λ _. (s, refl), λ _. refl)
has_prefix_iff [] (c ∷ p) = (λ h. absurd (cc), λ (r, e). absurd (cc))
has_prefix_iff (x ∷ s) (c ∷ p) =
    let ih = has_prefix_iff s p in
    (
      λ h. let (r, e) = ih.0 (ground arith) in let q : x ≡ c = ground arith in (r, ap₂ ◌∷◌ q e),
      λ (r, e).
          let q : x ≡ c = cc in let t : s ≡ p ++ r = cc in let u = ih.1 (r, t) in ground arith,
    )
