-- ===== src/Wildcard/Simple.antt =====
-- `MatchSimple` of pkg/wildcard/match.go: right on patterns without `?`, and its panic.
use minio.Base.{
  ℕ, ◌≡◌, ◌≢◌, refl, if_pos, if_neg, All, ◌↔◌, ◌⊎◌, inl, inr, true, false, [], ◌∷◌, arith, ◌==◌,
  ==_iff, Bool-cases,
}
use minio.Base.Text.{Text, text_discrete}
use minio.Wildcard.{
  Outcome, answer, panic, or_else, star, question, deep_match_rune, match_with, match_simple,
}
use minio.Wildcard.Glob.{Matches, Decides, ne_of_test, deep_match_rune-Decides, match_with-Decides}

-- Without a `?` in the pattern the flag changes nothing.
deep_match_rune-simple :
    (s p : Text) → All (λ c. c ≢ question) p → deep_match_rune s p true ≡ deep_match_rune s p false
unfolding deep_match_rune
deep_match_rune-simple [] [] h = refl
deep_match_rune-simple (x ∷ s) [] h = refl
deep_match_rune-simple [] (c ∷ p) h = ground (arith, deep_match_rune-simple [] p)
deep_match_rune-simple (x ∷ s) (c ∷ p) h = ground (
  arith,
  deep_match_rune-simple (x ∷ s) p,
  deep_match_rune-simple s (c ∷ p),
  deep_match_rune-simple s p,
)

-- On a pattern without `?`, `MatchSimple` returns, without a panic, and it answers true exactly
-- when the name matches with `*` as the only wildcard.
pub match_simple-Decides :
    (p s : Text) → All (λ c. c ≢ question) p → Decides (Matches p s) (match_simple p s)
unfolding match_simple
match_simple-Decides p s h =
    match_with-Decides true p s (rw (deep_match_rune-simple s p h) (deep_match_rune-Decides s p))

-- A `?` behind nothing but stars.
pub data Exhausts : Text → Type 0 where
  here : {c : ℕ} {p : Text} → c ≡ question → Exhausts (c ∷ p)
  behind : {c : ℕ} {p : Text} → c ≡ star → Exhausts p → Exhausts (c ∷ p)

or_else-panic : (a : Outcome) → or_else a (answer false) ≡ panic → a ≡ panic
or_else-panic (answer true) h = absurd (cc)
or_else-panic (answer false) h = absurd (cc)
or_else-panic panic h = refl

pub Exhausts-cons :
    {c : ℕ} {p : Text} → Exhausts (c ∷ p) → (c ≡ question) ⊎ ((c ≡ star) × Exhausts p)
Exhausts-cons (here e) = inl e
Exhausts-cons (behind e x) = inr (e, x)

not-Exhausts-star : ¬ Exhausts (star ∷ [])
not-Exhausts-star x = elim (Exhausts-cons x) [ inl q ↦ omega arith | inr (_, y) ↦ elim y [ ] ]

deep_match_rune-panic : (p : Text) → (deep_match_rune [] p true ≡ panic) ↔ Exhausts p
unfolding deep_match_rune
deep_match_rune-panic [] = (λ e. absurd (cc), λ x. elim x [ ])
deep_match_rune-panic (c ∷ p) =
    let ih = deep_match_rune-panic p in
    elim (Bool-cases (c == star)) [
      | inl e ↦
          let f = (==_iff c star).0 e in
          rw e (
            λ h. behind f (ih.0 (or_else-panic _ h)),
            λ x. elim (Exhausts-cons x) [
              | inl q ↦ absurd (omega (arith, f, q))
              | inr (g, y) ↦ rw (ih.1 y)
            ],
          )
      | inr n ↦ elim (Bool-cases (c == question)) [
        | inl q ↦ rw (n, q) (λ _. here ((==_iff c question).0 q), λ _. refl)
        | inr m ↦
            rw (n, m)
              (
                λ h. absurd (cc),
                λ x. elim (Exhausts-cons x) [
                  | inl q ↦ absurd (ne_of_test c question m q)
                  | inr (g, y) ↦ absurd (ne_of_test c star n g)
                ],
              )
      ]
    ]

-- On an empty name `MatchSimple` panics exactly on the patterns that hold a `?` behind nothing but
-- stars: the slice `str[1:]` is out of range there.
pub match_simple-panic : (p : Text) → (match_simple p [] ≡ panic) ↔ Exhausts p
unfolding match_simple match_with
match_simple-panic [] = (λ e. absurd (cc), λ x. elim x [ ])
match_simple-panic (c ∷ p) = elim (text_discrete (c ∷ p) (star ∷ [])) [
  | yes e ↦ rw (if_pos _ e) (λ h. absurd (cc), λ x. absurd (not-Exhausts-star (rw e at x)))
  | no n ↦ rw (if_neg _ n) (deep_match_rune-panic (c ∷ p))
]
