-- ===== src/Wildcard/Glob.antt =====
-- What it means for a name to match a pattern, with no search order in it, and the proof that the
-- matcher of pkg/wildcard/match.go decides it.
use minio.Base.{
  ℕ, ◌≡◌, ◌≢◌, refl, sym, ap, if_pos, if_neg, Bool, ◌↔◌, ◌⊎◌, inl, inr, true, false, [], ◌∷◌, ◌++◌,
  arith, ◌==◌, ==_iff, Bool-cases,
}
use mathlib.Core.List.{append-nil}
use minio.Base.Text.{Text, text_discrete}
use minio.Wildcard.{
  Outcome, answer, panic, or_else, star, question, deep_match_rune, match_with, match,
}

-- `?` accepts any rune, and a plain rune accepts itself.
abbrev pub Accepts : ℕ → ℕ → Type 0
Accepts c x = (c ≢ star) × ((c ≡ question) ⊎ (x ≡ c))

-- `*` stands for any run of runes.
pub data Matches : Text → Text → Type 0 where
  empty : Matches [] []
  one : {c x : ℕ} {p s : Text} → Accepts c x → Matches p s → Matches (c ∷ p) (x ∷ s)
  run :
      {c : ℕ} {p s : Text} (skipped rest : Text)
      → c ≡ star
      → s ≡ skipped ++ rest
      → Matches p rest
      → Matches (c ∷ p) s

-- The run ended with an answer, and the answer is right about `G`.
abbrev pub Decides : Type 0 → Outcome → Type 0
Decides G (answer true) = G
Decides G (answer false) = ¬ G
Decides G panic = ⊥

Decides-iff : (G H : Type 0) (r : Outcome) → G ↔ H → Decides G r → Decides H r
Decides-iff G H (answer true) e d = e.0 d
Decides-iff G H (answer false) e d = λ h. d (e.1 h)
Decides-iff G H panic e d = d

or_else-Decides :
    (G H : Type 0) (a b : Outcome) → Decides G a → Decides H b → Decides (G ⊎ H) (or_else a b)
or_else-Decides G H (answer true) b g h = inl g
or_else-Decides G H (answer false) (answer true) g h = inr h
or_else-Decides G H (answer false) (answer false) g h = elim [ inl x ↦ g x | inr y ↦ h y ]
or_else-Decides G H (answer false) panic g h = h
or_else-Decides G H panic b g h = g

module _ {c : ℕ} {p : Text} where
  star_skip : {s : Text} → c ≡ star → Matches p s → Matches (c ∷ p) s
  star_skip {s} e d = run [] s e refl d

  star_take : {x : ℕ} {s : Text} → c ≡ star → Matches (c ∷ p) s → Matches (c ∷ p) (x ∷ s)
  star_take e (one a d) = absurd (a.0 e)
  star_take {x} e (run k r f q d) = run (x ∷ k) r f (ap (◌∷◌ x) q) d

  star_inv :
      {x : ℕ} {s : Text}
      → c ≡ star
      → Matches (c ∷ p) (x ∷ s)
      → Matches p (x ∷ s) ⊎ Matches (c ∷ p) s
  star_inv e (one a d) = absurd (a.0 e)
  star_inv e (run [] r f q d) = inl (rw q d)
  star_inv e (run (y ∷ k) r f q d) = inr (run k r f (cc) d)

  star_inv_nil : c ≡ star → Matches (c ∷ p) [] → Matches p []
  star_inv_nil e (run [] r f q d) = rw q d
  star_inv_nil e (run (y ∷ k) r f q d) = absurd (cc)

  rune_inv : {x : ℕ} {s : Text} → c ≢ star → Matches (c ∷ p) (x ∷ s) → Accepts c x × Matches p s
  rune_inv n (one a d) = (a, d)
  rune_inv n (run k r f q d) = absurd (n f)

  rune_inv_nil : c ≢ star → ¬ Matches (c ∷ p) []
  rune_inv_nil n (run k r f q d) = n f

Matches-nil : {s : Text} → Matches [] s → s ≡ []
Matches-nil empty = refl

pub ne_of_test : (a b : ℕ) → (a == b) ≡ false → a ≢ b
ne_of_test a b h = ground arith

-- One step of the matcher in each kind of rune.
module _ (c x : ℕ) (p s : Text) where
  star_step :
      (a b : Outcome)
      → c ≡ star
      → Decides (Matches p (x ∷ s)) a
      → Decides (Matches (c ∷ p) s) b
      → Decides (Matches (c ∷ p) (x ∷ s)) (or_else a b)
  star_step a b e g h =
      Decides-iff (Matches p (x ∷ s) ⊎ Matches (c ∷ p) s) _ (or_else a b)
        (elim [ inl d ↦ star_skip e d | inr d ↦ star_take e d ], star_inv e)
        (or_else-Decides _ _ a b g h)

  accept_step :
      (a : Outcome) → Accepts c x → Decides (Matches p s) a → Decides (Matches (c ∷ p) (x ∷ s)) a
  accept_step a h = Decides-iff _ _ a (one h, λ d. (rune_inv h.0 d).1)

  reject_step : c ≢ star → c ≢ question → x ≢ c → Decides (Matches (c ∷ p) (x ∷ s)) (answer false)
  reject_step n m k d = elim (rune_inv n d).0.1 [ inl q ↦ m q | inr e ↦ k e ]

star_nil_step :
    (c : ℕ) (p : Text) (a : Outcome)
    → c ≡ star
    → Decides (Matches p []) a
    → Decides (Matches (c ∷ p) []) (or_else a (answer false))
star_nil_step c p a e g =
    Decides-iff (Matches p [] ⊎ ⊥) _ (or_else a (answer false))
      (elim [ inl d ↦ star_skip e d | inr d ↦ absurd d ], λ d. inl (star_inv_nil e d))
      (or_else-Decides _ _ a (answer false) g (λ d. d))

pub deep_match_rune-Decides : (s p : Text) → Decides (Matches p s) (deep_match_rune s p false)
unfolding deep_match_rune
deep_match_rune-Decides [] [] = empty
deep_match_rune-Decides (x ∷ s) [] = λ d. elim d [ ]
deep_match_rune-Decides [] (c ∷ p) = elim (Bool-cases (c == star)) [
  | inl e ↦ rw e (
      star_nil_step c p (deep_match_rune [] p false) ((==_iff c star).0 e)
        (deep_match_rune-Decides [] p))
  | inr n ↦ elim (Bool-cases (c == question)) [
    | inl q ↦ rw (n, q) (rune_inv_nil (ne_of_test c star n))
    | inr m ↦ rw (n, m) (rune_inv_nil (ne_of_test c star n))
  ]
]
deep_match_rune-Decides (x ∷ s) (c ∷ p) =
    let onward = deep_match_rune-Decides s p in
    let skip = deep_match_rune-Decides (x ∷ s) p in
    let take_one = deep_match_rune-Decides s (c ∷ p) in
    elim (Bool-cases (c == star)) [
      | inl e ↦ rw e (star_step c x p s _ _ ((==_iff c star).0 e) skip take_one)
      | inr n ↦ elim (Bool-cases (c == question)) [
        | inl q ↦
            rw (n, q)
              (accept_step c x p s _ (ne_of_test c star n, inl ((==_iff c question).0 q)) onward)
        | inr m ↦ elim (Bool-cases (x == c)) [
          | inl k ↦
              rw (n, m, k)
                (accept_step c x p s _ (ne_of_test c star n, inr ((==_iff x c).0 k)) onward)
          | inr k ↦
              rw (n, m, k)
                (reject_step c x p s (ne_of_test c star n) (ne_of_test c question m)
                  (ne_of_test x c k))
        ]
      ]
    ]

star_alone : (s : Text) → Matches (star ∷ []) s
star_alone s = run s [] refl (sym (append-nil s)) empty

pub match_with-Decides :
    (simple : Bool) (p s : Text)
    → Decides (Matches p s) (deep_match_rune s p simple)
    → Decides (Matches p s) (match_with simple p s)
unfolding match_with
match_with-Decides simple [] s d = elim (text_discrete s []) [
  | yes e ↦ rw (if_pos _ e, e) empty
  | no n ↦ rw (if_neg _ n) (λ m. n (Matches-nil m))
]
match_with-Decides simple (c ∷ p) s d = elim (text_discrete (c ∷ p) (star ∷ [])) [
  | yes e ↦ rw (if_pos _ e, e) (star_alone s)
  | no n ↦ rw (if_neg _ n) d
]

-- For every pattern and name `Match` returns, without a panic, and it answers true exactly when
-- the name matches: `?` stands for one rune, `*` for any run of runes, and any other rune for
-- itself.
pub match-Decides : (p s : Text) → Decides (Matches p s) (match p s)
unfolding match
match-Decides p s = match_with-Decides false p s (deep_match_rune-Decides s p)
