-- ===== src/XlHealing/CommonTime.antt =====
-- The time that `commonTime` of cmd/xl-v1-healing-common.go finds, in every order of the map.
use mathlib.Core.Path.{subst}
use minio.Base.{
  ℕ, ◌+◌, ◌≤◌, ◌<◌, ◌≡◌, ◌⊎◌, ◌↔◌, refl, sym, ap, ap₂, ◌∙◌, ◌&&◌, List, [], ◌∷◌, none, some, arith,
  ltb, ◌==◌, if◌then◌else◌, inl, inr, Bool-cases, Option-cases, ℕ_discrete,
}
use minio.Base.Assoc.{get, put, get-put, Distinct, put-Distinct}
use minio.XlHealing.{time_sentinel, time_counts, later, latest, common_time}

-- How often a time occurs, the sentinel never.
abbrev pub occurrences : ℕ → List ℕ → ℕ
occurrences t [] = 0
occurrences t (u ∷ times) =
    (if u == time_sentinel then 0 else (if u == t then 1 else 0)) + occurrences t times

-- The list has this entry.
abbrev pub Has : ℕ → ℕ → List (ℕ × ℕ) → Type 0
Has t n [] = ⊥
Has t n ((u, c) ∷ l) = ((u ≡ t) × (c ≡ n)) ⊎ Has t n l

-- The order in which a map yields its entries: all of them, and nothing else.
abbrev pub IsShuffle : (List (ℕ × ℕ) → List (ℕ × ℕ)) → Type 0
IsShuffle shuffle = (l : List (ℕ × ℕ)) (t n : ℕ) → Has t n (shuffle l) ↔ Has t n l

abbrev count_in : ℕ → List (ℕ × ℕ) → ℕ
count_in t counts = elim (get ℕ_discrete t counts) [ none ↦ 0 | some n ↦ n ]

count-time_counts :
    (t : ℕ) (times : List ℕ) (counts : List (ℕ × ℕ))
    → count_in t (time_counts times counts) ≡ count_in t counts + occurrences t times
unfolding time_counts
count-time_counts t [] counts = omega arith
count-time_counts t (u ∷ times) counts = elim (Bool-cases (u == time_sentinel)) [
  | inl i ↦ rw i (omega (arith, count-time_counts t times counts))
  | inr i ↦
      let n : ℕ = elim (get ℕ_discrete u counts) [ none ↦ 1 | some n ↦ n + 1 ] in
      let counts' = put ℕ_discrete u n counts in
      let one : count_in t counts' ≡ count_in t counts + (if u == t then 1 else 0) =
        ground (arith, get-put ℕ_discrete u t n counts) in
      rw i (omega (arith, count-time_counts t times counts', one))
]

time_counts-Distinct :
    (times : List ℕ) (counts : List (ℕ × ℕ))
    → Distinct ℕ_discrete counts
    → Distinct ℕ_discrete (time_counts times counts)
unfolding time_counts
time_counts-Distinct [] counts d = d
time_counts-Distinct (t ∷ times) counts d = elim (Bool-cases (t == time_sentinel)) [
  | inl i ↦ rw i (time_counts-Distinct times counts d)
  | inr i ↦ rw i (time_counts-Distinct times _ (put-Distinct ℕ_discrete t _ counts d))
]

Has-get : (t n : ℕ) (l : List (ℕ × ℕ)) → get ℕ_discrete t l ≡ some n → Has t n l
unfolding get
Has-get t n [] h = absurd (cc)
Has-get t n ((u, c) ∷ l) h = elim (ℕ_discrete u t) [
  | yes p ↦ inl (p, ground arith)
  | no q ↦ inr (Has-get t n l (ground arith))
]

get-Has :
    (t n : ℕ) (l : List (ℕ × ℕ)) → Distinct ℕ_discrete l → Has t n l → get ℕ_discrete t l ≡ some n
unfolding get
get-Has t n [] d h = absurd h
get-Has t n ((u, c) ∷ l) d (inl (p, q)) = ground arith
get-Has t n ((u, c) ∷ l) d (inr h) = let g = get-Has t n l d.1 h in ground arith

-- The second entry is more frequent, or as frequent and not earlier.
abbrev pub Yields : ℕ × ℕ → ℕ × ℕ → Type 0
Yields (t, n) (u, c) = (n < c) ⊎ ((n ≡ c) × (t ≤ u))

later-Yields :
    (e best : ℕ × ℕ)
    → Yields e (later e best)
      × Yields best (later e best)
      × ((later e best ≡ e) ⊎ (later e best ≡ best))
unfolding later
later-Yields (t, n) (u, c) = elim (Bool-cases (n == c && ltb u t)) [
  | inl a ↦
      let same_count : n ≡ c = ground arith in
      let younger : u < t = ground arith in
      rw a (
        inr (same_count, omega arith),
        inr (refl, omega (arith, younger)),
        inl (ap (λ x. (t, x)) (sym same_count)),
      )
  | inr a ↦ elim (Bool-cases (ltb c n)) [
    | inl b ↦
        let more : c < n = ground arith in rw (a, b) (inr (refl, omega arith), inl more, inl refl)
    | inr b ↦
        let old : (n < c) ⊎ ((n ≡ c) × (t ≤ u)) = ground arith in
        rw (a, b) (old, inr (refl, omega arith), inr refl)
  ]
]

Yields-trans : (a b c : ℕ × ℕ) → Yields a b → Yields b c → Yields a c
Yields-trans (t, n) (u, m) (v, k) h g = omega arith

-- Every entry yields to the result, which is what the loop began with or an entry.
latest-Yields :
    (l : List (ℕ × ℕ)) (best : ℕ × ℕ)
    → Yields best (latest l best)
      × ((t n : ℕ) → Has t n l → Yields (t, n) (latest l best))
      × ((latest l best ≡ best) ⊎ Has (latest l best).0 (latest l best).1 l)
unfolding latest
latest-Yields [] best = (inr (refl, omega arith), (λ t n h. absurd h), inl refl)
latest-Yields ((u, c) ∷ l) best =
    let best' = later (u, c) best in
    let (up, all, found) = latest-Yields l best' in
    let (of_entry, of_best, is_one) = later-Yields (u, c) best in
    (
      Yields-trans best best' (latest l best') of_best up,
      λ t n h. elim h [
        | inl (p, q) ↦
            subst (λ x. Yields x (latest l best')) (ap₂ (λ x y. (x, y)) p q)
              (Yields-trans (u, c) best' (latest l best') of_entry up)
        | inr k ↦ all t n k
      ],
      elim found [
        | inr h ↦ inr (inr h)
        | inl e ↦ elim is_one [
          | inl f ↦ inr (inl (ap (λ x. x.0) (sym (e ∙ f)), ap (λ x. x.1) (sym (e ∙ f))))
          | inr f ↦ inl (e ∙ f)
        ]
      ],
    )

module _ (shuffle : List (ℕ × ℕ) → List (ℕ × ℕ)) (fair : IsShuffle shuffle) (times : List ℕ) where
  counted : (t n : ℕ) → Has t n (shuffle (time_counts times [])) → n ≡ occurrences t times
  unfolding get
  counted t n h =
      let l = time_counts times [] in
      let g = get-Has t n l (time_counts-Distinct times [] tt) ((fair l t n).0 h) in
      let c = count-time_counts t times [] in ground arith

  listed :
      (t : ℕ)
      → 0 < occurrences t times
      → Has t (occurrences t times) (shuffle (time_counts times []))
  unfolding get
  listed t p =
      let l = time_counts times [] in
      let c = count-time_counts t times [] in
      (fair l t (occurrences t times)).1 (elim (Option-cases (get ℕ_discrete t l)) [
        | inl z ↦ absurd (ground arith)
        | inr (n, z) ↦ Has-get t (occurrences t times) l (ground arith)
      ])

zero_or_more : (n : ℕ) → (n ≡ 0) ⊎ (0 < n)
zero_or_more n = omega arith

-- How often a time occurs is its count, and every time that occurs is less frequent, or as frequent
-- and not later.
abbrev pub IsCommon : List ℕ → ℕ × ℕ → Type 0
IsCommon times (t, n) =
    (n ≡ occurrences t times)
    × ((u : ℕ) → 0 < occurrences u times → Yields (u, occurrences u times) (t, n))

-- In whatever order the map is walked, `commonTime` returns the time that occurs most often, the
-- sentinel aside, and the latest of these where there are several, with how often it occurs.
pub common_time-IsCommon :
    (shuffle : List (ℕ × ℕ) → List (ℕ × ℕ)) (times : List ℕ)
    → IsShuffle shuffle
    → IsCommon times (common_time shuffle times)
unfolding common_time
common_time-IsCommon shuffle times fair =
    let l = shuffle (time_counts times []) in
    let (_, all, found) = latest-Yields l (0, 0) in
    let below : (u : ℕ)
        → 0 < occurrences u times
        → Yields (u, occurrences u times) (latest l (0, 0)) =
      λ u p. all u (occurrences u times) (listed shuffle fair times u p) in
    (
      elim found [
        | inr h ↦ counted shuffle fair times (latest l (0, 0)).0 (latest l (0, 0)).1 h
        | inl e ↦ elim (zero_or_more (occurrences (latest l (0, 0)).0 times)) [
          | inl z ↦ ap (λ x. x.1) e ∙ sym z
          | inr p ↦
              let most = below (latest l (0, 0)).0 p in
              let zero_count = ap (λ x. x.1) e in absurd (omega (arith, p, most, zero_count))
        ]
      ],
      below,
    )

nothing_counted :
    (times : List ℕ) (counts : List (ℕ × ℕ))
    → ((u : ℕ) → occurrences u times ≡ 0)
    → time_counts times counts ≡ counts
unfolding time_counts
nothing_counted [] counts h = refl
nothing_counted (t ∷ times) counts h = elim (Bool-cases (t == time_sentinel)) [
  | inl i ↦ rw i (nothing_counted times counts (λ u. omega (arith, h u)))
  | inr i ↦ absurd (let z = h t in ground arith)
]

nothing_listed : (l : List (ℕ × ℕ)) → ((t n : ℕ) → Has t n l → ⊥) → l ≡ []
nothing_listed [] h = refl
nothing_listed ((t, n) ∷ l) h = absurd (h t n (inl (refl, refl)))

start : (latest [] (0, 0)).0 ≡ 0
unfolding latest
start = refl

-- Without a time but the sentinel, it is the zero time.
pub no_times :
    (shuffle : List (ℕ × ℕ) → List (ℕ × ℕ)) (times : List ℕ)
    → IsShuffle shuffle
    → ((u : ℕ) → occurrences u times ≡ 0)
    → (common_time shuffle times).0 ≡ 0
unfolding common_time
no_times shuffle times fair none_there =
    let empty : shuffle (time_counts times []) ≡ [] =
      ap shuffle (nothing_counted times [] none_there)
      ∙ nothing_listed (shuffle []) (λ t n h. (fair [] t n).0 h) in
    ap (λ l. (latest l (0, 0)).0) empty ∙ start

-- The result does not depend on the order in which the map is walked, where some time occurs.
pub common_time-order :
    (shuffle shuffle' : List (ℕ × ℕ) → List (ℕ × ℕ)) (times : List ℕ) (u : ℕ)
    → IsShuffle shuffle
    → IsShuffle shuffle'
    → 0 < occurrences u times
    → common_time shuffle times ≡ common_time shuffle' times
common_time-order shuffle shuffle' times u fair fair' p =
    let r = common_time shuffle times in
    let r' = common_time shuffle' times in
    let (n, below) = common_time-IsCommon shuffle times fair in
    let (n', below') = common_time-IsCommon shuffle' times fair' in
    let up = below u p in
    let up' = below' u p in
    let left = below' r.0 (omega (arith, n, up)) in
    let right = below r'.0 (omega (arith, n', up')) in
    ap₂ (λ x y. (x, y)) (omega (arith, n, n', left, right)) (omega (arith, n, n', left, right))
