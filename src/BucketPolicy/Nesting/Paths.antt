-- ===== src/BucketPolicy/Nesting/Paths.antt =====
-- The texts that `checkBucketPolicyResources` of cmd/bucket-policy-parser.go takes out of a resource.
use minio.Base.{
  ℕ, ◌≡◌, ◌≢◌, ◌⊎◌, refl, sym, ap, ap₂, ◌∙◌, Bool, true, false, ◌||◌, [], ◌∷◌, ◌++◌, Option, none,
  some, arith, ◌==◌, if◌then◌else◌, any, All, inl, inr, Bool-cases, Option-cases,
}
use minio.Base.Text.{Text, codes, same, same_iff, has_prefix, has_prefix_iff}
use minio.BucketPolicy.{bucket_arn_prefix}
use minio.BucketPolicy.Nesting.{
  invalid_prefix_actions, cut_after, split_after_second, before_slash, resource_prefix,
}

-- A resource that is the ARN prefix and a path, in which the prefix does not occur again.
abbrev pub Names : Text → Text → Type 0
Names resource path =
    (resource ≡ codes "arn:aws:s3:::" ++ path)
    × ((a b : Text) → path ≢ a ++ (codes "arn:aws:s3:::" ++ b))

abbrev pub IsProper : Text → Type 0
IsProper resource = (path : Text) × Names resource path

-- The actions on a bucket as a whole.
abbrev pub is_whole : Text → Bool
is_whole action =
    same action (codes "s3:GetBucketLocation")
    || (same action (codes "s3:ListBucket") || same action (codes "s3:ListBucketMultipartUploads"))

-- The resource is the bucket, or for the other actions also something in the bucket.
abbrev pub lies : Text → Text → Text → Bool
lies bucket action resource =
    if is_whole action
    then same resource (codes "arn:aws:s3:::" ++ bucket)
    else same resource (codes "arn:aws:s3:::" ++ bucket)
      || has_prefix resource (codes "arn:aws:s3:::" ++ (bucket ++ codes "/"))

-- A text without the star at its end, if it has one there.
abbrev pub Unstarred : Text → Text → Type 0
Unstarred t u = (t ≡ u ++ codes "*") ⊎ ((t ≡ u) × ((v : Text) → t ≢ v ++ codes "*"))

pub any_invalid : (action : Text) → any (same action) invalid_prefix_actions ≡ is_whole action
any_invalid action = ground arith

cut_after-found :
    (sep s piece rest : Text)
    → cut_after sep s ≡ some (piece, rest)
    → (a : Text) × (b : Text) × (s ≡ a ++ (sep ++ b))
unfolding cut_after
cut_after-found sep [] piece rest h = absurd (cc)
cut_after-found sep (x ∷ s) piece rest h = elim (Bool-cases (has_prefix (x ∷ s) sep)) [
  | inl t ↦ let (b, e) = (has_prefix_iff (x ∷ s) sep).0 t in ([], b, e)
  | inr f ↦ elim (Option-cases (cut_after sep s)) [
    | inl e ↦
        absurd
          (let h' : ◌≡◌ {A = Option (Text × Text)} none (some (piece, rest)) = rw (f, e) at h in cc)
    | inr ((piece', rest'), e) ↦
        let (a, b, j) = cut_after-found sep s piece' rest' e in (x ∷ a, b, ap (◌∷◌ x) j)
  ]
]

cut_after-prefix :
    (path : Text)
    → cut_after bucket_arn_prefix (bucket_arn_prefix ++ path) ≡ some (bucket_arn_prefix, path)
unfolding cut_after
cut_after-prefix path =
    let t = (has_prefix_iff (bucket_arn_prefix ++ path) bucket_arn_prefix).1 (path, refl) in
    rw t refl

pub split_after_second-Names :
    (resource path : Text)
    → Names resource path
    → split_after_second resource bucket_arn_prefix ≡ some path
unfolding split_after_second
split_after_second-Names resource path (e, n) =
    let first : cut_after bucket_arn_prefix resource ≡ some (bucket_arn_prefix, path) =
      ap (cut_after bucket_arn_prefix) e ∙ cut_after-prefix path in
    elim (Option-cases (cut_after bucket_arn_prefix path)) [
      | inl f ↦ rw (first, f, split_after_second) refl
      | inr ((piece, rest), f) ↦
          let (a, b, j) = cut_after-found bucket_arn_prefix path piece rest f in absurd (n a b j)
    ]

same_cons : (c : ℕ) (x y : Text) → same (c ∷ x) (c ∷ y) ≡ same x y
same_cons c x y = elim (Bool-cases (same x y)) [
  | inl t ↦ rw t ((same_iff (c ∷ x) (c ∷ y)).1 (ap (◌∷◌ c) ((same_iff x y).0 t)))
  | inr f ↦ elim (Bool-cases (same (c ∷ x) (c ∷ y))) [
    | inr g ↦ rw (f, g) refl
    | inl t ↦
        let e : c ∷ x ≡ c ∷ y = (same_iff (c ∷ x) (c ∷ y)).0 t in
        let e' : x ≡ y = cc in absurd (let t' = (same_iff x y).1 e' in ground arith)
  ]
]

pub same_append : (p x y : Text) → same (p ++ x) (p ++ y) ≡ same x y
same_append [] x y = refl
same_append (c ∷ p) x y = same_cons c (p ++ x) (p ++ y) ∙ same_append p x y

has_prefix-append : (p x y : Text) → has_prefix (p ++ x) (p ++ y) ≡ has_prefix x y
unfolding has_prefix
has_prefix-append [] x y = refl
has_prefix-append (c ∷ p) x y = let r = has_prefix-append p x y in ground arith

differ : (c d : ℕ) (x y : Text) → (c == d) ≡ false → same (c ∷ x) (d ∷ y) ≡ false
differ c d x y h = ground arith

same_empty : same [] [] ≡ true
same_empty = (same_iff [] []).1 refl

empty_same : (c : ℕ) (s : Text) → same [] (c ∷ s) ≡ false
empty_same c s = ground arith

same_nil : (c : ℕ) (s : Text) → same (c ∷ s) [] ≡ false
same_nil c s = ground arith

-- What stands before the first slash is a bucket.
before_slash-same :
    (bucket path : Text)
    → All (λ c. c ≢ 47) bucket
    → same (before_slash path) bucket ≡ (same path bucket || has_prefix path (bucket ++ codes "/"))
unfolding before_slash has_prefix
before_slash-same [] [] h = rw same_empty refl
before_slash-same (c ∷ bucket) [] h = rw (empty_same c bucket) refl
before_slash-same [] (x ∷ path) h = elim (Bool-cases (x == 47)) [
  | inl t ↦ rw (t, same_empty, same_nil x path) refl
  | inr f ↦ rw (f, same_nil x (before_slash path), same_nil x path) refl
]
before_slash-same (c ∷ bucket) (x ∷ path) h = elim (Bool-cases (x == 47)) [
  | inl t ↦
      let other : (x == c) ≡ false = let n = h.0 in ground arith in
      rw (t, other, empty_same c bucket, differ x c path bucket other) refl
  | inr f ↦ elim (Bool-cases (x == c)) [
    | inl t ↦
        let e : x ≡ c = ground arith in
        let ih = before_slash-same bucket path h.1 in
        let left : same (x ∷ before_slash path) (c ∷ bucket) ≡ same (before_slash path) bucket =
          ap (λ y. same (y ∷ before_slash path) (c ∷ bucket)) e
          ∙ same_cons c (before_slash path) bucket in
        let right : same (x ∷ path) (c ∷ bucket) ≡ same path bucket =
          ap (λ y. same (y ∷ path) (c ∷ bucket)) e ∙ same_cons c path bucket in
        rw (f, t, left, right) ih
    | inr g ↦ rw (f, g, differ x c (before_slash path) bucket g, differ x c path bucket g) refl
  ]
]

resource_prefix-star : (u : Text) → resource_prefix (u ++ codes "*") ≡ u
unfolding resource_prefix
resource_prefix-star [] = refl
resource_prefix-star (x ∷ []) = refl
resource_prefix-star (x ∷ y ∷ u) = ap (◌∷◌ x) (resource_prefix-star (y ∷ u))

resource_prefix-plain : (u : Text) → ((v : Text) → u ≢ v ++ codes "*") → resource_prefix u ≡ u
unfolding resource_prefix
resource_prefix-plain [] n = refl
resource_prefix-plain (x ∷ []) n = elim (Bool-cases (x == 42)) [
  | inl t ↦ let e : x ≡ 42 = ground arith in absurd (n [] (ap (λ y. y ∷ []) e))
  | inr f ↦ rw f refl
]
resource_prefix-plain (x ∷ y ∷ u) n =
    ap (◌∷◌ x) (resource_prefix-plain (y ∷ u) (λ v e. n (x ∷ v) (ap (◌∷◌ x) e)))

pub resource_prefix_unique : (t u : Text) → Unstarred t u → u ≡ resource_prefix t
resource_prefix_unique t u (inl e) = sym (ap resource_prefix e ∙ resource_prefix-star u)
resource_prefix_unique t u (inr (e, n)) = sym (resource_prefix-plain t n ∙ e)

not_empty : (v : Text) → ◌≢◌ {A = Text} [] (v ++ codes "*")
not_empty [] e = absurd (cc)
not_empty (x ∷ v) e = absurd (cc)

not_one : (x : ℕ) → (x == 42) ≡ false → (v : Text) → ◌≢◌ {A = Text} (x ∷ []) (v ++ codes "*")
not_one x f [] e = let e' : x ≡ 42 = cc in ground arith
not_one x f (y ∷ v) e = let e' : ◌≡◌ {A = Text} [] (v ++ codes "*") = cc in not_empty v e'

not_more :
    (x y : ℕ) (t : Text)
    → ((v : Text) → ◌≢◌ {A = Text} (y ∷ t) (v ++ codes "*"))
    → (v : Text) → ◌≢◌ {A = Text} (x ∷ y ∷ t) (v ++ codes "*")
not_more x y t n [] e = absurd (cc)
not_more x y t n (z ∷ v) e = let e' : ◌≡◌ {A = Text} (y ∷ t) (v ++ codes "*") = cc in n v e'

pub resource_prefix-Unstarred : (t : Text) → Unstarred t (resource_prefix t)
unfolding resource_prefix
resource_prefix-Unstarred [] = inr (refl, not_empty)
resource_prefix-Unstarred (x ∷ []) = elim (Bool-cases (x == 42)) [
  | inl t ↦ rw t (inl (ap (λ y. y ∷ []) (let e : x ≡ 42 = ground arith in e)))
  | inr f ↦ rw f (inr (refl, not_one x f))
]
resource_prefix-Unstarred (x ∷ y ∷ t) = elim (resource_prefix-Unstarred (y ∷ t)) [
  | inl e ↦ inl (ap (◌∷◌ x) e)
  | inr (e, n) ↦ inr (ap (◌∷◌ x) e, not_more x y t n)
]

-- A resource is in the bucket for an action, as `checkBucketPolicyResources` reads both, exactly when it
-- lies there.
pub lies_within :
    (bucket action resource path : Text)
    → All (λ c. c ≢ 47) bucket
    → Names resource path
    → (if any (same action) invalid_prefix_actions
        then same path bucket
        else same (before_slash path) bucket)
      ≡ lies bucket action resource
lies_within bucket action resource path plain (e, _) =
    let arn = codes "arn:aws:s3:::" in
    let whole : same resource (arn ++ bucket) ≡ same path bucket =
      ap (λ r. same r (arn ++ bucket)) e ∙ same_append arn path bucket in
    let inside : has_prefix resource (arn ++ (bucket ++ codes "/"))
        ≡ has_prefix path (bucket ++ codes "/") =
      ap (λ r. has_prefix r (arn ++ (bucket ++ codes "/"))) e
      ∙ has_prefix-append arn path (bucket ++ codes "/") in
    ap₂ (λ a b. if a then same path bucket else b) (any_invalid action)
      (before_slash-same bucket path plain)
    ∙ ap₂ (λ a b. if is_whole action then a else (a || b)) (sym whole) (sym inside)
