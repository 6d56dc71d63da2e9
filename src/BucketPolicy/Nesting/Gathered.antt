-- ===== src/BucketPolicy/Nesting/Gathered.antt =====
-- The resources that `checkBucketPolicyResources` of cmd/bucket-policy-parser.go collects.
use mathlib.Core.Path.{subst}
use minio.Base.{
  none, some, ◌≡◌, refl, ap, ◌∙◌, Bool, true, false, not, ◌&&◌, ◌||◌, List, [], ◌∷◌, ◌++◌, arith,
  any, All, if◌then◌else◌, inl, inr, Bool-cases,
}
use minio.Base.Text.{Text, codes, same, same_iff}
use minio.BucketPolicy.{StringSet, PolicyStatement, bucket_arn_prefix}
use minio.BucketPolicy.Nesting.{invalid_prefix_actions, split_after_second, add}
use minio.BucketPolicy.Nesting.Checked.{gather, gather_resources, gather_actions, gather_statements}
use minio.BucketPolicy.Nesting.Paths.{
  IsProper, is_whole, any_invalid, split_after_second-Names, same_append,
}

-- Whether a path is among the resources of some statement that has an action on something in a bucket.
abbrev pub listed : List PolicyStatement → Text → Bool
listed statements path =
    any
      (λ statement.
        any (λ action. not (is_whole action)) statement.actions
        && any (λ resource. same resource (codes "arn:aws:s3:::" ++ path)) statement.resources)
      statements

abbrev pub IsProperStatement : PolicyStatement → Type 0
IsProperStatement statement = All IsProper statement.resources

same_sym : (a b : Text) → same a b ≡ same b a
same_sym a b = ground arith

any-add : (x p : Text) (acc : StringSet) → any (same x) (add p acc) ≡ (same p x || any (same x) acc)
any-add x p acc = elim (Bool-cases (any (same p) acc)) [
  | inr f ↦ rw (f, same_sym p x) refl
  | inl t ↦ elim (Bool-cases (same p x)) [
    | inr g ↦ rw (t, g) refl
    | inl s ↦ let m = subst (λ y. any (same y) acc ≡ true) ((same_iff p x).0 s) t in rw (t, s) m
  ]
]

any-gather :
    (x action resource : Text) (acc : StringSet)
    → IsProper resource
    → any (same x) (gather action resource acc)
      ≡ ((not (is_whole action) && same resource (codes "arn:aws:s3:::" ++ x)) || any (same x) acc)
any-gather x action resource acc (path, n) =
    let split = split_after_second-Names resource path n in
    let at : same resource (codes "arn:aws:s3:::" ++ x) ≡ same path x =
      ap (λ r. same r (codes "arn:aws:s3:::" ++ x)) n.0
      ∙ same_append (codes "arn:aws:s3:::") path x in
    elim (Bool-cases (is_whole action)) [
      | inl t ↦ rw (split, any_invalid action, t, gather) refl
      | inr f ↦ rw (split, any_invalid action, f, at, gather) (any-add x path acc)
    ]

either : (a b c d : Bool) → ((a && b) || ((a && c) || d)) ≡ ((a && (b || c)) || d)
either true b c d = ground arith
either false b c d = refl

joined : (a b c d : Bool) → ((a && c) || ((b && c) || d)) ≡ (((a || b) && c) || d)
joined a b c d = ground arith

grouped : (a b c : Bool) → (a || (b || c)) ≡ ((a || b) || c)
grouped a b c = ground arith

or_false : (a : Bool) → (a || false) ≡ a
or_false a = ground arith

swapped : (a b c : Bool) → (a || (b || c)) ≡ (b || (a || c))
swapped a b c = ground arith

any-gather_resources :
    (x action : Text) (resources : List Text) (acc : StringSet)
    → All IsProper resources
    → any (same x) (gather_resources action resources acc) ≡ (
        (not (is_whole action)
          && any (λ resource. same resource (codes "arn:aws:s3:::" ++ x)) resources)
        || any (same x) acc)
any-gather_resources x action [] acc h = ground arith
any-gather_resources x action (resource ∷ resources) acc h =
    let named = λ (r : Text). same r (codes "arn:aws:s3:::" ++ x) in
    any-gather_resources x action resources (gather action resource acc) h.1
    ∙ (ap (λ b. (not (is_whole action) && any named resources) || b)
          (any-gather x action resource acc h.0)
        ∙ (swapped (not (is_whole action) && any named resources)
              (not (is_whole action) && named resource) (any (same x) acc)
            ∙ either (not (is_whole action)) (named resource) (any named resources)
                (any (same x) acc)))

any-gather_actions :
    (x : Text) (actions : List Text) (resources : List Text) (acc : StringSet)
    → All IsProper resources
    → any (same x) (gather_actions actions resources acc) ≡ (
        (any (λ action. not (is_whole action)) actions
          && any (λ resource. same resource (codes "arn:aws:s3:::" ++ x)) resources)
        || any (same x) acc)
any-gather_actions x [] resources acc h = refl
any-gather_actions x (action ∷ actions) resources acc h =
    let part = λ (a : Text). not (is_whole a) in
    let found = any (λ resource. same resource (codes "arn:aws:s3:::" ++ x)) resources in
    any-gather_actions x actions resources (gather_resources action resources acc) h
    ∙ (ap (λ b. (any part actions && found) || b) (any-gather_resources x action resources acc h)
        ∙ (swapped (any part actions && found) (part action && found) (any (same x) acc)
            ∙ joined (part action) (any part actions) found (any (same x) acc)))

-- Exactly the paths that are listed are collected.
any-gather_statements :
    (x : Text) (statements : List PolicyStatement) (acc : StringSet)
    → All IsProperStatement statements
    → any (same x) (gather_statements statements acc) ≡ (listed statements x || any (same x) acc)
any-gather_statements x [] acc h = refl
any-gather_statements x (statement ∷ statements) acc h =
    let here =
      any (λ action. not (is_whole action)) statement.actions
      && any (λ resource. same resource (codes "arn:aws:s3:::" ++ x)) statement.resources in
    any-gather_statements x statements (gather_actions statement.actions statement.resources acc)
      h.1
    ∙ (ap (λ b. listed statements x || b)
          (any-gather_actions x statement.actions statement.resources acc h.0)
        ∙ (swapped (listed statements x) here (any (same x) acc)
            ∙ grouped here (listed statements x) (any (same x) acc)))

-- Every text once.
abbrev pub Once : StringSet → Type 0
Once [] = Unit
Once (x ∷ l) = (any (same x) l ≡ false) × Once l

add-Once : (p : Text) (acc : StringSet) → Once acc → Once (add p acc)
add-Once p acc h = elim (Bool-cases (any (same p) acc)) [ inl t ↦ rw t h | inr f ↦ rw f (f, h) ]

gather-Once :
    (action resource : Text) (acc : StringSet) → Once acc → Once (gather action resource acc)
gather-Once action resource acc h =
    elim (split_after_second resource bucket_arn_prefix)
      as (λ o. Once (elim o [
        | none ↦ acc
        | some prefix ↦ if any (same action) invalid_prefix_actions then acc else add prefix acc
      ])) [
        | none ↦ h
        | some prefix ↦ elim (Bool-cases (any (same action) invalid_prefix_actions)) [
          | inl t ↦ rw t h
          | inr f ↦ rw f (add-Once prefix acc h)
        ]
      ]

gather_resources-Once :
    (action : Text) (resources : List Text) (acc : StringSet)
    → Once acc
    → Once (gather_resources action resources acc)
gather_resources-Once action [] acc h = h
gather_resources-Once action (resource ∷ resources) acc h =
    gather_resources-Once action resources (gather action resource acc)
      (gather-Once action resource acc h)

gather_actions-Once :
    (actions resources : List Text) (acc : StringSet)
    → Once acc
    → Once (gather_actions actions resources acc)
gather_actions-Once [] resources acc h = h
gather_actions-Once (action ∷ actions) resources acc h =
    gather_actions-Once actions resources (gather_resources action resources acc)
      (gather_resources-Once action resources acc h)

gather_statements-Once :
    (statements : List PolicyStatement) (acc : StringSet)
    → Once acc
    → Once (gather_statements statements acc)
gather_statements-Once [] acc h = h
gather_statements-Once (statement ∷ statements) acc h =
    gather_statements-Once statements (gather_actions statement.actions statement.resources acc)
      (gather_actions-Once statement.actions statement.resources acc h)

pub collected-Once : (statements : List PolicyStatement) → Once (gather_statements statements [])
collected-Once statements = gather_statements-Once statements [] tt

pub collected_listed :
    (x : Text) (statements : List PolicyStatement)
    → All IsProperStatement statements
    → any (same x) (gather_statements statements []) ≡ listed statements x
collected_listed x statements h =
    any-gather_statements x statements [] h ∙ or_false (listed statements x)
