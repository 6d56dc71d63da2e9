-- ===== src/BucketPolicy/Nesting/Checked.antt =====
-- What `checkBucketPolicyResources` of cmd/bucket-policy-parser.go accepts.
use mathlib.Core.Path.{subst}
use minio.Base.{
  ◌≡◌, ◌↔◌, ◌⊎◌, refl, sym, ap, ◌∙◌, Bool, true, false, not, ◌&&◌, List, [], ◌∷◌, none, some,
  if◌then◌else◌, all, any, map, inl, inr,
}
use minio.Base.Text.{Text, same}
use minio.BucketPolicy.{StringSet, PolicyStatement, BucketPolicy, bucket_arn_prefix}
use minio.BucketPolicy.Nesting.{
  PolicyCode, no_error, malformed_policy, policy_nesting, index_panic, invalid_prefix_actions,
  split_after_second, before_slash, resource_prefix, Collected, collected, refused, add,
  check_resource, check_resources, check_actions, collect_resources, any_nested, sort_texts,
  check_bucket_policy_resources,
}
use minio.BucketPolicy.Nesting.Sorted.{any_pair, any_nested-sort_texts}

-- A resource is the bucket, for an action without prefixes, or lies in it.
abbrev pub inside_bucket : Text → Text → Text → Bool
inside_bucket bucket action resource = elim (split_after_second resource bucket_arn_prefix) [
  | none ↦ false
  | some prefix ↦
      if any (same action) invalid_prefix_actions
      then same prefix bucket
      else same (before_slash prefix) bucket
]

-- The resources of the other actions, each once.
abbrev pub gather : Text → Text → StringSet → StringSet
gather action resource acc = elim (split_after_second resource bucket_arn_prefix) [
  | none ↦ acc
  | some prefix ↦ if any (same action) invalid_prefix_actions then acc else add prefix acc
]

abbrev pub gather_resources : Text → List Text → StringSet → StringSet
gather_resources action [] acc = acc
gather_resources action (resource ∷ resources) acc =
    gather_resources action resources (gather action resource acc)

abbrev pub gather_actions : List Text → List Text → StringSet → StringSet
gather_actions [] resources acc = acc
gather_actions (action ∷ actions) resources acc =
    gather_actions actions resources (gather_resources action resources acc)

abbrev pub gather_statements : List PolicyStatement → StringSet → StringSet
gather_statements [] acc = acc
gather_statements (statement ∷ statements) acc =
    gather_statements statements (gather_actions statement.actions statement.resources acc)

-- A check collects the resources where a test holds, and refuses the policy elsewhere.
abbrev Checks : Bool → StringSet → Collected → Type 0
Checks ok m (collected n) = (ok ≡ true) × (n ≡ m)
Checks ok m (refused code) = (ok ≡ false) × ((code ≡ malformed_policy) ⊎ (code ≡ index_panic))

tests_checked :
    (a b c : Bool) (m n : StringSet)
    → Checks (if a then b else c) (if a then m else n) (
        if a
        then (if not b then refused malformed_policy else collected m)
        else if not c
        then refused malformed_policy
        else collected n)
tests_checked true true c m n = (refl, refl)
tests_checked true false c m n = (refl, inl refl)
tests_checked false b true m n = (refl, refl)
tests_checked false b false m n = (refl, inl refl)

-- One check after the other.
checked_then :
    (ok ok' : Bool) (m m' : StringSet) (r : Collected) (next : StringSet → Collected)
    → Checks ok m r
    → Checks ok' m' (next m)
    → Checks (ok && ok') m' (elim r [ refused code ↦ refused code | collected more ↦ next more ])
checked_then ok ok' m m' (refused code) next (f, w) h = rw f (refl, w)
checked_then ok ok' m m' (collected n) next (t, e) h =
    rw t (subst (λ k. Checks ok' m' (next k)) (sym e) h)

abbrev after : Collected → PolicyCode
after (refused code) = code
after (collected resource_map) =
    if any_nested (sort_texts (map resource_prefix resource_map)) then policy_nesting else no_error

abbrev Verdict : Bool → Bool → PolicyCode → Type 0
Verdict ok b code =
    ((code ≡ no_error) ↔ ((ok ≡ true) × (b ≡ false)))
    × ((code ≡ policy_nesting) ↔ ((ok ≡ true) × (b ≡ true)))

accepted : (ok b : Bool) → ok ≡ true → Verdict ok b (if b then policy_nesting else no_error)
accepted ok true t = ((λ h. absurd (cc), λ h. absurd (cc)), (λ h. (t, refl), λ h. refl))
accepted ok false t = ((λ h. (t, refl), λ h. refl), (λ h. absurd (cc), λ h. absurd (cc)))

rejected :
    (ok b : Bool) (code : PolicyCode)
    → ok ≡ false
    → (code ≡ malformed_policy) ⊎ (code ≡ index_panic)
    → Verdict ok b code
rejected ok b code f (inl e) =
    ((λ h. absurd (cc), λ (t, _). absurd (cc)), (λ h. absurd (cc), λ (t, _). absurd (cc)))
rejected ok b code f (inr e) =
    ((λ h. absurd (cc), λ (t, _). absurd (cc)), (λ h. absurd (cc), λ (t, _). absurd (cc)))

module _ (bucket : Text) where
  check_resource-Checks :
      (action resource : Text) (acc : StringSet)
      → Checks
          (inside_bucket bucket action resource)
          (gather action resource acc)
          (check_resource bucket action resource acc)
  unfolding check_resource
  check_resource-Checks action resource acc =
      elim (split_after_second resource bucket_arn_prefix)
        as (λ o.
          Checks
            (elim o [
              | none ↦ false
              | some prefix ↦
                  if any (same action) invalid_prefix_actions
                  then same prefix bucket
                  else same (before_slash prefix) bucket
            ])
            (elim o [
              | none ↦ acc
              | some prefix ↦
                  if any (same action) invalid_prefix_actions then acc else add prefix acc
            ])
            (elim o [
              | none ↦ refused index_panic
              | some prefix ↦
                  if any (same action) invalid_prefix_actions
                  then (if not (same prefix bucket)
                      then refused malformed_policy
                      else collected acc)
                  else if not (same (before_slash prefix) bucket)
                  then refused malformed_policy
                  else collected (add prefix acc)
            ])) [
              | none ↦ (refl, inr refl)
              | some prefix ↦
                  tests_checked (any (same action) invalid_prefix_actions) (same prefix bucket)
                    (same (before_slash prefix) bucket) acc (add prefix acc)
            ]

  check_resources-Checks :
      (action : Text) (resources : List Text) (acc : StringSet)
      → Checks
          (all (inside_bucket bucket action) resources)
          (gather_resources action resources acc)
          (check_resources bucket action resources acc)
  unfolding check_resources
  check_resources-Checks action [] acc = (refl, refl)
  check_resources-Checks action (resource ∷ resources) acc =
      checked_then (inside_bucket bucket action resource)
        (all (inside_bucket bucket action) resources) (gather action resource acc)
        (gather_resources action resources (gather action resource acc))
        (check_resource bucket action resource acc) (check_resources bucket action resources)
        (check_resource-Checks action resource acc)
        (check_resources-Checks action resources (gather action resource acc))

  check_actions-Checks :
      (actions resources : List Text) (acc : StringSet)
      → Checks
          (all (λ action. all (inside_bucket bucket action) resources) actions)
          (gather_actions actions resources acc)
          (check_actions bucket actions resources acc)
  unfolding check_actions
  check_actions-Checks [] resources acc = (refl, refl)
  check_actions-Checks (action ∷ actions) resources acc =
      checked_then (all (inside_bucket bucket action) resources)
        (all (λ a. all (inside_bucket bucket a) resources) actions)
        (gather_resources action resources acc)
        (gather_actions actions resources (gather_resources action resources acc))
        (check_resources bucket action resources acc) (check_actions bucket actions resources)
        (check_resources-Checks action resources acc)
        (check_actions-Checks actions resources (gather_resources action resources acc))

  -- Every resource of a statement lies in the bucket, for every action of it.
  abbrev pub within : PolicyStatement → Bool
  within statement =
      all (λ action. all (inside_bucket bucket action) statement.resources) statement.actions

  collect_resources-Checks :
      (statements : List PolicyStatement) (acc : StringSet)
      → Checks
          (all within statements)
          (gather_statements statements acc)
          (collect_resources bucket statements acc)
  unfolding collect_resources
  collect_resources-Checks [] acc = (refl, refl)
  collect_resources-Checks (statement ∷ statements) acc =
      checked_then (within statement) (all within statements)
        (gather_actions statement.actions statement.resources acc)
        (gather_statements statements (gather_actions statement.actions statement.resources acc))
        (check_actions bucket statement.actions statement.resources acc)
        (collect_resources bucket statements)
        (check_actions-Checks statement.actions statement.resources acc)
        (collect_resources-Checks statements
          (gather_actions statement.actions statement.resources acc))

  -- The resources of a policy without the stars at their ends, but those of actions without prefixes,
  -- each once before the stars are taken off.
  abbrev pub prefixes : BucketPolicy → List Text
  prefixes policy = map resource_prefix (gather_statements policy.statements [])

  -- checkBucketPolicyResources accepts a policy exactly when, for every action, every resource of the
  -- same statement lies in the bucket, or is the bucket for an action without prefixes, and of the
  -- other actions' resources no one is a prefix of another, in whatever order the set yields them; where all
  -- lie in the bucket and one is a prefix of another, the error is ErrPolicyNesting.
  pub check_bucket_policy_resources-prefixes :
      (policy : BucketPolicy)
      → ((check_bucket_policy_resources bucket policy ≡ no_error)
          ↔ ((all within policy.statements ≡ true) × (any_pair (prefixes policy) ≡ false)))
        × ((check_bucket_policy_resources bucket policy ≡ policy_nesting)
            ↔ ((all within policy.statements ≡ true) × (any_pair (prefixes policy) ≡ true)))
  unfolding check_bucket_policy_resources
  check_bucket_policy_resources-prefixes policy =
      let sorted = any_nested-sort_texts in
      elim (collect_resources bucket policy.statements [])
          as (λ r.
            Checks (all within policy.statements) (gather_statements policy.statements []) r
            → ((after r ≡ no_error)
                ↔ ((all within policy.statements ≡ true) × (any_pair (prefixes policy) ≡ false)))
              × ((after r ≡ policy_nesting) ↔ (
                  (all within policy.statements ≡ true) × (any_pair (prefixes policy) ≡ true)))) [
                    | collected n ↦ λ (t, e).
                        let nest =
                          sorted (map resource_prefix n)
                          ∙ ap (λ k. any_pair (map resource_prefix k)) e in
                        rw nest
                          (accepted (all within policy.statements) (any_pair (prefixes policy)) t)
                    | refused code ↦ λ (f, w).
                        rejected (all within policy.statements) (any_pair (prefixes policy)) code f
                          w
                  ]
        (collect_resources-Checks policy.statements [])
