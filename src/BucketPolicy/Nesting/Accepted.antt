-- ===== src/BucketPolicy/Nesting/Accepted.antt =====
-- Which policies `checkBucketPolicyResources` of cmd/bucket-policy-parser.go accepts.
use minio.Base.{
  ◌≡◌, ◌≢◌, ◌↔◌, refl, sym, ap, ap₂, ◌∙◌, Bool, true, ◌&&◌, List, [], ◌∷◌, ◌++◌, all, map, All, inl,
  inr, Bool-cases, arith,
}
use minio.Base.Text.{Text, has_prefix_iff}
use minio.BucketPolicy.{PolicyStatement, BucketPolicy}
use minio.BucketPolicy.Nesting.{
  no_error, policy_nesting, resource_prefix, check_bucket_policy_resources,
}
use minio.BucketPolicy.Nesting.Sorted.{any_pair}
use minio.BucketPolicy.Nesting.Checked.{
  inside_bucket, gather_statements, within, check_bucket_policy_resources-prefixes,
}
use minio.BucketPolicy.Nesting.Paths.{
  IsProper, lies, Unstarred, split_after_second-Names, resource_prefix_unique,
  resource_prefix-Unstarred, lies_within,
}
use minio.BucketPolicy.Nesting.Gathered.{
  listed, IsProperStatement, collected-Once, collected_listed,
}
use minio.BucketPolicy.Nesting.Pairs.{any_pair-Pair, Pair-any_pair}

-- Two different paths of the policy, of which one without its star begins with the other without its
-- star.
abbrev pub IsNested : BucketPolicy → Type 0
IsNested policy =
    (t : Text) × (u : Text) × (p : Text) × (q : Text) × (listed policy.statements t ≡ true)
    × (listed policy.statements u ≡ true)
    × (t ≢ u)
    × Unstarred t p
    × Unstarred u q
    × ((rest : Text) × (q ≡ p ++ rest))

-- Every resource of a statement lies in the bucket, for every action of the statement.
abbrev pub all_lie : Text → BucketPolicy → Bool
all_lie bucket policy =
    all
      (λ statement. all (λ action. all (lies bucket action) statement.resources) statement.actions)
      policy.statements

module _ (policy : BucketPolicy) (proper : All IsProperStatement policy.statements) where
  IsNested-found :
      any_pair (map resource_prefix (gather_statements policy.statements [])) ≡ true
      → IsNested policy
  IsNested-found h =
      let (t, u, a, b, d, p) =
        any_pair-Pair resource_prefix (gather_statements policy.statements [])
          (collected-Once policy.statements) h in
      (
        t,
        u,
        resource_prefix t,
        resource_prefix u,
        sym (collected_listed t policy.statements proper) ∙ a,
        sym (collected_listed u policy.statements proper) ∙ b,
        d,
        resource_prefix-Unstarred t,
        resource_prefix-Unstarred u,
        (has_prefix_iff (resource_prefix u) (resource_prefix t)).0 p,
      )

  found-IsNested :
      IsNested policy
      → any_pair (map resource_prefix (gather_statements policy.statements [])) ≡ true
  found-IsNested (t, u, p, q, a, b, d, x, y, (rest, e)) =
      Pair-any_pair resource_prefix (gather_statements policy.statements []) (
        t,
        u,
        collected_listed t policy.statements proper ∙ a,
        collected_listed u policy.statements proper ∙ b,
        d,
        (has_prefix_iff (resource_prefix u) (resource_prefix t)).1 (
          rest,
          sym (resource_prefix_unique u q y)
              ∙ (e ∙ ap (λ s. s ++ rest) (resource_prefix_unique t p x)),
        ),
      )

module _ (bucket : Text) (plain : All (λ c. c ≢ b'/') bucket) where
  inside-lies :
      (action resource : Text)
      → IsProper resource
      → inside_bucket bucket action resource ≡ lies bucket action resource
  inside-lies action resource (path, n) =
      rw (split_after_second-Names resource path n, inside_bucket)
        (lies_within bucket action resource path plain n)

  all_inside :
      (action : Text) (resources : List Text)
      → All IsProper resources
      → all (inside_bucket bucket action) resources ≡ all (lies bucket action) resources
  all_inside action [] h = refl
  all_inside action (resource ∷ resources) h =
      ap₂ ◌&&◌ (inside-lies action resource h.0) (all_inside action resources h.1)

  all_actions :
      (actions resources : List Text)
      → All IsProper resources
      → all (λ action. all (inside_bucket bucket action) resources) actions
        ≡ all (λ action. all (lies bucket action) resources) actions
  all_actions [] resources h = refl
  all_actions (action ∷ actions) resources h =
      ap₂ ◌&&◌ (all_inside action resources h) (all_actions actions resources h)

  all_within :
      (statements : List PolicyStatement)
      → All IsProperStatement statements
      → all (within bucket) statements
        ≡ all
            (λ statement.
              all (λ action. all (lies bucket action) statement.resources) statement.actions)
            statements
  all_within [] h = refl
  all_within (statement ∷ statements) h =
      ap₂ ◌&&◌ (all_actions statement.actions statement.resources h.0) (all_within statements h.1)

-- Let a bucket have no slash in its name, and every resource of a policy be the prefix
-- arn:aws:s3::: and a path in which it does not occur again. checkBucketPolicyResources accepts the
-- policy exactly when every resource, for each action of its statement, is the bucket or begins
-- with the bucket and a slash (is the bucket, where the action is on a bucket as a whole), and no
-- path of a statement with an action of the other kind is, without a star at its end, the beginning
-- of a different one without its star. It answers ErrPolicyNesting exactly when every resource is
-- so, and one path is the beginning of a different one.
pub check_bucket_policy_resources_iff :
    (bucket : Text) (policy : BucketPolicy)
    → All (λ c. c ≢ b'/') bucket
    → All IsProperStatement policy.statements
    → ((check_bucket_policy_resources bucket policy ≡ no_error)
        ↔ ((all_lie bucket policy ≡ true) × (¬ IsNested policy)))
      × ((check_bucket_policy_resources bucket policy ≡ policy_nesting)
          ↔ ((all_lie bucket policy ≡ true) × IsNested policy))
check_bucket_policy_resources_iff bucket policy plain proper =
    let (clear, nest) = check_bucket_policy_resources-prefixes bucket policy in
    let w = all_within bucket plain policy.statements proper in
    (
      (
        λ h.
            let (a, b) = clear.0 h in
            (sym w ∙ a, λ n. let b' = found-IsNested policy proper n in ground arith),
        λ (a, n). clear.1 (
          w ∙ a,
          elim (Bool-cases
              (any_pair (map resource_prefix (gather_statements policy.statements [])))) [
                | inl t ↦ absurd (n (IsNested-found policy proper t))
                | inr f ↦ f
              ],
        ),
      ),
      (
        λ h. let (a, b) = nest.0 h in (sym w ∙ a, IsNested-found policy proper b),
        λ (a, n). nest.1 (w ∙ a, found-IsNested policy proper n),
      ),
    )
