-- ===== src/BucketPolicy/Nesting.antt =====
-- cmd/bucket-policy-parser.go: `checkBucketPolicyResources`, which refuses policies whose resources lie
-- outside the bucket or within each other.
pub mod Sorted
pub mod Checked
pub mod Paths
pub mod Gathered
pub mod Pairs
pub mod Accepted
use minio.Base.{
  ℕ, Bool, true, false, not, ◌||◌, List, [], ◌∷◌, Option, none, some, ltb, ◌==◌, if◌then◌else◌,
  length, drop, map, any,
}
use minio.Base.Text.{Text, codes, same, has_prefix}
use minio.BucketPolicy.{StringSet, PolicyStatement, BucketPolicy, bucket_arn_prefix}

-- `ErrNone`, `ErrMalformedPolicy` and `ErrPolicyNesting`, and the panic for a resource without the prefix.
pub data PolicyCode : Type 0 where
  no_error malformed_policy policy_nesting index_panic : PolicyCode

-- `invalidPrefixActions`.
abbrev pub invalid_prefix_actions : List Text
invalid_prefix_actions =
    codes "s3:GetBucketLocation"
    ∷ codes "s3:ListBucket"
    ∷ codes "s3:ListBucketMultipartUploads"
    ∷ []

-- A text up to the first separator, which it includes, and the rest; none without a separator.
unfoldable pub cut_after : Text → Text → Option (Text × Text)
cut_after sep [] = none
cut_after sep (x ∷ s) =
    let rest : Option (Text × Text) = elim (cut_after sep s) [
      | none ↦ none
      | some (piece, left) ↦ some (x ∷ piece, left)
    ] in
    if has_prefix (x ∷ s) sep then some (sep, drop (length sep) (x ∷ s)) else rest

-- `strings.SplitAfter(s, sep)[1]`; `none` is the index out of range.
unfoldable pub split_after_second : Text → Text → Option Text
split_after_second s sep = elim (cut_after sep s) [
  | none ↦ none
  | some (_, rest) ↦ some (elim (cut_after sep rest) [ none ↦ rest | some (piece, _) ↦ piece ])
]

-- `strings.Split(s, "/")[0]`.
unfoldable pub before_slash : Text → Text
before_slash [] = []
before_slash (x ∷ s) = if x == 47 then [] else x ∷ before_slash s

-- `resourcePrefix`: one star at the end is taken off.
unfoldable pub resource_prefix : Text → Text
resource_prefix [] = []
resource_prefix (x ∷ []) = if x == 42 then [] else x ∷ []
resource_prefix (x ∷ y ∷ s) = x ∷ resource_prefix (y ∷ s)

-- The resources collected so far, or the error.
pub data Collected : Type 0 where
  collected : StringSet → Collected
  refused : PolicyCode → Collected

abbrev pub add : Text → StringSet → StringSet
add resource resources = if any (same resource) resources then resources else resource ∷ resources

-- The innermost part of the loop.
unfoldable pub check_resource : Text → Text → Text → StringSet → Collected
check_resource bucket action resource resource_map =
    elim (split_after_second resource bucket_arn_prefix) [
      | none ↦ refused index_panic
      | some prefix ↦
          if any (same action) invalid_prefix_actions
          then (if not (same prefix bucket)
              then refused malformed_policy
              else collected resource_map)
          else if not (same (before_slash prefix) bucket)
          then refused malformed_policy
          else collected (add prefix resource_map)
    ]

unfoldable pub check_resources : Text → Text → List Text → StringSet → Collected
check_resources bucket action [] resource_map = collected resource_map
check_resources bucket action (resource ∷ resources) resource_map =
    elim (check_resource bucket action resource resource_map) [
      | refused code ↦ refused code
      | collected more ↦ check_resources bucket action resources more
    ]

unfoldable pub check_actions : Text → List Text → List Text → StringSet → Collected
check_actions bucket [] resources resource_map = collected resource_map
check_actions bucket (action ∷ actions) resources resource_map =
    elim (check_resources bucket action resources resource_map) [
      | refused code ↦ refused code
      | collected more ↦ check_actions bucket actions resources more
    ]

-- The loop over the statements; the sets are walked in the order of their lists.
unfoldable pub collect_resources : Text → List PolicyStatement → StringSet → Collected
collect_resources bucket [] resource_map = collected resource_map
collect_resources bucket (statement ∷ statements) resource_map =
    elim (check_actions bucket statement.actions statement.resources resource_map) [
      | refused code ↦ refused code
      | collected more ↦ collect_resources bucket statements more
    ]

-- Go's `<=` on strings.
unfoldable pub text_leb : Text → Text → Bool
text_leb [] b = true
text_leb (x ∷ a) [] = false
text_leb (x ∷ a) (y ∷ b) = if x == y then text_leb a b else ltb x y

-- `sort.Strings`.
unfoldable pub insert_text : Text → List Text → List Text
insert_text t [] = t ∷ []
insert_text t (x ∷ l) = let rest = insert_text t l in if text_leb t x then t ∷ x ∷ l else x ∷ rest

unfoldable pub sort_texts : List Text → List Text
sort_texts [] = []
sort_texts (x ∷ l) = insert_text x (sort_texts l)

-- The last loop: whether a resource is a prefix of one behind it.
unfoldable pub any_nested : List Text → Bool
any_nested [] = false
any_nested (resource ∷ resources) =
    any (λ other. has_prefix other resource) resources || any_nested resources

-- `checkBucketPolicyResources`.
unfoldable pub check_bucket_policy_resources : Text → BucketPolicy → PolicyCode
check_bucket_policy_resources bucket policy = elim (collect_resources bucket policy.statements []) [
  | refused code ↦ code
  | collected resource_map ↦
      if any_nested (sort_texts (map resource_prefix resource_map))
      then policy_nesting
      else no_error
]
