-- ===== src/BucketPolicy/Matching.antt =====
-- cmd/bucket-policy-handlers.go: the evaluation of a policy on a request.
use minio.Base.{Bool, true, false, not, ◌&&◌, List, [], ◌∷◌, none, some, if◌then◌else◌}
use minio.Base.Text.{Text, codes, text_discrete, same}
use minio.Base.Assoc.{get}
use minio.Wildcard.{answer, panic, match, match_simple}
use minio.BucketPolicy.{
  StringSet, SetOperations, Conditions, PolicyStatement, allow, string_equals, string_not_equals,
}

-- `actionMatch`. The panic of `MatchSimple`, which a pattern with a `?` behind the end of the action can
-- reach, is taken as no match: isValidActions lets only actions without a `?` into a policy.
unfoldable pub action_match : Text → Text → Bool
action_match pattern' action = elim (match_simple pattern' action) [ answer b ↦ b | panic ↦ false ]

unfoldable pub resource_match : Text → Text → Bool
resource_match pattern' resource = elim (match pattern' resource) [ answer b ↦ b | panic ↦ false ]

-- A key that is missing yields the nil set.
abbrev pub lookup : Text → List (Text × StringSet) → StringSet
lookup key m = elim (get text_discrete key m) [ none ↦ [] | some s ↦ s ]

module _ (ops : SetOperations) where
  unfoldable pub bucket_policy_action_match : Text → PolicyStatement → Bool
  bucket_policy_action_match action statement =
      not (ops.is_empty (ops.func_match action_match statement.actions action))

  unfoldable pub bucket_policy_resource_match : Text → PolicyStatement → Bool
  bucket_policy_resource_match resource statement =
      not (ops.is_empty (ops.func_match resource_match statement.resources resource))

  -- Both branches of the loop compare the same two keys.
  unfoldable pub keys_equal : List (Text × StringSet) → List (Text × StringSet) → Bool
  keys_equal key_val conditions =
      ops.equals (lookup (codes "s3:prefix") key_val) (lookup (codes "prefix") conditions)
      && ops.equals (lookup (codes "s3:max-keys") key_val) (lookup (codes "max-keys") conditions)

  unfoldable pub conditions_match : List (Text × StringSet) → Conditions → Bool
  conditions_match conditions [] = true
  conditions_match conditions ((condition, key_val) ∷ rest) =
      let onward = conditions_match conditions rest in
      if same condition string_equals
      then keys_equal key_val conditions && onward
      else if same condition string_not_equals
      then keys_equal key_val conditions && onward
      else onward

  unfoldable pub bucket_policy_condition_match : List (Text × StringSet) → PolicyStatement → Bool
  bucket_policy_condition_match conditions statement =
      conditions_match conditions statement.conditions

  unfoldable pub bucket_policy_match_statement :
      Text → Text → List (Text × StringSet) → PolicyStatement → Bool
  bucket_policy_match_statement action resource conditions statement =
      bucket_policy_action_match action statement
      && (bucket_policy_resource_match resource statement
          && bucket_policy_condition_match conditions statement)

  unfoldable pub bucket_policy_eval_statements :
      Text → Text → List (Text × StringSet) → List PolicyStatement → Bool
  bucket_policy_eval_statements action resource conditions [] = false
  bucket_policy_eval_statements action resource conditions (statement ∷ statements) =
      let rest = bucket_policy_eval_statements action resource conditions statements in
      if bucket_policy_match_statement action resource conditions statement
      then same statement.effect allow
      else rest
