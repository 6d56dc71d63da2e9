-- ===== src/BucketPolicy/Parser.antt =====
-- cmd/bucket-policy-parser.go: the validation of a policy.
use minio.Base.{
  Bool, true, false, not, ◌||◌, List, [], ◌∷◌, ◌++◌, Option, none, some, if◌then◌else◌, length,
  drop, ◌==◌, map, ◌⊎◌, inl, inr,
}
use minio.Base.Text.{Text, codes, text_discrete, same, has_prefix}
use minio.Base.Assoc.{get, put}
use minio.BucketPolicy.{
  StringSet, SetOperations, PrincipalValue, string_value, list_value, other_value, Principal,
  principal_string, principal_map, principal_other, Conditions, PolicyStatement, BucketPolicy,
  PolicyError, not_json, empty_version, empty_statements, empty_effect, unsupported_effect,
  empty_principal, unsupported_principals, empty_actions, unsupported_actions, empty_resources,
  unsupported_resource, invalid_resource, unsupported_condition_type, unsupported_condition_key,
  ambiguous_condition, allow, deny, string_equals, string_not_equals, bucket_arn_prefix,
}

-- The first error of two checks, one after the other.
abbrev pub or_then : Option PolicyError → Option PolicyError → Option PolicyError
or_then none next = next
or_then (some err) next = some err

-- The error of one resource. Behind the prefix that it has, `strings.SplitAfter` leaves what
-- follows.
unfoldable pub resource_error : Text → Option PolicyError
resource_error resource =
    let suffix = drop (length bucket_arn_prefix) resource in
    if not (has_prefix resource bucket_arn_prefix)
    then some (unsupported_resource resource)
    else if (length suffix == 0) || has_prefix suffix (codes "/")
    then some (invalid_resource resource)
    else none

unfoldable pub resource_errors : List Text → Option PolicyError
resource_errors [] = none
resource_errors (resource ∷ resources) =
    or_then (resource_error resource) (resource_errors resources)

unfoldable pub is_valid_resources : StringSet → Option PolicyError
is_valid_resources resources =
    if length resources == 0 then some empty_resources else resource_errors resources

-- The texts of a list; what is not a text is passed over.
unfoldable pub only_texts : List (Option Text) → List Text
only_texts [] = []
only_texts (none ∷ l) = only_texts l
only_texts (some p ∷ l) = p ∷ only_texts l

unfoldable pub principal_texts : List (Text × PrincipalValue) → List Text
principal_texts [] = []
principal_texts ((k, string_value p) ∷ principals) = p ∷ principal_texts principals
principal_texts ((k, list_value l) ∷ principals) = only_texts l ++ principal_texts principals
principal_texts ((k, other_value) ∷ principals) = principal_texts principals

-- Deny statements first, then the others, each in their order.
unfoldable pub with_effect : Bool → List PolicyStatement → List PolicyStatement
with_effect is_deny [] = []
with_effect is_deny (statement ∷ statements) =
    let rest = with_effect is_deny statements in
    if same statement.effect deny
    then (if is_deny then statement ∷ rest else rest)
    else (if is_deny then rest else statement ∷ rest)

module _ (ops : SetOperations) where
  abbrev supported_action_map : StringSet
  supported_action_map = ops.create (
      map codes (
        "*" ∷ "s3:*" ∷ "s3:GetObject" ∷ "s3:ListBucket" ∷ "s3:PutObject" ∷ "s3:GetBucketLocation"
        ∷ "s3:DeleteObject" ∷ "s3:AbortMultipartUpload" ∷ "s3:ListBucketMultipartUploads"
        ∷ "s3:ListMultipartUploadParts" ∷ []))

  unfoldable pub is_valid_actions : StringSet → Option PolicyError
  is_valid_actions actions =
      if length actions == 0
      then some empty_actions
      else if not (ops.is_empty (ops.difference actions supported_action_map))
      then some unsupported_actions
      else none

  unfoldable pub is_valid_effect : Text → Option PolicyError
  is_valid_effect effect =
      if same effect []
      then some empty_effect
      else if not (ops.contains (ops.create (allow ∷ (deny ∷ []))) effect)
      then some unsupported_effect
      else none

  unfoldable pub parse_principals : Principal → StringSet
  parse_principals (principal_string p) = ops.create (p ∷ [])
  parse_principals (principal_map principals) = ops.create (principal_texts principals)
  parse_principals principal_other = ops.create []

  unfoldable pub is_valid_principals : Principal → Option PolicyError
  is_valid_principals principal =
      let principals = parse_principals principal in
      if length principals == 0
      then some empty_principal
      else if not (ops.is_empty (ops.difference principals (ops.create (codes "*" ∷ []))))
      then some unsupported_principals
      else none

  -- The keys of one condition, over the values seen so far: an error, or the values seen now.
  unfoldable pub condition_keys :
      Text
      → List (Text × StringSet)
      → List (Text × StringSet)
      → Option PolicyError × List (Text × StringSet)
  condition_keys condition_type [] seen = (none, seen)
  condition_keys condition_type ((key, value) ∷ rest) seen =
      let onward = condition_keys condition_type rest (put text_discrete key value seen) in
      if not (ops.contains (ops.create (map codes ("s3:prefix" ∷ "s3:max-keys" ∷ []))) key)
      then (some (unsupported_condition_key condition_type), seen)
      else elim (get text_discrete key seen) [
        | none ↦ onward
        | some values ↦
            if not (ops.is_empty (ops.intersection value values))
            then (some (ambiguous_condition key), seen)
            else onward
      ]

  unfoldable pub condition_errors : Conditions → List (Text × StringSet) → Option PolicyError
  condition_errors [] seen = none
  condition_errors ((condition_type, key_vals) ∷ conditions) seen =
      let keys = condition_keys condition_type key_vals seen in
      let onward = condition_errors conditions keys.1 in
      if not (ops.contains (ops.create (string_equals ∷ (string_not_equals ∷ []))) condition_type)
      then some (unsupported_condition_type condition_type)
      else or_then keys.0 onward

  unfoldable pub is_valid_conditions : Conditions → Option PolicyError
  is_valid_conditions conditions = condition_errors conditions []

  unfoldable pub statement_errors : List PolicyStatement → Option PolicyError
  statement_errors [] = none
  statement_errors (statement ∷ statements) = or_then (is_valid_effect statement.effect) (
      or_then (is_valid_principals statement.principal) (
        or_then (is_valid_actions statement.actions) (
          or_then (is_valid_resources statement.resources)
            (or_then (is_valid_conditions statement.conditions) (statement_errors statements)))))

  -- `parseBucketPolicy`, on what `encoding/json` makes of the text.
  unfoldable pub parse_bucket_policy : Option BucketPolicy → PolicyError ⊎ BucketPolicy
  parse_bucket_policy none = inl not_json
  parse_bucket_policy (some policy) =
      if length policy.version == 0
      then inl empty_version
      else if length policy.statements == 0
      then inl empty_statements
      else elim (statement_errors policy.statements) [
        | some err ↦ inl err
        | none ↦ inr (record policy {
          statements = with_effect true policy.statements ++ with_effect false policy.statements;
        })
      ]
