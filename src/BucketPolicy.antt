-- ===== src/BucketPolicy.antt =====
-- cmd/bucket-policy-parser.go and cmd/bucket-policy-handlers.go: policies and their errors.
pub mod Parser
pub mod Matching
pub mod Evaluation
pub mod Nesting
use minio.Base.{
  ℕ, Bool, true, false, not, ◌&&◌, ◌||◌, List, [], ◌∷◌, ◌++◌, Option, none, some, if◌then◌else◌,
  length, drop, ◌==◌, map, ◌⊎◌, inl, inr,
}
use minio.Base.Text.{Text, codes, text_discrete, same, has_prefix}
use minio.Base.Assoc.{get, put}
use minio.Wildcard.{Outcome, answer, panic, match, match_simple}

-- `set.StringSet` of minio-go: a Go map, as the list of its keys, with the operations of the package.
abbrev pub StringSet : Type 0
StringSet = List Text

pub record SetOperations : Type 0 where
  pub create : List Text → StringSet
  pub is_empty : StringSet → Bool
  pub contains : StringSet → Text → Bool
  pub func_match : (Text → Text → Bool) → StringSet → Text → StringSet
  pub equals : StringSet → StringSet → Bool
  pub difference : StringSet → StringSet → StringSet
  pub intersection : StringSet → StringSet → StringSet

-- A principal as `encoding/json` decodes it.
pub data PrincipalValue : Type 0 where
  string_value : Text → PrincipalValue
  list_value : List (Option Text) → PrincipalValue
  other_value : PrincipalValue

pub data Principal : Type 0 where
  principal_string : Text → Principal
  principal_map : List (Text × PrincipalValue) → Principal
  principal_other : Principal

abbrev pub Conditions : Type 0
Conditions = List (Text × List (Text × StringSet))

pub record PolicyStatement : Type 0 where
  pub actions : StringSet
  pub conditions : Conditions
  pub effect : Text
  pub principal : Principal
  pub resources : StringSet
  pub sid : Text

pub record BucketPolicy : Type 0 where
  pub version : Text
  pub statements : List PolicyStatement

pub data PolicyError : Type 0 where
  not_json : PolicyError
  empty_version : PolicyError
  empty_statements : PolicyError
  empty_effect : PolicyError
  unsupported_effect : PolicyError
  empty_principal : PolicyError
  unsupported_principals : PolicyError
  empty_actions : PolicyError
  unsupported_actions : PolicyError
  empty_resources : PolicyError
  unsupported_resource : Text → PolicyError
  invalid_resource : Text → PolicyError
  unsupported_condition_type : Text → PolicyError
  unsupported_condition_key : Text → PolicyError
  ambiguous_condition : Text → PolicyError

abbrev pub allow : Text
allow = codes "Allow"

abbrev pub deny : Text
deny = codes "Deny"

abbrev pub string_equals : Text
string_equals = codes "StringEquals"

abbrev pub string_not_equals : Text
string_not_equals = codes "StringNotEquals"

abbrev pub bucket_arn_prefix : Text
bucket_arn_prefix = codes "arn:aws:s3:::"
