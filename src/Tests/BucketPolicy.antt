-- ===== src/Tests/BucketPolicy.antt =====
-- A policy of cmd/bucket-policy-parser.go that allows all but the writes.
use minio.Base.{
  ◌≡◌, ◌↔◌, refl, Bool, true, false, not, ◌&&◌, List, [], ◌∷◌, some, if◌then◌else◌, length, ◌==◌,
  any, all, inr,
}
use minio.Base.Text.{Text, codes, text_discrete, same, has_prefix}
use minio.Base.Assoc.{get, put}
use minio.Wildcard.{match, match_simple, match_with, deep_match_rune}
use minio.BucketPolicy.{
  StringSet, SetOperations, principal_string, PolicyStatement, BucketPolicy, allow, deny,
  string_equals,
}
use minio.BucketPolicy.Parser.{
  resource_error, resource_errors, is_valid_resources, only_texts, principal_texts, with_effect,
  is_valid_actions, is_valid_effect, parse_principals, is_valid_principals, condition_keys,
  condition_errors, is_valid_conditions, statement_errors, parse_bucket_policy,
}
use minio.BucketPolicy.Matching.{
  action_match, resource_match, bucket_policy_action_match, bucket_policy_resource_match,
  keys_equal, conditions_match, bucket_policy_condition_match, bucket_policy_match_statement,
  bucket_policy_eval_statements,
}
use minio.BucketPolicy.Evaluation.{
  applies, deny_overrides, swap_conditions, bucket_policy_condition_match-swap,
}

program : Unit {0}
unfolding match match_simple match_with deep_match_rune resource_error resource_errors
    is_valid_resources only_texts principal_texts action_match resource_match with_effect
    is_valid_actions is_valid_effect parse_principals is_valid_principals condition_keys
    condition_errors is_valid_conditions statement_errors parse_bucket_policy
    bucket_policy_action_match bucket_policy_resource_match keys_equal conditions_match
    bucket_policy_condition_match bucket_policy_match_statement bucket_policy_eval_statements get
    put text_discrete has_prefix
program = tt

abbrev member : StringSet → Text → Bool
member s x = any (same x) s

abbrev keep : (Text → Bool) → List Text → List Text
keep f [] = []
keep f (x ∷ l) = if f x then x ∷ keep f l else keep f l

abbrev sets : SetOperations
sets = record {
  create = λ l. l;
  is_empty = λ s. length s == 0;
  contains = member;
  func_match = λ f s x. keep (λ e. f e x) s;
  equals = λ a b. (length a == length b) && all (member b) a;
  difference = λ a b. keep (λ x. not (member b x)) a;
  intersection = λ a b. keep (member b) a;
}

abbrev statement : Text → Text → PolicyStatement
statement effect action = record {
  actions = action ∷ [];
  conditions = [];
  effect = effect;
  principal = principal_string (codes "*");
  resources = codes "arn:aws:s3:::b/*" ∷ [];
  sid = [];
}

abbrev decoded : BucketPolicy
decoded = record {
  version = codes "2012";
  statements = statement allow (codes "s3:*") ∷ statement deny (codes "s3:PutObject") ∷ [];
}

abbrev accepted : BucketPolicy
accepted = record {
  version = codes "2012";
  statements = statement deny (codes "s3:PutObject") ∷ statement allow (codes "s3:*") ∷ [];
}

accepted_test : parse_bucket_policy sets (some decoded) ≡ inr accepted
unfolding program
accepted_test = refl

read_test :
    bucket_policy_eval_statements sets
      (codes "s3:GetObject")
      (codes "arn:aws:s3:::b/o")
      []
      accepted.statements
    ≡ true
unfolding program
read_test = refl

write_test :
    bucket_policy_eval_statements sets
      (codes "s3:PutObject")
      (codes "arn:aws:s3:::b/o")
      []
      accepted.statements
    ≡ false
unfolding program
write_test = refl

deny_overrides_example :
    (bucket_policy_eval_statements sets
        (codes "s3:PutObject")
        (codes "arn:aws:s3:::b/o")
        []
        accepted.statements
      ≡ true)
    ↔ ((any
            (applies sets (codes "s3:PutObject") (codes "arn:aws:s3:::b/o") [] deny)
            decoded.statements
          ≡ false)
        × (any
              (applies sets (codes "s3:PutObject") (codes "arn:aws:s3:::b/o") [] allow)
              decoded.statements
            ≡ true))
deny_overrides_example =
    deny_overrides sets (codes "s3:PutObject") (codes "arn:aws:s3:::b/o") [] decoded accepted
      (λ l x. refl) accepted_test

abbrev conditional : PolicyStatement
conditional = record (statement allow (codes "s3:ListBucket")) {
  conditions = (string_equals, (codes "s3:prefix", codes "a" ∷ []) ∷ []) ∷ [];
}

bucket_policy_condition_match-swap_example :
    bucket_policy_condition_match sets []
      (record conditional { conditions = swap_conditions conditional.conditions })
    ≡ bucket_policy_condition_match sets [] conditional
bucket_policy_condition_match-swap_example = bucket_policy_condition_match-swap sets [] conditional
