-- ===== src/Tests/PolicyNesting.antt =====
-- The nesting check of cmd/bucket-policy-parser.go on policies for the bucket "b".
use minio.Base.{
  arith, length, length-append, ap, ◌∙◌, ◌<◌, ◌≢◌, ◌++◌, ◌≡◌, ◌↔◌, refl, true, List, [], ◌∷◌,
}
use minio.Base.Text.{Text, codes, text_discrete, has_prefix}
use minio.BucketPolicy.{principal_other, BucketPolicy, allow}
use minio.BucketPolicy.Nesting.{
  no_error, malformed_policy, policy_nesting, cut_after, split_after_second, before_slash,
  resource_prefix, check_resource, check_resources, check_actions, collect_resources, text_leb,
  insert_text, sort_texts, any_nested, check_bucket_policy_resources,
}
use minio.BucketPolicy.Nesting.Accepted.{IsNested, all_lie, check_bucket_policy_resources_iff}

program : Unit {0}
unfolding text_discrete has_prefix cut_after split_after_second before_slash resource_prefix
    check_resource check_resources check_actions collect_resources text_leb insert_text sort_texts
    any_nested check_bucket_policy_resources
program = tt

abbrev policy : List Text → BucketPolicy
policy resources = record {
  version = codes "1";
  statements =
      (record {
        actions = codes "s3:GetObject" ∷ [];
        conditions = [];
        effect = allow;
        principal = principal_other;
        resources = resources;
        sid = [];
      })
      ∷ [];
}

abbrev apart : BucketPolicy
apart = policy (codes "arn:aws:s3:::b/y*" ∷ codes "arn:aws:s3:::b/x*" ∷ [])

apart_test : check_bucket_policy_resources (codes "b") apart ≡ no_error
unfolding program
apart_test = refl

-- Also two names of objects, without stars.
nested_test :
    check_bucket_policy_resources
      (codes "b")
      (policy (codes "arn:aws:s3:::b/xy" ∷ codes "arn:aws:s3:::b/x" ∷ []))
    ≡ policy_nesting
unfolding program
nested_test = refl

outside_test :
    check_bucket_policy_resources (codes "b") (policy (codes "arn:aws:s3:::bb/x" ∷ []))
    ≡ malformed_policy
unfolding program
outside_test = refl

-- The prefix does not occur in a text that is shorter.
too_short :
    (path : Text) → length path < 13 → (a b : Text) → path ≢ a ++ (codes "arn:aws:s3:::" ++ b)
too_short path h a b e =
    let whole = ap length e ∙ length-append a (codes "arn:aws:s3:::" ++ b) in
    omega (arith, whole, h)

check_bucket_policy_resources_iff_example :
    ((check_bucket_policy_resources (codes "b") apart ≡ no_error)
      ↔ ((all_lie (codes "b") apart ≡ true) × (¬ IsNested apart)))
    × ((check_bucket_policy_resources (codes "b") apart ≡ policy_nesting)
        ↔ ((all_lie (codes "b") apart ≡ true) × IsNested apart))
check_bucket_policy_resources_iff_example =
    check_bucket_policy_resources_iff (codes "b") apart ((λ e. absurd (ground arith)), tt)
      (
        (
          (codes "b/y*", (refl, too_short (codes "b/y*") (omega arith))),
          ((codes "b/x*", (refl, too_short (codes "b/x*") (omega arith))), tt),
        ),
        tt,
      )
