-- ===== src/BucketPolicy/Evaluation.antt =====
-- What an accepted policy of cmd/bucket-policy-parser.go allows.
use minio.Base.{
  ◌≡◌, ◌↔◌, ◌⊎◌, refl, Bool, true, false, ◌&&◌, List, [], ◌∷◌, ◌++◌, Option, none, some, arith,
  if◌then◌else◌, inl, inr, any, Bool-cases, Option-cases, length, ◌==◌,
}
use minio.Base.Text.{Text, text_discrete, same, same_iff}
use minio.BucketPolicy.{
  StringSet, SetOperations, PolicyStatement, BucketPolicy, PolicyError, allow, deny, Conditions,
  string_equals, string_not_equals,
}
use minio.BucketPolicy.Parser.{
  or_then, with_effect, is_valid_effect, is_valid_principals, is_valid_actions, is_valid_resources,
  is_valid_conditions, statement_errors, parse_bucket_policy,
}
use minio.BucketPolicy.Matching.{
  bucket_policy_match_statement, bucket_policy_eval_statements, conditions_match,
  bucket_policy_condition_match,
}

or_then-none : (a b : Option PolicyError) → or_then a b ≡ none → (a ≡ none) × (b ≡ none)
or_then-none none b h = (refl, h)
or_then-none (some err) b h = absurd (cc)

module _ (ops : SetOperations) (action resource : Text) (conditions : List (Text × StringSet)) where
  -- The statement has this effect and applies to the request.
  abbrev pub applies : Text → PolicyStatement → Bool
  applies effect statement =
      same statement.effect effect
      && bucket_policy_match_statement ops action resource conditions statement

  eval_deny :
      (statements rest : List PolicyStatement)
      → bucket_policy_eval_statements ops action resource conditions
          (with_effect true statements ++ rest)
        ≡ (if any (applies deny) statements
            then false
            else bucket_policy_eval_statements ops action resource conditions rest)
  unfolding bucket_policy_eval_statements with_effect text_discrete
  eval_deny [] rest = refl
  eval_deny (statement ∷ statements) rest = elim (Bool-cases (same statement.effect deny)) [
    | inl d ↦
        rw d
          (elim (Bool-cases
            (bucket_policy_match_statement ops action resource conditions statement)) [
              | inl m ↦
                  let e : statement.effect ≡ deny = (same_iff statement.effect deny).0 d in
                  rw (m, e) refl
              | inr m ↦ rw m (eval_deny statements rest)
            ])
    | inr d ↦ rw d (eval_deny statements rest)
  ]

  -- Every effect is one of the two.
  abbrev Supported : List PolicyStatement → Type 0
  Supported [] = Unit
  Supported (statement ∷ statements) =
      ((statement.effect ≡ allow) ⊎ (statement.effect ≡ deny)) × Supported statements

  eval_allow :
      (statements : List PolicyStatement)
      → Supported statements
      → bucket_policy_eval_statements ops action resource conditions (with_effect false statements)
        ≡ any (applies allow) statements
  unfolding bucket_policy_eval_statements with_effect text_discrete
  eval_allow [] s = refl
  eval_allow (statement ∷ statements) (inl e, s) = rw (e) (ground (arith, eval_allow statements s))
  eval_allow (statement ∷ statements) (inr e, s) = rw (e) (eval_allow statements s)

  -- What the package documents of `CreateStringSet` and `Contains`.
  abbrev pub ContainsCreated : Type 0
  ContainsCreated = (l : List Text) (x : Text) → ops.contains (ops.create l) x ≡ any (same x) l

  statement_errors-Supported :
      (statements : List PolicyStatement)
      → ContainsCreated
      → statement_errors ops statements ≡ none
      → Supported statements
  unfolding statement_errors is_valid_effect
  statement_errors-Supported [] law h = tt
  statement_errors-Supported (statement ∷ statements) law h =
      let (e, h1) = or_then-none (is_valid_effect ops statement.effect) _ h in
      let (p, h2) = or_then-none (is_valid_principals ops statement.principal) _ h1 in
      let (a, h3) = or_then-none (is_valid_actions ops statement.actions) _ h2 in
      let (r, h4) = or_then-none (is_valid_resources statement.resources) _ h3 in
      let (c, h5) = or_then-none (is_valid_conditions ops statement.conditions) _ h4 in
      let l = law (allow ∷ (deny ∷ [])) statement.effect in
      let s = same_iff statement.effect allow in
      let t = same_iff statement.effect deny in
      (ground arith, statement_errors-Supported statements law h5)

  -- Deny overrides: a policy that the parser accepts allows a request exactly when none of its Deny
  -- statements applies to the request and one of its Allow statements does, in whatever order they
  -- stand.
  pub deny_overrides :
      (decoded accepted : BucketPolicy)
      → ContainsCreated
      → parse_bucket_policy ops (some decoded) ≡ inr accepted
      → (bucket_policy_eval_statements ops action resource conditions accepted.statements ≡ true)
        ↔ ((any (applies deny) decoded.statements ≡ false)
            × (any (applies allow) decoded.statements ≡ true))
  unfolding parse_bucket_policy
  deny_overrides decoded accepted law h = elim (Bool-cases (length decoded.version == 0)) [
    | inl v ↦ absurd (cc (rw v at h))
    | inr v ↦ elim (Bool-cases (length decoded.statements == 0)) [
      | inl w ↦ absurd (cc (rw (v, w) at h))
      | inr w ↦ elim (Option-cases (statement_errors ops decoded.statements)) [
        | inr (err, e) ↦ absurd (cc (rw (v, w, e, parse_bucket_policy) at h))
        | inl e ↦
            let q : accepted.statements
                ≡ with_effect true decoded.statements ++ with_effect false decoded.statements =
              ground arith in
            let a = eval_deny decoded.statements (with_effect false decoded.statements) in
            let b =
              eval_allow decoded.statements (statement_errors-Supported decoded.statements law e) in
            rw q (rw (a, b) (ground arith))
      ]
    ]
  ]

-- StringEquals for StringNotEquals, and the other way round.
abbrev pub swapped : Text → Text
swapped condition =
    if same condition string_equals
    then string_not_equals
    else if same condition string_not_equals
    then string_equals
    else condition

abbrev pub swap_conditions : Conditions → Conditions
swap_conditions [] = []
swap_conditions ((condition, key_val) ∷ rest) = (swapped condition, key_val) ∷ swap_conditions rest

conditions_match-swap :
    (ops : SetOperations) (conditions : List (Text × StringSet)) (c : Conditions)
    → conditions_match ops conditions (swap_conditions c) ≡ conditions_match ops conditions c
unfolding conditions_match text_discrete
conditions_match-swap ops conditions [] = refl
conditions_match-swap ops conditions ((condition, key_val) ∷ rest) =
    let ih = conditions_match-swap ops conditions rest in
    elim (Bool-cases (same condition string_equals)) [
      | inl t ↦
          let e : condition ≡ string_equals = (same_iff condition string_equals).0 t in
          rw (e, ih) refl
      | inr n ↦ elim (Bool-cases (same condition string_not_equals)) [
        | inl t ↦
            let e : condition ≡ string_not_equals = (same_iff condition string_not_equals).0 t in
            rw (e, ih) refl
        | inr n' ↦ let e : swapped condition ≡ condition = rw (n, n') refl in rw (e, ih) refl
      ]
    ]

-- The evaluation does not tell StringEquals from StringNotEquals: exchanging the two in a statement
-- changes the answer of `bucketPolicyConditionMatch` on no request.
pub bucket_policy_condition_match-swap :
    (ops : SetOperations) (conditions : List (Text × StringSet)) (statement : PolicyStatement)
    → bucket_policy_condition_match ops conditions
        (record statement { conditions = swap_conditions statement.conditions })
      ≡ bucket_policy_condition_match ops conditions statement
unfolding bucket_policy_condition_match
bucket_policy_condition_match-swap ops conditions statement =
    conditions_match-swap ops conditions statement.conditions
