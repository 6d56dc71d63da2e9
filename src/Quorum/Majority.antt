-- ===== src/Quorum/Majority.antt =====
-- The error that `reduceErrs` of cmd/xl-v1-utils.go finds, in every order of the map.
use minio.Base.{
  ℕ, ◌+◌, ◌≤◌, ◌<◌, ◌≡◌, ◌≢◌, ◌⊎◌, ◌↔◌, refl, ap, ◌∙◌, true, List, [], ◌∷◌, Option, none, some,
  arith, ltb, if◌then◌else◌, ite, inl, inr, Bool-cases, Option-cases,
}
use minio.Base.Assoc.{get, put, get-put, Distinct, put-Distinct}
use minio.Quorum.{
  Error, traced, errors_cause, is_err_ignored, error_counts, max_count, reduce_errs,
  reduce_quorum_errs, count_not_ignored, is_disk_quorum,
}

module _ {E : Type 0} (dec : Discrete (Option E)) where
  -- How often a value occurs, unless it is ignored.
  unfoldable pub votes : Option E → List (Option E) → List E → ℕ
  unfolding is_err_ignored
  votes e [] ignored = 0
  votes e (err ∷ errs) ignored =
      (if is_err_ignored dec err ignored then 0 else ite (dec err e) 1 0) + votes e errs ignored

  -- How many values are not ignored.
  unfoldable pub voters : List (Option E) → List E → ℕ
  unfolding is_err_ignored
  voters [] ignored = 0
  voters (err ∷ errs) ignored =
      (if is_err_ignored dec err ignored then 0 else 1) + voters errs ignored

  -- The count that a map of counts gives.
  abbrev pub count_in : Option E → List (Option E × ℕ) → ℕ
  count_in e counts = elim (get dec e counts) [ none ↦ 0 | some n ↦ n ]

  -- Two different values share the voters.
  votes-add-votes :
      (e f : Option E) (errs : List (Option E)) (ignored : List E)
      → e ≢ f
      → votes e errs ignored + votes f errs ignored ≤ voters errs ignored
  unfolding votes voters
  votes-add-votes e f [] ignored n = omega arith
  votes-add-votes e f (err ∷ errs) ignored n = ground (arith, votes-add-votes e f errs ignored n)

  count-put :
      (e f : Option E) (counts : List (Option E × ℕ))
      → count_in e (put dec f (elim (get dec f counts) [ none ↦ 1 | some n ↦ n + 1 ]) counts)
        ≡ count_in e counts + ite (dec f e) 1 0
  count-put e f counts =
      ground (arith, get-put dec f e (elim (get dec f counts) [ none ↦ 1 | some n ↦ n + 1 ]) counts)

  count-error_counts :
      (e : Option E) (errs : List (Option E)) (ignored : List E) (counts : List (Option E × ℕ))
      → count_in e (error_counts dec errs ignored counts) ≡ count_in e counts + votes e errs ignored
  unfolding error_counts votes
  count-error_counts e [] ignored counts = omega arith
  count-error_counts e (err ∷ errs) ignored counts =
      elim (Bool-cases (is_err_ignored dec err ignored)) [
        | inl i ↦ rw i (omega (arith, count-error_counts e errs ignored counts))
        | inr i ↦
            let counts' =
              put dec err (elim (get dec err counts) [ none ↦ 1 | some n ↦ n + 1 ]) counts in
            rw i (omega (arith, count-error_counts e errs ignored counts', count-put e err counts))
      ]

  -- The list has this entry.
  abbrev pub Has : Option E → ℕ → List (Option E × ℕ) → Type 0
  Has e n [] = ⊥
  Has e n ((f, c) ∷ l) = ((f ≡ e) × (c ≡ n)) ⊎ Has e n l

  Has-get : (e : Option E) (n : ℕ) (l : List (Option E × ℕ)) → get dec e l ≡ some n → Has e n l
  unfolding get
  Has-get e n [] h = absurd (cc)
  Has-get e n ((f, c) ∷ l) h = elim (dec f e) [
    | yes p ↦ inl (p, ground arith)
    | no q ↦ inr (Has-get e n l (ground arith))
  ]

  get-Has :
      (e : Option E) (n : ℕ) (l : List (Option E × ℕ))
      → Distinct dec l
      → Has e n l
      → get dec e l ≡ some n
  unfolding get
  get-Has e n [] d h = absurd h
  get-Has e n ((f, c) ∷ l) d (inl (p, q)) = ground arith
  get-Has e n ((f, c) ∷ l) d (inr h) = let g = get-Has e n l d.1 h in ground arith

  error_counts-Distinct :
      (errs : List (Option E)) (ignored : List E) (counts : List (Option E × ℕ))
      → Distinct dec counts
      → Distinct dec (error_counts dec errs ignored counts)
  unfolding error_counts
  error_counts-Distinct [] ignored counts d = d
  error_counts-Distinct (err ∷ errs) ignored counts d =
      elim (Bool-cases (is_err_ignored dec err ignored)) [
        | inl i ↦ rw i (error_counts-Distinct errs ignored counts d)
        | inr i ↦ rw i (error_counts-Distinct errs ignored _ (put-Distinct dec err _ counts d))
      ]

  -- Where one entry beats all others, the second loop finds it.
  abbrev Beats : Option E → ℕ → List (Option E × ℕ) → Type 0
  Beats e k l = (f : Option E) (c : ℕ) → Has f c l → ((f ≡ e) × (c ≡ k)) ⊎ (c < k)

  max_count-kept :
      (e : Option E) (k : ℕ) (l : List (Option E × ℕ)) → Beats e k l → max_count dec l k e ≡ (k, e)
  unfolding max_count
  max_count-kept e k [] b = refl
  max_count-kept e k ((f, c) ∷ l) b =
      let here = b f c (inl (refl, refl)) in
      let rest = max_count-kept e k l (λ g n h. b g n (inr h)) in ground arith

  max_count-found :
      (e : Option E) (k : ℕ) (l : List (Option E × ℕ)) (max : ℕ) (max_err : Option E)
      → Beats e k l
      → Has e k l
      → max < k
      → max_count dec l max max_err ≡ (k, e)
  unfolding max_count
  max_count-found e k [] max max_err b h m = absurd h
  max_count-found e k ((f, c) ∷ l) max max_err b (inl (p, q)) m =
      let rest = max_count-kept e k l (λ g n h. b g n (inr h)) in ground arith
  max_count-found e k ((f, c) ∷ l) max max_err b (inr h) m = elim (b f c (inl (refl, refl))) [
    | inl (p, q) ↦ let rest = max_count-kept e k l (λ g n h'. b g n (inr h')) in ground arith
    | inr less ↦
        max_count-found e k l (if ltb max c then c else max) (if ltb max c then f else max_err)
          (λ g n h'. b g n (inr h')) h (ground arith)
  ]

  -- What the second loop returns is what it began with, or an entry.
  max_count-Has :
      (l : List (Option E × ℕ)) (max : ℕ) (max_err : Option E)
      → (max_count dec l max max_err ≡ (max, max_err))
        ⊎ Has (max_count dec l max max_err).1 (max_count dec l max max_err).0 l
  unfolding max_count
  max_count-Has [] max max_err = inl refl
  max_count-Has ((f, c) ∷ l) max max_err =
      let max' = if ltb max c then c else max in
      let max_err' = if ltb max c then f else max_err in
      elim (max_count-Has l max' max_err') [
        | inr h ↦ inr (inr h)
        | inl e ↦ elim (Bool-cases (ltb max c)) [
          | inl t ↦ inr (inl (ground arith, ground arith))
          | inr t ↦ inl (ground arith)
        ]
      ]

  -- The order in which a map yields its entries: all of them, and nothing else.
  abbrev pub IsShuffle : (List (Option E × ℕ) → List (Option E × ℕ)) → Type 0
  IsShuffle shuffle =
      (l : List (Option E × ℕ)) (e : Option E) (n : ℕ) → Has e n (shuffle l) ↔ Has e n l

  module _ (shuffle : List (Option E × ℕ) → List (Option E × ℕ)) (fair : IsShuffle shuffle)
      (errs : List (Option (Error E))) (ignored : List E) where
    abbrev causes : List (Option E)
    causes = errors_cause errs

    counted :
        (e : Option E) (n : ℕ)
        → Has e n (shuffle (error_counts dec causes ignored []))
        → n ≡ votes e causes ignored
    unfolding get
    counted e n h =
        let l = error_counts dec causes ignored [] in
        let g = get-Has e n l (error_counts-Distinct causes ignored [] tt) ((fair l e n).0 h) in
        let c = count-error_counts e causes ignored [] in ground arith

    listed :
        (e : Option E)
        → 0 < votes e causes ignored
        → Has e (votes e causes ignored) (shuffle (error_counts dec causes ignored []))
    unfolding get
    listed e p =
        let l = error_counts dec causes ignored [] in
        let c = count-error_counts e causes ignored [] in
        (fair l e (votes e causes ignored)).1 (elim (Option-cases (get dec e l)) [
          | inl z ↦ absurd (ground arith)
          | inr (n, z) ↦ Has-get e (votes e causes ignored) l (ground arith)
        ])

    -- If one value, an error or nil, makes up more than half of what is not ignored, `reduceErrs`
    -- returns it and its count, in whatever order the map of counts is walked.
    pub reduce_errs-majority :
        (e : Option E)
        → voters causes ignored < votes e causes ignored + votes e causes ignored
        → reduce_errs dec shuffle errs ignored ≡ (votes e causes ignored, e)
    unfolding reduce_errs
    reduce_errs-majority e m =
        max_count-found e (votes e causes ignored) (shuffle (error_counts dec causes ignored [])) 0
          none
          (λ f c h. elim (dec f e) [
            | yes p ↦ inl (p, counted f c h ∙ ap (λ t. votes t causes ignored) p)
            | no q ↦ inr (omega (arith, counted f c h, votes-add-votes f e causes ignored q))
          ])
          (listed e (omega arith)) (omega arith)

    -- Where a quorum of at least a simple majority agrees on a value, `reduceQuorumErrs` returns it:
    -- nil, or the error in a trace.
    pub reduce_quorum_errs-agreed :
        (e : Option E) (quorum : ℕ) (quorum_err : E)
        → voters causes ignored < quorum + quorum
        → quorum ≤ votes e causes ignored
        → reduce_quorum_errs dec shuffle errs ignored quorum quorum_err
          ≡ elim e [ none ↦ none | some x ↦ some (traced x) ]
    unfolding reduce_quorum_errs
    reduce_quorum_errs-agreed e quorum quorum_err m q =
        rw (reduce_errs-majority e (omega arith)) (ground arith)

    -- Where no value reaches the quorum, `reduceQuorumErrs` returns the quorum error.
    pub reduce_quorum_errs-failed :
        (quorum : ℕ) (quorum_err : E)
        → ((e : Option E) → votes e causes ignored < quorum)
        → reduce_quorum_errs dec shuffle errs ignored quorum quorum_err ≡ some (traced quorum_err)
    unfolding reduce_quorum_errs reduce_errs
    reduce_quorum_errs-failed quorum quorum_err few =
        let l = shuffle (error_counts dec causes ignored []) in
        elim (max_count-Has l 0 none) [
          | inl z ↦ let f = few none in ground arith
          | inr h ↦ let f = few (max_count dec l 0 none).1 in let c = counted _ _ h in ground arith
        ]

    -- `reduceQuorumErrs` returns nil only where a quorum of nils stands in the errors.
    pub reduce_quorum_errs-nil :
        (quorum : ℕ) (quorum_err : E)
        → 0 < quorum
        → reduce_quorum_errs dec shuffle errs ignored quorum quorum_err ≡ none
        → quorum ≤ votes none causes ignored
    unfolding reduce_quorum_errs reduce_errs
    reduce_quorum_errs-nil quorum quorum_err p r =
        let l = shuffle (error_counts dec causes ignored []) in
        elim (max_count-Has l 0 none) [
          | inl z ↦ absurd (ground arith)
          | inr h ↦ let c = counted _ _ h in ground arith
        ]

  count_not_ignored-voters :
      (errs : List (Option E)) (ignored : List E) (count : ℕ)
      → count_not_ignored dec errs ignored count ≡ count + voters errs ignored
  unfolding count_not_ignored voters
  count_not_ignored-voters [] ignored count = omega arith
  count_not_ignored-voters (err ∷ errs) ignored count = ground (
    arith,
    count_not_ignored-voters errs ignored (count + 1),
    count_not_ignored-voters errs ignored count,
  )

  -- There is disk quorum exactly when enough values, errors or nil, are not ignored: an error that
  -- is not on the list counts as much as a success.
  pub is_disk_quorum_iff :
      (errs : List (Option (Error E))) (quorum_ignored : List E) (min_quorum_count : ℕ)
      → (is_disk_quorum dec errs quorum_ignored min_quorum_count ≡ true)
        ↔ (min_quorum_count ≤ voters (errors_cause errs) quorum_ignored)
  unfolding is_disk_quorum
  is_disk_quorum_iff errs ignored n =
      ground (arith, count_not_ignored-voters (errors_cause errs) ignored 0)
