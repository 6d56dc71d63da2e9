-- ===== src/Preconditions/Decision.antt =====
-- What the preconditions of cmd/object-handlers-common.go decide.
use minio.Base.{
  ℕ, ◌+◌, ◌<◌, ◌≡◌, ◌↔◌, ◌⊎◌, refl, Bool, true, false, not, ◌&&◌, ◌||◌, [], none, some, arith,
  if◌then◌else◌, inl, inr, Option-cases,
}
use minio.Base.Text.{Text, codes, same}
use minio.Preconditions.{
  second, ObjectInfo, Request, Reply, is_etag_equal, Server, if_modified_since, has_no_mod_time,
  check_copy_object_preconditions, check_preconditions,
}

-- Four guards in a row let a request through exactly when none of them fires.
all_pass :
    (a b c d : Bool) (x y z w : Reply)
    → ((if a
          then some x
          else if b
          then some y
          else if c
          then some z
          else if d
          then some w
          else none)
        ≡ none)
      ↔ ((a ≡ false) × (b ≡ false) × (c ≡ false) × (d ≡ false))
all_pass true b c d x y z w = (λ h. absurd (cc), λ h. absurd (cc))
all_pass false true c d x y z w = (λ h. absurd (cc), λ h. absurd (cc))
all_pass false false true d x y z w = (λ h. absurd (cc), λ h. absurd (cc))
all_pass false false false true x y z w = (λ h. absurd (cc), λ h. absurd (cc))
all_pass false false false false x y z w = (λ h. (refl, refl, refl, refl), λ h. refl)

-- A guard on a header that has to be there, and on a test that has to come out `bad`.
guard_iff :
    (header : Text) (fires : Bool)
    → ((not (same header []) && fires) ≡ false) ↔ ((header ≡ []) ⊎ (fires ≡ false))
guard_iff header fires = ground arith

guard_not_iff :
    (header : Text) (holds : Bool)
    → ((not (same header []) && not holds) ≡ false) ↔ ((header ≡ []) ⊎ (holds ≡ true))
guard_not_iff header holds = ground arith

module _ (server : Server) where
  -- An object counts as modified since a time exactly when it is more than a second younger; a
  -- header that is no time counts as modified.
  pub if_modified_since_iff :
      (obj_time : ℕ) (given : Text)
      → (if_modified_since server obj_time given ≡ true) ↔ (
          (server.parse_time given ≡ none)
          ⊎ ((t : ℕ) × (server.parse_time given ≡ some t) × (t + second < obj_time)))
  unfolding if_modified_since
  if_modified_since_iff obj_time given = elim (Option-cases (server.parse_time given)) [
    | inl e ↦ (λ h. inl e, λ h. ground arith)
    | inr (t, e) ↦ (
      λ h. inr (t, e, ground arith),
      λ h. elim h [ inl e' ↦ absurd (cc) | inr (t', e', l) ↦ ground arith ],
    )
  ]

  -- The four conditions, on the values of the headers.
  pub record Passes (info : ObjectInfo) (since unmodified matching none_match : Text) : Type 0 where
    pub since_holds : (since ≡ []) ⊎ (if_modified_since server info.mod_time since ≡ true)
    pub unmodified_holds :
        (unmodified ≡ []) ⊎ (if_modified_since server info.mod_time unmodified ≡ false)
    pub match_holds : (matching ≡ []) ⊎ (is_etag_equal info.md5_sum matching ≡ true)
    pub none_match_holds : (none_match ≡ []) ⊎ (is_etag_equal info.md5_sum none_match ≡ false)

  Passes-iff :
      (info : ObjectInfo) (since unmodified matching none_match : Text) (x y z w : Reply)
      → ((if not (same since []) && not (if_modified_since server info.mod_time since)
            then some x
            else if not (same unmodified []) && if_modified_since server info.mod_time unmodified
            then some y
            else if not (same matching []) && not (is_etag_equal info.md5_sum matching)
            then some z
            else if not (same none_match []) && is_etag_equal info.md5_sum none_match
            then some w
            else none)
          ≡ none)
        ↔ Passes info since unmodified matching none_match
  Passes-iff info since unmodified matching none_match x y z w =
      let a = guard_not_iff since (if_modified_since server info.mod_time since) in
      let b = guard_iff unmodified (if_modified_since server info.mod_time unmodified) in
      let c = guard_not_iff matching (is_etag_equal info.md5_sum matching) in
      let d = guard_iff none_match (is_etag_equal info.md5_sum none_match) in
      let all =
        all_pass (not (same since []) && not (if_modified_since server info.mod_time since))
          (not (same unmodified []) && if_modified_since server info.mod_time unmodified)
          (not (same matching []) && not (is_etag_equal info.md5_sum matching))
          (not (same none_match []) && is_etag_equal info.md5_sum none_match) x y z w in
      (
        λ h.
            let (p, q, r, s) = all.0 h in
            record {
              since_holds = a.0 p;
              unmodified_holds = b.0 q;
              match_holds = c.0 r;
              none_match_holds = d.0 s;
            },
        λ k.
            all.1 (
              a.1 k.since_holds,
              b.1 k.unmodified_holds,
              c.1 k.match_holds,
              d.1 k.none_match_holds,
            ),
      )

  abbrev pub get_or_head : Request → Bool
  get_or_head r = same r.method (codes "GET") || same r.method (codes "HEAD")

  -- A GET or a HEAD of an object with a modification time proceeds exactly when all four
  -- conditions hold, each of which holds where its header is missing.
  pub check_preconditions_iff :
      (r : Request) (info : ObjectInfo)
      → get_or_head r ≡ true
      → has_no_mod_time server info ≡ false
      → (check_preconditions server r info ≡ none)
        ↔ Passes info
            (r.header (codes "If-Modified-Since"))
            (r.header (codes "If-Unmodified-Since"))
            (r.header (codes "If-Match"))
            (r.header (codes "If-None-Match"))
  unfolding check_preconditions
  check_preconditions_iff r info g t =
      let g' : (not (same r.method (codes "GET")) && not (same r.method (codes "HEAD"))) ≡ false =
        ground arith in
      rw (g', t, check_preconditions)
        (Passes-iff info (r.header (codes "If-Modified-Since"))
          (r.header (codes "If-Unmodified-Since")) (r.header (codes "If-Match"))
          (r.header (codes "If-None-Match")) _ _ _ _)

  -- A copy, by PUT, of an object with a modification time and an ETag proceeds exactly when the same
  -- four conditions hold on the headers of the source.
  pub check_copy_object_preconditions_iff :
      (r : Request) (info : ObjectInfo)
      → same r.method (codes "PUT") ≡ true
      → has_no_mod_time server info ≡ false
      → same info.md5_sum [] ≡ false
      → (check_copy_object_preconditions server r info ≡ none)
        ↔ Passes info
            (r.header (codes "x-amz-copy-source-if-modified-since"))
            (r.header (codes "x-amz-copy-source-if-unmodified-since"))
            (r.header (codes "x-amz-copy-source-if-match"))
            (r.header (codes "x-amz-copy-source-if-none-match"))
  unfolding check_copy_object_preconditions
  check_copy_object_preconditions_iff r info g t n =
      rw (g, t, n, check_copy_object_preconditions)
        (Passes-iff info (r.header (codes "x-amz-copy-source-if-modified-since"))
          (r.header (codes "x-amz-copy-source-if-unmodified-since"))
          (r.header (codes "x-amz-copy-source-if-match"))
          (r.header (codes "x-amz-copy-source-if-none-match")) _ _ _ _)
