-- ===== src/Preconditions/Etags.antt =====
-- The comparison of ETags in cmd/object-handlers-common.go.
use minio.Base.{◌≡◌, ◌↔◌, ap, refl, true, false, [], ◌∷◌, ◌++◌, arith, ◌==◌}
use minio.Base.Text.{Text, same_iff}
use minio.Preconditions.{
  quote, trim_prefix_quote, trim_suffix_quote, canonicalize_etag, is_etag_equal,
}

-- The text has no quote.
abbrev pub Bare : Text → Type 0
Bare [] = Unit
Bare (c ∷ s) = ((c == quote) ≡ false) × Bare s

trim_suffix_quote-Bare : (s : Text) → Bare s → trim_suffix_quote s ≡ s
unfolding trim_suffix_quote
trim_suffix_quote-Bare [] b = refl
trim_suffix_quote-Bare (c ∷ []) b = ground arith
trim_suffix_quote-Bare (c ∷ (d ∷ s)) b = ap (λ t. c ∷ t) (trim_suffix_quote-Bare (d ∷ s) b.1)

trim_suffix_quote-quoted : (s : Text) → Bare s → trim_suffix_quote (s ++ (quote ∷ [])) ≡ s
unfolding trim_suffix_quote
trim_suffix_quote-quoted [] b = refl
trim_suffix_quote-quoted (c ∷ []) b = refl
trim_suffix_quote-quoted (c ∷ (d ∷ s)) b = ap (λ t. c ∷ t) (trim_suffix_quote-quoted (d ∷ s) b.1)

canonicalize_etag-Bare : (s : Text) → Bare s → canonicalize_etag s ≡ s
unfolding canonicalize_etag trim_prefix_quote
canonicalize_etag-Bare [] b = trim_suffix_quote-Bare [] tt
canonicalize_etag-Bare (c ∷ s) b = rw (b.0) (trim_suffix_quote-Bare (c ∷ s) b)

canonicalize_etag-quoted : (s : Text) → Bare s → canonicalize_etag (quote ∷ (s ++ (quote ∷ []))) ≡ s
unfolding canonicalize_etag trim_prefix_quote
canonicalize_etag-quoted s b = trim_suffix_quote-quoted s b

-- An ETag without quotes is equal to another one without quotes exactly when they are the same
-- text, with and without quotes around the one that the client sends.
pub is_etag_equal_iff :
    (etag sent : Text)
    → Bare etag
    → Bare sent
    → ((is_etag_equal etag sent ≡ true) ↔ (etag ≡ sent))
      × ((is_etag_equal etag (quote ∷ (sent ++ (quote ∷ []))) ≡ true) ↔ (etag ≡ sent))
unfolding is_etag_equal
is_etag_equal_iff etag sent b b' = (
  rw (canonicalize_etag-Bare etag b, canonicalize_etag-Bare sent b') (same_iff etag sent),
  rw (canonicalize_etag-Bare etag b, canonicalize_etag-quoted sent b') (same_iff etag sent),
)
