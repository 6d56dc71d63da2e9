-- ===== src/StreamingSignature/Extension.antt =====
-- `parseS3ChunkExtension` of cmd/streaming-signature-v4.go.
use minio.Base.{
  ℕ, suc, ◌≡◌, ◌≢◌, ◌⊎◌, refl, sym, ap, ◌∙◌, true, [], ◌∷◌, ◌++◌, none, some, length, take, drop,
  inl, inr, Bool-cases, Option-cases, take-append-drop, drop-append_self,
}
use minio.Base.Text.{Text, has_prefix, has_prefix_iff}
use minio.StreamingSignature.Lines.{
  index, parse_chunk_signature, parse_s3_chunk_extension, trim_trailing_whitespace,
  s3_chunk_signature_str,
}

some_inj : (a b : ℕ) → some a ≡ some b → a ≡ b
some_inj a b h = cc

none_ne : (a : ℕ) → none ≢ some a
none_ne a h = cc

here : (s sep : Text) → has_prefix s sep ≡ true → index s sep ≡ some 0
unfolding index
here [] sep h = rw (h, index) refl
here (b ∷ s) sep h = rw (h, index) refl

-- Where `bytes.Index` finds a text, it begins.
index-prefix : (s sep : Text) (i : ℕ) → index s sep ≡ some i → has_prefix (drop i s) sep ≡ true
unfolding index
index-prefix [] sep i h = elim (Bool-cases (has_prefix [] sep)) [
  | inl t ↦ let e : i ≡ 0 = some_inj i 0 (sym h ∙ here [] sep t) in rw e t
  | inr t ↦ let e : none ≡ some i = rw t at h in absurd (none_ne i e)
]
index-prefix (b ∷ s) sep i h = elim (Bool-cases (has_prefix (b ∷ s) sep)) [
  | inl t ↦ let e : i ≡ 0 = some_inj i 0 (sym h ∙ here (b ∷ s) sep t) in rw e t
  | inr t ↦ elim (Option-cases (index s sep)) [
    | inl n ↦ let e : none ≡ some i = rw (t, n) at h in absurd (none_ne i e)
    | inr (j, n) ↦
        let e : some (suc j) ≡ some i = rw (t, n) at h in
        rw (← some_inj (suc j) i e) (index-prefix s sep j n)
  ]
]

-- `parseS3ChunkExtension` always returns, with no index out of range: where the line without its
-- trailing white space holds the separator, it is the size, the separator and the signature, and
-- elsewhere the whole of it is the size.
pub parse_s3_chunk_extension-splits :
    (buf : Text)
    → (size : Text) × (signature : Text) × (parse_s3_chunk_extension buf ≡ some (size, signature))
      × ((trim_trailing_whitespace buf ≡ size ++ (s3_chunk_signature_str ++ signature))
          ⊎ ((index (trim_trailing_whitespace buf) s3_chunk_signature_str ≡ none)
              × (size ≡ trim_trailing_whitespace buf)
              × (signature ≡ [])))
unfolding parse_s3_chunk_extension parse_chunk_signature
parse_s3_chunk_extension-splits buf =
    let t = trim_trailing_whitespace buf in
    let sep = s3_chunk_signature_str in
    elim (Option-cases (index t sep)) [
      | inl n ↦ (t, [], rw (n, parse_s3_chunk_extension) refl, inr (n, refl, refl))
      | inr (i, n) ↦
          let starts = index-prefix t sep i n in
          let (rest, e) = (has_prefix_iff (drop i t) sep).0 starts in
          let again = here (drop i t) sep starts in
          let behind : drop (length sep) (drop i t) ≡ rest =
            ap (drop (length sep)) e ∙ drop-append_self sep rest in
          (
            take i t,
            rest,
            rw (n, again, parse_s3_chunk_extension, parse_chunk_signature)
                (ap (λ x. some (take i t, x)) behind),
            inl (sym (take-append-drop i t) ∙ ap (◌++◌ (take i t)) e),
          )
    ]
