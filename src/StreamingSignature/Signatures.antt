-- ===== src/StreamingSignature/Signatures.antt =====
-- The signature of a chunk in cmd/streaming-signature-v4.go, with `getScope`, `getSigningKey` and
-- `getSignature` of cmd/signature-v4.go.
use minio.Base.{ℕ, ◌+◌, ◌/◌, ◌%◌, List, [], ◌∷◌, ◌++◌, ltb, if◌then◌else◌}
use minio.Base.Text.{Text, codes}

-- `crypto/hmac` and `crypto/sha256`, and what is known of the request and the server: the secret key,
-- the region, and the date in the two formats.
pub record Signing : Type 0 where
  pub sum_hmac : Text → Text → Text
  pub sha256 : Text → Text
  pub secret_key : Text
  pub region : Text
  pub iso8601 : Text
  pub yyyymmdd : Text

-- `hex.EncodeToString`.
abbrev pub hex_char : ℕ → ℕ
hex_char d = if ltb d 10 then 48 + d else 87 + d

unfoldable pub hex_encode : Text → Text
hex_encode [] = []
hex_encode (b ∷ s) = hex_char (b / 16) ∷ hex_char (b % 16) ∷ hex_encode s

-- `strings.Join`.
unfoldable pub join : List Text → Text → Text
join [] sep = []
join (a ∷ []) sep = a
join (a ∷ b ∷ l) sep = a ++ (sep ++ join (b ∷ l) sep)

module _ (s : Signing) where
  unfoldable pub get_scope : Text
  get_scope = join (s.yyyymmdd ∷ s.region ∷ codes "s3" ∷ codes "aws4_request" ∷ []) (codes "/")

  unfoldable pub get_signing_key : Text
  get_signing_key =
      let date = s.sum_hmac (codes "AWS4" ++ s.secret_key) s.yyyymmdd in
      let region_bytes = s.sum_hmac date s.region in
      let service = s.sum_hmac region_bytes (codes "s3") in
      s.sum_hmac service (codes "aws4_request")

  unfoldable pub get_signature : Text → Text → Text
  get_signature signing_key string_to_sign = hex_encode (s.sum_hmac signing_key string_to_sign)

  abbrev pub empty_sha256 : Text
  empty_sha256 = codes "e3b0c44298fc1c149afbf4c8996fb92427ae41e4649b934ca495991b7852b855"

  unfoldable pub get_chunk_signature : Text → Text → Text
  get_chunk_signature seed_signature hashed_chunk = get_signature get_signing_key (
      codes "AWS4-HMAC-SHA256-PAYLOAD"
      ++ (10 ∷ s.iso8601)
      ++ (10 ∷ get_scope)
      ++ (10 ∷ seed_signature)
      ++ (10 ∷ empty_sha256)
      ++ (10 ∷ hashed_chunk))
