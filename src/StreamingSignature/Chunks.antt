-- ===== src/StreamingSignature/Chunks.antt =====
-- The chunks of a body as cmd/streaming-signature-v4.go reads them, and where a reader stands in them.
use minio.Base.{ℕ, ◌+◌, ◌<◌, ◌≡◌, ◌≢◌, ◌⊎◌, true, false, List, [], ◌∷◌, ◌++◌, none, some, length}
use minio.Base.Text.{Text}
use minio.StreamingSignature.Lines.{got, parse_s3_chunk_extension, parse_hex_uint}
use minio.StreamingSignature.Signatures.{hex_encode, Signing, get_chunk_signature}
use minio.StreamingSignature.{
  S3ChunkedReader, ChunkState, read_chunk_header, read_chunk_trailer, read_chunk, verify_chunk,
  ReadOutcome,
}

-- A chunk of the body: its first line, its data, and the signature in the line.
pub record Chunk : Type 0 where
  pub line : Text
  pub bytes : Text
  pub signature : Text

abbrev pub crlf : Text
crlf = 13 ∷ 10 ∷ []

-- The chunks, the newest one first, as they stand in the body, and their data.
abbrev pub frames : List Chunk → Text
frames [] = []
frames (c ∷ older) = frames older ++ (c.line ++ (c.bytes ++ crlf))

abbrev pub datas : List Chunk → Text
datas [] = []
datas (c ∷ older) = datas older ++ c.bytes

-- A line announces a signature and a number of bytes.
abbrev pub Announces : Text → Text → ℕ → Type 0
Announces line signature n =
    (size : Text) × (parse_s3_chunk_extension line ≡ some (size, signature))
    × (parse_hex_uint size ≡ got n)

module _ (s : Signing) (seed : Text) where
  -- The signature of data that follow some signature.
  abbrev pub sign : Text → Text → Text
  sign before bytes = get_chunk_signature s before (hex_encode (s.sha256 bytes))

  abbrev pub seed_after : List Chunk → Text
  seed_after [] = seed
  seed_after (c ∷ older) = sign (seed_after older) c.bytes

  -- Every chunk has the length that its line announces, and a signature that continues the one of the
  -- chunk before.
  abbrev pub Signed : List Chunk → Type 0
  Signed [] = Unit
  Signed (c ∷ older) =
      Announces c.line c.signature (length c.bytes)
      × (c.signature ≡ sign (seed_after older) c.bytes)
      × Signed older

  -- Where the reader stands in the body behind the chunks that it has verified.
  abbrev pub At : ChunkState → Text → List Chunk → S3ChunkedReader → Type 0
  At read_chunk_header body vs cr =
      (body ≡ frames vs ++ cr.reader.pending)
      × (cr.chunk_sha256_writer ≡ [])
      × (cr.last_chunk ≡ false)
  At read_chunk body vs cr =
      (line : Text) × (body ≡ frames vs ++ (line ++ (cr.chunk_sha256_writer ++ cr.reader.pending)))
      × Announces line cr.chunk_signature (length cr.chunk_sha256_writer + cr.unread)
      × (0 < cr.unread)
      × (cr.last_chunk ≡ false)
  At read_chunk_trailer body vs cr =
      (line : Text) × (body ≡ frames vs ++ (line ++ (cr.chunk_sha256_writer ++ cr.reader.pending)))
      × Announces line cr.chunk_signature (length cr.chunk_sha256_writer)
      × (cr.last_chunk ≡ true → cr.chunk_sha256_writer ≡ [])
  At verify_chunk body vs cr =
      (line : Text) × (body
        ≡ frames vs ++ (line ++ (cr.chunk_sha256_writer ++ (crlf ++ cr.reader.pending))))
      × Announces line cr.chunk_signature (length cr.chunk_sha256_writer)
      × (cr.last_chunk ≡ true → cr.chunk_sha256_writer ≡ [])

  abbrev pub Follows : Text → List Chunk → S3ChunkedReader → Type 0
  Follows body vs cr = Signed vs × (cr.seed_signature ≡ seed_after vs) × At cr.state body vs cr

  -- What a call leaves, with the bytes that were returned before it: more to come with the buffer
  -- full, or all chunks verified, the last of them empty; or an error.
  abbrev pub Delivers : Text → Text → ℕ → ReadOutcome → Type 0
  Delivers body before len o =
      ((vs : List Chunk) × Follows body vs o.after
        × (length o.bytes ≡ len)
        × (before ++ o.bytes ≡ datas vs ++ o.after.chunk_sha256_writer)
        × (o.error ≡ none))
      ⊎ (((c : Chunk) × (older : List Chunk) × Signed (c ∷ older)
            × (c.bytes ≡ [])
            × (body ≡ frames (c ∷ older) ++ o.after.reader.pending)
            × (before ++ o.bytes ≡ datas (c ∷ older))
            × (o.error ≡ none))
          ⊎ (o.error ≢ none))
