-- ===== src/StreamingSignature/Verified.antt =====
-- What `s3ChunkedReader.Read` of cmd/streaming-signature-v4.go returns are the bytes of signed chunks.
use mathlib.Core.Path.{subst}
use mathlib.Core.List.{append-nil}
use minio.Base.{
  ℕ, zero, suc, ◌+◌, ◌<◌, ◌≡◌, refl, ◌∙◌, Bool, List, [], ◌∷◌, ◌++◌, Option, none, some, arith,
  length, inl, inr,
}
use minio.Base.Text.{Text}
use minio.StreamingSignature.Lines.{StreamError, BufReader}
use minio.StreamingSignature.Signatures.{Signing}
use minio.StreamingSignature.{
  S3ChunkedReader, ChunkState, read_chunk_header, read_chunk_trailer, read_chunk, verify_chunk,
  s3_chunked_reader, ReadOutcome, Round, done, again, round, rounds, read, enough_fuel,
  new_sign_v4_chunked_reader,
}
use minio.StreamingSignature.Reader.{left}
use minio.StreamingSignature.Chunks.{Chunk, frames, datas, Signed, Follows, Delivers}
use minio.StreamingSignature.Rounds.{
  weight, Continues, header_round-Continues, trailer_round-Continues, chunk_round-Continues,
  verify_round-Continues,
}

plus_zero : (n : ℕ) → n ≡ n + 0
plus_zero n = omega arith

module _ (s : Signing) (seed body before : Text) (len : ℕ) where
  at_weight :
      (n : ℕ) (x : Round)
      → Continues s seed body before len n x
      → Continues s seed body before len (n + 0) x
  at_weight n x h = subst (λ m. Continues s seed body before len m x) (plus_zero n) h

  round-Continues :
      (st : ChunkState) (vs : List Chunk) (r : BufReader) (sg w : Text) (u room : ℕ) (last : Bool)
      (err : Option StreamError) (bytes sd : Text)
      → Follows s seed body vs (s3_chunked_reader r sd st last sg w u err)
      → length bytes + room ≡ len
      → before ++ bytes ≡ datas vs ++ w
      → Continues s seed body before len
          (weight s seed (s3_chunked_reader r sd st last sg w u err))
          (round s (s3_chunked_reader r sd st last sg w u err) room bytes)
  unfolding round
  round-Continues read_chunk_header vs r sg w u room last err bytes sd f h k =
      at_weight (left r) _
        (header_round-Continues s seed body before len vs r sg w u room last err bytes sd f h k)
  round-Continues read_chunk_trailer vs r sg w u room last err bytes sd f h k =
      at_weight (left r) _
        (trailer_round-Continues s seed body before len vs r sg w u room last err bytes sd f h k)
  round-Continues read_chunk vs r sg w u room last err bytes sd f h k =
      at_weight (left r) _
        (chunk_round-Continues s seed body before len vs r sg w u room last err bytes sd f h k)
  round-Continues verify_chunk vs r sg w u room last err bytes sd f h k =
      verify_round-Continues s seed body before len vs r sg w u room last err bytes sd f h k

  rounds-Delivers :
      (fuel : ℕ) (cr : S3ChunkedReader) (room : ℕ) (bytes : Text) (vs : List Chunk)
      → weight s seed cr < fuel
      → Follows s seed body vs cr
      → length bytes + room ≡ len
      → before ++ bytes ≡ datas vs ++ cr.chunk_sha256_writer
      → (o : ReadOutcome) × (rounds s fuel cr room bytes ≡ some o)
        × Delivers s seed body before len o
  unfolding rounds
  rounds-Delivers zero cr room bytes vs f g h k = absurd (omega arith)
  rounds-Delivers (suc fuel) cr room bytes vs f g h k =
      elim (round s cr room bytes)
          as (λ x.
            Continues s seed body before len (weight s seed cr) x
            → (o : ReadOutcome) × (elim x [
              | done o ↦ some o
              | again cr' room' bytes' ↦ rounds s fuel cr' room' bytes'
            ]
                ≡ some o)
              × Delivers s seed body before len o) [
                | done o ↦ λ d. (o, refl, d)
                | again cr' room' bytes' ↦ λ (less, h', rest).
                    let (vs', g', k') = rest in
                    rounds-Delivers fuel cr' room' bytes' vs' (omega (arith, less, f)) g' h' k'
              ]
        (round-Continues cr.state vs cr.reader cr.chunk_signature cr.chunk_sha256_writer cr.unread
          room cr.last_chunk cr.err bytes cr.seed_signature g h k)

weight-lt : (s : Signing) (seed : Text) (cr : S3ChunkedReader) → weight s seed cr < enough_fuel s cr
weight-lt s seed cr =
    elim cr.state
      as (λ st. left cr.reader + elim st [ verify_chunk ↦ 1 | _ ↦ 0 ] < enough_fuel s cr) [
        | read_chunk_header ↦ omega arith
        | read_chunk_trailer ↦ omega arith
        | read_chunk ↦ omega arith
        | verify_chunk ↦ omega arith
      ]

-- A call of Read on a reader that stands behind verified chunks ends, however the body arrives:
-- with an error, with the buffer full, or behind a verified empty chunk. In the last two cases the
-- bytes returned so far, with those of the calls before, are the data of chunks of the body whose
-- signatures continue each other from the seed on, followed by what of the current chunk is
-- already read.
pub read-Delivers :
    (s : Signing) (seed body before : Text) (cr : S3ChunkedReader) (vs : List Chunk) (len : ℕ)
    → Follows s seed body vs cr
    → before ≡ datas vs ++ cr.chunk_sha256_writer
    → (o : ReadOutcome) × (read s cr len ≡ some o) × Delivers s seed body before len o
unfolding read
read-Delivers s seed body before cr vs len f k =
    rounds-Delivers s seed body before len (enough_fuel s cr) cr len [] vs (weight-lt s seed cr) f
      (omega arith) (append-nil before ∙ k)

-- A body is read to its end by one call that fails with no error and leaves room in the buffer: what
-- the call returns are then the data of the chunks at the front of the body, each as long as its line
-- announces and with a signature that continues the one before, from that of the headers on, and the
-- last chunk is empty.
pub read-whole :
    (s : Signing) (seed : Text) (body : BufReader) (len : ℕ) (o : ReadOutcome)
    → read s (new_sign_v4_chunked_reader body seed) len ≡ some o
    → o.error ≡ none
    → length o.bytes < len
    → (c : Chunk) × (older : List Chunk) × (c.bytes ≡ [])
      × Signed s seed (c ∷ older)
      × (body.pending ≡ frames (c ∷ older) ++ o.after.reader.pending)
      × (o.bytes ≡ datas (c ∷ older))
unfolding new_sign_v4_chunked_reader
read-whole s seed body len o e ok room =
    let (o', e', d) =
      read-Delivers s seed body.pending [] (new_sign_v4_chunked_reader body seed) [] len
        (tt, refl, (refl, refl, refl)) refl in
    let same_outcome : o' ≡ o = cc in
    elim (subst (Delivers s seed body.pending [] len) same_outcome d) [
      | inl (vs, f, full, k, n) ↦ absurd (omega arith)
      | inr (inl (c, older, signed, empty, whole, k, n)) ↦ (c, older, empty, signed, whole, k)
      | inr (inr n) ↦ absurd (n ok)
    ]
