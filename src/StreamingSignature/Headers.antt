-- ===== src/StreamingSignature/Headers.antt =====
-- How `readS3ChunkHeader` of cmd/streaming-signature-v4.go ends.
use mathlib.Core.List.{append_assoc}
use minio.Base.{
  ℕ, ◌≡◌, ◌≢◌, refl, sym, ap, ◌∙◌, Bool, true, false, ◌&&◌, ◌++◌, none, some, arith, ◌==◌,
  if◌then◌else◌,
}
use minio.Base.Text.{Text}
use minio.StreamingSignature.Lines.{
  got, failed, StreamError, BufReader, read_chunk_line, parse_hex_uint, eof,
}
use minio.StreamingSignature.{S3ChunkedReader, s3_chunked_reader, read_s3_chunk_header}
use minio.StreamingSignature.Chunks.{crlf}

pub and_false : (b : Bool) → b && false ≡ false
and_false true = refl
and_false false = refl

pub both : (b : Bool) → b ≡ true → b ≢ false
both b h k = ground arith

pub frame_append :
    (a b c p : Text) → a ++ (b ++ (c ++ (crlf ++ p))) ≡ (a ++ (b ++ (c ++ crlf))) ++ p
frame_append a b c p =
    ap (λ x. a ++ (b ++ x)) (sym (append_assoc c crlf p))
    ∙ (ap (◌++◌ a) (sym (append_assoc b (c ++ crlf) p)) ∙ sym (append_assoc a (b ++ (c ++ crlf)) p))

-- What `readS3ChunkHeader` makes of the reader.
pub no_line :
    (cr : S3ChunkedReader) (e : StreamError)
    → (read_chunk_line cr.reader).0 ≡ failed e
    → read_s3_chunk_header cr
      ≡ s3_chunked_reader
          (read_chunk_line cr.reader).1
          cr.seed_signature
          cr.state
          cr.last_chunk
          cr.chunk_signature
          cr.chunk_sha256_writer
          cr.unread
          (some e)
unfolding read_s3_chunk_header
no_line cr e f = rw (f, read_s3_chunk_header) refl

pub no_size :
    (cr : S3ChunkedReader) (e : StreamError) (q : Text × Text) (r : BufReader)
    → read_chunk_line cr.reader ≡ (got q, r)
    → parse_hex_uint q.0 ≡ failed e
    → read_s3_chunk_header cr
      ≡ s3_chunked_reader r cr.seed_signature cr.state cr.last_chunk cr.chunk_signature
          cr.chunk_sha256_writer 0
          (some e)
unfolding read_s3_chunk_header
no_size cr e q r f g = rw (ap (λ p. p.0) f, g, read_s3_chunk_header) (rw (ap (λ p. p.1) f) refl)

pub sized :
    (cr : S3ChunkedReader) (n : ℕ) (q : Text × Text) (r : BufReader)
    → read_chunk_line cr.reader ≡ (got q, r)
    → parse_hex_uint q.0 ≡ got n
    → read_s3_chunk_header cr
      ≡ s3_chunked_reader r cr.seed_signature cr.state cr.last_chunk q.1 cr.chunk_sha256_writer n
          (if n == 0 then some eof else none)
unfolding read_s3_chunk_header
sized cr n q r f g = rw (ap (λ p. p.0) f, g, read_s3_chunk_header) (rw (ap (λ p. p.1) f) refl)
