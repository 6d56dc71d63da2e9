-- ===== src/Tests/StreamingSignature.antt =====
-- Runs of the chunked reader of cmd/streaming-signature-v4.go on a body of one chunk and the empty one,
-- with a hash and a code of a few bytes.
use minio.Base.{
  ◌%◌, ◌≤◌, ◌≡◌, ◌↔◌, refl, List, [], ◌∷◌, ◌++◌, Option, none, some, arith, length, take,
}
use minio.Base.Text.{Text, codes, text_discrete, has_prefix}
use minio.StreamingSignature.Lines.{
  got, StreamError, eof, unexpected_eof, BufReader, read_some, line_of, read_slice, is_ascii_space,
  trim_trailing_whitespace, index, parse_chunk_signature, parse_s3_chunk_extension, read_chunk_line,
  hex_digit, parse_hex_from, parse_hex_uint, read_crlf,
}
use minio.StreamingSignature.Signatures.{
  Signing, hex_encode, join, get_scope, get_signing_key, get_signature, get_chunk_signature,
}
use minio.StreamingSignature.{
  S3ChunkedReader, new_sign_v4_chunked_reader, read_s3_chunk_header, ReadOutcome, returned,
  after_header, header_round, trailer_round, chunk_round, verify_round, round, rounds, read,
}
use minio.StreamingSignature.HexUint.{IsHex, value, parse_hex_uint_iff}
use minio.StreamingSignature.Chunks.{Chunk, frames, datas, Signed, Delivers}
use minio.StreamingSignature.Verified.{read-Delivers, read-whole}

program : Unit {0}
unfolding read_some line_of read_slice is_ascii_space trim_trailing_whitespace index
    parse_chunk_signature parse_s3_chunk_extension read_chunk_line hex_digit parse_hex_from
    parse_hex_uint read_crlf hex_encode join get_scope get_signing_key get_signature
    get_chunk_signature new_sign_v4_chunked_reader read_s3_chunk_header after_header header_round
    trailer_round chunk_round verify_round round rounds read text_discrete has_prefix
program = tt

-- A code that keeps the length of what it signs, and a hash that keeps the first byte.
abbrev signing : Signing
signing = record {
  sum_hmac = λ key text. length text % 256 ∷ [];
  sha256 = λ bytes. take 1 bytes;
  secret_key = codes "secret";
  region = codes "here";
  iso8601 = codes "now";
  yyyymmdd = codes "today";
}

abbrev crlf : Text
crlf = 13 ∷ 10 ∷ []

abbrev signature_of_chunk : Text
signature_of_chunk = get_chunk_signature signing (codes "seed") (codes "61")

abbrev signature_of_end : Text
signature_of_end = get_chunk_signature signing signature_of_chunk []

abbrev body : BufReader
body = record {
  pending =
      codes "2;chunk-signature="
      ++ (signature_of_chunk
          ++ (crlf
              ++ (codes "ab"
                  ++ (crlf
                      ++ (codes "0;chunk-signature=" ++ (signature_of_end ++ (crlf ++ crlf)))))));
  arrivals = 1 ∷ [];
  ending = eof;
}

abbrev start : S3ChunkedReader
start = new_sign_v4_chunked_reader body (codes "seed")

bytes_of : Option ReadOutcome → Option (Text × Option StreamError)
bytes_of none = none
bytes_of (some o) = some (o.bytes, o.error)

read_test : bytes_of (read signing start 5) ≡ some (codes "ab", none)
unfolding program bytes_of
read_test = refl

-- What the call leaves.
abbrev outcome : ReadOutcome
unfolding program
outcome = elim (read signing start 5) [ none ↦ returned start [] none | some o ↦ o ]

-- Behind the last chunk a further call fails with `io.ErrUnexpectedEOF`.
read_again_test : bytes_of (read signing outcome.after 5) ≡ some ([], some unexpected_eof)
unfolding program bytes_of outcome
read_again_test = refl

-- A line with no size counts as the one of the last chunk.
parse_hex_uint_test : parse_hex_uint [] ≡ got 0
unfolding program
parse_hex_uint_test = refl

-- The buffer is full before the chunk is.
read-Delivers_example :
    (o : ReadOutcome) × (read signing start 1 ≡ some o)
    × Delivers signing (codes "seed") body.pending [] 1 o
unfolding program
read-Delivers_example =
    read-Delivers signing (codes "seed") body.pending [] start [] 1 (tt, refl, (refl, refl, refl))
      refl

read-whole_example :
    (c : Chunk) × (older : List Chunk) × (c.bytes ≡ [])
    × Signed signing (codes "seed") (c ∷ older)
    × (body.pending ≡ frames (c ∷ older) ++ outcome.after.reader.pending)
    × (outcome.bytes ≡ datas (c ∷ older))
unfolding program outcome
read-whole_example = read-whole signing (codes "seed") body 5 outcome refl refl (omega arith)

parse_hex_uint_iff_example :
    (parse_hex_uint (codes "1F") ≡ got 31)
    ↔ (IsHex (codes "1F") × (2 ≤ 16) × (31 ≡ value (codes "1F")))
parse_hex_uint_iff_example = parse_hex_uint_iff (codes "1F") 31

abbrev line : Text
line = codes "10;chunk-signature=ab "
