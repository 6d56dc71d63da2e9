-- ===== src/StreamingSignature.antt =====
-- cmd/streaming-signature-v4.go: the reader of a body in signed chunks, as a state machine.
pub mod Lines
pub mod Signatures
pub mod HexUint
pub mod Reader
pub mod Headers
pub mod Rounds
pub mod Chunks
pub mod Verified
pub mod Extension
use Prim.Native.Nat.{bit_or}
use minio.Base.{
  ℕ, zero, suc, ◌+◌, ◌-◌, ◌*◌, ◌/◌, ◌%◌, ◌^◌, Bool, true, false, not, ◌&&◌, ◌||◌, List, [], ◌∷◌,
  ◌++◌, Option, none, some, ltb, leb, ◌==◌, if◌then◌else◌, length, take, drop,
}
use minio.Base.Text.{Text, codes, same, has_prefix}
use minio.StreamingSignature.Lines.{
  StreamError, Result, is_eof, BufReader, rest_of, read_some, line_of, max_line_length, read_slice,
  is_ascii_space, trim_trailing_whitespace, s3_chunk_signature_str, index, parse_chunk_signature,
  parse_s3_chunk_extension, line_error, read_chunk_line, hex_digit, parse_hex_from, parse_hex_uint,
  read_crlf, eof, unexpected_eof, buffer_full, line_too_long, malformed_encoding, invalid_byte,
  too_large, signature_mismatch, connection, panicked, got, failed,
}
use minio.StreamingSignature.Signatures.{
  Signing, hex_char, hex_encode, join, get_scope, get_signing_key, get_signature, empty_sha256,
  get_chunk_signature,
}

pub data ChunkState : Type 0 where
  read_chunk_header read_chunk_trailer read_chunk verify_chunk : ChunkState

-- `s3ChunkedReader`; the hash is the bytes that were written to it.
pub record S3ChunkedReader : Type 0 where
  pub reader : BufReader
  pub seed_signature : Text
  pub state : ChunkState
  pub last_chunk : Bool
  pub chunk_signature : Text
  pub chunk_sha256_writer : Text
  pub unread : ℕ
  pub err : Option StreamError

abbrev pub s3_chunked_reader :
    BufReader → Text → ChunkState → Bool → Text → Text → ℕ → Option StreamError → S3ChunkedReader
s3_chunked_reader r seed state last signature writer unread err = record {
  reader = r;
  seed_signature = seed;
  state = state;
  last_chunk = last;
  chunk_signature = signature;
  chunk_sha256_writer = writer;
  unread = unread;
  err = err;
}

-- The reader that `newSignV4ChunkedReader` returns for a body and the signature of the headers.
unfoldable pub new_sign_v4_chunked_reader : BufReader → Text → S3ChunkedReader
new_sign_v4_chunked_reader body seed =
    s3_chunked_reader body seed read_chunk_header false [] [] 0 none

-- `readS3ChunkHeader`.
unfoldable pub read_s3_chunk_header : S3ChunkedReader → S3ChunkedReader
read_s3_chunk_header cr =
    let r = read_chunk_line cr.reader in
    elim r.0 [
      | failed e ↦
          s3_chunked_reader r.1 cr.seed_signature cr.state cr.last_chunk cr.chunk_signature
            cr.chunk_sha256_writer cr.unread (some e)
      | got line ↦ elim (parse_hex_uint line.0) [
        | failed e ↦
            s3_chunked_reader r.1 cr.seed_signature cr.state cr.last_chunk cr.chunk_signature
              cr.chunk_sha256_writer 0 (some e)
        | got n ↦
            s3_chunked_reader r.1 cr.seed_signature cr.state cr.last_chunk line.1
              cr.chunk_sha256_writer n (if n == 0 then some eof else none)
      ]
    ]

-- What a call of `Read` gives: the reader afterwards, the bytes at the front of the buffer as far as
-- the number returned counts them, and the error.
pub record ReadOutcome : Type 0 where
  pub after : S3ChunkedReader
  pub bytes : Text
  pub error : Option StreamError

abbrev pub returned : S3ChunkedReader → Text → Option StreamError → ReadOutcome
returned cr bytes err = record { after = cr; bytes = bytes; error = err }

-- One round of the loop of `Read` ends the call or goes on, with so much room left in the buffer and
-- these bytes in it.
pub data Round : Type 0 where
  done : ReadOutcome → Round
  again : S3ChunkedReader → ℕ → Text → Round

-- The first case of the loop, behind `readS3ChunkHeader`.
unfoldable pub after_header : S3ChunkedReader → ℕ → Text → Round
after_header cr room read =
    let s = s3_chunked_reader cr.reader cr.seed_signature in
    elim cr.err [
      | none ↦
          again
            (s read_chunk cr.last_chunk cr.chunk_signature cr.chunk_sha256_writer cr.unread none)
            room read
      | some e ↦
          if cr.unread == 0 && is_eof e
          then again
              (s read_chunk_trailer true cr.chunk_signature cr.chunk_sha256_writer cr.unread
                (some e))
              room read
          else done (returned cr [] (some e))
    ]

unfoldable pub header_round : S3ChunkedReader → ℕ → Text → Round
header_round cr room read = after_header (read_s3_chunk_header cr) room read

unfoldable pub trailer_round : S3ChunkedReader → ℕ → Text → Round
trailer_round cr room read =
    let r = read_crlf cr.reader in
    elim r.0 [
      | some e ↦ done (
          returned
            (s3_chunked_reader r.1 cr.seed_signature cr.state cr.last_chunk cr.chunk_signature
              cr.chunk_sha256_writer cr.unread (some e))
            [] (some malformed_encoding))
      | none ↦
          again
            (s3_chunked_reader r.1 cr.seed_signature verify_chunk cr.last_chunk cr.chunk_signature
              cr.chunk_sha256_writer cr.unread none)
            room read
    ]

unfoldable pub chunk_round : S3ChunkedReader → ℕ → Text → Round
chunk_round cr room read =
    let r = read_some (if ltb cr.unread room then cr.unread else room) cr.reader in
    if room == 0 then done (returned cr read none) else elim r.0 [
      | failed e ↦
          let e' = if is_eof e then unexpected_eof else e in
          done (
            returned
              (s3_chunked_reader r.1 cr.seed_signature cr.state cr.last_chunk cr.chunk_signature
                cr.chunk_sha256_writer cr.unread (some e'))
              [] (some e'))
      | got bytes ↦
          let unread = cr.unread - length bytes in
          again
            (s3_chunked_reader r.1 cr.seed_signature
              (if unread == 0 then read_chunk_trailer else cr.state) cr.last_chunk
              cr.chunk_signature (cr.chunk_sha256_writer ++ bytes) unread none)
            (room - length bytes) (read ++ bytes)
    ]

module _ (s : Signing) where
  unfoldable pub verify_round : S3ChunkedReader → ℕ → Text → Round
  verify_round cr room read =
      let hashed_chunk = hex_encode (s.sha256 cr.chunk_sha256_writer) in
      let new_signature = get_chunk_signature s cr.seed_signature hashed_chunk in
      let next =
        s3_chunked_reader cr.reader new_signature read_chunk_header cr.last_chunk cr.chunk_signature
          [] cr.unread cr.err in
      if not (same cr.chunk_signature new_signature)
      then done (
          returned
            (s3_chunked_reader cr.reader cr.seed_signature cr.state cr.last_chunk cr.chunk_signature
              cr.chunk_sha256_writer cr.unread (some signature_mismatch))
            [] (some signature_mismatch))
      else if cr.last_chunk
      then done (returned next read none)
      else again next room read

  unfoldable pub round : S3ChunkedReader → ℕ → Text → Round
  round cr room read = elim cr.state [
    | read_chunk_header ↦ header_round cr room read
    | read_chunk_trailer ↦ trailer_round cr room read
    | read_chunk ↦ chunk_round cr room read
    | verify_chunk ↦ verify_round cr room read
  ]

  -- `Read`: rounds until one ends the call; `none` is out of fuel.
  unfoldable pub rounds : ℕ → S3ChunkedReader → ℕ → Text → Option ReadOutcome
  rounds zero cr room read = none
  rounds (suc fuel) cr room read = elim (round cr room read) [
    | done o ↦ some o
    | again cr' room' read' ↦ rounds fuel cr' room' read'
  ]

  -- Every round but the verification takes a byte from the body or an arrival, so that this fuel is
  -- enough.
  abbrev pub enough_fuel : S3ChunkedReader → ℕ
  enough_fuel cr = suc (suc (2 * length cr.reader.pending + length cr.reader.arrivals))

  unfoldable pub read : S3ChunkedReader → ℕ → Option ReadOutcome
  read cr len = rounds (enough_fuel cr) cr len []
