-- ===== src/StreamingSignature/Lines.antt =====
-- What cmd/streaming-signature-v4.go reads of a body: bytes, lines, chunk sizes and signatures.
use Prim.Native.Nat.{bit_or}
use minio.Base.{
  ℕ, suc, ◌+◌, ◌-◌, ◌*◌, ◌%◌, ◌^◌, Bool, true, false, not, ◌&&◌, ◌||◌, List, [], ◌∷◌, Option, none,
  some, ltb, leb, ◌==◌, if◌then◌else◌, length, take, drop,
}
use minio.Base.Text.{Text, codes, has_prefix}

-- The errors of the reader; `connection` is what else the connection may end with, and `panicked` is
-- an index out of range.
pub data StreamError : Type 0 where
  eof unexpected_eof buffer_full line_too_long malformed_encoding invalid_byte too_large :
      StreamError
  signature_mismatch connection panicked : StreamError

pub data Result (A : Type 0) : Type 0 where
  got : A → Result A
  failed : StreamError → Result A

abbrev pub is_eof : StreamError → Bool
is_eof eof = true
is_eof _ = false

-- `bufio.Reader` over the body: what is still to come, how many bytes the next calls of `Read` find,
-- and what the connection ends with.
pub record BufReader : Type 0 where
  pub pending : Text
  pub arrivals : List ℕ
  pub ending : StreamError

abbrev pub rest_of : BufReader → Text → List ℕ → BufReader
rest_of r pending arrivals = record { pending = pending; arrivals = arrivals; ending = r.ending }

-- `Read` into a buffer of some length; what arrives late is left for the next call.
unfoldable pub read_some : ℕ → BufReader → Result Text × BufReader
read_some len r = elim r.pending [
  | [] ↦ (failed r.ending, r)
  | x ∷ s ↦ elim r.arrivals [
    | [] ↦ (got (take len r.pending), rest_of r (drop len r.pending) [])
    | n ∷ arrivals ↦
        let now = if ltb n len then n else len in
        (got (take now r.pending), rest_of r (drop now r.pending) arrivals)
  ]
]

-- Up to the first newline, with it.
unfoldable pub line_of : Text → Option Text
line_of [] = none
line_of (b ∷ s) =
    if b == 10 then some (b ∷ []) else elim (line_of s) [ none ↦ none | some l ↦ some (b ∷ l) ]

-- The size of the buffer, and `maxLineLength`.
abbrev pub max_line_length : ℕ
max_line_length = 4096

-- `ReadSlice('\n')`.
unfoldable pub read_slice : BufReader → Result Text × BufReader
read_slice r = elim (line_of (take max_line_length r.pending)) [
  | some line ↦ (got line, rest_of r (drop (length line) r.pending) r.arrivals)
  | none ↦
      if leb max_line_length (length r.pending)
      then (failed buffer_full, rest_of r (drop max_line_length r.pending) r.arrivals)
      else (failed r.ending, rest_of r [] r.arrivals)
]

-- `isASCIISpace`.
unfoldable pub is_ascii_space : ℕ → Bool
is_ascii_space b = b == 32 || b == 9 || b == 10 || b == 13

-- `trimTrailingWhitespace`.
unfoldable pub trim_trailing_whitespace : Text → Text
trim_trailing_whitespace [] = []
trim_trailing_whitespace (b ∷ s) = elim (trim_trailing_whitespace s) [
  | [] ↦ if is_ascii_space b then [] else b ∷ []
  | c ∷ t ↦ b ∷ c ∷ t
]

abbrev pub s3_chunk_signature_str : Text
s3_chunk_signature_str = codes ";chunk-signature="

-- `bytes.Index`.
unfoldable pub index : Text → Text → Option ℕ
index [] sep = if has_prefix [] sep then some 0 else none
index (b ∷ s) sep =
    if has_prefix (b ∷ s) sep
    then some 0
    else elim (index s sep) [ none ↦ none | some i ↦ some (suc i) ]

-- `parseChunkSignature`: what `bytes.SplitN` finds behind the first separator; `none` is a panic.
unfoldable pub parse_chunk_signature : Text → Option Text
parse_chunk_signature chunk = elim (index chunk s3_chunk_signature_str) [
  | none ↦ none
  | some i ↦ some (drop (i + length s3_chunk_signature_str) chunk)
]

-- `parseS3ChunkExtension`; nil is the empty signature.
unfoldable pub parse_s3_chunk_extension : Text → Option (Text × Text)
parse_s3_chunk_extension buf =
    let trimmed = trim_trailing_whitespace buf in
    elim (index trimmed s3_chunk_signature_str) [
      | none ↦ some (trimmed, [])
      | some semi ↦ elim (parse_chunk_signature (drop semi trimmed)) [
        | none ↦ none
        | some signature ↦ some (take semi trimmed, signature)
      ]
    ]

abbrev pub line_error : StreamError → StreamError
line_error eof = unexpected_eof
line_error buffer_full = line_too_long
line_error e = e

-- `readChunkLine`.
unfoldable pub read_chunk_line : BufReader → Result (Text × Text) × BufReader
read_chunk_line b =
    let r = read_slice b in
    elim r.0 [
      | failed e ↦ (failed (line_error e), r.1)
      | got buf ↦
          if leb max_line_length (length buf)
          then (failed line_too_long, r.1)
          else elim (parse_s3_chunk_extension buf) [
            | none ↦ (failed panicked, r.1)
            | some p ↦ (got p, r.1)
          ]
    ]

unfoldable pub hex_digit : ℕ → Option ℕ
hex_digit b =
    if leb 48 b && leb b 57
    then some (b - 48)
    else if leb 97 b && leb b 102
    then some (b - 97 + 10)
    else if leb 65 b && leb b 70
    then some (b - 65 + 10)
    else none

-- The loop of `parseHexUint` from an index on.
unfoldable pub parse_hex_from : ℕ → ℕ → Text → Result ℕ
parse_hex_from i n [] = got n
parse_hex_from i n (b ∷ v) = elim (hex_digit b) [
  | none ↦ failed invalid_byte
  | some d ↦
      let rest = parse_hex_from (suc i) (bit_or (n * 16 % 2 ^ 64) d) v in
      if i == 16 then failed too_large else rest
]

unfoldable pub parse_hex_uint : Text → Result ℕ
parse_hex_uint v = parse_hex_from 0 0 v

-- `readCRLF`: the error, or `none`.
unfoldable pub read_crlf : BufReader → Option StreamError × BufReader
read_crlf r = elim r.pending [
  | [] ↦ (some r.ending, r)
  | a ∷ [] ↦ (some (if is_eof r.ending then unexpected_eof else r.ending), rest_of r [] r.arrivals)
  | a ∷ b ∷ s ↦ (
    if not (a == 13) || not (b == 10) then some malformed_encoding else none,
    rest_of r s r.arrivals,
  )
]
