-- ===== src/StreamingSignature/Rounds.antt =====
-- One round of `s3ChunkedReader.Read` in cmd/streaming-signature-v4.go keeps what was verified, returns what
-- was read, or goes on with less to do.
use mathlib.Core.Path.{subst}
use mathlib.Core.List.{append-nil, append_assoc}
use minio.Base.{
  ℕ, ◌+◌, ◌-◌, ◌*◌, ◌≤◌, ◌<◌, ◌≡◌, ◌≢◌, refl, sym, ap, ◌∙◌, Bool, List, ◌∷◌, ◌++◌, Option, none,
  some, arith, ltb, ◌==◌, if◌then◌else◌, length, inl, inr, Bool-cases, Option-cases, length-append,
}
use minio.Base.Text.{Text, same, same_iff}
use minio.StreamingSignature.Lines.{
  got, StreamError, BufReader, read_some, parse_hex_uint, read_crlf,
}
use minio.StreamingSignature.Signatures.{Signing}
use minio.StreamingSignature.{
  S3ChunkedReader, read_chunk_header, read_chunk_trailer, read_chunk, verify_chunk,
  s3_chunked_reader, Round, done, again, header_round, after_header, trailer_round, chunk_round,
  verify_round,
}
use minio.StreamingSignature.HexUint.{parse_hex_uint-not_eof}
use minio.StreamingSignature.Reader.{
  Result-cases, read_chunk_line-TakesLine, read_crlf-none, read_some-got, left,
}
use minio.StreamingSignature.Chunks.{
  Chunk, frames, datas, sign, seed_after, Signed, Follows, Delivers,
}
use minio.StreamingSignature.Headers.{and_false, both, frame_append, no_line, no_size, sized}

module _ (s : Signing) (seed : Text) where
  abbrev pub weight : S3ChunkedReader → ℕ
  weight cr = left cr.reader + elim cr.state [ verify_chunk ↦ 1 | _ ↦ 0 ]

  abbrev pub Continues : Text → Text → ℕ → ℕ → Round → Type 0
  Continues body before len w (done o) = Delivers s seed body before len o
  Continues body before len w (again cr room bytes) =
      (weight cr < w)
      × (length bytes + room ≡ len)
      × ((vs : List Chunk) × Follows s seed body vs cr
          × (before ++ bytes ≡ datas vs ++ cr.chunk_sha256_writer))

  module _ (body before : Text) (len : ℕ) where
    some_ne : (e : StreamError) → some e ≢ none
    some_ne e h = cc

    pub trailer_round-Continues :
        (vs : List Chunk) (r : BufReader) (sg w : Text) (u room : ℕ) (last : Bool)
        (err : Option StreamError) (bytes sd : Text)
        → Follows s seed body vs (s3_chunked_reader r sd read_chunk_trailer last sg w u err)
        → length bytes + room ≡ len
        → before ++ bytes ≡ datas vs ++ w
        → Continues body before len
            (left r)
            (trailer_round (s3_chunked_reader r sd read_chunk_trailer last sg w u err) room bytes)
    unfolding trailer_round
    trailer_round-Continues vs r sg w u room last err bytes sd (signed, sd_eq, here) h k =
        let (line, at, announces, ended) = here in
        elim (Option-cases (read_crlf r).0) [
          | inr (e, f) ↦ rw (f, trailer_round) (inr (inr (some_ne _)))
          | inl f ↦
              let (p, g, rest) = read_crlf-none r f in
              rw (f, rest, trailer_round)
                (
                  omega (arith, ap length g),
                  h,
                  (
                    vs,
                    (
                      signed,
                      sd_eq,
                      (line, at ∙ ap (λ x. frames vs ++ (line ++ (w ++ x))) g, announces, ended),
                    ),
                    k,
                  ),
                )
        ]

    pub header_round-Continues :
        (vs : List Chunk) (r : BufReader) (sg w : Text) (u room : ℕ) (last : Bool)
        (err : Option StreamError) (bytes sd : Text)
        → Follows s seed body vs (s3_chunked_reader r sd read_chunk_header last sg w u err)
        → length bytes + room ≡ len
        → before ++ bytes ≡ datas vs ++ w
        → Continues body before len
            (left r)
            (header_round (s3_chunked_reader r sd read_chunk_header last sg w u err) room bytes)
    unfolding header_round after_header
    header_round-Continues vs r sg w u room last err bytes sd (signed, sd_eq, here) h k =
        let (at, empty, more) = here in
        let cr = s3_chunked_reader r sd read_chunk_header last sg w u err in
        elim (read_chunk_line-TakesLine r) [
          | inr (e, f, n) ↦
              subst (λ x. Continues body before len (left r) (after_header x room bytes))
                (sym (no_line cr e f)) (rw (n, and_false (u == 0)) (inr (inr (some_ne e))))
          | inl (l, p, q, g, some_byte, parsed, eq) ↦ elim (Result-cases (parse_hex_uint q.0)) [
            | inr (e, f) ↦
                subst (λ x. Continues body before len (left r) (after_header x room bytes))
                  (sym (no_size cr e q _ eq f))
                  (rw (parse_hex_uint-not_eof q.0 e f) (inr (inr (some_ne e))))
            | inl (n, f) ↦
                let line_gone : 2 * length p + length r.arrivals < left r =
                  omega (arith, ap length g, length-append l p, some_byte) in
                let behind : body ≡ frames vs ++ (l ++ (w ++ p)) =
                  at
                  ∙ (ap (λ x. frames vs ++ x) g
                      ∙ ap (λ x. frames vs ++ (l ++ (x ++ p))) (sym empty)) in
                let none_yet : length w ≡ 0 = ap length empty in
                elim (Bool-cases (n == 0)) [
                  | inl t ↦
                      let z : n ≡ 0 = ground arith in
                      subst (λ x. Continues body before len (left r) (after_header x room bytes))
                        (sym (sized cr 0 q _ eq (f ∙ ap got z)))
                        (
                          omega (arith, line_gone),
                          h,
                          (
                            vs,
                            (
                              signed,
                              sd_eq,
                              (
                                l,
                                behind,
                                (q.0, parsed, f ∙ ap got (omega (arith, z, none_yet))),
                                λ _. empty,
                              ),
                            ),
                            k,
                          ),
                        )
                  | inr t ↦
                      let z : n ≡ length w + n = omega (arith, none_yet) in
                      subst (λ x. Continues body before len (left r) (after_header x room bytes))
                        (sym (sized cr n q _ eq f))
                        (rw (t, after_header)
                          (
                            omega (arith, line_gone),
                            h,
                            (
                              vs,
                              (
                                signed,
                                sd_eq,
                                (l, behind, (q.0, parsed, f ∙ ap got z), ground arith, more),
                              ),
                              k,
                            ),
                          ))
                ]
          ]
        ]

    pub chunk_round-Continues :
        (vs : List Chunk) (r : BufReader) (sg w : Text) (u room : ℕ) (last : Bool)
        (err : Option StreamError) (bytes sd : Text)
        → Follows s seed body vs (s3_chunked_reader r sd read_chunk last sg w u err)
        → length bytes + room ≡ len
        → before ++ bytes ≡ datas vs ++ w
        → Continues body before len
            (left r)
            (chunk_round (s3_chunked_reader r sd read_chunk last sg w u err) room bytes)
    unfolding chunk_round
    chunk_round-Continues vs r sg w u room last err bytes sd follows h k =
        let (signed, sd_eq, here) = follows in
        let (line, at, announces, some_left, more) = here in
        let n = if ltb u room then u else room in
        elim (Bool-cases (room == 0)) [
          | inl t ↦
              let room_gone : room ≡ 0 = ground arith in
              rw (t, chunk_round) (inl (vs, follows, omega (arith, h, room_gone), k, refl))
          | inr t ↦ elim (Result-cases (read_some n r).0) [
            | inr (e, f) ↦ rw (t, f, chunk_round) (inr (inr (some_ne _)))
            | inl (b, f) ↦
                let some_room : 0 < n = ground arith in
                let (g, few, less) = read_some-got n r b some_room f in
                let few_left : length b ≤ u = ground arith in
                let few_room : length b ≤ room = ground arith in
                let p = (read_some n r).1.pending in
                let (q, parsed, size) = announces in
                let at' : body ≡ frames vs ++ (line ++ ((w ++ b) ++ p)) =
                  at
                  ∙ ap (λ x. frames vs ++ (line ++ x)) (ap (◌++◌ w) g ∙ sym (append_assoc w b p)) in
                let k' : before ++ (bytes ++ b) ≡ datas vs ++ (w ++ b) =
                  sym (append_assoc before bytes b)
                  ∙ (ap (λ x. x ++ b) k ∙ append_assoc (datas vs) w b) in
                let fits : length (bytes ++ b) + (room - length b) ≡ len =
                  omega (arith, h, few_room, length-append bytes b) in
                elim (Bool-cases (u - length b == 0)) [
                  | inl z ↦
                      let all : length w + u ≡ length (w ++ b) =
                        ground (arith, length-append w b) in
                      rw (t, f, z, chunk_round)
                        (
                          omega (arith, less),
                          fits,
                          (
                            vs,
                            (
                              signed,
                              sd_eq,
                              (
                                line,
                                at',
                                (q, parsed, size ∙ ap got all),
                                λ l. absurd (both last l more),
                              ),
                            ),
                            k',
                          ),
                        )
                  | inr z ↦
                      let all : length w + u ≡ length (w ++ b) + (u - length b) =
                        omega (arith, length-append w b, few_left) in
                      rw (t, f, z, chunk_round)
                        (
                          omega (arith, less),
                          fits,
                          (
                            vs,
                            (
                              signed,
                              sd_eq,
                              (line, at', (q, parsed, size ∙ ap got all), ground arith, more),
                            ),
                            k',
                          ),
                        )
                ]
          ]
        ]

    pub verify_round-Continues :
        (vs : List Chunk) (r : BufReader) (sg w : Text) (u room : ℕ) (last : Bool)
        (err : Option StreamError) (bytes sd : Text)
        → Follows s seed body vs (s3_chunked_reader r sd verify_chunk last sg w u err)
        → length bytes + room ≡ len
        → before ++ bytes ≡ datas vs ++ w
        → Continues body before len
            (left r + 1)
            (verify_round s (s3_chunked_reader r sd verify_chunk last sg w u err) room bytes)
    unfolding verify_round
    verify_round-Continues vs r sg w u room last err bytes sd (signed, sd_eq, here) h k =
        let (line, at, announces, ended) = here in
        let new = sign s seed sd w in
        let c : Chunk = record { line = line; bytes = w; signature = sg } in
        let p = r.pending in
        let whole : body ≡ frames (c ∷ vs) ++ p = at ∙ frame_append (frames vs) line w p in
        let next : new ≡ sign s seed (seed_after s seed vs) w = ap (λ x. sign s seed x w) sd_eq in
        elim (Bool-cases (same sg new)) [
          | inr t ↦ rw (t, verify_round) (inr (inr (some_ne _)))
          | inl t ↦
              let matches : sg ≡ new = (same_iff sg new).0 t in
              let signed' : Signed s seed (c ∷ vs) = (announces, matches ∙ next, signed) in
              elim (Bool-cases last) [
                | inl l ↦
                    rw (t, l, verify_round) (inr (inl (c, vs, signed', ended l, whole, k, refl)))
                | inr l ↦
                    rw (t, l, verify_round)
                      (
                        omega arith,
                        h,
                        (
                          c ∷ vs,
                          (signed', next, (whole, refl, refl)),
                          k ∙ sym (append-nil (datas vs ++ w)),
                        ),
                      )
              ]
        ]
