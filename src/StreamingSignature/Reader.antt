-- ===== src/StreamingSignature/Reader.antt =====
-- What the calls of `bufio.Reader` in cmd/streaming-signature-v4.go take from the body.
use mathlib.Core.Path.{subst}
use mathlib.Core.List.{append_assoc}
use minio.Base.{
  ℕ, ◌+◌, ◌*◌, ◌≤◌, ◌<◌, ◌≡◌, ◌≢◌, ◌⊎◌, refl, sym, ap, ap₂, ◌||◌, ◌∙◌, false, not, List, [], ◌∷◌,
  ◌++◌, none, some, arith, ltb, leb, ◌==◌, if◌then◌else◌, length, take, drop, inl, inr, Bool-cases,
  Option-cases, length-take, length-drop, take-append-drop, drop-append_self,
}
use minio.Base.Text.{Text}
use minio.StreamingSignature.Lines.{
  Result, got, failed, StreamError, eof, buffer_full, line_too_long, panicked, BufReader, rest_of,
  read_some, read_slice, line_of, read_chunk_line, read_crlf, max_line_length,
  parse_s3_chunk_extension, is_eof, line_error, malformed_encoding,
}

pub Result-cases :
    {A : Type 0} → (r : Result A) → ((a : A) × (r ≡ got a)) ⊎ ((e : StreamError) × (r ≡ failed e))
Result-cases (got a) = inl (a, refl)
Result-cases (failed e) = inr (e, refl)

line_of-split : (s l : Text) → line_of s ≡ some l → (rest : Text) × (s ≡ l ++ rest) × (0 < length l)
unfolding line_of
line_of-split [] l h = absurd (cc)
line_of-split (b ∷ s) l h = elim (Bool-cases (b == 10)) [
  | inl t ↦
      let e : some (b ∷ []) ≡ some l = rw t at h in
      let e' : b ∷ [] ≡ l = cc in (s, ap (λ x. x ++ s) e', omega (arith, ap length e'))
  | inr t ↦ elim (Option-cases (line_of s)) [
    | inl n ↦ let e : none ≡ some l = rw (t, n) at h in absurd (cc)
    | inr (k, n) ↦
        let e : some (b ∷ k) ≡ some l = rw (t, n) at h in
        let e' : b ∷ k ≡ l = cc in
        let (rest, f, _) = line_of-split s k n in
        (rest, ap (◌∷◌ b) f ∙ ap (λ x. x ++ rest) e', omega (arith, ap length e'))
  ]
]

got_inj : {A : Type 0} → (a b : A) → got a ≡ got b → a ≡ b
got_inj a b h = cc

pub failed_ne : {A : Type 0} → (e : StreamError) (a : A) → failed e ≢ got a
failed_ne e a h = cc

-- With or without a line in the buffer.
read_slice-line :
    (r : BufReader) (l : Text)
    → line_of (take max_line_length r.pending) ≡ some l
    → read_slice r ≡ (got l, rest_of r (drop (length l) r.pending) r.arrivals)
unfolding read_slice
read_slice-line r l h = rw (h, read_slice) refl

read_slice-none :
    (r : BufReader)
    → line_of (take max_line_length r.pending) ≡ none
    → (e : StreamError) × ((read_slice r).0 ≡ failed e)
unfolding read_slice
read_slice-none r h = elim (Bool-cases (leb max_line_length (length r.pending))) [
  | inl t ↦ (buffer_full, rw (h, t, read_slice) refl)
  | inr t ↦ (r.ending, rw (h, t, read_slice) refl)
]

read_slice-got :
    (r : BufReader) (l : Text)
    → (read_slice r).0 ≡ got l
    → (p : Text) × (r.pending ≡ l ++ p)
      × (0 < length l)
      × ((read_slice r).1 ≡ rest_of r p r.arrivals)
read_slice-got r l h = elim (Option-cases (line_of (take max_line_length r.pending))) [
  | inl n ↦ let (e, f) = read_slice-none r n in absurd (failed_ne e l (sym f ∙ h))
  | inr (k, n) ↦
      let eq = read_slice-line r k n in
      let same_line : k ≡ l = got_inj k l (ap (λ p. p.0) (sym eq) ∙ h) in
      let (rest, f, some_byte) = line_of-split (take max_line_length r.pending) k n in
      let more = rest ++ drop max_line_length r.pending in
      let whole : r.pending ≡ k ++ more =
        sym (take-append-drop max_line_length r.pending)
        ∙ (ap (λ x. x ++ drop max_line_length r.pending) f ∙ append_assoc k rest _) in
      (
        more,
        whole ∙ ap (λ x. x ++ more) same_line,
        omega (arith, some_byte, ap length same_line),
        ap (λ p. p.1) eq
            ∙ ap (λ x. rest_of r x r.arrivals)
                (ap (drop (length k)) whole ∙ drop-append_self k more),
      )
]

line_error-not_eof : (e : StreamError) → is_eof (line_error e) ≡ false
line_error-not_eof eof = refl
line_error-not_eof e = refl

-- A line that `readChunkLine` takes, and what it returns of it.
abbrev pub TakesLine : BufReader → Result (Text × Text) × BufReader → Type 0
TakesLine r o =
    ((l : Text) × (p : Text) × (h : Text × Text) × (r.pending ≡ l ++ p)
      × (0 < length l)
      × (parse_s3_chunk_extension l ≡ some h)
      × (o ≡ (got h, rest_of r p r.arrivals)))
    ⊎ ((e : StreamError) × (o.0 ≡ failed e) × (is_eof e ≡ false))

pub read_chunk_line-TakesLine : (r : BufReader) → TakesLine r (read_chunk_line r)
unfolding read_chunk_line
read_chunk_line-TakesLine r = elim (Result-cases (read_slice r).0) [
  | inr (e, f) ↦ inr (line_error e, rw (f, read_chunk_line) refl, line_error-not_eof e)
  | inl (l, f) ↦
      let (p, whole, some_byte, rest) = read_slice-got r l f in
      elim (Bool-cases (leb max_line_length (length l))) [
        | inl t ↦ inr (line_too_long, rw (f, t, read_chunk_line) refl, refl)
        | inr t ↦ elim (Option-cases (parse_s3_chunk_extension l)) [
          | inl n ↦ inr (panicked, rw (f, t, n, read_chunk_line) refl, refl)
          | inr (h, n) ↦
              inl (l, p, h, whole, some_byte, n, rw (f, t, n, rest, read_chunk_line) refl)
        ]
      ]
]

abbrev reader_of : StreamError → List ℕ → Text → BufReader
reader_of ending arrivals pending = record {
  pending = pending;
  arrivals = arrivals;
  ending = ending;
}

-- `readCRLF` succeeds where the body goes on with CRLF.
crlf-none :
    (ending : StreamError) (arrivals : List ℕ) (s : Text)
    → (read_crlf (reader_of ending arrivals s)).0 ≡ none
    → (p : Text) × (s ≡ 13 ∷ 10 ∷ p)
      × ((read_crlf (reader_of ending arrivals s)).1 ≡ reader_of ending arrivals p)
unfolding read_crlf
crlf-none ending arrivals [] h = absurd (cc)
crlf-none ending arrivals (a ∷ []) h = absurd (cc)
crlf-none ending arrivals (a ∷ b ∷ s) h = elim (Bool-cases (not (a == 13) || not (b == 10))) [
  | inl t ↦ let e : some malformed_encoding ≡ none = rw t at h in absurd (cc)
  | inr t ↦
      let cr : a ≡ 13 = ground arith in
      let lf : b ≡ 10 = ground arith in (s, ap₂ (λ x y. x ∷ y ∷ s) cr lf, refl)
]

pub read_crlf-none :
    (r : BufReader)
    → (read_crlf r).0 ≡ none
    → (p : Text) × (r.pending ≡ 13 ∷ 10 ∷ p) × ((read_crlf r).1 ≡ rest_of r p r.arrivals)
read_crlf-none r h = crlf-none r.ending r.arrivals r.pending h

abbrev pub left : BufReader → ℕ
left r = 2 * length r.pending + length r.arrivals

-- What `Read` gives is taken from the front and no more than asked for, and an arrival is used up or
-- the body is shorter.
abbrev Taken : ℕ → BufReader → Result Text × BufReader → Type 0
Taken n r (failed e, r') = Unit
Taken n r (got b, r') = (r.pending ≡ b ++ r'.pending) × (length b ≤ n) × (left r' < left r)

some-Taken :
    (ending : StreamError) (arrivals : List ℕ) (s : Text) (n : ℕ)
    → 0 < n
    → Taken n (reader_of ending arrivals s) (read_some n (reader_of ending arrivals s))
unfolding read_some
some-Taken ending arrivals [] n h = tt
some-Taken ending [] (x ∷ s) n h = (
  sym (take-append-drop n (x ∷ s)),
  omega (arith, length-take n (x ∷ s)),
  omega (arith, length-drop n (x ∷ s), h),
)
some-Taken ending (k ∷ arrivals) (x ∷ s) n h =
    let now = if ltb k n then k else n in
    let few : now ≤ n = ground arith in
    (
      sym (take-append-drop now (x ∷ s)),
      omega (arith, few, length-take now (x ∷ s)),
      omega (arith, length-drop now (x ∷ s)),
    )

pub read_some-got :
    (n : ℕ) (r : BufReader) (b : Text)
    → 0 < n
    → (read_some n r).0 ≡ got b
    → (r.pending ≡ b ++ (read_some n r).1.pending)
      × (length b ≤ n)
      × (left (read_some n r).1 < left r)
read_some-got n r b h e =
    subst (λ x. Taken n r (x, (read_some n r).1)) e (some-Taken r.ending r.arrivals r.pending n h)
