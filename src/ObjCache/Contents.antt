-- ===== src/ObjCache/Contents.antt =====
-- pkg/objcache: what is written through `Create`, `Write` and `Close` is what `Open` returns.
use mathlib.Core.List.{append_assoc, append-nil}
use minio.Base.{
  ℕ, ◌+◌, ◌≤◌, ◌<◌, ◌≡◌, ◌↔◌, replicate, refl, sym, ap, ◌∙◌, ◌⊎◌, inl, inr, List, [], ◌∷◌, ◌++◌,
  Option, none, some, arith, Bool-cases, length, take, drop, ltb, length-append, length-take,
  length-drop, length-replicate, take-append_self, take_of_length-le,
}
use minio.Base.Int.{pos}
use minio.Base.Text.{Text, text_discrete}
use minio.Base.Assoc.{get, get-put_self}
use minio.ObjCache.{
  Bytes, Buffer, Cache, Writer, Written, wrote, excess_data, out_of_range, write, create, saved,
  store, close, open_key,
}
use minio.ObjCache.Accounting.{close-store}

-- The writer holds these bytes and room for the rest of its capacity.
pub record Holds (w : Writer) (bytes : Bytes) : Type 0 where
  pub full : length w.buffer ≡ w.cap
  pub counted : w.offset ≡ length bytes
  pub bounded : w.offset ≤ w.cap
  pub prefix : take w.offset w.buffer ≡ bytes

abbrev written : Writer → Bytes → Writer
written w b = record w {
  offset = w.offset + length b;
  buffer = take w.offset w.buffer ++ (b ++ drop (w.offset + length b) w.buffer);
}

take-splice :
    (o : ℕ) (xs b rest : Bytes)
    → o ≤ length xs
    → take (o + length b) (take o xs ++ (b ++ rest)) ≡ take o xs ++ b
take-splice o xs b rest h =
    let e : o + length b ≡ length (take o xs ++ b) =
      omega (arith, length-append (take o xs) b, length-take o xs) in
    rw (e, sym (append_assoc (take o xs) b rest)) (take-append_self (take o xs ++ b) rest)

written-Holds :
    (w : Writer) (bytes b : Bytes)
    → Holds w bytes
    → w.offset + length b ≤ w.cap
    → Holds (written w b) (bytes ++ b)
written-Holds w bytes b h fits = record {
  full = omega (
    arith,
    length-append (take w.offset w.buffer) (b ++ drop (w.offset + length b) w.buffer),
    length-append b (drop (w.offset + length b) w.buffer),
    length-take w.offset w.buffer,
    length-drop (w.offset + length b) w.buffer,
    h.full,
    h.bounded,
  );
  counted = omega (arith, length-append bytes b, h.counted);
  bounded = fits;
  prefix =
      take-splice w.offset w.buffer b _ (omega (arith, h.full, h.bounded))
      ∙ ap (λ t. t ++ b) h.prefix;
}

pub write-Holds :
    (w : Writer) (bytes b : Bytes)
    → Holds w bytes
    → ((w.cap < w.offset + length b) × (write w b ≡ excess_data))
      ⊎ ((w' : Writer) × (write w b ≡ wrote (length b) w') × Holds w' (bytes ++ b))
unfolding write
write-Holds w bytes b h = elim (Bool-cases (ltb w.cap (w.offset + length b))) [
  | inl over ↦ inl (ground arith, rw over)
  | inr fits ↦ inr (written w b, ground (arith, h.full), written-Holds w bytes b h (ground arith))
]

-- A client's writes in order; `none` when one of them fails.
unfoldable pub write_all : Writer → List Bytes → Option Writer
write_all w [] = some w
write_all w (b ∷ bs) = elim (write w b) [ wrote _ w' ↦ write_all w' bs | _ ↦ none ]

abbrev pub concat : List Bytes → Bytes
concat [] = []
concat (b ∷ bs) = b ++ concat bs

write_all-Holds :
    (bs : List Bytes) (w w' : Writer) (bytes : Bytes)
    → Holds w bytes
    → write_all w bs ≡ some w'
    → Holds w' (bytes ++ concat bs)
unfolding write_all
write_all-Holds [] w w' bytes h e = let q : w' ≡ w = cc in rw (q, append-nil) h
write_all-Holds (b ∷ bs) w w' bytes h e = elim (write-Holds w bytes b h) [
  | inl (_, x) ↦ absurd (cc (rw (x, write_all) at e))
  | inr (v, x, k) ↦
      rw (sym (append_assoc bytes b (concat bs)))
        (write_all-Holds bs v w' (bytes ++ b) k (rw (x, write_all) at e))
]

create-Holds :
    (c c' : Cache) (n : ℕ) (w : Writer) → create c (pos n) ≡ (c', some w) → Holds w [] × (w.cap ≡ n)
unfolding create
create-Holds c c' n w e =
    let q : w ≡ record { offset = 0; cap = n; buffer = replicate n 0 } = ground arith in
    rw q (
      record { full = length-replicate n 0; counted = refl; bounded = omega arith; prefix = refl },
      refl,
    )

Holds-all : (w : Writer) (bytes : Bytes) → Holds w bytes → w.offset ≡ w.cap → w.buffer ≡ bytes
Holds-all w bytes h e =
    sym (take_of_length-le w.offset w.buffer (omega (arith, h.full, e))) ∙ h.prefix

cap-write : (w w' : Writer) (b : Bytes) (n : ℕ) → write w b ≡ wrote n w' → w'.cap ≡ w.cap
unfolding write
cap-write w w' b n e = ground arith

Written-cases :
    (r : Written)
    → ((n : ℕ) × (v : Writer) × (r ≡ wrote n v)) ⊎ (r ≡ excess_data) ⊎ (r ≡ out_of_range)
Written-cases (wrote n v) = inl (n, v, refl)
Written-cases excess_data = inr (inl refl)
Written-cases out_of_range = inr (inr refl)

cap-write_all : (bs : List Bytes) (w w' : Writer) → write_all w bs ≡ some w' → w'.cap ≡ w.cap
unfolding write_all
cap-write_all [] w w' e = let q : w' ≡ w = cc in ap (λ v. v.cap) q
cap-write_all (b ∷ bs) w w' e = elim (Written-cases (write w b)) [
  | inl (n, v, x) ↦ cap-write_all bs v w' (rw (x, write_all) at e) ∙ cap-write w v b n x
  | inr (inl x) ↦ absurd (cc (rw (x, write_all) at e))
  | inr (inr x) ↦ absurd (cc (rw (x, write_all) at e))
]

module _ (c c' : Cache) (n : ℕ) (w w' : Writer) (bs : List Bytes)
    (created : create c (pos n) ≡ (c', some w)) (wrote_bs : write_all w bs ≡ some w') where
  filled : Holds w' (concat bs) × (w'.cap ≡ n)
  filled =
      let h = create-Holds c c' n w created in
      (write_all-Holds bs w w' [] h.0 wrote_bs, cap-write_all bs w w' wrote_bs ∙ h.1)

  -- After a successful `Create` and any successful writes, `Close` saves exactly when the bytes
  -- written are as many as were announced.
  pub close_iff :
      (d : Cache) (key : Text) (now : ℕ)
      → ((d' : Cache) × (close d key n w' now ≡ saved d')) ↔ (length (concat bs) ≡ n)
  unfolding close
  close_iff d key now =
      let offset_eq : w'.offset ≡ length (concat bs) = filled.0.counted in
      (λ (d', e). ground arith, λ e. (store d key n w' now, ground arith))

  -- What was written is what `Open` returns, however the bytes were split over the writes, whatever
  -- the cache held before, and as long as the object on disk is not younger than the entry.
  pub open_key-close :
      (d d' : Cache) (key : Text) (now mod_time later : ℕ)
      → close d key n w' now ≡ saved d'
      → mod_time ≤ now
      → (open_key d' key mod_time later).1 ≡ some (concat bs)
  unfolding open_key store
  open_key-close d d' key now mod_time later closed recent =
      let v : Buffer = record { value = w'.buffer; last_accessed = now } in
      let g : get text_discrete key d'.entries ≡ some v =
        rw (close-store d key n now w' d' closed) (get-put_self text_discrete key v d.entries) in
      let whole : w'.offset ≡ w'.cap =
        omega (arith, (close_iff d key now).0 (d', closed), filled.0.counted, filled.1) in
      elim (Bool-cases (ltb now mod_time)) [
        | inl stale ↦ absurd (ground arith)
        | inr fresh ↦ rw (g, open_key, fresh) (ap some (Holds-all w' (concat bs) filled.0 whole))
      ]
