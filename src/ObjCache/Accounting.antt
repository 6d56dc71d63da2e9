-- ===== src/ObjCache/Accounting.antt =====
-- The accounting of pkg/objcache/objcache.go: `currentSize` against the sizes of the entries.
use minio.Base.{
  ℕ, ◌+◌, ◌≤◌, ◌<◌, ◌≡◌, ltb, ◌++◌, inl, inr, List, [], ◌∷◌, none, some, arith, Option-cases,
  length, Bool-cases,
}
use minio.Base.Int.{ℤ, pos, negsuc}
use minio.Base.Text.{Text, text_discrete}
use minio.Base.Assoc.{
  get, Distinct, total, total-nil, total-put_new, total-put_old, total-remove, size-le-total,
  put-Distinct, remove-Distinct,
}
use minio.ObjCache.{
  u64_mod, Buffer, Cache, Writer, new, create, saved, store, close, delete, delete_key, open_key,
  is_expired, gc_loop, gc,
}

abbrev pub buffer_size : Buffer → ℕ
buffer_size b = length b.value

-- The bytes that the entries hold.
abbrev pub held : Cache → ℕ
held c = total text_discrete buffer_size c.entries

pub record Accounted (c : Cache) : Type 0 where
  pub distinct : Distinct text_discrete c.entries
  pub covered : held c ≤ c.current_size
  pub in_range : c.current_size < u64_mod

-- A saved writer holds a full buffer.
abbrev pub IsFull : ℕ → Writer → Type 0
IsFull size w = length w.buffer ≡ size

-- The bytes that a write to the key replaces.
abbrev pub replaced : Text → Cache → ℕ
replaced key c = elim (get text_discrete key c.entries) [ none ↦ 0 | some b ↦ length b.value ]

module _ (c : Cache) (key : Text) where
  delete-Accounted : Accounted c → Accounted (delete c key)
  unfolding delete
  delete-Accounted a = elim (Option-cases (get text_discrete key c.entries)) [
    | inl e ↦ rw (e, delete) a
    | inr (b, e) ↦
        rw (e, delete)
          (let t = total-remove text_discrete buffer_size key b c.entries a.distinct e in
            record {
              distinct = remove-Distinct text_discrete key c.entries a.distinct;
              covered = omega (arith, t);
              in_range = omega arith;
            })
  ]

  held-store :
      (size now : ℕ) (w : Writer)
      → IsFull size w
      → held (store c key size w now) + replaced key c ≡ held c + size
  unfolding store
  held-store size now w f = elim (Option-cases (get text_discrete key c.entries)) [
    | inl e ↦
        rw (e, replaced)
          (omega (
            arith,
            total-put_new text_discrete buffer_size key
                (record { value = w.buffer; last_accessed = now }) c.entries e,
          ))
    | inr (b, e) ↦
        rw (e, replaced)
          (omega (
            arith,
            total-put_old text_discrete buffer_size key
                (record { value = w.buffer; last_accessed = now }) b c.entries e,
          ))
  ]

  replaced-le-held : replaced key c ≤ held c
  replaced-le-held = elim (Option-cases (get text_discrete key c.entries)) [
    | inl e ↦ rw (e, replaced) (omega arith)
    | inr (b, e) ↦ rw (e, replaced) (size-le-total text_discrete buffer_size key b c.entries e)
  ]

  store-Accounted :
      (size now : ℕ) (w : Writer)
      → IsFull size w
      → c.current_size + size < u64_mod
      → Accounted c
      → Accounted (store c key size w now)
  unfolding store
  store-Accounted size now w f r a = record {
    distinct = put-Distinct text_discrete key _ c.entries a.distinct;
    covered = omega (arith, held-store size now w f);
    in_range = omega arith;
  }

  open_key-Accounted : (mod_time now : ℕ) → Accounted c → Accounted (open_key c key mod_time now).0
  unfolding open_key
  open_key-Accounted mod_time now a = elim (Option-cases (get text_discrete key c.entries)) [
    | inl e ↦ rw (e, open_key) a
    | inr (b, e) ↦ elim (Bool-cases (ltb b.last_accessed mod_time)) [
      | inl old ↦ rw (e, open_key, old) (delete-Accounted a)
      | inr new ↦
          rw (e, open_key, new)
            (record {
              distinct = put-Distinct text_discrete key _ c.entries a.distinct;
              covered = omega (
                arith,
                total-put_old text_discrete buffer_size key (record b { last_accessed = now }) b
                    c.entries e,
              );
              in_range = a.in_range;
            })
    ]
  ]

gc_loop-Accounted :
    (l : List (Text × Buffer)) (now : ℕ) (c : Cache) (evicted : List Text)
    → Accounted c
    → Accounted (gc_loop l now c evicted).0
unfolding gc_loop
gc_loop-Accounted [] now c evicted a = a
gc_loop-Accounted ((k, b) ∷ l) now c evicted a = elim (Bool-cases (is_expired c now b)) [
  | inl e ↦
      rw (e, gc_loop)
        (gc_loop-Accounted l now (delete c k) (evicted ++ k ∷ []) (delete-Accounted c k a))
  | inr n ↦ rw (n, gc_loop) (gc_loop-Accounted l now c evicted a)
]

pub close-store :
    (c : Cache) (key : Text) (size now : ℕ) (w : Writer) (c' : Cache)
    → close c key size w now ≡ saved c'
    → c' ≡ store c key size w now
unfolding close
close-store c key size now w c' h = ground arith

-- A save changes the drift of `currentSize` from the bytes held by the size of the entry that it
-- replaces: nothing for a key that is not in the cache, and all of the old entry's bytes, which are
-- never given back, for one that is.
pub close-drift :
    (c c' : Cache) (key : Text) (size now : ℕ) (w : Writer)
    → IsFull size w
    → c.current_size + size < u64_mod
    → close c key size w now ≡ saved c'
    → c'.current_size + held c ≡ held c' + c.current_size + replaced key c
unfolding store
close-drift c c' key size now w f r h =
    rw (close-store c key size now w c' h) (omega (arith, held-store c key size now w f))

-- The operations that change the cache.
pub data Step : Cache → Cache → Type 0 where
  creates : (c : Cache) (size : ℤ) → Step c (create c size).0
  closes :
      {c c' : Cache} (key : Text) (size now : ℕ) (w : Writer)
      → IsFull size w
      → c.current_size + size < u64_mod
      → close c key size w now ≡ saved c'
      → Step c c'
  opens : (c : Cache) (key : Text) (mod_time now : ℕ) → Step c (open_key c key mod_time now).0
  deletes : (c : Cache) (key : Text) → Step c (delete_key c key).0
  collects : (c : Cache) (now : ℕ) → Step c (gc c now).0

pub data Reach (c : Cache) : Cache → Type 0 where
  here : Reach c c
  next : {d e : Cache} → Reach c d → Step d e → Reach c e

create-Accounted : (c : Cache) (size : ℤ) → Accounted c → Accounted (create c size).0
unfolding create
create-Accounted c (pos n) a = ground arith
create-Accounted c (negsuc n) a = ground arith

Step-Accounted : {c c' : Cache} → Step c c' → Accounted c → Accounted c'
unfolding delete_key gc
Step-Accounted (creates c size) a = create-Accounted c size a
Step-Accounted (closes {c} {c'} key size now w f r h) a =
    rw (close-store c key size now w c' h) (store-Accounted c key size now w f r a)
Step-Accounted (opens c key mod_time now) a = open_key-Accounted c key mod_time now a
Step-Accounted (deletes c key) a = delete-Accounted c key a
Step-Accounted (collects c now) a = gc_loop-Accounted c.entries now c [] a

Reach-Accounted : {c c' : Cache} → Accounted c → Reach c c' → Accounted c'
Reach-Accounted a here = a
Reach-Accounted a (next r s) = Step-Accounted s (Reach-Accounted a r)

-- From a new cache, whatever is created, saved, opened, deleted and collected, no key has two
-- entries and `currentSize` is at least the number of bytes that the entries hold, as long as it
-- does not pass 2 ^ 64.
pub new-Accounted :
    (max_size expiry : ℕ) {c c' : Cache} → new max_size expiry ≡ some c → Reach c c' → Accounted c'
unfolding new
new-Accounted max_size expiry {c} h r =
    Reach-Accounted (ground (arith, total-nil text_discrete buffer_size)) r
