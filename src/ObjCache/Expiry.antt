-- ===== src/ObjCache/Expiry.antt =====
-- `gc` of pkg/objcache/objcache.go removes the expired entries and no others.
use minio.Base.{
  ℕ, ◌≡◌, refl, ◌∙◌, inl, inr, List, [], ◌∷◌, ◌++◌, Option, none, some, arith, Bool-cases,
  Option-cases, if◌then◌else◌, ite,
}
use minio.Base.Text.{Text, text_discrete}
use minio.Base.Assoc.{get, Distinct, get-remove}
use minio.ObjCache.{Buffer, Cache, delete, is_expired, gc_loop, gc}

get-delete :
    (c : Cache) (j k : Text)
    → get text_discrete k (delete c j).entries
      ≡ ite (text_discrete j k) none (get text_discrete k c.entries)
unfolding delete
get-delete c j k = elim (Option-cases (get text_discrete j c.entries)) [
  | inl e ↦ rw (e, delete) (ground arith)
  | inr (b, e) ↦ rw (e, delete) (get-remove text_discrete j k c.entries)
]

expiry-delete : (c : Cache) (j : Text) → (delete c j).expiry ≡ c.expiry
unfolding delete
expiry-delete c j = elim (Option-cases (get text_discrete j c.entries)) [
  | inl e ↦ rw (e, delete)
  | inr (b, e) ↦ rw (e, delete)
]

is_expired-delete :
    (c : Cache) (j : Text) (now : ℕ) (b : Buffer)
    → is_expired (delete c j) now b ≡ is_expired c now b
unfolding is_expired
is_expired-delete c j now b = rw (expiry-delete c j)

-- What is left of a key: `found` is its entry in the list that is swept.
abbrev kept : Cache → ℕ → Option Buffer → Option Buffer → Option Buffer
kept c now none old = old
kept c now (some b) old = if is_expired c now b then none else old

kept-delete :
    (c : Cache) (j : Text) (now : ℕ) (found old : Option Buffer)
    → kept (delete c j) now found old ≡ kept c now found old
kept-delete c j now none old = refl
kept-delete c j now (some b) old = rw (is_expired-delete c j now b)

get-gc_loop :
    (l : List (Text × Buffer)) (now : ℕ) (c : Cache) (evicted : List Text) (k : Text)
    → Distinct text_discrete l
    → get text_discrete k (gc_loop l now c evicted).0.entries
      ≡ kept c now (get text_discrete k l) (get text_discrete k c.entries)
unfolding gc_loop get
get-gc_loop [] now c evicted k d = refl
get-gc_loop ((j, b) ∷ l) now c evicted k d = elim (Bool-cases (is_expired c now b)) [
  | inl e ↦
      rw (e, gc_loop)
        (get-gc_loop l now (delete c j) (evicted ++ j ∷ []) k d.1
          ∙ kept-delete c j now (get text_discrete k l) _
          ∙ ground (arith, get-delete c j k))
  | inr n ↦ rw (n, gc_loop) (get-gc_loop l now c evicted k d.1 ∙ ground arith)
]

-- After a collection a key that was not in the cache is still not in it; a key whose entry has
-- expired is gone; and every other key has the entry that it had.
pub get-gc :
    (c : Cache) (now : ℕ) (k : Text)
    → Distinct text_discrete c.entries
    → get text_discrete k (gc c now).0.entries ≡ elim (get text_discrete k c.entries) [
      | none ↦ none
      | some b ↦ if is_expired c now b then none else some b
    ]
unfolding gc
get-gc c now k d = ground (arith, get-gc_loop c.entries now c [] k d)
