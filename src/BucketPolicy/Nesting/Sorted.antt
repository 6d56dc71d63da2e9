-- ===== src/BucketPolicy/Nesting/Sorted.antt =====
-- Sorting in `checkBucketPolicyResources` of cmd/bucket-policy-parser.go puts every text behind its
-- prefixes.
use minio.Base.{
  ◌≡◌, refl, ◌∙◌, Bool, true, false, ◌||◌, List, [], ◌∷◌, ◌==◌, arith, any, All, Bool-cases, inl,
  inr,
}
use minio.Base.Text.{Text, has_prefix}
use minio.BucketPolicy.Nesting.{text_leb, insert_text, sort_texts, any_nested}

-- One of two texts is a prefix of the other.
abbrev pub nested : Text → Text → Bool
nested a b = has_prefix a b || has_prefix b a

-- Two entries at different places, one a prefix of the other, in whatever order.
abbrev pub any_pair : List Text → Bool
any_pair [] = false
any_pair (x ∷ l) = any (nested x) l || any_pair l

text_leb_prefix : (a b : Text) → has_prefix a b ≡ true → text_leb a b ≡ true → has_prefix b a ≡ true
unfolding text_leb has_prefix
text_leb_prefix [] [] h k = refl
text_leb_prefix (x ∷ a) [] h k = absurd (cc)
text_leb_prefix [] (y ∷ b) h k = absurd (cc)
text_leb_prefix (x ∷ a) (y ∷ b) h k =
    let e : x ≡ y = ground arith in
    let ih = text_leb_prefix a b (ground arith) (ground arith) in ground arith

text_leb_total : (a b : Text) → text_leb a b ≡ false → text_leb b a ≡ true
unfolding text_leb
text_leb_total [] b h = absurd (cc)
text_leb_total (x ∷ a) [] h = refl
text_leb_total (x ∷ a) (y ∷ b) h = elim (Bool-cases (x == y)) [
  | inl t ↦ let ih = text_leb_total a b (rw t at h) in ground arith
  | inr t ↦ ground arith
]

text_leb_trans : (a b c : Text) → text_leb a b ≡ true → text_leb b c ≡ true → text_leb a c ≡ true
unfolding text_leb
text_leb_trans [] b c h k = refl
text_leb_trans (x ∷ a) [] c h k = absurd (cc)
text_leb_trans (x ∷ a) (y ∷ b) [] h k = absurd (cc)
text_leb_trans (x ∷ a) (y ∷ b) (z ∷ c) h k = elim (Bool-cases (x == y)) [
  | inr s ↦ ground arith
  | inl s ↦ elim (Bool-cases (y == z)) [
    | inr t ↦ ground arith
    | inl t ↦ let ih = text_leb_trans a b c (rw s at h) (rw t at k) in ground arith
  ]
]

abbrev Ascending : List Text → Type 0
Ascending [] = Unit
Ascending (x ∷ l) = All (λ y. text_leb x y ≡ true) l × Ascending l

insert_text-All :
    (P : Text → Type 0) (t : Text) (l : List Text) → P t → All P l → All P (insert_text t l)
unfolding insert_text
insert_text-All P t [] h k = (h, tt)
insert_text-All P t (x ∷ l) h k = elim (Bool-cases (text_leb t x)) [
  | inl s ↦ rw s (h, k)
  | inr s ↦ rw s (k.0, insert_text-All P t l h k.1)
]

All-text_leb :
    (t x : Text) (l : List Text)
    → text_leb t x ≡ true
    → All (λ y. text_leb x y ≡ true) l
    → All (λ y. text_leb t y ≡ true) l
All-text_leb t x [] h k = tt
All-text_leb t x (y ∷ l) h k = (text_leb_trans t x y h k.0, All-text_leb t x l h k.1)

insert_text-Ascending : (t : Text) (l : List Text) → Ascending l → Ascending (insert_text t l)
unfolding insert_text
insert_text-Ascending t [] h = (tt, tt)
insert_text-Ascending t (x ∷ l) h = elim (Bool-cases (text_leb t x)) [
  | inl s ↦ rw s ((s, All-text_leb t x l s h.0), h)
  | inr s ↦ rw s (
    insert_text-All (λ y. text_leb x y ≡ true) t l (text_leb_total t x s) h.0,
    insert_text-Ascending t l h.1,
  )
]

sort_texts-Ascending : (l : List Text) → Ascending (sort_texts l)
unfolding sort_texts
sort_texts-Ascending [] = tt
sort_texts-Ascending (x ∷ l) = insert_text-Ascending x (sort_texts l) (sort_texts-Ascending l)

any-insert_text :
    (p : Text → Bool) (t : Text) (l : List Text) → any p (insert_text t l) ≡ (p t || any p l)
unfolding insert_text
any-insert_text p t [] = refl
any-insert_text p t (x ∷ l) = elim (Bool-cases (text_leb t x)) [
  | inl s ↦ rw s refl
  | inr s ↦ let ih = any-insert_text p t l in rw s (ground arith)
]

any_pair-insert_text :
    (t : Text) (l : List Text) → any_pair (insert_text t l) ≡ (any (nested t) l || any_pair l)
unfolding insert_text
any_pair-insert_text t [] = refl
any_pair-insert_text t (x ∷ l) = elim (Bool-cases (text_leb t x)) [
  | inl s ↦ rw s refl
  | inr s ↦
      let ih = any_pair-insert_text t l in
      let here = any-insert_text (nested x) t l in rw s (ground arith)
]

any-sort_texts : (p : Text → Bool) (l : List Text) → any p (sort_texts l) ≡ any p l
unfolding sort_texts
any-sort_texts p [] = refl
any-sort_texts p (x ∷ l) =
    let ih = any-sort_texts p l in let e = any-insert_text p x (sort_texts l) in ground arith

any_pair-sort_texts : (l : List Text) → any_pair (sort_texts l) ≡ any_pair l
unfolding sort_texts
any_pair-sort_texts [] = refl
any_pair-sort_texts (x ∷ l) =
    let ih = any_pair-sort_texts l in
    let here = any-sort_texts (nested x) l in
    let e = any_pair-insert_text x (sort_texts l) in ground arith

-- Behind a text in ascending order, a text is nested with it exactly when it begins with it.
any-nested :
    (x : Text) (l : List Text)
    → All (λ y. text_leb x y ≡ true) l
    → any (λ other. has_prefix other x) l ≡ any (nested x) l
any-nested x [] h = refl
any-nested x (y ∷ l) h =
    let ih = any-nested x l h.1 in
    elim (Bool-cases (has_prefix x y)) [
      | inl t ↦ let u = text_leb_prefix x y t h.0 in ground arith
      | inr t ↦ ground arith
    ]

any_nested-any_pair : (l : List Text) → Ascending l → any_nested l ≡ any_pair l
unfolding any_nested
any_nested-any_pair [] h = refl
any_nested-any_pair (x ∷ l) h =
    let ih = any_nested-any_pair l h.1 in let here = any-nested x l h.0 in ground arith

-- The loop over the sorted texts finds a prefix of another text wherever there is one.
pub any_nested-sort_texts : (l : List Text) → any_nested (sort_texts l) ≡ any_pair l
any_nested-sort_texts l =
    any_nested-any_pair (sort_texts l) (sort_texts-Ascending l) ∙ any_pair-sort_texts l
