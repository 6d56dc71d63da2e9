-- ===== src/LockServer/Exclusion.antt =====
-- Mutual exclusion in the lock server of cmd/lock-rpc-server.go, under every order of handlers and
-- maintenance steps.
use minio.Base.{
  ℕ, suc, ◌<◌, ◌≡◌, refl, ap, ◌⊎◌, inl, inr, true, false, [], ◌∷◌, ◌++◌, some, arith, Bool-cases,
  Option-cases, length, All, ◌==◌,
}
use minio.Base.Text.{Text, text_discrete}
use minio.Base.Assoc.{get, put, remove, get-put, get-remove}
use minio.LockServer.{
  LockRequesterInfo, LockArgs, Requesters, LockMap, is_write_lock, without, remove_entry, lock,
  unlock, r_lock, r_unlock, force_unlock, is_empty, expired, Call, lock_call, unlock_call,
  r_lock_call, r_unlock_call, force_unlock_call, expired_call, dispatch, requester,
  remove_entry_if_exists,
}

abbrev pub IsReader : LockRequesterInfo → Type 0
IsReader r = r.writer ≡ false

-- One writer, or one or more readers.
abbrev pub IsLegal : Requesters → Type 0
IsLegal lri = (is_write_lock lri ≡ true) ⊎ (All IsReader lri × (0 < length lri))

abbrev pub IsLegalMap : LockMap → Type 0
IsLegalMap m = (k : Text) (lri : Requesters) → get text_discrete k m ≡ some lri → IsLegal lri

single-IsLegal : (r : LockRequesterInfo) → IsLegal (r ∷ [])
unfolding is_write_lock
single-IsLegal r = elim (Bool-cases r.writer) [ inl w ↦ inl w | inr n ↦ inr ((n, tt), omega arith) ]

All-append : (xs ys : Requesters) → All IsReader xs → All IsReader ys → All IsReader (xs ++ ys)
All-append [] ys h k = k
All-append (x ∷ xs) ys h k = (h.0, All-append xs ys h.1 k)

-- A list of readers, taken from a legal list without a writer.
readers : (lri : Requesters) → IsLegal lri → is_write_lock lri ≡ false → All IsReader lri
readers lri (inl w) n = absurd (cc)
readers lri (inr r) n = r.0

append-IsLegal :
    (lri : Requesters) (r : LockRequesterInfo)
    → IsReader r
    → All IsReader lri
    → IsLegal (lri ++ r ∷ [])
append-IsLegal [] r h a = inr ((h, tt), omega arith)
append-IsLegal (x ∷ lri) r h a = inr (All-append (x ∷ lri) (r ∷ []) a (h, tt), omega arith)

module _ (uid : Text) where
  -- What the loop of `removeEntry` found at the head of the list.
  pub without-cons :
      (r : LockRequesterInfo) (lri rest : Requesters)
      → without uid (r ∷ lri) ≡ some rest
      → ((r.uid ≡ uid) × (rest ≡ lri))
        ⊎ ((rest' : Requesters) × (without uid lri ≡ some rest') × (rest ≡ r ∷ rest'))
  unfolding without
  without-cons r lri rest h = elim (text_discrete r.uid uid) [
    | yes p ↦ inl (p, ground arith)
    | no n ↦ elim (Option-cases (without uid lri)) [
      | inl e ↦ absurd (ground arith)
      | inr (rest', e) ↦ inr (rest', e, ground arith)
    ]
  ]

  without-readers :
      (lri rest : Requesters)
      → All IsReader lri
      → without uid lri ≡ some rest
      → All IsReader rest × (suc (length rest) ≡ length lri)
  unfolding without
  without-readers [] rest a h = absurd (cc)
  without-readers (r ∷ lri) rest a h = elim (without-cons r lri rest h) [
    | inl (_, e) ↦ rw e (a.1, refl)
    | inr (rest', e, f) ↦
        let ih = without-readers lri rest' a.1 e in rw f ((a.0, ih.0), ap suc ih.1)
  ]

  without-IsLegal :
      (lri rest : Requesters)
      → IsLegal lri
      → without uid lri ≡ some rest
      → (length lri == 1) ≡ false
      → IsLegal rest
  unfolding is_write_lock
  without-IsLegal [] rest l e n = absurd (ground arith)
  without-IsLegal (r ∷ []) rest l e n = absurd (cc)
  without-IsLegal (r ∷ s ∷ lri) rest l e n =
      let (a, c) = without-readers (r ∷ s ∷ lri) rest (readers (r ∷ s ∷ lri) l refl) e in
      inr (a, omega (arith, c))

module _ (m : LockMap) (legal : IsLegalMap m) where
  put-IsLegal : (k : Text) (lri : Requesters) → IsLegal lri → IsLegalMap (put text_discrete k lri m)
  put-IsLegal k lri l j x h = elim (text_discrete k j) [
    | yes p ↦ let e : lri ≡ x = ground (arith, get-put text_discrete k j lri m) in rw (← e) l
    | no p ↦ legal j x (ground (arith, get-put text_discrete k j lri m))
  ]

  remove-IsLegal : (k : Text) → IsLegalMap (remove text_discrete k m)
  remove-IsLegal k j x h = legal j x (ground (arith, get-remove text_discrete k j m))

  remove_entry-IsLegal :
      (k uid : Text) (lri : Requesters) → IsLegal lri → IsLegalMap (remove_entry m k uid lri).0
  unfolding remove_entry
  remove_entry-IsLegal k uid lri l = elim (Option-cases (without uid lri)) [
    | inl e ↦ rw (e, remove_entry) legal
    | inr (rest, e) ↦ elim (Bool-cases (length lri == 1)) [
      | inl one ↦ rw (e, remove_entry, one) (remove-IsLegal k)
      | inr more ↦
          rw (e, remove_entry, more) (put-IsLegal k rest (without-IsLegal uid lri rest l e more))
    ]
  ]

  lock-IsLegal : (args : LockArgs) (now : ℕ) → IsLegalMap (lock m args now).0
  unfolding lock
  lock-IsLegal args now = elim (Option-cases (get text_discrete args.resource m)) [
    | inl e ↦ rw (e, lock) (put-IsLegal args.resource _ (single-IsLegal (requester true args now)))
    | inr (lri, e) ↦ rw (e, lock) legal
  ]

  unlock-IsLegal : (args : LockArgs) → IsLegalMap (unlock m args).0
  unfolding unlock
  unlock-IsLegal args = elim (Option-cases (get text_discrete args.resource m)) [
    | inl e ↦ rw (e, unlock) legal
    | inr (lri, e) ↦ elim (Bool-cases (is_write_lock lri)) [
      | inl w ↦
          rw (e, unlock, w)
            (remove_entry-IsLegal args.resource args.uid lri (legal args.resource lri e))
      | inr n ↦ rw (e, unlock, n) legal
    ]
  ]

  r_lock-IsLegal : (args : LockArgs) (now : ℕ) → IsLegalMap (r_lock m args now).0
  unfolding r_lock
  r_lock-IsLegal args now = elim (Option-cases (get text_discrete args.resource m)) [
    | inl e ↦
        rw (e, r_lock) (put-IsLegal args.resource _ (single-IsLegal (requester false args now)))
    | inr (lri, e) ↦ elim (Bool-cases (is_write_lock lri)) [
      | inl w ↦ rw (e, r_lock, w) legal
      | inr n ↦
          rw (e, r_lock, n)
            (put-IsLegal args.resource _ (
              append-IsLegal lri (requester false args now) refl
                (readers lri (legal args.resource lri e) n)))
    ]
  ]

  r_unlock-IsLegal : (args : LockArgs) → IsLegalMap (r_unlock m args).0
  unfolding r_unlock
  r_unlock-IsLegal args = elim (Option-cases (get text_discrete args.resource m)) [
    | inl e ↦ rw (e, r_unlock) legal
    | inr (lri, e) ↦ elim (Bool-cases (is_write_lock lri)) [
      | inl w ↦ rw (e, r_unlock, w) legal
      | inr n ↦
          rw (e, r_unlock, n)
            (remove_entry-IsLegal args.resource args.uid lri (legal args.resource lri e))
    ]
  ]

  force_unlock-IsLegal : (args : LockArgs) → IsLegalMap (force_unlock m args).0
  unfolding force_unlock
  force_unlock-IsLegal args = elim (Bool-cases (is_empty args.uid)) [
    | inl e ↦ elim (Option-cases (get text_discrete args.resource m)) [
      | inl f ↦ rw (e, force_unlock, f) legal
      | inr (lri, f) ↦ rw (e, force_unlock, f) (remove-IsLegal args.resource)
    ]
    | inr n ↦ rw (n, force_unlock) legal
  ]

  expired-IsLegal : (args : LockArgs) → IsLegalMap (expired m args).0
  unfolding expired
  expired-IsLegal args = elim (Option-cases (get text_discrete args.resource m)) [
    | inl e ↦ rw (e, expired) legal
    | inr (lri, e) ↦ rw (e, expired) legal
  ]

  pub dispatch-IsLegal :
      (call : Call) (args : LockArgs) (now : ℕ) → IsLegalMap (dispatch call m args now).0
  unfolding dispatch
  dispatch-IsLegal lock_call args now = lock-IsLegal args now
  dispatch-IsLegal unlock_call args now = unlock-IsLegal args
  dispatch-IsLegal r_lock_call args now = r_lock-IsLegal args now
  dispatch-IsLegal r_unlock_call args now = r_unlock-IsLegal args
  dispatch-IsLegal force_unlock_call args now = force_unlock-IsLegal args
  dispatch-IsLegal expired_call args now = expired-IsLegal args

  pub remove_entry_if_exists-IsLegal :
      (p : Text × LockRequesterInfo) → IsLegalMap (remove_entry_if_exists m p)
  unfolding remove_entry_if_exists
  remove_entry_if_exists-IsLegal (name, r) = elim (Option-cases (get text_discrete name m)) [
    | inl e ↦ rw (e, remove_entry_if_exists) legal
    | inr (lri, e) ↦
        rw (e, remove_entry_if_exists) (remove_entry-IsLegal name r.uid lri (legal name lri e))
  ]
