-- ===== src/LockServer/Handlers.antt =====
-- What the handlers of cmd/lock-rpc-server.go grant, refuse and leave alone.
use minio.Base.{
  ℕ, ◌≡◌, ◌≢◌, ◌↔◌, refl, ◌⊎◌, inl, inr, true, false, [], ◌∷◌, ◌++◌, Option, none, some, arith,
  Bool, Bool-cases, Option-cases, length, length-append, if◌then◌else◌, ◌==◌,
}
use minio.Base.Text.{Text, text_discrete}
use minio.Base.Assoc.{
  get, put, remove, get-put, get-remove, get-put_ne, get-remove_ne, get-put_self,
}
use minio.LockServer.Exclusion.{IsLegal, IsLegalMap}
use minio.LockServer.{
  LockRequesterInfo, LockArgs, Requesters, LockMap, LockError, reply, error, no_such_uid,
  unlocked_entity, read_locked, is_write_lock, without, remove_entry, lock, unlock, r_lock,
  r_unlock, force_unlock, holds_uid, expired, Call, lock_call, unlock_call, r_lock_call,
  r_unlock_call, force_unlock_call, expired_call, dispatch, handle, requester,
}

-- `Lock` grants exactly when nothing is locked under the name.
pub lock_iff :
    (m : LockMap) (args : LockArgs) (now : ℕ)
    → ((lock m args now).1 ≡ reply true) ↔ (get text_discrete args.resource m ≡ none)
unfolding lock
lock_iff m args now = ground arith

abbrev pub is_write_locked : Option Requesters → Bool
is_write_locked none = false
is_write_locked (some lri) = is_write_lock lri

-- `RLock` grants exactly when no write lock is held under the name.
pub r_lock_iff :
    (m : LockMap) (args : LockArgs) (now : ℕ)
    → ((r_lock m args now).1 ≡ reply true)
      ↔ (is_write_locked (get text_discrete args.resource m) ≡ false)
unfolding r_lock
r_lock_iff m args now = ground arith

-- A call changes no other resource than the one that it names.
module _ (m : LockMap) (k : Text) where
  remove_entry-frame :
      (j uid : Text) (lri : Requesters)
      → j ≢ k
      → get text_discrete k (remove_entry m j uid lri).0 ≡ get text_discrete k m
  unfolding remove_entry
  remove_entry-frame j uid lri n = elim (Option-cases (without uid lri)) [
    | inl e ↦ rw (e, remove_entry)
    | inr (rest, e) ↦ elim (Bool-cases (length lri == 1)) [
      | inl one ↦ rw (e, remove_entry, one) (get-remove_ne text_discrete j k m n)
      | inr more ↦ rw (e, remove_entry, more) (get-put_ne text_discrete j k rest m n)
    ]
  ]

  dispatch-frame :
      (call : Call) (args : LockArgs) (now : ℕ)
      → args.resource ≢ k
      → get text_discrete k (dispatch call m args now).0 ≡ get text_discrete k m
  unfolding dispatch lock unlock r_lock r_unlock force_unlock expired
  dispatch-frame lock_call args now n =
      ground (arith, get-put_ne text_discrete args.resource k (requester true args now ∷ []) m n)
  dispatch-frame unlock_call args now n = elim (Option-cases (get text_discrete args.resource m)) [
    | inl e ↦ rw (e, unlock)
    | inr (lri, e) ↦ elim (Bool-cases (is_write_lock lri)) [
      | inl w ↦ rw (e, unlock, w) (remove_entry-frame args.resource args.uid lri n)
      | inr r ↦ rw (e, unlock, r)
    ]
  ]
  dispatch-frame r_lock_call args now n = elim (Option-cases (get text_discrete args.resource m)) [
    | inl e ↦ rw (e, r_lock) (get-put_ne text_discrete args.resource k _ m n)
    | inr (lri, e) ↦ elim (Bool-cases (is_write_lock lri)) [
      | inl w ↦ rw (e, r_lock, w)
      | inr r ↦ rw (e, r_lock, r) (get-put_ne text_discrete args.resource k _ m n)
    ]
  ]
  dispatch-frame r_unlock_call args now n =
      elim (Option-cases (get text_discrete args.resource m)) [
        | inl e ↦ rw (e, r_unlock)
        | inr (lri, e) ↦ elim (Bool-cases (is_write_lock lri)) [
          | inl w ↦ rw (e, r_unlock, w)
          | inr r ↦ rw (e, r_unlock, r) (remove_entry-frame args.resource args.uid lri n)
        ]
      ]
  dispatch-frame force_unlock_call args now n =
      ground (arith, get-remove_ne text_discrete args.resource k m n)
  dispatch-frame expired_call args now n = ground arith

  -- A call, authenticated or not, changes nothing under any other name than the one that it gives.
  pub handle-frame :
      (authenticated : Bool) (call : Call) (args : LockArgs) (now : ℕ)
      → args.resource ≢ k
      → get text_discrete k (handle authenticated call m args now).0 ≡ get text_discrete k m
  unfolding handle
  handle-frame true call args now n = dispatch-frame call args now n
  handle-frame false call args now n = refl

abbrev pub is_held_by : Text → Option Requesters → Bool
is_held_by uid none = false
is_held_by uid (some lri) = holds_uid uid lri

-- Where two maps answer alike under every name.
abbrev pub SameLocks : LockMap → LockMap → Type 0
SameLocks m m' = (k : Text) → get text_discrete k m ≡ get text_discrete k m'

module _ (m : LockMap) (args : LockArgs) where
  unlock_own :
      (r : LockRequesterInfo)
      → get text_discrete args.resource m ≡ some (r ∷ [])
      → r.writer ≡ true
      → r.uid ≡ args.uid
      → unlock m args ≡ (remove text_discrete args.resource m, reply true)
  unfolding unlock remove_entry without is_write_lock
  unlock_own r e w u = ground arith

  r_unlock_own :
      (lri rest : Requesters)
      → get text_discrete args.resource m ≡ some lri
      → is_write_lock lri ≡ false
      → without args.uid lri ≡ some rest
      → r_unlock m args ≡ (
        if length lri == 1
            then remove text_discrete args.resource m
            else put text_discrete args.resource rest m,
        reply true,
      )
  unfolding r_unlock remove_entry
  r_unlock_own lri rest e w f = rw (e, r_unlock, w, remove_entry, f)

  -- The name is write-locked by the caller's uid.
  abbrev pub Holds : Type 0
  Holds =
      (r : LockRequesterInfo) × (get text_discrete args.resource m ≡ some (r ∷ []))
      × (r.writer ≡ true)
      × (r.uid ≡ args.uid)

  unlock_cases : Holds ⊎ ((e : LockError) × (unlock m args ≡ (m, error e)))
  unfolding unlock remove_entry without is_write_lock
  unlock_cases = elim (Option-cases (get text_discrete args.resource m)) [
    | inl e ↦ inr (unlocked_entity, rw (e, unlock) refl)
    | inr ([], e) ↦ inr (read_locked, rw (e, unlock) refl)
    | inr (r ∷ [], e) ↦ elim (Bool-cases r.writer) [
      | inr reader ↦ inr (read_locked, ground arith)
      | inl writer ↦ elim (text_discrete r.uid args.uid) [
        | yes u ↦ inl (r, e, writer, u)
        | no n ↦ inr (no_such_uid, ground arith)
      ]
    ]
    | inr (r ∷ q ∷ lri, e) ↦ inr (read_locked, rw (e, unlock) refl)
  ]

  -- If the name is write-locked by the caller's uid, `Unlock` succeeds and the name is free; if not,
  -- `Unlock` is an error that changes nothing.
  pub unlock_holder :
      (Holds → unlock m args ≡ (remove text_discrete args.resource m, reply true))
      × (¬ Holds → ((e : LockError) × (unlock m args ≡ (m, error e))))
  unlock_holder = (
    λ (r, e, w, u). unlock_own r e w u,
    λ n. elim unlock_cases [ inl h ↦ absurd (n h) | inr x ↦ x ],
  )

module _ (m : LockMap) (args : LockArgs) (now : ℕ) where
  -- The holder's `Unlock` after a granted `Lock` succeeds, and the locks are as they were before.
  pub unlock-lock :
      (lock m args now).1 ≡ reply true
      → ((unlock (lock m args now).0 args).1 ≡ reply true)
        × SameLocks (unlock (lock m args now).0 args).0 m
  unfolding lock
  unlock-lock granted =
      let free = (lock_iff m args now).0 granted in
      let r = requester true args now in
      let m' = put text_discrete args.resource (r ∷ []) m in
      let e =
        unlock_own m' args r (get-put_self text_discrete args.resource (r ∷ []) m) refl refl in
      rw (free, lock, e)
        (
          refl,
          λ k. ground (
            arith,
            get-remove text_discrete args.resource k m',
            get-put text_discrete args.resource k (r ∷ []) m,
          ),
        )

  without-append :
      (lri : Requesters)
      → holds_uid args.uid lri ≡ false
      → without args.uid (lri ++ requester false args now ∷ []) ≡ some lri
  unfolding without holds_uid
  without-append [] h = ground arith
  without-append (r ∷ lri) h = ground (arith, without-append lri)

  write_lock-append :
      (lri : Requesters) → is_write_lock (lri ++ requester false args now ∷ []) ≡ false
  unfolding is_write_lock
  write_lock-append [] = refl
  write_lock-append (r ∷ []) = refl
  write_lock-append (r ∷ q ∷ lri) = refl

  not_single :
      (lri : Requesters) (r : LockRequesterInfo)
      → IsLegal lri
      → is_write_lock lri ≡ false
      → (length (lri ++ r ∷ []) == 1) ≡ false
  not_single lri r (inl w) n = absurd (cc)
  not_single lri r (inr (a, p)) n = ground (arith, length-append lri (r ∷ []), p)

  -- A client that holds no read lock under its uid, and gets one, gives it back by `RUnlock`: that
  -- succeeds, and the locks are as they were before.
  pub r_unlock-r_lock :
      IsLegalMap m
      → (r_lock m args now).1 ≡ reply true
      → is_held_by args.uid (get text_discrete args.resource m) ≡ false
      → ((r_unlock (r_lock m args now).0 args).1 ≡ reply true)
        × SameLocks (r_unlock (r_lock m args now).0 args).0 m
  unfolding r_lock holds_uid
  r_unlock-r_lock legal granted fresh =
      let r = requester false args now in
      elim (Option-cases (get text_discrete args.resource m)) [
        | inl free ↦
            let m' = put text_discrete args.resource (r ∷ []) m in
            let g = get-put_self text_discrete args.resource (r ∷ []) m in
            let locked : r_lock m args now ≡ (m', reply true) = rw (free, r_lock) in
            let e =
              r_unlock_own m' args (r ∷ []) [] g (write_lock-append []) (without-append [] refl) in
            rw (locked, e)
              (
                refl,
                λ k. ground (
                  arith,
                  get-remove text_discrete args.resource k m',
                  get-put text_discrete args.resource k (r ∷ []) m,
                ),
              )
        | inr (lri, e) ↦
            let m' = put text_discrete args.resource (lri ++ r ∷ []) m in
            let g = get-put_self text_discrete args.resource (lri ++ r ∷ []) m in
            let reads : is_write_lock lri ≡ false =
              rw (e, is_write_locked) at ((r_lock_iff m args now).0 granted) in
            let locked : r_lock m args now ≡ (m', reply true) = rw (e, r_lock, reads) in
            let many : (length (lri ++ r ∷ []) == 1) ≡ false =
              not_single lri r (legal args.resource lri e) reads in
            let e' =
              r_unlock_own m' args (lri ++ r ∷ []) lri g (write_lock-append lri)
                (without-append lri (rw (e, is_held_by) at fresh)) in
            rw (locked, e', many)
              (
                refl,
                λ k. ground (
                  arith,
                  get-put text_discrete args.resource k lri m',
                  get-put text_discrete args.resource k (lri ++ r ∷ []) m,
                  e,
                ),
              )
      ]
