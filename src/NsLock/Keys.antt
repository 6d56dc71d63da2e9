-- ===== src/NsLock/Keys.antt =====
-- The names that cmd/namespace-lock.go keeps in the map of locks and in the records.
use minio.Base.{
  ℕ, ◌≡◌, refl, ◌∙◌, Bool, true, false, List, [], Option, none, some, arith, if◌then◌else◌,
  Bool-cases, Option-cases, inl, inr, ite, get_elem?,
}
use minio.Base.Text.{Text, text_discrete, same}
use minio.Base.Assoc.{get, put, remove, get-put, get-remove}
use minio.NsLock.Removals.{delete_volume_path-Tallied}
use minio.NsLock.Tallies.{Tallied, same_records}
use minio.NsLock.{no_locks, is_running, NsParam, param_discrete, RwLocker, NsLockMap}
use minio.NsLock.Status.{
  init_lock_info_for_volume_path, set_info, mark_blocked, status_none_to_blocked,
  status_blocked_to_running, delete_lock_info_entry_for_volume_path, delete_lock_info_entry_for_ops,
}
use minio.NsLock.Locks.{set_ref, on_locker}

-- The key is in the map.
abbrev pub named : {V : Type 0} → List (NsParam × V) → NsParam → Bool
named m p = elim (get param_discrete p m) [ none ↦ false | some v ↦ true ]

pub named-put :
    {V : Type 0} (m : List (NsParam × V)) (param : NsParam) (v : V) (p : NsParam)
    → named (put param_discrete param v m) p ≡ ite (param_discrete param p) true (named m p)
named-put m param v p = ground (arith, get-put param_discrete param p v m)

named-put_old :
    {V : Type 0} (m : List (NsParam × V)) (param : NsParam) (v w : V) (p : NsParam)
    → get param_discrete param m ≡ some w
    → named (put param_discrete param v m) p ≡ named m p
named-put_old m param v w p h = ground (arith, get-put param_discrete param p v m)

named-remove :
    {V : Type 0} (m : List (NsParam × V)) (param : NsParam) (p : NsParam)
    → named (remove param_discrete param m) p ≡ ite (param_discrete param p) false (named m p)
named-remove m param p = ground (arith, get-remove param_discrete param p m)

module _ {L : Type 0} where
  -- A map that differs in its locks alone.
  pub record SameRecords (n m : NsLockMap L) : Type 0 where
    pub counters : m.counters ≡ n.counters
    pub debug_lock_map : m.debug_lock_map ≡ n.debug_lock_map
    pub lock_map : m.lock_map ≡ n.lock_map

  -- A name has a lock exactly when it has a record of its operations.
  abbrev pub Synced : NsLockMap L → Type 0
  Synced n = (p : NsParam) → named n.lock_map p ≡ named n.debug_lock_map p

  -- What every step keeps.
  pub record Consistent (n : NsLockMap L) : Type 0 where
    pub tallied : Tallied n
    pub synced : Synced n

  pub SameRecords-Consistent : (n m : NsLockMap L) → SameRecords n m → Consistent n → Consistent m
  SameRecords-Consistent n m s c = record {
    tallied = same_records n m s.counters s.debug_lock_map c.tallied;
    synced = rw (s.debug_lock_map, s.lock_map) c.synced;
  }

  module _ (rw' : RwLocker L) where
    pub set_ref-SameRecords :
        (n : NsLockMap L) (address : ℕ) (f : ℕ → ℕ) → SameRecords n (set_ref rw' n address f)
    unfolding set_ref
    set_ref-SameRecords n address f = elim (Option-cases (get_elem? n.locks address)) [
      | inl e ↦ rw (e, set_ref) (record { counters = refl; debug_lock_map = refl; lock_map = refl })
      | inr (lk, e) ↦
          rw (e, set_ref) (record { counters = refl; debug_lock_map = refl; lock_map = refl })
    ]

    pub on_locker-SameRecords :
        (n m : NsLockMap L) (address : ℕ) (f : L → Option L)
        → on_locker rw' n address f ≡ some m
        → SameRecords n m
    unfolding on_locker
    on_locker-SameRecords n m address f h = record {
      counters = ground arith;
      debug_lock_map = ground arith;
      lock_map = ground arith;
    }

  -- What the steps do to the keys of the two maps.
  pub named-status_none_to_blocked :
      (n : NsLockMap L) (param : NsParam) (lock_source ops_id : Text) (read_lock : Bool) (now : ℕ)
      (p : NsParam)
      → named (status_none_to_blocked n param lock_source ops_id read_lock now).debug_lock_map p
        ≡ ite (param_discrete param p) true (named n.debug_lock_map p)
  unfolding status_none_to_blocked mark_blocked set_info init_lock_info_for_volume_path
  named-status_none_to_blocked n param lock_source ops_id read_lock now p =
      elim (Option-cases (get param_discrete param n.debug_lock_map)) [
        | inl e ↦
            rw (e, status_none_to_blocked)
              (named-put _ param _ p
                ∙ ground (
                  arith,
                  named-put n.debug_lock_map param (record { counters = no_locks; lock_info = [] })
                      p,
                ))
        | inr (v, e) ↦ rw (e, status_none_to_blocked) (named-put n.debug_lock_map param _ p)
      ]

  pub named-status_blocked_to_running :
      (n : NsLockMap L) (param : NsParam) (lock_source ops_id : Text) (read_lock : Bool) (now : ℕ)
      (p : NsParam)
      → named
          (status_blocked_to_running n param lock_source ops_id read_lock now).1.debug_lock_map
          p
        ≡ named n.debug_lock_map p
  unfolding status_blocked_to_running set_info
  named-status_blocked_to_running n param lock_source ops_id read_lock now p =
      elim (Option-cases (get param_discrete param n.debug_lock_map)) [
        | inl e ↦ rw (e, status_blocked_to_running) refl
        | inr (v, e) ↦ elim (Option-cases (get text_discrete ops_id v.lock_info)) [
          | inl e' ↦ rw (e, status_blocked_to_running, e') refl
          | inr (info, e') ↦ elim (Bool-cases (same info.lock_source lock_source)) [
            | inr s ↦ rw (e, status_blocked_to_running, e', s) refl
            | inl s ↦ elim (Bool-cases (is_running info.status)) [
              | inl r ↦ rw (e, status_blocked_to_running, e', s, r) refl
              | inr r ↦
                  rw (e, status_blocked_to_running, e', s, r)
                    (named-put_old n.debug_lock_map param _ v p e)
            ]
          ]
        ]
      ]

  pub lock_map-status_blocked_to_running :
      (n : NsLockMap L) (param : NsParam) (lock_source ops_id : Text) (read_lock : Bool) (now : ℕ)
      → (status_blocked_to_running n param lock_source ops_id read_lock now).1.lock_map ≡ n.lock_map
  unfolding status_blocked_to_running set_info
  lock_map-status_blocked_to_running n param lock_source ops_id read_lock now = ground arith

  pub lock_map-status_none_to_blocked :
      (n : NsLockMap L) (param : NsParam) (lock_source ops_id : Text) (read_lock : Bool) (now : ℕ)
      → (status_none_to_blocked n param lock_source ops_id read_lock now).lock_map ≡ n.lock_map
  unfolding status_none_to_blocked mark_blocked set_info init_lock_info_for_volume_path
  lock_map-status_none_to_blocked n param lock_source ops_id read_lock now = ground arith

  pub delete_ops-Synced :
      (n : NsLockMap L) (param : NsParam) (ops_id : Text)
      → Synced n
      → Synced (delete_lock_info_entry_for_ops n param ops_id).1
  unfolding delete_lock_info_entry_for_ops set_info
  delete_ops-Synced n param ops_id s p =
      elim (Option-cases (get param_discrete param n.debug_lock_map)) [
        | inl e ↦ rw (e, delete_lock_info_entry_for_ops) (s p)
        | inr (v, e) ↦ elim (Option-cases (get text_discrete ops_id v.lock_info)) [
          | inl e' ↦ rw (e, delete_lock_info_entry_for_ops, e') (s p)
          | inr (info, e') ↦
              rw
                (
                  e,
                  delete_lock_info_entry_for_ops,
                  e',
                  named-put_old n.debug_lock_map param _ v p e,
                )
                (s p)
        ]
      ]

  -- The name leaves both maps.
  abbrev pub left : NsLockMap L → NsParam → NsLockMap L
  left n param =
      (delete_lock_info_entry_for_volume_path
        (record n { lock_map = remove param_discrete param n.lock_map }) param).1

  pub left-Consistent :
      (n : NsLockMap L) (param : NsParam) → Consistent n → Consistent (left n param)
  unfolding delete_lock_info_entry_for_volume_path
  left-Consistent n param c = record {
    tallied = delete_volume_path-Tallied _ param (same_records n _ refl refl c.tallied);
    synced = λ p. elim (Option-cases (get param_discrete param n.debug_lock_map)) [
      | inl e ↦
          rw (e, left, delete_lock_info_entry_for_volume_path)
            (let a = named-remove n.lock_map param p in let b = c.synced p in ground arith)
      | inr (v, e) ↦
          rw (e, left, delete_lock_info_entry_for_volume_path)
            (let a = named-remove n.lock_map param p in
              let d = named-remove n.debug_lock_map param p in let b = c.synced p in ground arith)
    ];
  }

  pub if-Consistent :
      (b : Bool) (x y : NsLockMap L) → Consistent x → Consistent y → Consistent (if b then x else y)
  if-Consistent true x y c d = c
  if-Consistent false x y c d = d

  pub left_if_named-Consistent :
      (n : NsLockMap L) (param : NsParam)
      → Consistent n
      → Consistent
          (elim (get param_discrete param n.lock_map) [ none ↦ n | some address ↦ left n param ])
  left_if_named-Consistent n param c = elim (Option-cases (get param_discrete param n.lock_map)) [
    | inl e ↦ rw (e) c
    | inr (address, e) ↦ rw (e) (left-Consistent n param c)
  ]
