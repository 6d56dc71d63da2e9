-- ===== src/NsLock/Steps.antt =====
-- The calls of cmd/namespace-lock.go keep the map of locks, the records and the counters in step.
use minio.Base.{
  ℕ, ◌+◌, ◌-◌, ◌≡◌, refl, ap, ◌∙◌, Bool, true, some, arith, if◌then◌else◌, Bool-cases, Option-cases,
  inl, inr, ite, get_elem?, ◌==◌,
}
use minio.Base.Text.{Text}
use minio.Base.Assoc.{get}
use minio.NsLock.Removals.{delete_ops-Tallied}
use minio.NsLock.Tallies.{Fresh, same_records, status_none_to_blocked-Tallied}
use minio.NsLock.{NsParam, param_discrete, RwLocker, NsLockMap}
use minio.NsLock.Locks.{
  find_lock, set_ref, lock_begin, on_locker, drop_if_unused, drop_ref, unlock, force_unlock,
}
use minio.NsLock.Keys.{
  left-Consistent, left_if_named-Consistent, if-Consistent, delete_ops-Synced, set_ref-SameRecords,
  named-put, named-status_none_to_blocked, lock_map-status_none_to_blocked, on_locker-SameRecords,
  SameRecords-Consistent, Consistent, named,
}

module _ {L : Type 0} where
  module _ (rw' : RwLocker L) where
    drop_if_unused-Consistent :
        (n : NsLockMap L) (param : NsParam) (ref : ℕ)
        → Consistent n
        → Consistent (drop_if_unused rw' n param ref)
    unfolding drop_if_unused
    drop_if_unused-Consistent n param ref c = elim (Bool-cases (ref == 0)) [
      | inl e ↦ rw (e) (left-Consistent n param c)
      | inr e ↦ rw (e) c
    ]

    drop_ref-Consistent :
        (n : NsLockMap L) (param : NsParam) (address ref : ℕ) (ops_id : Text)
        → Consistent n
        → Consistent (drop_ref rw' n param address ref ops_id)
    unfolding drop_ref
    drop_ref-Consistent n param address ref ops_id c =
        let m = SameRecords-Consistent n _ (set_ref-SameRecords rw' n address (λ r. r - 1)) c in
        elim (Bool-cases (ref == 0)) [
          | inl e ↦ rw (e) (drop_if_unused-Consistent n param 0 c)
          | inr e ↦ rw (e) (
              drop_if_unused-Consistent _ param (ref - 1) (record {
                tallied = delete_ops-Tallied _ param ops_id m.tallied;
                synced = delete_ops-Synced _ param ops_id m.synced;
              }))
        ]

    pub unlock-Consistent :
        (n m : NsLockMap L) (param : NsParam) (ops_id : Text) (read_lock : Bool)
        → Consistent n
        → unlock rw' n param ops_id read_lock ≡ some m
        → Consistent m
    unfolding unlock
    unlock-Consistent n m param ops_id read_lock c h =
        elim (Option-cases (get param_discrete param n.lock_map)) [
          | inl e ↦ let q : m ≡ n = ground arith in rw q c
          | inr (address, e) ↦
              elim (Option-cases
                (on_locker rw' n address (if read_lock then rw'.r_unlock else rw'.unlock))) [
                  | inl e' ↦ absurd (ground arith)
                  | inr (n', e') ↦ elim (Option-cases (get_elem? n'.locks address)) [
                    | inl e'' ↦ absurd (ground arith)
                    | inr (lk, e'') ↦
                        let q : m ≡ drop_ref rw' n' param address lk.ref ops_id = ground arith in
                        rw q (
                          drop_ref-Consistent n' param address lk.ref ops_id (
                            SameRecords-Consistent n n'
                              (on_locker-SameRecords rw' n n' address _ e') c))
                  ]
                ]
        ]

    pub force_unlock-Consistent :
        (n : NsLockMap L) (param : NsParam) → Consistent n → Consistent (force_unlock rw' n param)
    unfolding force_unlock
    force_unlock-Consistent n param c = left_if_named-Consistent _ param (
        if-Consistent n.is_dist_xl _ n
          (SameRecords-Consistent n _
            (record { counters = refl; debug_lock_map = refl; lock_map = refl }) c)
          c)

    find_lock-keys :
        (n : NsLockMap L) (param p : NsParam)
        → named (find_lock rw' n param).1.lock_map p
          ≡ ite (param_discrete param p) true (named n.lock_map p)
    unfolding find_lock
    find_lock-keys n param p = elim (Option-cases (get param_discrete param n.lock_map)) [
      | inl e ↦ rw (e, find_lock) (named-put n.lock_map param _ p)
      | inr (address, e) ↦ rw (e, find_lock) (ground arith)
    ]

    find_lock-counters :
        (n : NsLockMap L) (param : NsParam) → (find_lock rw' n param).1.counters ≡ n.counters
    unfolding find_lock
    find_lock-counters n param = ground arith

    find_lock-debug_lock_map :
        (n : NsLockMap L) (param : NsParam)
        → (find_lock rw' n param).1.debug_lock_map ≡ n.debug_lock_map
    unfolding find_lock
    find_lock-debug_lock_map n param = ground arith

    pub lock_begin-Consistent :
        (n : NsLockMap L) (param : NsParam) (lock_source ops_id : Text) (read_lock : Bool) (now : ℕ)
        → Fresh n param ops_id
        → Consistent n
        → Consistent (lock_begin rw' n param lock_source ops_id read_lock now).1
    unfolding lock_begin
    lock_begin-Consistent n param lock_source ops_id read_lock now f c =
        let found = find_lock rw' n param in
        let s = set_ref-SameRecords rw' found.1 found.0 (λ r. r + 1) in
        let m = set_ref rw' found.1 found.0 (λ r. r + 1) in
        let p = s.counters ∙ find_lock-counters n param in
        let q = s.debug_lock_map ∙ find_lock-debug_lock_map n param in
        let fresh : Fresh m param ops_id = rw q f in
        record {
          tallied =
              status_none_to_blocked-Tallied m param lock_source ops_id read_lock now
                (same_records n m p q c.tallied) fresh;
          synced = λ k.
              let a =
                ap (λ l. named l k)
                  (lock_map-status_none_to_blocked m param lock_source ops_id read_lock now
                    ∙ s.lock_map) in
              let b = find_lock-keys n param k in
              let d = named-status_none_to_blocked m param lock_source ops_id read_lock now k in
              let e = ap (λ l. named l k) q in let g = c.synced k in ground arith;
        }
