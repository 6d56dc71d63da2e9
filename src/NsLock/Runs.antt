-- ===== src/NsLock/Runs.antt =====
-- Runs of cmd/namespace-lock.go: the calls of any number of callers, interleaved where `lock` may
-- block.
use minio.Base.{◌≡◌, refl, ap, ◌∙◌, sym, Bool, some, arith}
use minio.Base.Assoc.{get, total}
use minio.NsLock.Tallies.{Fresh, status_blocked_to_running-Tallied}
use minio.NsLock.{RwLocker, NsLockMap, Event, begin, acquire, granted, released, forced}
use minio.NsLock.Status.{init_ns_lock, status_blocked_to_running}
use minio.NsLock.Locks.{lock_begin, lock_acquire, force_unlock, step}
use minio.NsLock.Steps.{lock_begin-Consistent, force_unlock-Consistent, unlock-Consistent}
use minio.NsLock.Keys.{
  named, Consistent, SameRecords-Consistent, on_locker-SameRecords, named-status_blocked_to_running,
  lock_map-status_blocked_to_running,
}

module _ {L : Type 0} (rw' : RwLocker L) where
  -- The operation of a new call of `lock` has an identifier of its own: `getOpsID` is random.
  abbrev pub Proper : NsLockMap L → Event → Type 0
  Proper n (begin param lock_source ops_id read_lock now) = Fresh n param ops_id
  Proper n (acquire address read_lock) = Unit
  Proper n (granted param lock_source ops_id read_lock now) = Unit
  Proper n (released param ops_id read_lock) = Unit
  Proper n (forced param) = Unit

  -- The maps that runs reach.
  pub data Reached : NsLockMap L → Type 0 where
    initial : (is_dist_xl : Bool) → Reached (init_ns_lock is_dist_xl)
    after :
        (n m : NsLockMap L) (e : Event) → Reached n → Proper n e → step rw' n e ≡ some m → Reached m

  step-Consistent :
      (n m : NsLockMap L) (e : Event)
      → Consistent n
      → Proper n e
      → step rw' n e ≡ some m
      → Consistent m
  unfolding step lock_acquire
  step-Consistent n m (begin param lock_source ops_id read_lock now) c f h =
      let q : m ≡ (lock_begin rw' n param lock_source ops_id read_lock now).1 = ground arith in
      rw q (lock_begin-Consistent rw' n param lock_source ops_id read_lock now f c)
  step-Consistent n m (acquire address read_lock) c f h =
      SameRecords-Consistent n m (on_locker-SameRecords rw' n m address _ h) c
  step-Consistent n m (granted param lock_source ops_id read_lock now) c f h =
      let n' = (status_blocked_to_running n param lock_source ops_id read_lock now).1 in
      let q : m ≡ n' = ground arith in
      let t =
        status_blocked_to_running-Tallied n param lock_source ops_id read_lock now c.tallied in
      rw q (record {
        tallied = t;
        synced = λ k.
            ap (λ l. named l k)
              (lock_map-status_blocked_to_running n param lock_source ops_id read_lock now)
            ∙ (c.synced k
                ∙ sym (named-status_blocked_to_running n param lock_source ops_id read_lock now k));
      })
  step-Consistent n m (released param ops_id read_lock) c f h =
      unlock-Consistent rw' n m param ops_id read_lock c h
  step-Consistent n m (forced param) c f h =
      let q : m ≡ force_unlock rw' n param = ground arith in
      rw q (force_unlock-Consistent rw' n param c)

  -- In every map that calls of `lock`, `unlock` and `ForceUnlock` reach, in any interleaving, each
  -- new call of `lock` under an identifier of its own: the counters of the map, blocked, granted
  -- and total (modulo 2^64), are the numbers of recorded operations that wait, that run, and their
  -- sum, the counters of each name are those of its operations, and a name has a lock exactly
  -- when it has a record.
  pub Reached-Consistent : {n : NsLockMap L} → Reached n → Consistent n
  unfolding init_ns_lock get total
  Reached-Consistent (initial d) = record {
    tallied = record {
      distinct = tt;
      each = λ p v h. absurd (cc);
      counts = record { blocked = refl; granted = refl; all = refl };
    };
    synced = λ p. refl;
  }
  Reached-Consistent (after n m e r f h) = step-Consistent n m e (Reached-Consistent r) f h
