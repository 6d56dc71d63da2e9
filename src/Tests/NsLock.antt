-- ===== src/Tests/NsLock.antt =====
-- cmd/namespace-lock.go: a reader waits, is granted the lock, and is forced out.
use minio.Base.{
  ℕ, suc, zero, ◌+◌, ◌≡◌, refl, Bool, true, false, some, none, if◌then◌else◌, ◌==◌, length,
}
use minio.Base.Text.{codes, text_discrete}
use minio.Base.Assoc.{get, put, remove}
use minio.NsLock.{
  lock_waiting, lock_granted, lock_removed, NsParam, param_discrete, RwLocker, NsLockMap,
  remove_all, begin, granted, forced, new_debug_lock_info,
}
use minio.NsLock.Status.{
  init_ns_lock, init_lock_info_for_volume_path, set_info, mark_blocked, status_none_to_blocked,
  status_blocked_to_running, delete_lock_info_entry_for_volume_path, delete_lock_info_entry_for_ops,
}
use minio.NsLock.Locks.{
  find_lock, set_ref, lock_begin, on_locker, lock_acquire, drop_if_unused, drop_ref, unlock,
  force_unlock, step,
}
use minio.NsLock.Keys.{Consistent}
use minio.NsLock.Runs.{initial, after, Reached-Consistent}

program : Unit {0}
unfolding lock_waiting lock_granted lock_removed param_discrete init_ns_lock
    init_lock_info_for_volume_path set_info mark_blocked status_none_to_blocked
    status_blocked_to_running remove_all delete_lock_info_entry_for_volume_path
    delete_lock_info_entry_for_ops find_lock set_ref lock_begin on_locker lock_acquire
    drop_if_unused drop_ref unlock force_unlock step new_debug_lock_info get put remove
    text_discrete
program = tt

-- The readers, and whether there is a writer.
abbrev Mutex : Type 0
Mutex = ℕ × Bool

abbrev rw_mutex : RwLocker Mutex
rw_mutex = record {
  fresh = λ d p. (0, false);
  lock = λ l. if l.1 then none else if l.0 == 0 then some (0, true) else none;
  unlock = λ l. if l.1 then some (l.0, false) else none;
  r_lock = λ l. if l.1 then none else some (l.0 + 1, false);
  r_unlock = λ l. elim l.0 [ zero ↦ none | suc n ↦ some (n, l.1) ];
}

abbrev param : NsParam
param = (codes "bucket", codes "object")

abbrev waits : NsLockMap Mutex
waits = (lock_begin rw_mutex (init_ns_lock false) param (codes "here") (codes "op1") true 5).1

abbrev runs : NsLockMap Mutex
runs = (status_blocked_to_running waits param (codes "here") (codes "op1") true 6).1

waits_test : waits.counters ≡ record { total = 1; blocked = 1; granted = 0 }
unfolding program
waits_test = refl

runs_test : runs.counters ≡ record { total = 1; blocked = 0; granted = 1 }
unfolding program
runs_test = refl

-- What is left, in the map and in the counters, of an operation that has ended.
abbrev after_unlock : ℕ
after_unlock = elim (on_locker rw_mutex runs 0 rw_mutex.r_lock) [
  | none ↦ 1
  | some n ↦ elim (unlock rw_mutex n param (codes "op1") true) [
    | none ↦ 2
    | some m ↦ length m.lock_map + m.counters.total
  ]
]

unlock_test : after_unlock ≡ 0
unfolding program
unlock_test = refl

Reached-Consistent_example : Consistent (force_unlock rw_mutex runs param)
unfolding program
Reached-Consistent_example = Reached-Consistent rw_mutex (
    after runs _ (forced param)
      (after waits _ (granted param (codes "here") (codes "op1") true 6)
        (after (init_ns_lock false) _ (begin param (codes "here") (codes "op1") true 5)
          (initial false) (λ v h. absurd (cc)) refl)
        tt refl)
      tt refl)
