-- ===== src/NsLock/Locks.antt =====
-- cmd/namespace-lock.go: the calls of lock, unlock and ForceUnlock.
use minio.Base.{
  ℕ, ◌+◌, ◌-◌, Bool, [], ◌∷◌, ◌++◌, Option, none, some, ◌==◌, if◌then◌else◌, length, get_elem?, set,
}
use minio.Base.Text.{Text}
use minio.Base.Assoc.{get, put, remove}
use minio.NsLock.{
  Event, NsLockMap, NsParam, RwLocker, acquire, begin, forced, granted, param_discrete, released,
}
use minio.NsLock.Status.{
  delete_lock_info_entry_for_ops, delete_lock_info_entry_for_volume_path, status_blocked_to_running,
  status_none_to_blocked,
}

module _ {L : Type 0} where
  module _ (rw : RwLocker L) where
    -- Where the name is not in the map, a new lock is put there.
    unfoldable pub find_lock : NsLockMap L → NsParam → ℕ × NsLockMap L
    find_lock n param = elim (get param_discrete param n.lock_map) [
      | some address ↦ (address, n)
      | none ↦ (
        length n.locks,
        record n {
          lock_map = put param_discrete param (length n.locks) n.lock_map;
          locks = n.locks ++ (record { locker = rw.fresh n.is_dist_xl param; ref = 0 } ∷ []);
        },
      )
    ]

    unfoldable pub set_ref : NsLockMap L → ℕ → (ℕ → ℕ) → NsLockMap L
    set_ref n address f = elim (get_elem? n.locks address) [
      | none ↦ n
      | some lk ↦ record n { locks = set n.locks address (record lk { ref = f lk.ref }) }
    ]

    -- `lock` up to where it may block: the part under the mutex of the map.
    unfoldable pub lock_begin : NsLockMap L → NsParam → Text → Text → Bool → ℕ → ℕ × NsLockMap L
    lock_begin n param lock_source ops_id read_lock now =
        let found = find_lock n param in
        (
          found.0,
          status_none_to_blocked (set_ref found.1 found.0 (λ r. r + 1)) param lock_source ops_id
              read_lock now,
        )

    -- The lock's own step; `none` is a call that blocks, or panics.
    unfoldable pub on_locker : NsLockMap L → ℕ → (L → Option L) → Option (NsLockMap L)
    on_locker n address f = elim (get_elem? n.locks address) [
      | none ↦ none
      | some lk ↦ elim (f lk.locker) [
        | none ↦ none
        | some locker ↦
            some (record n { locks = set n.locks address (record lk { locker = locker }) })
      ]
    ]

    -- `lock` from where it is granted.
    unfoldable pub lock_acquire : NsLockMap L → ℕ → Bool → Option (NsLockMap L)
    lock_acquire n address read_lock =
        on_locker n address (if read_lock then rw.r_lock else rw.lock)

    -- What is left of the reference: the last one takes the name out of both maps.
    unfoldable pub drop_if_unused : NsLockMap L → NsParam → ℕ → NsLockMap L
    drop_if_unused n param ref =
        if ref == 0
        then (delete_lock_info_entry_for_volume_path
            (record n { lock_map = remove param_discrete param n.lock_map }) param).1
        else n

    unfoldable pub drop_ref : NsLockMap L → NsParam → ℕ → ℕ → Text → NsLockMap L
    drop_ref n param address ref ops_id =
        if ref == 0
        then drop_if_unused n param 0
        else drop_if_unused
            (delete_lock_info_entry_for_ops (set_ref n address (λ r. r - 1)) param ops_id).1 param
            (ref - 1)

    unfoldable pub unlock : NsLockMap L → NsParam → Text → Bool → Option (NsLockMap L)
    unlock n param ops_id read_lock = elim (get param_discrete param n.lock_map) [
      | none ↦ some n
      | some address ↦ elim (on_locker n address (if read_lock then rw.r_unlock else rw.unlock)) [
        | none ↦ none
        | some m ↦ elim (get_elem? m.locks address) [
          | none ↦ none
          | some lk ↦ some (drop_ref m param address lk.ref ops_id)
        ]
      ]
    ]

    unfoldable pub force_unlock : NsLockMap L → NsParam → NsLockMap L
    force_unlock n param =
        let m =
          (if n.is_dist_xl then record n { broadcasts = n.broadcasts ++ (param ∷ []) } else n) in
        elim (get param_discrete param m.lock_map) [
          | none ↦ m
          | some address ↦
              (delete_lock_info_entry_for_volume_path
                (record m { lock_map = remove param_discrete param m.lock_map }) param).1
        ]

    unfoldable pub step : NsLockMap L → Event → Option (NsLockMap L)
    step n (begin param lock_source ops_id read_lock now) =
        some (lock_begin n param lock_source ops_id read_lock now).1
    step n (acquire address read_lock) = lock_acquire n address read_lock
    step n (granted param lock_source ops_id read_lock now) =
        some (status_blocked_to_running n param lock_source ops_id read_lock now).1
    step n (released param ops_id read_lock) = unlock n param ops_id read_lock
    step n (forced param) = some (force_unlock n param)
