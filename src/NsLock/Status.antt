-- ===== src/NsLock/Status.antt =====
-- cmd/lock-instrument.go: the records of the lock operations, and `initNSLock` of
-- cmd/namespace-lock.go.
use minio.Base.{ℕ, Bool, not, [], Option, none, some, if◌then◌else◌}
use minio.Base.Text.{Text, text_discrete, same}
use minio.Base.Assoc.{get, put, remove}
use minio.NsLock.{
  DebugLockInfoPerVolumePath, LockInfoError, LockStat, NsLockMap, NsParam, blocked_status,
  is_running, lock_granted, lock_removed, lock_waiting, new_debug_lock_info, no_locks,
  ops_id_not_found, origin_mismatch, param_discrete, remove_all, running_status, state_not_blocked,
  vol_path_missing,
}

module _ {L : Type 0} where
  unfoldable pub init_ns_lock : Bool → NsLockMap L
  init_ns_lock is_dist_xl = record {
    counters = no_locks;
    debug_lock_map = [];
    is_dist_xl = is_dist_xl;
    lock_map = [];
    locks = [];
    broadcasts = [];
  }

  unfoldable pub init_lock_info_for_volume_path : NsLockMap L → NsParam → NsLockMap L
  init_lock_info_for_volume_path n param = record n {
    debug_lock_map =
        put param_discrete param (record { counters = no_locks; lock_info = [] }) n.debug_lock_map;
  }

  -- A step on the entry of the name and the global counters.
  unfoldable pub set_info :
      NsLockMap L → NsParam → LockStat → DebugLockInfoPerVolumePath → NsLockMap L
  set_info n param counters infos = record n {
    counters = counters;
    debug_lock_map = put param_discrete param infos n.debug_lock_map;
  }

  unfoldable pub mark_blocked :
      NsLockMap L → NsParam → DebugLockInfoPerVolumePath → Text → Text → Bool → ℕ → NsLockMap L
  mark_blocked n param infos lock_source ops_id read_lock now =
      set_info n param (lock_waiting n.counters) (record {
        counters = lock_waiting infos.counters;
        lock_info =
            put text_discrete ops_id (new_debug_lock_info lock_source blocked_status read_lock now)
              infos.lock_info;
      })

  unfoldable pub status_none_to_blocked :
      NsLockMap L → NsParam → Text → Text → Bool → ℕ → NsLockMap L
  status_none_to_blocked n param lock_source ops_id read_lock now =
      elim (get param_discrete param n.debug_lock_map) [
        | none ↦
            mark_blocked (init_lock_info_for_volume_path n param) param
              (record { counters = no_locks; lock_info = [] }) lock_source ops_id read_lock now
        | some infos ↦ mark_blocked n param infos lock_source ops_id read_lock now
      ]

  unfoldable pub status_blocked_to_running :
      NsLockMap L → NsParam → Text → Text → Bool → ℕ → Option LockInfoError × NsLockMap L
  status_blocked_to_running n param lock_source ops_id read_lock now =
      elim (get param_discrete param n.debug_lock_map) [
        | none ↦ (some (vol_path_missing param), n)
        | some infos ↦ elim (get text_discrete ops_id infos.lock_info) [
          | none ↦ (some (ops_id_not_found param ops_id), n)
          | some info ↦
              if not (same info.lock_source lock_source)
              then (some (origin_mismatch param ops_id lock_source), n)
              else if is_running info.status
              then (some (state_not_blocked param ops_id), n)
              else (
                none,
                set_info n param (lock_granted n.counters) (record {
                  counters = lock_granted infos.counters;
                  lock_info =
                      put text_discrete ops_id
                        (new_debug_lock_info lock_source running_status read_lock now)
                        infos.lock_info;
                }),
              )
        ]
      ]

  unfoldable pub delete_lock_info_entry_for_volume_path :
      NsLockMap L → NsParam → Option LockInfoError × NsLockMap L
  delete_lock_info_entry_for_volume_path n param =
      elim (get param_discrete param n.debug_lock_map) [
        | none ↦ (some (vol_path_missing param), n)
        | some infos ↦ (
          none,
          record n {
            counters = remove_all n.counters infos.lock_info;
            debug_lock_map = remove param_discrete param n.debug_lock_map;
          },
        )
      ]

  unfoldable pub delete_lock_info_entry_for_ops :
      NsLockMap L → NsParam → Text → Option LockInfoError × NsLockMap L
  delete_lock_info_entry_for_ops n param ops_id = elim (get param_discrete param n.debug_lock_map) [
    | none ↦ (some (vol_path_missing param), n)
    | some infos ↦ elim (get text_discrete ops_id infos.lock_info) [
      | none ↦ (some (ops_id_not_found param ops_id), n)
      | some info ↦ (
        none,
        set_info n param (lock_removed n.counters (is_running info.status)) (record {
          counters = lock_removed infos.counters (is_running info.status);
          lock_info = remove text_discrete ops_id infos.lock_info;
        }),
      )
    ]
  ]
