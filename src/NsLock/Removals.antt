-- ===== src/NsLock/Removals.antt =====
-- The removals of cmd/lock-instrument.go keep the counters equal to what is recorded.
use minio.Base.{◌-◌, arith, Option-cases, inl, inr}
use minio.Base.Text.{Text, text_discrete}
use minio.Base.Assoc.{get, total-remove, remove-Distinct, get-remove, size-le-total}
use minio.NsLock.Stats.{Counts-eq, lock_removed-Counts, waits, runs, remove_all-Counts}
use minio.NsLock.{NsParam, param_discrete, NsLockMap}
use minio.NsLock.Status.{delete_lock_info_entry_for_volume_path, delete_lock_info_entry_for_ops}
use minio.NsLock.Tallies.{
  Tallied, waiting_in, running_in, all_waiting, all_running, set_info-Tallied,
}

module _ {L : Type 0} where
  pub delete_volume_path-Tallied :
      (n : NsLockMap L) (param : NsParam)
      → Tallied n
      → Tallied (delete_lock_info_entry_for_volume_path n param).1
  unfolding delete_lock_info_entry_for_volume_path
  delete_volume_path-Tallied n param t =
      elim (Option-cases (get param_discrete param n.debug_lock_map)) [
        | inl e ↦ rw (e, delete_lock_info_entry_for_volume_path) t
        | inr (v, e) ↦
            let p = total-remove param_discrete waiting_in param v n.debug_lock_map t.distinct e in
            let q = total-remove param_discrete running_in param v n.debug_lock_map t.distinct e in
            rw (e, delete_lock_info_entry_for_volume_path)
              (record {
                distinct = remove-Distinct param_discrete param n.debug_lock_map t.distinct;
                each = λ j w h.
                    t.each j w (ground (arith, get-remove param_discrete param j n.debug_lock_map));
                counts =
                    remove_all-Counts v.lock_info n.counters _ _
                      (Counts-eq n.counters _ _ _ _ (omega (arith, p)) (omega (arith, q)) t.counts);
              })
      ]

  pub delete_ops-Tallied :
      (n : NsLockMap L) (param : NsParam) (ops_id : Text)
      → Tallied n
      → Tallied (delete_lock_info_entry_for_ops n param ops_id).1
  unfolding delete_lock_info_entry_for_ops
  delete_ops-Tallied n param ops_id t =
      elim (Option-cases (get param_discrete param n.debug_lock_map)) [
        | inl e ↦ rw (e, delete_lock_info_entry_for_ops) t
        | inr (v, e) ↦ elim (Option-cases (get text_discrete ops_id v.lock_info)) [
          | inl e' ↦ rw (e, delete_lock_info_entry_for_ops, e') t
          | inr (info, e') ↦
              let i = t.each param v e in
              let p = total-remove text_discrete waits ops_id info v.lock_info i.distinct e' in
              let q = total-remove text_discrete runs ops_id info v.lock_info i.distinct e' in
              let p' = size-le-total param_discrete waiting_in param v n.debug_lock_map e in
              let q' = size-le-total param_discrete running_in param v n.debug_lock_map e in
              rw (e, delete_lock_info_entry_for_ops, e')
                (set_info-Tallied n param _ v _ (all_waiting n.debug_lock_map - waits info)
                  (all_running n.debug_lock_map - runs info) t e
                  (record {
                    distinct = remove-Distinct text_discrete ops_id v.lock_info i.distinct;
                    counts =
                        lock_removed-Counts v.counters info _ _
                          (Counts-eq v.counters _ _ _ _ p q i.counts);
                  })
                  (lock_removed-Counts n.counters info _ _ (
                    Counts-eq n.counters _ _ _ _ (omega (arith, p, p')) (omega (arith, q, q'))
                      t.counts))
                  (omega (arith, p, p')) (omega (arith, q, q')))
        ]
      ]
