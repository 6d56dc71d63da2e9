-- ===== src/NsLock/Tallies.antt =====
-- The counters of cmd/namespace-lock.go agree with the lock operations that are recorded.
use minio.Base.{
  ℕ, ◌+◌, ◌-◌, ◌≡◌, refl, Bool, List, [], none, some, arith, Bool-cases, Option-cases, inl, inr,
}
use minio.Base.Text.{Text, text_discrete, same}
use minio.Base.Assoc.{
  get, put, total, total-put_new, total-put_old, Distinct, put-Distinct, get-put, get-put_self,
  size-le-total,
}
use minio.NsLock.Stats.{
  Counts, Counts-eq, lock_waiting-Counts, lock_granted-Counts, waits, runs, waiting, running,
}
use minio.NsLock.{
  LockStat, no_locks, blocked_status, running_status, is_running, new_debug_lock_info,
  DebugLockInfoPerVolumePath, NsParam, param_discrete, NsLockMap,
}
use minio.NsLock.Status.{
  init_lock_info_for_volume_path, set_info, mark_blocked, status_none_to_blocked,
  status_blocked_to_running,
}

abbrev pub waiting_in : DebugLockInfoPerVolumePath → ℕ
waiting_in v = waiting v.lock_info

abbrev pub running_in : DebugLockInfoPerVolumePath → ℕ
running_in v = running v.lock_info

-- The counters of a name agree with its entries.
pub record IsTallied (v : DebugLockInfoPerVolumePath) : Type 0 where
  pub distinct : Distinct text_discrete v.lock_info
  pub counts : Counts v.counters (waiting_in v) (running_in v)

abbrev DebugMap : Type 0
DebugMap = List (NsParam × DebugLockInfoPerVolumePath)

abbrev pub all_waiting : List (NsParam × DebugLockInfoPerVolumePath) → ℕ
all_waiting m = total param_discrete waiting_in m

abbrev pub all_running : List (NsParam × DebugLockInfoPerVolumePath) → ℕ
all_running m = total param_discrete running_in m

put-each :
    (m : DebugMap) (param : NsParam) (w : DebugLockInfoPerVolumePath)
    → IsTallied w
    → ((p : NsParam) (v : DebugLockInfoPerVolumePath)
        → get param_discrete p m ≡ some v
        → IsTallied v)
    → (p : NsParam) (v : DebugLockInfoPerVolumePath)
    → get param_discrete p (put param_discrete param w m) ≡ some v
    → IsTallied v
put-each m param w t e p v h = elim (param_discrete param p) [
  | yes q ↦ let here : v ≡ w = ground (arith, get-put param_discrete param p w m) in rw here t
  | no q ↦ e p v (ground (arith, get-put param_discrete param p w m))
]

abbrev no_infos : DebugLockInfoPerVolumePath
no_infos = record { counters = no_locks; lock_info = [] }

no_infos-IsTallied : IsTallied no_infos
unfolding total
no_infos-IsTallied = record {
  distinct = tt;
  counts = record { blocked = refl; granted = refl; all = refl };
}

module _ {L : Type 0} where
  -- The counters of the map agree with the entries under all names, and those of each name with its own.
  pub record Tallied (n : NsLockMap L) : Type 0 where
    pub distinct : Distinct param_discrete n.debug_lock_map
    pub each :
        (p : NsParam) (v : DebugLockInfoPerVolumePath)
        → get param_discrete p n.debug_lock_map ≡ some v
        → IsTallied v
    pub counts : Counts n.counters (all_waiting n.debug_lock_map) (all_running n.debug_lock_map)

  -- The operation is not recorded under the name.
  abbrev pub Fresh : NsLockMap L → NsParam → Text → Type 0
  Fresh n param ops_id =
      (v : DebugLockInfoPerVolumePath)
      → get param_discrete param n.debug_lock_map ≡ some v
      → get text_discrete ops_id v.lock_info ≡ none

  -- Changes that leave the counters and the records as they are.
  pub same_records :
      (n m : NsLockMap L)
      → m.counters ≡ n.counters
      → m.debug_lock_map ≡ n.debug_lock_map
      → Tallied n
      → Tallied m
  same_records n m p q t = record {
    distinct = rw q t.distinct;
    each = rw q t.each;
    counts = rw (p, q) t.counts;
  }

  -- A new entry for a recorded name, with counters that follow it.
  pub set_info-Tallied :
      (n : NsLockMap L) (param : NsParam) (ls : LockStat) (v w : DebugLockInfoPerVolumePath)
      (b g : ℕ)
      → Tallied n
      → get param_discrete param n.debug_lock_map ≡ some v
      → IsTallied w
      → Counts ls b g
      → b + waiting_in v ≡ all_waiting n.debug_lock_map + waiting_in w
      → g + running_in v ≡ all_running n.debug_lock_map + running_in w
      → Tallied (set_info n param ls w)
  unfolding set_info
  set_info-Tallied n param ls v w b g t h i c p q = record {
    distinct = put-Distinct param_discrete param w n.debug_lock_map t.distinct;
    each = put-each n.debug_lock_map param w i t.each;
    counts =
        Counts-eq ls b g _ _
          (omega (arith, p, total-put_old param_discrete waiting_in param w v n.debug_lock_map h))
          (omega (arith, q, total-put_old param_discrete running_in param w v n.debug_lock_map h))
          c;
  }

  mark_blocked-Tallied :
      (n : NsLockMap L) (param : NsParam) (v : DebugLockInfoPerVolumePath)
      (lock_source ops_id : Text) (read_lock : Bool) (now : ℕ)
      → Tallied n
      → get param_discrete param n.debug_lock_map ≡ some v
      → get text_discrete ops_id v.lock_info ≡ none
      → Tallied (mark_blocked n param v lock_source ops_id read_lock now)
  unfolding mark_blocked new_debug_lock_info
  mark_blocked-Tallied n param v lock_source ops_id read_lock now t h f =
      let info = new_debug_lock_info lock_source blocked_status read_lock now in
      let i = t.each param v h in
      let p = total-put_new text_discrete waits ops_id info v.lock_info f in
      let q = total-put_new text_discrete runs ops_id info v.lock_info f in
      set_info-Tallied n param _ v _ (all_waiting n.debug_lock_map + 1)
        (all_running n.debug_lock_map) t h
        (record {
          distinct = put-Distinct text_discrete ops_id info v.lock_info i.distinct;
          counts =
              Counts-eq _ (waiting_in v + 1) (running_in v) _ _ (omega (arith, p))
                (omega (arith, q))
                (lock_waiting-Counts v.counters (waiting_in v) (running_in v) i.counts);
        })
        (lock_waiting-Counts n.counters _ _ t.counts) (omega (arith, p)) (omega (arith, q))

  init_lock_info-Tallied :
      (n : NsLockMap L) (param : NsParam)
      → Tallied n
      → get param_discrete param n.debug_lock_map ≡ none
      → Tallied (init_lock_info_for_volume_path n param)
  unfolding init_lock_info_for_volume_path total
  init_lock_info-Tallied n param t h = record {
    distinct = put-Distinct param_discrete param no_infos n.debug_lock_map t.distinct;
    each = put-each n.debug_lock_map param no_infos no_infos-IsTallied t.each;
    counts =
        Counts-eq _ _ _ _ _
          (omega (arith, total-put_new param_discrete waiting_in param no_infos n.debug_lock_map h))
          (omega (arith, total-put_new param_discrete running_in param no_infos n.debug_lock_map h))
          t.counts;
  }

  pub status_none_to_blocked-Tallied :
      (n : NsLockMap L) (param : NsParam) (lock_source ops_id : Text) (read_lock : Bool) (now : ℕ)
      → Tallied n
      → Fresh n param ops_id
      → Tallied (status_none_to_blocked n param lock_source ops_id read_lock now)
  unfolding status_none_to_blocked init_lock_info_for_volume_path get
  status_none_to_blocked-Tallied n param lock_source ops_id read_lock now t f =
      elim (Option-cases (get param_discrete param n.debug_lock_map)) [
        | inl e ↦
            rw (e, status_none_to_blocked)
              (mark_blocked-Tallied (init_lock_info_for_volume_path n param) param no_infos
                lock_source ops_id read_lock now (init_lock_info-Tallied n param t e)
                (get-put_self param_discrete param no_infos n.debug_lock_map) refl)
        | inr (v, e) ↦
            rw (e, status_none_to_blocked)
              (mark_blocked-Tallied n param v lock_source ops_id read_lock now t e (f v e))
      ]

  pub status_blocked_to_running-Tallied :
      (n : NsLockMap L) (param : NsParam) (lock_source ops_id : Text) (read_lock : Bool) (now : ℕ)
      → Tallied n
      → Tallied (status_blocked_to_running n param lock_source ops_id read_lock now).1
  unfolding status_blocked_to_running new_debug_lock_info
  status_blocked_to_running-Tallied n param lock_source ops_id read_lock now t =
      elim (Option-cases (get param_discrete param n.debug_lock_map)) [
        | inl e ↦ rw (e, status_blocked_to_running) t
        | inr (v, e) ↦ elim (Option-cases (get text_discrete ops_id v.lock_info)) [
          | inl e' ↦ rw (e, status_blocked_to_running, e') t
          | inr (info, e') ↦ elim (Bool-cases (same info.lock_source lock_source)) [
            | inr s ↦ rw (e, status_blocked_to_running, e', s) t
            | inl s ↦ elim (Bool-cases (is_running info.status)) [
              | inl r ↦ rw (e, status_blocked_to_running, e', s, r) t
              | inr r ↦
                  let new = new_debug_lock_info lock_source running_status read_lock now in
                  let i = t.each param v e in
                  let p = total-put_old text_discrete waits ops_id new info v.lock_info e' in
                  let q = total-put_old text_discrete runs ops_id new info v.lock_info e' in
                  let p' : waiting_in v ≡ waiting (put text_discrete ops_id new v.lock_info) + 1 =
                    ground (arith, p) in
                  let q' : running (put text_discrete ops_id new v.lock_info) ≡ running_in v + 1 =
                    ground (arith, q) in
                  rw (e, status_blocked_to_running, e', s, r)
                    (set_info-Tallied n param _ v _ (all_waiting n.debug_lock_map - 1)
                      (all_running n.debug_lock_map + 1) t e
                      (record {
                        distinct = put-Distinct text_discrete ops_id new v.lock_info i.distinct;
                        counts =
                            Counts-eq _ (waiting_in v - 1) (running_in v + 1) _ _
                              (omega (arith, p')) (omega (arith, q'))
                              (lock_granted-Counts v.counters (waiting_in v - 1) (running_in v)
                                (Counts-eq v.counters _ _ _ _ (omega (arith, p')) refl i.counts));
                      })
                      (lock_granted-Counts n.counters _ _ (
                        Counts-eq n.counters _ _ _ _
                          (omega (
                            arith,
                            p',
                            size-le-total param_discrete waiting_in param v n.debug_lock_map e,
                          ))
                          refl t.counts))
                      (omega (
                        arith,
                        p',
                        size-le-total param_discrete waiting_in param v n.debug_lock_map e,
                      ))
                      (omega (arith, q')))
            ]
          ]
        ]
      ]
