-- ===== src/NsLock/Stats.antt =====
-- The counters of cmd/lock-stat.go against the number of entries.
use minio.Base.{
  ℕ, ◌+◌, ◌%◌, ◌≡◌, true, false, List, [], ◌∷◌, arith, if◌then◌else◌, Bool-cases, inl, inr,
}
use minio.Base.Text.{Text, text_discrete}
use minio.Base.Assoc.{total}
use minio.NsLock.{
  i64_mod, LockStat, lock_waiting, lock_granted, lock_removed, is_running, DebugLockInfo,
  remove_all,
}

-- The counters stand for this many blocked and granted locks.
pub record Counts (ls : LockStat) (b g : ℕ) : Type 0 where
  pub blocked : ls.blocked ≡ b % i64_mod
  pub granted : ls.granted ≡ g % i64_mod
  pub all : ls.total ≡ (b + g) % i64_mod

module _ (ls : LockStat) (b g : ℕ) where
  pub Counts-eq : (b' g' : ℕ) → b' ≡ b → g' ≡ g → Counts ls b g → Counts ls b' g'
  Counts-eq b' g' p q c = record {
    blocked = ground arith;
    granted = ground arith;
    all = ground arith;
  }

  pub lock_waiting-Counts : Counts ls b g → Counts (lock_waiting ls) (b + 1) g
  unfolding lock_waiting
  lock_waiting-Counts c = record {
    blocked = omega (arith, c.blocked);
    granted = omega (arith, c.granted);
    all = omega (arith, c.all);
  }

  pub lock_granted-Counts : Counts ls (b + 1) g → Counts (lock_granted ls) b (g + 1)
  unfolding lock_granted
  lock_granted-Counts c = record {
    blocked = omega (arith, c.blocked);
    granted = omega (arith, c.granted);
    all = omega (arith, c.all);
  }

  pub lock_removed_running-Counts : Counts ls b (g + 1) → Counts (lock_removed ls true) b g
  unfolding lock_removed
  lock_removed_running-Counts c = record {
    blocked = omega (arith, c.blocked);
    granted = omega (arith, c.granted);
    all = omega (arith, c.all);
  }

  pub lock_removed_blocked-Counts : Counts ls (b + 1) g → Counts (lock_removed ls false) b g
  unfolding lock_removed
  lock_removed_blocked-Counts c = record {
    blocked = omega (arith, c.blocked);
    granted = omega (arith, c.granted);
    all = omega (arith, c.all);
  }

-- One for an operation that waits, and one for an operation that runs.
abbrev pub waits : DebugLockInfo → ℕ
waits info = if is_running info.status then 0 else 1

abbrev pub runs : DebugLockInfo → ℕ
runs info = if is_running info.status then 1 else 0

abbrev pub waiting : List (Text × DebugLockInfo) → ℕ
waiting infos = total text_discrete waits infos

abbrev pub running : List (Text × DebugLockInfo) → ℕ
running infos = total text_discrete runs infos

pub lock_removed-Counts :
    (ls : LockStat) (info : DebugLockInfo) (b g : ℕ)
    → Counts ls (b + waits info) (g + runs info)
    → Counts (lock_removed ls (is_running info.status)) b g
lock_removed-Counts ls info b g c = elim (Bool-cases (is_running info.status)) [
  | inl r ↦ rw (r) (
      lock_removed_running-Counts ls b g
        (Counts-eq ls _ _ b (g + 1) (ground arith) (ground arith) c))
  | inr r ↦ rw (r) (
      lock_removed_blocked-Counts ls b g
        (Counts-eq ls _ _ (b + 1) g (ground arith) (ground arith) c))
]

pub remove_all-Counts :
    (infos : List (Text × DebugLockInfo)) (ls : LockStat) (b g : ℕ)
    → Counts ls (b + waiting infos) (g + running infos)
    → Counts (remove_all ls infos) b g
unfolding remove_all total
remove_all-Counts [] ls b g c = Counts-eq ls _ _ b g (omega arith) (omega arith) c
remove_all-Counts ((ops_id, info) ∷ infos) ls b g c =
    remove_all-Counts infos (lock_removed ls (is_running info.status)) b g (
      lock_removed-Counts ls info (b + waiting infos) (g + running infos)
        (Counts-eq ls _ _ _ _ (omega arith) (omega arith) c))
