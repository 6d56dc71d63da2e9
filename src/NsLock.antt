-- ===== src/NsLock.antt =====
-- cmd/namespace-lock.go with its instrumentation, cmd/lock-instrument.go and cmd/lock-stat.go: the
-- map of namespace locks, the lock counters and the state of every lock operation.
pub mod Status
pub mod Locks
pub mod Stats
pub mod Tallies
pub mod Removals
pub mod Keys
pub mod Steps
pub mod Runs
use minio.Base.{
  ℕ, zero, suc, ◌+◌, ◌-◌, ◌%◌, ◌^◌, ◌≡◌, ite, Bool, true, false, not, List, [], ◌∷◌, ◌++◌, Option,
  none, some, ◌==◌, if◌then◌else◌, length, get_elem?, set,
}
use minio.Base.Text.{Text, text_discrete, same}
use minio.Base.Assoc.{get, put, remove}

-- int64 as its bit pattern.
abbrev pub i64_mod : ℕ
i64_mod = 2 ^ 64

abbrev pub inc : ℕ → ℕ
inc n = (n + 1) % i64_mod

abbrev pub dec : ℕ → ℕ
dec n = (n + (i64_mod - 1)) % i64_mod

pub record LockStat : Type 0 where
  pub total : ℕ
  pub blocked : ℕ
  pub granted : ℕ

abbrev pub no_locks : LockStat
no_locks = record { total = 0; blocked = 0; granted = 0 }

unfoldable pub lock_waiting : LockStat → LockStat
lock_waiting ls = record ls { blocked = inc ls.blocked; total = inc ls.total }

unfoldable pub lock_granted : LockStat → LockStat
lock_granted ls = record ls { blocked = dec ls.blocked; granted = inc ls.granted }

unfoldable pub lock_removed : LockStat → Bool → LockStat
lock_removed ls granted =
    if granted
    then record ls { granted = dec ls.granted; total = dec ls.total }
    else record ls { blocked = dec ls.blocked; total = dec ls.total }

pub data StatusType : Type 0 where
  running_status : StatusType
  blocked_status : StatusType

abbrev pub is_running : StatusType → Bool
is_running running_status = true
is_running blocked_status = false

pub data LockType : Type 0 where
  debug_r_lock : LockType
  debug_w_lock : LockType

pub record DebugLockInfo : Type 0 where
  pub l_type : LockType
  pub lock_source : Text
  pub status : StatusType
  pub since : ℕ

unfoldable pub new_debug_lock_info : Text → StatusType → Bool → ℕ → DebugLockInfo
new_debug_lock_info lock_source status read_lock now = record {
  l_type = (if read_lock then debug_r_lock else debug_w_lock);
  lock_source = lock_source;
  status = status;
  since = now;
}

pub record DebugLockInfoPerVolumePath : Type 0 where
  pub counters : LockStat
  pub lock_info : List (Text × DebugLockInfo)

-- The loop that takes every entry out of the global counters.
unfoldable pub remove_all : LockStat → List (Text × DebugLockInfo) → LockStat
remove_all ls [] = ls
remove_all ls ((ops_id, info) ∷ infos) = remove_all (lock_removed ls (is_running info.status)) infos

-- The volume and the path.
abbrev pub NsParam : Type 0
NsParam = Text × Text

unfoldable pub param_discrete : Discrete NsParam
unfolding text_discrete
param_discrete = hlevel text_discrete

pub data LockInfoError : Type 0 where
  origin_mismatch : NsParam → Text → Text → LockInfoError
  vol_path_missing : NsParam → LockInfoError
  ops_id_not_found : NsParam → Text → LockInfoError
  state_not_blocked : NsParam → Text → LockInfoError

-- What `RWLocker` stands for: a `sync.RWMutex` or, in a distributed setup, a lock of dsync. A
-- call that would block now is `none`, and so is an unlock that panics.
pub record RwLocker (L : Type 0) : Type 0 where
  pub fresh : Bool → NsParam → L
  pub lock : L → Option L
  pub unlock : L → Option L
  pub r_lock : L → Option L
  pub r_unlock : L → Option L

pub record NsLock (L : Type 0) : Type 0 where
  pub locker : L
  -- A `uint` in the source; fewer callers than its bound are assumed.
  pub ref : ℕ

-- `nsLockMap`. A pointer to an `nsLock` is an index into `locks`, since a caller that waits keeps
-- its pointer when `ForceUnlock` takes the lock out of the map. `broadcasts` are the names that
-- `ForceUnlock` has sent to dsync.
pub record NsLockMap (L : Type 0) : Type 0 where
  pub counters : LockStat
  pub debug_lock_map : List (NsParam × DebugLockInfoPerVolumePath)
  pub is_dist_xl : Bool
  pub lock_map : List (NsParam × ℕ)
  pub locks : List (NsLock L)
  pub broadcasts : List NsParam

-- The steps of the program: a call of `lock` is three steps, and others may come in between.
pub data Event : Type 0 where
  begin : NsParam → Text → Text → Bool → ℕ → Event
  acquire : ℕ → Bool → Event
  granted : NsParam → Text → Text → Bool → ℕ → Event
  released : NsParam → Text → Bool → Event
  forced : NsParam → Event
