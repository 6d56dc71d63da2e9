-- ===== src/LockServer.antt =====
-- The distributed lock server: the RPC handlers of cmd/lock-rpc-server.go and the helpers of
-- cmd/lock-rpc-server-common.go. A handler runs under the server's mutex, so it is one step.
pub mod Exclusion
pub mod Handlers
pub mod Maintenance
use minio.Base.{
  ℕ, ◌-◌, Bool, true, false, not, ◌&&◌, List, [], ◌∷◌, ◌++◌, Option, none, some, ltb, leb, ◌==◌,
  if◌then◌else◌, length, ite, dec_le,
}
use minio.Base.Text.{Text, text_discrete}
use minio.Base.Assoc.{get, put, remove}

-- `lockRequesterInfo`. Times are numbers.
pub record LockRequesterInfo : Type 0 where
  pub writer : Bool
  pub node : Text
  pub rpc_path : Text
  pub uid : Text
  pub timestamp : ℕ
  pub time_last_check : ℕ

-- The fields of `dsync.LockArgs` that the handlers read.
pub record LockArgs : Type 0 where
  pub resource : Text
  pub uid : Text
  pub server_addr : Text
  pub service_endpoint : Text

abbrev pub Requesters : Type 0
Requesters = List LockRequesterInfo

abbrev pub LockMap : Type 0
LockMap = List (Text × Requesters)

-- The errors that a handler returns; `unauthenticated` is that of `args.IsAuthenticated`.
pub data LockError : Type 0 where
  unauthenticated unlocked_entity read_locked write_locked no_such_uid non_empty_uid : LockError

-- The lock map afterwards, and the reply or the error.
pub data Reply : Type 0 where
  reply : Bool → Reply
  error : LockError → Reply

-- `isWriteLock`.
unfoldable pub is_write_lock : Requesters → Bool
is_write_lock [] = false
is_write_lock (r ∷ []) = r.writer
is_write_lock (_ ∷ _ ∷ _) = false

-- The loop of `removeEntry`: the list without its first entry of that uid.
unfoldable pub without : Text → Requesters → Option Requesters
without uid [] = none
without uid (r ∷ lri) =
    ite (text_discrete r.uid uid) (some lri)
      (elim (without uid lri) [ none ↦ none | some rest ↦ some (r ∷ rest) ])

-- `removeEntry`: the map afterwards, and whether an entry was found.
unfoldable pub remove_entry : LockMap → Text → Text → Requesters → LockMap × Bool
unfolding without
remove_entry m name uid lri = elim (without uid lri) [
  | none ↦ (m, false)
  | some rest ↦
      (if length lri == 1 then remove text_discrete name m else put text_discrete name rest m, true)
]

-- The entry that `Lock` and `RLock` make at a time.
abbrev pub requester : Bool → LockArgs → ℕ → LockRequesterInfo
requester writer args now = record {
  writer = writer;
  node = args.server_addr;
  rpc_path = args.service_endpoint;
  uid = args.uid;
  timestamp = now;
  time_last_check = now;
}

-- The body of `Lock` behind the authentication.
unfoldable pub lock : LockMap → LockArgs → ℕ → LockMap × Reply
lock m args now = elim (get text_discrete args.resource m) [
  | none ↦ (put text_discrete args.resource (requester true args now ∷ []) m, reply true)
  | some _ ↦ (m, reply false)
]

unfoldable pub unlock : LockMap → LockArgs → LockMap × Reply
unlock m args = elim (get text_discrete args.resource m) [
  | none ↦ (m, error unlocked_entity)
  | some lri ↦
      if is_write_lock lri
      then (let (m', found) = remove_entry m args.resource args.uid lri in
          (m', if found then reply true else error no_such_uid))
      else (m, error read_locked)
]

unfoldable pub r_lock : LockMap → LockArgs → ℕ → LockMap × Reply
r_lock m args now = elim (get text_discrete args.resource m) [
  | none ↦ (put text_discrete args.resource (requester false args now ∷ []) m, reply true)
  | some lri ↦
      if is_write_lock lri
      then (m, reply false)
      else (put text_discrete args.resource (lri ++ requester false args now ∷ []) m, reply true)
]

unfoldable pub r_unlock : LockMap → LockArgs → LockMap × Reply
r_unlock m args = elim (get text_discrete args.resource m) [
  | none ↦ (m, error unlocked_entity)
  | some lri ↦
      if is_write_lock lri
      then (m, error write_locked)
      else (let (m', found) = remove_entry m args.resource args.uid lri in
          (m', if found then reply true else error no_such_uid))
]

abbrev pub is_empty : Text → Bool
is_empty [] = true
is_empty (_ ∷ _) = false

unfoldable pub force_unlock : LockMap → LockArgs → LockMap × Reply
force_unlock m args =
    if is_empty args.uid
    then (
      elim (get text_discrete args.resource m) [
        | none ↦ m
        | some _ ↦ remove text_discrete args.resource m
      ],
      reply true,
    )
    else (m, error non_empty_uid)

unfoldable pub holds_uid : Text → Requesters → Bool
holds_uid uid [] = false
holds_uid uid (r ∷ lri) = ite (text_discrete r.uid uid) true (holds_uid uid lri)

unfoldable pub expired : LockMap → LockArgs → LockMap × Reply
unfolding holds_uid
expired m args = elim (get text_discrete args.resource m) [
  | none ↦ (m, reply true)
  | some lri ↦ (m, reply (not (holds_uid args.uid lri)))
]

-- The RPCs, and the dispatch behind `args.IsAuthenticated`, whose verdict is an argument.
pub data Call : Type 0 where
  lock_call unlock_call r_lock_call r_unlock_call force_unlock_call expired_call : Call

unfoldable pub dispatch : Call → LockMap → LockArgs → ℕ → LockMap × Reply
unfolding lock unlock r_lock r_unlock force_unlock expired
dispatch lock_call m args now = lock m args now
dispatch unlock_call m args now = unlock m args
dispatch r_lock_call m args now = r_lock m args now
dispatch r_unlock_call m args now = r_unlock m args
dispatch force_unlock_call m args now = force_unlock m args
dispatch expired_call m args now = expired m args

unfoldable pub handle : Bool → Call → LockMap → LockArgs → ℕ → LockMap × Reply
handle authenticated call m args now =
    if authenticated then dispatch call m args now else (m, error unauthenticated)

-- `getLongLivedLocks`: the entries not checked for an interval, and the map with their check time
-- renewed. The inner loop is over the requesters of one name, the outer one over the names.
unfoldable pub check_requesters :
    Text → ℕ → ℕ → Requesters → Requesters × List (Text × LockRequesterInfo)
check_requesters name interval now [] = ([], [])
check_requesters name interval now (r ∷ lri) =
    let (lri', found) = check_requesters name interval now lri in
    if leb interval (now - r.time_last_check)
    then (record r { time_last_check = now } ∷ lri', (name, r) ∷ found)
    else (r ∷ lri', found)

unfoldable pub get_long_lived_locks : LockMap → ℕ → ℕ → LockMap × List (Text × LockRequesterInfo)
unfolding check_requesters
get_long_lived_locks [] interval now = ([], [])
get_long_lived_locks ((name, lri) ∷ m) interval now =
    let (lri', found) = check_requesters name interval now lri in
    let (m', rest) = get_long_lived_locks m interval now in ((name, lri') ∷ m', found ++ rest)

-- `removeEntryIfExists`.
unfoldable pub remove_entry_if_exists : LockMap → Text × LockRequesterInfo → LockMap
unfolding remove_entry
remove_entry_if_exists m (name, r) = elim (get text_discrete name m) [
  | none ↦ m
  | some lri ↦ (remove_entry m name r.uid lri).0
]

-- The second half of `lockMaintenance`, when no handler runs in between: `answer` is what the
-- originating server replies to `Expired`, where an error counts as false.
unfoldable pub purge :
    (Text × LockRequesterInfo → Bool) → List (Text × LockRequesterInfo) → LockMap → LockMap
unfolding remove_entry_if_exists
purge answer [] m = m
purge answer (nlrip ∷ rest) m =
    purge answer rest (if answer nlrip then remove_entry_if_exists m nlrip else m)

unfoldable pub lock_maintenance : (Text × LockRequesterInfo → Bool) → LockMap → ℕ → ℕ → LockMap
unfolding get_long_lived_locks purge
lock_maintenance answer m interval now =
    let (m', long_lived) = get_long_lived_locks m interval now in purge answer long_lived m'
