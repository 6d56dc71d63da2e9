-- ===== src/ObjCache.antt =====
-- pkg/objcache: the in-memory object cache (objcache.go) and the writer that fills an entry
-- (capped-writer.go).
pub mod Accounting
pub mod Contents
pub mod Expiry
use minio.Base.{
  ℕ, zero, suc, ◌+◌, ◌-◌, ◌*◌, ◌/◌, ◌%◌, ◌^◌, Bool, true, false, ◌&&◌, List, [], ◌∷◌, ◌++◌, Option,
  none, some, ltb, leb, ◌==◌, if◌then◌else◌, length, take, drop, replicate,
}
use minio.Base.Text.{Text, text_discrete}
use minio.Base.Assoc.{get, put, remove}
use minio.Base.Int.{ℤ, pos, negsuc}

-- uint64 wraps.
abbrev pub u64_mod : ℕ
u64_mod = 2 ^ 64

abbrev pub Bytes : Type 0
Bytes = List ℕ

pub record Buffer : Type 0 where
  pub value : Bytes
  pub last_accessed : ℕ

-- `Cache`, without its mutex and its callback. `lowered_gc` records that `onceGC` has run. Times
-- and durations are numbers; an expiry of 0 is `NoExpiry`.
pub record Cache : Type 0 where
  pub max_size : ℕ
  pub max_cache_entry_size : ℕ
  pub current_size : ℕ
  pub total_evicted : ℕ
  pub entries : List (Text × Buffer)
  pub expiry : ℕ
  pub lowered_gc : Bool

abbrev pub default_buffer_ratio : ℕ
default_buffer_ratio = 10

-- `New`; `none` is its panic.
unfoldable pub new : ℕ → ℕ → Option Cache
new max_size expiry =
    if max_size == 0
    then none
    else some (record {
      max_size = max_size;
      max_cache_entry_size =
          (if max_size / default_buffer_ratio == 0
            then max_size
            else max_size / default_buffer_ratio);
      current_size = 0;
      total_evicted = 0;
      entries = [];
      expiry = expiry;
      lowered_gc = false;
    })

-- `cappedWriter`.
pub record Writer : Type 0 where
  pub offset : ℕ
  pub cap : ℕ
  pub buffer : Bytes

pub data Written : Type 0 where
  wrote : ℕ → Writer → Written
  excess_data : Written
  out_of_range : Written

-- `cappedWriter.Write`. The slice of a buffer that `Reset` has dropped is out of range.
unfoldable pub write : Writer → Bytes → Written
write w b =
    if ltb w.cap (w.offset + length b)
    then excess_data
    else if ltb (length w.buffer) (w.offset + length b)
    then out_of_range
    else wrote (length b) (record w {
      offset = w.offset + length b;
      buffer = take w.offset w.buffer ++ (b ++ drop (w.offset + length b) w.buffer);
    })

pub reset : Writer → Writer
reset w = record w { buffer = [] }

-- `uint64(size)` of an int64.
abbrev pub to_u64 : ℤ → ℕ
to_u64 (pos n) = n
to_u64 (negsuc n) = u64_mod - suc n

-- `Create`: the cache afterwards, and the writer; `none` is `ErrCacheFull`. A negative size that
-- passes the guards makes `make` panic, which the deferred `recover` turns into `ErrCacheFull`.
unfoldable pub create : Cache → ℤ → Cache × Option Writer
create c size =
    let value_len = to_u64 size in
    if ltb c.max_cache_entry_size value_len
    then (c, none)
    else if ltb c.max_size ((c.current_size + value_len) % u64_mod)
    then (c, none)
    else (
      record c {
        lowered_gc =
            (if ltb (75 * c.max_size % u64_mod / 100) c.current_size then true else c.lowered_gc);
      },
      elim size [
        | pos n ↦ some (record { offset = 0; cap = n; buffer = replicate n 0 })
        | negsuc n ↦ none
      ],
    )

pub data Closed : Type 0 where
  saved : Cache → Closed
  short_buffer : Writer → Closed

-- The two assignments of `onClose` that save a full writer.
unfoldable pub store : Cache → Text → ℕ → Writer → ℕ → Cache
store c key size w now = record c {
  entries = put text_discrete key (record { value = w.buffer; last_accessed = now }) c.entries;
  current_size = (c.current_size + size) % u64_mod;
}

-- `onClose`, which `Close` runs: `size` is the size that `Create` was called with.
unfoldable pub close : Cache → Text → ℕ → Writer → ℕ → Closed
unfolding reset
close c key size w now =
    if size == w.offset then saved (store c key size w now) else short_buffer (reset w)

-- `delete`.
unfoldable pub delete : Cache → Text → Cache
delete c key = elim (get text_discrete key c.entries) [
  | none ↦ c
  | some b ↦ record c {
    entries = remove text_discrete key c.entries;
    current_size = (c.current_size + u64_mod - length b.value) % u64_mod;
    total_evicted = c.total_evicted + 1;
  }
]

-- `Delete`: the keys are those that `OnEviction` is called with.
unfoldable pub delete_key : Cache → Text → Cache × List Text
delete_key c key = (delete c key, key ∷ [])

-- `Open`; `none` is `ErrKeyNotFoundInCache`.
unfoldable pub open_key : Cache → Text → ℕ → ℕ → Cache × Option Bytes
unfolding delete
open_key c key mod_time now = elim (get text_discrete key c.entries) [
  | none ↦ (c, none)
  | some b ↦ if ltb b.last_accessed mod_time then (delete c key, none) else (
    record c { entries = put text_discrete key (record b { last_accessed = now }) c.entries },
    some b.value,
  )
]

-- The test of `gc` for one entry.
unfoldable pub is_expired : Cache → ℕ → Buffer → Bool
is_expired c now b = ltb 0 c.expiry && ltb c.expiry (now - b.last_accessed)

-- The loop of `gc` over the entries, which it also deletes from.
unfoldable pub gc_loop : List (Text × Buffer) → ℕ → Cache → List Text → Cache × List Text
gc_loop [] now c evicted = (c, evicted)
gc_loop ((k, b) ∷ rest) now c evicted =
    gc_loop rest now (if is_expired c now b then delete c k else c)
      (if is_expired c now b then evicted ++ k ∷ [] else evicted)

unfoldable pub gc : Cache → ℕ → Cache × List Text
unfolding gc_loop is_expired delete
gc c now = gc_loop c.entries now c []
