-- ===== src/Lib.antt =====
-- Minio, the object storage server: a verification library of its core logic.
--
-- The program serves buckets and objects over HTTP. A request passes the handlers of cmd/, which
-- check its signature, the bucket policy, its preconditions and its byte range, takes a lock on the
-- name of the object, and reads or writes the object through a layer that spreads erasure-coded
-- blocks over several disks and decides by a quorum over their errors. This library models the
-- parts below; a module bears the name of its part, its children hold the proofs, and the module of
-- the same name under Tests holds the runs on concrete inputs.
--
-- Base             shared names; Tests, Lists, Text, Assoc and Int have the Boolean tests, the lists
--                  over the native numbers, texts as lists of codes, Go maps as association lists,
--                  and signed integers.
-- LockServer       cmd/lock-rpc-server.go, cmd/lock-rpc-server-common.go: the lock map of the RPC
--                  lock server. lock, unlock, r_lock, r_unlock, force_unlock and expired are the
--                  handlers Lock to Expired as steps under the mutex of the server; remove_entry,
--                  get_long_lived_locks, remove_entry_if_exists and lock_maintenance are the
--                  functions of the same names. Exclusion, Handlers and Maintenance have the proofs.
-- NsLock           cmd/namespace-lock.go, cmd/lock-instrument.go, cmd/lock-stat.go: the map of
--                  namespace locks. A call of lock is three steps, lock_begin, lock_acquire and
--                  status_blocked_to_running, since other callers run where it blocks. A pointer to a
--                  lock is an index, since ForceUnlock takes a lock out of the map that callers still
--                  wait for. Counters are int64 bit patterns modulo 2^64. The lock itself,
--                  sync.RWMutex or the one of dsync, is the interface RwLocker. Status has
--                  cmd/lock-instrument.go, Locks the calls; Stats, Tallies, Removals, Keys, Steps and
--                  Runs have the proofs.
-- Quorum           cmd/xl-v1-utils.go, cmd/errors.go: reduceErrs, reduceQuorumErrs, isDiskQuorum.
--                  The order in which Go walks a map is a parameter, shuffle, of which it is assumed
--                  that it keeps the entries.
-- Erasure          cmd/erasure-utils.go, cmd/erasure-readfile.go, cmd/xl-v1-common.go: chunk sizes,
--                  the bytes of a range out of decoded blocks, the disks to read from. io.Copy is a
--                  parameter. Read has erasureReadFile: Storage is a disk with the file, its hash and
--                  the buffers of the pool, Coder the calls of reedsolomon, of which Codes states
--                  what is relied on. Offsets and lengths are below 2^62, so that their sum does not
--                  wrap. The rounds for a block have fuel for one more than there are disks, since
--                  every round moves on by a disk at least. Lists, Picks, Chunks, Slices, Steady, Decoding,
--                  Amounts, Range and Whole have the proofs. Create has erasureCreateFile and
--                  appendFile of cmd/erasure-createfile.go over the files of the disks; its fuel is a
--                  round for each byte of the stream and one more. Create/Hashes and Create/Stored have
--                  the proofs. Heal has erasureHealFile of cmd/erasure-healfile.go, with fuel for a
--                  round for each byte and one more; a disk without the file is told from one where it
--                  is empty. Shards says what a stream is on the disks, and
--                  RoundTrip puts writing, reading and healing together.
-- XlObject         cmd/xl-v1-object.go: GetObject from the metadata of all disks on, without the object
--                  cache. choose_meta picks metadata and disks with Quorum, XlHealing, XlMeta and
--                  Distribution; read_parts is the loop over the parts, which calls Erasure.Read.
--                  Parts, OnePart, Range and Whole have the proofs. Rename has rename and undoRename over
--                  disks of any state with RenameFile; Rename/Undone has the proofs.
-- StreamingSignature  cmd/streaming-signature-v4.go, cmd/signature-v4.go: s3ChunkedReader as a state
--                  machine. A body is the bytes to come with the sizes in which they arrive; HMAC,
--                  SHA-256, the date and the credentials are the record Signing. Read has fuel for
--                  twice the bytes and the arrivals that are left, since every round but the
--                  verification takes one of them. Lines has what is read of a body, Signatures the
--                  signature of a chunk; HexUint, Reader, Extension, Chunks, Headers, Rounds and
--                  Verified have the proofs.
-- XlMeta           cmd/xl-v1-metadata.go, cmd/xl-v1-utils.go: the metadata of an object with its
--                  parts and checksums, and hashOrder over a CRC-32 that is a parameter. sort.Sort by
--                  part number is an insertion sort; among distinct numbers the result is the same.
--                  Part numbers, sizes, offsets and the number of disks are not negative, and the
--                  last is below 2^32.
-- Distribution     cmd/xl-v1-utils.go: getOrderedDisks and getOrderedPartsMetadata, of which the loop is
--                  place. Places and HashOrder have the proofs.
-- XlHealing        cmd/xl-v1-healing-common.go: the common modification time of the copies of an object,
--                  the disks that are online or outdated, and what is to be healed. Times are
--                  nanoseconds from 1 January of the year 1, of which == compares no location; the order
--                  of the map of times is a parameter, of which it is assumed that it keeps the entries. CommonTime and
--                  Outdated have the proofs.
-- BucketPolicy     cmd/bucket-policy-parser.go, cmd/bucket-policy-handlers.go: the validation of a
--                  decoded policy and its evaluation. The string sets of minio-go are the interface
--                  SetOperations, of which CreateStringSet and Contains are assumed to agree; JSON
--                  decoding is an argument. Parser has the validation, Matching the evaluation, which
--                  calls Wildcard, and Evaluation the proofs. Nesting has checkBucketPolicyResources;
--                  Sorted, Checked, Paths, Gathered, Pairs and Accepted below it have the proofs.
-- Preconditions    cmd/object-handlers-common.go: the conditional headers. Times are nanoseconds from
--                  1 January of the year 1; parsing and formatting HTTP times are parameters.
-- HttpRange        cmd/httprange.go: the Range header, over bytes. The -1 of a missing position is
--                  none; a range may end at -1, which an empty resource makes possible. Header says what a
--                  header is, Selection what it selects.
-- ObjCache         pkg/objcache/objcache.go, pkg/objcache/capped-writer.go: the in-memory cache.
--                  uint64 sums wrap at 2^64.
-- Wildcard         pkg/wildcard/match.go: Match, MatchSimple and deepMatchRune over runes, with the
--                  run-time panic as an outcome.
-- BytePool         pkg/bpool/bpool.go: the pool of byte slices; a slice is the index of its slot.
--
-- All other loops are structural recursion on the list that they walk, so that no fuel is needed and
-- every function is total; panics and errors are values.
--
-- Not modelled: the rest of the object layers (cmd/xl-v1-object.go but GetObject and rename,
-- cmd/fs-v1.go), multipart uploads, the healing of whole objects, listing, the signatures of
-- requests, events, configuration and the HTTP glue, which call the parts above or the system;
-- goroutines and timers that call the modelled steps; and the vendored libraries.
pub mod Base
pub mod Wildcard
pub mod ObjCache
mod Tests
pub mod LockServer
pub mod Erasure
pub mod Quorum
pub mod NsLock
pub mod XlMeta
pub mod Preconditions
pub mod HttpRange
pub mod BucketPolicy
pub mod BytePool
pub mod StreamingSignature
pub mod XlHealing
pub mod XlObject
pub mod Distribution
