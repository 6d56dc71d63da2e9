-- ===== src/Erasure/Create.antt =====
-- cmd/erasure-createfile.go: a stream is split into blocks, which are encoded and appended to the files
-- of all disks.
pub mod Hashes
pub mod Stored
use minio.Base.{
  ℕ, zero, suc, ◌+◌, Bool, true, false, not, ◌&&◌, List, [], ◌∷◌, ◌++◌, Option, none, some, ltb,
  ◌==◌, if◌then◌else◌, length, take, drop, replicate, map,
}
use minio.Base.Text.{Text}
use minio.Quorum.{Error, traced, is_disk_quorum, reduce_quorum_errs}
use minio.Erasure.{Bytes}

-- How the stream ends: `io.EOF`, `io.ErrUnexpectedEOF`, or another error.
pub data Ending : Type 0 where
  at_eof at_unexpected_eof broken : Ending

abbrev pub is_broken : Ending → Bool
is_broken broken = true
is_broken _ = false

pub data CreateError (E : Type 0) : Type 0 where
  reader_failed encode_failed : CreateError E
  append_failed : Error E → CreateError E

-- The file of every disk, none where the disk is nil, with the bytes that its hash was given.
abbrev pub Files : Type 0
Files = List (Option Bytes)

pub record Created (E : Type 0) : Type 0 where
  pub files : Files
  pub hashed : List Bytes
  pub bytes_written : ℕ
  pub error : Option (CreateError E)

-- What the code calls: `AppendFile` on a disk, which fails with an error and leaves some bytes, or
-- appends; reedsolomon with the numbers of blocks of the call, whether `New` takes them and what `Split`
-- and `Encode` return, none where they fail; the order of a map; and the errors of the package.
pub record Environment (E : Type 0) : Type 0 where
  pub append_fails : ℕ → Bytes → Bytes → Option (E × Bytes)
  pub new_ok : Bool
  pub split : Bytes → Option (List Bytes)
  pub encode : List Bytes → Option (List Bytes)
  pub same_error : Discrete (Option E)
  pub shuffle : List (Option E × ℕ) → List (Option E × ℕ)
  pub quorum_ignored_errs : List E
  pub object_op_ignored_errs : List E
  pub err_xl_write_quorum : E

module _ {E : Type 0} (env : Environment E) where
  -- `encodeData`; `none` is an error.
  unfoldable pub encode_data : Bytes → Option (List Bytes)
  encode_data data_buffer =
      if not env.new_ok
      then none
      else elim (env.split data_buffer) [ none ↦ none | some blocks ↦ env.encode blocks ]

  -- The goroutines of `appendFile`, each at its own index: the files, the hashes and the errors. A
  -- disk that is nil has no error.
  unfoldable pub append_all :
      ℕ → Files → List Bytes → List Bytes → Files × List Bytes × List (Option (Error E))
  append_all index (none ∷ files) (h ∷ hashed) (b ∷ blocks) =
      let rest = append_all (suc index) files hashed blocks in
      (none ∷ rest.0, h ∷ rest.1, none ∷ rest.2)
  append_all index (some f ∷ files) (h ∷ hashed) (b ∷ blocks) =
      let rest = append_all (suc index) files hashed blocks in
      elim (env.append_fails index f b) [
        | some (e, f') ↦ (some f' ∷ rest.0, h ∷ rest.1, some (traced e) ∷ rest.2)
        | none ↦ (some (f ++ b) ∷ rest.0, (h ++ b) ∷ rest.1, none ∷ rest.2)
      ]
  append_all index files hashed blocks = (files, hashed, [])

  -- `appendFile`: the files, the hashes, and the error.
  unfoldable pub append_file :
      Files → List Bytes → List Bytes → ℕ → Files × List Bytes × Option (Error E)
  append_file files hashed blocks write_quorum =
      let r = append_all 0 files hashed blocks in
      (
        r.0,
        r.1,
        if not (is_disk_quorum env.same_error r.2 env.quorum_ignored_errs write_quorum)
            then some (traced env.err_xl_write_quorum)
            else reduce_quorum_errs env.same_error env.shuffle r.2 env.object_op_ignored_errs
                write_quorum env.err_xl_write_quorum,
      )

  abbrev pub stop : Files → List Bytes → CreateError E → Created E
  stop files hashed e = record { files = files; hashed = hashed; bytes_written = 0; error = some e }

  abbrev pub finish : Files → List Bytes → ℕ → Created E
  finish files hashed n = record { files = files; hashed = hashed; bytes_written = n; error = none }

  -- The end of the stream: an empty file is created where nothing was written before.
  unfoldable pub at_end : Ending → Files → List Bytes → ℕ → ℕ → Created E
  at_end at_eof files hashed bytes_written write_quorum =
      let r = append_file files hashed (replicate (length files) []) write_quorum in
      if bytes_written == 0
      then elim r.2 [
        | some e ↦ stop r.0 r.1 (append_failed e)
        | none ↦ finish r.0 r.1 bytes_written
      ]
      else finish files hashed bytes_written
  at_end e files hashed bytes_written write_quorum = stop files hashed reader_failed

  -- The loop of `erasureCreateFile`; `none` is out of fuel.
  unfoldable pub create_blocks :
      ℕ → Bytes → Ending → ℕ → Files → List Bytes → ℕ → ℕ → Option (Created E)
  create_blocks zero stream ending block_size files hashed bytes_written write_quorum = none
  create_blocks (suc fuel) [] ending block_size files hashed bytes_written write_quorum =
      some (at_end ending files hashed bytes_written write_quorum)
  create_blocks (suc fuel) (x ∷ s) ending block_size files hashed bytes_written write_quorum =
      let stream = x ∷ s in
      if ltb (length stream) block_size && is_broken ending
      then some (stop files hashed reader_failed)
      else elim (encode_data (take block_size stream)) [
        | none ↦ some (stop files hashed encode_failed)
        | some blocks ↦
            let r = append_file files hashed blocks write_quorum in
            elim r.2 [
              | some e ↦ some (stop r.0 r.1 (append_failed e))
              | none ↦
                  create_blocks fuel (drop block_size stream) ending block_size r.0 r.1
                    (bytes_written + length (take block_size stream)) write_quorum
            ]
      ]

  -- `erasureCreateFile` on files with some contents. Every round but the last one takes a byte from
  -- the stream, so that this fuel is enough.
  unfoldable pub erasure_create_file : Files → Bytes → Ending → ℕ → ℕ → Option (Created E)
  erasure_create_file files stream ending block_size write_quorum =
      create_blocks (suc (length stream)) stream ending block_size files
        (replicate (length files) []) 0 write_quorum

-- The checksums that are returned, of which the hash and its hexadecimal form are one function.
abbrev pub check_sums : {E : Type 0} → (Bytes → Text) → Created E → List Text
check_sums sum c = map sum c.hashed
