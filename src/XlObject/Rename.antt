-- ===== src/XlObject/Rename.antt =====
-- `rename` and `undoRename` of cmd/xl-v1-object.go: a rename on all disks, which is taken back where it
-- misses the write quorum.
pub mod Undone
use minio.Base.{
  ℕ, Bool, true, false, not, ◌==◌, List, [], ◌∷◌, Option, none, some, if◌then◌else◌, ite,
}
use minio.Base.Text.{Text}
use minio.Quorum.{Error, plain, traced, is_disk_quorum, reduce_quorum_errs}

-- A disk of state `S`: `RenameFile` from a volume and an entry to others gives the state afterwards, and
-- nil or an error; and the errors of the package and the order of a map.
pub record RenameLayer (S E : Type 0) : Type 0 where
  pub rename_file : Text → Text → Text → Text → S → S × Option E
  pub same_error : Discrete (Option E)
  pub shuffle : List (Option E × ℕ) → List (Option E × ℕ)
  pub err_disk_not_found : E
  pub err_file_not_found : E
  pub err_xl_write_quorum : E
  pub quorum_ignored_errs : List E
  pub object_op_ignored_errs : List E

-- `retainSlash`: one slash at the end is taken off, and one is put there.
unfoldable pub retain_slash : Text → Text
retain_slash [] = 47 ∷ []
retain_slash (x ∷ []) = if x == 47 then 47 ∷ [] else x ∷ 47 ∷ []
retain_slash (x ∷ y ∷ s) = x ∷ retain_slash (y ∷ s)

abbrev pub entry_of : Bool → Text → Text
entry_of is_dir entry = if is_dir then retain_slash entry else entry

module _ {S E : Type 0} (layer : RenameLayer S E) where
  -- The goroutines of `rename`, each for its own disk: the disks and their errors.
  unfoldable pub rename_disks :
      Text → Text → Text → Text → List (Option S) → List (Option S) × List (Option (Error E))
  rename_disks src_bucket src_entry dst_bucket dst_entry [] = ([], [])
  rename_disks src_bucket src_entry dst_bucket dst_entry (none ∷ disks) =
      let rest = rename_disks src_bucket src_entry dst_bucket dst_entry disks in
      (none ∷ rest.0, some (plain layer.err_disk_not_found) ∷ rest.1)
  rename_disks src_bucket src_entry dst_bucket dst_entry (some disk ∷ disks) =
      let rest = rename_disks src_bucket src_entry dst_bucket dst_entry disks in
      let r = layer.rename_file src_bucket src_entry dst_bucket dst_entry disk in
      (
        some r.0 ∷ rest.0,
        elim r.1 [
          | none ↦ none
          | some err ↦
              ite (layer.same_error (some err) (some layer.err_file_not_found)) none
                (some (traced err))
        ]
            ∷ rest.1,
      )

  -- The goroutines of `undoRename`, which rename back where there was no error.
  unfoldable pub undo_disks :
      Text → Text → Text → Text → List (Option S) → List (Option (Error E)) → List (Option S)
  undo_disks src_bucket src_entry dst_bucket dst_entry (some disk ∷ disks) (none ∷ errs) =
      some (layer.rename_file dst_bucket dst_entry src_bucket src_entry disk).0
      ∷ undo_disks src_bucket src_entry dst_bucket dst_entry disks errs
  undo_disks src_bucket src_entry dst_bucket dst_entry (disk ∷ disks) (err ∷ errs) =
      disk ∷ undo_disks src_bucket src_entry dst_bucket dst_entry disks errs
  undo_disks src_bucket src_entry dst_bucket dst_entry disks errs = disks

  unfoldable pub undo_rename :
      List (Option S) → Text → Text → Text → Text → Bool → List (Option (Error E)) → List (Option S)
  undo_rename disks src_bucket src_entry dst_bucket dst_entry is_dir errs =
      undo_disks src_bucket (entry_of is_dir src_entry) dst_bucket (entry_of is_dir dst_entry) disks
        errs

  -- `rename`: the disks, and nil or the error.
  unfoldable pub rename :
      List (Option S) → Text → Text → Text → Text → Bool → ℕ → List (Option S) × Option (Error E)
  rename disks src_bucket src_entry dst_bucket dst_entry is_dir quorum =
      let src = entry_of is_dir src_entry in
      let dst = entry_of is_dir dst_entry in
      let r = rename_disks src_bucket src dst_bucket dst disks in
      if not (is_disk_quorum layer.same_error r.1 layer.quorum_ignored_errs quorum)
      then (
        undo_rename r.0 src_bucket src dst_bucket dst is_dir r.1,
        some (traced layer.err_xl_write_quorum),
      )
      else (
        r.0,
        reduce_quorum_errs layer.same_error layer.shuffle r.1 layer.object_op_ignored_errs quorum
            layer.err_xl_write_quorum,
      )

  unfoldable pub rename_part :
      List (Option S) → Text → Text → Text → Text → ℕ → List (Option S) × Option (Error E)
  rename_part disks src_bucket src_part dst_bucket dst_part quorum =
      rename disks src_bucket src_part dst_bucket dst_part false quorum

  unfoldable pub rename_object :
      List (Option S) → Text → Text → Text → Text → ℕ → List (Option S) × Option (Error E)
  rename_object disks src_bucket src_object dst_bucket dst_object quorum =
      rename disks src_bucket src_object dst_bucket dst_object true quorum
