-- ===== src/XlObject/Rename/Undone.antt =====
-- What `rename` of cmd/xl-v1-object.go leaves on the disks.
use minio.Base.{ℕ, ◌+◌, ◌≡◌, List, [], ◌∷◌, Option, none, some, ite}
use minio.Base.Text.{Text}
use minio.Quorum.{errors_cause}
use minio.Quorum.Majority.{voters}
use minio.XlObject.Rename.{RenameLayer, rename_disks}

module _ {S E : Type 0} (layer : RenameLayer S E)
    (atomic : (a b c d : Text) (s : S) (e : E)
      → (layer.rename_file a b c d s).1 ≡ some e
      → (layer.rename_file a b c d s).0 ≡ s)
    (reversible : (a b c d : Text) (s : S)
      → (layer.rename_file c d a b s).1 ≡ some layer.err_file_not_found
      → (layer.rename_file a b c d s).1 ≡ none
      → (layer.rename_file c d a b (layer.rename_file a b c d s).0).0 ≡ s)
    (src_bucket src dst_bucket dst : Text) where
  -- There is nothing on a disk at the destination.
  abbrev pub IsFree : Option S → Type 0
  IsFree none = Unit
  IsFree (some s) =
      (layer.rename_file dst_bucket dst src_bucket src s).1 ≡ some layer.err_file_not_found

module _ {S E : Type 0} (layer : RenameLayer S E) where
  abbrev pub renamed : Text → Text → Text → Text → Option S → Option S
  renamed src_bucket src dst_bucket dst none = none
  renamed src_bucket src dst_bucket dst (some s) =
      some (layer.rename_file src_bucket src dst_bucket dst s).0

  -- How many of the errors of a rename count for the quorum.
  abbrev pub supporters : Text → Text → Text → Text → List (Option S) → ℕ
  supporters src_bucket src dst_bucket dst disks =
      voters layer.same_error
        (errors_cause (rename_disks layer src_bucket src dst_bucket dst disks).1)
        layer.quorum_ignored_errs

  -- On how many disks RenameFile returns nil or finds no file.
  abbrev pub settled : Text → Text → Text → Text → List (Option S) → ℕ
  settled src_bucket src dst_bucket dst [] = 0
  settled src_bucket src dst_bucket dst (none ∷ disks) = settled src_bucket src dst_bucket dst disks
  settled src_bucket src dst_bucket dst (some s ∷ disks) =
      (elim (layer.rename_file src_bucket src dst_bucket dst s).1 [
        | none ↦ 1
        | some err ↦ ite (layer.same_error (some err) (some layer.err_file_not_found)) 1 0
      ])
      + settled src_bucket src dst_bucket dst disks
