-- ===== src/Bulk/Apply.antt =====
-- bulk/backend.go: `validateBatch`, `readApplyProgress`, `apply` and the decisions of `CommitReady`. The file system
-- (package os, the stores of extended attributes, the syncs of files and directories) is a parameter.
pub mod Loop
pub mod Valid
pub mod Resume
mod Runs
use go_smb.Common.{
  ℕ, zero, suc, ◌+◌, Bool, true, false, not, ◌&&◌, ◌||◌, Option, none, some, List, [], ◌∷◌, length,
  drop, ◌==◌, ◌!=◌, ltb, leb, if◌then◌else◌,
}
use go_smb.Common.Texts.{Text, equal_bytes}
use go_smb.Bulk.{Operation, Batch}
use go_smb.Bulk.WriteRun.{Disk, Paths, resolve, apply_write_run}

abbrev pub write_type : Text
write_type = b'w' ∷ b'r' ∷ b'i' ∷ b't' ∷ b'e' ∷ []

abbrev pub create_type : Text
create_type = b'c' ∷ b'r' ∷ b'e' ∷ b'a' ∷ b't' ∷ b'e' ∷ []

abbrev pub mkdir_type : Text
mkdir_type = b'm' ∷ b'k' ∷ b'd' ∷ b'i' ∷ b'r' ∷ []

abbrev pub truncate_type : Text
truncate_type = b't' ∷ b'r' ∷ b'u' ∷ b'n' ∷ b'c' ∷ b'a' ∷ b't' ∷ b'e' ∷ []

abbrev pub setattr_type : Text
setattr_type = b's' ∷ b'e' ∷ b't' ∷ b'a' ∷ b't' ∷ b't' ∷ b'r' ∷ []

abbrev pub rename_type : Text
rename_type = b'r' ∷ b'e' ∷ b'n' ∷ b'a' ∷ b'm' ∷ b'e' ∷ []

abbrev pub remove_type : Text
remove_type = b'r' ∷ b'e' ∷ b'm' ∷ b'o' ∷ b'v' ∷ b'e' ∷ []

abbrev pub symlink_type : Text
symlink_type = b's' ∷ b'y' ∷ b'm' ∷ b'l' ∷ b'i' ∷ b'n' ∷ b'k' ∷ []

abbrev pub setxattr_type : Text
setxattr_type = b's' ∷ b'e' ∷ b't' ∷ b'x' ∷ b'a' ∷ b't' ∷ b't' ∷ b'r' ∷ []

abbrev pub removexattr_type : Text
removexattr_type = b'r' ∷ b'e' ∷ b'm' ∷ b'o' ∷ b'v' ∷ b'e' ∷ b'x' ∷ b'a' ∷ b't' ∷ b't' ∷ b'r' ∷ []

-- The loop of `validateBatch`; no operation is before the first.
abbrev pub in_order : Batch → Option ℕ → List Operation → Bool
in_order batch previous [] = true
in_order batch previous (op ∷ ops) =
    let rest = in_order batch (some op.seq) ops in
    let early : Bool = elim previous [ none ↦ false | some n ↦ ltb op.seq n ] in
    if ltb op.seq batch.first_seq || (ltb batch.last_seq op.seq || early)
    then false
    else if equal_bytes op.type write_type && length op.content != op.length
    then false
    else rest

unfoldable pub validate_batch : Batch → Bool
validate_batch batch =
    if length batch.relay_id == 0 || (length batch.batch_id == 0 || length batch.operations == 0)
    then false
    else if batch.first_seq == 0 || ltb batch.last_seq batch.first_seq
    then false
    else in_order batch none batch.operations

-- `applyProgress`.
pub record ApplyProgress : Type 0 where
  pub version : ℕ
  pub relay_id : Text
  pub batch_id : Text
  pub hash : Text
  pub next_operation : ℕ

-- `readApplyProgress` of a file that is read and decoded, or is not there; `none` for its error.
unfoldable pub read_apply_progress : Option ApplyProgress → Batch → Text → Option ℕ
read_apply_progress none batch hash = some 0
read_apply_progress (some p) batch hash =
    if p.version != 1
      || (not (equal_bytes p.relay_id batch.relay_id)
          || (not (equal_bytes p.batch_id batch.batch_id)
              || (not (equal_bytes p.hash hash) || ltb (length batch.operations) p.next_operation)))
    then none
    else some p.next_operation

pub data Error : Type 0 where
  exist not_exist no_attr other_error : Error

pub data Kind : Type 0 where
  regular symbolic_link directory other_kind : Kind

-- The calls that `apply` makes: what they make of the disk, and their error. `sync_new` is `f.Sync` and `f.Close` of a
-- file that was created, and `sync_directory` that of the directory of a path.
pub record Fs (D : Type 0) : Type 0 where
  pub disk : Disk D
  pub lstat : Text → D → Option Kind
  pub lstat_missing : Text → D → Bool
  pub stat : Text → D → Option Kind
  pub create_exclusive : Text → ℕ → D → D × Option Error
  pub sync_new : Text → D → D × Option Error
  pub sync_directory : Text → D → D × Option Error
  pub same_directory : Text → Text → Bool
  pub sync_file : Text → D → D × Option Error
  pub mkdir : Text → ℕ → D → D × Option Error
  pub truncate : Text → ℕ → D → D × Option Error
  pub chmod : Text → ℕ → D → D × Option Error
  pub chtimes : Text → ℕ → ℕ → D → D × Option Error
  pub rename : Text → Text → D → D × Option Error
  pub remove : Text → D → D × Option Error
  pub symlink : Text → Text → D → D × Option Error
  pub set_xattr : Text → Text → List ℕ → D → D × Option Error
  pub remove_xattr : Text → Text → D → D × Option Error

abbrev pub later_symlink_replaces : List Operation → Text → Bool
later_symlink_replaces [] name = false
later_symlink_replaces (op ∷ ops) name =
    if equal_bytes op.path name
    then equal_bytes op.type symlink_type
    else later_symlink_replaces ops name

abbrev pub is_symlink : Option Kind → Bool
is_symlink (some symbolic_link) = true
is_symlink _ = false

abbrev pub is_regular : Option Kind → Bool
is_regular (some regular) = true
is_regular _ = false

abbrev pub is_directory : Option Kind → Bool
is_directory (some directory) = true
is_directory _ = false

abbrev pub is_known : Option Kind → Bool
is_known none = false
is_known (some k) = true
