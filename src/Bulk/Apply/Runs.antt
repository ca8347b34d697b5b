-- ===== src/Bulk/Apply/Runs.antt =====
-- A batch of a directory and a write, on a disk that counts the calls.
use go_smb.Common.{
  ℕ, ◌+◌, ◌≡◌, ◌⊎◌, ◌↔◌, refl, true, false, Option, none, some, List, [], ◌∷◌, ◌++◌, arith,
}
use go_smb.Common.Texts.{Text}
use go_smb.Bulk.{Operation, Batch}
use go_smb.Bulk.WriteRun.{Disk, Paths}
use go_smb.Bulk.Apply.{Fs, Error, Kind, regular, mkdir_type, write_type, validate_batch}
use go_smb.Bulk.Apply.Loop.{apply, applied, apply_failed}
use go_smb.Bulk.Apply.Valid.{IsValid, validate_batch_iff}
use go_smb.Bulk.Apply.Resume.{apply-ends}

abbrev counted : ℕ → ℕ × Option Error
counted d = (d + 1, none)

abbrev counting_fs : Fs ℕ
counting_fs = record {
  disk = record {
    opens = λ p d. true;
    writes = λ p o bs d. true;
    write_at = λ p o bs d. d + 1;
    syncs = λ p d. true;
  };
  lstat = λ p d. some regular;
  lstat_missing = λ p d. false;
  stat = λ p d. some regular;
  create_exclusive = λ p mode d. counted d;
  sync_new = λ p d. counted d;
  sync_directory = λ p d. counted d;
  same_directory = λ p q. true;
  sync_file = λ p d. counted d;
  mkdir = λ p mode d. counted d;
  truncate = λ p n d. counted d;
  chmod = λ p mode d. counted d;
  chtimes = λ p a m d. counted d;
  rename = λ p q d. counted d;
  remove = λ p d. counted d;
  symlink = λ t p d. counted d;
  set_xattr = λ p n bs d. counted d;
  remove_xattr = λ p n d. counted d;
}

abbrev joined_paths : Paths
joined_paths = record { clean_join = λ root name. root ++ name; rel = λ root clean. some clean }

abbrev operation_of : ℕ → Text → Text → List ℕ → Operation
operation_of n type path content = record {
  seq = n;
  type = type;
  path = path;
  target = [];
  name = [];
  offset = 0;
  length = 1;
  mode = 0;
  atime = 0;
  mtime = 0;
  content = content;
}

abbrev two_operations : List Operation
two_operations =
    operation_of 4 mkdir_type (0x61 ∷ []) [] ∷ operation_of 5 write_type (0x62 ∷ []) (9 ∷ []) ∷ []

abbrev two_batch : Batch
two_batch = record {
  relay_id = 1 ∷ [];
  batch_id = 2 ∷ [];
  first_seq = 4;
  last_seq = 5;
  operations = two_operations;
}

abbrev no_file : ℕ → ℕ → ℕ × Option Error
no_file j d = (d, none)

two_batch_checked : (validate_batch two_batch ≡ true) ↔ IsValid two_batch
two_batch_checked = validate_batch_iff two_batch

two_operations_end :
    (d' : ℕ) × ((apply counting_fs joined_paths [] 3 two_operations no_file 0 0 ≡ applied d')
      ⊎ (apply counting_fs joined_paths [] 3 two_operations no_file 0 0 ≡ apply_failed d'))
two_operations_end =
    apply-ends counting_fs joined_paths [] two_operations no_file 2 0 0 (omega arith)

two_operations_counted : apply counting_fs joined_paths [] 3 two_operations no_file 0 0 ≡ applied 3
unfolding apply go_smb.Bulk.Apply.Loop.turn go_smb.Bulk.Apply.Loop.apply_op
    go_smb.Bulk.WriteRun.resolve go_smb.Bulk.WriteRun.apply_write_run
    go_smb.Bulk.WriteRun.group_writes go_smb.Bulk.WriteRun.write_groups
two_operations_counted = refl
