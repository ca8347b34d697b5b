-- ===== src/Bulk/Commit/Runs.antt =====
-- A package whose batch makes one directory, committed in a world that counts the calls and keeps the receipt.
use go_smb.Common.{
  ℕ, ◌+◌, ◌≡◌, refl, ap, Bool, true, false, Option, none, some, List, [], ◌∷◌, ◌++◌, replicate,
  if◌then◌else◌,
}
use go_smb.Bulk.{Batch, Formats, Manifest, WireOperation, Operation, magic}
use go_smb.Bulk.WriteRun.{Disk, Paths}
use go_smb.Bulk.Apply.{ApplyProgress, write_type, Fs, Error, Kind, regular, mkdir_type}
use go_smb.Bulk.Apply.Resume.{Reaches, here, there}
use go_smb.Bulk.Commit.Resume.{progress_at, apply_from_progress-resumes}
use go_smb.Bulk.Commit.{
  checkpoint, apply_from_progress, Receipt, Journal, protocol_name, receipted, commit_ready,
}
use go_smb.Bulk.Commit.Laws.{commit_ready-once}

pub record World : Type 0 where
  pub calls : ℕ
  pub last : Option Receipt
  pub uploaded : Bool

abbrev called : World → World × Option Error
called w = (record w { calls = w.calls + 1 }, none)

abbrev one_call_fs : Fs World
one_call_fs = record {
  disk = record {
    opens = λ p d. true;
    writes = λ p o bs d. true;
    write_at = λ p o bs d. d;
    syncs = λ p d. true;
  };
  lstat = λ p d. some regular;
  lstat_missing = λ p d. false;
  stat = λ p d. some regular;
  create_exclusive = λ p mode d. called d;
  sync_new = λ p d. called d;
  sync_directory = λ p d. called d;
  same_directory = λ p q. true;
  sync_file = λ p d. called d;
  mkdir = λ p mode d. called d;
  truncate = λ p n d. called d;
  chmod = λ p mode d. called d;
  chtimes = λ p a m d. called d;
  rename = λ p q d. called d;
  remove = λ p d. called d;
  symlink = λ t p d. called d;
  set_xattr = λ p n bs d. called d;
  remove_xattr = λ p n d. called d;
}

abbrev bytes : List ℕ
bytes = magic ++ replicate 12 0 ++ replicate 32 0

abbrev world_journal : Journal World
world_journal = record {
  ready = λ w. if w.uploaded then some bytes else none;
  progress = λ w. some none;
  receipt = λ relay w. w.last;
  write_progress = λ p w. (w, none);
  write_receipt = λ relay r w. (record w { last = some r }, none);
  remove_artifacts = λ w. record w { uploaded = false };
  hex = λ bs. bs;
}

abbrev make_directory : Operation
make_directory = record {
  seq = 4;
  type = mkdir_type;
  path = 0x61 ∷ [];
  target = [];
  name = [];
  offset = 0;
  length = 0;
  mode = 0;
  atime = 0;
  mtime = 0;
  content = [];
}

abbrev one_manifest : Manifest
one_manifest = record {
  relay_id = 1 ∷ [];
  batch_id = 2 ∷ [];
  first_seq = 4;
  last_seq = 5;
  operations = record { operation = make_directory; data_offset = 0; data_length = 0 } ∷ [];
}

abbrev one_formats : Formats
one_formats = record {
  marshal = λ m. none;
  unmarshal = λ bs. some one_manifest;
  sha256 = λ bs. replicate 32 0;
}

abbrev flat_paths : Paths
flat_paths = record { clean_join = λ root name. root ++ name; rel = λ root clean. some clean }

abbrev one_receipt : Receipt
one_receipt = record {
  protocol = protocol_name;
  relay_id = 1 ∷ [];
  batch_id = 2 ∷ [];
  last_seq = 5;
  hash = replicate 32 0;
}

abbrev fresh_world : World
fresh_world = record { calls = 0; last = none; uploaded = true }

abbrev later_world : World
later_world = record { calls = 2; last = some one_receipt; uploaded = true }

first_commit :
    commit_ready one_formats one_call_fs world_journal flat_paths [] 0 fresh_world
    ≡ some (receipted (record later_world { uploaded = false }) one_receipt)
unfolding commit_ready go_smb.Bulk.Commit.commit_bytes go_smb.Bulk.Commit.commit_batch
    go_smb.Bulk.Commit.apply_from_progress go_smb.Bulk.decode go_smb.Bulk.fill_in go_smb.Bytes.read
    go_smb.Bytes.from go_smb.Bytes.sub go_smb.Bulk.Apply.validate_batch
    go_smb.Bulk.Apply.read_apply_progress go_smb.Bulk.Apply.Loop.apply go_smb.Bulk.Apply.Loop.turn
    go_smb.Bulk.Apply.Loop.apply_op go_smb.Bulk.WriteRun.resolve
first_commit = refl

second_commit :
    commit_ready one_formats one_call_fs world_journal flat_paths [] 0 later_world
    ≡ some (receipted (record later_world { uploaded = false }) one_receipt)
second_commit =
    commit_ready-once one_formats one_call_fs world_journal flat_paths [] 0 fresh_world
      (record later_world { uploaded = false }) later_world one_receipt first_commit refl refl

-- A world that keeps the progress: the number of calls, and the progress file.
abbrev Disked : Type 0
Disked = ℕ × Option ApplyProgress

abbrev counts : Disked → Disked × Option Error
counts (n, file) = ((n + 1, file), none)

abbrev counted_fs : Fs Disked
counted_fs = record {
  disk = record {
    opens = λ p d. true;
    writes = λ p o bs d. true;
    write_at = λ p o bs d. (d.0 + 1, d.1);
    syncs = λ p d. true;
  };
  lstat = λ p d. some regular;
  lstat_missing = λ p d. false;
  stat = λ p d. some regular;
  create_exclusive = λ p mode d. counts d;
  sync_new = λ p d. counts d;
  sync_directory = λ p d. counts d;
  same_directory = λ p q. true;
  sync_file = λ p d. counts d;
  mkdir = λ p mode d. counts d;
  truncate = λ p n d. counts d;
  chmod = λ p mode d. counts d;
  chtimes = λ p a m d. counts d;
  rename = λ p q d. counts d;
  remove = λ p d. counts d;
  symlink = λ t p d. counts d;
  set_xattr = λ p n bs d. counts d;
  remove_xattr = λ p n d. counts d;
}

abbrev kept_journal : Journal Disked
kept_journal = record {
  ready = λ w. none;
  progress = λ w. some w.1;
  receipt = λ relay w. none;
  write_progress = λ p w. ((w.0, some p), none);
  write_receipt = λ relay r w. (w, none);
  remove_artifacts = λ w. (w.0, none);
  hex = λ bs. bs;
}

kept_journal-reads :
    (p : ApplyProgress) (e e' : Disked)
    → kept_journal.write_progress p e ≡ (e', none)
    → kept_journal.progress e' ≡ some (some p)
kept_journal-reads p e e' made =
    let same : (e.0, some p) ≡ e' = ap (λ (r : Disked × Option Error). r.0) made in rw⁻¹ same refl

abbrev write_byte : Operation
write_byte = record make_directory {
  seq = 5;
  type = write_type;
  path = 0x62 ∷ [];
  length = 1;
  content = 9 ∷ [];
}

abbrev two_batch : Batch
two_batch = record {
  relay_id = 1 ∷ [];
  batch_id = 2 ∷ [];
  first_seq = 4;
  last_seq = 5;
  operations = make_directory ∷ write_byte ∷ [];
}

-- The directory is made, and the index of the write is stored.
abbrev between : Disked
between = (2, some (progress_at two_batch (7 ∷ []) 1))

abbrev two_checkpoint : ℕ → Disked → Disked × Option Error
two_checkpoint = checkpoint one_formats counted_fs kept_journal flat_paths [] two_batch (7 ∷ [])

between-Reaches :
    Reaches counted_fs flat_paths [] two_batch.operations two_checkpoint 0 (0, none) 1 between
unfolding go_smb.Bulk.Apply.Loop.turn go_smb.Bulk.Apply.Loop.apply_op go_smb.Bulk.WriteRun.resolve
between-Reaches = there 0 1 1 (0, none) between between refl (here 1 between)

two_batch_resumed :
    apply_from_progress one_formats counted_fs kept_journal flat_paths [] two_batch (7 ∷ []) between
    ≡ apply_from_progress one_formats counted_fs kept_journal flat_paths [] two_batch
        (7 ∷ [])
        (0, none)
unfolding go_smb.Bulk.Apply.read_apply_progress
two_batch_resumed =
    apply_from_progress-resumes one_formats counted_fs kept_journal flat_paths [] two_batch (7 ∷ [])
      kept_journal-reads (0, none) between none 0 1 refl refl between-Reaches
