-- ===== src/Bulk/WriteRun/Runs.antt =====
-- A run of three writes to two files, and a disk on which two names are one file.
use go_smb.Common.{
  ℕ, ◌≡◌, refl, true, false, some, List, [], ◌∷◌, ◌++◌, if◌then◌else◌, Bool-cases, inl, inr,
}
use mathlib.Core.Path.{fun_ext}
use go_smb.Common.Texts.{Text, equal_bytes, equal_bytes_sym, equal_bytes-eq}
use go_smb.Bulk.{Operation}
use go_smb.Bulk.WriteRun.{Disk, Paths, apply_write_run, resolve, group_writes, write_groups}
use go_smb.Bulk.WriteRun.Commute.{IsIndependent, write_all}
use go_smb.Bulk.WriteRun.Groups.{resolve_all}
use go_smb.Bulk.WriteRun.Laws.{apply_write_run-journal_order}

-- A disk keeps the writes of each path.
abbrev Kept : Type 0
Kept = Text → List (ℕ × List ℕ)

abbrev keep : Text → ℕ → List ℕ → Kept → Kept
keep p o bs d q = if equal_bytes p q then (o, bs) ∷ d q else d q

abbrev log_disk : Disk Kept
log_disk = record {
  opens = λ p d. true;
  writes = λ p o bs d. true;
  write_at = keep;
  syncs = λ p d. true;
}

keep-swap :
    (p q : Text) (o o' : ℕ) (bs bs' : List ℕ) (d : Kept) (r : Text)
    → equal_bytes p q ≡ false
    → keep p o bs (keep q o' bs' d) r ≡ keep q o' bs' (keep p o bs d) r
keep-swap p q o o' bs bs' d r apart = elim (Bool-cases (equal_bytes p r)) [
  | inl e ↦ elim (Bool-cases (equal_bytes q r)) [
    | inl f ↦
        let same : equal_bytes p q ≡ true = rw (equal_bytes-eq p r e, equal_bytes_sym r q) f in
        absurd (cc (apart, same))
    | inr f ↦ rw (e, f) refl
  ]
  | inr e ↦ rw e refl
]

log_disk-IsIndependent : IsIndependent log_disk
log_disk-IsIndependent p q o o' bs bs' d apart = fun_ext (λ r. keep-swap p q o o' bs bs' d r apart)

abbrev plain_paths : Paths
plain_paths = record { clean_join = λ root name. root ++ name; rel = λ root clean. some clean }

abbrev write_op : ℕ → Text → ℕ → Operation
write_op n p byte = record {
  seq = n;
  type = [];
  path = p;
  target = [];
  name = [];
  offset = 0;
  length = 1;
  mode = 0;
  atime = 0;
  mtime = 0;
  content = byte ∷ [];
}

abbrev file_a : Text
file_a = 0x61 ∷ []

abbrev file_b : Text
file_b = 0x62 ∷ []

abbrev three_writes : List Operation
three_writes = write_op 1 file_a 5 ∷ write_op 2 file_b 6 ∷ write_op 3 file_a 7 ∷ []

abbrev three_resolved : List (Text × Operation)
three_resolved =
    (file_a, write_op 1 file_a 5)
    ∷ (file_b, write_op 2 file_b 6)
    ∷ (file_a, write_op 3 file_a 7)
    ∷ []

three_writes_ordered :
    (apply_write_run log_disk plain_paths [] three_writes (λ p. [])).0
    ≡ write_all log_disk three_resolved (λ p. [])
unfolding resolve_all resolve apply_write_run group_writes write_groups
three_writes_ordered =
    apply_write_run-journal_order log_disk log_disk-IsIndependent plain_paths [] three_writes
      three_resolved (λ p. []) refl refl

-- One file with two names, as a hard link or a symbolic link gives it: the last byte written.
abbrev linked_disk : Disk ℕ
linked_disk = record {
  opens = λ p d. true;
  writes = λ p o bs d. true;
  write_at = λ p o bs d. elim bs [ [] ↦ d | b ∷ rest ↦ b ];
  syncs = λ p d. true;
}

abbrev linked_writes : List Operation
linked_writes = write_op 1 file_a 5 ∷ write_op 2 file_a 6 ∷ []

linked_in_order :
    write_all linked_disk
      ((file_a, write_op 1 file_a 5)
        ∷ (file_b, write_op 2 file_b 6)
        ∷ (file_a, write_op 3 file_a 7)
        ∷ [])
      0
    ≡ 7
linked_in_order = refl

linked_in_groups : apply_write_run linked_disk plain_paths [] three_writes 0 ≡ (6, true)
unfolding apply_write_run group_writes write_groups resolve
linked_in_groups = refl
