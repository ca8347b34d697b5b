-- ===== src/Bulk/Commit/Resume.antt =====
-- bulk/backend.go, `CommitReady`: the progress file and the loop that it stands for.
use go_smb.Common.{
  ℕ, suc, false, ◌≤◌, ◌≡◌, ◌⊎◌, refl, inl, inr, Option, none, some, length, ltb, arith,
}
use go_smb.Common.Texts.{Text, equal_bytes_refl}
use go_smb.Bulk.{Formats, Batch}
use go_smb.Bulk.WriteRun.{Paths}
use go_smb.Bulk.Apply.{Fs, ApplyProgress, read_apply_progress}
use go_smb.Bulk.Apply.Loop.{Applied, apply, applied, apply_failed}
use go_smb.Bulk.Apply.Resume.{Reaches, Reaches-Checked, apply-resumes, apply-ends}
use go_smb.Bulk.Commit.{Journal, checkpoint, finish, apply_from_progress}

-- The progress that a checkpoint writes.
abbrev pub progress_at : Batch → Text → ℕ → ApplyProgress
progress_at batch hash j = record {
  version = 1;
  relay_id = batch.relay_id;
  batch_id = batch.batch_id;
  hash = hash;
  next_operation = j;
}

-- It is read as the index, where the batch has as many operations.
read_apply_progress-progress_at :
    (batch : Batch) (hash : Text) (j : ℕ)
    → j ≤ length batch.operations
    → read_apply_progress (some (progress_at batch hash j)) batch hash ≡ some j
unfolding read_apply_progress
read_apply_progress-progress_at batch hash j small =
    let inside : ltb (length batch.operations) j ≡ false = ground arith in
    rw
      (
        equal_bytes_refl batch.relay_id,
        equal_bytes_refl batch.batch_id,
        equal_bytes_refl hash,
        inside,
      )
      refl

module _ {D : Type 0} (fmt : Formats) (fs : Fs D) (journal : Journal D) (paths : Paths)
    (root : Text) (batch : Batch) (hash : Text) where
  abbrev loop : ℕ → D → Applied D
  loop i d =
      apply fs paths root (suc (length batch.operations)) batch.operations
        (checkpoint fmt fs journal paths root batch hash) i d

  -- An end of the loop is finished alike whatever disk it began with.
  finish-start :
      (r : Applied D) (d e d' : D)
      → (r ≡ applied d') ⊎ (r ≡ apply_failed d')
      → finish fmt fs journal paths root batch hash d r
        ≡ finish fmt fs journal paths root batch hash e r
  finish-start r d e d' (inl done) = rw done refl
  finish-start r d e d' (inr failed) = rw failed refl

  at_progress :
      (d : D) (file : Option ApplyProgress) (i : ℕ)
      → journal.progress d ≡ some file
      → read_apply_progress file batch hash ≡ some i
      → apply_from_progress fmt fs journal paths root batch hash d
        ≡ finish fmt fs journal paths root batch hash d (loop i d)
  unfolding apply_from_progress
  at_progress d file i has at = rw (apply_from_progress, has, at) refl

  -- Where the journal reads the progress that was last written without an error, a commit that
  -- finds the disk as it is behind any turn of the loop, with the index that is stored there,
  -- ends as the commit does that was not interrupted.
  pub apply_from_progress-resumes :
      ((p : ApplyProgress) (e e' : D)
        → journal.write_progress p e ≡ (e', none)
        → journal.progress e' ≡ some (some p))
      → (d d' : D) (file : Option ApplyProgress) (i j : ℕ) → journal.progress d ≡ some file
      → read_apply_progress file batch hash ≡ some i
      → Reaches fs paths root batch.operations
          (checkpoint fmt fs journal paths root batch hash)
          i
          d
          j
          d'
      → apply_from_progress fmt fs journal paths root batch hash d'
        ≡ apply_from_progress fmt fs journal paths root batch hash d
  apply_from_progress-resumes reads d d' file i j has at way =
      let keeps = checkpoint fmt fs journal paths root batch hash in
      let n = length batch.operations in
      elim (Reaches-Checked fs paths root batch.operations keeps i j d d' way) [
        | inl (_, same) ↦ rw same refl
        | inr (small, (e, made)) ↦
            let there = reads (progress_at batch hash j) e d' made in
            let (last, end) = apply-ends fs paths root batch.operations keeps n i d (omega arith) in
            rw
              (
                at_progress d file i has at,
                at_progress d' (some (progress_at batch hash j)) j there
                    (read_apply_progress-progress_at batch hash j small),
                apply-resumes fs paths root batch.operations keeps n i j d d' way (omega arith),
              )
              (finish-start (loop i d) d' d last end)
      ]
