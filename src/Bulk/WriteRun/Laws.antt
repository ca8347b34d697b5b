-- ===== src/Bulk/WriteRun/Laws.antt =====
-- bulk/backend.go: a run of writes applied file by file, against the writes in journal order.
use go_smb.Common.{
  ◌≡◌, refl, sym, ◌∙◌, ap, ap₂, inl, inr, true, false, some, List, [], Option-cases,
}
use go_smb.Common.Texts.{Text}
use go_smb.Common.Texts as Texts
use go_smb.Bulk.{Operation}
use go_smb.Bulk.WriteRun.{Disk, Paths, write_groups, apply_write_run, Groups, group_of}
use go_smb.Bulk.WriteRun.Commute.{
  mem, ops_of, write_all, IsIndependent, Works, write_groups-done, write_groups-works,
}
use go_smb.Bulk.WriteRun.Groups.{is_known, resolve_all, IsGrouped, group_writes-IsGrouped}

module _ {D : Type 0} (disk : Disk D) (independent : IsIndependent disk) (paths : Paths)
    (root : Text) (ops : List Operation) (ws : List (Text × Operation)) (d : D)
    (resolved : resolve_all paths root ops ≡ some ws) where
  nothing-IsGrouped : IsGrouped [] [] []
  nothing-IsGrouped = record { distinct = tt; known = λ p. refl; groups = λ p. refl }

  unknown-empty :
      (order : List Text) (m : Groups)
      → IsGrouped order m ws
      → (p : Text) → mem p order ≡ false
      → ops_of p ws ≡ []
  unknown-empty order m grouped p out = elim (Option-cases (Texts.find p m)) [
    | inl e ↦ sym (grouped.groups p) ∙ rw (group_of, e) refl
    | inr (seen, e) ↦
        let there : mem p order ≡ true = grouped.known p ∙ rw (is_known, e) refl in cc (there, out)
  ]

  -- On a disk where writes to files of different paths can be exchanged, a run of writes whose paths resolve and that
  -- reports no error leaves the disk as the same writes one by one in journal order do.
  pub apply_write_run-journal_order :
      (apply_write_run disk paths root ops d).1 ≡ true
      → (apply_write_run disk paths root ops d).0 ≡ write_all disk ws d
  unfolding apply_write_run
  apply_write_run-journal_order h =
      let (order, m, ran, grouped) =
        group_writes-IsGrouped paths root ops [] [] [] ws nothing-IsGrouped resolved in
      let whole : apply_write_run disk paths root ops d ≡ write_groups disk order m d =
        rw (apply_write_run, ran) refl in
      ap (λ r. r.0) whole
      ∙ write_groups-done disk independent order m ws d grouped.distinct
          (unknown-empty order m grouped) (λ p _. grouped.groups p) (sym (ap (λ r. r.1) whole) ∙ h)

  -- If moreover the disk reports no error, neither does the run: with the theorem above, the writes are all made.
  apply_write_run-works :
      Works disk → apply_write_run disk paths root ops d ≡ (write_all disk ws d, true)
  unfolding apply_write_run
  apply_write_run-works works =
      let (order, m, ran, grouped) =
        group_writes-IsGrouped paths root ops [] [] [] ws nothing-IsGrouped resolved in
      let done : (apply_write_run disk paths root ops d).1 ≡ true =
        rw (apply_write_run, ran) (write_groups-works disk order m d works) in
      ap₂ (λ a b. (a, b)) (apply_write_run-journal_order done) done
