-- ===== src/Opens/Close/Runs.antt =====
-- Closes and dispositions on a file system that answers every call.
use go_smb.Common.{◌≡◌, refl, none, some, [], ◌∷◌, false, if◌then◌else◌}
use go_smb.Fixtures.{open_of, two_opens}
use go_smb.Opens.Table.{is_delete_pending}
use go_smb.Opens.Close.{Vfs, close_file, unlinked, closed}
use go_smb.Opens.Close.Laws.{close_file-calls, deletes}

abbrev willing : Vfs
willing = record {
  unlink = λ h. none;
  close = λ h. none;
  attr = λ h. some false;
  listing = λ h. none;
  missing = λ h. false;
}

close_file-calls_example :
    (close_file willing 1 0 two_opens).2
    ≡ (if deletes (open_of 1 40 false) two_opens then unlinked 1 ∷ closed 1 ∷ [] else closed 1 ∷ [])
unfolding go_smb.Opens.Table.get_open
close_file-calls_example = close_file-calls willing 1 0 two_opens (open_of 1 40 false) refl refl
