-- ===== src/Opens/Break/Runs.antt =====
-- Breaks of an open that holds a batch oplock.
use go_smb.Common.{◌≡◌, refl, some, false}
use go_smb.Fixtures.{open_of, two_opens}
use go_smb.Opens.Table.{get_open}
use go_smb.Opens.Break.{oplock_ack, invalid_device_state}
use go_smb.Opens.Break.Laws.{oplock_ack_lem}

oplock_ack_lem_example :
    ((oplock_ack 1 40 0 two_opens).1 ≡ invalid_device_state)
    × (get_open 1 (oplock_ack 1 40 0 two_opens).0 ≡ some (open_of 1 40 false))
    × ((oplock_ack 1 40 0 (oplock_ack 1 40 0 two_opens).0).1 ≡ invalid_device_state)
unfolding get_open
oplock_ack_lem_example = oplock_ack_lem 1 40 0 0 two_opens (open_of 1 40 false) refl refl
