-- ===== src/Opens/Table/Runs.antt =====
-- A table of two opens of one node.
use go_smb.Common.{◌≡◌, refl, true, false, none, [], ◌∷◌, ◌++◌, replicate, length}
use go_smb.Fixtures.{open_of, two_opens}
use go_smb.Opens.Table.{
  new_server, close_open, close_all, is_delete_pending, get_open, has_node, add_open, run_ops, adds,
  closes, disposes,
}
use go_smb.Opens.Table.Keyed.{IsKeyed, run_ops-IsKeyed}
use go_smb.Opens.Table.Deferred.{close_all-unlinks_last}

close_all-unlinks_last_example :
    close_all (open_of 1 40 false ∷ open_of 2 40 false ∷ []) two_opens
    ≡ replicate (length (open_of 2 40 false ∷ [])) false ++ true ∷ []
unfolding is_delete_pending go_smb.Opens.Table.opens_for_node
close_all-unlinks_last_example =
    close_all-unlinks_last 40 two_opens (open_of 1 40 false) (open_of 2 40 false ∷ [])
      (refl, refl, (refl, refl, tt)) refl refl

run_ops-IsKeyed_example : IsKeyed ((2, open_of 2 40 false) ∷ [])
unfolding go_smb.Opens.Table.apply_op
run_ops-IsKeyed_example =
    run_ops-IsKeyed
      (adds (open_of 1 40 false)
        ∷ adds (open_of 2 40 false)
        ∷ disposes 40 true
        ∷ closes (open_of 1 40 false)
        ∷ [])
      new_server
      (record {
        opens = (2, open_of 2 40 false) ∷ [];
        opens_by_guid = none;
        delete_pending = (40, true) ∷ [];
      })
      tt refl
