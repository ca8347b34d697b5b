-- ===== src/Opens/Table/Laws.antt =====
-- server/server.go, `addOpen` and `closeOpen`.
use go_smb.Common.{ℕ, ◌≡◌, true, none, arith, ◌==◌, ◌||◌, ◌&&◌, not, if◌then◌else◌}
use go_smb.Common.Assoc.{insert, erase, find-insert, find-erase}
use go_smb.Opens.Table.{Open, Server, add_open, get_open, close_open, is_delete_pending, has_node}

-- A close asks for the unlink exactly when the node is to be deleted, by an earlier disposition or
-- by this open's delete-on-close, and no other open of the node is left in the table.
pub close_open-unlinks :
    (o : Open) (s : Server)
    → (close_open o s).1 ≡ (
        (o.delete_on_close || is_delete_pending o.durable_file_id s)
        && not (has_node o.durable_file_id (erase o.file_id s.opens)))
unfolding close_open is_delete_pending
close_open-unlinks o s =
    ground (arith, find-insert o.durable_file_id o.durable_file_id true s.delete_pending)

-- After a close the open is gone and every other open is as it was; the node stays delete-pending
-- exactly if it was to be deleted and the unlink was not asked for; other nodes are not touched.
pub close_open-leaves :
    (o : Open) (s : Server) (i node : ℕ)
    → (get_open i (close_open o s).0 ≡ (if o.file_id == i then none else get_open i s))
      × (is_delete_pending node (close_open o s).0 ≡ (
          if o.durable_file_id == node
          then (o.delete_on_close || is_delete_pending node s) && not (close_open o s).1
          else is_delete_pending node s))
unfolding close_open is_delete_pending get_open
close_open-leaves o s i node = ground (
  arith,
  find-erase o.file_id i s.opens,
  find-insert o.durable_file_id node true s.delete_pending,
  find-insert o.durable_file_id o.durable_file_id true s.delete_pending,
  find-erase o.durable_file_id node s.delete_pending,
  find-erase o.durable_file_id node (insert o.durable_file_id true s.delete_pending),
)

-- A durable open cannot be added to a server as `NewServer` makes it: the map by GUID is nil, and
-- writing to it panics.
pub add_open_durable :
    (o : Open) (s : Server) → o.is_durable ≡ true → s.opens_by_guid ≡ none → add_open o s ≡ none
unfolding add_open
add_open_durable o s d n = rw (d, n)
