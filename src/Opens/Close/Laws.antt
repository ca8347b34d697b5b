-- ===== src/Opens/Close/Laws.antt =====
-- server/file_tree.go: what a close does to the file system and to the table.
use go_smb.Common.{
  ℕ, suc, ◌≡◌, Bool, true, false, none, some, List, [], ◌∷◌, arith, ◌==◌, inl, inr, not, ◌||◌, ◌&&◌,
  Bool-cases, if◌then◌else◌, ◌∙◌,
}
use go_smb.Common.Assoc.{insert, erase, find-insert, find-erase}
use go_smb.Opens.Table.{
  Open, Server, get_open, close_open, is_delete_pending, set_delete_pending, has_node,
}
use go_smb.Opens.Table.Laws.{close_open-unlinks}
use go_smb.Opens.Close.{
  Vfs, FsCall, unlinked, closed, posix_delete_on_close, finish_close, close_file, close_file_open,
  forget_delete, apply_delete_disposition, apply_posix_delete,
}

-- How often the calls unlink the handle.
abbrev pub unlinks : List FsCall → ℕ
unlinks [] = 0
unlinks (unlinked h ∷ cs) = suc (unlinks cs)
unlinks (closed h ∷ cs) = unlinks cs

-- The calls of a close that needs no POSIX deletion.
plain_calls :
    (fs : Vfs) (h status : ℕ) (b : Bool)
    → (finish_close fs h status b []).1 ≡ (if b then unlinked h ∷ closed h ∷ [] else closed h ∷ [])
plain_calls fs h status b = ground arith

-- After a POSIX delete-on-close that worked, the close does not ask for the unlink again.
posix_not_again :
    (o : Open) (s : Server)
    → (close_open (forget_delete o) (record s {
      opens = insert o.file_id (forget_delete o) s.opens;
      delete_pending = erase o.durable_file_id s.delete_pending;
    })).1
      ≡ false
unfolding is_delete_pending
posix_not_again o s = close_open-unlinks (forget_delete o) _ ∙ rw cleared
  where
    cleared :
        is_delete_pending o.durable_file_id (record s {
          opens = insert o.file_id (forget_delete o) s.opens;
          delete_pending = erase o.durable_file_id s.delete_pending;
        })
        ≡ false
    cleared = ground (arith, find-erase o.durable_file_id o.durable_file_id s.delete_pending)

-- What a close has to delete: at once for a POSIX open that is to be deleted on close, and for any
-- other if the node is to be deleted and no other open of it is left.
abbrev pub deletes : Open → Server → Bool
deletes o s =
    (o.delete_on_close && o.posix_semantics)
    || ((o.delete_on_close || is_delete_pending o.durable_file_id s)
        && not (has_node o.durable_file_id (erase o.file_id s.opens)))

-- The table after a POSIX deletion that worked.
abbrev forgotten : Open → Server → Server
forgotten o s = record s {
  opens = insert o.file_id (forget_delete o) s.opens;
  delete_pending = erase o.durable_file_id s.delete_pending;
}

posix_step :
    (fs : Vfs) (h : ℕ) (o : Open) (s : Server)
    → fs.unlink h ≡ none
    → o.delete_on_close ≡ true
    → o.posix_semantics ≡ true
    → posix_delete_on_close fs h o s ≡ (forget_delete o, forgotten o s, unlinked h ∷ [])
unfolding posix_delete_on_close set_delete_pending
posix_step fs h o s works d p =
    let go : (not o.delete_on_close || not o.posix_semantics) ≡ false = ground arith in
    rw (go, works)

posix_calls :
    (fs : Vfs) (h status : ℕ) (s : Server) (o : Open)
    → get_open h s ≡ some o
    → fs.unlink h ≡ none
    → o.delete_on_close ≡ true
    → o.posix_semantics ≡ true
    → (close_file fs h status s).2 ≡ unlinked h ∷ closed h ∷ []
unfolding close_file get_open
posix_calls fs h status s o at_h works d p =
    rw (at_h, close_file_open, posix_step fs h o s works d p, posix_not_again o s)

other_calls :
    (fs : Vfs) (h status : ℕ) (s : Server) (o : Open)
    → get_open h s ≡ some o
    → (o.delete_on_close && o.posix_semantics) ≡ false
    → (close_file fs h status s).2
      ≡ (if (close_open o s).1 then unlinked h ∷ closed h ∷ [] else closed h ∷ [])
unfolding close_file posix_delete_on_close get_open
other_calls fs h status s o at_h q =
    let skip : (not o.delete_on_close || not o.posix_semantics) ≡ true = ground arith in
    rw (at_h, close_file_open, skip) (plain_calls fs h status (close_open o s).1)

-- If unlinking works, a close of an open handle unlinks the file exactly if it is to be deleted
-- now, once, and closes the handle once, last.
pub close_file-calls :
    (fs : Vfs) (h status : ℕ) (s : Server) (o : Open)
    → get_open h s ≡ some o
    → fs.unlink h ≡ none
    → (close_file fs h status s).2
      ≡ (if deletes o s then unlinked h ∷ closed h ∷ [] else closed h ∷ [])
close_file-calls fs h status s o at_h works =
    elim (Bool-cases (o.delete_on_close && o.posix_semantics)) [
      | inl q ↦ rw q (posix_calls fs h status s o at_h works (ground arith) (ground arith))
      | inr q ↦ rw (q, other_calls fs h status s o at_h q, close_open-unlinks o s)
    ]

-- A successful disposition marks the node of an open without POSIX semantics, and no other node;
-- with POSIX semantics the file is unlinked at once and the node is not marked.
apply_delete_disposition-marks :
    (fs : Vfs) (h : ℕ) (o : Open) (s : Server) (node : ℕ)
    → (apply_delete_disposition fs h o s).1 ≡ 0
    → (is_delete_pending node (apply_delete_disposition fs h o s).0
        ≡ (if o.durable_file_id == node then not o.posix_semantics else is_delete_pending node s))
      × ((apply_delete_disposition fs h o s).0.opens ≡ s.opens)
unfolding apply_delete_disposition set_delete_pending is_delete_pending apply_posix_delete
apply_delete_disposition-marks fs h o s node ok = ground (
  arith,
  find-insert o.durable_file_id node true s.delete_pending,
  find-erase o.durable_file_id node s.delete_pending,
)
