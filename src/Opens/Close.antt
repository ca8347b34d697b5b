-- ===== src/Opens/Close.antt =====
-- server/file_tree.go: how a file is marked for deletion and how a close carries it out
-- (`applyDeleteDisposition`, `applyPosixDelete`, `applyPosixDeleteOnClose`, the part of `close` from
-- the label `send` to the answer). The file system is a parameter: the outcome of each of its calls.
pub mod Laws
mod Runs
use go_smb.Common.{
  ℕ, Bool, true, false, Option, none, some, List, [], ◌∷◌, ◌++◌, ◌==◌, ◌&&◌, ◌||◌, not,
  if◌then◌else◌,
}
use go_smb.Common.Assoc.{insert}
use go_smb.Opens.Table.{Open, Server, get_open, close_open, set_delete_pending}

-- What the file system answers: `none` for success, or the NT status that `statusFromVFSError`
-- makes of its error. `attr` gives the answer of `GetAttr`: whether the file is a directory. `listing`
-- is the answer of `ReadDir`: whether each entry is "." or "..". `missing` is `os.IsNotExist`.
pub record Vfs : Type 0 where
  pub unlink : ℕ → Option ℕ
  pub close : ℕ → Option ℕ
  pub attr : ℕ → Option Bool
  pub listing : ℕ → Option (List Bool)
  pub missing : ℕ → Bool

-- The calls that change the file system, in order.
pub data FsCall : Type 0 where
  unlinked closed : ℕ → FsCall

abbrev pub status_access_denied : ℕ
status_access_denied = 0xc000_0022

abbrev pub status_object_name_not_found : ℕ
status_object_name_not_found = 0xc000_0034

abbrev pub status_directory_not_empty : ℕ
status_directory_not_empty = 0xc000_0101

-- `applyPosixDelete`: unlink now; a node that is gone is not delete-pending.
abbrev pub posix_deleted : Option ℕ → ℕ → Server → Server
posix_deleted none node s = set_delete_pending node false s
posix_deleted (some e) node s = s

unfoldable pub apply_posix_delete : Vfs → ℕ → Open → Server → Server × Option ℕ
apply_posix_delete fs h o s = (posix_deleted (fs.unlink h) o.durable_file_id s, fs.unlink h)

-- Every entry is "." or "..".
abbrev pub is_empty : List Bool → Bool
is_empty [] = true
is_empty (dots ∷ ds) = if dots then is_empty ds else false

-- A directory whose listing fails counts as empty, as in the code.
abbrev pub blocks_delete : Option (List Bool) → Bool
blocks_delete none = false
blocks_delete (some ds) = not (is_empty ds)

abbrev pub posix_status : Bool → Option ℕ → ℕ
posix_status gone none = 0
posix_status gone (some e) = if gone then status_object_name_not_found else status_access_denied

abbrev pub delete_disposition_at : Vfs → ℕ → Open → Server → Option Bool → Server × ℕ
delete_disposition_at fs h o s none = (s, status_access_denied)
delete_disposition_at fs h o s (some directory) =
    if directory && blocks_delete (fs.listing h)
    then (s, status_directory_not_empty)
    else if o.posix_semantics
    then (
      (apply_posix_delete fs h o s).0,
      posix_status (fs.missing h) (apply_posix_delete fs h o s).1,
    )
    else (set_delete_pending o.durable_file_id true s, 0)

-- `applyDeleteDisposition`: the new server and the status, 0 for success.
unfoldable pub apply_delete_disposition : Vfs → ℕ → Open → Server → Server × ℕ
unfolding apply_posix_delete
apply_delete_disposition fs h o s = delete_disposition_at fs h o s (fs.attr h)

-- `open.deleteOnClose = false`, on the open that stands in the table.
abbrev pub forget_delete : Open → Open
forget_delete o = record o { delete_on_close = false }

-- `applyPosixDeleteOnClose`: the open afterwards, the server, and the calls made.
unfoldable pub posix_delete_on_close : Vfs → ℕ → Open → Server → Open × Server × List FsCall
posix_delete_on_close fs h o s =
    if not o.delete_on_close || not o.posix_semantics then (o, s, []) else (elim (fs.unlink h) [
      | none ↦
          let s' = set_delete_pending o.durable_file_id false s in
          (
            forget_delete o,
            record s' { opens = insert o.file_id (forget_delete o) s'.opens },
            unlinked h ∷ [],
          )
      | some e ↦ (o, s, unlinked h ∷ [])
    ])

-- `err != nil` sets the status of the answer, for the unlink always.
abbrev pub status_or : Option ℕ → ℕ → ℕ
status_or none status = status
status_or (some e) status = e

-- For the close only where no error came before.
abbrev pub status_if_zero : Option ℕ → ℕ → ℕ
status_if_zero none status = status
status_if_zero (some e) status = if status == 0 then e else status

-- The rest of `close`, once the pending deletion is decided.
abbrev pub finish_close : Vfs → ℕ → ℕ → Bool → List FsCall → ℕ × List FsCall
finish_close fs h status delete_pending calls =
    if delete_pending
    then (
      status_if_zero (fs.close h) (status_or (fs.unlink h) status),
      calls ++ unlinked h ∷ closed h ∷ [],
    )
    else (status_if_zero (fs.close h) status, calls ++ closed h ∷ [])

abbrev pub close_file_open : Vfs → ℕ → ℕ → Server → Option Open → Server × ℕ × List FsCall
close_file_open fs h status s none =
    let done = finish_close fs h status false [] in (s, done.0, done.1)
close_file_open fs h status s (some o) =
    let before = posix_delete_on_close fs h o s in
    let after = close_open before.0 before.1 in
    let done = finish_close fs h status after.1 before.2 in (after.0, done.0, done.1)

-- The deletion part of `close` for the handle `h`: server, status of the answer, calls.
unfoldable pub close_file : Vfs → ℕ → ℕ → Server → Server × ℕ × List FsCall
unfolding get_open posix_delete_on_close
close_file fs h status s = close_file_open fs h status s (get_open h s)
