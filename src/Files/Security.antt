-- ===== src/Files/Security.antt =====
-- server/file_tree.go: `queryInfoSec` and `setSecInfo`, the security descriptor of a file: what is said of its owner, its
-- group and its mode, and the mode that a client sets by it; with the decoders of internal/smb2/request.go.
pub mod Laws
mod Runs
use go_smb.Common.{
  ℕ, ◌+◌, Bool, true, false, Option, none, some, List, ◌==◌, ◌!=◌, if◌then◌else◌, bit_and, bit_or,
}
use go_smb.Bytes.{Slice, get_le, from}
use go_smb.Acl.{Sid, sid_from_uid, sid_from_gid, list_of_mode, SecurityDescriptor, nfs_mode}
use go_smb.Vfs.{
  FileSystem, FsError, Res, ok, err, Attributes, no_attributes, FileType, directory, symlink,
}
use go_smb.Vfs.Convert.{or_default}
use go_smb.Files.{
  State, Progress, Handler, ◌>>=◌, pure, lift, call, answer, refuse, accept_or_nil, CompoundContext,
  handle_id, target_id, security_response, set_info_response, status_invalid_handle,
  status_access_denied, status_not_supported,
}

abbrev pub smb2_query_info : ℕ
smb2_query_info = 16

abbrev pub smb2_set_info : ℕ
smb2_set_info = 17

-- `S_IFDIR`, `S_IFLNK`, and `S_IFREG` for all else.
abbrev pub format_of : FileType → ℕ
format_of directory = 0o040000
format_of symlink = 0o120000
format_of t = 0o100000

abbrev pub mode_with_format : Attributes → FileType → ℕ
mode_with_format a t = bit_or (or_default 0 a.unix_mode) (format_of t)

abbrev pub descriptor : Bool → Bool → ℕ → ℕ → Option ℕ → SecurityDescriptor
descriptor owner group uid gid mode = record {
  owner_sid = if owner then some (sid_from_uid uid) else none;
  group_sid = if group then some (sid_from_gid gid) else none;
  sacl = none;
  dacl = elim mode [ none ↦ none | some m ↦ some (list_of_mode uid gid m) ];
}

abbrev pub asks : ℕ → ℕ → Bool
asks additional bit = bit_and additional bit != 0

module _ {D : Type 0} where
  -- `changed`: the answer to a change of a file, by the error that there is.
  abbrev pub changed : Slice → (FsError → ℕ) → Option FsError → Handler D (Unit {0})
  changed pkt status none = answer pkt 0 set_info_response
  changed pkt status (some e) = refuse pkt (status e)

  abbrev pub list_mode : ℕ → Attributes → Handler D (Option ℕ)
  list_mode additional a =
      if asks additional 4
      then (do t ← lift a.file_type; pure (some (mode_with_format a t)))
      else pure none

  -- What is asked for: 1 is the owner, 2 the group, 4 the list.
  abbrev pub described_for : ℕ → Slice → Res Attributes → Handler D (Unit {0})
  described_for additional pkt (err e) = refuse pkt status_invalid_handle
  described_for additional pkt (ok a) = do
    mode ← list_mode additional a
    answer pkt 0 (
        security_response (
          descriptor (asks additional 1) (asks additional 2) (or_default 0 a.uid)
            (or_default 0 a.gid) mode))

module _ {D : Type 0} (fs : FileSystem D) where
  unfoldable pub query_info_sec : Option CompoundContext → Slice → Handler D (Unit {0})
  query_info_sec ctx pkt = do
    r ← accept_or_nil smb2_query_info pkt
    id ← target_id 24 ctx r pkt
    got ← call (fs.get_attr (handle_id id))
    additional ← lift (get_le 4 r 16)
    described_for additional pkt got

  -- The owner can always read and write.
  abbrev pub set_mode : ℕ → Slice → Option ℕ → Handler D (Unit {0})
  set_mode h pkt none = refuse pkt status_not_supported
  set_mode h pkt (some mode) = do
    e ← call (
        fs.set_attr h
          (record no_attributes { unix_mode = some (bit_and (bit_or mode 0o600) 0o7777) }))
    changed pkt (λ x. status_access_denied) e

  unfoldable pub set_sec_info : ℕ → Slice → Handler D (Unit {0})
  set_sec_info h pkt = do
    r ← accept_or_nil smb2_set_info pkt
    sd ← lift (from r 32)
    mode ← lift (nfs_mode sd)
    set_mode h pkt mode
