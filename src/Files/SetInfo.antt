-- ===== src/Files/SetInfo.antt =====
-- server/file_tree.go: `setInfo` and what it calls, but for the security descriptor, with the decoders of
-- internal/smb2/request.go, internal/smb2/fscc.go and server/info_fs.go.
pub mod Laws
pub mod Tables
mod Runs
use go_smb.Common.{
  ℕ, ◌+◌, ◌-◌, ◌%◌, ◌^◌, Bool, true, false, not, ◌&&◌, ◌||◌, Option, none, some, List, [], ◌∷◌,
  length, replicate, leb, ltb, ◌==◌, ◌!=◌, if◌then◌else◌, bit_and, bit_or,
}
use go_smb.Common.Texts.{Text, equal_bytes}
use go_smb.Bytes.{Slice, index, get_le, sub, from, elements}
use go_smb.Dtyp.{Filetime, decode_filetime, nanoseconds}
use go_smb.Opens.Table.{Open, Server, get_open, set_delete_pending}
use go_smb.Vfs.{
  FileSystem, FsError, not_exist, Res, ok, err, Attributes, no_attributes, DirInfo, directory,
  read_dir_continue,
}
use go_smb.Vfs.Convert.{is_type}
use mathlib.Core.Option as Option
use go_smb.Files.{
  State, Progress, Handler, ◌>>=◌, ◌>>◌, pure, lift, call, get_server, put_server, answer, refuse,
  refuse_if, accept_or_nil, CompoundContext, handle_id, target_id, open_at, put_open,
  set_info_response, status_from_vfs_error, status_access_denied, status_not_supported,
}
use go_smb.Files.Create.{slashed, status_object_name_not_found}
use go_smb.Files.Security.{set_sec_info, smb2_set_info, changed}

abbrev pub status_directory_not_empty : ℕ
status_directory_not_empty = 0xc000_0101

abbrev pub status_not_found : ℕ
status_not_found = 0xc000_0225

abbrev pub file_basic_information : ℕ
file_basic_information = 4

abbrev pub file_rename_information : ℕ
file_rename_information = 10

abbrev pub file_disposition_information : ℕ
file_disposition_information = 13

abbrev pub file_allocation_information : ℕ
file_allocation_information = 19

abbrev pub file_end_of_file_information : ℕ
file_end_of_file_information = 20

-- `DELETE`.
abbrev pub delete_access : ℕ
delete_access = 0x10000

-- The flag of the configuration, the longest slice of zeros that the run time makes, and the conversion of names.
pub record Setting : Type 0 where
  pub ignore_set_attr_err : Bool
  pub max_make : ℕ
  pub of_utf16 : List ℕ → Text

-- `mode &^ 0222` or `mode | 0200`.
unfoldable pub unix_mode_with_file_attributes : ℕ → ℕ → ℕ
unix_mode_with_file_attributes mode attributes =
    if bit_and attributes 1 != 0 then mode - bit_and mode 0o222 else bit_or mode 0o200

-- `make([]byte, n)`, of an `int64`.
abbrev pub make_zeros : ℕ → ℕ → Option (List ℕ)
make_zeros limit n = if leb n limit then some (replicate n 0) else none

-- "." and "..".
abbrev pub is_dots : Text → Bool
is_dots name = equal_bytes name (b'.' ∷ []) || equal_bytes name (b'.' ∷ b'.' ∷ [])

abbrev pub all_dots : List DirInfo → Bool
all_dots [] = true
all_dots (d ∷ ds) = is_dots d.name && all_dots ds

-- A directory whose listing fails counts as empty.
abbrev pub is_empty_dir : Res (List DirInfo) → Bool
is_empty_dir (ok ds) = all_dots ds
is_empty_dir (err e) = true

abbrev pub unlink_status : FsError → ℕ
unlink_status not_exist = status_object_name_not_found
unlink_status e = status_access_denied

module _ {D : Type 0} where
  -- `FiletimeDecoder(f[o:o+8]).Decode().Nanoseconds()`, and the time that is set, unless it is 0.
  abbrev pub time_at : ℕ → Slice → Handler D (Option ℕ)
  time_at o f = do
    part ← lift (sub f o (o + 8))
    t ← lift (decode_filetime part)
    pure (if nanoseconds t == 0 then none else some (nanoseconds t))

  abbrev pub info_buffer : Slice → Handler D Slice
  info_buffer pkt = do r ← accept_or_nil smb2_set_info pkt; lift (from r 32)

  -- `dispositionDeletePending`.
  abbrev pub disposition_delete_pending : Slice → Handler D Bool
  disposition_delete_pending pkt = do
    buf ← info_buffer pkt
    if buf.len == 0 then pure false else (do b ← lift (index buf 0); pure (b != 0))

  abbrev pub set_pending : ℕ → Bool → Handler D (Unit {0})
  set_pending node pending = do
    server ← get_server
    put_server (set_delete_pending node pending server)

module _ {D : Type 0} (fs : FileSystem D) (setting : Setting) where
  -- The mode that the attributes of the request make of the file's.
  abbrev pub basic_mode : ℕ → Res Attributes → Option ℕ
  basic_mode attributes (err e) = none
  basic_mode attributes (ok a) =
      Option.map (λ mode. bit_and (unix_mode_with_file_attributes mode attributes) 0o7777)
        a.unix_mode

  abbrev pub mode_to_set : ℕ → ℕ → Handler D (Option ℕ)
  mode_to_set h attributes =
      if attributes == 0
      then pure none
      else (do got ← call (fs.get_attr h); pure (basic_mode attributes got))

  -- A failure of `SetAttr` may be ignored.
  abbrev pub basic_set : Slice → Option FsError → Handler D (Unit {0})
  basic_set pkt e =
      changed pkt (λ x. status_not_supported) (if setting.ignore_set_attr_err then none else e)

  unfoldable pub set_basic_info : ℕ → Open → Slice → Handler D (Unit {0})
  set_basic_info h o pkt = do
    info ← info_buffer pkt
    attributes ← lift (get_le 4 info 32)
    mode ← mode_to_set h attributes
    accessed ← time_at 8 info
    written ← time_at 16 info
    status_changed ← time_at 24 info
    born ← time_at 0 info
    let a = record no_attributes {
      unix_mode = mode;
      a_time = accessed;
      m_time = written;
      c_time = status_changed;
      b_time = born;
    }
    if o.is_ea
        then answer pkt 0 set_info_response
        else (do e ← call (fs.set_attr h a); basic_set pkt e)

  unfoldable pub set_end_of_file_info : ℕ → Slice → Handler D (Unit {0})
  set_end_of_file_info h pkt = do
    info ← info_buffer pkt
    size ← lift (get_le 8 info 0)
    e ← call (fs.truncate h size)
    changed pkt (λ x. status_from_vfs_error (some x)) e

  unfoldable pub set_end_of_file_info_ea : ℕ → Text → Slice → Handler D (Unit {0})
  set_end_of_file_info_ea h key pkt = do
    info ← info_buffer pkt
    size ← lift (get_le 8 info 0)
    v ← lift (make_zeros setting.max_make size)
    e ← call (fs.set_xattr h key v)
    changed pkt (λ x. status_from_vfs_error (some x)) e

  -- Whether a directory is not empty.
  abbrev pub is_full : ℕ → Bool → Handler D Bool
  is_full h false = pure false
  is_full h true = do
    listing ← call (fs.read_dir h read_dir_continue 1000)
    pure (not (is_empty_dir listing))

  -- After `Unlink`: a node that is gone is not delete-pending. The status.
  abbrev pub unlinked : ℕ → Option FsError → Handler D ℕ
  unlinked node (some e) = pure (unlink_status e)
  unlinked node none = set_pending node false >> pure 0

  abbrev pub delete_or_mark : ℕ → Open → Handler D ℕ
  delete_or_mark h o =
      if o.posix_semantics
      then (do e ← call (fs.unlink h); unlinked o.durable_file_id e)
      else set_pending o.durable_file_id true >> pure 0

  abbrev pub disposition_of : ℕ → Open → Res Attributes → Handler D ℕ
  disposition_of h o (err e) = pure status_access_denied
  disposition_of h o (ok a) = do
    t ← lift a.file_type
    full ← is_full h (is_type directory t)
    if full then pure status_directory_not_empty else delete_or_mark h o

  -- `applyDeleteDisposition`: the status, 0 for success.
  unfoldable pub dispose : ℕ → Open → Handler D ℕ
  dispose h o = do got ← call (fs.get_attr h); disposition_of h o got

  abbrev pub answer_status : Slice → ℕ → Handler D (Unit {0})
  answer_status pkt status =
      if status == 0 then answer pkt 0 set_info_response else refuse pkt status

  unfoldable pub set_disposition_info : ℕ → Open → Slice → Handler D (Unit {0})
  unfolding dispose
  set_disposition_info h o pkt = do
    pending ← disposition_delete_pending pkt
    if not pending
        then set_pending o.durable_file_id false >> answer pkt 0 set_info_response
        else (do
          refuse_if (bit_and o.granted_access delete_access == 0) pkt status_access_denied
          status ← dispose h o
          answer_status pkt status)

  unfoldable pub set_disposition_info_ea : ℕ → Text → Slice → Handler D (Unit {0})
  set_disposition_info_ea h key pkt = do
    pending ← disposition_delete_pending pkt
    if pending
        then (do e ← call (fs.remove_xattr h key); changed pkt (λ x. status_not_found) e)
        else answer pkt 0 set_info_response

  -- The name of the open follows the file's, where the open still stands in the table.
  abbrev pub rename_open : Text → Option Open → Handler D (Unit {0})
  rename_open to none = pure tt
  rename_open to (some o) = put_open (record o { path_name = to })

  abbrev pub renamed : ℕ → Text → Slice → Option FsError → Handler D (Unit {0})
  renamed h to pkt (some e) = refuse pkt (status_from_vfs_error (some e))
  renamed h to pkt none = do
    server ← get_server
    rename_open to (get_open h server)
    answer pkt 0 set_info_response

  unfoldable pub set_rename : ℕ → Slice → Handler D (Unit {0})
  set_rename h pkt = do
    info ← info_buffer pkt
    root ← lift (get_le 8 info 8)
    n ← lift (get_le 4 info 16)
    name ← lift (sub info 20 ((20 + n) % 2 ^ 32))
    replace ← lift (index info 0)
    let to = slashed (setting.of_utf16 (elements name))
    e ← call (fs.rename h to replace)
    renamed h to pkt e

  -- The `switch` on the class.
  abbrev pub set_class : ℕ → ℕ → Open → Slice → Handler D (Unit {0})
  set_class class h o pkt =
      if class == file_basic_information
      then set_basic_info h o pkt
      else if class == file_end_of_file_information
      then (if o.is_ea then set_end_of_file_info_ea h o.ea_key pkt else set_end_of_file_info h pkt)
      else if class == file_disposition_information
      then (if o.is_ea
          then set_disposition_info_ea h o.ea_key pkt
          else set_disposition_info h o pkt)
      else if class == file_rename_information && not o.is_ea
      then set_rename h pkt
      else if class == file_allocation_information
      then answer pkt 0 set_info_response
      else refuse pkt status_not_supported

  -- `setInfo`; the type 3 is that of security.
  unfoldable pub set_info : Option CompoundContext → Slice → Handler D (Unit {0})
  unfolding set_basic_info set_end_of_file_info set_end_of_file_info_ea set_disposition_info
      set_disposition_info_ea set_rename set_sec_info
  set_info ctx pkt = do
    r ← accept_or_nil smb2_set_info pkt
    id ← target_id 16 ctx r pkt
    o ← open_at (handle_id id) pkt
    info_type ← lift (index r 2)
    if info_type == 3
        then set_sec_info fs (handle_id id) pkt
        else (do class ← lift (index r 3); set_class class (handle_id id) o pkt)
