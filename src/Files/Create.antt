-- ===== src/Files/Create.antt =====
-- server/file_tree.go, `create` and `handleCreateEA`. The
-- flags of `os.OpenFile`, UTF-16 and `filepath.Base` are parameters. The id that `create` leaves in the compound's
-- context is that of its answer.
pub mod Fields
pub mod Contexts
pub mod Ends
pub mod Steps
pub mod Adds
mod Runs
use go_smb.Common.{
  ℕ, zero, suc, ◌+◌, ◌-◌, ◌%◌, ◌^◌, Bool, true, false, not, ◌&&◌, ◌||◌, Option, none, some, List,
  [], ◌∷◌, ◌++◌, length, map, leb, ltb, ◌==◌, ◌!=◌, if◌then◌else◌, bit_and, bit_or,
}
use go_smb.Common.Texts.{Text}
use go_smb.Bytes.{Slice, index, get_le, sub, elements, encode_le}
use go_smb.Opens.Table.{
  Open, Server, OpLockState, lockstate_none, lockstate_held, is_delete_pending, add_open,
}
use go_smb.Vfs.{
  FileSystem, FsError, not_exist, Res, ok, err, Attributes, FileType, directory, symlink,
}
use go_smb.Vfs.Convert.{
  is_type, time_from_vfs, size_from_vfs, disk_size_from_vfs, permissions_from_vfs,
}
use go_smb.Files.{
  State, Progress, Handler, ◌>>=◌, ◌>>◌, pure, lift, call, get_server, put_server, fail, answer,
  refuse, refuse_if, accept, CreateResponse, create_response, ContextSent, status_access_denied,
  status_object_name_collision,
}
use go_smb.Files.Create.Contexts.{each_context, posix_perms_in}
pub use go_smb.Files.Create.Fields.{
  smb2_create, file_supersede, file_open, file_create, file_open_if, file_overwrite,
  file_overwrite_if, file_directory_file, file_delete_on_close, file_open_reparse_point, any_write,
  status_delete_pending, status_not_a_directory, status_no_such_file, status_object_path_not_found,
  status_object_name_not_found, status_open_failed, status_object_name_exists, Host, Request,
  slashed, path_of, is_ea, before_colon, after_colon, Existing, exists, is_of_type, has,
  is_invalid_create, valid_or_fail, create_name, create_contexts, request_of, existing_of,
}

-- What the disposition says: the flags of the open, the action of the answer, and whether a directory is made.
pub record Plan : Type 0 where
  pub flags : ℕ
  pub action : ℕ
  pub makes_dir : Bool

abbrev pub plan : ℕ → ℕ → Bool → Plan
plan flags action makes_dir = record { flags = flags; action = action; makes_dir = makes_dir }

-- The status of a refusal, or a plan.
pub data Decision : Type 0 where
  refused : ℕ → Decision
  planned : Plan → Decision

-- The `switch` on the disposition, by whether the file exists and whether a directory is wanted. The actions: 0 for
-- superseded, 1 opened, 2 created, 3 overwritten.
unfoldable pub decide : Host → ℕ → Bool → Bool → Decision
decide host d exists create_dir =
    if d == file_open_if
    then planned (plan host.o_create (if exists then 1 else 2) (not exists && create_dir))
    else if d == file_open
    then (if exists then planned (plan 0 1 false) else refused status_no_such_file)
    else if d == file_create
    then (if exists
        then refused status_object_name_collision
        else planned (plan (bit_or host.o_create host.o_excl) 2 create_dir))
    else if d == file_overwrite
    then (if exists
        then planned (plan (bit_or host.o_create host.o_trunc) 3 false)
        else refused status_no_such_file)
    else if d == file_overwrite_if
    then planned (plan (bit_or host.o_create host.o_trunc) (if exists then 3 else 2) false)
    else if d == file_supersede
    then planned (plan host.o_create (if exists then 0 else 2) false)
    else planned (plan 0 1 false)

-- The level of the answer, the flags to lock with, and the state.
abbrev pub oplock_of : ℕ → ℕ × ℕ × OpLockState
oplock_of level =
    if level == 0x1
    then (level, 0x10, lockstate_held)
    else if level == 0x8
    then (level, 0x20, lockstate_held)
    else if level == 0xff
    then (level, 0, lockstate_held)
    else (0, 0, lockstate_none)

-- A failed open or `Mkdir`.
abbrev pub status_of_missing : FsError → ℕ
status_of_missing not_exist = status_object_path_not_found
status_of_missing e = status_access_denied

abbrev pub existing_status : ℕ → ℕ
existing_status d =
    if d == file_create then status_object_name_collision else status_not_a_directory

module _ {D : Type 0} (fs : FileSystem D) (host : Host) where
  -- `handleCreateEA`: the status and whether there is an error; the status alone is not looked at.
  abbrev pub ea_outcome : Option FsError → ℕ × Bool
  ea_outcome none = (0, false)
  ea_outcome (some e) = (status_open_failed, true)

  abbrev pub set_ea : ℕ → Text → Handler D (ℕ × Bool)
  set_ea h key = do e ← call (fs.set_xattr h key []); pure (ea_outcome e)

  -- After `Getxattr`. For `FILE_OVERWRITE` the attribute is set in any case, and a status without an error is no refusal.
  abbrev pub ea_after_get : ℕ → ℕ → Text → Option FsError → Handler D (ℕ × Bool)
  ea_after_get d h key got =
      if d == file_open_if
      then (elim got [ none ↦ pure (0, false) | some e ↦ set_ea h key ])
      else if d == file_open
      then (elim got [
        | none ↦ pure (0, false)
        | some e ↦ pure (status_object_name_not_found, true)
      ])
      else if d == file_create
      then (elim got [ none ↦ pure (status_object_name_exists, true) | some e ↦ set_ea h key ])
      else set_ea h key

  abbrev pub handle_create_ea : ℕ → ℕ → Text → Handler D (ℕ × Bool)
  handle_create_ea d h key =
      if d == file_open_if || d == file_open || d == file_create || d == file_overwrite
      then (do (n, buf, got) ← call (fs.get_xattr h key 0); ea_after_get d h key got)
      else if d == file_supersede || d == file_overwrite_if
      then set_ea h key
      else pure (0, false)

  -- A file that is to be deleted is not opened again.
  abbrev pub refuse_pending : Existing → Slice → Handler D (Unit {0})
  refuse_pending none pkt = pure tt
  refuse_pending (some (t, a)) pkt = do
    node ← lift a.inode_number
    server ← get_server
    refuse_if (is_delete_pending node server) pkt status_delete_pending

  abbrev pub decided : Slice → Decision → Handler D Plan
  decided pkt (refused status) = refuse pkt status
  decided pkt (planned p) = pure p

  abbrev pub refuse_error : Slice → Option FsError → Handler D (Unit {0})
  refuse_error pkt none = pure tt
  refuse_error pkt (some e) = refuse pkt (status_of_missing e)

  abbrev pub ok_or_refuse : {A : Type 0} → Slice → Res A → Handler D A
  ok_or_refuse pkt (ok a) = pure a
  ok_or_refuse pkt (err e) = refuse pkt (status_of_missing e)

  abbrev pub make_dir : Bool → Text → ℕ → Slice → Handler D (Unit {0})
  make_dir false name mode pkt = pure tt
  make_dir true name mode pkt = do e ← call (fs.mkdir name mode); refuse_error pkt e

  -- A mode that is zero, or of a file that is only opened, is not the request's.
  abbrev pub mode_or : ℕ → ℕ → Option ℕ → ℕ
  mode_or default d none = default
  mode_or default d (some m) = if d == file_open || m == 0 then default else m

  -- The flags of the open of a file.
  abbrev pub open_flags : ℕ → Request → Bool → Existing → ℕ
  open_flags flags r ea found =
      let write_flag = if has r.access any_write then host.o_rdwr else 0 in
      let base = if ea then 0 else bit_or flags write_flag in
      if is_of_type symlink found && has r.options file_open_reparse_point
      then bit_or base 0x200000
      else base

  abbrev pub open_node : Bool → Text → ℕ → ℕ → Handler D (Res ℕ)
  open_node true name flags mode = call (fs.open_dir name)
  open_node false name flags mode = call (fs.open_file name flags mode)

  abbrev pub attach_ea : Bool → ℕ → ℕ → Text → Slice → Handler D (Unit {0})
  attach_ea false d h key pkt = pure tt
  attach_ea true d h key pkt = do
    (status, bad) ← handle_create_ea d h key
    if bad then (do e ← call (fs.close h); refuse pkt status) else pure tt

  -- The size of the answer: that of the file, or of the attribute.
  abbrev pub sizes : Bool → ℕ → Text → Attributes → Handler D (ℕ × ℕ)
  sizes false h key a = pure (size_from_vfs a, disk_size_from_vfs a)
  sizes true h key a = do (n, buf, e) ← call (fs.get_xattr h key 0); pure (n, n)

  abbrev pub put_added : Option Server → Handler D (Unit {0})
  put_added none = lift none
  put_added (some server) = put_server server

  -- The open, before its contexts are served.
  abbrev pub open_of : Request → Text → Bool → Text → Existing → ℕ → OpLockState → ℕ → ℕ → Open
  open_of q name ea key found level lock_state h node = record {
    file_id = h;
    durable_file_id = node;
    connected = true;
    granted_access = q.access;
    oplock_level = level;
    oplock_state = lock_state;
    is_durable = false;
    create_guid = 0;
    delete_on_close = has q.options file_delete_on_close;
    posix_semantics = host.posix_extensions;
    lease = none;
    path_name = name;
    is_ea = ea;
    ea_key = key;
    is_symlink = is_of_type symlink found && not (has q.options file_open_reparse_point);
    pending = [];
    single_name = [];
    single_done = false;
  }

  abbrev pub response_of : ℕ → ℕ → Attributes → ℕ → ℕ × ℕ → Open → List ContextSent → CreateResponse
  response_of level action a attributes size o contexts = record {
    oplock_level = level;
    create_action = action;
    creation_time = time_from_vfs a.b_time;
    last_access_time = time_from_vfs a.a_time;
    last_write_time = time_from_vfs a.m_time;
    change_time = time_from_vfs a.c_time;
    end_of_file = size.0;
    allocation_size = size.1;
    file_attributes = attributes;
    handle_id = o.file_id;
    node_id = o.durable_file_id;
    contexts = contexts;
  }

  -- From the open file on: the contexts are served, the open is added, and the answer sent.
  abbrev pub finish_create :
      Slice
      → Slice
      → Text
      → Bool
      → Text
      → Request
      → Existing
      → ℕ
      → ℕ × ℕ × OpLockState
      → ℕ
      → Attributes
      → Handler D (Unit {0})
  finish_create pkt r name ea key q found action lock h a = do
    node ← lift a.inode_number
    attributes ← lift (permissions_from_vfs a (host.base name))
    size ← sizes ea h key a
    cc ← create_contexts r
    (contexts, o) ←
        each_context fs (suc cc.len) host.posix_extensions a cc
          (open_of q name ea key found lock.0 lock.2 h node)
    server ← get_server
    put_added (add_open o server)
    answer pkt 0 (create_response (response_of lock.0 action a attributes size o contexts))

  -- From the checked request on: the disposition, the directory, and the open.
  abbrev pub open_found :
      Slice → Slice → Text → Bool → Text → Request → Existing → Option ℕ → Handler D (Unit {0})
  open_found pkt r name ea key q found perms = do
    p ← decided pkt (decide host q.disposition (exists found) (has q.options file_directory_file))
    make_dir p.makes_dir name (mode_or 0o777 q.disposition perms) pkt
    let lock = oplock_of q.oplock_level
    opened ←
        open_node (is_of_type directory found || p.makes_dir) name
          (open_flags (bit_or p.flags lock.1) q ea found) (mode_or 0o644 q.disposition perms)
    h ← ok_or_refuse pkt opened
    got ← call (fs.get_attr h)
    a ← ok_or_refuse pkt got
    attach_ea ea q.disposition h key pkt
    finish_create pkt r name ea key q found p.action lock h a

  abbrev pub perms_if_posix : Slice → Handler D (Option ℕ)
  perms_if_posix r =
      if host.posix_extensions
      then (do cc ← create_contexts r; posix_perms_in fs (suc cc.len) cc)
      else pure none

  -- `create`.
  unfoldable pub create : Slice → Handler D (Unit {0})
  create pkt = do
    data_of ← accept smb2_create pkt
    r ← valid_or_fail data_of
    given ← create_name host.of_utf16 r
    q ← request_of r
    let path = path_of given
    let ea = is_ea path
    let name = if ea then before_colon path else path
    let key : Text = if ea then after_colon path else []
    looked ← call (fs.lookup 0 name)
    found ← existing_of looked
    perms ← perms_if_posix r
    refuse_pending found pkt
    refuse_if
        (exists found && not (is_of_type directory found) && has q.options file_directory_file) pkt
        (existing_status q.disposition)
    refuse_if (ea && not (exists found)) pkt status_no_such_file
    open_found pkt r name ea key q found perms
