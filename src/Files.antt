-- ===== src/Files.antt =====
-- server/file_tree.go: the requests on files. A handler runs on the disk, a parameter that it calls as a
-- `vfs.VFSFileSystem`, on the server's tables and on the tree's flag; it may answer early, end the connection with an
-- error, or panic. What several handlers share.
pub mod Calm
pub mod Create
pub mod Directory
pub mod Io
pub mod Security
pub mod SetInfo
pub mod Still
use go_smb.Common.{
  ℕ, ◌+◌, ◌-◌, Bool, true, false, not, ◌&&◌, ◌||◌, Option, none, some, List, [], ◌∷◌, ◌++◌, length,
  take, drop, replicate, ◌==◌, ◌!=◌, if◌then◌else◌, bit_and, bit_or,
}
use go_smb.Common.Texts.{Text, equal_bytes}
use go_smb.Bytes.{Slice, read, decode_le}
use go_smb.Packet
use go_smb.Packet.{get, command, credit_request, message_id, flags, body, flags_server_to_redir}
use go_smb.Packet.Header.{PacketHeader, zero_header}
use go_smb.Dtyp.{Filetime}
use go_smb.Oplock.{FileId}
use go_smb.Acl.{SecurityDescriptor}
use go_smb.Info.{Item}
use go_smb.Common.Assoc.{insert}
use go_smb.Opens.Table.{Server, Open, get_open}
use mathlib.Core.Option as Option
use go_smb.Vfs.{FsError, enospc, not_exist, exist, permission, ebadf, Res, ok, err}

-- `CreateContext` of a response: its name, and the numbers of its data in the order of their encoding.
pub record ContextSent : Type 0 where
  pub name : Text
  pub values : List ℕ

pub record CreateResponse : Type 0 where
  pub oplock_level : ℕ
  pub create_action : ℕ
  pub creation_time : Filetime
  pub last_access_time : Filetime
  pub last_write_time : Filetime
  pub change_time : Filetime
  pub end_of_file : ℕ
  pub allocation_size : ℕ
  pub file_attributes : ℕ
  pub handle_id : ℕ
  pub node_id : ℕ
  pub contexts : List ContextSent

-- What is sent behind the header.
pub data Body : Type 0 where
  error_response : Body
  create_response : CreateResponse → Body
  read_response : List ℕ → Body
  write_response : ℕ → Body
  flush_response : Body
  lock_response : Body
  set_info_response : Body
  query_directory_response : List Item → Body
  security_response : SecurityDescriptor → Body

pub record Sent : Type 0 where
  pub header : PacketHeader
  pub body : Body

-- `aapl_extensions` is the tree's flag.
pub record State (D : Type 0) : Type 0 where
  pub disk : D
  pub server : Server
  pub aapl_extensions : Bool

-- The handler goes on with a result, has sent its answers, or returns an error that ends `Run`.
pub data Progress (A : Type 0) : Type 0 where
  done : A → Progress A
  answered : List Sent → Progress A
  failed : Progress A

-- `none` for a panic.
abbrev pub Handler : Type 0 → Type 0 → Type 0
Handler D A = State D → Option (State D × Progress A)

module _ {D : Type 0} where
  infixl 5 ◌>>=◌ ◌>>◌
  abbrev pub next :
      {A B : Type 0}
      → (A → Handler D B)
      → Option (State D × Progress A)
      → Option (State D × Progress B)
  next f none = none
  next f (some (s, done a)) = f a s
  next f (some (s, answered sent)) = some (s, answered sent)
  next f (some (s, failed)) = some (s, failed)

  abbrev pub ◌>>=◌ : {A B : Type 0} → Handler D A → (A → Handler D B) → Handler D B
  (m >>= f) s = next f (m s)

  abbrev pub ◌>>◌ : {A B : Type 0} → Handler D A → Handler D B → Handler D B
  (m >> f) s = next (λ a. f) (m s)

  abbrev pub pure : {A : Type 0} → A → Handler D A
  pure a s = some (s, done a)

  abbrev pub lift : {A : Type 0} → Option A → Handler D A
  lift none s = none
  lift (some a) s = some (s, done a)

  abbrev pub called : {A : Type 0} → State D → D × A → Option (State D × Progress A)
  called s (d, a) = some (record s { disk = d }, done a)

  -- A call of the file system.
  abbrev pub call : {A : Type 0} → (D → D × A) → Handler D A
  call f s = called s (f s.disk)

  abbrev pub get_server : Handler D Server
  get_server s = some (s, done s.server)

  abbrev pub put_server : Server → Handler D (Unit {0})
  put_server server s = some (record s { server = server }, done tt)

  abbrev pub get_aapl : Handler D Bool
  get_aapl s = some (s, done s.aapl_extensions)

  abbrev pub fail : {A : Type 0} → Handler D A
  fail s = some (s, failed)

  abbrev pub send : {A : Type 0} → List Sent → Handler D A
  send sent s = some (s, answered sent)

abbrev pub or_nil : Option Slice → Slice
or_nil none = record { bytes = []; len = 0 }
or_nil (some r) = r

abbrev pub flags_priority_mask : ℕ
flags_priority_mask = 0x70

abbrev pub flags_async_command : ℕ
flags_async_command = 0x2

module _ {D : Type 0} where
  -- `PrepareResponse`.
  abbrev pub prepare_response : Slice → ℕ → Handler D PacketHeader
  prepare_response pkt status = do
    c ← lift (command pkt)
    credits ← lift (get credit_request pkt)
    id ← lift (message_id pkt)
    f ← lift (get flags pkt)
    pure (record zero_header {
      command = c;
      credit_request_response = credits;
      message_id = id;
      flags = bit_or 1 (bit_and f flags_priority_mask);
      status = status;
    })

  -- `PrepareAsyncResponse`.
  abbrev pub prepare_async_response : Slice → ℕ → ℕ → Handler D PacketHeader
  prepare_async_response pkt async_id status = do
    c ← lift (command pkt)
    credits ← lift (get credit_request pkt)
    id ← lift (message_id pkt)
    pure (record zero_header {
      command = c;
      credit_request_response = if status != 0 then credits else 0;
      message_id = id;
      flags =
          if async_id != 0
          then bit_or flags_server_to_redir flags_async_command
          else flags_server_to_redir;
      status = status;
      async_id = async_id;
    })

  -- An answer with its body.
  abbrev pub answer : {A : Type 0} → Slice → ℕ → Body → Handler D A
  answer pkt status b = do
    h ← prepare_response pkt status
    send (record { header = h; body = b } ∷ [])

  abbrev pub refuse : {A : Type 0} → Slice → ℕ → Handler D A
  refuse pkt status = answer pkt status error_response

  -- `if b { … return }`.
  abbrev pub refuse_if : Bool → Slice → ℕ → Handler D (Unit {0})
  refuse_if true pkt status = refuse pkt status
  refuse_if false pkt status = pure tt

  abbrev pub accepted : Bool → Bool → Slice → Handler D (Option Slice)
  accepted request succeeded pkt =
      if request || succeeded
      then (do data_of ← lift (body pkt); pure (some data_of))
      else pure none

  -- `accept` for the command of a request on a file: no data for another command, nor for a packet with the flag of a
  -- response and a status that is an error.
  abbrev pub accept : ℕ → Slice → Handler D (Option Slice)
  accept cmd pkt = do
    c ← lift (command pkt)
    f ← lift (get flags pkt)
    st ← lift (get Packet.status pkt)
    if c == cmd then accepted (bit_and f flags_server_to_redir == 0) (st == 0) pkt else pure none

  -- `res, _ := accept(…)`: a nil slice where there is no data.
  abbrev pub accept_or_nil : ℕ → Slice → Handler D Slice
  accept_or_nil cmd pkt = do r ← accept cmd pkt; pure (or_nil r)

-- The volatile half of an id is the handle, the persistent half the node.
abbrev pub handle_id : FileId → ℕ
handle_id f = decode_le f.volatile

abbrev pub node_id : FileId → ℕ
node_id f = decode_le f.persistent

-- `r.FileId().Decode()`, of the 16 bytes from `o` on.
unfoldable pub file_id_at : ℕ → Slice → Option FileId
file_id_at o r =
    Option.map (λ bs. record { persistent = take 8 bs; volatile = drop 8 bs }) (read r o 16)

abbrev pub no_file_id : List ℕ
no_file_id = replicate 8 0xff

-- `IsInvalidFileId`, of a pointer that is not nil.
unfoldable pub is_invalid_file_id : FileId → Bool
is_invalid_file_id f = equal_bytes f.persistent no_file_id && equal_bytes f.volatile no_file_id

-- A `compoundContext`: what the handlers of files read of it, and the id that `create` leaves there.
pub record CompoundContext : Type 0 where
  pub file_id : Option FileId
  pub last_status : ℕ

-- `if ctx != nil && ctx.fileId != nil { fileId = ctx.fileId }`.
abbrev pub target : Option CompoundContext → FileId → FileId
target none own = own
target (some ctx) own = elim ctx.file_id [ none ↦ own | some f ↦ f ]

abbrev pub status_invalid_handle : ℕ
status_invalid_handle = 0xc000_0008

abbrev pub status_access_denied : ℕ
status_access_denied = 0xc000_0022

abbrev pub status_object_name_collision : ℕ
status_object_name_collision = 0xc000_0035

abbrev pub status_not_supported : ℕ
status_not_supported = 0xc000_00bb

-- `statusFromVFSError`, of an error that one of its tests holds of at most.
abbrev pub status_from_vfs_error : Option FsError → ℕ
status_from_vfs_error none = 0
status_from_vfs_error (some enospc) = 0xc000_007f
status_from_vfs_error (some not_exist) = 0xc000_0034
status_from_vfs_error (some exist) = status_object_name_collision
status_from_vfs_error (some permission) = status_access_denied
status_from_vfs_error (some ebadf) = status_invalid_handle
status_from_vfs_error (some e) = 0xc000_0185

module _ {D : Type 0} where
  abbrev pub found_or_refuse : Slice → Option Open → Handler D Open
  found_or_refuse pkt none = refuse pkt status_invalid_handle
  found_or_refuse pkt (some o) = pure o

  -- The id that the request is about, refused where it is the invalid one.
  abbrev pub target_id : ℕ → Option CompoundContext → Slice → Slice → Handler D FileId
  target_id o ctx r pkt = do
    own ← lift (file_id_at o r)
    refuse_if (is_invalid_file_id (target ctx own)) pkt status_invalid_handle
    pure (target ctx own)

  -- The open of a handle, or the refusal where there is none.
  abbrev pub open_at : ℕ → Slice → Handler D Open
  open_at h pkt = do server ← get_server; found_or_refuse pkt (get_open h server)

  -- A field of an open is assigned: the open stands in the table.
  abbrev pub put_open : Open → Handler D (Unit {0})
  put_open o = do
    server ← get_server
    put_server (record server { opens = insert o.file_id o server.opens })
