-- ===== src/Vfs.antt =====
-- vfs/: what the server knows of a file (`Attributes`, `DirInfo`, `Permissions`) and the interface of a file system
-- (`VFSFileSystem`), which is a parameter of the handlers. `time.Time` is its Unix time in nanoseconds.
pub mod Convert
use go_smb.Common.{
  ℕ, Bool, true, false, Option, none, some, List, [], ◌∷◌, ◌!=◌, if◌then◌else◌, bit_and, bit_or,
}
use go_smb.Common.Texts.{Text}

pub data FileType : Type 0 where
  regular_file directory symlink block_device character_device fifo socket named_attribute_dir
        named_attribute other_type :
      FileType

-- A field that is not present is `none`. A getter that panics where the field is not present has that as its `none`.
pub record Attributes : Type 0 where
  pub file_type : Option FileType
  pub inode_number : Option ℕ
  pub device_number : Option ℕ
  pub m_time : Option ℕ
  pub a_time : Option ℕ
  pub c_time : Option ℕ
  pub b_time : Option ℕ
  pub link_count : Option ℕ
  pub permissions : Option ℕ
  pub size_bytes : Option ℕ
  pub disk_size : Option ℕ
  pub uid : Option ℕ
  pub gid : Option ℕ
  pub unix_mode : Option ℕ

abbrev pub no_attributes : Attributes
no_attributes = record {
  file_type = none;
  inode_number = none;
  device_number = none;
  m_time = none;
  a_time = none;
  c_time = none;
  b_time = none;
  link_count = none;
  permissions = none;
  size_bytes = none;
  disk_size = none;
  uid = none;
  gid = none;
  unix_mode = none;
}

pub record DirInfo : Type 0 where
  pub name : Text
  pub attributes : Attributes

-- vfs/permissions.go.
abbrev pub permissions_read : ℕ
permissions_read = 1

abbrev pub permissions_write : ℕ
permissions_write = 2

abbrev pub permissions_execute : ℕ
permissions_execute = 4

-- `if flag { m |= bits }`.
abbrev pub or_if : Bool → ℕ → ℕ → ℕ
or_if flag bits m = if flag then bit_or m bits else m

unfoldable pub new_permissions_from_mode : ℕ → ℕ
new_permissions_from_mode m = or_if (bit_and m 0o111 != 0) permissions_execute (
    or_if (bit_and m 0o222 != 0) permissions_write
      (or_if (bit_and m 0o444 != 0) permissions_read 0))

unfoldable pub to_mode : ℕ → ℕ
to_mode p = or_if (bit_and p permissions_execute != 0) 0o111 (
    or_if (bit_and p permissions_write != 0) 0o200
      (or_if (bit_and p permissions_read != 0) 0o444 0))

-- What the code asks of an error (`errors.Is`, `os.IsNotExist`, `== io.EOF`).
pub data FsError : Type 0 where
  enospc not_exist exist permission ebadf eof other_error : FsError

pub data Res (A : Type 0) : Type 0 where
  ok : A → Res A
  err : FsError → Res A

-- `ReadDirContinue` and `ReadDirRestart`.
abbrev pub read_dir_continue : ℕ
read_dir_continue = 0

abbrev pub read_dir_restart : ℕ
read_dir_restart = 1

-- The interface, over the states `D` of the disk: the calls that the modelled requests make. A call that fills a buffer
-- is given the buffer's length, and answers the count it returns, the buffer, and an error or none.
pub record FileSystem (D : Type 0) : Type 0 where
  pub lookup : ℕ → Text → D → D × Res Attributes
  pub mkdir : Text → ℕ → D → D × Option FsError
  pub open_file : Text → ℕ → ℕ → D → D × Res ℕ
  pub open_dir : Text → D → D × Res ℕ
  pub get_attr : ℕ → D → D × Res Attributes
  pub set_attr : ℕ → Attributes → D → D × Option FsError
  pub close : ℕ → D → D × Option FsError
  pub flush : ℕ → D → D × Option FsError
  pub read : ℕ → ℕ → ℕ → D → D × (ℕ × List ℕ × Option FsError)
  pub write : ℕ → List ℕ → ℕ → ℕ → D → D × (ℕ × Option FsError)
  pub read_dir : ℕ → ℕ → ℕ → D → D × Res (List DirInfo)
  pub unlink : ℕ → D → D × Option FsError
  pub truncate : ℕ → ℕ → D → D × Option FsError
  pub rename : ℕ → Text → ℕ → D → D × Option FsError
  pub get_xattr : ℕ → Text → ℕ → D → D × (ℕ × List ℕ × Option FsError)
  pub set_xattr : ℕ → Text → List ℕ → D → D × Option FsError
  pub remove_xattr : ℕ → Text → D → D × Option FsError
