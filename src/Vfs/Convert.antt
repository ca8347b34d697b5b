-- ===== src/Vfs/Convert.antt =====
-- internal/smb2/util.go: what the wire says of a file, from its attributes.
use go_smb.Common.{
  ℕ, Bool, true, false, Option, none, some, [], ◌∷◌, ◌==◌, ◌!=◌, ◌&&◌, if◌then◌else◌, ◌>>=◌, ◌%◌,
  ◌^◌, bit_and, bit_or,
}
use go_smb.Common.Texts.{Text}
use go_smb.Dtyp.{Filetime, nsec_to_filetime}
use go_smb.Vfs.{
  FileType, regular_file, directory, symlink, Attributes, or_if, permissions_read,
  permissions_write, permissions_execute,
}

abbrev pub zero_filetime : Filetime
zero_filetime = record { low_date_time = 0; high_date_time = 0 }

-- `BirthTimeFromVfs`, `AccessTimeFromVfs`, `ModifiedTimeFromVfs` and `ChangeTimeFromVfs`, of their field.
abbrev pub time_from_vfs : Option ℕ → Filetime
time_from_vfs none = zero_filetime
time_from_vfs (some t) = nsec_to_filetime t

abbrev pub or_default : ℕ → Option ℕ → ℕ
or_default d none = d
or_default d (some v) = v

abbrev pub size_from_vfs : Attributes → ℕ
size_from_vfs a = or_default 0 a.size_bytes

abbrev pub disk_size_from_vfs : Attributes → ℕ
disk_size_from_vfs a = or_default (size_from_vfs a) a.disk_size

abbrev pub is_type : FileType → FileType → Bool
is_type regular_file regular_file = true
is_type directory directory = true
is_type symlink symlink = true
is_type t u = false

abbrev pub type_bits : FileType → ℕ
type_bits directory = 0x4000
type_bits regular_file = 0x8000
type_bits symlink = 0xa000
type_bits t = 0

unfoldable pub unix_mode_from_vfs : Attributes → Option ℕ
unix_mode_from_vfs a = do
  t ← a.file_type
  some (bit_or (or_default 0o777 a.unix_mode % 2 ^ 16) (type_bits t))

abbrev pub attribute_readonly : ℕ
attribute_readonly = 0x1

abbrev pub attribute_hidden : ℕ
attribute_hidden = 0x2

abbrev pub attribute_directory : ℕ
attribute_directory = 0x10

abbrev pub attribute_archive : ℕ
attribute_archive = 0x20

abbrev pub attribute_normal : ℕ
attribute_normal = 0x80

abbrev pub attribute_reparse_point : ℕ
attribute_reparse_point = 0x400

-- The permissions, if there are any, replace what the name gave.
abbrev pub with_permissions : Option ℕ → ℕ → ℕ
with_permissions none perm = perm
with_permissions (some p) perm =
    if bit_and p permissions_write == 0
      && (bit_and p permissions_read == 0 && bit_and p permissions_execute == 0)
    then attribute_hidden
    else if bit_and p permissions_write == 0
    then attribute_readonly
    else perm

abbrev pub type_attribute : FileType → ℕ
type_attribute regular_file = attribute_archive
type_attribute directory = attribute_directory
type_attribute symlink = attribute_reparse_point
type_attribute t = 0

abbrev pub starts_with_dot : Text → Bool
starts_with_dot [] = false
starts_with_dot (c ∷ rest) = c == b'.'

-- `PermissionsFromVfs`, of the name without its directory (`filepath.Base` is a parameter of the handlers).
unfoldable pub permissions_from_vfs : Attributes → Text → Option ℕ
permissions_from_vfs a name = do
  t ← a.file_type
  let perm =
      bit_or
        (with_permissions a.permissions
          (or_if (starts_with_dot name) (bit_or attribute_hidden attribute_archive) 0))
        (type_attribute t)
  some (if perm == 0 then attribute_normal else perm)

-- `MaxAccessFromVfs`. The access rights are summed up as in the code: read attributes, data and EA; and so on.
unfoldable pub max_access_from_vfs : Attributes → ℕ
max_access_from_vfs a =
    let mode = or_default 0o777 a.unix_mode in
    let read = or_if (bit_and mode 0o404 != 0) 0x89 0x100000 in
    let control = or_if (bit_and mode 0o404 != 0 && (bit_and mode 0o400 != 0)) 0x20000 read in
    let written = or_if (bit_and mode 0o202 != 0) 0x116 control in
    let owned = or_if (bit_and mode 0o202 != 0 && (bit_and mode 0o200 != 0)) 0xd0040 written in
    or_if (bit_and mode 0o101 != 0) 0x20 owned
