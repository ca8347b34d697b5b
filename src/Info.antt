-- ===== src/Info.antt =====
-- server/info_fs.go and server/file_tree.go (`newFile…Info`, `makeItem`): the entries of a directory listing on the wire.
-- `utf16` is the text in UTF-16LE (unicode/utf16). The POSIX entry and the resource fork of Apple are not modelled.
use go_smb.Common.{
  ℕ, ◌+◌, Bool, Option, none, some, List, [], ◌∷◌, ◌++◌, map, length, ◌==◌, ◌!=◌, if◌then◌else◌,
  ◌>>=◌, bit_and,
}
use go_smb.Common.Texts.{Text}
use go_smb.Bytes.{Slice}
use go_smb.Bytes.Writes.{Write, put_le, put_byte, copy_into, shift, writes}
use go_smb.Dtyp.{Filetime, filetime_writes}
use go_smb.Send.{align_8}
use go_smb.Vfs.{DirInfo}
use go_smb.Vfs.Convert.{
  time_from_vfs, size_from_vfs, disk_size_from_vfs, permissions_from_vfs, attribute_reparse_point,
  max_access_from_vfs, unix_mode_from_vfs,
}

-- The fields that all entries but that of the names have.
pub record Common : Type 0 where
  pub creation_time : Filetime
  pub last_access_time : Filetime
  pub last_write_time : Filetime
  pub change_time : Filetime
  pub end_of_file : ℕ
  pub allocation_size : ℕ
  pub file_attributes : ℕ

-- The types of entries, with their own fields and the name. `NextEntryOffset` is written by the list, `FileIndex` is 0.
pub data Item : Type 0 where
  file_directory : Common → Text → Item
  file_full_directory : (ea_size : ℕ) → Common → Text → Item
  file_both_directory : (ea_size : ℕ) → Common → Text → Item
  file_id_both_directory : (ea_size file_id : ℕ) → Common → Text → Item
  file_id_both_directory2 : (max_access unix_mode file_id : ℕ) → Common → Text → Item
  file_id_full_directory : (ea_size file_id : ℕ) → Common → Text → Item
  file_id_all_extd_both_directory : (ea_size file_id : ℕ) → Common → Text → Item
  file_names : Text → Item

abbrev pub file_name : Item → Text
file_name (file_directory c n) = n
file_name (file_full_directory ea c n) = n
file_name (file_both_directory ea c n) = n
file_name (file_id_both_directory ea id c n) = n
file_name (file_id_both_directory2 access mode id c n) = n
file_name (file_id_full_directory ea id c n) = n
file_name (file_id_all_extd_both_directory ea id c n) = n
file_name (file_names n) = n

-- Where the name stands.
abbrev pub name_offset : Item → ℕ
name_offset (file_directory c n) = 64
name_offset (file_full_directory ea c n) = 68
name_offset (file_both_directory ea c n) = 94
name_offset (file_id_both_directory ea id c n) = 104
name_offset (file_id_both_directory2 access mode id c n) = 104
name_offset (file_id_full_directory ea id c n) = 80
name_offset (file_id_all_extd_both_directory ea id c n) = 122
name_offset (file_names n) = 12

abbrev pub common_writes : Common → ℕ → List Write
common_writes c name_length =
    put_le 4 0 0 ∷ put_le 4 4 0 ∷ map (shift 8) (filetime_writes c.creation_time)
    ++ (map (shift 16) (filetime_writes c.last_access_time)
        ++ (map (shift 24) (filetime_writes c.last_write_time)
            ++ (map (shift 32) (filetime_writes c.change_time)
                ++ (put_le 8 40 c.end_of_file
                    ∷ put_le 8 48 c.allocation_size
                    ∷ put_le 4 56 c.file_attributes
                    ∷ put_le 4 60 name_length
                    ∷ []))))

module _ (utf16 : Text → List ℕ) where
  abbrev pub item_size : Item → ℕ
  item_size i = align_8 (name_offset i + length (utf16 (file_name i)))

  -- `utf16le.EncodeString(pkt[o:], name)`: a write of two bytes for each unit, which here is one write.
  abbrev pub name_writes : ℕ → Text → List Write
  name_writes o n = copy_into o (o + length (utf16 n)) (utf16 n) ∷ []

  abbrev pub item_writes : Item → List Write
  item_writes (file_directory c n) = common_writes c (length (utf16 n)) ++ name_writes 64 n
  item_writes (file_full_directory ea c n) =
      common_writes c (length (utf16 n)) ++ (put_le 4 64 ea ∷ name_writes 68 n)
  item_writes (file_both_directory ea c n) =
      common_writes c (length (utf16 n)) ++ (put_le 4 64 ea ∷ put_byte 68 0 ∷ name_writes 94 n)
  item_writes (file_id_both_directory ea id c n) =
      common_writes c (length (utf16 n)) ++ (put_le 4 64 ea ∷ put_le 8 96 id ∷ name_writes 104 n)
  item_writes (file_id_both_directory2 access mode id c n) =
      common_writes c (length (utf16 n))
      ++ (put_le 4 64 access
          ∷ put_byte 68 0
          ∷ put_le 8 70 0
          ∷ put_le 2 94 mode
          ∷ put_le 8 96 id
          ∷ name_writes 104 n)
  item_writes (file_id_full_directory ea id c n) =
      common_writes c (length (utf16 n)) ++ (put_le 4 64 ea ∷ put_le 8 72 id ∷ name_writes 80 n)
  item_writes (file_id_all_extd_both_directory ea id c n) =
      common_writes c (length (utf16 n))
      ++ (put_le 4 64 ea
          ∷ put_le 4 68 0
          ∷ put_le 8 72 id
          ∷ put_le 8 80 0
          ∷ put_le 8 88 0
          ∷ put_byte 96 0
          ∷ put_byte 97 0
          ∷ name_writes 122 n)
  item_writes (file_names n) =
      put_le 4 0 0 ∷ put_le 8 4 0 ∷ put_le 4 8 (length (utf16 n)) ∷ name_writes 12 n

  -- `FileInformationInfoResponse`.
  abbrev pub info_size : List Item → ℕ
  info_size [] = 0
  info_size (i ∷ items) = item_size i + info_size items

  -- The writes of `Encode`, from an offset on: each entry, then its distance to the next, 0 for the last.
  abbrev pub info_writes : ℕ → List Item → List Write
  info_writes off [] = []
  info_writes off (i ∷ []) = map (shift off) (item_writes i) ++ (put_le 4 off 0 ∷ [])
  info_writes off (i ∷ j ∷ items) =
      map (shift off) (item_writes i)
      ++ (put_le 4 off (item_size i) ∷ info_writes (off + item_size i) (j ∷ items))

  unfoldable pub encode_info : List Item → Slice → Option Slice
  encode_info items pkt = writes (info_writes 0 items) pkt

-- The classes that `makeItem` knows.
abbrev pub file_directory_information : ℕ
file_directory_information = 1

abbrev pub file_full_directory_information : ℕ
file_full_directory_information = 2

abbrev pub file_both_directory_information : ℕ
file_both_directory_information = 3

abbrev pub file_names_information : ℕ
file_names_information = 12

abbrev pub file_id_both_directory_information : ℕ
file_id_both_directory_information = 37

abbrev pub file_id_full_directory_information : ℕ
file_id_full_directory_information = 38

abbrev pub file_id_all_extd_both_directory_information : ℕ
file_id_all_extd_both_directory_information = 81

abbrev pub io_reparse_tag_symlink : ℕ
io_reparse_tag_symlink = 0xa000_000c

-- `if info.FileAttributes&FILE_ATTRIBUTE_REPARSE_POINT != 0`: the tag in place of another value.
abbrev pub tag_or : ℕ → ℕ → ℕ
tag_or attributes other =
    if bit_and attributes attribute_reparse_point != 0 then io_reparse_tag_symlink else other

-- `base` is `filepath.Base`.
module _ (base : Text → Text) where
  abbrev pub common_of : DirInfo → Option Common
  common_of d = do
    attributes ← permissions_from_vfs d.attributes (base d.name)
    some (record {
      creation_time = time_from_vfs d.attributes.b_time;
      last_access_time = time_from_vfs d.attributes.a_time;
      last_write_time = time_from_vfs d.attributes.m_time;
      change_time = time_from_vfs d.attributes.c_time;
      end_of_file = size_from_vfs d.attributes;
      allocation_size = disk_size_from_vfs d.attributes;
      file_attributes = attributes;
    })

  -- The outer `none` is a panic, the inner the nil of an unknown class.
  unfoldable pub make_item : Bool → ℕ → DirInfo → Option (Option Item)
  make_item aapl class d =
      if class == file_both_directory_information
      then (do
        c ← common_of d
        some (some (file_both_directory (tag_or c.file_attributes 0) c d.name)))
      else if class == file_names_information
      then some (some (file_names d.name))
      else if class == file_id_both_directory_information
      then (if aapl
          then (do
            id ← d.attributes.inode_number
            mode ← unix_mode_from_vfs d.attributes
            c ← common_of d
            some (
                some (
                  file_id_both_directory2
                    (tag_or c.file_attributes (max_access_from_vfs d.attributes)) mode id c
                    d.name)))
          else (do
            id ← d.attributes.inode_number
            c ← common_of d
            some (some (file_id_both_directory (tag_or c.file_attributes 0) id c d.name))))
      else if class == file_directory_information
      then (do c ← common_of d; some (some (file_directory c d.name)))
      else if class == file_full_directory_information
      then (do
        c ← common_of d
        some (some (file_full_directory (tag_or c.file_attributes 0) c d.name)))
      else if class == file_id_full_directory_information
      then (do
        c ← common_of d
        some (some (file_id_full_directory (tag_or c.file_attributes 0) 0 c d.name)))
      else if class == file_id_all_extd_both_directory_information
      then (do
        id ← d.attributes.inode_number
        c ← common_of d
        some (some (file_id_all_extd_both_directory (tag_or c.file_attributes 0) id c d.name)))
      else some none
