-- ===== src/Files/Create/Runs.antt =====
-- A file is opened by its name.
use go_smb.Common.{ℕ, ◌≡◌, refl, ◌+◌, false, some, [], ◌∷◌, ◌++◌, replicate, length}
use go_smb.Bytes.{Slice, of_list}
use go_smb.Vfs.{FileSystem, Attributes, no_attributes, ok, regular_file}
use go_smb.Fixtures.{broken_fs}
use go_smb.Opens.Table.{new_server}
use go_smb.Files.{State, Progress}
use go_smb.Files.Create.{Host, create}
use go_smb.Files.Create.Ends.{Ends}
use go_smb.Files.Create.Adds.{create_adds}

-- `CREATE` of message 7: the file "a" is to be opened, for reading.
abbrev create_packet : Slice
create_packet = of_list (
    0xfe ∷ b'S' ∷ b'M' ∷ b'B' ∷ 64 ∷ 0 ∷ replicate 6 0
    ++ 5 ∷ 0 ∷ 1 ∷ replicate 9 0
    ++ 7 ∷ replicate 39 0
    ++ 57 ∷ replicate 23 0
    ++ 1 ∷ replicate 11 0
    ++ 1 ∷ replicate 7 0
    ++ 120 ∷ 0 ∷ 1 ∷ replicate 9 0
    ++ b'a' ∷ [])

abbrev plain_file : Attributes
plain_file = record no_attributes { file_type = some regular_file; inode_number = some 12 }

abbrev one_file_fs : FileSystem ℕ
one_file_fs = record broken_fs {
  lookup = λ h p d. (d, ok plain_file);
  open_file = λ p flags mode d. (d + 1, ok d);
  get_attr = λ h d. (d, ok plain_file);
}

abbrev linux : Host
linux = record {
  o_create = 0o100;
  o_excl = 0o200;
  o_trunc = 0o1000;
  o_rdwr = 2;
  of_utf16 = λ t. t;
  base = λ t. t;
  posix_extensions = false;
}

abbrev at_start : State ℕ
at_start = record { disk = 3; server = new_server; aapl_extensions = false }

create_adds_example :
    Ends one_file_fs new_server 3 (create one_file_fs linux create_packet at_start)
create_adds_example = create_adds one_file_fs linux create_packet at_start

-- It succeeds: the disk has opened the file, and one open stands in the table.
opened_one :
    (s : State ℕ) × (p : Progress (Unit {0})) × (create one_file_fs linux create_packet at_start
      ≡ some (s, p))
    × (s.disk ≡ 4)
    × (length s.server.opens ≡ 1)
unfolding create go_smb.Packet.command go_smb.Bytes.read go_smb.Bytes.get_le go_smb.Packet.body
    go_smb.Bytes.from go_smb.Bytes.sub go_smb.Bytes.index go_smb.Opens.Table.is_delete_pending
    go_smb.Files.Create.decide go_smb.Vfs.Convert.permissions_from_vfs go_smb.Opens.Table.add_open
    go_smb.Packet.message_id
opened_one = (_, _, refl, refl, refl)
