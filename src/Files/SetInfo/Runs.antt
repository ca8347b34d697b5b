-- ===== src/Files/SetInfo/Runs.antt =====
-- A file is marked for deletion through its open.
use go_smb.Common.{ℕ, ◌≡◌, refl, true, false, none, some, [], ◌∷◌, ◌++◌, replicate}
use go_smb.Bytes.{Slice, of_list}
use go_smb.Vfs.{FileSystem, no_attributes, ok, regular_file}
use go_smb.Fixtures.{broken_fs, open_of}
use go_smb.Opens.Table.{Open, Server, new_server, is_delete_pending}
use go_smb.Files.{State, Progress}
use go_smb.Files.Still.{Leaves}
use go_smb.Files.SetInfo.{Setting, set_info}
use go_smb.Files.SetInfo.Tables.{IsSetOf, set_info-IsSetOf}

-- `SET_INFO` of message 8: the file of the handle 3 is to be deleted.
abbrev delete_packet : Slice
delete_packet = of_list (
    0xfe ∷ b'S' ∷ b'M' ∷ b'B' ∷ 64 ∷ 0 ∷ replicate 6 0
    ++ 17 ∷ 0 ∷ 1 ∷ replicate 9 0
    ++ 8 ∷ replicate 39 0
    ++ 33 ∷ 0 ∷ 1 ∷ 13 ∷ 1 ∷ replicate 11 0
    ++ 12 ∷ replicate 7 0
    ++ 3 ∷ replicate 7 0
    ++ 1 ∷ [])

abbrev file_fs : FileSystem ℕ
file_fs = record broken_fs {
  get_attr = λ h d. (d, ok (record no_attributes { file_type = some regular_file }));
}

abbrev strict : Setting
strict = record { ignore_set_attr_err = false; max_make = 4096; of_utf16 = λ t. t }

abbrev deletable : Open
deletable = record (open_of 3 12 false) { granted_access = 0x10000; posix_semantics = false }

abbrev with_open : State ℕ
with_open = record {
  disk = 0;
  server = record new_server { opens = (3, deletable) ∷ [] };
  aapl_extensions = false;
}

set_info-IsSetOf_example :
    Leaves
      (IsSetOf none delete_packet with_open.server)
      (set_info file_fs strict none delete_packet with_open)
set_info-IsSetOf_example = set_info-IsSetOf file_fs strict none delete_packet with_open

-- The node is marked.
marked_node :
    (s : State ℕ) × (p : Progress (Unit {0})) × (set_info file_fs strict none delete_packet
        with_open
      ≡ some (s, p))
    × (is_delete_pending 12 s.server ≡ true)
unfolding set_info go_smb.Packet.command go_smb.Bytes.read go_smb.Bytes.get_le go_smb.Packet.body
    go_smb.Bytes.from go_smb.Files.file_id_at go_smb.Files.is_invalid_file_id
    go_smb.Opens.Table.get_open go_smb.Bytes.index go_smb.Packet.message_id is_delete_pending
    go_smb.Opens.Table.set_delete_pending
marked_node = (_, _, refl, refl)
