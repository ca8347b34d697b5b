-- ===== src/Files/Io/Runs.antt =====
-- A read of two bytes, answered later.
use go_smb.Common.{ℕ, ◌≡◌, refl, false, none, some, List, [], ◌∷◌, ◌++◌, replicate, length}
use go_smb.Bytes.{Slice, of_list}
use go_smb.Vfs.{FileSystem}
use go_smb.Fixtures.{broken_fs, open_of}
use go_smb.Opens.Table.{Server, new_server}
use go_smb.Files.{State, Progress, Sent, answered}
use go_smb.Files.Io.{read_file, write_file}
use go_smb.Files.Io.Answers.{Replied, read_write-Replied}

-- `READ` of message 9: two bytes of the handle 3.
abbrev read_packet : Slice
read_packet = of_list (
    0xfe ∷ b'S' ∷ b'M' ∷ b'B' ∷ 64 ∷ 0 ∷ replicate 6 0
    ++ 8 ∷ 0 ∷ 1 ∷ replicate 9 0
    ++ 9 ∷ replicate 39 0
    ++ 49 ∷ 0 ∷ 0 ∷ 0 ∷ 2 ∷ replicate 11 0
    ++ 12 ∷ replicate 7 0
    ++ 3 ∷ replicate 7 0
    ++ replicate 17 0)

abbrev two_byte_fs : FileSystem ℕ
two_byte_fs = record broken_fs { read = λ h n o d. (d, (2, 104 ∷ 105 ∷ [], none)) }

abbrev with_open : State ℕ
with_open = record {
  disk = 0;
  server = record new_server { opens = (3, open_of 3 12 false) ∷ [] };
  aapl_extensions = false;
}

read_write-Replied_example :
    Replied read_packet 77 with_open.server (read_file two_byte_fs 77 none read_packet with_open)
    × Replied read_packet 77 with_open.server (write_file two_byte_fs 77 none read_packet with_open)
read_write-Replied_example = read_write-Replied two_byte_fs 77 none read_packet with_open

-- It is answered by two responses.
answered_twice :
    (s : State ℕ) × (sent : List Sent) × (read_file two_byte_fs 77 none read_packet with_open
      ≡ some (s, answered sent))
    × (length sent ≡ 2)
unfolding read_file go_smb.Packet.command go_smb.Bytes.read go_smb.Bytes.get_le go_smb.Packet.body
    go_smb.Bytes.from go_smb.Files.file_id_at go_smb.Files.is_invalid_file_id
    go_smb.Opens.Table.get_open go_smb.Bytes.index go_smb.Packet.message_id
answered_twice = (_, _, refl, refl)
