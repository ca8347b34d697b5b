-- ===== src/Packet/Header.antt =====
-- internal/smb2/packet.go, `PacketHeader` and `encodeHeader`.
use go_smb.Common.{ℕ, List, [], ◌∷◌, ◌++◌, ◌!=◌, if◌then◌else◌, Option}
use go_smb.Bytes.{Slice}
use go_smb.Bytes.Writes.{Write, copy_into, writes}
use go_smb.Packet.{
  put, structure_size, credit_charge, status, channel_sequence, command_field, credit_request,
  flags, next_command, message_id_field, async_id, tree_id, session_id,
}

pub record PacketHeader : Type 0 where
  pub credit_charge : ℕ
  pub channel_sequence : ℕ
  pub status : ℕ
  pub command : ℕ
  pub credit_request_response : ℕ
  pub flags : ℕ
  pub next_command : ℕ
  pub message_id : ℕ
  pub async_id : ℕ
  pub tree_id : ℕ
  pub session_id : ℕ

-- `new(XResponse)`: a header of zeros.
abbrev pub zero_header : PacketHeader
zero_header = record {
  credit_charge = 0;
  channel_sequence = 0;
  status = 0;
  command = 0;
  credit_request_response = 0;
  flags = 0;
  next_command = 0;
  message_id = 0;
  async_id = 0;
  tree_id = 0;
  session_id = 0;
}

-- "\xfeSMB".
abbrev pub magic : List ℕ
magic = 0xfe ∷ b'S' ∷ b'M' ∷ b'B' ∷ []

-- The first switch: the channel sequence has the place of the status.
abbrev pub status_writes : PacketHeader → List Write
status_writes h =
    if h.channel_sequence != 0
    then put channel_sequence h.channel_sequence ∷ []
    else if h.status != 0
    then put status h.status ∷ []
    else []

-- The second: an async id covers the tree id.
abbrev pub id_writes : PacketHeader → List Write
id_writes h =
    if h.async_id != 0
    then put async_id h.async_id ∷ []
    else if h.tree_id != 0
    then put tree_id h.tree_id ∷ []
    else []

-- The setters in the order of the code, on a slice of length `n`.
abbrev pub header_writes : ℕ → PacketHeader → List Write
header_writes n h =
    copy_into 0 n magic
    ∷ put structure_size 64
    ∷ put credit_charge h.credit_charge
    ∷ (status_writes h
        ++ (put command_field h.command
            ∷ put credit_request h.credit_request_response
            ∷ put flags h.flags
            ∷ put next_command h.next_command
            ∷ put message_id_field h.message_id
            ∷ (id_writes h ++ put session_id h.session_id ∷ [])))

unfoldable pub encode_header : PacketHeader → Slice → Option Slice
unfolding writes
encode_header h p = writes (header_writes p.len h) p
