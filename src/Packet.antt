-- ===== src/Packet.antt =====
-- internal/smb2/packet.go, `PacketCodec`: the SMB2 header as a view of a byte slice. A getter panics
-- (`none`) where Go's slice expression does.
pub mod Header
pub mod Transform
pub mod Valid
pub mod HeaderLaws
mod Runs
use go_smb.Common.{
  ℕ, ◌+◌, ◌≤◌, ◌≡◌, Bool, true, false, not, ◌&&◌, ◌||◌, Option, none, some, List, [], ◌∷◌, length,
  get_elem?, leb, ltb, ◌==◌, ◌!=◌, if◌then◌else◌, ◌>>=◌, bit_and,
}
use go_smb.Bytes.{Slice, read, index, get_le, from}
use go_smb.Bytes.Writes.{Write, put_le}

-- A fixed-width number at a fixed place: what one getter reads and its setter writes.
pub record Field : Type 0 where
  pub at : ℕ
  pub width : ℕ

abbrev pub field : ℕ → ℕ → Field
field at width = record { at = at; width = width }

unfoldable pub get : Field → Slice → Option ℕ
get f p = get_le f.width p f.at

abbrev pub put : Field → ℕ → Write
put f v = put_le f.width f.at v

abbrev pub structure_size : Field
structure_size = field 4 2

abbrev pub credit_charge : Field
credit_charge = field 6 2

abbrev pub status : Field
status = field 8 4

abbrev pub channel_sequence : Field
channel_sequence = field 8 2

abbrev pub command_field : Field
command_field = field 12 2

abbrev pub credit_request : Field
credit_request = field 14 2

abbrev pub flags : Field
flags = field 16 4

abbrev pub next_command : Field
next_command = field 20 4

abbrev pub message_id_field : Field
message_id_field = field 24 8

abbrev pub async_id : Field
async_id = field 32 8

abbrev pub tree_id : Field
tree_id = field 36 4

abbrev pub session_id : Field
session_id = field 40 8

-- `p[48:64]`.
unfoldable pub signature : Slice → Option (List ℕ)
signature p = read p 48 16

-- `p[64:]`.
unfoldable pub body : Slice → Option Slice
body p = from p 64

abbrev pub smb_com_negotiate : ℕ
smb_com_negotiate = 0x72

-- The bytes after the first of both magics.
abbrev pub is_smb : List ℕ → Bool
is_smb (a ∷ b ∷ c ∷ rest) = a == b'S' && (b == b'M' && c == b'B')
is_smb _ = false

-- The four tests on `magic[0]` to `magic[3]`.
abbrev pub has_magic : ℕ → List ℕ → Bool
has_magic first [] = false
has_magic first (m ∷ rest) = m == first && is_smb rest

-- `ProtocolId`: nil for a short slice.
unfoldable pub protocol_id : Slice → Option (List ℕ)
protocol_id p = if ltb p.len 4 then some [] else read p 0 4

unfoldable pub is_smb1 : Slice → Option Bool
unfolding protocol_id
is_smb1 p =
    if ltb p.len 4 then some false else do magic ← protocol_id p; some (has_magic 0xff magic)

-- The first byte behind the magic decides for an SMB1 packet.
unfoldable pub is_invalid_smb1 : Slice → Option Bool
is_invalid_smb1 p =
    if ltb p.len 5 then some true else do b ← index p 4; some (b != smb_com_negotiate)

unfoldable pub is_invalid_smb2 : Slice → Option Bool
unfolding protocol_id get
is_invalid_smb2 p = if ltb p.len 64 then some true else do
  magic ← protocol_id p
  size ← get structure_size p
  next ← get next_command p
  some (not (has_magic 0xfe magic) || (size != 64 || (bit_and next 7 != 0 || leb p.len next)))

-- `IsInvalid`.
unfoldable pub is_invalid : Slice → Option Bool
unfolding is_smb1 is_invalid_smb1 is_invalid_smb2
is_invalid p =
    if ltb p.len 4
    then some true
    else do smb1 ← is_smb1 p; if smb1 then is_invalid_smb1 p else is_invalid_smb2 p

-- `Command` and `MessageId` have a case for SMB1.
unfoldable pub command : Slice → Option ℕ
unfolding is_smb1 get
command p = do smb1 ← is_smb1 p; if smb1 then index p 4 else get command_field p

unfoldable pub message_id : Slice → Option ℕ
unfolding is_smb1 get
message_id p = do
  smb1 ← is_smb1 p
  if smb1 then some 0xffff_ffff_ffff_ffff else get message_id_field p

abbrev pub flags_server_to_redir : ℕ
flags_server_to_redir = 1

abbrev pub flags_async_command : ℕ
flags_async_command = 2

abbrev pub flags_related_operations : ℕ
flags_related_operations = 4

abbrev pub flags_signed : ℕ
flags_signed = 8

abbrev pub flags_priority_mask : ℕ
flags_priority_mask = 0x70

unfoldable pub is_compound : Slice → Option Bool
unfolding get
is_compound p = do
  f ← get flags p
  next ← get next_command p
  some (bit_and f flags_related_operations == flags_related_operations || next != 0)

unfoldable pub is_compound_first : Slice → Option Bool
unfolding get
is_compound_first p = do
  f ← get flags p
  next ← get next_command p
  some (bit_and f flags_related_operations == 0 && next != 0)

unfoldable pub is_compound_last : Slice → Option Bool
unfolding get
is_compound_last p = do
  f ← get flags p
  next ← get next_command p
  some (bit_and f flags_related_operations == flags_related_operations && next == 0)
