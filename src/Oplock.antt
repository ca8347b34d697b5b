-- ===== src/Oplock.antt =====
-- internal/smb2/oplock.go: the messages of oplock and lease breaks.
pub mod Laws
use go_smb.Common.{
  ℕ, ◌+◌, Bool, true, ◌||◌, Option, none, some, List, [], ◌∷◌, ◌++◌, replicate, map, ltb, ◌!=◌,
  if◌then◌else◌, ◌>>=◌,
}
use go_smb.Bytes.{Slice, get_le, index, read, from}
use go_smb.Bytes.Writes.{Write, put_le, put_byte, copy_into, shift, writes}
use go_smb.Packet.Header.{PacketHeader, header_writes}

abbrev pub smb2_oplock_break : ℕ
smb2_oplock_break = 0x12

pub record FileId : Type 0 where
  pub persistent : List ℕ
  pub volatile : List ℕ

-- `FileId.Encode` into the 16 bytes from `o` on; a nil pointer is written as zeros.
abbrev pub file_id_writes : ℕ → Option FileId → List Write
file_id_writes o none = copy_into o (o + 16) (replicate 16 0) ∷ []
file_id_writes o (some f) =
    copy_into o (o + 8) f.persistent ∷ copy_into (o + 8) (o + 16) f.volatile ∷ []

-- `OplockBreakNotification` and `OplockBreakResponse`.
pub record OplockBreak : Type 0 where
  pub header : PacketHeader
  pub oplock_level : ℕ
  pub file_id : Option FileId

abbrev pub oplock_break_size : ℕ
oplock_break_size = 64 + 24

abbrev pub oplock_break_writes : ℕ → OplockBreak → List Write
oplock_break_writes n m =
    header_writes n (record m.header { command = smb2_oplock_break })
    ++ map (shift 64) (
        put_le 2 0 24
        ∷ put_byte 2 m.oplock_level
        ∷ put_byte 3 0
        ∷ put_le 4 4 0
        ∷ file_id_writes 8 m.file_id)

unfoldable pub encode_oplock_break : OplockBreak → Slice → Option Slice
encode_oplock_break m p = writes (oplock_break_writes p.len m) p

-- `OplockBreakAcknowledgmentDecoder`.
unfoldable pub is_invalid_oplock_ack : Slice → Option Bool
is_invalid_oplock_ack r =
    if ltb r.len 24 then some true else do size ← get_le 2 r 0; some (size != 24)

pub record OplockAck : Type 0 where
  pub oplock_level : ℕ
  pub file_id : List ℕ

unfoldable pub decode_oplock_ack : Slice → Option OplockAck
decode_oplock_ack r = do
  level ← index r 2
  id ← read r 8 16
  some (record { oplock_level = level; file_id = id })

pub record LeaseBreakNotification : Type 0 where
  pub header : PacketHeader
  pub new_epoch : ℕ
  pub flags : ℕ
  pub lease_key : List ℕ
  pub current_lease_state : ℕ
  pub new_lease_state : ℕ
  pub break_reason : ℕ
  pub access_mask_hint : ℕ
  pub share_mask_hint : ℕ

abbrev pub lease_break_notification_size : ℕ
lease_break_notification_size = 64 + 44

abbrev pub lease_break_notification_writes : ℕ → LeaseBreakNotification → List Write
lease_break_notification_writes n m =
    header_writes n (record m.header { command = smb2_oplock_break })
    ++ map (shift 64) (
        put_le 2 0 44
        ∷ put_le 2 2 m.new_epoch
        ∷ put_le 4 4 m.flags
        ∷ copy_into 8 24 m.lease_key
        ∷ put_le 4 24 m.current_lease_state
        ∷ put_le 4 28 m.new_lease_state
        ∷ put_le 4 32 m.break_reason
        ∷ put_le 4 36 m.access_mask_hint
        ∷ put_le 4 40 m.share_mask_hint
        ∷ [])

unfoldable pub encode_lease_break_notification : LeaseBreakNotification → Slice → Option Slice
encode_lease_break_notification m p = writes (lease_break_notification_writes p.len m) p

-- `LeaseBreakNotificationDecoder`.
unfoldable pub is_invalid_lease_notification : Slice → Option Bool
is_invalid_lease_notification r =
    if ltb r.len 44 then some true else do size ← get_le 2 r 0; some (size != 44)

pub record LeaseNotice : Type 0 where
  pub new_epoch : ℕ
  pub flags : ℕ
  pub lease_key : List ℕ
  pub current_lease_state : ℕ
  pub new_lease_state : ℕ

unfoldable pub decode_lease_notification : Slice → Option LeaseNotice
decode_lease_notification r = do
  epoch ← get_le 2 r 2
  flags ← get_le 4 r 4
  key ← read r 8 16
  current ← get_le 4 r 24
  new ← get_le 4 r 28
  some (record {
    new_epoch = epoch;
    flags = flags;
    lease_key = key;
    current_lease_state = current;
    new_lease_state = new;
  })

-- `LeaseBreakAcknowledgmentDecoder`.
unfoldable pub is_invalid_lease_ack : Slice → Option Bool
is_invalid_lease_ack r =
    if ltb r.len 36 then some true else do size ← get_le 2 r 0; some (size != 36)

pub record LeaseAck : Type 0 where
  pub lease_key : List ℕ
  pub lease_state : ℕ

unfoldable pub decode_lease_ack : Slice → Option LeaseAck
decode_lease_ack r = do
  key ← read r 8 16
  state ← get_le 4 r 24
  some (record { lease_key = key; lease_state = state })

pub record LeaseBreakResponse : Type 0 where
  pub header : PacketHeader
  pub lease_key : List ℕ
  pub lease_state : ℕ
  pub lease_duration : ℕ

abbrev pub lease_break_response_size : ℕ
lease_break_response_size = 64 + 36

abbrev pub lease_break_response_writes : ℕ → LeaseBreakResponse → List Write
lease_break_response_writes n m =
    header_writes n (record m.header { command = smb2_oplock_break })
    ++ map (shift 64) (
        put_le 2 0 36
        ∷ put_le 2 2 0
        ∷ put_le 4 4 0
        ∷ copy_into 8 24 m.lease_key
        ∷ put_le 4 24 m.lease_state
        ∷ put_le 8 28 m.lease_duration
        ∷ [])

unfoldable pub encode_lease_break_response : LeaseBreakResponse → Slice → Option Slice
encode_lease_break_response m p = writes (lease_break_response_writes p.len m) p
