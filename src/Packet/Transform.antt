-- ===== src/Packet/Transform.antt =====
-- internal/smb2/packet.go, `TransformCodec`: the header of an encrypted packet.
use go_smb.Common.{ℕ, Bool, true, not, Option, some, List, [], ◌∷◌, ltb, if◌then◌else◌, ◌>>=◌}
use go_smb.Bytes.{Slice, read, from}
use go_smb.Bytes.Writes.{Write, copy_into}
use go_smb.Packet.{Field, field, has_magic}

-- `IsInvalid`.
unfoldable pub is_invalid : Slice → Option Bool
unfolding read
is_invalid p =
    if ltb p.len 52 then some true else do magic ← read p 0 4; some (not (has_magic 0xfd magic))

-- "\xfdSMB".
abbrev pub magic2 : List ℕ
magic2 = 0xfd ∷ b'S' ∷ b'M' ∷ b'B' ∷ []

abbrev pub set_protocol_id : Write
set_protocol_id = copy_into 0 4 magic2

unfoldable pub signature : Slice → Option (List ℕ)
signature p = read p 4 16

abbrev pub set_signature : List ℕ → Write
set_signature bs = copy_into 4 20 bs

unfoldable pub nonce : Slice → Option (List ℕ)
nonce p = read p 20 16

abbrev pub set_nonce : List ℕ → Write
set_nonce bs = copy_into 20 36 bs

abbrev pub original_message_size : Field
original_message_size = field 36 4

abbrev pub encryption_algorithm : Field
encryption_algorithm = field 42 2

-- From SMB 3.1.1: the same place.
abbrev pub transform_flags : Field
transform_flags = field 42 2

abbrev pub transform_session_id : Field
transform_session_id = field 44 8

unfoldable pub associated_data : Slice → Option (List ℕ)
associated_data p = read p 20 32

-- `p[52:]`.
unfoldable pub encrypted_data : Slice → Option Slice
encrypted_data p = from p 52
