-- ===== src/Acl.antt =====
-- server/acl.go: security descriptors, their encoding, and their decoders. Every SID that the code makes has a
-- sub-authority, so that its last write needs the bytes that the copy of its authority fills.
use go_smb.Common.{
  ℕ, zero, suc, ◌+◌, ◌*◌, ◌/◌, ◌%◌, ◌^◌, Bool, true, false, ◌&&◌, Option, none, some, List, [], ◌∷◌,
  ◌++◌, length, map, ◌==◌, ◌!=◌, if◌then◌else◌, ◌>>=◌, bit_and,
}
use go_smb.Bytes.{Slice, index, get_le_from, from, encode_le}
use go_smb.Bytes.Writes.{Write, put_byte, shift, writes}
use go_smb.Dtyp.{sub_authority_loop}
use go_smb.Vfs.{or_if}

-- `SID`: the six bytes of its authority, and its sub-authorities.
pub record Sid : Type 0 where
  pub identifier_authority : List ℕ
  pub sub_authority : List ℕ

pub record Ace : Type 0 where
  pub sid : Sid
  pub ace_type : ℕ
  pub mask : ℕ

pub record SecurityDescriptor : Type 0 where
  pub owner_sid : Option Sid
  pub group_sid : Option Sid
  pub sacl : Option (List Ace)
  pub dacl : Option (List Ace)

abbrev pub world_sid_authority : List ℕ
world_sid_authority = 0 ∷ 0 ∷ 0 ∷ 0 ∷ 0 ∷ 1 ∷ []

abbrev pub security_nt_authority : List ℕ
security_nt_authority = 0 ∷ 0 ∷ 0 ∷ 0 ∷ 0 ∷ 5 ∷ []

abbrev pub sid_from_uid : ℕ → Sid
sid_from_uid uid = record {
  identifier_authority = security_nt_authority;
  sub_authority = 88 ∷ 1 ∷ uid ∷ [];
}

abbrev pub sid_from_gid : ℕ → Sid
sid_from_gid gid = record {
  identifier_authority = security_nt_authority;
  sub_authority = 88 ∷ 2 ∷ gid ∷ [];
}

abbrev pub sid_from_mode : ℕ → Sid
sid_from_mode mode = record {
  identifier_authority = security_nt_authority;
  sub_authority = 88 ∷ 3 ∷ mode ∷ [];
}

-- `le.PutUintN(b[o:], v)`: the bytes must be in the slice's length.
abbrev put : ℕ → ℕ → ℕ → Write
put w o v = record { at = o; reach = o + w; bytes = encode_le w v; indexed = true }

abbrev pub sid_size : Sid → ℕ
sid_size s = 8 + length s.sub_authority * 4

abbrev pub authority_puts : ℕ → List ℕ → List Write
authority_puts i [] = []
authority_puts i (sa ∷ sas) = put 4 (8 + i * 4) sa ∷ authority_puts (i + 1) sas

abbrev pub sid_writes : Sid → List Write
sid_writes s =
    put_byte 0 1
    ∷ put_byte 1 (length s.sub_authority % 256)
    ∷ record { at = 2; reach = 2; bytes = s.identifier_authority; indexed = true }
    ∷ authority_puts 0 s.sub_authority

abbrev pub ace_size : Ace → ℕ
ace_size a = 8 + sid_size a.sid

abbrev pub ace_writes : Ace → List Write
ace_writes a =
    put_byte 0 a.ace_type
    ∷ put_byte 1 0
    ∷ put 2 2 (ace_size a % 2 ^ 16)
    ∷ put 4 4 a.mask
    ∷ map (shift 8) (sid_writes a.sid)

abbrev pub aces_size : List Ace → ℕ
aces_size [] = 0
aces_size (a ∷ rest) = ace_size a + aces_size rest

abbrev pub acl_size : List Ace → ℕ
acl_size acl = 8 + aces_size acl

abbrev pub aces_writes : ℕ → List Ace → List Write
aces_writes off [] = []
aces_writes off (a ∷ rest) = map (shift off) (ace_writes a) ++ aces_writes (off + ace_size a) rest

abbrev pub acl_writes : List Ace → List Write
acl_writes acl =
    put_byte 0 2
    ∷ put 2 2 (acl_size acl % 2 ^ 16)
    ∷ put 2 4 (length acl % 2 ^ 16)
    ∷ aces_writes 8 acl

abbrev size_or_zero : {A : Type 0} → (A → ℕ) → Option A → ℕ
size_or_zero size none = 0
size_or_zero size (some x) = size x

-- `SecurityDescriptor.Size`, before it is aligned.
abbrev pub parts_size : SecurityDescriptor → ℕ
parts_size d =
    20
    + size_or_zero sid_size d.owner_sid
    + size_or_zero sid_size d.group_sid
    + size_or_zero acl_size d.sacl
    + size_or_zero acl_size d.dacl

abbrev pub descriptor_size : SecurityDescriptor → ℕ
descriptor_size d = (parts_size d + 7) / 8 * 8

abbrev present : {A : Type 0} → Option A → Bool
present none = false
present (some x) = true

-- A part that is there: its offset at `o`, and its writes from the offset on.
abbrev part_writes : {A : Type 0} → (A → List Write) → ℕ → ℕ → Option A → List Write
part_writes of o offset none = []
part_writes of o offset (some x) = put 4 o (offset % 2 ^ 32) ∷ map (shift offset) (of x)

abbrev pub descriptor_writes : SecurityDescriptor → List Write
descriptor_writes d =
    let control = or_if (present d.dacl) 4 (or_if (present d.sacl) 16 0x8000) in
    let group_at = 20 + size_or_zero sid_size d.owner_sid in
    let sacl_at = group_at + size_or_zero sid_size d.group_sid in
    let dacl_at = sacl_at + size_or_zero acl_size d.sacl in
    put_byte 0 1 ∷ put 2 2 control ∷ part_writes sid_writes 4 20 d.owner_sid
    ++ part_writes sid_writes 8 group_at d.group_sid
    ++ part_writes acl_writes 12 sacl_at d.sacl
    ++ part_writes acl_writes 16 dacl_at d.dacl

-- `SecurityDescriptor.Encode`.
unfoldable pub encode_descriptor : SecurityDescriptor → Slice → Option Slice
encode_descriptor d = writes (descriptor_writes d)

-- `UnixModeToAceMask`, of three bits.
unfoldable pub unix_mode_to_ace_mask : ℕ → ℕ
unix_mode_to_ace_mask mode =
    or_if (bit_and mode 4 != 0) 0x20089
      (or_if (bit_and mode 2 != 0) 0x70112 (or_if (bit_and mode 1 != 0) 0x1200a0 0))

-- `SecurityDescriptorDecoder.Dacl`: nil where its offset is 0.
abbrev at_offset : Slice → ℕ → Option (Option Slice)
at_offset sd off = if off == 0 then some none else (do part ← from sd off; some (some part))

unfoldable pub dacl_of : Slice → Option (Option Slice)
dacl_of sd = do off ← get_le_from 4 sd 16; at_offset sd off

-- `AclDecoder` and `AceDecoder`.
abbrev pub ace_count : Slice → Option ℕ
ace_count a = get_le_from 2 a 4

abbrev pub aces_of : Slice → Option Slice
aces_of a = from a 8

abbrev pub ace_size_of : Slice → Option ℕ
ace_size_of a = get_le_from 2 a 2

abbrev pub sid_of : Slice → Option Slice
sid_of a = from a 8

-- The sub-authorities of a SID that stands for a mode.
abbrev mode_of_subs : List ℕ → Option ℕ
mode_of_subs (a ∷ b ∷ c ∷ []) = if a == 88 && b == 3 then some c else none
mode_of_subs subs = none

-- An entry's mode, if its SID stands for one.
abbrev pub ace_mode : Slice → Option (Option ℕ)
ace_mode ace = do
  sid ← sid_of ace
  count ← index sid 1
  if count == 3 then (do subs ← sub_authority_loop 3 8 sid; some (mode_of_subs subs)) else some none

-- The loop of `setSecInfo` over the entries: the first mode.
abbrev pub mode_in : ℕ → Slice → Option (Option ℕ)
mode_in zero aces = some none
mode_in (suc n) aces =
    let go : Slice → Option (Option ℕ) = mode_in n in
    ace_mode aces >>= λ found. elim found [
      | some mode ↦ some (some mode)
      | none ↦ ace_size_of aces >>= λ size. from aces size >>= go
    ]

-- What `setSecInfo` looks for: the mode that the list of a descriptor holds, if it holds one.
unfoldable pub nfs_mode : Slice → Option (Option ℕ)
unfolding dacl_of
nfs_mode sd = do
  found ← dacl_of sd
  elim found [
    | none ↦ some none
    | some acl ↦ ace_count acl >>= λ n. aces_of acl >>= λ aces. mode_in n aces
  ]

-- The list that `queryInfoSec` makes: the owner, the group, everyone, and the mode.
abbrev pub list_of_mode : ℕ → ℕ → ℕ → List Ace
list_of_mode uid gid mode =
    record {
      sid = sid_from_uid uid;
      ace_type = 0;
      mask = unix_mode_to_ace_mask (bit_and mode 0o700 / 64);
    }
    ∷ record {
      sid = sid_from_gid gid;
      ace_type = 0;
      mask = unix_mode_to_ace_mask (bit_and mode 0o70 / 8);
    }
    ∷ record {
      sid = record { identifier_authority = world_sid_authority; sub_authority = 0 ∷ [] };
      ace_type = 0;
      mask = unix_mode_to_ace_mask (bit_and mode 0o7);
    }
    ∷ record { sid = sid_from_mode mode; ace_type = 1; mask = 0 }
    ∷ []
