-- ===== src/Dtyp.antt =====
-- internal/smb2/dtyp.go: FILETIME and SID on the wire. An int64 is its bit pattern, below 2 ^ 64.
pub mod FiletimeLaws
pub mod SidLaws
mod Runs
use go_smb.Common.{
  ℕ, zero, suc, ◌+◌, ◌-◌, ◌*◌, ◌/◌, ◌%◌, ◌^◌, Bool, true, false, Option, none, some, List, [], ◌∷◌,
  ◌++◌, length, ltb, ◌==◌, if◌then◌else◌, ◌>>=◌,
}
use go_smb.Bytes.{Slice, index, get_le}
use go_smb.Bytes.Writes.{Write, put_le, put_byte, writes}

pub record Filetime : Type 0 where
  pub low_date_time : ℕ
  pub high_date_time : ℕ

-- 1601 to 1970 in units of 100 ns.
abbrev pub epoch_offset : ℕ
epoch_offset = 116_444_736_000_000_000

abbrev pub filetime_writes : Filetime → List Write
filetime_writes ft = put_le 4 0 ft.low_date_time ∷ put_le 4 4 ft.high_date_time ∷ []

unfoldable pub encode_filetime : Filetime → Slice → Option Slice
encode_filetime ft = writes (filetime_writes ft)

-- `nsec / 100` on an int64: toward zero.
abbrev pub div_100 : ℕ → ℕ
div_100 w = if ltb w (2 ^ 63) then w / 100 else (2 ^ 64 - (2 ^ 64 - w) / 100) % 2 ^ 64

unfoldable pub nanoseconds : Filetime → ℕ
nanoseconds ft =
    let nsec = (ft.high_date_time * 2 ^ 32 % 2 ^ 64 + ft.low_date_time) % 2 ^ 64 in
    if nsec == 0 then 0 else (nsec + 2 ^ 64 - epoch_offset) % 2 ^ 64 * 100 % 2 ^ 64

unfoldable pub nsec_to_filetime : ℕ → Filetime
nsec_to_filetime nsec =
    let t = (div_100 nsec + epoch_offset) % 2 ^ 64 in
    record { low_date_time = t % 2 ^ 32; high_date_time = t / 2 ^ 32 % 2 ^ 32 }

-- `FiletimeDecoder.Decode`.
unfoldable pub decode_filetime : Slice → Option Filetime
decode_filetime p = do
  low ← get_le 4 p 0
  high ← get_le 4 p 4
  some (record { low_date_time = low; high_date_time = high })

pub record Sid : Type 0 where
  pub revision : ℕ
  pub identifier_authority : ℕ
  pub sub_authority : List ℕ

abbrev pub sid_size : Sid → ℕ
sid_size sid = 8 + length sid.sub_authority * 4

-- `for j := 0; j < 6; j++`: `n` rounds are left.
abbrev pub authority_writes : ℕ → ℕ → ℕ → List Write
authority_writes zero j authority = []
authority_writes (suc n) j authority =
    put_byte (2 + j) (authority / 2 ^ (8 * (6 - j)) % 256) ∷ authority_writes n (j + 1) authority

-- `for _, u := range sid.SubAuthority`.
abbrev pub sub_authority_writes : ℕ → List ℕ → List Write
sub_authority_writes off [] = []
sub_authority_writes off (u ∷ us) = put_le 4 off u ∷ sub_authority_writes (off + 4) us

abbrev pub sid_writes : Sid → List Write
sid_writes sid =
    put_byte 0 sid.revision
    ∷ put_byte 1 (length sid.sub_authority % 256)
    ∷ (authority_writes 6 0 sid.identifier_authority ++ sub_authority_writes 8 sid.sub_authority)

unfoldable pub encode_sid : Sid → Slice → Option Slice
encode_sid sid = writes (sid_writes sid)

-- `SidDecoder`.
unfoldable pub is_invalid_sid : Slice → Option Bool
is_invalid_sid c =
    if ltb c.len 8 then some true else do count ← index c 1; some (ltb c.len (8 + count * 4))

-- `for j := 0; j < 6; j++ { u += uint64(c[7-j]) << uint64(8*j) }`.
abbrev pub authority_loop : ℕ → ℕ → ℕ → Slice → Option ℕ
authority_loop zero j u c = some u
authority_loop (suc n) j u c = do
  b ← index c (7 - j)
  authority_loop n (j + 1) ((u + b * 2 ^ (8 * j) % 2 ^ 64) % 2 ^ 64) c

unfoldable pub identifier_authority : Slice → Option ℕ
identifier_authority c = authority_loop 6 0 0 c

abbrev pub sub_authority_loop : ℕ → ℕ → Slice → Option (List ℕ)
sub_authority_loop zero off c = some []
sub_authority_loop (suc n) off c = do
  u ← get_le 4 c off
  us ← sub_authority_loop n (off + 4) c
  some (u ∷ us)

unfoldable pub decode_sid : Slice → Option Sid
unfolding identifier_authority
decode_sid c = do
  rev ← index c 0
  authority ← identifier_authority c
  count ← index c 1
  subs ← sub_authority_loop count 8 c
  some (record { revision = rev; identifier_authority = authority; sub_authority = subs })
