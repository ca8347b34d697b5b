-- ===== src/Send.antt =====
-- server/compound.go, and the part of `sendPacket` (server/conn.go) that collects the responses of a compound. The
-- encoding of one response (`encodePacket`, see Encode) is a parameter; a buffer is the list of its bytes.
pub mod Laws
pub mod Encode
mod Runs
use go_smb.Common.{
  ℕ, zero, suc, ◌+◌, ◌-◌, ◌*◌, ◌/◌, ◌%◌, ◌^◌, Bool, true, false, not, Option, none, some, List, [],
  ◌∷◌, ◌++◌, length, take, drop, replicate, leb, ◌==◌, if◌then◌else◌, ◌>>=◌, bit_or,
}
use go_smb.Packet.{flags_related_operations}
use go_smb.Packet.Header.{PacketHeader}

-- `Align`, for the alignment 8.
abbrev pub align_8 : ℕ → ℕ
align_8 n = (n + 7) / 8 * 8

-- `compoundContext.Size`: all but the last response are padded.
abbrev pub compound_size : List (List ℕ) → ℕ
compound_size [] = 0
compound_size (p ∷ []) = length p
compound_size (p ∷ q ∷ ps) = align_8 (length p) + compound_size (q ∷ ps)

-- `copy(buf[off:], pkt)`.
unfoldable pub copy_from : ℕ → List ℕ → List ℕ → Option (List ℕ)
copy_from off pkt buf =
    if leb off (length buf)
    then some (take off buf ++ (take (length buf - off) pkt ++ drop (off + length pkt) buf))
    else none

-- `compoundContext.Encode`, from an offset on.
unfoldable pub compound_encode : ℕ → List (List ℕ) → List ℕ → Option (List ℕ)
compound_encode off [] buf = some buf
compound_encode off (p ∷ ps) buf = do
  buf' ← copy_from off p buf
  compound_encode (off + align_8 (length p)) ps buf'

pub record CompoundContext : Type 0 where
  pub last_status : ℕ
  pub last_msg_id : ℕ
  pub rsp : List (List ℕ)

abbrev pub is_none_yet : List (List ℕ) → Bool
is_none_yet [] = true
is_none_yet (p ∷ ps) = false

-- The header of a response of a compound, as `sendPacket` changes it before it is encoded.
unfoldable pub chained : CompoundContext → ℕ → PacketHeader → PacketHeader
chained ctx size h =
    let related =
      if is_none_yet ctx.rsp
      then h
      else record h { flags = bit_or h.flags flags_related_operations } in
    if h.message_id == ctx.last_msg_id
    then related
    else record related { next_command = align_8 size % 2 ^ 32 }

-- One response with a header and a size: the context, and the bytes that are written once the last one is there.
-- `none` where `encodePacket` fails, and for a panic of `Encode`.
unfoldable pub send_compound :
    (PacketHeader → Option (List ℕ))
    → ℕ
    → PacketHeader
    → CompoundContext
    → Option (CompoundContext × Option (List ℕ))
send_compound encode size h ctx =
    let h' = chained ctx size h in
    do
      pkt ← encode h'
      let ctx' : CompoundContext = record ctx {
        last_status = h.status;
        rsp = ctx.rsp ++ (pkt ∷ []);
      } in
          if not (h.message_id == ctx.last_msg_id)
          then some (ctx', none)
          else compound_encode 0 ctx'.rsp (replicate (compound_size ctx'.rsp) 0)
            >>= (λ sent. some (ctx', some sent))
