-- ===== src/Session.antt =====
-- server/session.go: how a session signs, verifies, encrypts and decrypts a packet. `signer` and
-- `verifier` are what its hashes compute of the bytes written to them after a reset, `seal` and
-- `unseal` its ciphers: parameters.
pub mod Laws
pub mod Encryption
mod Runs
use go_smb.Common.{
  ℕ, ◌+◌, ◌-◌, ◌++◌, take, Bool, true, false, Option, none, some, List, [], ◌∷◌, length, replicate,
  ◌==◌, ◌&&◌, if◌then◌else◌, ◌>>=◌, bit_and, bit_or,
}
use go_smb.Common.Texts.{equal_bytes}
use go_smb.Bytes.{Slice, of_list, elements, sub, read}
use go_smb.Bytes.Writes.{Write, copy_into, write, writes}
use go_smb.Packet.Transform as Transform
use go_smb.Packet.{get, put, flags, signature, flags_signed}

pub record Session : Type 0 where
  pub session_id : ℕ
  pub session_flags : ℕ
  pub signer : List ℕ → List ℕ
  pub verifier : List ℕ → List ℕ
  -- `encrypter.Seal` and `decrypter.Open` (`unseal`): nonce, text and associated data.
  pub seal : List ℕ → List ℕ → List ℕ → List ℕ
  pub unseal : List ℕ → List ℕ → List ℕ → Option (List ℕ)
  pub nonce_size : ℕ
  -- `treeConnTables`: the `treeId` of each entry.
  pub tree_conns : List (ℕ × ℕ)

-- SMB2_SESSION_FLAG_IS_GUEST | SMB2_SESSION_FLAG_IS_NULL.
abbrev pub guest_or_null : ℕ
guest_or_null = 3

-- `SetSignature(bs)` is `copy(p[48:64], bs)`.
abbrev pub set_signature : List ℕ → Write
set_signature bs = copy_into 48 64 bs

-- `var zero [16]byte`.
abbrev pub zero_signature : List ℕ
zero_signature = replicate 16 0

unfoldable pub sign : Session → Slice → Option Slice
unfolding write get
sign s pkt = do
  f ← get flags pkt
  marked ← write (put flags (bit_or f flags_signed)) pkt
  write (set_signature (s.signer (elements marked))) marked

-- The packet is changed: its signature is cleared, and computed anew unless the session is a guest's.
unfoldable pub verify : Session → Slice → Option (Slice × Bool)
unfolding write signature
verify s pkt = do
  given ← signature pkt
  cleared ← write (set_signature zero_signature) pkt
  final ←
      (if bit_and s.session_flags guest_or_null == 0
        then write (set_signature (s.verifier (elements cleared))) cleared
        else some cleared)
  computed ← signature final
  some (final, equal_bytes given computed)

-- `Encrypted`.
abbrev pub encrypted : ℕ
encrypted = 1

-- The header that `encrypt` writes.
abbrev pub transform_writes : Session → List ℕ → ℕ → List Write
transform_writes s nonce size =
    Transform.set_protocol_id
    ∷ Transform.set_nonce nonce
    ∷ put Transform.original_message_size size
    ∷ put Transform.transform_flags encrypted
    ∷ put Transform.transform_session_id s.session_id
    ∷ []

-- `Seal(c[:52], …)`: appended behind the header, in place.
abbrev pub seal_into : List ℕ → Write
seal_into sealed = copy_into 52 (52 + length sealed) sealed

-- `encrypt`, its random nonce given.
unfoldable pub encrypt : Session → List ℕ → List ℕ → Option Slice
unfolding write writes
encrypt s nonce pkt = do
  header ←
      writes (transform_writes s nonce (length pkt)) (of_list (replicate (52 + length pkt + 16) 0))
  ad ← Transform.associated_data header
  sealed ← write (seal_into (s.seal nonce pkt ad)) header
  tag ← read sealed (52 + length pkt) 16
  signed ← write (Transform.set_signature tag) sealed
  sub signed 0 (52 + length pkt)

-- `decrypt`: `none` inside for an error of `Open`.
unfoldable pub decrypt : Session → Slice → Option (Option (List ℕ))
decrypt s pkt = do
  ciphertext ← Transform.encrypted_data pkt
  tag ← Transform.signature pkt
  nonce ← Transform.nonce pkt
  ad ← Transform.associated_data pkt
  some (s.unseal (take s.nonce_size nonce) (elements ciphertext ++ tag) ad)
