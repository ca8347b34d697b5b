-- ===== src/Send/Encode/Laws.antt =====
-- server/conn.go, `encodePacket`: a peer accepts what it made.
use go_smb.Common.{
  ℕ, ◌^◌, ◌-◌, ◌≤◌, ◌≡◌, refl, true, false, Option, some, List, length, take, drop, ◌!=◌, ◌==◌, ◌+◌,
  ◌%◌, none, inl, inr, Bool-cases, if◌then◌else◌, bit_and,
}
use go_smb.Bytes.{Slice, IsSlice}
use go_smb.Session.{Session, verify, zero_signature, guest_or_null}
use go_smb.Credit.{take_opening}
use go_smb.Session.Laws.{sign-verify}
use go_smb.Packet.Header.{PacketHeader}
use go_smb.Send.Encode.{
  Message, other_message, Tree, Conn, with_credits, with_ids, encode_packet, tree_encrypts,
  session_encrypts,
}

-- The header that a message without a notification is sent with: the credits that are asked for, or the charge where
-- none are, and the credits that the account has not yet passed on, wrapped at 2 ^ 16; and, where sessions are in use,
-- the ids of the session and of the tree.
abbrev pub expected_header : Option Tree → Session → PacketHeader → Conn → PacketHeader
expected_header tree s h c = record h {
  credit_request_response =
      ((if h.credit_request_response == 0 then h.credit_charge else h.credit_request_response)
        + c.account.opening)
      % 2 ^ 16;
  session_id = if c.use_session then s.session_id else h.session_id;
  tree_id = elim tree [
    | none ↦ h.tree_id
    | some t ↦ if c.use_session then t.tree_id else h.tree_id
  ];
}

-- The connection afterwards: its window is moved on by the charge, and nothing is left to pass on.
abbrev pub expected_conn : PacketHeader → Conn → Conn
expected_conn h c = record c {
  sequence_window = (c.sequence_window + h.credit_charge) % 2 ^ 64;
  account = record c.account { opening = 0 };
}

with_ids-expected :
    (tree : Option Tree) (s : Session) (h : PacketHeader) (c : Conn)
    → with_ids c.use_session (some s) tree (with_credits h c).1 ≡ expected_header tree s h c
unfolding take_opening
with_ids-expected none s h c = elim (Bool-cases c.use_session) [
  | inl uses ↦ rw uses refl
  | inr idle ↦ rw idle refl
]
with_ids-expected (some t) s h c = elim (Bool-cases c.use_session) [
  | inl uses ↦ rw uses refl
  | inr idle ↦ rw idle refl
]

-- If a message that is no echo, cancel, setup request or notification is sent while the session signs and neither it nor
-- the tree encrypts, and the message encodes to a whole packet without a signature under the header that it is to get,
-- then encodePacket returns; the message has this header: its credits are those asked for, or the charge where none
-- are, and those that the account had to pass on, wrapped at 2 ^ 16, and its ids are the session's and the tree's where
-- sessions are in use; the window of the connection is moved on by the charge, and the account has nothing to pass on;
-- and a peer with the same hash accepts the packet.
pub encode_packet-verify :
    (nonce : List ℕ) (m : Message) (tree : Option Tree) (c : Conn) (s : Session)
    → m.kind ≡ other_message
    → (m.header.message_id != 2 ^ 64 - 1) ≡ true
    → c.session ≡ some s
    → (bit_and s.session_flags session_encrypts != 0) ≡ false
    → tree_encrypts tree ≡ false
    → bit_and s.session_flags guest_or_null ≡ 0
    → IsSlice (m.encode (expected_header tree s m.header c))
    → 64 ≤ (m.encode (expected_header tree s m.header c)).len
    → take 16 (drop 48 (m.encode (expected_header tree s m.header c)).bytes) ≡ zero_signature
    → ((bs : List ℕ) → s.verifier bs ≡ s.signer bs)
    → ((bs : List ℕ) → 16 ≤ length (s.signer bs))
    → (pkt : Slice) × (encode_packet nonce m tree c
        ≡ some (expected_conn m.header c, expected_header tree s m.header c, pkt))
      × (verify s pkt ≡ some (pkt, true))
unfolding encode_packet take_opening
encode_packet-verify nonce m tree c s plain normal current open_session open_tree own slice room
      zeros same long =
    let h = expected_header tree s m.header c in
    let (pkt, signed, good) = sign-verify s (m.encode h) slice room zeros own same long in
    (
      pkt,
      rw
          (
            encode_packet,
            plain,
            normal,
            current,
            with_ids-expected tree s m.header c,
            open_session,
            open_tree,
            own,
            signed,
          )
          refl,
      good,
    )
