-- ===== src/Send/Encode.antt =====
-- server/conn.go, `encodePacket`: the header of what is sent gets its credits and ids, and the packet is encrypted or
-- signed. The encoding of a message (`Size`, `Encode`) is a parameter; its kind is what the type tests tell.
pub mod Laws
mod Runs
use go_smb.Common.{
  ℕ, ◌+◌, ◌^◌, ◌%◌, ◌-◌, Bool, true, false, not, ◌&&◌, ◌||◌, Option, none, some, List, ◌==◌, ◌!=◌,
  if◌then◌else◌, ◌>>=◌, bit_and,
}
use go_smb.Bytes.{Slice, elements}
use go_smb.Packet.Header.{PacketHeader}
use go_smb.Session.{Session, sign, encrypt, guest_or_null}
use go_smb.Credit.{Account, take_opening}

pub data MessageKind : Type 0 where
  cancel_request : MessageKind
  echo_response : MessageKind
  session_setup_request : MessageKind
  other_message : MessageKind

pub record Message : Type 0 where
  pub kind : MessageKind
  pub header : PacketHeader
  pub encode : PacketHeader → Slice

pub record Tree : Type 0 where
  pub tree_id : ℕ
  pub share_flags : ℕ

pub record Conn : Type 0 where
  pub sequence_window : ℕ
  pub account : Account
  pub session : Option Session
  pub use_session : Bool

abbrev pub is_cancel : MessageKind → Bool
is_cancel cancel_request = true
is_cancel echo_response = false
is_cancel session_setup_request = false
is_cancel other_message = false

abbrev pub is_echo : MessageKind → Bool
is_echo echo_response = true
is_echo cancel_request = false
is_echo session_setup_request = false
is_echo other_message = false

abbrev pub is_setup : MessageKind → Bool
is_setup session_setup_request = true
is_setup cancel_request = false
is_setup echo_response = false
is_setup other_message = false

abbrev pub session_encrypts : ℕ
session_encrypts = 4

abbrev pub share_encrypts : ℕ
share_encrypts = 0x8000

-- The credits that the header takes along, and the connection without them.
abbrev pub with_credits : PacketHeader → Conn → Conn × PacketHeader
with_credits h c =
    let asked =
      if h.credit_request_response == 0 then h.credit_charge else h.credit_request_response in
    let (account, opened) = take_opening c.account in
    (
      record c {
        sequence_window = (c.sequence_window + h.credit_charge) % 2 ^ 64;
        account = account;
      },
      record h { credit_request_response = (asked + opened) % 2 ^ 16 },
    )

abbrev pub credited : MessageKind → PacketHeader → Conn → Conn × PacketHeader
credited kind h c =
    if not (is_cancel kind) && (h.message_id != 2 ^ 64 - 1) then with_credits h c else (c, h)

-- An echo outside of a session is sent outside of the session.
abbrev pub session_for : MessageKind → PacketHeader → Option Session → Option Session
session_for kind h s = if is_echo kind && (h.session_id == 0) then none else s

abbrev pub with_tree : Option Tree → PacketHeader → PacketHeader
with_tree none h = h
with_tree (some t) h = record h { tree_id = t.tree_id }

abbrev pub with_ids : Bool → Option Session → Option Tree → PacketHeader → PacketHeader
with_ids in_use none tree h = h
with_ids in_use (some s) tree h =
    if in_use then with_tree tree (record h { session_id = s.session_id }) else h

abbrev pub tree_encrypts : Option Tree → Bool
tree_encrypts none = false
tree_encrypts (some t) = bit_and t.share_flags share_encrypts != 0

abbrev pub sealed : List ℕ → Session → Option Tree → Slice → Option Slice
sealed nonce s tree pkt =
    if (bit_and s.session_flags session_encrypts != 0) || tree_encrypts tree
    then encrypt s nonce (elements pkt)
    else if bit_and s.session_flags guest_or_null == 0
    then sign s pkt
    else some pkt

abbrev pub protected : List ℕ → MessageKind → Option Session → Option Tree → Slice → Option Slice
protected nonce kind none tree pkt = some pkt
protected nonce kind (some s) tree pkt = if is_setup kind then some pkt else sealed nonce s tree pkt

-- `encodePacket`, the random nonce given: the connection, the header that the message has afterwards, and the packet.
unfoldable pub encode_packet :
    List ℕ → Message → Option Tree → Conn → Option (Conn × PacketHeader × Slice)
encode_packet nonce m tree c =
    let (c', h) = credited m.kind m.header c in
    let s = session_for m.kind h c'.session in
    let h' = with_ids c'.use_session s tree h in
    protected nonce m.kind s tree (m.encode h') >>= (λ pkt. some (c', h', pkt))
