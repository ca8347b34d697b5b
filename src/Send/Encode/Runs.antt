-- ===== src/Send/Encode/Runs.antt =====
-- An echo packet that is sent in a session, with the two credits that were not granted before.
use go_smb.Common.{◌≡◌, refl, true, some, [], arith}
use go_smb.Fixtures.{echo, alice}
use go_smb.Bytes.{Slice}
use go_smb.Packet.Header.{zero_header}
use go_smb.Session.{verify}
use go_smb.Send.Encode.{Message, other_message, Conn, Tree, encode_packet}
use go_smb.Send.Encode.Laws.{encode_packet-verify}

abbrev answer : Message
answer = record {
  kind = other_message;
  header = record zero_header { message_id = 9; credit_charge = 1 };
  encode = λ h. echo 0 h.message_id;
}

abbrev alice_conn : Conn
alice_conn = record {
  sequence_window = 5;
  account = record { capacity = 8; balance = 1; opening = 2 };
  session = some alice;
  use_session = true;
}

abbrev music_tree : Tree
music_tree = record { tree_id = 5; share_flags = 0 }

answer-verify :
    (pkt : Slice) × (encode_packet [] answer (some music_tree) alice_conn
      ≡ some (
        record alice_conn {
          sequence_window = 6;
          account = record { capacity = 8; balance = 1; opening = 0 };
        },
        record zero_header {
          message_id = 9;
          credit_charge = 1;
          credit_request_response = 3;
          session_id = 9;
          tree_id = 5;
        },
        pkt,
      ))
    × (verify alice pkt ≡ some (pkt, true))
answer-verify =
    encode_packet-verify [] answer (some music_tree) alice_conn alice refl refl refl refl refl refl
      (omega arith) (omega arith) refl (λ bs. refl) (λ bs. omega arith)
