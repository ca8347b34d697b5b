-- ===== src/Receive/Runs.antt =====
-- Frames that the receiver is run on.
use go_smb.Common.{◌≡◌, ◌⊎◌, refl, false, none, some, [], ◌∷◌, arith}
use go_smb.Fixtures.{echo, alice, strict_conn}
use go_smb.Bytes.{Slice}
use go_smb.Session.{verify}
use go_smb.Receive.{receive_frame, Handled, Request, whole, invalid_part, handle_parts, try_verify}
use go_smb.Receive.Laws.{handle_parts-total, total}
use go_smb.Receive.Errors.{receive_frame-related_first}

abbrev echo_request : Request
echo_request = record {
  msg_id = 7;
  credit_request = 1;
  pkt = echo 0 9;
  session = some alice;
  comp_ctx = none;
}

abbrev echo_handled : Handled
echo_handled = record { requests = echo_request ∷ []; contexts = []; ended = whole }

-- Alice's echo with a signature of zeros, and with the signature that the check puts there.
abbrev forged : Slice
forged = echo 8 9

abbrev computed : Slice
computed = elim (verify alice forged) [ none ↦ forged | some r ↦ r.0 ]

abbrev forged_handled : Handled
forged_handled = record {
  requests =
      record {
        msg_id = 7;
        credit_request = 1;
        pkt = computed;
        session = some alice;
        comp_ctx = none;
      }
      ∷ [];
  contexts = [];
  ended = whole;
}

related_frame_panics : receive_frame strict_conn (echo 4 9) ≡ none
unfolding go_smb.Packet.is_invalid go_smb.Bytes.read go_smb.Bytes.get_le go_smb.Receive.skips
    go_smb.Packet.command
related_frame_panics =
    receive_frame-related_first strict_conn (echo 4 9) 4 9 false refl refl refl refl refl refl

echo_frame_used_up :
    (echo_handled.ended ≡ invalid_part)
    ⊎ ((echo_handled.ended ≡ whole) × (total (echo_request ∷ []) ≡ 64))
unfolding handle_parts go_smb.Packet.is_invalid go_smb.Bytes.read go_smb.Bytes.get_le
    go_smb.Receive.one_part go_smb.Receive.open_context go_smb.Packet.is_compound_first
    go_smb.Receive.close_context go_smb.Packet.is_compound_last go_smb.Receive.split_part try_verify
    go_smb.Packet.message_id go_smb.Receive.try_handle
echo_frame_used_up =
    handle_parts-total 65 strict_conn (some alice) false (echo 0 9) none [] echo_handled
      (omega arith) refl
