-- ===== src/Conn/States/Runs.antt =====
-- A client that negotiates SMB 2.1 and sets up session 9.
use go_smb.Common.{List, ◌≡◌, refl, true, none, some, [], ◌∷◌}
use go_smb.Common.Assoc.{find}
use go_smb.Bytes.{Slice}
use go_smb.Conn.Negotiate.{
  status_more_processing_required, Params, NegotiateResponse, done, server_capabilities,
}
use go_smb.Conn.Packets.{negotiate_packet, setup_packet, new_params, open_server}
use go_smb.Conn.States.{
  state_session_setup_challenge, new_session, activate, setup_reply, Conn, ServerSession, new_conn,
  state_session_active, negotiated,
}
use go_smb.Conn.States.Sound.{IsSound, Reachable, fresh, after, handled}
use go_smb.Conn.States.Laws.{Reachable-IsSound}
use go_smb.Conn.States.Live.{serve, event, serve-establishes}

abbrev smb21_params : Params
smb21_params = record new_params { capabilities = 0x55; dialect = 0x210; sequence_window = 1 }

abbrev smb21_response : NegotiateResponse
smb21_response = record {
  security_mode = 1;
  dialect_revision = 0x210;
  capabilities = server_capabilities;
  contexts = [];
}

abbrev smb21_packet : Slice
smb21_packet = negotiate_packet 1 (0x10 ∷ 0x02 ∷ [])

abbrev negotiated_conn : Conn
negotiated_conn = new_conn smb21_params

abbrev in_challenge : Conn
in_challenge = record negotiated_conn { state = state_session_setup_challenge }

abbrev nine : ServerSession
nine = new_session open_server smb21_params 9 (6 ∷ [])

abbrev active : Conn
active = activate nine smb21_params in_challenge

-- The last request first.
abbrev requests : List Slice
requests = setup_packet 9 6 ∷ setup_packet 0 4 ∷ smb21_packet ∷ []

negotiated-Reachable : Reachable open_server (smb21_packet ∷ []) negotiated_conn
unfolding go_smb.Conn.Negotiate.accept go_smb.Packet.is_smb1 go_smb.Packet.command
    go_smb.Packet.protocol_id go_smb.Packet.get go_smb.Packet.body go_smb.Bytes.read
    go_smb.Bytes.get_le go_smb.Bytes.from go_smb.Bytes.sub go_smb.Bytes.index
    go_smb.Conn.Negotiate.is_invalid_negotiate go_smb.Conn.Negotiate.dialects
    go_smb.Conn.Negotiate.choose_dialect go_smb.Conn.Negotiate.negotiate
    go_smb.Conn.Negotiate.negotiate_request go_smb.Conn.Negotiate.make_response
    go_smb.Conn.States.setup_token go_smb.Conn.Setup.is_invalid_setup
    go_smb.Conn.Setup.security_buffer go_smb.Conn.States.dispatch go_smb.Conn.States.conn_negotiate
negotiated-Reachable =
    after [] smb21_packet (new_conn new_params) negotiated_conn (fresh new_params) (
      handled 5 (some []) none (new_conn new_params) negotiated_conn
        (some (negotiated smb21_response)) tt refl)

in_challenge-Reachable : Reachable open_server (setup_packet 0 4 ∷ smb21_packet ∷ []) in_challenge
unfolding go_smb.Conn.Negotiate.accept go_smb.Packet.is_smb1 go_smb.Packet.command
    go_smb.Packet.protocol_id go_smb.Packet.get go_smb.Packet.body go_smb.Bytes.read
    go_smb.Bytes.get_le go_smb.Bytes.from go_smb.Bytes.sub go_smb.Bytes.index
    go_smb.Conn.Negotiate.is_invalid_negotiate go_smb.Conn.Negotiate.dialects
    go_smb.Conn.Negotiate.choose_dialect go_smb.Conn.Negotiate.negotiate
    go_smb.Conn.Negotiate.negotiate_request go_smb.Conn.Negotiate.make_response
    go_smb.Conn.States.setup_token go_smb.Conn.Setup.is_invalid_setup
    go_smb.Conn.Setup.security_buffer go_smb.Conn.States.dispatch go_smb.Conn.States.conn_negotiate
    go_smb.Conn.States.session_setup go_smb.Conn.States.server_setup
in_challenge-Reachable =
    after (smb21_packet ∷ []) (setup_packet 0 4) negotiated_conn in_challenge negotiated-Reachable (
      handled 5 (some []) none negotiated_conn in_challenge
        (some (setup_reply status_more_processing_required 5 0 (1 ∷ 4 ∷ []))) tt refl)

active-Reachable : Reachable open_server requests active
unfolding go_smb.Conn.Negotiate.accept go_smb.Packet.is_smb1 go_smb.Packet.command
    go_smb.Packet.protocol_id go_smb.Packet.get go_smb.Packet.body go_smb.Bytes.read
    go_smb.Bytes.get_le go_smb.Bytes.from go_smb.Bytes.sub go_smb.Bytes.index
    go_smb.Conn.Negotiate.is_invalid_negotiate go_smb.Conn.Negotiate.dialects
    go_smb.Conn.Negotiate.choose_dialect go_smb.Conn.Negotiate.negotiate
    go_smb.Conn.Negotiate.negotiate_request go_smb.Conn.Negotiate.make_response
    go_smb.Conn.States.setup_token go_smb.Conn.Setup.is_invalid_setup
    go_smb.Conn.Setup.security_buffer go_smb.Conn.States.dispatch go_smb.Conn.States.conn_negotiate
    go_smb.Conn.States.session_setup go_smb.Conn.States.server_setup_challenge
active-Reachable =
    after (setup_packet 0 4 ∷ smb21_packet ∷ []) (setup_packet 9 6) in_challenge active
      in_challenge-Reachable
      (handled 5 (some []) none in_challenge active (some (setup_reply 0 9 0 [])) tt refl)

session_nine-IsSound : IsSound open_server requests active
session_nine-IsSound = Reachable-IsSound open_server requests active active-Reachable

session_nine_established :
    (c : Conn) × (serve open_server
        (event 5 [] smb21_packet
          ∷ event 5 [] (setup_packet 0 4)
          ∷ event 5 [] (setup_packet 9 6)
          ∷ [])
        (new_conn new_params)
      ≡ some (done c))
    × (c.state ≡ state_session_active)
    × (c.use_session ≡ true)
    × ((s : ServerSession) × (c.session ≡ some s)
        × (s.session_id ≡ 9)
        × (find 9 c.sessions ≡ some s))
unfolding go_smb.Conn.Negotiate.accept go_smb.Packet.is_smb1 go_smb.Packet.command
    go_smb.Packet.protocol_id go_smb.Packet.get go_smb.Packet.body go_smb.Bytes.read
    go_smb.Bytes.get_le go_smb.Bytes.from go_smb.Bytes.sub go_smb.Bytes.index
    go_smb.Conn.Negotiate.is_invalid_negotiate go_smb.Conn.Negotiate.dialects
    go_smb.Conn.Negotiate.choose_dialect go_smb.Conn.Negotiate.negotiate
    go_smb.Conn.Negotiate.negotiate_request go_smb.Conn.Negotiate.make_response
    go_smb.Conn.States.setup_token go_smb.Conn.Setup.is_invalid_setup
    go_smb.Conn.Setup.security_buffer go_smb.Conn.States.dispatch go_smb.Conn.States.conn_negotiate
session_nine_established =
    serve-establishes open_server new_params smb21_params smb21_response smb21_packet
      (setup_packet 0 4) (setup_packet 9 6) 5 [] [] [] (4 ∷ []) (1 ∷ 4 ∷ []) (6 ∷ []) [] (6 ∷ []) 9
      refl refl refl refl refl refl refl refl refl
