-- ===== src/Conn/States/Live.antt =====
-- server/server.go: a negotiation and the two steps of a session setup, one after the other.
use go_smb.Common.{ℕ, ◌≡◌, refl, true, Option, none, some, List, [], ◌∷◌, ==_refl, ◌>>=◌}
use go_smb.Common.Assoc.{find, find-insert}
use go_smb.Bytes.{Slice, elements}
use go_smb.Packet.{get, session_id, command}
use go_smb.Receive.{smb2_negotiate, smb2_session_setup}
use go_smb.Conn.Negotiate.{
  Outcome, failed, done, Params, NegotiateResponse, negotiate, calc_preauth_hash,
  status_more_processing_required,
}
use go_smb.Conn.States.{
  Conn, ServerSession, Server, state_session_active, state_session_setup_challenge, new_conn,
  conn_negotiate, setup_token, server_setup, server_setup_challenge, session_setup, dispatch,
  activate, new_session, hash_sent, state_negotiate, setup_with, challenge_with, negotiated,
  setup_reply, guest_flags,
}

-- A request as `Run` gets it, and what the world adds: the random number, and the encoded response.
pub record Event : Type 0 where
  pub random : ℕ
  pub sent : Option (List ℕ)
  pub pkt : Slice
  pub found : Option ServerSession

-- `Run` on the requests in their order, until an error.
unfoldable pub serve : Server → List Event → Conn → Option (Outcome Conn)
serve srv [] c = some (done c)
serve srv (e ∷ es) c = do
  o ← dispatch srv e.random e.sent e.pkt e.found c
  elim o [ failed ↦ some failed | done (c', r) ↦ serve srv es c' ]

abbrev pub event : ℕ → List ℕ → Slice → Event
event random bytes pkt = record { random = random; sent = some bytes; pkt = pkt; found = none }

module _ (srv : Server) (params params' : Params) (rsp : NegotiateResponse) (p q r : Slice) (n : ℕ)
    (b1 b2 b3 : List ℕ) where
  abbrev agreed : Params
  agreed = hash_sent srv.config b1 state_negotiate params'

  abbrev challenged : Params
  challenged =
      hash_sent srv.config b2 state_session_setup_challenge
        (calc_preauth_hash srv.config (elements q) agreed)

  abbrev in_challenge : Conn
  in_challenge = record (new_conn challenged) { state = state_session_setup_challenge }

  first :
      command p ≡ some smb2_negotiate
      → negotiate srv.config p params ≡ some (done (params', rsp))
      → dispatch srv n (some b1) p none (new_conn params)
        ≡ some (done (new_conn agreed, some (negotiated rsp)))
  unfolding dispatch conn_negotiate
  first cmd ok = rw (dispatch, cmd, conn_negotiate, ok) refl

  second :
      (token out : List ℕ)
      → command q ≡ some smb2_session_setup
      → setup_token q ≡ some (done token)
      → srv.challenge token ≡ some out
      → dispatch srv n (some b2) q none (new_conn agreed)
        ≡ some (done (in_challenge, some (setup_reply status_more_processing_required n 0 out)))
  unfolding dispatch session_setup server_setup
  second token out cmd ok asked =
      rw (dispatch, cmd, session_setup, server_setup, ok, setup_with, asked) refl

  third :
      (token out key : List ℕ) (id : ℕ)
      → command r ≡ some smb2_session_setup
      → setup_token r ≡ some (done token)
      → get session_id r ≡ some id
      → srv.authenticate token ≡ some (out, key)
      → dispatch srv n (some b3) r none in_challenge
        ≡ some (
            done (
              activate
                  (new_session srv (calc_preauth_hash srv.config (elements r) challenged) id key)
                  (calc_preauth_hash srv.config (elements r) challenged)
                  in_challenge,
              some (setup_reply 0 id (guest_flags srv) out),
            ))
  unfolding dispatch session_setup server_setup_challenge
  third token out key id cmd ok named accepted =
      rw (dispatch, cmd, session_setup, server_setup_challenge, ok, named, challenge_with, accepted)
        refl

  -- A new connection that gets a negotiate request the server answers and then two session setups, well formed, the first
  -- with a token that has a challenge and the second with one that is accepted, ends in the active state with sessions in use, and
  -- the session of the second setup's id is current and registered. The transport takes every response.
  pub serve-establishes :
      (token2 out2 token3 out3 key : List ℕ) (id : ℕ)
      → command p ≡ some smb2_negotiate
      → negotiate srv.config p params ≡ some (done (params', rsp))
      → command q ≡ some smb2_session_setup
      → setup_token q ≡ some (done token2)
      → srv.challenge token2 ≡ some out2
      → command r ≡ some smb2_session_setup
      → setup_token r ≡ some (done token3)
      → get session_id r ≡ some id
      → srv.authenticate token3 ≡ some (out3, key)
      → (c : Conn) × (serve srv (event n b1 p ∷ event n b2 q ∷ event n b3 r ∷ []) (new_conn params)
          ≡ some (done c))
        × (c.state ≡ state_session_active)
        × (c.use_session ≡ true)
        × ((s : ServerSession) × (c.session ≡ some s)
            × (s.session_id ≡ id)
            × (find id c.sessions ≡ some s))
  unfolding serve
  serve-establishes token2 out2 token3 out3 key id cmd_p ok_p cmd_q ok_q asked cmd_r ok_r named
        accepted =
      let hashed = calc_preauth_hash srv.config (elements r) challenged in
      let s = new_session srv hashed id key in
      (
        activate s hashed in_challenge,
        rw
            (
              serve,
              first cmd_p ok_p,
              second token2 out2 cmd_q ok_q asked,
              third token3 out3 key id cmd_r ok_r named accepted,
            )
            refl,
        refl,
        refl,
        (s, refl, refl, rw (find-insert id id s [], ==_refl id) refl),
      )
