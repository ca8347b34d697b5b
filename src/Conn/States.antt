-- ===== src/Conn/States.antt =====
-- server/server.go: the state of a connection, and how `Run` changes it with each request: `negotiate`,
-- `sessionSetup` and its two steps, `logoff`. The SPNEGO server of the negotiator is a parameter, and so are the bytes
-- that `encodePacket` makes of a response (`none` where the transport does not take them): they enter the hash.
pub mod Sound
pub mod Laws
pub mod Live
mod Runs
use go_smb.Common.{
  ℕ, Bool, true, false, ◌&&◌, ◌||◌, Option, none, some, List, [], ◌∷◌, ◌++◌, ◌==◌, ◌!=◌,
  if◌then◌else◌, ◌>>=◌, bit_and,
}
use go_smb.Common.Assoc.{find, insert}
use go_smb.Bytes.{Slice, elements}
use go_smb.Session.{guest_or_null}
use go_smb.Packet.{get, command, session_id, smb_com_negotiate}
use go_smb.Receive.{smb2_negotiate, smb2_session_setup}
use go_smb.Conn.Negotiate.{
  Outcome, failed, done, Params, Config, NegotiateResponse, negotiate, accept, calc_preauth_hash,
  status_more_processing_required,
}
use go_smb.Conn.Setup.{Crypto, Keys, no_keys, is_invalid_setup, security_buffer, session_keys}

pub data ConnState : Type 0 where
  state_negotiate state_session_setup state_session_setup_challenge state_session_active : ConnState

pub record ServerSession : Type 0 where
  pub session_id : ℕ
  pub session_flags : ℕ
  pub keys : Keys

pub record Conn : Type 0 where
  pub state : ConnState
  pub use_session : Bool
  pub session : Option ServerSession
  pub sessions : List (ℕ × ServerSession)
  pub params : Params

-- The server, its libraries and its SPNEGO server; `authenticate` gives the token and the session key.
pub record Server : Type 0 where
  pub config : Config
  pub allow_guest : Bool
  pub crypto : Crypto
  pub challenge : List ℕ → Option (List ℕ)
  pub authenticate : List ℕ → Option (List ℕ × List ℕ)

-- What is sent: the response of `negotiate`, or a session setup's status, session id, flags and token. An access
-- denied is sent before the connection ends.
pub data Reply : Type 0 where
  negotiated : NegotiateResponse → Reply
  setup_reply : ℕ → ℕ → ℕ → List ℕ → Reply
  logged_off : Reply

-- `ServeListener`'s new connection.
abbrev pub new_conn : Params → Conn
new_conn params = record {
  state = state_negotiate;
  use_session = false;
  session = none;
  sessions = [];
  params = params;
}

-- `c.session = nil`, `c.resetSession()` and `STATE_NEGOTIATE`.
abbrev pub reset : Conn → Conn
reset c = record c { session = none; use_session = false; state = state_negotiate }

abbrev pub is_negotiate : ConnState → Bool
is_negotiate state_negotiate = true
is_negotiate _ = false

-- `sendPacket` of a response, outside a compound: before a session is active the bytes are hashed.
abbrev pub hash_sent : Config → List ℕ → ConnState → Params → Params
hash_sent cfg bytes state_session_active params = params
hash_sent cfg bytes _ params = calc_preauth_hash cfg bytes params

abbrev pub send : Config → Option (List ℕ) → Conn → Reply → Outcome (Conn × Reply)
send cfg none c rsp = failed
send cfg (some bytes) c rsp = done (record c { params = hash_sent cfg bytes c.state c.params }, rsp)

unfoldable pub conn_negotiate :
    Server → Option (List ℕ) → Slice → Conn → Option (Outcome (Conn × Reply))
conn_negotiate srv sent pkt c =
    let c0 = if is_negotiate c.state then c else if c.use_session then reset c else c in
    do
      res ← negotiate srv.config pkt c0.params
      some (elim res [
        | failed ↦ failed
        | done (params, rsp) ↦ send srv.config sent (record c0 { params = params }) (negotiated rsp)
      ])

-- The token of a session setup, once its request is accepted and well formed.
unfoldable pub setup_token : Slice → Option (Outcome (List ℕ))
setup_token pkt = do
  res ← accept smb2_session_setup pkt
  elim res [
    | failed ↦ some failed
    | done r ↦ do
      broken ← is_invalid_setup r
      if broken then some failed else do token ← security_buffer r; some (done token)
  ]

-- `sessionServerSetup` from the token on; `random` is what `randint64` gives.
abbrev pub setup_with :
    Server → ℕ → Option (List ℕ) → Slice → Conn → Outcome (List ℕ) → Outcome (Conn × Reply)
setup_with srv random sent pkt c failed = failed
setup_with srv random sent pkt c (done token) = elim (srv.challenge token) [
  | none ↦ failed
  | some out ↦
      send srv.config sent
        (record c {
          params = calc_preauth_hash srv.config (elements pkt) c.params;
          state = state_session_setup_challenge;
        })
        (setup_reply status_more_processing_required random 0 out)
]

unfoldable pub server_setup :
    Server → ℕ → Option (List ℕ) → Slice → Conn → Option (Outcome (Conn × Reply))
server_setup srv random sent pkt c = do
  res ← setup_token pkt
  some (setup_with srv random sent pkt c res)

abbrev pub guest_flags : Server → ℕ
guest_flags srv = if srv.allow_guest then 1 else 0

-- The session that an accepted token makes, under the id that the packet has.
abbrev pub new_session : Server → Params → ℕ → List ℕ → ServerSession
new_session srv params id key = record {
  session_id = id;
  session_flags = guest_flags srv;
  keys =
      if bit_and (guest_flags srv) guest_or_null == 0
      then session_keys srv.crypto params.dialect params.cipher_id params.preauth_hash key
      else no_keys;
}

-- `registerSession`, the active state, and `enableSession` once the response is sent.
abbrev pub activate : ServerSession → Params → Conn → Conn
activate s params c = record c {
  state = state_session_active;
  use_session = true;
  session = some s;
  sessions = insert s.session_id s c.sessions;
  params = params;
}

-- `sessionServerSetupChallenge` from the token on, for the id of the packet.
abbrev pub challenge_with :
    Server → Option (List ℕ) → Slice → Conn → ℕ → Outcome (List ℕ) → Outcome (Conn × Reply)
challenge_with srv sent pkt c id failed = failed
challenge_with srv sent pkt c id (done token) = elim (srv.authenticate token) [
  | none ↦ failed
  | some (out, key) ↦
      let params = calc_preauth_hash srv.config (elements pkt) c.params in
      let s = new_session srv params id key in
      elim sent [
        | none ↦ failed
        | some bytes ↦ done (activate s params c, setup_reply 0 id (guest_flags srv) out)
      ]
]

unfoldable pub server_setup_challenge :
    Server → Option (List ℕ) → Slice → Conn → Option (Outcome (Conn × Reply))
server_setup_challenge srv sent pkt c = do
  res ← setup_token pkt
  id ← get session_id pkt
  some (challenge_with srv sent pkt c id res)

-- The switch of `sessionSetup` on the state.
abbrev pub setup_in :
    Server → ℕ → Option (List ℕ) → Slice → Conn → ConnState → Option (Outcome (Conn × Reply))
setup_in srv random sent pkt c state_negotiate = server_setup srv random sent pkt c
setup_in srv random sent pkt c state_session_setup = server_setup_challenge srv sent pkt c
setup_in srv random sent pkt c state_session_setup_challenge = server_setup_challenge srv sent pkt c
setup_in srv random sent pkt c state_session_active = some failed

unfoldable pub session_setup :
    Server → ℕ → Option (List ℕ) → Slice → Conn → Option (Outcome (Conn × Reply))
session_setup srv random sent pkt c =
    let c0 = if c.use_session then reset c else c in setup_in srv random sent pkt c0 c0.state

-- `logoff`, which leaves the session as it is.
unfoldable pub logoff : Server → Option (List ℕ) → Conn → Outcome (Conn × Reply)
logoff srv sent c = send srv.config sent c logged_off

abbrev pub smb2_logoff : ℕ
smb2_logoff = 2

abbrev pub answered : Outcome (Conn × Reply) → Outcome (Conn × Option Reply)
answered failed = failed
answered (done (c, r)) = done (c, some r)

abbrev pub with_found : Option ServerSession → Conn → Conn
with_found none c = c
with_found (some s) c = record c { session = some s }

-- `Run` with one request and the session that the receiver has found for it: the commands that concern the
-- session. The result is `none` where the command is another one, which leaves these fields as they are.
unfoldable pub dispatch :
    Server
    → ℕ
    → Option (List ℕ)
    → Slice
    → Option ServerSession
    → Conn
    → Option (Outcome (Conn × Option Reply))
dispatch srv random sent pkt found c =
    let c1 = with_found found c in
    do
      cmd ← command pkt
      if cmd == smb2_negotiate || cmd == smb_com_negotiate
          then conn_negotiate srv sent pkt c1 >>= (λ o. some (answered o))
          else if cmd == smb2_session_setup
          then session_setup srv random sent pkt c1 >>= (λ o. some (answered o))
          else if cmd == smb2_logoff
          then some (answered (logoff srv sent c1))
          else some (done (c1, none))
