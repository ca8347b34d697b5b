-- ===== src/Conn/States/Sound.antt =====
-- server/server.go: sound connections, and those that requests lead to.
use go_smb.Common.{ℕ, ◌≡◌, Bool, true, false, Option, none, some, List, [], ◌∷◌, ◌⊎◌, if◌then◌else◌}
use go_smb.Common.Assoc.{find}
use go_smb.Bytes.{Slice, elements}
use go_smb.Packet.{get, session_id}
use go_smb.Conn.Negotiate.{calc_preauth_hash, done, Params, calc_preauth_hash}
use go_smb.Conn.Setup.{session_keys, no_keys}
use go_smb.Conn.States.{
  Conn, ServerSession, Server, Reply, ConnState, state_session_active, new_conn, setup_token,
  dispatch,
}

abbrev pub is_active : ConnState → Bool
is_active state_session_active = true
is_active _ = false

-- The receiver gives a request no session or one that is registered.
abbrev pub IsFound : Option ServerSession → Conn → Type 0
IsFound none c = Unit
IsFound (some s) c = find s.session_id c.sessions ≡ some s

-- A packet is among those of a history.
abbrev pub Among : Slice → List Slice → Type 0
Among p [] = ⊥
Among p (q ∷ h) = (p ≡ q) ⊎ Among p h

-- The session was set up by a packet of the history that has its id, and whose token the authenticator
-- accepted: the session has the flags that the server gives, and its keys are made of the accepted
-- session key and the parameters of the connection, the packet hashed in, unless the server takes guests.
pub record IsAccepted (srv : Server) (h : List Slice) (id : ℕ) (s : ServerSession) : Type 0 where
  pub pkt : Slice
  pub token : List ℕ
  pub out : List ℕ
  pub key : List ℕ
  pub earlier : Params
  pub params : Params
  pub handled_before : Among pkt h
  pub has_id : get session_id pkt ≡ some id
  pub has_token : setup_token pkt ≡ some (done token)
  pub accepts : srv.authenticate token ≡ some (out, key)
  pub hashes : params ≡ calc_preauth_hash srv.config (elements pkt) earlier
  pub own_id : s.session_id ≡ id
  pub own_flags : s.session_flags ≡ (if srv.allow_guest then 1 else 0)
  pub own_keys : s.keys ≡ (
      if srv.allow_guest
      then no_keys
      else session_keys srv.crypto params.dialect params.cipher_id params.preauth_hash key)

-- Every session that is registered with the connection was set up by an accepted packet.
abbrev pub Authenticated : Server → List Slice → Conn → Type 0
Authenticated srv h c =
    (id : ℕ) (s : ServerSession) → find id c.sessions ≡ some s → IsAccepted srv h id s

-- Sessions are used just in the active state, and the current one is registered.
pub record IsSound (srv : Server) (h : List Slice) (c : Conn) : Type 0 where
  pub used : c.use_session ≡ is_active c.state
  pub registered :
      c.use_session ≡ true
      → (s : ServerSession) × (c.session ≡ some s) × (find s.session_id c.sessions ≡ some s)
  pub accepted : Authenticated srv h c

-- A request that `Run` has handled without an error, with a session that is registered or none.
pub data Step (srv : Server) (pkt : Slice) : Conn → Conn → Type 0 where
  handled :
      (random : ℕ) (sent : Option (List ℕ)) (found : Option ServerSession) (c c' : Conn)
      (reply : Option Reply)
      → IsFound found c
      → dispatch srv random sent pkt found c ≡ some (done (c', reply))
      → Step srv pkt c c'

-- A new connection, and what any number of requests, the last one first, makes of it.
pub data Reachable (srv : Server) : List Slice → Conn → Type 0 where
  fresh : (params : Params) → Reachable srv [] (new_conn params)
  after :
      (h : List Slice) (pkt : Slice) (c c' : Conn)
      → Reachable srv h c
      → Step srv pkt c c'
      → Reachable srv (pkt ∷ h) c'
