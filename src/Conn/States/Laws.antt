-- ===== src/Conn/States/Laws.antt =====
-- server/server.go: what holds of a connection whatever requests it gets.
use go_smb.Common.{
  ℕ, ◌≡◌, refl, inl, inr, Bool, true, false, Option, none, some, List, ◌∷◌, Bool-cases,
  if◌then◌else◌, ◌>>=◌, Option-cases, Post, Post-pure, Post-after, Post-bind, Post-if, Post-some,
  ==_refl, ==_iff, subst,
}
use go_smb.Common.Assoc.{find-insert, find-insert-some}
use go_smb.Bytes.{Slice, elements}
use go_smb.Packet.{get, session_id, command}
use go_smb.Conn.Negotiate.{
  Outcome, failed, done, Params, NegotiateResponse, calc_preauth_hash,
  status_more_processing_required,
}
use go_smb.Conn.States.Sound.{
  is_active, IsFound, Among, IsAccepted, IsSound, handled, Reachable, fresh, after,
}
use go_smb.Conn.States.{
  Conn, ServerSession, Server, Reply, ConnState, state_negotiate, state_session_setup,
  state_session_setup_challenge, state_session_active, reset, send, conn_negotiate, setup_token,
  server_setup, server_setup_challenge, session_setup, logoff, setup_with, challenge_with, setup_in,
  dispatch, answered, with_found, activate, new_session, is_negotiate, negotiated, setup_reply,
  logged_off,
}

-- What an outcome that is not an error leaves.
abbrev pub Leaves : Server → List Slice → Outcome (Conn × Reply) → Type 0
Leaves srv h failed = Unit
Leaves srv h (done (c, r)) = IsSound srv h c

module _ (srv : Server) (h : List Slice) where
  -- The session that an accepted token makes.
  new_session-IsAccepted :
      (pkt : Slice) (token out key : List ℕ) (earlier : Params) (id : ℕ)
      → Among pkt h
      → get session_id pkt ≡ some id
      → setup_token pkt ≡ some (done token)
      → srv.authenticate token ≡ some (out, key)
      → IsAccepted srv h id
          (new_session srv (calc_preauth_hash srv.config (elements pkt) earlier) id key)
  new_session-IsAccepted pkt token out key earlier id among named has accepts = record {
    pkt = pkt;
    token = token;
    out = out;
    key = key;
    earlier = earlier;
    params = calc_preauth_hash srv.config (elements pkt) earlier;
    hashes = refl;
    handled_before = among;
    has_id = named;
    has_token = has;
    accepts = accepts;
    own_id = refl;
    own_flags = refl;
    own_keys = elim (Bool-cases srv.allow_guest) [
      | inl guests ↦ rw guests refl
      | inr none_such ↦ rw none_such refl
    ];
  }

  -- The parameters play no part.
  params-IsSound :
      (c : Conn) (p : Params) → IsSound srv h c → IsSound srv h (record c { params = p })
  params-IsSound c p sound = record {
    used = sound.used;
    registered = sound.registered;
    accepted = sound.accepted;
  }

  send-Leaves :
      (sent : Option (List ℕ)) (c : Conn) (r : Reply)
      → IsSound srv h c
      → Leaves srv h (send srv.config sent c r)
  send-Leaves none c r sound = tt
  send-Leaves (some bytes) c r sound = params-IsSound c _ sound

  reset-IsSound : (c : Conn) → IsSound srv h c → IsSound srv h (reset c)
  reset-IsSound c sound = record { used = refl; registered = λ k. cc k; accepted = sound.accepted }

  IsSound-if :
      (b : Bool) (x y : Conn)
      → IsSound srv h x
      → IsSound srv h y
      → IsSound srv h (if b then x else y)
  IsSound-if true x y l r = l
  IsSound-if false x y l r = r

  abbrev Good : Outcome (Conn × Reply) → Type 0
  Good o = Leaves srv h o

  negotiated_leaves :
      (c : Conn) (sent : Option (List ℕ))
      → IsSound srv h c
      → (o : Outcome (Params × NegotiateResponse))
      → Good (elim o [
        | failed ↦ failed
        | done (params, rsp) ↦ send srv.config sent (record c { params = params }) (negotiated rsp)
      ])
  negotiated_leaves c sent sound failed = tt
  negotiated_leaves c sent sound (done (params, rsp)) =
      send-Leaves sent (record c { params = params }) (negotiated rsp)
        (params-IsSound c params sound)

  conn_negotiate-Leaves :
      (sent : Option (List ℕ)) (pkt : Slice) (c : Conn)
      → IsSound srv h c
      → Post Good (conn_negotiate srv sent pkt c)
  unfolding conn_negotiate
  conn_negotiate-Leaves sent pkt c sound =
      let c0 = if is_negotiate c.state then c else if c.use_session then reset c else c in
      let sound0 =
        IsSound-if (is_negotiate c.state) c (if c.use_session then reset c else c) sound
          (IsSound-if c.use_session (reset c) c (reset-IsSound c sound) sound) in
      Post-after Good _ _ (λ o _. Post-pure Good (negotiated_leaves c0 sent sound0 o))

  setup_with-Leaves :
      (random : ℕ) (sent : Option (List ℕ)) (pkt : Slice) (c : Conn)
      → IsSound srv h c
      → c.use_session ≡ false
      → (o : Outcome (List ℕ)) → Good (setup_with srv random sent pkt c o)
  setup_with-Leaves random sent pkt c sound idle failed = tt
  setup_with-Leaves random sent pkt c sound idle (done token) =
      let made : Conn = record c {
        params = calc_preauth_hash srv.config (elements pkt) c.params;
        state = state_session_setup_challenge;
      } in
      let sound' : IsSound srv h made = record {
        used = idle;
        registered = λ k. cc;
        accepted = sound.accepted;
      } in
      elim (srv.challenge token)
        as (λ r. Good (elim r [
          | none ↦ failed
          | some out ↦
              send srv.config sent made (setup_reply status_more_processing_required random 0 out)
        ])) [
          | none ↦ tt
          | some out ↦
              send-Leaves sent made (setup_reply status_more_processing_required random 0 out)
                sound'
        ]

  activate-IsSound :
      (s : ServerSession) (p : Params) (c : Conn)
      → IsAccepted srv h s.session_id s
      → IsSound srv h c
      → IsSound srv h (activate s p c)
  activate-IsSound s p c ok sound = record {
    used = refl;
    registered = λ k. (
      s,
      refl,
      rw (find-insert s.session_id s.session_id s c.sessions, ==_refl s.session_id) refl,
    );
    accepted = λ id t k. elim (find-insert-some s.session_id id s c.sessions k) [
      | inl (same, new) ↦
          subst (IsAccepted srv h id) new
            (subst (λ n. IsAccepted srv h n s) ((==_iff s.session_id id).0 same) ok)
      | inr (other, old) ↦ sound.accepted id t old
    ];
  }

  challenge_with-Leaves :
      (sent : Option (List ℕ)) (pkt : Slice) (c : Conn) (id : ℕ)
      → IsSound srv h c
      → Among pkt h
      → get session_id pkt ≡ some id
      → (o : Outcome (List ℕ)) → setup_token pkt ≡ some o
      → Good (challenge_with srv sent pkt c id o)
  challenge_with-Leaves sent pkt c id sound among named failed e' = tt
  challenge_with-Leaves none pkt c id sound among named (done token) e' =
      elim (Option-cases (srv.authenticate token)) [
        | inl e ↦ rw (challenge_with, e) tt
        | inr (r, e) ↦ rw (challenge_with, e) tt
      ]
  challenge_with-Leaves (some bytes) pkt c id sound among named (done token) e' =
      elim (Option-cases (srv.authenticate token)) [
        | inl e ↦ rw (challenge_with, e) tt
        | inr (r, e) ↦
            let params = calc_preauth_hash srv.config (elements pkt) c.params in
            rw (challenge_with, e)
              (activate-IsSound (new_session srv params id r.1) params c
                (new_session-IsAccepted pkt token r.0 r.1 c.params id among named e' e) sound)
      ]

  server_setup_challenge-Leaves :
      (sent : Option (List ℕ)) (pkt : Slice) (c : Conn)
      → IsSound srv h c
      → Among pkt h
      → Post Good (server_setup_challenge srv sent pkt c)
  unfolding server_setup_challenge
  server_setup_challenge-Leaves sent pkt c sound among =
      Post-after Good (setup_token pkt) _ (λ o token.
        Post-after Good (get session_id pkt) _ (λ id named.
          Post-pure Good (challenge_with-Leaves sent pkt c id sound among named o token)))

  server_setup-Leaves :
      (random : ℕ) (sent : Option (List ℕ)) (pkt : Slice) (c : Conn)
      → IsSound srv h c
      → c.use_session ≡ false
      → Post Good (server_setup srv random sent pkt c)
  unfolding server_setup
  server_setup-Leaves random sent pkt c sound idle =
      Post-after Good (setup_token pkt) _
        (λ o _. Post-pure Good (setup_with-Leaves random sent pkt c sound idle o))

  setup_in-Leaves :
      (random : ℕ) (sent : Option (List ℕ)) (pkt : Slice) (c : Conn) (st : ConnState)
      → IsSound srv h c
      → c.use_session ≡ is_active st
      → Among pkt h
      → Post Good (setup_in srv random sent pkt c st)
  setup_in-Leaves random sent pkt c state_negotiate sound idle among =
      server_setup-Leaves random sent pkt c sound idle
  setup_in-Leaves random sent pkt c state_session_setup sound idle among =
      server_setup_challenge-Leaves sent pkt c sound among
  setup_in-Leaves random sent pkt c state_session_setup_challenge sound idle among =
      server_setup_challenge-Leaves sent pkt c sound among
  setup_in-Leaves random sent pkt c state_session_active sound idle among = Post-pure Good tt

  session_setup-Leaves :
      (random : ℕ) (sent : Option (List ℕ)) (pkt : Slice) (c : Conn)
      → IsSound srv h c
      → Among pkt h
      → Post Good (session_setup srv random sent pkt c)
  unfolding session_setup
  session_setup-Leaves random sent pkt c sound among =
      let c0 = if c.use_session then reset c else c in
      let sound0 = IsSound-if c.use_session (reset c) c (reset-IsSound c sound) sound in
      setup_in-Leaves random sent pkt c0 c0.state sound0 sound0.used among

  abbrev Kept : Outcome (Conn × Option Reply) → Type 0
  Kept failed = Unit
  Kept (done (c, r)) = IsSound srv h c

  answered-Kept : (o : Outcome (Conn × Reply)) → Good o → Kept (answered o)
  answered-Kept failed k = tt
  answered-Kept (done (c, r)) k = k

  with_found-IsSound :
      (found : Option ServerSession) (c : Conn)
      → IsFound found c
      → IsSound srv h c
      → IsSound srv h (with_found found c)
  with_found-IsSound none c k sound = sound
  with_found-IsSound (some s) c k sound = record {
    used = sound.used;
    registered = λ _. (s, refl, k);
    accepted = sound.accepted;
  }

  answer-Kept :
      (m : Option (Outcome (Conn × Reply)))
      → Post Good m
      → Post Kept (m >>= (λ o. some (answered o)))
  answer-Kept m k = Post-bind Good Kept m _ k (λ o _ good. Post-pure Kept (answered-Kept o good))

  dispatch-Kept :
      (random : ℕ) (sent : Option (List ℕ)) (pkt : Slice) (found : Option ServerSession) (c : Conn)
      → IsFound found c
      → IsSound srv h c
      → Among pkt h
      → Post Kept (dispatch srv random sent pkt found c)
  unfolding dispatch logoff
  dispatch-Kept random sent pkt found c given sound among =
      let sound1 = with_found-IsSound found c given sound in
      let c1 = with_found found c in
      Post-after Kept (command pkt) _ (λ cmd _.
        Post-if Kept _ _ _ (answer-Kept _ (conn_negotiate-Leaves sent pkt c1 sound1)) (
          Post-if Kept _ _ _ (answer-Kept _ (session_setup-Leaves random sent pkt c1 sound1 among))
            (Post-if Kept _ _ _
              (Post-pure Kept (answered-Kept _ (send-Leaves sent c1 logged_off sound1)))
              (Post-pure Kept sound1))))

-- A request more in the history.
IsSound-weaken :
    (srv : Server) (h : List Slice) (p : Slice) (c : Conn) → IsSound srv h c → IsSound srv (p ∷ h) c
IsSound-weaken srv h p c sound = record {
  used = sound.used;
  registered = sound.registered;
  accepted = λ id s k.
      let a = sound.accepted id s k in
      record {
        pkt = a.pkt;
        token = a.token;
        out = a.out;
        key = a.key;
        earlier = a.earlier;
        params = a.params;
        hashes = a.hashes;
        handled_before = inr a.handled_before;
        has_id = a.has_id;
        has_token = a.has_token;
        accepts = a.accepts;
        own_id = a.own_id;
        own_flags = a.own_flags;
        own_keys = a.own_keys;
      };
}

-- Whatever requests a connection has handled, sessions are in use just in the active state, and the current session is
-- then registered. Every session that is registered under an id was set up by one of these requests, whose session id
-- this is and whose token the authenticator accepted, and the session has this id, the flags that the server gives, and
-- the keys made of the accepted session key and of parameters into which the request is hashed, or none where the
-- server takes guests.
pub Reachable-IsSound :
    (srv : Server) (h : List Slice) (c : Conn) → Reachable srv h c → IsSound srv h c
Reachable-IsSound srv _ c (fresh params) = record {
  used = refl;
  registered = λ k. cc k;
  accepted = λ id s k. cc k;
}
Reachable-IsSound srv _ c (after h pkt b _ before (handled random sent found _ _ reply given ran)) =
    Post-some (Kept srv (pkt ∷ h))
      (dispatch-Kept srv (pkt ∷ h) random sent pkt found b given
        (IsSound-weaken srv h pkt b (Reachable-IsSound srv h b before)) (inl refl))
      ran
