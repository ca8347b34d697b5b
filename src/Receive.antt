-- ===== src/Receive.antt =====
-- server/conn.go: what `runReciever` does with one transport frame. `tryDecrypt`, the checks of
-- the session, and the loop that splits a compound frame, verifies each part and hands it to
-- `tryHandle`. The parts share the frame's memory, as in Go. A `compoundContext` is a pointer that
-- the requests share: it stands for its place in a list of the frame's contexts.
pub mod Laws
pub mod Errors
mod Runs
use go_smb.Common.{
  ℕ, zero, suc, ◌+◌, ◌-◌, Bool, true, false, not, ◌&&◌, ◌||◌, Option, none, some, List, [], ◌∷◌,
  ◌++◌, length, take, drop, ◌==◌, ◌!=◌, if◌then◌else◌, ◌>>=◌, bit_and,
}
use go_smb.Common.Assoc.{find, insert}
use go_smb.Bytes.{Slice, of_list, elements, sub, from}
use go_smb.Packet.{
  get, flags, next_command, tree_id, session_id, credit_request, message_id, command, is_invalid,
  is_compound_first, is_compound_last, flags_signed,
}
use go_smb.Session.{Session, verify, decrypt, encrypted, guest_or_null}
use go_smb.Packet.Transform as Transform

-- The fields of `conn` that the receiver reads.
pub record Conn : Type 0 where
  pub current : Option Session
  pub sessions : List (ℕ × Session)
  pub use_session : Bool
  pub require_signing : Bool

abbrev pub smb2_negotiate : ℕ
smb2_negotiate = 0

abbrev pub smb2_session_setup : ℕ
smb2_session_setup = 1

abbrev pub smb2_echo : ℕ
smb2_echo = 13

abbrev pub register_session : Session → Conn → Conn
register_session s c = record c { current = some s; sessions = insert s.session_id s c.sessions }

abbrev pub lookup_session : Conn → ℕ → Option Session
lookup_session c id = elim c.current [
  | none ↦ find id c.sessions
  | some s ↦ if s.session_id == id then some s else find id c.sessions
]

-- `tryDecrypt`: `none` inside for its errors, else the packet, the session that decrypted it and
-- whether it was encrypted.
unfoldable pub try_decrypt : Conn → Slice → Option (Option (Slice × Option Session × Bool))
unfolding get
try_decrypt c pkt = do
  plain ← is_invalid pkt
  if not plain then some (some (pkt, none, false)) else do
    broken ← Transform.is_invalid pkt
    if broken then some none else do
      f ← get Transform.transform_flags pkt
      if f != encrypted then some none else do
        id ← get Transform.transform_session_id pkt
        elim (lookup_session c id) [
          | none ↦ some none
          | some s ↦ do
            opened ← decrypt s pkt
            elim opened [ none ↦ some none | some text ↦ some (some (of_list text, some s, true)) ]
        ]

-- The switch on the session of a request: whether the frame is skipped.
unfoldable pub skips : Option Session → Slice → Option Bool
unfolding get
skips found pkt = do
  cmd ← command pkt
  id ← get session_id pkt
  f ← get flags pkt
  tree ← get tree_id pkt
  let setup = cmd == smb2_negotiate || cmd == smb2_session_setup in
      some (elim found [
        | none ↦ not setup && not (cmd == smb2_echo && (id == 0 && bit_and f flags_signed == 0))
        | some s ↦
            not setup && s.session_id != id
            || elim (find tree s.tree_conns) [ none ↦ false | some t ↦ t != tree ]
      ])

-- `tryVerify`: the packet, its signature computed anew if it was checked, and whether there is no error.
unfoldable pub try_verify : Conn → Option Session → Bool → Slice → Option (Slice × Bool)
unfolding get
try_verify c found was_encrypted pkt = do
  id ← message_id pkt
  if id == 0xffff_ffff_ffff_ffff then some (pkt, true) else do
    f ← get flags pkt
    sid ← get session_id pkt
    if bit_and f flags_signed != 0
        then elim found [
          | none ↦ some (pkt, false)
          | some s ↦ if s.session_id != sid then some (pkt, false) else verify s pkt
        ]
        else elim found [
          | none ↦ some (pkt, true)
          | some s ↦ some (
            pkt,
            not (
                c.require_signing
                && (not was_encrypted
                    && (bit_and s.session_flags guest_or_null == 0 && s.session_id == sid))),
          )
        ]

pub record CompoundContext : Type 0 where
  pub tree_id : ℕ
  pub session_id : ℕ
  pub last_msg_id : ℕ

-- A `requestResponse`; `comp_ctx` is the place of its context.
pub record Request : Type 0 where
  pub msg_id : ℕ
  pub credit_request : ℕ
  pub pkt : Slice
  pub session : Option Session
  pub comp_ctx : Option ℕ

-- `tryHandle`, which takes the error of the verification and does not look at it.
unfoldable pub try_handle : Slice → Option Session → Option ℕ → Bool → Option Request
unfolding get
try_handle pkt found ctx verified = do
  id ← message_id pkt
  credit ← get credit_request pkt
  some (record { msg_id = id; credit_request = credit; pkt = pkt; session = found; comp_ctx = ctx })

-- How the loop ended: the frame used up, a part that is invalid (the connection is shut down), or the fuel.
pub data Ended : Type 0 where
  whole : Ended
  invalid_part : Ended
  no_fuel : Ended

pub record Handled : Type 0 where
  pub requests : List Request
  pub contexts : List CompoundContext
  pub ended : Ended

abbrev pub set_last : ℕ → ℕ → List CompoundContext → List CompoundContext
set_last zero id [] = []
set_last (suc i) id [] = []
set_last zero id (c ∷ cs) = record c { last_msg_id = id } ∷ cs
set_last (suc i) id (c ∷ cs) = c ∷ set_last i id cs

-- `IsCompoundFirst`: a new context.
unfoldable pub open_context :
    Slice → Option ℕ → List CompoundContext → Option (Option ℕ × List CompoundContext)
unfolding get
open_context p ctx store = do
  first ← is_compound_first p
  if not first then some (ctx, store) else do
    tree ← get tree_id p
    id ← get session_id p
    some (
      some (length store),
      store ++ (record { tree_id = tree; session_id = id; last_msg_id = 0 }) ∷ [],
    )

-- `IsCompoundLast`: its message id is noted in the context; without one this is a nil dereference.
unfoldable pub close_context :
    Slice → Option ℕ → List CompoundContext → Option (List CompoundContext)
close_context p ctx store = do
  last ← is_compound_last p
  if not last then some store else do i ← ctx; id ← message_id p; some (set_last i id store)

-- `pkt, next = pkt[:off], pkt[off:]`; a part's capacity reaches to the end of the frame.
unfoldable pub split_part : Slice → Option (Slice × Option Slice)
unfolding get
split_part p = do
  off ← get next_command p
  if off == 0
      then some (p, none)
      else do part ← sub p 0 off; next ← from p off; some (part, some next)

-- `next` once the part before it was verified: the same memory.
abbrev pub shared : Slice → Option Slice → Option Slice
shared part none = none
shared part (some next) = some (record next { bytes = drop part.len part.bytes })

-- One part: handled, with what is left of the frame.
unfoldable pub one_part :
    Conn
    → Option Session
    → Bool
    → Slice
    → Option ℕ
    → List CompoundContext
    → Option (Request × Option Slice × Option ℕ × List CompoundContext)
one_part c found was_encrypted p ctx store = do
  opened ← open_context p ctx store
  closed ← close_context p opened.0 opened.1
  split ← split_part p
  checked ←
      (if c.use_session then try_verify c found was_encrypted split.0 else some (split.0, true))
  request ← try_handle checked.0 found opened.0 checked.1
  some (request, shared checked.0 split.1, opened.0, closed)

-- The inner loop.
unfoldable pub handle_parts :
    ℕ → Conn → Option Session → Bool → Slice → Option ℕ → List CompoundContext → Option Handled
handle_parts zero c found was_encrypted p ctx store =
    some (record { requests = []; contexts = store; ended = no_fuel })
handle_parts (suc n) c found was_encrypted p ctx store = do
  bad ← is_invalid p
  if bad then some (record { requests = []; contexts = store; ended = invalid_part }) else do
    (request, next, ctx', store') ← one_part c found was_encrypted p ctx store
    elim next [
      | none ↦ some (record { requests = request ∷ []; contexts = store'; ended = whole })
      | some q ↦ do
        rest ← handle_parts n c found was_encrypted q ctx' store'
        some (record rest { requests = request ∷ rest.requests })
    ]

-- The frame as the session of the request finds it.
unfoldable pub handle_decrypted : Conn → Slice → Option Session → Bool → Option (Option Handled)
handle_decrypted c pkt found was_encrypted = do
  skip ← skips found pkt
  if skip
      then some none
      else (handle_parts (suc pkt.len) c found was_encrypted pkt none [] >>= λ h. some (some h))

abbrev pub request_session : Conn → Option Session → ℕ → Option Session
request_session c none id = lookup_session c id
request_session c (some s) id = some s

unfoldable pub after_decryption :
    Conn → Option (Slice × Option Session × Bool) → Option (Option Handled)
unfolding get
after_decryption c none = some none
after_decryption c (some (pkt, by, was_encrypted)) = do
  id ← get session_id pkt
  handle_decrypted c pkt (request_session c by id) was_encrypted

-- One frame: `none` inside where it is skipped. Fuel `len + 1` is enough.
unfoldable pub receive_frame : Conn → Slice → Option (Option Handled)
receive_frame c frame =
    if c.use_session
    then try_decrypt c frame >>= after_decryption c
    else (handle_parts (suc frame.len) c none false frame none [] >>= λ h. some (some h))
