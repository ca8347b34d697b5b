-- ===== src/Opens/Break.antt =====
-- server/server.go, `BreakNode`, `breakOpen`, `sendOplockBreak`, `sendLeaseBreak`, and
-- server/file_tree.go, `oplockBreak`: the server takes oplocks and leases back, and the client
-- answers. What is sent is a value; an error of the send is logged by the code and changes nothing.
pub mod Laws
mod Runs
use go_smb.Common.{
  ℕ, ◌+◌, ◌%◌, ◌^◌, Bool, true, false, Option, none, some, List, [], ◌∷◌, ◌==◌, ◌!=◌, ◌||◌, not,
  if◌then◌else◌,
}
use go_smb.Common.Assoc.{insert}
use go_smb.Opens.Table.{
  Open, Lease, Server, OpLockState, lockstate_none, lockstate_held, lockstate_breaking, get_open,
}

abbrev pub oplock_level_none : ℕ
oplock_level_none = 0x0

abbrev pub oplock_level_ii : ℕ
oplock_level_ii = 0x1

abbrev pub oplock_level_lease : ℕ
oplock_level_lease = 0xff

abbrev pub lease_none : ℕ
lease_none = 0x00

-- The notifications, with the fields that the code fills in from the open.
pub data Notice : Type 0 where
  oplock_notice : (file_id : ℕ) → (node : ℕ) → Notice
  lease_notice : (new_epoch : ℕ) → (lease_key : ℕ) → (current : ℕ) → Notice

abbrev pub is_breaking : OpLockState → Bool
is_breaking lockstate_breaking = true
is_breaking lockstate_none = false
is_breaking lockstate_held = false

unfoldable pub send_oplock_break : Open → Open × Option Notice
send_oplock_break o = if is_breaking o.oplock_state then (o, none) else (
  (if o.oplock_level == oplock_level_ii
      then record o { oplock_level = oplock_level_none; oplock_state = lockstate_none }
      else record o { oplock_state = lockstate_breaking }),
  some (oplock_notice o.file_id o.durable_file_id),
)

-- `Epoch` is a uint16.
abbrev pub break_lease : Lease → Lease
break_lease l = record l {
  epoch = (l.epoch + 1) % 2 ^ 16;
  breaking = true;
  break_to_state = lease_none;
}

abbrev pub send_lease_break_of : Option Lease → Open → Open × Option Notice
send_lease_break_of none o = (o, none)
send_lease_break_of (some l) o = if l.breaking then (o, none) else (
  record o { lease = some (break_lease l); oplock_state = lockstate_breaking },
  some (lease_notice ((l.epoch + 1) % 2 ^ 16) l.lease_key l.lease_state),
)

unfoldable pub send_lease_break : Open → Open × Option Notice
send_lease_break o = send_lease_break_of o.lease o

unfoldable pub break_open : Open → Open × Option Notice
unfolding send_lease_break send_oplock_break
break_open o =
    if not o.connected
    then (o, none)
    else if o.oplock_level == oplock_level_none
    then (o, none)
    else if o.oplock_level == oplock_level_lease
    then send_lease_break o
    else send_oplock_break o

abbrev pub sent : Option Notice → List Notice → List Notice
sent none ns = ns
sent (some n) ns = n ∷ ns

-- The opens of the node, in the order of the table; each is changed in the store.
abbrev pub break_entries : ℕ → List (ℕ × Open) → List (ℕ × Open) × List Notice
break_entries node [] = ([], [])
break_entries node ((k, o) ∷ m) =
    let rest = break_entries node m in
    if o.durable_file_id == node
    then ((k, (break_open o).0) ∷ rest.0, sent (break_open o).1 rest.1)
    else ((k, o) ∷ rest.0, rest.1)

unfoldable pub break_node : ℕ → Server → Server × List Notice
break_node node s =
    (record s { opens = (break_entries node s.opens).0 }, (break_entries node s.opens).1)

pub data AckStatus : Type 0 where
  acknowledged file_closed invalid_device_state object_name_not_found unsuccessful : AckStatus

-- The new level, and the state that goes with it.
abbrev pub settle : ℕ → Open → Open
settle level o = record o {
  oplock_level = level;
  oplock_state = if level == oplock_level_none then lockstate_none else lockstate_held;
}

abbrev pub oplock_ack_open : ℕ → ℕ → ℕ → Server → Option Open → Server × AckStatus
oplock_ack_open file_id node level s none = (s, file_closed)
oplock_ack_open file_id node level s (some o) =
    if o.durable_file_id != node
    then (s, file_closed)
    else if not (is_breaking o.oplock_state)
    then (s, invalid_device_state)
    else (record s { opens = insert file_id (settle level o) s.opens }, acknowledged)

-- The acknowledgment of an oplock break: handle id, node id and level of the request.
unfoldable pub oplock_ack : ℕ → ℕ → ℕ → Server → Server × AckStatus
unfolding get_open
oplock_ack file_id node level s = oplock_ack_open file_id node level s (get_open file_id s)

abbrev pub has_lease : ℕ → Option Lease → Bool
has_lease key none = false
has_lease key (some l) = l.lease_key == key

-- The first open with the lease key, in the order of the table.
abbrev pub find_lease : ℕ → List (ℕ × Open) → Option (ℕ × Open)
find_lease key [] = none
find_lease key ((k, o) ∷ m) = if has_lease key o.lease then some (k, o) else find_lease key m

abbrev pub settle_lease : ℕ → Lease → Open → Open
settle_lease state l o =
    let o' : Open = record o {
      lease = some (record l { lease_state = state; breaking = false });
    } in
    if state == lease_none
    then record o' { oplock_level = oplock_level_none; oplock_state = lockstate_none }
    else record o' { oplock_state = lockstate_held }

abbrev pub lease_ack_lease : ℕ → ℕ → Open → Server → Option Lease → Server × AckStatus
lease_ack_lease state k o s none = (s, object_name_not_found)
lease_ack_lease state k o s (some l) =
    if not l.breaking
    then (s, unsuccessful)
    else (record s { opens = insert k (settle_lease state l o) s.opens }, acknowledged)

abbrev pub lease_ack_open : ℕ → Server → Option (ℕ × Open) → Server × AckStatus
lease_ack_open state s none = (s, object_name_not_found)
lease_ack_open state s (some (k, o)) = lease_ack_lease state k o s o.lease

-- The acknowledgment of a lease break: key and state of the request.
unfoldable pub lease_ack : ℕ → ℕ → Server → Server × AckStatus
lease_ack key state s = lease_ack_open state s (find_lease key s.opens)
