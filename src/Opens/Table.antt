-- ===== src/Opens/Table.antt =====
-- server/server.go, `Open`, `Lease` and the maps of `Server` that the server's lock guards. An `Open`
-- stands in the store under its file id, which is its address; a map that holds pointers holds
-- these ids. Of `Open` the fields are kept that the operations of this component read.
pub mod Laws
pub mod Keyed
pub mod Deferred
mod Runs
use go_smb.Common.{
  ℕ, ◌≡◌, Bool, true, false, Option, none, some, List, [], ◌∷◌, ◌==◌, if◌then◌else◌, ◌>>=◌,
}
use go_smb.Common.Assoc.{find, insert, erase}
use go_smb.Common.Texts.{Text}
use go_smb.Vfs.{DirInfo}

pub data OpLockState : Type 0 where
  lockstate_none lockstate_held lockstate_breaking : OpLockState

pub record Lease : Type 0 where
  pub lease_key : ℕ
  pub lease_state : ℕ
  pub epoch : ℕ
  pub breaking : Bool
  pub break_to_state : ℕ

-- `connected`: the session and its connection are not nil. `pending`, `single_name` and `single_done` are the fields
-- whose names begin with `queryDirectory`.
pub record Open : Type 0 where
  pub file_id : ℕ
  pub durable_file_id : ℕ
  pub connected : Bool
  pub granted_access : ℕ
  pub oplock_level : ℕ
  pub oplock_state : OpLockState
  pub is_durable : Bool
  pub create_guid : ℕ
  pub delete_on_close : Bool
  pub posix_semantics : Bool
  pub lease : Option Lease
  pub path_name : Text
  pub is_ea : Bool
  pub ea_key : Text
  pub is_symlink : Bool
  pub pending : List DirInfo
  pub single_name : Text
  pub single_done : Bool

-- `opens_by_guid` is `none` for a nil map, which `NewServer` leaves there.
pub record Server : Type 0 where
  pub opens : List (ℕ × Open)
  pub opens_by_guid : Option (List (ℕ × ℕ))
  pub delete_pending : List (ℕ × Bool)

abbrev pub new_server : Server
new_server = record { opens = []; opens_by_guid = none; delete_pending = [] }

-- `m[k] = v`: a nil map panics.
abbrev pub map_set {ℓ} : {V : Type ℓ} → ℕ → V → Option (List (ℕ × V)) → Option (List (ℕ × V))
map_set k v none = none
map_set k v (some m) = some (insert k v m)

-- `delete(m, k)`: a nil map is left alone.
abbrev pub map_delete {ℓ} : {V : Type ℓ} → ℕ → Option (List (ℕ × V)) → Option (List (ℕ × V))
map_delete k none = none
map_delete k (some m) = some (erase k m)

abbrev pub with_guid : Server → Option (List (ℕ × ℕ)) → Option Server
with_guid s none = none
with_guid s (some m) = some (record s { opens_by_guid = some m })

unfoldable pub add_open : Open → Server → Option Server
add_open o s =
    let s' = record s { opens = insert o.file_id o s.opens } in
    if o.is_durable then with_guid s' (map_set o.create_guid o.file_id s.opens_by_guid) else some s'

unfoldable pub get_open : ℕ → Server → Option Open
get_open file_id s = find file_id s.opens

abbrev pub delete_found : ℕ → Option Open → Server → Server
delete_found file_id none s = s
delete_found file_id (some o) s =
    let s' = record s { opens = erase file_id s.opens } in
    if o.is_durable
    then record s' { opens_by_guid = map_delete o.create_guid s.opens_by_guid }
    else s'

unfoldable pub delete_open : ℕ → Server → Server
delete_open file_id s = delete_found file_id (find file_id s.opens) s

unfoldable pub set_delete_pending : ℕ → Bool → Server → Server
set_delete_pending node pending s =
    if pending
    then record s { delete_pending = insert node true s.delete_pending }
    else record s { delete_pending = erase node s.delete_pending }

-- A missing key reads as false.
abbrev pub or_false : Option Bool → Bool
or_false none = false
or_false (some b) = b

unfoldable pub is_delete_pending : ℕ → Server → Bool
is_delete_pending node s = or_false (find node s.delete_pending)

-- `for _, other := range d.opens { if other.durableFileId == node … }`.
abbrev pub has_node : ℕ → List (ℕ × Open) → Bool
has_node node [] = false
has_node node ((k, o) ∷ m) = if o.durable_file_id == node then true else has_node node m

unfoldable pub close_open : Open → Server → Server × Bool
unfolding is_delete_pending
close_open o s =
    let node = o.durable_file_id in
    let pending =
      if o.delete_on_close then insert node true s.delete_pending else s.delete_pending in
    let guids =
      if o.is_durable then map_delete o.create_guid s.opens_by_guid else s.opens_by_guid in
    let s' : Server = record {
      opens = erase o.file_id s.opens;
      opens_by_guid = guids;
      delete_pending = pending;
    } in
    if or_false (find node pending)
    then (if has_node node s'.opens
        then (s', false)
        else (record s' { delete_pending = erase node pending }, true))
    else (s', false)

-- The opens of a node, in the order of the table.
abbrev pub opens_of : ℕ → List (ℕ × Open) → List Open
opens_of node [] = []
opens_of node ((k, o) ∷ m) =
    let rest = opens_of node m in if o.durable_file_id == node then o ∷ rest else rest

unfoldable pub opens_for_node : ℕ → Server → List Open
opens_for_node node s = opens_of node s.opens

-- A history of the table.
pub data TableOp : Type 0 where
  adds : Open → TableOp
  deletes : ℕ → TableOp
  closes : Open → TableOp
  disposes : ℕ → Bool → TableOp

unfoldable pub apply_op : TableOp → Server → Option Server
unfolding add_open delete_open close_open set_delete_pending
apply_op (adds o) s = add_open o s
apply_op (deletes i) s = some (delete_open i s)
apply_op (closes o) s = some (close_open o s).0
apply_op (disposes node pending) s = some (set_delete_pending node pending s)

abbrev pub run_ops : List TableOp → Server → Option Server
run_ops [] s = some s
run_ops (op ∷ ops) s = apply_op op s >>= run_ops ops

-- Opens closed one after the other, and which of the closes asked for the unlink.
abbrev pub close_all : List Open → Server → List Bool
close_all [] s = []
close_all (o ∷ os) s = (close_open o s).1 ∷ close_all os (close_open o s).0
