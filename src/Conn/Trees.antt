-- ===== src/Conn/Trees.antt =====
-- server/server.go and server/tree.go: the trees of a connection. `treeMapByName` and `treeMapById`
-- hold pointers to one tree: here addresses of a heap. A name is the list of its bytes,
-- `strings.ToUpper` a parameter, and a file system a value of any type.
pub mod Laws
pub mod Changes
pub mod Spec
pub mod Hold
pub mod Refines
mod Runs
use go_smb.Common.{
  ℕ, zero, suc, ◌+◌, ◌-◌, Bool, true, false, Option, none, some, List, [], ◌∷◌, map, length, drop,
  ◌==◌, ltb, if◌then◌else◌, ◌>>=◌, ◌++◌, bit_or,
}
use go_smb.Common.Assoc.{find, insert, erase}
use go_smb.Common.Texts.{Text, equal_bytes}
use go_smb.Common.Texts as Texts
use go_smb.Session.{Session}

-- What a tree serves: `ipcTree` with the names of the shares, `fileTree` with its file system and the
-- room of `ioReadSem` and `ioWriteSem`.
pub data TreeOps (F : Type 0) : Type 0 where
  ipc_tree : List Text → TreeOps F
  file_tree : F → ℕ → ℕ → TreeOps F

pub record TreeConn (F : Type 0) : Type 0 where
  pub session : Option Session
  pub tree_id : ℕ
  pub share_flags : ℕ
  pub path : Text
  pub ref_count : ℕ
  pub ops : TreeOps F

pub record Server (F : Type 0) : Type 0 where
  pub shares : List (Text × F)
  pub orig_shares : List (Text × F)
  pub max_io_reads : ℕ
  pub max_io_writes : ℕ

pub record Trees (F : Type 0) : Type 0 where
  pub heap : List (ℕ × TreeConn F)
  pub next : ℕ
  pub by_name : List (Text × ℕ)
  pub by_id : List (ℕ × ℕ)

-- The response's fields that the handlers set, and the tree that they give to `sendPacket`.
pub record Reply (F : Type 0) : Type 0 where
  pub status : ℕ
  pub tree_id : ℕ
  pub share_type : ℕ
  pub maximal_access : ℕ
  pub tree : Option (TreeConn F)

abbrev pub default_iops : ℕ
default_iops = 32

abbrev pub status_bad_network_name : ℕ
status_bad_network_name = 0xc000_00cc

abbrev pub backslash : ℕ
backslash = 0x5c

-- `"\\IPC$"`.
abbrev pub ipc_name : Text
ipc_name = 0x5c ∷ 0x49 ∷ 0x50 ∷ 0x43 ∷ 0x24 ∷ []

-- `strings.HasSuffix`.
abbrev pub has_suffix : Text → Text → Bool
has_suffix s suffix =
    if ltb (length s) (length suffix)
    then false
    else equal_bytes (drop (length s - length suffix) s) suffix

-- `strings.Split(path, "\\")`: the first part holds `part` already, and there is always one.
abbrev pub split_parts : Text → Text → List Text
split_parts part [] = part ∷ []
split_parts part (c ∷ s) =
    if c == backslash then part ∷ split_parts [] s else split_parts (part ++ (c ∷ [])) s

abbrev pub last_part : List Text → Option Text
last_part [] = none
last_part (p ∷ []) = some p
last_part (p ∷ q ∷ ps) = last_part (q ∷ ps)

abbrev pub share_type_disk : ℕ
share_type_disk = 1

abbrev pub share_type_pipe : ℕ
share_type_pipe = 2

abbrev pub pipe_access : ℕ
pipe_access = 0x1f_01fb

abbrev pub disk_access : ℕ
disk_access = 0x1f_00a9

abbrev pub iops : ℕ → ℕ
iops n = if ltb 0 n then n else default_iops

-- `refCount--`; `none` below zero, which an `int` reaches and a number does not.
abbrev pub less_one : ℕ → Option ℕ
less_one zero = none
less_one (suc n) = some n

module _ {F : Type 0} where
  -- `t, ok := c.treeMapByName[name]`: one more reference to the tree that the name has, else the new
  -- tree under its name and its id. The result is the `TreeId` set and the tree's address.
  unfoldable pub hold_tree : Text → TreeConn F → Trees F → Option (Trees F × ℕ × ℕ)
  hold_tree name fresh st = elim (Texts.find name st.by_name) [
    | some a ↦ do
      t ← find a st.heap
      let held = insert a (record t { ref_count = t.ref_count + 1 }) st.heap in
          some (record st { heap = held }, t.tree_id, a)
    | none ↦ some (
      record {
        heap = insert st.next fresh st.heap;
        next = st.next + 1;
        by_name = Texts.insert name st.next st.by_name;
        by_id = insert fresh.tree_id st.next st.by_id;
      },
      0,
      st.next,
    )
  ]

  -- The share of a path's last part: its name in upper case, or that and `$`.
  unfoldable pub find_share : (Text → Text) → Server F → Text → Option F
  find_share to_upper server name = elim (Texts.find (to_upper name) server.shares) [
    | some fs ↦ some fs
    | none ↦ Texts.find (to_upper name ++ (0x24 ∷ [])) server.shares
  ]

  abbrev pub new_tree : Option Session → ℕ → Text → TreeOps F → TreeConn F
  new_tree session random name ops = record {
    session = session;
    tree_id = random;
    share_flags = 0;
    path = name;
    ref_count = 1;
    ops = ops;
  }

  abbrev pub refused : Reply F
  refused = record {
    status = status_bad_network_name;
    tree_id = 0;
    share_type = 0;
    maximal_access = 0;
    tree = none;
  }

  -- The response to a tree that was found or made.
  abbrev pub answer : ℕ → ℕ → Trees F × ℕ × ℕ → Option (Trees F × Reply F)
  answer share_type access (st, id, a) = do
    t ← find a st.heap
    some (
      st,
      record {
        status = 0;
        tree_id = id;
        share_type = share_type;
        maximal_access = access;
        tree = some t;
      },
    )

  -- `treeConnect` with the request's path and the number that `randint32` gives if it is called.
  unfoldable pub tree_connect :
      (Text → Text) → Server F → Option Session → Text → ℕ → Trees F → Option (Trees F × Reply F)
  tree_connect to_upper server session path random st =
      if has_suffix path ipc_name
      then hold_tree ipc_name
          (new_tree session random ipc_name (ipc_tree (map (λ s. s.0) server.orig_shares))) st
        >>= answer share_type_pipe pipe_access
      else elim (last_part (split_parts [] path)) [
        | none ↦ some (st, refused)
        | some name ↦ elim (find_share to_upper server name) [
          | none ↦ some (st, refused)
          | some fs ↦
              let ops = file_tree fs (iops server.max_io_reads) (iops server.max_io_writes) in
              hold_tree name (new_tree session random name ops) st
              >>= answer share_type_disk disk_access
        ]
      ]

  -- `treeDisconnect`: the tree of the request's id, if there is one, as `sendPacket` gets it.
  unfoldable pub tree_disconnect : ℕ → Trees F → Option (Trees F × Option (TreeConn F))
  tree_disconnect id st = elim (find id st.by_id) [
    | none ↦ some (st, none)
    | some a ↦ do
      t ← find a st.heap
      count ← less_one t.ref_count
      let tree : TreeConn F = record t { ref_count = count } in
          let heap = insert a tree st.heap in
          if count == 0
          then some (
            record st {
              heap = heap;
              by_name = Texts.erase t.path st.by_name;
              by_id = erase t.tree_id st.by_id;
            },
            some tree,
          )
          else some (record st { heap = heap }, some tree)
  ]

  abbrev pub no_trees : Trees F
  no_trees = record { heap = []; next = 0; by_name = []; by_id = [] }
