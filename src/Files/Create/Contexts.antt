-- ===== src/Files/Create/Contexts.antt =====
-- server/file_tree.go: the create contexts of a `CREATE` request and what each adds to the open and to the answer
-- (`handleRqLs`, `handleDH2Q`, `handleQFid`, `handleAAPLCC`, `handleMaxAccessCC`, `handlePosixCC`, `decodeCreatePosixPerms`),
-- with the decoders of internal/smb2/request.go.
pub mod Served
use go_smb.Common.{
  ℕ, zero, suc, ◌+◌, ◌-◌, ◌%◌, ◌^◌, Bool, true, false, not, ◌&&◌, ◌||◌, Option, none, some, List,
  [], ◌∷◌, ◌++◌, length, take, leb, ltb, ◌==◌, ◌!=◌, if◌then◌else◌, bit_and, bit_or,
}
use go_smb.Common.Texts.{Text, equal_bytes}
use go_smb.Bytes.{Slice, read, get_le, get_le_from, sub, from, elements, decode_le}
use go_smb.Conn.Negotiate.{posix_tag}
use go_smb.Opens.Table.{Open, Lease}
use go_smb.Vfs.{
  FileSystem, FsError, Res, ok, err, Attributes, FileType, directory, regular_file, symlink,
  block_device, character_device, fifo, socket, to_mode,
}
use go_smb.Vfs.Convert.{or_default, is_type, max_access_from_vfs}
use go_smb.Info.{io_reparse_tag_symlink}
use go_smb.Files.{State, Progress, Handler, ◌>>=◌, ◌>>◌, pure, lift, call, fail, ContextSent}

-- `CreateContextDecoder`: places and lengths are `uint16`s.
unfoldable pub context_part : Slice → ℕ → ℕ → Option (List ℕ)
context_part r off n = elim (sub r off ((off + n) % 2 ^ 16)) [
  | none ↦ none
  | some bs ↦ some (elements bs)
]

module _ {D : Type 0} where
  abbrev pub context_name : Slice → Handler D Text
  context_name r = do
    off ← lift (get_le_from 2 r 4)
    n ← lift (get_le_from 2 r 6)
    lift (context_part r off n)

abbrev pub mx_ac : Text
mx_ac = b'M' ∷ b'x' ∷ b'A' ∷ b'c' ∷ []

abbrev pub aapl : Text
aapl = b'A' ∷ b'A' ∷ b'P' ∷ b'L' ∷ []

abbrev pub dh2_q : Text
dh2_q = b'D' ∷ b'H' ∷ b'2' ∷ b'Q' ∷ []

abbrev pub rq_ls : Text
rq_ls = b'R' ∷ b'q' ∷ b'L' ∷ b's' ∷ []

abbrev pub q_fid : Text
q_fid = b'Q' ∷ b'F' ∷ b'i' ∷ b'd' ∷ []

abbrev pub server_durable_handle_timeout : ℕ
server_durable_handle_timeout = 60_000

abbrev pub posix_perms_from_vfs : Attributes → ℕ
posix_perms_from_vfs a = elim a.unix_mode [
  | some mode ↦ bit_and mode 0o7777
  | none ↦ elim a.permissions [ some p ↦ to_mode p | none ↦ 0o777 ]
]

-- `S_IFDIR` and the others.
abbrev pub mode_of_type : FileType → ℕ
mode_of_type directory = 0o040000
mode_of_type regular_file = 0o100000
mode_of_type symlink = 0o120000
mode_of_type block_device = 0o060000
mode_of_type character_device = 0o020000
mode_of_type fifo = 0o010000
mode_of_type socket = 0o140000
mode_of_type t = 0

abbrev pub lease_of : ℕ → ℕ → ℕ → Lease
lease_of key state epoch = record {
  lease_key = key;
  lease_state = state;
  epoch = epoch;
  breaking = false;
  break_to_state = 0;
}

module _ {D : Type 0} (fs : FileSystem D) where
  -- A context's part of the answer, if it has one, and the open.
  abbrev pub Added : Type 0
  Added = Option ContextSent × Open

  abbrev pub sent_with : Text → List ℕ → Open → Handler D Added
  sent_with name values o = pure (some (record { name = name; values = values }), o)

  abbrev pub handle_posix_cc : Attributes → Open → Handler D Added
  handle_posix_cc a o = do
    links ← lift a.link_count
    t ← lift a.file_type
    sent_with posix_tag
        (links
          ∷ (if is_type t symlink then io_reparse_tag_symlink else 0)
          ∷ bit_or (posix_perms_from_vfs a) (mode_of_type t)
          ∷ or_default 0 a.uid
          ∷ or_default 0 a.gid
          ∷ [])
        o

  -- The attributes of the root, of which there are none where the call fails.
  abbrev pub root_inode : Res Attributes → Option ℕ
  root_inode (ok a) = a.inode_number
  root_inode (err e) = none

  abbrev pub handle_q_fid : Open → Handler D Added
  handle_q_fid o = do
    a ← call (fs.get_attr 0)
    volume ← lift (root_inode a)
    sent_with q_fid (o.durable_file_id ∷ volume ∷ []) o

  abbrev pub handle_dh2_q : Slice → Open → Handler D Added
  handle_dh2_q b o = do
    given ← lift (get_le_from 4 b 0)
    f ← lift (get_le_from 4 b 4)
    guid ← lift (get_le 16 b 16)
    let timeout = if given == 0 then server_durable_handle_timeout else given in
        sent_with dh2_q (timeout ∷ f ∷ [])
          (record o { is_durable = bit_and f 2 != 0; create_guid = guid })

  -- The first version has 32 bytes. Of the key, as many bytes as there are.
  abbrev pub handle_rq_ls : Slice → Open → Handler D Added
  handle_rq_ls b o = do
    state ← lift (get_le_from 4 b 16)
    f ← lift (get_le_from 4 b 20)
    duration ← lift (get_le_from 8 b 24)
    let key = decode_le (take 16 (elements b)) in
        if b.len == 32
        then sent_with rq_ls (key ∷ state ∷ f ∷ duration ∷ [])
            (record o { lease = some (lease_of key state 0) })
        else (do
          parent ← lift (get_le 16 b 32)
          epoch ← lift (get_le_from 2 b 48)
          sent_with rq_ls (key ∷ state ∷ f ∷ duration ∷ parent ∷ 1 ∷ [])
              (record o { lease = some (lease_of key state epoch) }))

  abbrev pub set_aapl : Handler D (Unit {0})
  set_aapl s = some (record s { aapl_extensions = true }, Progress.done tt)

  -- The command must be the query of the server's abilities.
  abbrev pub handle_aapl_cc : Slice → Open → Handler D Added
  handle_aapl_cc b o = set_aapl >> (do
    code ← lift (get_le_from 4 b 0)
    if code == 1 then sent_with aapl (1 ∷ 7 ∷ 13 ∷ 4 ∷ []) o else pure (none, o))

  abbrev pub buffer_slice : Slice → Handler D Slice
  buffer_slice cc = do
    off ← lift (get_le_from 2 cc 10)
    n ← lift (get_le_from 4 cc 12)
    lift (sub cc off ((off + n % 2 ^ 16) % 2 ^ 16))

  -- One context, by its name.
  abbrev pub one_context : Bool → Attributes → Text → Slice → Open → Handler D Added
  one_context posix a name cc o =
      if equal_bytes name mx_ac
      then sent_with mx_ac (0 ∷ max_access_from_vfs a ∷ []) o
      else if equal_bytes name aapl
      then (do b ← buffer_slice cc; handle_aapl_cc b o)
      else if equal_bytes name posix_tag
      then (if posix then handle_posix_cc a o else pure (none, o))
      else if equal_bytes name dh2_q
      then (do b ← buffer_slice cc; handle_dh2_q b o)
      else if equal_bytes name rq_ls
      then (do b ← buffer_slice cc; handle_rq_ls b o)
      else if equal_bytes name q_fid
      then (do b ← buffer_slice cc; handle_q_fid o)
      else pure (none, o)

  abbrev pub appended : Option ContextSent → List ContextSent
  appended none = []
  appended (some c) = c ∷ []

  -- The loop over the contexts. Each turn but the last makes the rest shorter: its length is fuel enough.
  abbrev pub each_context :
      ℕ → Bool → Attributes → Slice → Open → Handler D (List ContextSent × Open)
  each_context zero posix a cc o = pure ([], o)
  each_context (suc fuel) posix a cc o =
      let go : Slice → Open → Handler D (List ContextSent × Open) = each_context fuel posix a in
      if cc.len == 0 then pure ([], o) else (do
        name ← context_name cc
        (c, o') ← one_context posix a name cc o
        step ← lift (get_le 4 cc 0)
        left ← lift (from cc step)
        (cs, o'') ← if step == 0 then pure ([], o') else go left o'
        pure (appended c ++ cs, o''))

  -- `decodeCreatePosixPerms`, of the contexts.
  abbrev pub posix_perms_in : ℕ → Slice → Handler D (Option ℕ)
  posix_perms_in zero cc = pure none
  posix_perms_in (suc fuel) cc =
      let go : Slice → Handler D (Option ℕ) = posix_perms_in fuel in
      if cc.len == 0 then pure none else (do
        name ← context_name cc
        if equal_bytes name posix_tag
            then (do
              b ← buffer_slice cc
              if leb 4 b.len
                  then (do m ← lift (get_le 4 b 0); pure (some (bit_and m 0o7777)))
                  else pure none)
            else (do
              step ← lift (get_le 4 cc 0)
              if step == 0 then pure none else (do left ← lift (from cc step); go left)))
