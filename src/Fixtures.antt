-- ===== src/Fixtures.antt =====
-- Concrete packets, sessions and opens, for the examples of the other modules.
use go_smb.Common.{ℕ, ◌+◌, ◌%◌, Bool, true, false, none, some, List, [], ◌∷◌, ◌++◌, replicate}
use go_smb.Bytes.{Slice, of_list}
use go_smb.Session.{Session}
use go_smb.Receive.{Conn}
use go_smb.Vfs.{FileSystem, err, not_exist, permission, ebadf}
use go_smb.Opens.Table.{Open, Server, lockstate_held}

-- An echo of one packet: message 7, tree 5, the lowest bytes of flags and session given.
abbrev pub echo_bytes : ℕ → ℕ → List ℕ
echo_bytes f s =
    0xfe
    ∷ 0x53
    ∷ 0x4d
    ∷ 0x42
    ∷ 64
    ∷ 0
    ∷ 1
    ∷ 0
    ∷ 0
    ∷ 0
    ∷ 0
    ∷ 0
    ∷ 13
    ∷ 0
    ∷ 1
    ∷ 0
    ∷ f
    ∷ 0
    ∷ 0
    ∷ 0
    ∷ 0
    ∷ 0
    ∷ 0
    ∷ 0
    ∷ 7
    ∷ 0
    ∷ 0
    ∷ 0
    ∷ 0
    ∷ 0
    ∷ 0
    ∷ 0
    ∷ 0
    ∷ 0
    ∷ 0
    ∷ 0
    ∷ 5
    ∷ 0
    ∷ 0
    ∷ 0
    ∷ s
    ∷ 0
    ∷ 0
    ∷ 0
    ∷ 0
    ∷ 0
    ∷ 0
    ∷ 0
    ∷ replicate 16 0

abbrev pub echo : ℕ → ℕ → Slice
echo f s = of_list (echo_bytes f s)

-- A hash of 16 bytes.
abbrev sum : List ℕ → ℕ
sum [] = 0
sum (b ∷ bs) = b + sum bs

abbrev pub mac : List ℕ → List ℕ
mac bs = sum bs % 256 ∷ replicate 15 1

abbrev pub alice : Session
alice = record {
  session_id = 9;
  session_flags = 0;
  signer = mac;
  verifier = mac;
  seal = λ nonce text ad. text ++ replicate 16 0;
  unseal = λ nonce text ad. none;
  nonce_size = 12;
  tree_conns = [];
}

abbrev pub strict_conn : Conn
strict_conn = record {
  current = some alice;
  sessions = (9, alice) ∷ [];
  use_session = true;
  require_signing = true;
}

-- An open with a file id on a node, with delete-on-close or not.
abbrev pub open_of : ℕ → ℕ → Bool → Open
open_of i node delete = record {
  file_id = i;
  durable_file_id = node;
  connected = true;
  granted_access = 0;
  oplock_level = 0x9;
  oplock_state = lockstate_held;
  is_durable = false;
  create_guid = 0;
  delete_on_close = delete;
  posix_semantics = false;
  lease = none;
  path_name = [];
  is_ea = false;
  ea_key = [];
  is_symlink = false;
  pending = [];
  single_name = [];
  single_done = false;
}

-- Two opens of node 40, which is delete-pending.
abbrev pub two_opens : Server
two_opens = record {
  opens = (1, open_of 1 40 false) ∷ (2, open_of 2 40 false) ∷ [];
  opens_by_guid = none;
  delete_pending = (40, true) ∷ [];
}

-- A file system of which every call fails.
abbrev pub broken_fs : {D : Type 0} → FileSystem D
broken_fs = record {
  lookup = λ h p d. (d, err not_exist);
  mkdir = λ p mode d. (d, some permission);
  open_file = λ p flags mode d. (d, err not_exist);
  open_dir = λ p d. (d, err not_exist);
  get_attr = λ h d. (d, err ebadf);
  set_attr = λ h a d. (d, some ebadf);
  close = λ h d. (d, some ebadf);
  flush = λ h d. (d, some ebadf);
  read = λ h n o d. (d, (0, replicate n 0, some ebadf));
  write = λ h bs o f d. (d, (0, some ebadf));
  read_dir = λ h scan n d. (d, err ebadf);
  unlink = λ h d. (d, some ebadf);
  truncate = λ h n d. (d, some ebadf);
  rename = λ h p r d. (d, some ebadf);
  get_xattr = λ h k n d. (d, (0, replicate n 0, some ebadf));
  set_xattr = λ h k v d. (d, some ebadf);
  remove_xattr = λ h k d. (d, some ebadf);
}
