-- ===== src/Files/Io.antt =====
-- server/file_tree.go: `flush`, `read`, `readImpl`, `readEA`, `write`, `writeImpl`, `lock`, and the decoders of their
-- requests (internal/smb2/request.go). Outside of a compound a read or a write answers twice: that it is pending, and its
-- result; the random id of such an answer is given. Where the code starts a goroutine for it the order is that of one request.
pub mod Replies
pub mod Answers
mod Runs
use go_smb.Common.{
  ℕ, ◌+◌, ◌%◌, ◌^◌, Bool, true, false, not, ◌&&◌, ◌||◌, Option, none, some, List, [], ◌∷◌, ◌++◌,
  length, take, drop, replicate, leb, ◌==◌, if◌then◌else◌,
}
use go_smb.Common.Texts.{Text, equal_bytes}
use go_smb.Bytes.{Slice, get_le, sub, elements}
use go_smb.Opens.Table.{Open}
use go_smb.Vfs.{FileSystem, FsError, eof}
use go_smb.Files.{
  State, Progress, Handler, ◌>>=◌, pure, lift, call, send, Sent, Body, error_response,
  read_response, write_response, flush_response, lock_response, answer, refuse, accept_or_nil,
  prepare_async_response, CompoundContext, handle_id, target_id, open_at, status_from_vfs_error,
  status_access_denied,
}

abbrev pub smb2_flush : ℕ
smb2_flush = 7

abbrev pub smb2_read : ℕ
smb2_read = 8

abbrev pub smb2_write : ℕ
smb2_write = 9

abbrev pub status_end_of_file : ℕ
status_end_of_file = 0xc000_0011

abbrev pub status_pending : ℕ
status_pending = 0x103

-- "AFP_AfpInfo".
abbrev pub afp_info_name : Text
afp_info_name = b'A' ∷ b'F' ∷ b'P' ∷ b'_' ∷ b'A' ∷ b'f' ∷ b'p' ∷ b'I' ∷ b'n' ∷ b'f' ∷ b'o' ∷ []

-- `AfpInfo.Encode` of a signature alone into a buffer of 60 bytes: the two bytes from 10 on and the last 10 stay.
abbrev pub afp_info : List ℕ → List ℕ
afp_info buf =
    b'A' ∷ b'F' ∷ b'P' ∷ b'_' ∷ replicate 6 0
    ++ (take 2 (drop 10 buf) ++ (replicate 38 0 ++ drop 50 buf))

-- `buf[:n]`.
abbrev pub prefix : ℕ → List ℕ → Option (List ℕ)
prefix n buf = if leb n (length buf) then some (take n buf) else none

module _ {D : Type 0} (fs : FileSystem D) where
  abbrev pub flushed : Slice → Option FsError → Handler D (Unit {0})
  flushed pkt none = answer pkt 0 flush_response
  flushed pkt (some e) = refuse pkt (status_from_vfs_error (some e))

  unfoldable pub flush : Option CompoundContext → Slice → Handler D (Unit {0})
  flush ctx pkt = do
    r ← accept_or_nil smb2_flush pkt
    id ← target_id 8 ctx r pkt
    e ← call (fs.flush (handle_id id))
    flushed pkt e

  -- The answer of `readImpl`: an error is one where nothing was read.
  abbrev pub answer_async : Slice → ℕ → ℕ → Body → Handler D (Unit {0})
  answer_async pkt async_id status b = do
    h ← prepare_async_response pkt async_id status
    send (record { header = h; body = b } ∷ [])

  -- `readEA`, once the attribute is read.
  abbrev pub ea_status : ℕ → Option FsError → ℕ
  ea_status n (some e) = status_access_denied
  ea_status n none = if n == 0 then status_end_of_file else 0

  abbrev pub ea_read : Slice → Text → ℕ → ℕ → List ℕ → Option FsError → Handler D (Unit {0})
  ea_read pkt key size n buf e =
      if ea_status n e == 0
      then (do bytes ← lift (prefix n buf); answer pkt 0 (read_response bytes))
      else if equal_bytes key afp_info_name && size == 60
      then answer pkt 0 (read_response (take 60 (afp_info buf)))
      else refuse pkt (ea_status n e)

  abbrev pub read_ea : ℕ → Open → ℕ → Slice → Handler D (Unit {0})
  read_ea h o size pkt = do
    (n, buf, e) ← call (fs.get_xattr h o.ea_key size)
    ea_read pkt o.ea_key size n buf e

  -- The status of a read that failed: the open has no attribute here, since those were read before.
  abbrev pub read_status : FsError → ℕ
  read_status eof = status_end_of_file
  read_status e = status_from_vfs_error (some e)

  abbrev pub file_read : Slice → ℕ → ℕ → List ℕ → Option FsError → Handler D (Unit {0})
  file_read pkt async_id n buf none = do
    bytes ← lift (prefix n buf)
    answer_async pkt async_id 0 (read_response bytes)
  file_read pkt async_id n buf (some e) =
      if n == 0
      then answer_async pkt async_id (read_status e) error_response
      else (do bytes ← lift (prefix n buf); answer_async pkt async_id 0 (read_response bytes))

  abbrev pub read_impl : Slice → ℕ → Open → ℕ → Handler D (Unit {0})
  read_impl pkt h o async_id = do
    r ← accept_or_nil smb2_read pkt
    size ← lift (get_le 4 r 4)
    if o.is_ea then read_ea h o size pkt else do
      offset ← lift (get_le 8 r 8)
      (n, buf, e) ← call (fs.read h size offset)
      file_read pkt async_id n buf e

  -- The interim answer, and the answers of the rest behind it.
  abbrev pub after_interim :
      Sent → Option (State D × Progress (Unit {0})) → Option (State D × Progress (Unit {0}))
  after_interim first none = none
  after_interim first (some (s, Progress.answered sent)) =
      some (s, Progress.answered (first ∷ sent))
  after_interim first (some (s, Progress.done a)) = some (s, Progress.answered (first ∷ []))
  after_interim first (some (s, Progress.failed)) = some (s, Progress.answered (first ∷ []))

  abbrev pub pending_then : Slice → ℕ → Handler D (Unit {0}) → Handler D (Unit {0})
  pending_then pkt async_id rest = do
    h ← prepare_async_response pkt async_id status_pending
    λ s. after_interim (record { header = h; body = error_response }) (rest s)

  abbrev pub is_alone : Option CompoundContext → Bool
  is_alone none = true
  is_alone (some ctx) = false

  -- In a compound, or for an attribute, at once; else by a goroutine.
  abbrev pub at_once_or :
      Option CompoundContext → Open → ℕ → Slice → (ℕ → Handler D (Unit {0})) → Handler D (Unit {0})
  at_once_or ctx o async_id pkt impl =
      if not (is_alone ctx) || o.is_ea then impl 0 else pending_then pkt async_id (impl async_id)

  -- `read`, the random id given.
  unfoldable pub read_file : ℕ → Option CompoundContext → Slice → Handler D (Unit {0})
  read_file async_id ctx pkt = do
    r ← accept_or_nil smb2_read pkt
    id ← target_id 16 ctx r pkt
    o ← open_at (handle_id id) pkt
    at_once_or ctx o async_id pkt (read_impl pkt (handle_id id) o)

  -- `r.Data()`; the end of the slice is a `uint32`.
  abbrev pub write_data : Slice → Handler D (List ℕ)
  write_data r = do
    n ← lift (get_le 4 r 4)
    bs ← lift (sub r 48 ((48 + n) % 2 ^ 32))
    pure (elements bs)

  abbrev pub written : Slice → ℕ → ℕ → Option FsError → Handler D (Unit {0})
  written pkt async_id n (some e) =
      answer_async pkt async_id (status_from_vfs_error (some e)) error_response
  written pkt async_id n none =
      if n == 0
      then answer_async pkt async_id (status_from_vfs_error none) error_response
      else answer_async pkt async_id 0 (write_response (n % 2 ^ 32))

  -- What `Setxattr` wrote: all or nothing.
  abbrev pub ea_written : ℕ → Option FsError → ℕ
  ea_written n none = n
  ea_written n (some e) = 0

  abbrev pub write_impl : Slice → ℕ → Open → ℕ → Handler D (Unit {0})
  write_impl pkt h o async_id = do
    r ← accept_or_nil smb2_write pkt
    bytes ← write_data r
    if o.is_ea
        then (do
          e ← call (fs.set_xattr h o.ea_key bytes)
          written pkt async_id (ea_written (length bytes) e) e)
        else (do
          offset ← lift (get_le 8 r 8)
          f ← lift (get_le 4 r 44)
          (n, e) ← call (fs.write h bytes offset f)
          written pkt async_id n e)

  -- `write`, the random id given.
  unfoldable pub write_file : ℕ → Option CompoundContext → Slice → Handler D (Unit {0})
  write_file async_id ctx pkt = do
    r ← accept_or_nil smb2_write pkt
    id ← target_id 16 ctx r pkt
    o ← open_at (handle_id id) pkt
    at_once_or ctx o async_id pkt (write_impl pkt (handle_id id) o)

  -- Every lock is granted.
  unfoldable pub lock : Option CompoundContext → Slice → Handler D (Unit {0})
  lock ctx pkt = answer pkt 0 lock_response
