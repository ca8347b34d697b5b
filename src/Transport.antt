-- ===== src/Transport.antt =====
-- server/transport.go, `directTCP`: frames on a byte stream. The stream is the list of the bytes that
-- arrive; `none` is an error of the transport.
pub mod Laws
mod Runs
use go_smb.Common.{
  ℕ, zero, suc, Bool, true, false, ◌||◌, Option, none, some, List, [], ◌∷◌, ◌++◌, length, take,
  drop, ltb, ◌==◌, ◌!=◌, if◌then◌else◌, ◌>>=◌,
}
use go_smb.Bytes.{encode_be, decode_be}

abbrev pub max_direct_tcp_size : ℕ
max_direct_tcp_size = 0xff_ffff

-- `Write`: what is sent, on a connection that takes it.
unfoldable pub write_frame : List ℕ → Option (List ℕ)
write_frame p =
    if ltb max_direct_tcp_size (length p) then none else some (encode_be 4 (length p) ++ p)

-- `io.ReadFull` of `n` bytes: they and the rest of the stream.
abbrev pub read_full : ℕ → List ℕ → Option (List ℕ × List ℕ)
read_full n stream = if ltb (length stream) n then none else some (take n stream, drop n stream)

-- `bs[0] != 0`.
abbrev pub bad_start : List ℕ → Bool
bad_start [] = true
bad_start (b ∷ bs) = b != 0

unfoldable pub read_size : List ℕ → Option (ℕ × List ℕ)
read_size stream = do
  got ← read_full 4 stream
  if bad_start got.0 || decode_be 0 got.0 == 0 then none else some (decode_be 0 got.0, got.1)

-- `ReadSize` and `Read` as the receiver calls them.
unfoldable pub read_frame : List ℕ → Option (List ℕ × List ℕ)
unfolding read_size
read_frame stream = do sized ← read_size stream; read_full sized.0 sized.1

-- Several frames in a row.
unfoldable pub write_frames : List (List ℕ) → Option (List ℕ)
unfolding write_frame
write_frames [] = some []
write_frames (p ∷ ps) = do bs ← write_frame p; rest ← write_frames ps; some (bs ++ rest)

unfoldable pub read_frames : ℕ → List ℕ → Option (List (List ℕ) × List ℕ)
unfolding read_frame
read_frames zero stream = some ([], stream)
read_frames (suc n) stream = do
  frame ← read_frame stream
  rest ← read_frames n frame.1
  some (frame.0 ∷ rest.0, rest.1)
