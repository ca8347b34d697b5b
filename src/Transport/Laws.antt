-- ===== src/Transport/Laws.antt =====
-- server/transport.go: frames written and read.
use go_smb.Common.{
  ℕ, ◌≤◌, ◌<◌, ◌≡◌, refl, false, some, List, [], ◌∷◌, ◌++◌, ◌/◌, ◌%◌, ◌^◌, length, ltb, ◌==◌, ◌!=◌,
  arith, length-append, take-append_length, drop-append_length, append_assoc, All,
}
use go_smb.Bytes.{encode_be, decode_be}
use go_smb.Bytes.Words.{decode-encode_be_4}
use go_smb.Transport.{
  write_frame, read_frame, read_full, read_size, write_frames, read_frames, max_direct_tcp_size,
}

-- A payload that `Write` accepts and `ReadSize` does not refuse.
abbrev pub IsPayload : List ℕ → Type 0
IsPayload p = (0 < length p) × (length p ≤ max_direct_tcp_size)

read_full-append : (a b : List ℕ) → read_full (length a) (a ++ b) ≡ some (a, b)
read_full-append a b =
    let room : ltb (length (a ++ b)) (length a) ≡ false = ground (arith, length-append a b) in
    rw (room, take-append_length a b, drop-append_length a b) refl

long_enough : (a b c d : ℕ) (rest : List ℕ) → ltb (length (a ∷ b ∷ c ∷ d ∷ rest)) 4 ≡ false
long_enough a b c d rest = ground arith

read_size-bytes :
    (n a b c d : ℕ) (rest : List ℕ)
    → 0 < n
    → a ≡ 0
    → decode_be 0 (a ∷ b ∷ c ∷ d ∷ []) ≡ n
    → read_size (a ∷ b ∷ c ∷ d ∷ rest) ≡ some (n, rest)
unfolding read_size
read_size-bytes n a b c d rest pos first e =
    let good : (a != 0) ≡ false = ground arith in
    let there : (n == 0) ≡ false = ground arith in
    rw (long_enough a b c d rest, e, good, there) refl

read_size-frame :
    (n : ℕ) (rest : List ℕ)
    → 0 < n
    → n ≤ max_direct_tcp_size
    → read_size (encode_be 4 n ++ rest) ≡ some (n, rest)
read_size-frame n rest pos small =
    read_size-bytes n (n / 256 ^ 3 % 256) _ _ _ rest pos (omega arith)
      (decode-encode_be_4 n (omega arith))

read-write_frame :
    (p rest : List ℕ)
    → IsPayload p
    → (write_frame p ≡ some (encode_be 4 (length p) ++ p))
      × (read_frame ((encode_be 4 (length p) ++ p) ++ rest) ≡ some (p, rest))
unfolding write_frame read_frame
read-write_frame p rest (pos, small) =
    (ground arith, rw (read_size-frame (length p) (p ++ rest) pos small) (read_full-append p rest))

-- Payloads that are not empty and of at most 0xffffff bytes are all written, and whatever follows
-- them on the stream, as many reads of frames give them back in order and leave what follows.
pub read-write_frames :
    (ps : List (List ℕ)) (rest : List ℕ)
    → All IsPayload ps
    → (bs : List ℕ) × (write_frames ps ≡ some bs)
      × (read_frames (length ps) (bs ++ rest) ≡ some (ps, rest))
unfolding write_frames read_frames
read-write_frames [] rest ok = ([], refl, refl)
read-write_frames (p ∷ ps) rest (ok, oks) =
    let (bs, written, back) = read-write_frames ps rest oks in
    let frame = encode_be 4 (length p) ++ p in
    let (w, r) = read-write_frame p (bs ++ rest) ok in
    (frame ++ bs, rw (w, written) refl, rw (append_assoc p bs rest, r, back) refl)
