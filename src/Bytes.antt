-- ===== src/Bytes.antt =====
-- Go byte slices. `bytes` holds the elements up to the capacity and `len` the slice's length, so
-- `p[a:b]` may reach past the length up to the capacity, as in Go, and panics (`none`) beyond.
-- `binary.LittleEndian` and `copy` as the codecs of internal/smb2 use them.
pub mod Words
pub mod Writes
use go_smb.Common.{
  ℕ, zero, suc, ◌+◌, ◌-◌, ◌*◌, ◌/◌, ◌%◌, ◌^◌, Bool, ◌&&◌, Option, none, some, List, [], ◌∷◌, ◌++◌,
  length, get_elem?, take, drop, leb, ltb, if◌then◌else◌, ◌>>=◌,
}

pub record Slice : Type 0 where
  pub bytes : List ℕ
  pub len : ℕ

-- A slice that Go can hold: its length is within its capacity.
abbrev pub IsSlice : Slice → Type 0
IsSlice p = go_smb.Common.◌≤◌ p.len (length p.bytes)

-- A slice whose capacity is its length, as `make` returns it.
abbrev pub of_list : List ℕ → Slice
of_list bs = record { bytes = bs; len = length bs }

-- `p[o:o+w]` as bytes.
unfoldable pub read : Slice → ℕ → ℕ → Option (List ℕ)
read p o w = if leb (o + w) (length p.bytes) then some (take w (drop o p.bytes)) else none

-- `p[i]`.
unfoldable pub index : Slice → ℕ → Option ℕ
index p i = if ltb i p.len then get_elem? p.bytes i else none

-- `p[a:]`.
unfoldable pub from : Slice → ℕ → Option Slice
from p a = if leb a p.len then some (record { bytes = drop a p.bytes; len = p.len - a }) else none

-- `p[a:b]`.
unfoldable pub sub : Slice → ℕ → ℕ → Option Slice
sub p a b =
    if leb a b && leb b (length p.bytes)
    then some (record { bytes = drop a p.bytes; len = b - a })
    else none

-- The visible elements.
abbrev pub elements : Slice → List ℕ
elements p = take p.len p.bytes

-- A number from bytes, lowest byte first, and back.
abbrev pub decode_le : List ℕ → ℕ
decode_le [] = 0
decode_le (b ∷ bs) = b + 256 * decode_le bs

abbrev pub encode_le : ℕ → ℕ → List ℕ
encode_le zero v = []
encode_le (suc w) v = v % 256 ∷ encode_le w (v / 256)

-- `le.Uint16(p[o:o+2])`, `le.Uint32(p[o:o+4])`, `le.Uint64(p[o:o+8])`.
unfoldable pub get_le : ℕ → Slice → ℕ → Option ℕ
unfolding read
get_le w p o = do bs ← read p o w; some (decode_le bs)

-- `le.UintN(r[o:])`: as many bytes must be in the slice's length.
unfoldable pub get_le_from : ℕ → Slice → ℕ → Option ℕ
get_le_from w r o = if leb (o + w) r.len then get_le w r o else none

-- The same, highest byte first (`binary.BigEndian`).
abbrev pub encode_be : ℕ → ℕ → List ℕ
encode_be zero v = []
encode_be (suc w) v = v / 256 ^ w % 256 ∷ encode_be w v

abbrev pub decode_be : ℕ → List ℕ → ℕ
decode_be acc [] = acc
decode_be acc (b ∷ bs) = decode_be (acc * 256 + b) bs
