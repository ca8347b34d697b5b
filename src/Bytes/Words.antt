-- ===== src/Bytes/Words.antt =====
-- Laws of numbers of a fixed width.
use go_smb.Common.{ℕ, zero, suc, ◌/◌, ◌^◌, ◌<◌, ◌≡◌, refl, ap, length, arith, All}
use go_smb.Bytes.{decode_le, encode_le, decode_be, encode_be}

abbrev pub IsByte : ℕ → Type 0
IsByte b = b < 256

pub length-encode_le : (w v : ℕ) → length (encode_le w v) ≡ w
length-encode_le zero v = refl
length-encode_le (suc w) v = ap suc (length-encode_le w (v / 256))

pub encode_le-IsByte : (w v : ℕ) → All IsByte (encode_le w v)
encode_le-IsByte zero v = tt
encode_le-IsByte (suc w) v = (omega arith, encode_le-IsByte w (v / 256))

-- At the widths in use, a number that fits is read back.
pub decode_le-encode_2 : (v : ℕ) → v < 2 ^ 16 → decode_le (encode_le 2 v) ≡ v
decode_le-encode_2 v h = omega arith

pub decode_le-encode_4 : (v : ℕ) → v < 2 ^ 32 → decode_le (encode_le 4 v) ≡ v
decode_le-encode_4 v h = omega arith

pub decode_le-encode_8 : (v : ℕ) → v < 2 ^ 64 → decode_le (encode_le 8 v) ≡ v
decode_le-encode_8 v h = omega arith

-- And two numbers of one width that fit have different encodings.
pub encode_le-eq : (a b : ℕ) → a < 2 ^ 64 → b < 2 ^ 64 → encode_le 8 a ≡ encode_le 8 b → a ≡ b
encode_le-eq a b ha hb e =
    omega (arith, decode_le-encode_8 a ha, decode_le-encode_8 b hb, ap decode_le e)

pub decode-encode_be_4 : (v : ℕ) → v < 2 ^ 32 → decode_be 0 (encode_be 4 v) ≡ v
decode-encode_be_4 v h = omega arith

pub decode-encode_be_8 : (v : ℕ) → v < 2 ^ 64 → decode_be 0 (encode_be 8 v) ≡ v
decode-encode_be_8 v h = omega arith
