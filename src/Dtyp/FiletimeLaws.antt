-- ===== src/Dtyp/FiletimeLaws.antt =====
-- internal/smb2/dtyp.go: FILETIME and int64 nanoseconds.
use go_smb.Common.{ℕ, ◌-◌, ◌+◌, ◌%◌, ◌^◌, ◌≤◌, ◌<◌, ◌≡◌, ltb, if◌then◌else◌, arith, some, refl}
use go_smb.Bytes.{Slice, IsSlice, encode_le}
use go_smb.Bytes.Words.{decode_le-encode_4}
use go_smb.Bytes.Writes.Laws.{writes-Written, get_le-Written}
use go_smb.Dtyp.{
  Filetime, nanoseconds, nsec_to_filetime, decode_filetime, filetime_writes, encode_filetime,
}

-- An int64 rounded toward zero to a multiple of 100, as a bit pattern.
abbrev pub round_100 : ℕ → ℕ
round_100 w = if ltb w (2 ^ 63) then w - w % 100 else (w + (2 ^ 64 - w) % 100) % 2 ^ 64

-- Every int64 number of nanoseconds survives the way through a FILETIME up to the 100 ns that it
-- counts in, negative ones included; nothing overflows on the way.
nanoseconds-nsec_to_filetime :
    (nsec : ℕ) → nsec < 2 ^ 64 → nanoseconds (nsec_to_filetime nsec) ≡ round_100 nsec
unfolding nanoseconds nsec_to_filetime
nanoseconds-nsec_to_filetime nsec h = ground arith

-- A FILETIME encoded into eight bytes is decoded as it was.
pub decode-encode_filetime :
    (ft : Filetime) (p : Slice)
    → ft.low_date_time < 2 ^ 32
    → ft.high_date_time < 2 ^ 32
    → IsSlice p
    → 8 ≤ p.len
    → (q : Slice) × (encode_filetime ft p ≡ some q) × (decode_filetime q ≡ some ft)
unfolding encode_filetime decode_filetime
decode-encode_filetime ft p low high slice room =
    let (q, r) = writes-Written (filetime_writes ft) 8 p (omega arith) room slice in
    let low_read =
      get_le-Written r 4 0 (encode_le 4 ft.low_date_time) (omega arith) (omega arith) refl in
    let high_read =
      get_le-Written r 4 4 (encode_le 4 ft.high_date_time) (omega arith) (omega arith) refl in
    (q, r.ran, rw (low_read, high_read, decode_le-encode_4 _ low, decode_le-encode_4 _ high))
