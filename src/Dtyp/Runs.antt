-- ===== src/Dtyp/Runs.antt =====
-- A time and a SID on the wire.
use go_smb.Common.{◌≡◌, ◌/◌, false, some, [], ◌∷◌, replicate, arith}
use go_smb.Bytes.{Slice, of_list}
use go_smb.Dtyp.{Filetime, Sid, encode_sid, decode_sid, is_invalid_sid}
use go_smb.Dtyp.SidLaws.{decode-encode_sid}

abbrev some_time : Filetime
some_time = record { low_date_time = 5; high_date_time = 7 }

-- S-1-5-32.
abbrev builtin : Sid
builtin = record { revision = 1; identifier_authority = 5; sub_authority = 32 ∷ [] }

decode-encode_sid_example :
    (q : Slice) × (encode_sid builtin (of_list (replicate 12 0)) ≡ some q)
    × (is_invalid_sid q ≡ some false)
    × (decode_sid q
        ≡ some (record { revision = 1; identifier_authority = 5 / 256; sub_authority = 32 ∷ [] }))
decode-encode_sid_example =
    decode-encode_sid builtin (of_list (replicate 12 0))
      (record {
        revision_range = omega arith;
        authority_range = omega arith;
        count_range = omega arith;
        subs_range = (omega arith, tt);
      })
      (omega arith) (omega arith)
