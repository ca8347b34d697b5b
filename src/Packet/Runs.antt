-- ===== src/Packet/Runs.antt =====
-- Headers of concrete packets.
use go_smb.Common.{◌≡◌, refl, false, some, none, [], ◌∷◌, length, replicate, arith, Returns}
use go_smb.Bytes.{Slice, of_list}
use go_smb.Packet.{is_invalid, get, flags, is_compound_first, is_compound_last}
use go_smb.Packet.Header.{PacketHeader, encode_header, zero_header}
use go_smb.Packet.HeaderLaws.{encode_header-Carries, Carries, Switches}
use go_smb.Packet.Valid.{is_invalid-Returns, smb1_accepted_then_panics}

abbrev reply : PacketHeader
reply = record zero_header { command = 13; message_id = 7; tree_id = 5; status = 0xc000_0022 }

encode_header-Carries_example :
    (q : Slice) × (encode_header reply (of_list (replicate 70 0)) ≡ some q)
    × (q.len ≡ 70)
    × (length q.bytes ≡ 70)
    × Carries reply q
    × Switches reply q
encode_header-Carries_example =
    encode_header-Carries reply (of_list (replicate 70 0))
      (record {
        charge_range = omega arith;
        channel_range = omega arith;
        status_range = omega arith;
        command_range = omega arith;
        credit_range = omega arith;
        flags_range = omega arith;
        next_range = omega arith;
        message_range = omega arith;
        async_range = omega arith;
        tree_range = omega arith;
        session_range = omega arith;
      })
      (omega arith) (omega arith)

is_invalid-Returns_example : Returns (is_invalid (of_list (0xfe ∷ 0x53 ∷ 0x4d ∷ 0x42 ∷ [])))
is_invalid-Returns_example =
    is_invalid-Returns (of_list (0xfe ∷ 0x53 ∷ 0x4d ∷ 0x42 ∷ [])) (omega arith)

-- "\xffSMB" and the negotiate command.
abbrev smb1_packet : Slice
smb1_packet = of_list (0xff ∷ 0x53 ∷ 0x4d ∷ 0x42 ∷ 0x72 ∷ [])

smb1_accepted_then_panics_example :
    (is_invalid smb1_packet ≡ some false)
    × (get flags smb1_packet ≡ none)
    × (is_compound_first smb1_packet ≡ none)
    × (is_compound_last smb1_packet ≡ none)
unfolding go_smb.Packet.is_smb1 go_smb.Bytes.read go_smb.Bytes.index
smb1_accepted_then_panics_example =
    smb1_accepted_then_panics smb1_packet (omega arith) refl refl (omega arith)
