-- ===== src/Conn/Negotiate/Runs.antt =====
-- Negotiate requests that the server is run on.
use go_smb.Common.{ℕ, ◌≡◌, ◌⊎◌, ◌≤◌, refl, true, false, none, [], ◌∷◌, arith}
use go_smb.Bytes.{Slice, of_list}
use go_smb.Conn.Negotiate.{negotiate, choose_dialect, smb210}
use go_smb.Conn.Packets.{negotiate_packet, negotiate_bytes, new_params, plain_config}
use go_smb.Conn.Negotiate.Laws.{
  in_range, offers, choose_dialect_lem, negotiate-unsupported, negotiate-dialects_missing,
}

three_dialects :
    ((choose_dialect (0x202 ∷ 0x302 ∷ 0x210 ∷ []) ≡ smb210)
      × ((d : ℕ) → offers d (0x202 ∷ 0x302 ∷ 0x210 ∷ []) ≡ true → in_range d ≡ false))
    ⊎ ((in_range (choose_dialect (0x202 ∷ 0x302 ∷ 0x210 ∷ [])) ≡ true)
        × (offers (choose_dialect (0x202 ∷ 0x302 ∷ 0x210 ∷ [])) (0x202 ∷ 0x302 ∷ 0x210 ∷ []) ≡ true)
        × ((d : ℕ)
            → offers d (0x202 ∷ 0x302 ∷ 0x210 ∷ []) ≡ true
            → in_range d ≡ true
            → d ≤ choose_dialect (0x202 ∷ 0x302 ∷ 0x210 ∷ [])))
three_dialects = choose_dialect_lem (0x202 ∷ 0x302 ∷ 0x210 ∷ [])

chosen : choose_dialect (0x202 ∷ 0x302 ∷ 0x210 ∷ []) ≡ 0x302
unfolding choose_dialect
chosen = refl

unknown_dialect_panics :
    negotiate plain_config (negotiate_packet 1 (0x05 ∷ 0x03 ∷ [])) new_params ≡ none
unfolding go_smb.Conn.Negotiate.accept go_smb.Packet.is_smb1 go_smb.Packet.command
    go_smb.Packet.protocol_id go_smb.Packet.get go_smb.Packet.body go_smb.Bytes.read
    go_smb.Bytes.get_le go_smb.Bytes.from go_smb.Bytes.sub go_smb.Bytes.index
    go_smb.Conn.Negotiate.is_invalid_negotiate go_smb.Conn.Negotiate.dialects choose_dialect
unknown_dialect_panics =
    negotiate-unsupported plain_config (negotiate_packet 1 (0x05 ∷ 0x03 ∷ []))
      (of_list (negotiate_bytes 1 (0x05 ∷ 0x03 ∷ []))) new_params refl refl refl (0x305 ∷ []) 1 0x55
      refl refl refl refl

missing_dialects_panic : negotiate plain_config (negotiate_packet 9 []) new_params ≡ none
unfolding go_smb.Conn.Negotiate.accept go_smb.Packet.is_smb1 go_smb.Packet.command
    go_smb.Packet.protocol_id go_smb.Packet.get go_smb.Packet.body go_smb.Bytes.read
    go_smb.Bytes.get_le go_smb.Bytes.from go_smb.Bytes.sub go_smb.Bytes.index
    go_smb.Conn.Negotiate.is_invalid_negotiate go_smb.Conn.Negotiate.dialects
missing_dialects_panic =
    negotiate-dialects_missing plain_config (negotiate_packet 9 []) (of_list (negotiate_bytes 9 []))
      new_params refl refl refl 9 refl (omega arith) (omega arith)
