-- ===== src/Packet/HeaderLaws.antt =====
-- internal/smb2/packet.go: `encodeHeader` and the getters.
use go_smb.Common.{
  ℕ, ◌+◌, ◌-◌, ◌^◌, ◌≤◌, ◌<◌, ◌≡◌, none, some, List, length, arith, Bool-cases, inl, inr, ◌!=◌,
  if◌then◌else◌, length-take, ap, ◌∙◌, take, take_all,
}
use go_smb.Bytes.{Slice, IsSlice, encode_le, read}
use go_smb.Bytes.Words.{decode_le-encode_2, decode_le-encode_4, decode_le-encode_8}
use go_smb.Bytes.Writes.{Write, Fits, found}
use go_smb.Bytes.Writes.Laws.{Written, writes-Written, get_le-Written, read-Written}
use go_smb.Packet.{
  get, structure_size, credit_charge, status, channel_sequence, command_field, credit_request,
  flags, next_command, message_id_field, async_id, tree_id, session_id,
}
use go_smb.Packet.Header.{PacketHeader, header_writes, encode_header, magic}

-- The fields are within their Go types.
pub record IsHeader (h : PacketHeader) : Type 0 where
  pub charge_range : h.credit_charge < 2 ^ 16
  pub channel_range : h.channel_sequence < 2 ^ 16
  pub status_range : h.status < 2 ^ 32
  pub command_range : h.command < 2 ^ 16
  pub credit_range : h.credit_request_response < 2 ^ 16
  pub flags_range : h.flags < 2 ^ 32
  pub next_range : h.next_command < 2 ^ 32
  pub message_range : h.message_id < 2 ^ 64
  pub async_range : h.async_id < 2 ^ 64
  pub tree_range : h.tree_id < 2 ^ 32
  pub session_range : h.session_id < 2 ^ 64

header_Fits : (n : ℕ) (h : PacketHeader) → 64 ≤ n → Fits n (header_writes n h)
header_Fits n h room = ground (arith, length-take (n - 0) magic)

-- What every packet carries of its header, whatever the two switches wrote.
pub record Carries (h : PacketHeader) (q : Slice) : Type 0 where
  pub has_protocol_id : read q 0 4 ≡ some magic
  pub has_structure_size : get structure_size q ≡ some 64
  pub has_charge : get credit_charge q ≡ some h.credit_charge
  pub has_command : get command_field q ≡ some h.command
  pub has_credit : get credit_request q ≡ some h.credit_request_response
  pub has_flags : get flags q ≡ some h.flags
  pub has_next : get next_command q ≡ some h.next_command
  pub has_message_id : get message_id_field q ≡ some h.message_id
  pub has_session_id : get session_id q ≡ some h.session_id

-- What the two switches wrote: a channel sequence hides the status, an async id the tree id.
pub record Switches (h : PacketHeader) (q : Slice) : Type 0 where
  pub has_status :
      (if h.channel_sequence != 0
        then get channel_sequence q
        else if h.status != 0
        then get status q
        else some 0)
      ≡ some (if h.channel_sequence != 0 then h.channel_sequence else h.status)
  pub has_id :
      (if h.async_id != 0 then get async_id q else if h.tree_id != 0 then get tree_id q else some 0)
      ≡ some (if h.async_id != 0 then h.async_id else h.tree_id)

module _ {ws : List Write} {n : ℕ} {p q : Slice} (r : Written ws n p q)
    (room : n ≤ length p.bytes) where
  pub get-found_2 :
      (o v : ℕ)
      → o + 2 ≤ n
      → v < 2 ^ 16
      → found o 2 none ws ≡ some (encode_le 2 v)
      → get (record { at = o; width = 2 }) q ≡ some v
  unfolding get
  get-found_2 o v small fits e =
      get_le-Written r 2 o (encode_le 2 v) room small e ∙ ap some (decode_le-encode_2 v fits)

  pub get-found_4 :
      (o v : ℕ)
      → o + 4 ≤ n
      → v < 2 ^ 32
      → found o 4 none ws ≡ some (encode_le 4 v)
      → get (record { at = o; width = 4 }) q ≡ some v
  unfolding get
  get-found_4 o v small fits e =
      get_le-Written r 4 o (encode_le 4 v) room small e ∙ ap some (decode_le-encode_4 v fits)

  pub get-found_8 :
      (o v : ℕ)
      → o + 8 ≤ n
      → v < 2 ^ 64
      → found o 8 none ws ≡ some (encode_le 8 v)
      → get (record { at = o; width = 8 }) q ≡ some v
  unfolding get
  get-found_8 o v small fits e =
      get_le-Written r 8 o (encode_le 8 v) room small e ∙ ap some (decode_le-encode_8 v fits)

-- `copy(p, MAGIC)` writes all of the magic into a slice that has room for it.
magic_whole : (n : ℕ) → 64 ≤ n → take (n - 0) magic ≡ magic
magic_whole n room = take_all magic (n - 0) (omega arith)

header_found-magic :
    (n : ℕ) (h : PacketHeader) → 64 ≤ n → found 0 4 none (header_writes n h) ≡ some magic
header_found-magic n h room = rw (magic_whole n room) (ground arith)

module _ {h : PacketHeader} {n : ℕ} {p q : Slice} (ok : IsHeader h) (room : n ≤ length p.bytes)
    (small : 64 ≤ n) (r : Written (header_writes n h) n p q) where
  pub Written-Carries : Carries h q
  Written-Carries = record {
    has_protocol_id = read-Written r 0 4 magic room (omega arith) (header_found-magic n h small);
    has_structure_size = get-found_2 r room 4 64 (omega arith) (omega arith) (ground arith);
    has_charge = get-found_2 r room 6 h.credit_charge (omega arith) ok.charge_range (ground arith);
    has_command = get-found_2 r room 12 h.command (omega arith) ok.command_range (ground arith);
    has_credit =
        get-found_2 r room 14 h.credit_request_response (omega arith) ok.credit_range
          (ground arith);
    has_flags = get-found_4 r room 16 h.flags (omega arith) ok.flags_range (ground arith);
    has_next = get-found_4 r room 20 h.next_command (omega arith) ok.next_range (ground arith);
    has_message_id =
        get-found_8 r room 24 h.message_id (omega arith) ok.message_range (ground arith);
    has_session_id =
        get-found_8 r room 40 h.session_id (omega arith) ok.session_range (ground arith);
  }

  pub Written-Switches : Switches h q
  Written-Switches = record {
    has_status = elim (Bool-cases (h.channel_sequence != 0)) [
      | inl c ↦
          rw c
            (get-found_2 r room 8 h.channel_sequence (omega arith) ok.channel_range (ground arith))
      | inr c ↦ rw c (elim (Bool-cases (h.status != 0)) [
        | inl s ↦ rw s (get-found_4 r room 8 h.status (omega arith) ok.status_range (ground arith))
        | inr s ↦ rw s (ap some (ground arith))
      ])
    ];
    has_id = elim (Bool-cases (h.async_id != 0)) [
      | inl c ↦ rw c (get-found_8 r room 32 h.async_id (omega arith) ok.async_range (ground arith))
      | inr c ↦ rw c (elim (Bool-cases (h.tree_id != 0)) [
        | inl s ↦ rw s (get-found_4 r room 36 h.tree_id (omega arith) ok.tree_range (ground arith))
        | inr s ↦ rw s (ap some (ground arith))
      ])
    ];
  }

-- On a slice of at least 64 bytes `encodeHeader` does not panic, keeps length and capacity, and the
-- getters read back every field that it wrote: the channel sequence or else the status, and the
-- async id or else the tree id, whichever is not zero.
pub encode_header-Carries :
    (h : PacketHeader) (p : Slice)
    → IsHeader h
    → IsSlice p
    → 64 ≤ p.len
    → (q : Slice) × (encode_header h p ≡ some q)
      × (q.len ≡ p.len)
      × (length q.bytes ≡ length p.bytes)
      × Carries h q
      × Switches h q
unfolding encode_header
encode_header-Carries h p ok slice room =
    let (q, r) =
      writes-Written (header_writes p.len h) p.len p (header_Fits p.len h room) (omega arith)
        slice in
    (
      q,
      r.ran,
      r.same_len,
      r.capacity,
      Written-Carries ok slice room r,
      Written-Switches ok slice room r,
    )
