-- ===== src/Oplock/Laws.antt =====
-- internal/smb2/oplock.go: a break message and its decoder.
use go_smb.Common.{
  drop-drop, ℕ, ◌+◌, ◌-◌, ◌^◌, ◌≤◌, ◌<◌, ◌≡◌, refl, >>=-eq-some, Bool-cases, inl, inr, leb→le,
  subst, Option, none, some, List, length, arith, take, drop, ap, ◌∙◌, take_all, length-take,
  length-drop, le→leb, if◌then◌else◌, leb, false,
}
use mathlib.Core.Option.{some-injective}
use go_smb.Bytes.{Slice, IsSlice, encode_le, read, get_le, from}
use go_smb.Bytes.Words.{decode_le-encode_2, decode_le-encode_4}
use go_smb.Bytes.Writes.{Fits, found}
use go_smb.Bytes.Writes.Laws.{writes-Written, get_le-Written, read-Written, found-append}
use go_smb.Packet.Header.{header_writes, magic}
use go_smb.Oplock.{
  LeaseBreakNotification, lease_break_notification_writes, encode_lease_break_notification,
  LeaseNotice, decode_lease_notification, is_invalid_lease_notification, smb2_oplock_break,
}

-- The fields are within their Go types.
pub record IsLeaseNotification (m : LeaseBreakNotification) : Type 0 where
  pub epoch_range : m.new_epoch < 2 ^ 16
  pub flags_range : m.flags < 2 ^ 32
  pub key_length : length m.lease_key ≡ 16
  pub current_range : m.current_lease_state < 2 ^ 32
  pub new_range : m.new_lease_state < 2 ^ 32

-- Reading behind `p[64:]` is reading behind 64.
abbrev pub behind : Slice → Slice
behind p = record { bytes = drop 64 p.bytes; len = p.len - 64 }

read-inside :
    (p : Slice) (a w : ℕ) (bs : List ℕ)
    → read p a w ≡ some bs
    → (a + w ≤ length p.bytes) × (take w (drop a p.bytes) ≡ bs)
unfolding read
read-inside p a w bs h = elim (Bool-cases (leb (a + w) (length p.bytes))) [
  | inl inside ↦ (
    leb→le (a + w) (length p.bytes) inside,
    some-injective _ _
        (subst (λ b. (if b then some (take w (drop a p.bytes)) else none) ≡ some bs) inside h),
  )
  | inr outside ↦ absurd (ground arith)
]

read-behind :
    (p : Slice) (o w : ℕ) (bs : List ℕ)
    → 64 ≤ length p.bytes
    → read p (64 + o) w ≡ some bs
    → read (behind p) o w ≡ some bs
unfolding read
read-behind p o w bs room h =
    let (fits, e) = read-inside p (64 + o) w bs h in
    rw (le→leb (o + w) (length (drop 64 p.bytes)) (omega (arith, length-drop 64 p.bytes)))
      (ap some (ap (take w) (drop-drop 64 o p.bytes) ∙ e))

get_le-behind :
    (p : Slice) (w o v : ℕ)
    → 64 ≤ length p.bytes
    → get_le w p (64 + o) ≡ some v
    → get_le w (behind p) o ≡ some v
unfolding get_le
get_le-behind p w o v room h =
    let (bs, e, e') = >>=-eq-some (read p (64 + o) w) _ h in rw (read-behind p o w bs room e) e'

lease_Fits :
    (n : ℕ) (m : LeaseBreakNotification) → 108 ≤ n → Fits n (lease_break_notification_writes n m)
lease_Fits n m room = ground (arith, length-take (n - 0) magic, length-take 16 m.lease_key)

module _ (n : ℕ) (m : LeaseBreakNotification) (e : length m.lease_key ≡ 16) where
  before : ℕ → ℕ → Option (List ℕ)
  before o w = found o w none (header_writes n (record m.header { command = smb2_oplock_break }))

  key_whole : take 16 m.lease_key ≡ m.lease_key
  key_whole = take_all m.lease_key 16 (omega arith)

  found_size : found 64 2 none (lease_break_notification_writes n m) ≡ some (encode_le 2 44)
  found_size =
      found-append 64 2 none (header_writes n (record m.header { command = smb2_oplock_break })) _
      ∙ refl

  found_epoch :
      found 66 2 none (lease_break_notification_writes n m) ≡ some (encode_le 2 m.new_epoch)
  found_epoch =
      found-append 66 2 none (header_writes n (record m.header { command = smb2_oplock_break })) _
      ∙ refl

  found_flags : found 68 4 none (lease_break_notification_writes n m) ≡ some (encode_le 4 m.flags)
  found_flags =
      found-append 68 4 none (header_writes n (record m.header { command = smb2_oplock_break })) _
      ∙ refl

  found_key : found 72 16 none (lease_break_notification_writes n m) ≡ some m.lease_key
  found_key =
      found-append 72 16 none (header_writes n (record m.header { command = smb2_oplock_break })) _
      ∙ rw (key_whole, e) refl

  found_current :
      found 88 4 none (lease_break_notification_writes n m)
      ≡ some (encode_le 4 m.current_lease_state)
  found_current =
      found-append 88 4 none (header_writes n (record m.header { command = smb2_oplock_break })) _
      ∙ refl

  found_new :
      found 92 4 none (lease_break_notification_writes n m) ≡ some (encode_le 4 m.new_lease_state)
  found_new =
      found-append 92 4 none (header_writes n (record m.header { command = smb2_oplock_break })) _
      ∙ refl

abbrev pub notice_of : LeaseBreakNotification → LeaseNotice
notice_of m = record {
  new_epoch = m.new_epoch;
  flags = m.flags;
  lease_key = m.lease_key;
  current_lease_state = m.current_lease_state;
  new_lease_state = m.new_lease_state;
}

-- A lease break notification whose fields are within their Go types, encoded into a packet of at
-- least 108 bytes, is accepted by its decoder behind the header, and the decoder reads back the epoch, the flags,
-- the lease key and both lease states.
decode-encode_lease_break_notification :
    (m : LeaseBreakNotification) (p : Slice)
    → IsLeaseNotification m
    → IsSlice p
    → 108 ≤ p.len
    → (q : Slice) × (encode_lease_break_notification m p ≡ some q)
      × (from q 64 ≡ some (behind q))
      × (is_invalid_lease_notification (behind q) ≡ some false)
      × (decode_lease_notification (behind q) ≡ some (notice_of m))
unfolding encode_lease_break_notification from is_invalid_lease_notification
    decode_lease_notification
decode-encode_lease_break_notification m p ok s room =
    let (q, r) =
      writes-Written (lease_break_notification_writes p.len m) p.len p (lease_Fits p.len m room)
        (omega arith) s in
    let k = ok.key_length in
    let wide : 64 ≤ length q.bytes = omega (arith, r.capacity) in
    let size =
      get_le-behind q 2 0 44 wide
        (get_le-Written r 2 64 _ s (omega arith) (found_size p.len m k)) in
    let epoch = get_le-behind q 2 2 m.new_epoch wide (
      get_le-Written r 2 66 _ s (omega arith) (found_epoch p.len m k)
      ∙ ap some (decode_le-encode_2 m.new_epoch ok.epoch_range)) in
    let flags = get_le-behind q 4 4 m.flags wide (
      get_le-Written r 4 68 _ s (omega arith) (found_flags p.len m k)
      ∙ ap some (decode_le-encode_4 m.flags ok.flags_range)) in
    let key =
      read-behind q 8 16 m.lease_key wide
        (read-Written r 72 16 _ s (omega arith) (found_key p.len m k)) in
    let current = get_le-behind q 4 24 m.current_lease_state wide (
      get_le-Written r 4 88 _ s (omega arith) (found_current p.len m k)
      ∙ ap some (decode_le-encode_4 m.current_lease_state ok.current_range)) in
    let new = get_le-behind q 4 28 m.new_lease_state wide (
      get_le-Written r 4 92 _ s (omega arith) (found_new p.len m k)
      ∙ ap some (decode_le-encode_4 m.new_lease_state ok.new_range)) in
    (
      q,
      r.ran,
      ground (arith, r.same_len),
      rw size (ground (arith, r.same_len)),
      rw (epoch, flags, key, current, new) refl,
    )
