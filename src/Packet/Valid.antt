-- ===== src/Packet/Valid.antt =====
-- internal/smb2/packet.go, `IsInvalid`.
use go_smb.Common.{
  ℕ, ◌+◌, ◌%◌, ◌≤◌, ◌<◌, ◌≡◌, refl, true, false, none, some, List, [], ◌∷◌, length, get_elem?,
  arith, ltb, bit_and, le→leb, lt→ltb, Returns, Returns-if, Returns-bind,
}
use go_smb.Common.Bits.{bit_and-seven}
use go_smb.Bytes.{Slice, IsSlice, read, index, get_le}
use go_smb.Packet.{
  Field, get, structure_size, flags, next_command, protocol_id, is_smb1, is_invalid_smb1,
  is_invalid_smb2, is_invalid, is_compound_first, is_compound_last, smb_com_negotiate,
}

pub get_elem?-lt {ℓ} :
    {A : Type ℓ} (xs : List A) (i : ℕ) → i < length xs → (a : A) × (get_elem? xs i ≡ some a)
get_elem?-lt [] i h = elim h [ ]
get_elem?-lt (x ∷ xs) Prim.Native.Nat.zero h = (x, refl)
get_elem?-lt (x ∷ xs) (Prim.Native.Nat.suc i) h = get_elem?-lt xs i (omega arith)

-- A number inside the capacity is read; one that is not panics.
pub get-some :
    (f : Field) (p : Slice) → f.at + f.width ≤ length p.bytes → (v : ℕ) × (get f p ≡ some v)
unfolding get get_le read
get-some f p h = rw (le→leb (f.at + f.width) (length p.bytes) h) (_, refl)

pub get-none : (f : Field) (p : Slice) → length p.bytes < f.at + f.width → get f p ≡ none
unfolding get get_le read
get-none f p h = ground arith

read-some : (p : Slice) (o w : ℕ) → o + w ≤ length p.bytes → (bs : List ℕ) × (read p o w ≡ some bs)
unfolding read
read-some p o w h = rw (le→leb (o + w) (length p.bytes) h) (_, refl)

index-some : (p : Slice) (i : ℕ) → IsSlice p → i < p.len → Returns (index p i)
unfolding index
index-some p i s h = rw (lt→ltb i p.len h) (get_elem?-lt p.bytes i (omega arith))

protocol_id-Returns : (p : Slice) → IsSlice p → Returns (protocol_id p)
unfolding protocol_id
protocol_id-Returns p s =
    Returns-if (ltb p.len 4) (some []) (read p 0 4) (λ h. ([], refl))
      (λ h. read-some p 0 4 (ground arith))

pub is_smb1-Returns : (p : Slice) → IsSlice p → Returns (is_smb1 p)
unfolding is_smb1
is_smb1-Returns p s =
    Returns-if (ltb p.len 4) _ _ (λ h. (false, refl))
      (λ h. Returns-bind (protocol_id p) _ (protocol_id-Returns p s) (λ m e. (_, refl)))

is_invalid_smb1-Returns : (p : Slice) → IsSlice p → Returns (is_invalid_smb1 p)
unfolding is_invalid_smb1
is_invalid_smb1-Returns p s =
    Returns-if (ltb p.len 5) _ _ (λ h. (true, refl))
      (λ h. Returns-bind (index p 4) _ (index-some p 4 s (ground arith)) (λ m e. (_, refl)))

is_invalid_smb2-Returns : (p : Slice) → IsSlice p → Returns (is_invalid_smb2 p)
unfolding is_invalid_smb2
is_invalid_smb2-Returns p s =
    Returns-if (ltb p.len 64) _ _ (λ h. (true, refl))
      (λ h. Returns-bind (protocol_id p) _ (protocol_id-Returns p s) (λ m _.
        Returns-bind (get structure_size p) _ (get-some structure_size p (ground arith)) (λ size _.
          Returns-bind (get next_command p) _ (get-some next_command p (ground arith))
            (λ next _. (_, refl)))))

-- `IsInvalid` returns on every slice, however short: none of its reads is out of range.
pub is_invalid-Returns : (p : Slice) → IsSlice p → Returns (is_invalid p)
unfolding is_invalid
is_invalid-Returns p s =
    Returns-if (ltb p.len 4) _ _ (λ h. (true, refl))
      (λ h. Returns-bind (is_smb1 p) _ (is_smb1-Returns p s) (λ smb1 _.
        Returns-if smb1 _ _ (λ _. is_invalid_smb1-Returns p s) (λ _. is_invalid_smb2-Returns p s)))

-- What an SMB2 packet that passes `IsInvalid` has.
pub record IsHeaderRoom (p : Slice) : Type 0 where
  pub room : 64 ≤ p.len
  pub next : ℕ
  pub next_read : get next_command p ≡ some next
  pub next_aligned : next % 8 ≡ 0
  pub next_inside : next < p.len

is_invalid_smb2-room : (p : Slice) → is_invalid_smb2 p ≡ some false → 64 ≤ p.len
unfolding is_invalid_smb2
is_invalid_smb2-room p h = ground arith

smb2_checks :
    (p : Slice) (next : ℕ)
    → IsSlice p
    → get next_command p ≡ some next
    → is_invalid_smb2 p ≡ some false
    → (64 ≤ p.len) × (bit_and next 7 ≡ 0) × (next < p.len)
unfolding is_invalid_smb2
smb2_checks p next s e h = ground arith

-- A packet that passes `IsInvalid` and is no SMB1 packet has a whole header, and its
-- `NextCommand` is a multiple of 8 inside the packet: the receiver's split at it cannot panic.
is_invalid-false_smb2 :
    (p : Slice) → IsSlice p → is_invalid p ≡ some false → is_smb1 p ≡ some false → IsHeaderRoom p
unfolding is_invalid
is_invalid-false_smb2 p s h e =
    let long : 4 ≤ p.len = ground arith in
    let smb2 : is_invalid_smb2 p ≡ some false = ground (arith, e) in
    let wide : 64 ≤ p.len = is_invalid_smb2-room p smb2 in
    let (next, r) = get-some next_command p (omega arith) in
    let (_, aligned, inside) = smb2_checks p next s r smb2 in
    record {
      room = wide;
      next = next;
      next_read = r;
      next_aligned = omega (arith, bit_and-seven next);
      next_inside = inside;
    }

smb1_accepted :
    (p : Slice)
    → is_smb1 p ≡ some true
    → index p 4 ≡ some smb_com_negotiate
    → is_invalid p ≡ some false
unfolding is_invalid is_invalid_smb1 index is_smb1
smb1_accepted p smb1 negotiate = ground arith

-- A packet of at least five bytes with the SMB1 magic and the negotiate command passes `IsInvalid`,
-- and if its capacity ends before the flags of an SMB2 header, the three reads with which the
-- receiver goes on (the flags, `IsCompoundFirst`, `IsCompoundLast`) panic.
pub smb1_accepted_then_panics :
    (p : Slice)
    → IsSlice p
    → is_smb1 p ≡ some true
    → index p 4 ≡ some smb_com_negotiate
    → length p.bytes < 20
    → (is_invalid p ≡ some false)
      × (get flags p ≡ none)
      × (is_compound_first p ≡ none)
      × (is_compound_last p ≡ none)
unfolding is_invalid is_compound_first is_compound_last index
smb1_accepted_then_panics p s smb1 negotiate short =
    let e = get-none flags p short in (smb1_accepted p smb1 negotiate, e, rw e, rw e)
