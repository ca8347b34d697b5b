-- ===== src/Dtyp/SidLaws.antt =====
-- internal/smb2/dtyp.go: SIDs, encoded and decoded.
use go_smb.Common.{
  ℕ, ◌+◌, ◌*◌, ◌/◌, ◌%◌, ◌^◌, ◌≤◌, ◌<◌, ◌≡◌, append_assoc, refl, Option, none, some, List, [], ◌∷◌,
  ◌++◌, length, arith, All, ap, ◌∙◌, false, ltb, subst,
}
use go_smb.Bytes.{Slice, IsSlice, index, encode_le}
use go_smb.Bytes.Words.{decode_le-encode_4}
use go_smb.Bytes.Writes.{Write, Fits, found, put_le, put_byte}
use go_smb.Bytes.Writes.Laws.{
  Written, writes-Written, found-append, after_write_below, get_le-Written, index-Written,
}
use go_smb.Dtyp.{
  Sid, sid_size, sid_writes, sub_authority_writes, authority_writes, encode_sid, decode_sid,
  identifier_authority, sub_authority_loop, is_invalid_sid,
}

-- The sub-authorities are written behind what they follow.
sub_writes_away :
    (o w off : ℕ) (before : Option (List ℕ)) (us : List ℕ)
    → o + w ≤ off
    → found o w before (sub_authority_writes off us) ≡ before
sub_writes_away o w off before [] h = refl
sub_writes_away o w off before (u ∷ us) h =
    ap (λ b. found o w b (sub_authority_writes (off + 4) us))
      (after_write_below o w before (put_le 4 off u) h)
    ∙ sub_writes_away o w (off + 4) before us (omega arith)

sub_writes_Fits :
    (off n : ℕ) (us : List ℕ) → off + length us * 4 ≤ n → Fits n (sub_authority_writes off us)
sub_writes_Fits off n [] h = tt
sub_writes_Fits off n (u ∷ us) h = (omega arith, sub_writes_Fits (off + 4) n us (omega arith))

-- Every sub-authority is found at its place.
abbrev SubsFound : ℕ → List ℕ → List Write → Type 0
SubsFound off [] ws = Unit {0}
SubsFound off (u ∷ us) ws = (found off 4 none ws ≡ some (encode_le 4 u)) × SubsFound (off + 4) us ws

sub_found :
    (ws : List Write) (off u : ℕ) (us : List ℕ)
    → found off 4 none (ws ++ sub_authority_writes off (u ∷ us)) ≡ some (encode_le 4 u)
sub_found ws off u us =
    found-append off 4 none ws (sub_authority_writes off (u ∷ us))
    ∙ found_here (found off 4 none ws)
    ∙ sub_writes_away off 4 (off + 4) (some (encode_le 4 u)) us (omega arith)
  where
    found_here :
        (before : Option (List ℕ))
        → found off 4 before (sub_authority_writes off (u ∷ us))
          ≡ found off 4 (some (encode_le 4 u)) (sub_authority_writes (off + 4) us)
    found_here before = ap (λ b. found off 4 b (sub_authority_writes (off + 4) us)) (ground arith)

subs_Found :
    (ws : List Write) (off : ℕ) (us : List ℕ) → SubsFound off us (ws ++ sub_authority_writes off us)
subs_Found ws off [] = tt
subs_Found ws off (u ∷ us) = (
  sub_found ws off u us,
  subst (SubsFound (off + 4) us)
      (append_assoc ws (put_le 4 off u ∷ []) (sub_authority_writes (off + 4) us))
      (subs_Found (ws ++ put_le 4 off u ∷ []) (off + 4) us),
)

-- The fields are within their Go types; the authority is a 48-bit number on the wire.
pub record IsSid (sid : Sid) : Type 0 where
  pub revision_range : sid.revision < 256
  pub authority_range : sid.identifier_authority < 2 ^ 48
  pub count_range : length sid.sub_authority < 256
  pub subs_range : All (λ u. u < 2 ^ 32) sid.sub_authority

subs_read :
    {ws : List Write} {n : ℕ} {p q : Slice}
    → Written ws n p q
    → (off : ℕ) (us : List ℕ) → n ≤ length p.bytes
    → off + length us * 4 ≤ n
    → All (λ u. u < 2 ^ 32) us
    → SubsFound off us ws
    → sub_authority_loop (length us) off q ≡ some us
subs_read r off [] room small range f = refl
subs_read r off (u ∷ us) room small range f =
    let here = get_le-Written r 4 off (encode_le 4 u) room (omega arith) f.0 in
    let rest = subs_read r (off + 4) us room (omega arith) range.1 f.1 in
    rw (here, decode_le-encode_4 u range.0, rest)

sid_Fits : (sid : Sid) → Fits (sid_size sid) (sid_writes sid)
sid_Fits sid = (
  omega arith,
  (
    omega arith,
    (
      omega arith,
      (
        omega arith,
        (
          omega arith,
          (
            omega arith,
            (
              omega arith,
              (omega arith, sub_writes_Fits 8 (sid_size sid) sid.sub_authority (omega arith)),
            ),
          ),
        ),
      ),
    ),
  ),
)

-- The writes before the sub-authorities.
abbrev fixed_writes : Sid → List Write
fixed_writes sid =
    put_byte 0 sid.revision
    ∷ put_byte 1 (length sid.sub_authority % 256)
    ∷ authority_writes 6 0 sid.identifier_authority

module _ {sid : Sid} {p q : Slice} (ok : IsSid sid) (slice : IsSlice p)
    (room : sid_size sid ≤ p.len) (r : Written (sid_writes sid) (sid_size sid) p q) where
  byte_read :
      (o b : ℕ)
      → o < 8
      → found o 1 none (sid_writes sid)
        ≡ found o 1 (some (b ∷ [])) (sub_authority_writes 8 sid.sub_authority)
      → index q o ≡ some b
  byte_read o b h e =
      index-Written r o b room (omega arith)
        (e ∙ sub_writes_away o 1 8 (some (b ∷ [])) sid.sub_authority (omega arith))

  authority_read : identifier_authority q ≡ some (sid.identifier_authority / 256)
  unfolding identifier_authority
  authority_read =
      let a = sid.identifier_authority in
      let b7 : index q 7 ≡ some (a / 2 ^ 8 % 256) = byte_read 7 _ (omega arith) refl in
      let b6 : index q 6 ≡ some (a / 2 ^ 16 % 256) = byte_read 6 _ (omega arith) refl in
      let b5 : index q 5 ≡ some (a / 2 ^ 24 % 256) = byte_read 5 _ (omega arith) refl in
      let b4 : index q 4 ≡ some (a / 2 ^ 32 % 256) = byte_read 4 _ (omega arith) refl in
      let b3 : index q 3 ≡ some (a / 2 ^ 40 % 256) = byte_read 3 _ (omega arith) refl in
      let b2 : index q 2 ≡ some (a / 2 ^ 48 % 256) = byte_read 2 _ (omega arith) refl in
      rw (b7, b6, b5, b4, b3, b2) (ap some (omega (arith, ok.authority_range)))

  count_read : index q 1 ≡ some (length sid.sub_authority)
  count_read =
      let whole : length sid.sub_authority % 256 ≡ length sid.sub_authority =
        omega (arith, ok.count_range) in
      byte_read 1 _ (omega arith) refl ∙ ap some whole

  accepted : is_invalid_sid q ≡ some false
  unfolding is_invalid_sid
  accepted =
      let size : q.len ≡ p.len = r.same_len in
      let enough : ltb q.len (8 + length sid.sub_authority * 4) ≡ false = ground arith in
      let long : ltb q.len 8 ≡ false = ground arith in rw (long, count_read, enough)

  decoded :
      decode_sid q
      ≡ some (record {
        revision = sid.revision;
        identifier_authority = sid.identifier_authority / 256;
        sub_authority = sid.sub_authority;
      })
  unfolding decode_sid
  decoded =
      let rev : index q 0 ≡ some sid.revision = byte_read 0 _ (omega arith) refl in
      let subs =
        subs_read r 8 sid.sub_authority (omega arith) (omega arith) ok.subs_range
          (subs_Found (fixed_writes sid) 8 sid.sub_authority) in
      rw (rev, authority_read, count_read, subs)

-- A SID that `Encode` wrote is accepted by the decoder and decoded with its revision and its
-- sub-authorities, but with an identifier authority divided by 256: `Encode` shifts every byte of
-- the authority by one place too many.
pub decode-encode_sid :
    (sid : Sid) (p : Slice)
    → IsSid sid
    → IsSlice p
    → sid_size sid ≤ p.len
    → (q : Slice) × (encode_sid sid p ≡ some q)
      × (is_invalid_sid q ≡ some false)
      × (decode_sid q
          ≡ some (record {
            revision = sid.revision;
            identifier_authority = sid.identifier_authority / 256;
            sub_authority = sid.sub_authority;
          }))
unfolding encode_sid
decode-encode_sid sid p ok slice room =
    let (q, r) = writes-Written (sid_writes sid) (sid_size sid) p (sid_Fits sid) room slice in
    (q, r.ran, accepted ok slice room r, decoded ok slice room r)
