-- ===== src/Session/Laws.antt =====
-- server/session.go, `sign` and `verify`.
use go_smb.Common.{
  ℕ, ◌+◌, ◌≤◌, ◌≡◌, refl, true, some, List, length, take, drop, arith, ◌==◌, ap, ◌∙◌, sym, bit_and,
  bit_or, inl, inr, Bool-cases, if◌then◌else◌, subst, length-take, le→leb,
}
use go_smb.Common.Texts.{equal_bytes, equal_bytes_refl}
use go_smb.Bytes.{Slice, IsSlice, elements, read, encode_le}
use go_smb.Bytes.Writes.{write, overwrite}
use go_smb.Bytes.Writes.Laws.{
  length-overwrite, write_total, take-drop-overwrite_self, take-drop-overwrite_above,
  overwrite-overwrite, overwrite_same,
}
use go_smb.Packet.{get, put, flags, signature, flags_signed}
use go_smb.Packet.Valid.{get-some}
use go_smb.Session.{Session, sign, verify, set_signature, zero_signature, guest_or_null}

-- The packet with another signature.
abbrev pub with_signature : List ℕ → Slice → Slice
with_signature bs p = record p { bytes = overwrite p.bytes 48 (take 16 bs) }

set_signature-total :
    (bs : List ℕ) (p : Slice)
    → IsSlice p
    → 64 ≤ p.len
    → write (set_signature bs) p ≡ some (with_signature bs p)
set_signature-total bs p s room =
    write_total (set_signature bs) p 64 (omega (arith, length-take 16 bs)) (omega arith) room s

window_signature :
    (bs : List ℕ) (p : Slice)
    → IsSlice p
    → 64 ≤ p.len
    → 16 ≤ length bs
    → take 16 (drop 48 (overwrite p.bytes 48 (take 16 bs))) ≡ take 16 bs
window_signature bs p s room long =
    let wide : length (take 16 bs) ≡ 16 = omega (arith, length-take 16 bs) in
    subst (λ w. take w (drop 48 (overwrite p.bytes 48 (take 16 bs))) ≡ take 16 bs) wide
      (take-drop-overwrite_self p.bytes 48 (take 16 bs) (omega arith))

pub read_whole :
    (p : Slice) (o w : ℕ) → o + w ≤ length p.bytes → read p o w ≡ some (take w (drop o p.bytes))
unfolding read
read_whole p o w h = rw (le→leb (o + w) (length p.bytes) h) refl

signature-window :
    (p : Slice) → IsSlice p → 64 ≤ p.len → signature p ≡ some (take 16 (drop 48 p.bytes))
unfolding signature
signature-window p s room = read_whole p 48 16 (omega arith)

signature-with :
    (bs : List ℕ) (p : Slice)
    → IsSlice p
    → 64 ≤ p.len
    → 16 ≤ length bs
    → signature (with_signature bs p) ≡ some (take 16 bs)
unfolding signature
signature-with bs p s room long =
    read_whole (with_signature bs p) 48 16 (omega (arith, length-overwrite p.bytes 48 (take 16 bs)))
    ∙ ap some (window_signature bs p s room long)

with_signature-IsSlice : (bs : List ℕ) (p : Slice) → IsSlice p → IsSlice (with_signature bs p)
with_signature-IsSlice bs p s = omega (arith, length-overwrite p.bytes 48 (take 16 bs))

with_signature_again :
    (a b : List ℕ) (p : Slice)
    → 16 ≤ length a
    → 16 ≤ length b
    → with_signature b (with_signature a p) ≡ with_signature b p
with_signature_again a b p la lb =
    ap (λ t. record p { bytes = t })
      (overwrite-overwrite p.bytes 48 (take 16 a) (take 16 b)
        (omega (arith, length-take 16 a, length-take 16 b)))

-- The packet whose signature is cleared, and the bytes that are signed.
abbrev pub cleared : Slice → Slice
cleared p = with_signature zero_signature p

abbrev pub signed_bytes : Slice → List ℕ
signed_bytes p = elements (cleared p)

-- On a packet of at least 64 bytes, with hashes of at least 16 bytes, `verify` does not panic. It
-- leaves the packet with the first 16 bytes of the hash of the packet whose signature is cleared, and
-- returns whether these are the signature that the packet had. For a guest's or anonymous session
-- the packet is left with a cleared signature, and only a zero signature is accepted.
pub verify_lem :
    (s : Session) (p : Slice)
    → IsSlice p
    → 64 ≤ p.len
    → ((bs : List ℕ) → 16 ≤ length (s.verifier bs))
    → verify s p
      ≡ some (
          if bit_and s.session_flags guest_or_null == 0
          then (
            with_signature (s.verifier (signed_bytes p)) p,
            equal_bytes (take 16 (drop 48 p.bytes)) (take 16 (s.verifier (signed_bytes p))),
          )
          else (cleared p, equal_bytes (take 16 (drop 48 p.bytes)) zero_signature))
unfolding verify
verify_lem s p slice room long =
    let given : signature p ≡ some (take 16 (drop 48 p.bytes)) = signature-window p slice room in
    let mac = s.verifier (signed_bytes p) in
    let again : write (set_signature mac) (cleared p) ≡ some (with_signature mac p) =
      set_signature-total mac (cleared p) (with_signature-IsSlice zero_signature p slice) room
      ∙ ap some (with_signature_again zero_signature mac p (omega arith) (long (signed_bytes p))) in
    rw (given, set_signature-total zero_signature p slice room)
      (elim (Bool-cases (bit_and s.session_flags guest_or_null == 0)) [
        | inl signs ↦
            rw (signs, again, signature-with mac p slice room (long (signed_bytes p))) refl
        | inr guest ↦ rw (guest, signature-with zero_signature p slice room (omega arith)) refl
      ])

-- What `sign` signs: the packet with the signed flag set.
abbrev pub marked : ℕ → Slice → Slice
marked f p = record p { bytes = overwrite p.bytes 16 (encode_le 4 (bit_or f flags_signed)) }

sign_lem :
    (s : Session) (p : Slice) (f : ℕ)
    → IsSlice p
    → 64 ≤ p.len
    → get flags p ≡ some f
    → sign s p ≡ some (with_signature (s.signer (elements (marked f p))) (marked f p))
unfolding sign
sign_lem s p f slice room e =
    rw
      (
        e,
        write_total (put flags (bit_or f flags_signed)) p 64 (omega arith) (omega arith) room slice,
      )
      (set_signature-total (s.signer (elements (marked f p))) (marked f p)
        (omega (arith, length-overwrite p.bytes 16 (encode_le 4 (bit_or f flags_signed)))) room)

cleared-marked :
    (f : ℕ) (p : Slice)
    → take 16 (drop 48 p.bytes) ≡ zero_signature
    → cleared (marked f p) ≡ marked f p
cleared-marked f p zeros =
    let kept =
      take-drop-overwrite_above p.bytes 48 16 16 (encode_le 4 (bit_or f flags_signed))
        (omega arith) in
    ap (λ t. record p { bytes = t })
      (subst (λ t. overwrite (marked f p).bytes 48 t ≡ (marked f p).bytes) (kept ∙ zeros)
        (overwrite_same (marked f p).bytes 48 16))

verify-with_signature :
    (s : Session) (m : Slice) (mac : List ℕ)
    → IsSlice m
    → 64 ≤ m.len
    → cleared m ≡ m
    → bit_and s.session_flags guest_or_null ≡ 0
    → ((bs : List ℕ) → 16 ≤ length (s.verifier bs))
    → s.verifier (elements m) ≡ mac
    → verify s (with_signature mac m) ≡ some (with_signature mac m, true)
verify-with_signature s m mac slice room clear own long e =
    let wide : 16 ≤ length mac = subst (λ t. 16 ≤ length t) e (long (elements m)) in
    let q = with_signature mac m in
    let back : cleared q ≡ m =
      with_signature_again mac zero_signature m wide (omega arith) ∙ clear in
    let hash : s.verifier (signed_bytes q) ≡ mac = ap (λ t. s.verifier (elements t)) back ∙ e in
    verify_lem s q (with_signature-IsSlice mac m slice) room long
    ∙ rw
        (
          own,
          hash,
          with_signature_again mac mac m wide wide,
          window_signature mac m slice room wide,
          equal_bytes_refl (take 16 mac),
        )
        refl

-- A session whose two hashes agree and have at least 16 bytes, and that is no guest's or anonymous
-- one, verifies every packet that it signed: for a packet of at least 64 bytes whose signature was
-- zero, `sign` and then `verify` succeed with `true`, and `verify` leaves the packet as `sign` left it.
pub sign-verify :
    (s : Session) (p : Slice)
    → IsSlice p
    → 64 ≤ p.len
    → take 16 (drop 48 p.bytes) ≡ zero_signature
    → bit_and s.session_flags guest_or_null ≡ 0
    → ((bs : List ℕ) → s.verifier bs ≡ s.signer bs)
    → ((bs : List ℕ) → 16 ≤ length (s.signer bs))
    → (q : Slice) × (sign s p ≡ some q) × (verify s q ≡ some (q, true))
sign-verify s p slice room zeros own same long =
    let (f, e) = get-some flags p (omega arith) in
    let m = marked f p in
    let mac = s.signer (elements m) in
    (
      with_signature mac m,
      sign_lem s p f slice room e,
      verify-with_signature s m mac
          (omega (arith, length-overwrite p.bytes 16 (encode_le 4 (bit_or f flags_signed)))) room
          (cleared-marked f p zeros) own
          (λ bs. subst (λ t. 16 ≤ length t) (sym (same bs)) (long bs)) (same (elements m)),
    )
