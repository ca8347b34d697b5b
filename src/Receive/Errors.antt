-- ===== src/Receive/Errors.antt =====
-- server/conn.go: packets that the receiver should not take, and what it does with them.
use go_smb.Common.{
  ℕ, suc, ◌≡◌, refl, Bool, true, false, Option, none, some, List, [], bit_and, ◌!=◌, if◌then◌else◌,
  ◌&&◌, inl, inr, Bool-cases,
}
use go_smb.Bytes.{Slice}
use go_smb.Packet.{
  get, flags, next_command, session_id, is_invalid, is_compound_first, is_compound_last,
  flags_signed, flags_related_operations,
}
use go_smb.Session.{Session, verify, guest_or_null}
use go_smb.Receive.{
  Conn, CompoundContext, handle_parts, one_part, open_context, close_context, skips, lookup_session,
  receive_frame, try_decrypt, after_decryption, handle_decrypted,
}

module _ (c : Conn) (found : Option Session) (was_encrypted : Bool) (p : Slice)
    (store : List CompoundContext) (n f : ℕ) (valid : is_invalid p ≡ some false)
    (has_flags : get flags p ≡ some f) where
  -- There is no context yet that could be closed.
  parts-related_first :
      bit_and f flags_related_operations ≡ flags_related_operations
      → get next_command p ≡ some 0
      → handle_parts (suc n) c found was_encrypted p none store ≡ none
  unfolding handle_parts one_part open_context close_context is_compound_first is_compound_last
  parts-related_first related last = rw (valid, has_flags, last, related) refl

-- After the switch on the session.
first_decrypted :
    (c : Conn) (p : Slice) (f : ℕ) (skip : Bool) (found : Option Session)
    → is_invalid p ≡ some false
    → get flags p ≡ some f
    → bit_and f flags_related_operations ≡ flags_related_operations
    → get next_command p ≡ some 0
    → skips found p ≡ some skip
    → handle_decrypted c p found false ≡ (if skip then some none else none)
unfolding handle_decrypted
first_decrypted c p f true found valid has_flags related last known = rw known refl
first_decrypted c p f false found valid has_flags related last known =
    rw (known, parts-related_first c found false p [] p.len f valid has_flags related last) refl

-- A plain frame that passes `IsInvalid`, whose first part has the RELATED_OPERATIONS flag and
-- `NextCommand` zero, panics on a connection that does not use sessions; on one that does it is
-- skipped where the switch on its session skips it (`skip`), and panics where it does not:
-- `compCtx` is still nil there.
pub receive_frame-related_first :
    (c : Conn) (p : Slice) (f id : ℕ) (skip : Bool)
    → is_invalid p ≡ some false
    → get flags p ≡ some f
    → bit_and f flags_related_operations ≡ flags_related_operations
    → get next_command p ≡ some 0
    → get session_id p ≡ some id
    → skips (lookup_session c id) p ≡ some skip
    → receive_frame c p ≡ (if c.use_session && skip then some none else none)
unfolding receive_frame try_decrypt after_decryption
receive_frame-related_first c p f id skip valid has_flags related last has_id known =
    elim (Bool-cases c.use_session) [
      | inl uses ↦ simp (
        uses,
        valid,
        has_id,
        known,
        first_decrypted c p f skip (lookup_session c id) valid has_flags related last,
      )
      | inr plain ↦
          simp (plain, parts-related_first c none false p [] p.len f valid has_flags related last)
    ]

-- Why a packet `p` is not verified, with flags `f` and session id `sid`, for the session found and
-- whether it was encrypted, and the packet that the check leaves.
pub data IsUnverified (c : Conn) (p : Slice) (f sid : ℕ)
    : Option Session → Bool → Slice → Type 0 where
  signed_for_none :
      {e : Bool} → (bit_and f flags_signed != 0) ≡ true → IsUnverified c p f sid none e p
  signed_for_other :
      {e : Bool} {s : Session}
      → (bit_and f flags_signed != 0) ≡ true
      → (s.session_id != sid) ≡ true
      → IsUnverified c p f sid (some s) e p
  wrong_signature :
      {e : Bool} {s : Session} {q : Slice}
      → (bit_and f flags_signed != 0) ≡ true
      → s.session_id ≡ sid
      → verify s p ≡ some (q, false)
      → IsUnverified c p f sid (some s) e q
  unsigned :
      {s : Session}
      → bit_and f flags_signed ≡ 0
      → s.session_id ≡ sid
      → c.require_signing ≡ true
      → bit_and s.session_flags guest_or_null ≡ 0
      → IsUnverified c p f sid (some s) false p
