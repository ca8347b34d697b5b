-- ===== src/Receive/Laws.antt =====
-- server/conn.go: the loop over the parts of a frame.
use go_smb.Common.{
  ℕ, zero, suc, ◌+◌, ◌<◌, ◌≡◌, ◌⊎◌, refl, sym, subst, Bool, true, false, Option, none, some, List,
  [], ◌∷◌, ◌==◌, leb, ◌>>=◌, bit_and, arith, Post, Post-if, Post-bind, Post-after, Post-some,
  Post-pure, Post-none, inl, inr, Bool-cases,
}
use go_smb.Bytes.{Slice, elements, sub, from}
use go_smb.Bytes.Writes.{Write, write}
use go_smb.Packet.{
  get, flags, next_command, session_id, credit_request, message_id, is_invalid, signature,
}
use go_smb.Session.{Session, verify, guest_or_null, set_signature, zero_signature}
use go_smb.Receive.{
  Conn, Request, Handled, whole, invalid_part, CompoundContext, handle_parts, one_part, try_verify,
  try_handle, split_part, open_context, close_context, shared,
}

abbrev pub SameLen : Slice → Slice → Type 0
SameLen p q = q.len ≡ p.len

write-len : (x : Write) (p q : Slice) → SameLen p q → Post (SameLen p) (write x q)
unfolding write
write-len x p q e = Post-if (SameLen p) _ _ _ (Post-pure (SameLen p) e) (Post-none (SameLen p))

-- Checking a signature leaves the packet's length.
abbrev pub Checks : Slice → Slice × Bool → Type 0
Checks p r = r.0.len ≡ p.len

verify-len : (s : Session) (p : Slice) → Post (Checks p) (verify s p)
unfolding verify
verify-len s p = Post-after (Checks p) (signature p) _ (λ given _.
    Post-bind (SameLen p) (Checks p) (write (set_signature zero_signature) p) _
      (write-len (set_signature zero_signature) p p refl)
      (λ cleared _ e.
        Post-bind (SameLen p) (Checks p) _ _
          (Post-if (SameLen p) (bit_and s.session_flags guest_or_null == 0) _ _
            (write-len (set_signature (s.verifier (elements cleared))) p cleared e)
            (Post-pure (SameLen p) {a = cleared} e))
          (λ final _ e'.
            Post-after (Checks p) (signature final) _ (λ computed _. Post-pure (Checks p) e'))))

same : (p : Slice) (b : Bool) → Post (Checks p) (some (p, b))
same p b = Post-pure (Checks p) refl

try_verify-len :
    (c : Conn) (found : Option Session) (was_encrypted : Bool) (p : Slice)
    → Post (Checks p) (try_verify c found was_encrypted p)
unfolding try_verify
try_verify-len c none was_encrypted p = Post-after (Checks p) (message_id p) _ (λ id _.
    Post-if (Checks p) _ _ _ (same p true) (
      Post-after (Checks p) (get flags p) _ (λ f _.
        Post-after (Checks p) (get session_id p) _
          (λ sid _. Post-if (Checks p) _ _ _ (same p false) (same p true)))))
try_verify-len c (some s) was_encrypted p = Post-after (Checks p) (message_id p) _ (λ id _.
    Post-if (Checks p) _ _ _ (same p true) (
      Post-after (Checks p) (get flags p) _ (λ f _.
        Post-after (Checks p) (get session_id p) _ (λ sid _.
          Post-if (Checks p) _ _ _ (Post-if (Checks p) _ _ _ (same p false) (verify-len s p))
            (same p _)))))

abbrev pub total : List Request → ℕ
total [] = 0
total (r ∷ rs) = r.pkt.len + total rs

-- What is left of a frame.
abbrev pub left : Option Slice → ℕ
left none = 0
left (some q) = q.len

-- What `tryHandle` queues is the packet.
abbrev pub Holds : Slice → Request → Type 0
Holds p r = r.pkt ≡ p

try_handle-pkt :
    (p : Slice) (found : Option Session) (ctx : Option ℕ) (v : Bool)
    → Post (Holds p) (try_handle p found ctx v)
unfolding try_handle
try_handle-pkt p found ctx v =
    Post-after (Holds p) (message_id p) _
      (λ id _. Post-after (Holds p) (get credit_request p) _ (λ credit _. Post-pure (Holds p) refl))

-- A part and the rest are the frame, and the rest is shorter.
abbrev pub Parts : ℕ → ℕ → Option Slice → Type 0
Parts n m rest = (m + left rest ≡ n) × ((rest ≡ none) ⊎ (left rest < n))

abbrev pub SplitLengths : Slice → Slice × Option Slice → Type 0
SplitLengths p r = Parts p.len r.0.len r.1

abbrev pub HasLen : ℕ → Slice → Type 0
HasLen n q = q.len ≡ n

sub-len : (p : Slice) (n : ℕ) → Post (HasLen n) (sub p 0 n)
unfolding sub
sub-len p n = Post-if (HasLen n) _ _ _ (Post-pure (HasLen n) (omega arith)) (Post-none (HasLen n))

abbrev pub Rest : Slice → ℕ → Slice → Type 0
Rest p n q = n + q.len ≡ p.len

from-len : (p : Slice) (n : ℕ) → Post (Rest p n) (from p n)
unfolding from
from-len p n = elim (Bool-cases (leb n p.len)) [
  | inl inside ↦ rw inside (Post-pure (Rest p n) (ground arith))
  | inr outside ↦ rw outside (Post-none (Rest p n))
]

split_part-lengths : (p : Slice) → Post (SplitLengths p) (split_part p)
unfolding split_part
split_part-lengths p = Post-after (SplitLengths p) (get next_command p) _ (λ off e.
    elim (Bool-cases (off == 0)) [
      | inl single ↦ rw single (Post-pure (SplitLengths p) (omega arith, inl refl))
      | inr more ↦ rw more (
          Post-bind (HasLen off) (SplitLengths p) (sub p 0 off) _ (sub-len p off) (λ part _ l.
            Post-bind (Rest p off) (SplitLengths p) (from p off) _ (from-len p off) (λ next _ r.
              Post-pure (SplitLengths p) (omega (arith, l, r), inr (ground (arith, r))))))
    ])

abbrev pub PartLengths : Slice → Request × Option Slice × Option ℕ × List CompoundContext → Type 0
PartLengths p r = Parts p.len r.0.pkt.len r.1

shared-Parts :
    (p q part : Slice) (next : Option Slice)
    → part.len ≡ q.len
    → Parts p.len q.len next
    → Parts p.len part.len (shared part next)
shared-Parts p q part none e parts = (omega (arith, parts.0), inl refl)
shared-Parts p q part (some next) e (sum, inl none_left) = cc
shared-Parts p q part (some next) e (sum, inr less) = (omega arith, inr less)

one_part-lengths :
    (c : Conn) (found : Option Session) (was_encrypted : Bool) (p : Slice) (ctx : Option ℕ)
    (store : List CompoundContext)
    → Post (PartLengths p) (one_part c found was_encrypted p ctx store)
unfolding one_part
one_part-lengths c found was_encrypted p ctx store =
    Post-after (PartLengths p) (open_context p ctx store) _ (λ opened _.
      Post-after (PartLengths p) (close_context p opened.0 opened.1) _ (λ closed _.
        Post-bind (SplitLengths p) (PartLengths p) (split_part p) _ (split_part-lengths p)
          (λ split _ parts.
            Post-bind (Checks split.0) (PartLengths p) _ _
              (Post-if (Checks split.0) c.use_session _ _
                (try_verify-len c found was_encrypted split.0) (same split.0 true))
              (λ checked _ kept.
                Post-bind (Holds checked.0) (PartLengths p) _ _
                  (try_handle-pkt checked.0 found opened.0 checked.1)
                  (λ request _ e. Post-pure (PartLengths p) (
                    subst (λ (t : Slice). Parts p.len t.len (shared checked.0 split.1)) (sym e)
                      (shared-Parts p split.0 checked.0 split.1 kept parts)))))))

abbrev pub Outcome : Slice → Handled → Type 0
Outcome p h = (h.ended ≡ invalid_part) ⊎ ((h.ended ≡ whole) × (total h.requests ≡ p.len))

-- One part more in front.
Outcome-add :
    (p q : Slice) (r : Request) (rest : Handled)
    → Parts p.len r.pkt.len (some q)
    → Outcome q rest
    → Outcome p (record rest { requests = r ∷ rest.requests })
Outcome-add p q r rest parts (inl bad) = inl bad
Outcome-add p q r rest parts (inr (done, sum)) = inr (done, omega (arith, parts.0))

-- What follows a part.
after_part :
    (n : ℕ) (c : Conn) (found : Option Session) (was_encrypted : Bool) (p : Slice) (r : Request)
    (next : Option Slice) (ctx : Option ℕ) (store : List CompoundContext)
    → p.len < suc n
    → Parts p.len r.pkt.len next
    → ((q : Slice)
        → q.len < n
        → Post (Outcome q) (handle_parts n c found was_encrypted q ctx store))
    → Post (Outcome p) (elim next [
      | none ↦ some (record { requests = r ∷ []; contexts = store; ended = whole })
      | some q ↦ handle_parts n c found was_encrypted q ctx store >>= λ (rest : Handled).
          some (record rest { requests = r ∷ rest.requests })
    ])
after_part n c found was_encrypted p r none ctx store small parts rest =
    Post-pure (Outcome p) (inr (refl, omega (arith, parts.0)))
after_part n c found was_encrypted p r (some q) ctx store small (sum, inl none_left) rest = cc
after_part n c found was_encrypted p r (some q) ctx store small (sum, inr less) rest =
    Post-bind (Outcome q) (Outcome p) (handle_parts n c found was_encrypted q ctx store) _
      (rest q (omega arith))
      (λ done _ o. Post-pure (Outcome p) (Outcome-add p q r done (sum, inr less) o))

handle_parts-Outcome :
    (n : ℕ) (c : Conn) (found : Option Session) (was_encrypted : Bool) (p : Slice) (ctx : Option ℕ)
    (store : List CompoundContext)
    → p.len < n
    → Post (Outcome p) (handle_parts n c found was_encrypted p ctx store)
unfolding handle_parts
handle_parts-Outcome zero c found was_encrypted p ctx store small = absurd (omega arith)
handle_parts-Outcome (suc n) c found was_encrypted p ctx store small =
    Post-after (Outcome p) (is_invalid p) _ (λ bad _.
      Post-if (Outcome p) bad _ _ (Post-pure (Outcome p) (inl refl)) (
        Post-bind (PartLengths p) (Outcome p) _ _
          (one_part-lengths c found was_encrypted p ctx store)
          (λ (request, next, ctx', store') _ parts.
            after_part n c found was_encrypted p request next ctx' store' small parts
              (λ q room. handle_parts-Outcome n c found was_encrypted q ctx' store' room))))

-- Fuel above the length of the frame is enough: a loop that does not panic ends with an invalid part, or
-- has used up the frame, and then the requests' lengths add up to the frame's.
pub handle_parts-total :
    (n : ℕ) (c : Conn) (found : Option Session) (was_encrypted : Bool) (p : Slice) (ctx : Option ℕ)
    (store : List CompoundContext) (h : Handled)
    → p.len < n
    → handle_parts n c found was_encrypted p ctx store ≡ some h
    → (h.ended ≡ invalid_part) ⊎ ((h.ended ≡ whole) × (total h.requests ≡ p.len))
handle_parts-total n c found was_encrypted p ctx store h small e =
    Post-some (Outcome p) (handle_parts-Outcome n c found was_encrypted p ctx store small) e
