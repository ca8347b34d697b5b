-- ===== src/Files/Calm.antt =====
-- server/file_tree.go: handlers that leave the server's tables alone, one rule for each way to build a handler. The rules
-- stand on the results of the steps, so that a handler that is applied to its state has them.
use go_smb.Common.{
  ℕ, ◌≡◌, refl, Bool, true, false, Option, none, some, List, [], ◌∷◌, if◌then◌else◌,
}
use go_smb.Bytes.{Slice}
use go_smb.Packet.Header.{PacketHeader}
use go_smb.Opens.Table.{Server, Open}
use go_smb.Files.{
  State, Progress, done, answered, failed, Sent, error_response, next, lift, called, refuse,
  refuse_if, prepare_response, prepare_async_response, accept, accept_or_nil, target_id,
  CompoundContext, found_or_refuse, open_at, status_invalid_handle,
}

-- One answer, an error.
pub data IsRefusal : List Sent → Type 0 where
  refusal : (h : PacketHeader) → IsRefusal (record { header = h; body = error_response } ∷ [])

abbrev pub Any : {A : Type 0} → A → Type 0
Any a = Unit

module _ {D : Type 0} where
  -- A step that, unless it panics, leaves the tables `v`: it goes on with a result for which `P`, refuses, or fails.
  abbrev pub Calm : {A : Type 0} → Server → (A → Type 0) → Option (State D × Progress A) → Type 0
  Calm v P none = Unit
  Calm v P (some (s, done a)) = (s.server ≡ v) × P a
  Calm v P (some (s, answered sent)) = (s.server ≡ v) × IsRefusal sent
  Calm v P (some (s, failed)) = s.server ≡ v

  pub Calm-weaken :
      {A : Type 0} (v : Server) (P Q : A → Type 0) (r : Option (State D × Progress A))
      → ((a : A) → P a → Q a)
      → Calm v P r
      → Calm v Q r
  Calm-weaken v P Q none f k = tt
  Calm-weaken v P Q (some (s, done a)) f k = (k.0, f a k.1)
  Calm-weaken v P Q (some (s, answered sent)) f k = k
  Calm-weaken v P Q (some (s, failed)) f k = k

  module _ {v : Server} where
    pub Calm-next :
        {A B : Type 0} (P : A → Type 0) (Q : B → Type 0)
        (f : A → State D → Option (State D × Progress B)) (r : Option (State D × Progress A))
        → Calm v P r
        → ((a : A) (s : State D) → s.server ≡ v → P a → Calm v Q (f a s))
        → Calm v Q (next f r)
    Calm-next P Q f none k g = tt
    Calm-next P Q f (some (s, done a)) k g = g a s k.0 k.1
    Calm-next P Q f (some (s, answered sent)) k g = k
    Calm-next P Q f (some (s, failed)) k g = k

    pub Calm-lift : {A : Type 0} (x : Option A) (s : State D) → s.server ≡ v → Calm v Any (lift x s)
    Calm-lift none s e = tt
    Calm-lift (some a) s e = (e, tt)

    -- A step that goes on has the value.
    pub Calm-lift_is :
        {A : Type 0} (x : Option A) (s : State D)
        → s.server ≡ v
        → Calm v (λ a. x ≡ some a) (lift x s)
    Calm-lift_is none s e = tt
    Calm-lift_is (some a) s e = (e, refl)

    pub Calm-called :
        {A : Type 0} (s : State D) (r : D × A) → s.server ≡ v → Calm v Any (called s r)
    Calm-called s (d, a) e = (e, tt)

    -- A step that goes on with any result.
    pub Calm-then :
        {A B : Type 0} (Q : B → Type 0) (f : A → State D → Option (State D × Progress B))
        (r : Option (State D × Progress A))
        → Calm v Any r
        → ((a : A) (s : State D) → s.server ≡ v → Calm v Q (f a s))
        → Calm v Q (next f r)
    Calm-then Q f r k g = Calm-next Any Q f r k λ a s e _. g a s e

    pub Calm-prepare_response :
        (pkt : Slice) (status : ℕ) (s : State D)
        → s.server ≡ v
        → Calm v Any (prepare_response pkt status s)
    Calm-prepare_response pkt status s e = search (Calm-then, Calm-lift) depth 20

    pub Calm-refuse :
        {A : Type 0} (P : A → Type 0) (pkt : Slice) (status : ℕ) (s : State D)
        → s.server ≡ v
        → Calm v P (refuse pkt status s)
    Calm-refuse P pkt status s e =
        Calm-next Any P _ (prepare_response pkt status s) (Calm-prepare_response pkt status s e)
          λ h s' e' _. (e', refusal h)

    pub Calm-if :
        {A : Type 0} (Q : A → Type 0) (b : Bool) (m n : State D → Option (State D × Progress A))
        (s : State D)
        → s.server ≡ v
        → Calm v Q (m s)
        → Calm v Q (n s)
        → Calm v Q ((if b then m else n) s)
    Calm-if Q true m n s e km kn = km
    Calm-if Q false m n s e km kn = kn

    pub Calm-refuse_if :
        (b : Bool) (pkt : Slice) (status : ℕ) (s : State D)
        → s.server ≡ v
        → Calm v Any (refuse_if b pkt status s)
    Calm-refuse_if true pkt status s e = Calm-refuse Any pkt status s e
    Calm-refuse_if false pkt status s e = (e, tt)

    -- A step that goes on has not been refused.
    pub refuse_if-false :
        (b : Bool) (pkt : Slice) (status : ℕ) (s : State D)
        → s.server ≡ v
        → Calm v (λ _. b ≡ false) (refuse_if b pkt status s)
    refuse_if-false true pkt status s e = Calm-refuse (λ _. true ≡ false) pkt status s e
    refuse_if-false false pkt status s e = (e, refl)

    pub Calm-prepare_async_response :
        (pkt : Slice) (id status : ℕ) (s : State D)
        → s.server ≡ v
        → Calm v Any (prepare_async_response pkt id status s)
    Calm-prepare_async_response pkt id status s e = search (Calm-then, Calm-lift) depth 20

    pub Calm-accept :
        (c : ℕ) (pkt : Slice) (s : State D) → s.server ≡ v → Calm v Any (accept c pkt s)
    Calm-accept c pkt s e = search (Calm-then, Calm-lift, Calm-if) depth 20

    pub Calm-accept_or_nil :
        (c : ℕ) (pkt : Slice) (s : State D) → s.server ≡ v → Calm v Any (accept_or_nil c pkt s)
    Calm-accept_or_nil c pkt s e = search (Calm-then, Calm-accept) depth 20

    pub Calm-target_id :
        (o : ℕ) (ctx : Option CompoundContext) (r pkt : Slice) (s : State D)
        → s.server ≡ v
        → Calm v Any (target_id o ctx r pkt s)
    Calm-target_id o ctx r pkt s e = search (Calm-then, Calm-lift, Calm-refuse_if) depth 20

    pub Calm-found_or_refuse :
        (pkt : Slice) (o : Option Open) (s : State D)
        → s.server ≡ v
        → Calm v Any (found_or_refuse pkt o s)
    Calm-found_or_refuse pkt none s e = Calm-refuse Any pkt status_invalid_handle s e
    Calm-found_or_refuse pkt (some o) s e = (e, tt)

    pub Calm-open_at :
        (h : ℕ) (pkt : Slice) (s : State D) → s.server ≡ v → Calm v Any (open_at h pkt s)
    Calm-open_at h pkt s e = search (Calm-found_or_refuse)

pub ruleset calm_rules = (
  Calm-then, Calm-lift, Calm-called, Calm-refuse, Calm-if, Calm-refuse_if, Calm-prepare_response,
  Calm-prepare_async_response, Calm-accept, Calm-accept_or_nil, Calm-target_id,
  Calm-found_or_refuse, Calm-open_at,
)
