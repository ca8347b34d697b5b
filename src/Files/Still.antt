-- ===== src/Files/Still.antt =====
-- server/file_tree.go: steps that change nothing, and what holds of the tables when a handler ends.
use go_smb.Common.{ℕ, ◌≡◌, refl, sym, subst, Option, none, some, [], ◌∷◌}
use go_smb.Bytes.{Slice}
use go_smb.Packet.{get, command, credit_request, message_id, flags}
use go_smb.Opens.Table.{Server}
use go_smb.Files.{
  State, Progress, done, answered, failed, next, lift, prepare_response, answer, Body, send,
}
use go_smb.Packet.Header.{PacketHeader}
use go_smb.Files.Calm.{Calm, Any}

-- A step that changes nothing and ends nothing, unless it panics.
module _ {D : Type 0} where
  abbrev pub Still : {A : Type 0} → State D → Option (State D × Progress A) → Type 0
  Still s none = Unit
  Still s (some (s', done a)) = s' ≡ s
  Still s (some (s', answered sent)) = ⊥
  Still s (some (s', failed)) = ⊥

  pub Still-next :
      {A B : Type 0} (f : A → State D → Option (State D × Progress B)) (s : State D)
      (r : Option (State D × Progress A))
      → Still s r
      → ((a : A) → Still s (f a s))
      → Still s (next f r)
  Still-next f s none k g = tt
  Still-next f s (some (s', done a)) k g = rw k (g a)
  Still-next f s (some (s', answered sent)) k g = k
  Still-next f s (some (s', failed)) k g = k

  pub Still-lift : {A : Type 0} (x : Option A) (s : State D) → Still s (lift x s)
  Still-lift none s = tt
  Still-lift (some a) s = refl

  pub prepare_response-Still :
      (pkt : Slice) (status : ℕ) (s : State D) → Still s (prepare_response pkt status s)
  prepare_response-Still pkt status s = Still-next _ s _ (Still-lift (command pkt) s) λ c.
      Still-next _ s _ (Still-lift (get credit_request pkt) s) λ n.
        Still-next _ s _ (Still-lift (message_id pkt) s)
          λ m. Still-next _ s _ (Still-lift (get flags pkt) s) λ f. refl

-- `Q` holds of the tables when the handler ends, unless it panics.
module _ {D : Type 0} where
  abbrev pub Leaves : {A : Type 0} → (Server → Type 0) → Option (State D × Progress A) → Type 0
  Leaves Q none = Unit
  Leaves Q (some (s, p)) = Q s.server

  module _ (Q : Server → Type 0) where
    pub Leaves-next :
        {A B : Type 0} (v : Server) (P : A → Type 0)
        (f : A → State D → Option (State D × Progress B)) (r : Option (State D × Progress A))
        → Calm v P r
        → Q v
        → ((a : A) (s : State D) → s.server ≡ v → P a → Leaves Q (f a s))
        → Leaves Q (next f r)
    Leaves-next v P f none k q g = tt
    Leaves-next v P f (some (s, done a)) k q g = g a s k.0 k.1
    Leaves-next v P f (some (s, answered sent)) k q g = subst Q (sym k.0) q
    Leaves-next v P f (some (s, failed)) k q g = subst Q (sym k) q

    pub Leaves-then :
        {A B : Type 0} (v : Server) (f : A → State D → Option (State D × Progress B))
        (r : Option (State D × Progress A))
        → Calm v Any r
        → Q v
        → ((a : A) (s : State D) → s.server ≡ v → Leaves Q (f a s))
        → Leaves Q (next f r)
    Leaves-then v f r k q g = Leaves-next v Any f r k q λ a s e _. g a s e

    -- A step that ends with the tables right, if it ends the handler or not.
    pub Leaves-bind :
        {A B : Type 0} (f : A → State D → Option (State D × Progress B))
        (r : Option (State D × Progress A))
        → Leaves Q r
        → ((a : A) (s : State D) → Q s.server → Leaves Q (f a s))
        → Leaves Q (next f r)
    Leaves-bind f none q g = tt
    Leaves-bind f (some (s, done a)) q g = g a s q
    Leaves-bind f (some (s, answered sent)) q g = q
    Leaves-bind f (some (s, failed)) q g = q

    pub Leaves-answer :
        (pkt : Slice) (status : ℕ) (b : Body) (s : State D)
        → Q s.server
        → Leaves Q (answer {A = Unit {0}} pkt status b s)
    Leaves-answer pkt status b s q =
        answered_with (prepare_response pkt status s) (prepare_response-Still pkt status s)
      where
        answered_with :
            (r : Option (State D × Progress PacketHeader))
            → Still s r
            → Leaves Q (next (λ h. send {A = Unit {0}} (record { header = h; body = b } ∷ [])) r)
        answered_with none k = tt
        answered_with (some (s', done h)) k = subst (λ x. Q x.server) (sym k) q
        answered_with (some (s', answered sent)) k = absurd k
        answered_with (some (s', failed)) k = absurd k

  pub Leaves-weaken :
      {A : Type 0} (Q R : Server → Type 0) (r : Option (State D × Progress A))
      → ((w : Server) → Q w → R w)
      → Leaves Q r
      → Leaves R r
  Leaves-weaken Q R none f q = tt
  Leaves-weaken Q R (some (s, p)) f q = f s.server q
