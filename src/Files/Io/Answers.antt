-- ===== src/Files/Io/Answers.antt =====
-- server/file_tree.go: the responses to a read or a write, at once or after an interim response.
use go_smb.Common.{
  ℕ, ◌≡◌, refl, Bool, true, false, not, ◌||◌, Option, none, some, [], ◌∷◌, if◌then◌else◌,
}
use go_smb.Bytes.{Slice}
use go_smb.Packet.Header.{PacketHeader}
use go_smb.Opens.Table.{Open, Server, get_open}
use go_smb.Vfs.{FileSystem}
use go_smb.Files.{
  State, Progress, done, answered, failed, Sent, next, error_response, refuse, refuse_if,
  CompoundContext, file_id_at, found_or_refuse, target, target_id, is_invalid_file_id, handle_id,
  status_invalid_handle,
}
use go_smb.Files.Calm.{Any}
use go_smb.Files.Io.{
  read_file, read_impl, write_file, write_impl, pending_then, at_once_or, after_interim, is_alone,
  status_pending, smb2_read, smb2_write,
}
use go_smb.Files.Io.Replies.{
  IsReply, RepliesOnce, GoesOn, go_accept, go_lift, go_prepare, go_prepare_async, read_replies,
  write_replies,
}

-- One response to the packet; or an interim one, whose status says that the operation goes on, and one that ends it, both
-- of the operation with this id.
pub data Replies (pkt : Slice) (id : ℕ) : Progress (Unit {0}) → Type 0 where
  at_once : (r : Sent) → IsReply pkt 0 r.header → Replies pkt id (answered (r ∷ []))
  later :
      (first : PacketHeader) (r : Sent)
      → IsReply pkt id first
      → first.status ≡ status_pending
      → IsReply pkt id r.header
      → Replies pkt id (answered (record { header = first; body = error_response } ∷ r ∷ []))

abbrev pub Replied :
    {D : Type 0} → Slice → ℕ → Server → Option (State D × Progress (Unit {0})) → Type 0
Replied pkt id v none = Unit
Replied pkt id v (some (s, p)) = (s.server ≡ v) × Replies pkt id p

-- A step that goes on, or ends the handler by its one response.
abbrev Tries : {D A : Type 0} → Slice → Server → Option (State D × Progress A) → Type 0
Tries pkt v none = Unit
Tries pkt v (some (s, done a)) = s.server ≡ v
Tries pkt v (some (s, answered (r ∷ []))) = (s.server ≡ v) × IsReply pkt 0 r.header
Tries pkt v (some (s, p)) = ⊥

module _ {D : Type 0} {v : Server} (pkt : Slice) where
  go-Tries :
      {A B : Type 0} (P : A → Type 0) (f : A → State D → Option (State D × Progress B))
      (r : Option (State D × Progress A))
      → GoesOn v P r
      → ((a : A) (s : State D) → s.server ≡ v → P a → Tries pkt v (f a s))
      → Tries pkt v (next f r)
  go-Tries P f none k g = tt
  go-Tries P f (some (s, done a)) k g = g a s k.0 k.1
  go-Tries P f (some (s, answered sent)) k g = absurd k
  go-Tries P f (some (s, failed)) k g = absurd k

  next-Tries :
      {A B : Type 0} (f : A → State D → Option (State D × Progress B))
      (r : Option (State D × Progress A))
      → Tries pkt v r
      → ((a : A) (s : State D) → s.server ≡ v → Tries pkt v (f a s))
      → Tries pkt v (next f r)
  next-Tries f none k g = tt
  next-Tries f (some (s, done a)) k g = g a s k
  next-Tries f (some (s, answered [])) k g = absurd k
  next-Tries f (some (s, answered (r ∷ []))) k g = k
  next-Tries f (some (s, answered (r ∷ r' ∷ rs))) k g = absurd k
  next-Tries f (some (s, failed)) k g = absurd k

  refuse-Tries :
      (A : Type 0) (status : ℕ) (s : State D)
      → s.server ≡ v
      → Tries pkt v (refuse {A = A} pkt status s)
  refuse-Tries A status s e =
      go-Tries (IsReply pkt 0) _ _ (go_prepare pkt status s e) λ h s1 e1 k. (e1, k)

  refuse_if-Tries :
      (b : Bool) (status : ℕ) (s : State D) → s.server ≡ v → Tries pkt v (refuse_if b pkt status s)
  refuse_if-Tries true status s e = refuse-Tries (Unit {0}) status s e
  refuse_if-Tries false status s e = e

  target-Tries :
      (o : ℕ) (ctx : Option CompoundContext) (r : Slice) (s : State D)
      → s.server ≡ v
      → Tries pkt v (target_id o ctx r pkt s)
  target-Tries o ctx r s e = go-Tries Any _ _ (go_lift (file_id_at o r) s e) λ own s1 e1 _.
      next-Tries _ _
        (refuse_if-Tries (is_invalid_file_id (target ctx own)) status_invalid_handle s1 e1)
        λ _ s2 e2. e2

  found-Tries :
      (x : Option Open) (s : State D) → s.server ≡ v → Tries pkt v (found_or_refuse pkt x s)
  found-Tries none s e = refuse-Tries Open status_invalid_handle s e
  found-Tries (some o) s e = e

  module _ (id : ℕ) where
    go-Replied :
        {A : Type 0} (P : A → Type 0) (f : A → State D → Option (State D × Progress (Unit {0})))
        (r : Option (State D × Progress A))
        → GoesOn v P r
        → ((a : A) (s : State D) → s.server ≡ v → P a → Replied pkt id v (f a s))
        → Replied pkt id v (next f r)
    go-Replied P f none k g = tt
    go-Replied P f (some (s, done a)) k g = g a s k.0 k.1
    go-Replied P f (some (s, answered sent)) k g = absurd k
    go-Replied P f (some (s, failed)) k g = absurd k

    next-Replied :
        {A : Type 0} (f : A → State D → Option (State D × Progress (Unit {0})))
        (r : Option (State D × Progress A))
        → Tries pkt v r
        → ((a : A) (s : State D) → s.server ≡ v → Replied pkt id v (f a s))
        → Replied pkt id v (next f r)
    next-Replied f none k g = tt
    next-Replied f (some (s, done a)) k g = g a s k
    next-Replied f (some (s, answered [])) k g = absurd k
    next-Replied f (some (s, answered (r ∷ []))) k g = (k.0, at_once r k.1)
    next-Replied f (some (s, answered (r ∷ r' ∷ rs))) k g = absurd k
    next-Replied f (some (s, failed)) k g = absurd k

module _ {D : Type 0} (v : Server) (pkt : Slice) (id : ℕ) (fs : FileSystem D) where
  of_once :
      (r : Option (State D × Progress (Unit {0}))) → RepliesOnce pkt 0 v r → Replied pkt id v r
  of_once none k = tt
  of_once (some (s, done a)) k = absurd k
  of_once (some (s, answered [])) k = absurd k
  of_once (some (s, answered (r ∷ []))) k = (k.0, at_once r k.1)
  of_once (some (s, answered (r ∷ r' ∷ rs))) k = absurd k
  of_once (some (s, failed)) k = absurd k

  of_later :
      (h : PacketHeader) (r : Option (State D × Progress (Unit {0})))
      → IsReply pkt id h
      → h.status ≡ status_pending
      → RepliesOnce pkt id v r
      → Replied pkt id v (after_interim fs (record { header = h; body = error_response }) r)
  of_later h none i p k = tt
  of_later h (some (s, done a)) i p k = absurd k
  of_later h (some (s, answered [])) i p k = absurd k
  of_later h (some (s, answered (r ∷ []))) i p k = (k.0, later h r i p k.1)
  of_later h (some (s, answered (r ∷ r' ∷ rs))) i p k = absurd k
  of_later h (some (s, failed)) i p k = absurd k

  pending-Replied :
      (rest : State D → Option (State D × Progress (Unit {0}))) (s : State D)
      → s.server ≡ v
      → ((s' : State D) → s'.server ≡ v → RepliesOnce pkt id v (rest s'))
      → Replied pkt id v (pending_then fs pkt id rest s)
  pending-Replied rest s e k =
      go-Replied pkt id (λ h. IsReply pkt id h × (h.status ≡ status_pending)) _ _
        (go_prepare_async pkt id status_pending s e)
        λ h s1 e1 (i, p). of_later h (rest s1) i p (k s1 e1)

  -- At once for an attribute, so that what is answered later is no attribute.
  at_once-Replied :
      (ctx : Option CompoundContext) (o : Open)
      (impl : ℕ → State D → Option (State D × Progress (Unit {0}))) (s : State D)
      → s.server ≡ v
      → ((i : ℕ) (s' : State D)
          → (o.is_ea ≡ true → i ≡ 0)
          → s'.server ≡ v
          → RepliesOnce pkt i v (impl i s'))
      → Replied pkt id v (at_once_or fs ctx o id pkt impl s)
  at_once-Replied ctx o impl s e k = by_cases (is_alone fs ctx) o.is_ea refl
    where
      by_cases :
          (alone ea : Bool)
          → o.is_ea ≡ ea
          → Replied pkt id v
              ((if not alone || ea then impl 0 else pending_then fs pkt id (impl id)) s)
      by_cases false ea h = of_once (impl 0 s) (k 0 s (λ _. refl) e)
      by_cases true true h = of_once (impl 0 s) (k 0 s (λ _. refl) e)
      by_cases true false h = pending-Replied (impl id) s e λ s' e'. k id s' (λ yes. cc (h, yes)) e'

module _ {D : Type 0} (fs : FileSystem D) (id : ℕ) (ctx : Option CompoundContext)
    (pkt : Slice) where
  read-Replied :
      {v : Server} (s : State D) → s.server ≡ v → Replied pkt id v (read_file fs id ctx pkt s)
  unfolding read_file
  read-Replied {v = v} s e = go-Replied pkt id Any _ _ (go_accept smb2_read pkt s e) λ r s1 e1 _.
      next-Replied pkt id _ _ (target-Tries pkt 16 ctx r s1 e1) λ file s2 e2.
        next-Replied pkt id _ _ (found-Tries pkt (get_open (handle_id file) s2.server) s2 e2)
          λ o s3 e3.
            at_once-Replied v pkt id fs ctx o (read_impl fs pkt (handle_id file) o) s3 e3
              λ i s' z e'. read_replies pkt fs (handle_id file) o i s' z e'

  write-Replied :
      {v : Server} (s : State D) → s.server ≡ v → Replied pkt id v (write_file fs id ctx pkt s)
  unfolding write_file
  write-Replied {v = v} s e = go-Replied pkt id Any _ _ (go_accept smb2_write pkt s e) λ r s1 e1 _.
      next-Replied pkt id _ _ (target-Tries pkt 16 ctx r s1 e1) λ file s2 e2.
        next-Replied pkt id _ _ (found-Tries pkt (get_open (handle_id file) s2.server) s2 e2)
          λ o s3 e3.
            at_once-Replied v pkt id fs ctx o (write_impl fs pkt (handle_id file) o) s3 e3
              λ i s' z e'. write_replies pkt fs (handle_id file) o i s' e'

-- Unless it panics, a read and a write leave the server's tables alone and answer the packet by one response, or by an
-- interim one with the status of a pending operation and one that ends it, which have its message id and the operation's
-- id, one and the same.
pub read_write-Replied :
    {D : Type 0} (fs : FileSystem D) (id : ℕ) (ctx : Option CompoundContext) (pkt : Slice)
    (s : State D)
    → Replied pkt id s.server (read_file fs id ctx pkt s)
      × Replied pkt id s.server (write_file fs id ctx pkt s)
read_write-Replied fs id ctx pkt s =
    (read-Replied fs id ctx pkt s refl, write-Replied fs id ctx pkt s refl)
