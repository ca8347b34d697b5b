-- ===== src/Files/Io/Replies.antt =====
-- server/file_tree.go: how `read` and `write` answer.
use go_smb.Common.{
  ℕ, ◌≡◌, refl, sym, subst, Bool, true, false, Option, none, some, List, [], ◌∷◌, if◌then◌else◌,
}
use go_smb.Common.Texts.{Text}
use go_smb.Bytes.{Slice, get_le}
use go_smb.Packet.{message_id, command, get, credit_request, flags}
use go_smb.Packet.Header.{PacketHeader}
use go_smb.Opens.Table.{Open, Server}
use go_smb.Vfs.{FileSystem, FsError}
use go_smb.Files.{
  State, Progress, done, answered, failed, next, lift, call, called, Body, answer, prepare_response,
  prepare_async_response, accept_or_nil, ◌>>=◌,
}
use go_smb.Files.Calm.{Any}
use go_smb.Files.Io.{
  smb2_read, read_impl, write_impl, file_read, ea_read, read_ea, written, write_data, answer_async,
}

-- A response to the packet with this id of an operation that goes on.
abbrev pub IsReply : Slice → ℕ → PacketHeader → Type 0
IsReply pkt id h = (h.async_id ≡ id) × (message_id pkt ≡ some h.message_id)

-- The end of a handler, unless it panics: one response.
abbrev pub RepliesOnce :
    {D : Type 0} → Slice → ℕ → Server → Option (State D × Progress (Unit {0})) → Type 0
RepliesOnce pkt id v none = Unit
RepliesOnce pkt id v (some (s, answered (r ∷ []))) = (s.server ≡ v) × IsReply pkt id r.header
RepliesOnce pkt id v (some (s, p)) = ⊥

module _ {D : Type 0} where
  -- A step that changes the disk alone, and goes on.
  abbrev pub GoesOn : Server → {A : Type 0} → (A → Type 0) → Option (State D × Progress A) → Type 0
  GoesOn v P none = Unit
  GoesOn v P (some (s, done a)) = (s.server ≡ v) × P a
  GoesOn v P (some (s, answered sent)) = ⊥
  GoesOn v P (some (s, failed)) = ⊥

module _ {D : Type 0} {v : Server} where
  go_next :
      {A B : Type 0} (P : A → Type 0) (Q : B → Type 0)
      (f : A → State D → Option (State D × Progress B)) (r : Option (State D × Progress A))
      → GoesOn v P r
      → ((a : A) (s : State D) → s.server ≡ v → P a → GoesOn v Q (f a s))
      → GoesOn v Q (next f r)
  go_next P Q f none k g = tt
  go_next P Q f (some (s, done a)) k g = g a s k.0 k.1
  go_next P Q f (some (s, answered sent)) k g = k
  go_next P Q f (some (s, failed)) k g = k

  go_then :
      {A B : Type 0} (Q : B → Type 0) (f : A → State D → Option (State D × Progress B))
      (r : Option (State D × Progress A))
      → GoesOn v Any r
      → ((a : A) (s : State D) → s.server ≡ v → GoesOn v Q (f a s))
      → GoesOn v Q (next f r)
  go_then Q f r k g = go_next Any Q f r k λ a s e _. g a s e

  pub go_lift : {A : Type 0} (x : Option A) (s : State D) → s.server ≡ v → GoesOn v Any (lift x s)
  go_lift none s e = tt
  go_lift (some a) s e = (e, tt)

  go_lift_is :
      {A : Type 0} (x : Option A) (s : State D)
      → s.server ≡ v
      → GoesOn v (λ a. x ≡ some a) (lift x s)
  go_lift_is none s e = tt
  go_lift_is (some a) s e = (e, refl)

  go_called : {A : Type 0} (s : State D) (r : D × A) → s.server ≡ v → GoesOn v Any (called s r)
  go_called s (d, a) e = (e, tt)

  go_if :
      {A : Type 0} (Q : A → Type 0) (b : Bool) (m n : State D → Option (State D × Progress A))
      (s : State D)
      → s.server ≡ v
      → GoesOn v Q (m s)
      → GoesOn v Q (n s)
      → GoesOn v Q ((if b then m else n) s)
  go_if Q true m n s e km kn = km
  go_if Q false m n s e km kn = kn

  pub go_accept :
      (c : ℕ) (pkt : Slice) (s : State D) → s.server ≡ v → GoesOn v Any (accept_or_nil c pkt s)
  go_accept c pkt s e = search (go_then, go_lift, go_if) depth 20

  go_write_data :
      (fs : FileSystem D) (r : Slice) (s : State D)
      → s.server ≡ v
      → GoesOn v Any (write_data fs r s)
  go_write_data fs r s e = search (go_then, go_lift) depth 20

  pub go_prepare :
      (pkt : Slice) (status : ℕ) (s : State D)
      → s.server ≡ v
      → GoesOn v (IsReply pkt 0) (prepare_response pkt status s)
  go_prepare pkt status s e = go_then _ _ _ (go_lift (command pkt) s e) λ c s1 e1.
      go_then _ _ _ (go_lift (get credit_request pkt) s1 e1) λ n s2 e2.
        go_next (λ m. message_id pkt ≡ some m) _ _ _ (go_lift_is (message_id pkt) s2 e2)
          λ m s3 e3 same.
            go_then _ _ _ (go_lift (get flags pkt) s3 e3) λ f s4 e4. (e4, (refl, same))

  pub go_prepare_async :
      (pkt : Slice) (id status : ℕ) (s : State D)
      → s.server ≡ v
      → GoesOn v
          (λ h. IsReply pkt id h × (h.status ≡ status))
          (prepare_async_response pkt id status s)
  go_prepare_async pkt id status s e = go_then _ _ _ (go_lift (command pkt) s e) λ c s1 e1.
      go_then _ _ _ (go_lift (get credit_request pkt) s1 e1) λ n s2 e2.
        go_next (λ m. message_id pkt ≡ some m) _ _ _ (go_lift_is (message_id pkt) s2 e2)
          λ m s3 e3 same. (e3, ((refl, same), refl))

module _ {D : Type 0} {v : Server} (pkt : Slice) where
  reply_next :
      {A : Type 0} (id : ℕ) (P : A → Type 0)
      (f : A → State D → Option (State D × Progress (Unit {0}))) (r : Option (State D × Progress A))
      → GoesOn v P r
      → ((a : A) (s : State D) → s.server ≡ v → P a → RepliesOnce pkt id v (f a s))
      → RepliesOnce pkt id v (next f r)
  reply_next id P f none k g = tt
  reply_next id P f (some (s, done a)) k g = g a s k.0 k.1
  reply_next id P f (some (s, answered sent)) k g = absurd k
  reply_next id P f (some (s, failed)) k g = absurd k

  reply_then :
      {A : Type 0} (id : ℕ) (f : A → State D → Option (State D × Progress (Unit {0})))
      (r : Option (State D × Progress A))
      → GoesOn v Any r
      → ((a : A) (s : State D) → s.server ≡ v → RepliesOnce pkt id v (f a s))
      → RepliesOnce pkt id v (next f r)
  reply_then id f r k g = reply_next id Any f r k λ a s e _. g a s e

  reply_if :
      (id : ℕ) (b : Bool) (m n : State D → Option (State D × Progress (Unit {0}))) (s : State D)
      → s.server ≡ v
      → (b ≡ true → RepliesOnce pkt id v (m s))
      → (b ≡ false → RepliesOnce pkt id v (n s))
      → RepliesOnce pkt id v ((if b then m else n) s)
  reply_if id true m n s e km kn = km refl
  reply_if id false m n s e km kn = kn refl

  pub answer_replies :
      (status : ℕ) (b : Body) (s : State D)
      → s.server ≡ v
      → RepliesOnce pkt 0 v (answer {A = Unit {0}} pkt status b s)
  answer_replies status b s e =
      reply_next 0 (IsReply pkt 0) _ _ (go_prepare pkt status s e) λ h s1 e1 k. (e1, k)

  module _ (fs : FileSystem D) where
    async_replies :
        (id status : ℕ) (b : Body) (s : State D)
        → s.server ≡ v
        → RepliesOnce pkt id v (answer_async fs pkt id status b s)
    async_replies id status b s e =
        reply_next id (λ h. IsReply pkt id h × (h.status ≡ status)) _ _
          (go_prepare_async pkt id status s e) λ h s1 e1 k. (e1, k.0)

    ea_read_replies :
        (key : Text) (size n : ℕ) (buf : List ℕ) (x : Option FsError) (s : State D)
        → s.server ≡ v
        → RepliesOnce pkt 0 v (ea_read fs pkt key size n buf x s)
    ea_read_replies key size n buf x s e =
        search (reply_then, reply_if, go_lift, answer_replies) depth 20

    file_read_replies :
        (id n : ℕ) (buf : List ℕ) (x : Option FsError) (s : State D)
        → s.server ≡ v
        → RepliesOnce pkt id v (file_read fs pkt id n buf x s)
    file_read_replies id n buf none s e = search (reply_then, go_lift, async_replies) depth 20
    file_read_replies id n buf (some x) s e =
        search (reply_then, reply_if, go_lift, async_replies) depth 20

    written_replies :
        (id n : ℕ) (x : Option FsError) (s : State D)
        → s.server ≡ v
        → RepliesOnce pkt id v (written fs pkt id n x s)
    written_replies id n none s e = search (reply_if, async_replies) depth 20
    written_replies id n (some x) s e = search (async_replies)

    ea_replies :
        (h : ℕ) (o : Open) (size : ℕ) (s : State D)
        → s.server ≡ v
        → RepliesOnce pkt 0 v (read_ea fs h o size pkt s)
    ea_replies h o size s e = search (reply_then, go_called, ea_read_replies) depth 20

    file_replies :
        (h : ℕ) (r : Slice) (size id : ℕ) (s : State D)
        → s.server ≡ v
        → RepliesOnce pkt id v (
            (do
              offset ← lift (get_le 8 r 8)
              (n, buf, x) ← call (fs.read h size offset)
              file_read fs pkt id n buf x)
              s)
    file_replies h r size id s e =
        search (reply_then, go_lift, go_called, file_read_replies) depth 20

    pub read_replies :
        (h : ℕ) (o : Open) (id : ℕ) (s : State D)
        → (o.is_ea ≡ true → id ≡ 0)
        → s.server ≡ v
        → RepliesOnce pkt id v (read_impl fs pkt h o id s)
    read_replies h o id s zero_ea e = reply_then id _ _ (go_accept smb2_read pkt s e) λ r s1 e1.
        reply_then id _ _ (go_lift (get_le 4 r 4) s1 e1) λ size s2 e2.
          reply_if id o.is_ea _ _ s2 e2
            (λ ea.
              subst (λ i. RepliesOnce pkt i v (read_ea fs h o size pkt s2)) (sym (zero_ea ea))
                (ea_replies h o size s2 e2))
            (λ file. file_replies h r size id s2 e2)

    pub write_replies :
        (h : ℕ) (o : Open) (id : ℕ) (s : State D)
        → s.server ≡ v
        → RepliesOnce pkt id v (write_impl fs pkt h o id s)
    write_replies h o id s e =
        search (reply_then, reply_if, go_lift, go_called, go_accept, go_write_data, written_replies)
          depth 30
