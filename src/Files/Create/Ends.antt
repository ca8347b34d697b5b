-- ===== src/Files/Create/Ends.antt =====
-- server/file_tree.go, `create`: how it ends, and rules for such ends.
use go_smb.Common.{
  ℕ, ◌≡◌, refl, Bool, true, if◌then◌else◌, false, Option, none, some, List, [], ◌∷◌,
}
use go_smb.Packet.Header.{PacketHeader}
use go_smb.Opens.Table.{Open, Server, add_open, is_delete_pending}
use go_smb.Vfs.{FileSystem, Res, ok, err, Attributes}
use go_smb.Files.{
  State, Progress, done, answered, failed, Sent, next, lift, CreateResponse, create_response,
}
use go_smb.Files.Still.{Still}
use go_smb.Files.Calm.{Calm, Any, IsRefusal}

-- What was looked up is not delete-pending.
abbrev pub IsNotPending : Server → Res Attributes → Type 0
IsNotPending v (err e) = Unit
IsNotPending v (ok a) = (node : ℕ) → a.inode_number ≡ some node → is_delete_pending node v ≡ false

-- The node of an open is the inode that the file system gives for the handle of the open.
abbrev pub IsNodeOf : {D : Type 0} → FileSystem D → Open → Type 0
IsNodeOf {D} fs o =
    (d : D) × (a : Attributes) × ((fs.get_attr o.file_id d).1 ≡ ok a)
    × (a.inode_number ≡ some o.durable_file_id)

-- The end of a `create` that found the tables `v` and the disk `d`: it refuses or fails, and they are as they were, or answers, and they
-- have one open more, whose ids are the answer's, and whose node is the inode of its handle; what its name was looked
-- up as, on the disk `d` that the request found, is not delete-pending.
pub data Creates {D : Type 0} (fs : FileSystem D) (v : Server) (d : D)
    : Server → Progress (Unit {0}) → Type 0 where
  refuses : (sent : List Sent) → IsRefusal sent → Creates fs v d v (answered sent)
  fails : Creates fs v d v failed
  adds :
      (o : Open) (w : Server) (h : PacketHeader) (c : CreateResponse)
      → add_open o v ≡ some w
      → c.handle_id ≡ o.file_id
      → c.node_id ≡ o.durable_file_id
      → IsNodeOf fs o
      → IsNotPending v (fs.lookup 0 o.path_name d).1
      → Creates fs v d w (answered (record { header = h; body = create_response c } ∷ []))

-- Of a result: unless it is a panic.
abbrev pub Ends :
    {D : Type 0} → FileSystem D → Server → D → Option (State D × Progress (Unit {0})) → Type 0
Ends fs v d none = Unit
Ends fs v d (some (s, p)) = Creates fs v d s.server p

module _ {D : Type 0} where
  pub Ends-Still :
      {A : Type 0} (fs : FileSystem D) (u : Server) (d : D)
      (f : A → State D → Option (State D × Progress (Unit {0}))) (s : State D)
      (r : Option (State D × Progress A))
      → Still s r
      → ((a : A) → Ends fs u d (f a s))
      → Ends fs u d (next f r)
  Ends-Still fs u d f s none k g = tt
  Ends-Still fs u d f s (some (s', done a)) k g = rw k (g a)
  Ends-Still fs u d f s (some (s', answered sent)) k g = absurd k
  Ends-Still fs u d f s (some (s', failed)) k g = absurd k

module _ {D : Type 0} (fs : FileSystem D) {v : Server} (d : D) where
  pub Ends-next :
      {A : Type 0} (P : A → Type 0) (f : A → State D → Option (State D × Progress (Unit {0})))
      (r : Option (State D × Progress A))
      → Calm v P r
      → ((a : A) (s : State D) → s.server ≡ v → P a → Ends fs v d (f a s))
      → Ends fs v d (next f r)
  Ends-next P f none k g = tt
  Ends-next P f (some (s, done a)) k g = g a s k.0 k.1
  Ends-next P f (some (s, answered sent)) k g = rw (k.0) (refuses sent k.1)
  Ends-next P f (some (s, failed)) k g = rw k fails

  pub Ends-then :
      {A : Type 0} (f : A → State D → Option (State D × Progress (Unit {0})))
      (r : Option (State D × Progress A))
      → Calm v Any r
      → ((a : A) (s : State D) → s.server ≡ v → Ends fs v d (f a s))
      → Ends fs v d (next f r)
  Ends-then f r k g = Ends-next Any f r k λ a s e _. g a s e

-- A step that only reads its request: it goes on with the state as it is, fails, or panics.
module _ {D : Type 0} where
  abbrev pub Reads : {A : Type 0} → State D → Option (State D × Progress A) → Type 0
  Reads s none = Unit
  Reads s (some (s', done a)) = s' ≡ s
  Reads s (some (s', answered sent)) = ⊥
  Reads s (some (s', failed)) = s' ≡ s

  pub Reads-next :
      {A B : Type 0} (f : A → State D → Option (State D × Progress B)) (s : State D)
      (r : Option (State D × Progress A))
      → Reads s r
      → ((a : A) → Reads s (f a s))
      → Reads s (next f r)
  Reads-next f s none k g = tt
  Reads-next f s (some (s', done a)) k g = rw k (g a)
  Reads-next f s (some (s', answered sent)) k g = absurd k
  Reads-next f s (some (s', failed)) k g = k

  pub Reads-lift : {A : Type 0} (x : Option A) (s : State D) → Reads s (lift x s)
  Reads-lift none s = tt
  Reads-lift (some a) s = refl

  pub Reads-if :
      {A : Type 0} (b : Bool) (m n : State D → Option (State D × Progress A)) (s : State D)
      → Reads s (m s)
      → Reads s (n s)
      → Reads s ((if b then m else n) s)
  Reads-if true m n s km kn = km
  Reads-if false m n s km kn = kn

  pub Ends-Reads :
      {A : Type 0} (fs : FileSystem D) (f : A → State D → Option (State D × Progress (Unit {0})))
      (s : State D) (r : Option (State D × Progress A))
      → Reads s r
      → ((a : A) → Ends fs s.server s.disk (f a s))
      → Ends fs s.server s.disk (next f r)
  Ends-Reads fs f s none k g = tt
  Ends-Reads fs f s (some (s', done a)) k g = rw k (g a)
  Ends-Reads fs f s (some (s', answered sent)) k g = absurd k
  Ends-Reads fs f s (some (s', failed)) k g = rw k fails
