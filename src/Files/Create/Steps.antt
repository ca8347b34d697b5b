-- ===== src/Files/Create/Steps.antt =====
-- server/file_tree.go: the steps of `create` leave the server's tables alone.
use go_smb.Common.{ℕ, ◌≡◌, refl, subst, Bool, true, false, Option, none, some, List}
use go_smb.Common.Texts.{Text}
use go_smb.Bytes.{Slice}
use go_smb.Opens.Table.{Server, is_delete_pending}
use go_smb.Vfs.{FileSystem, FsError, Res, ok, err, Attributes, FileType}
use go_smb.Packet.{flags}
use go_smb.Files.{◌>>=◌, get_server, refuse_if, State, pure, next, lift, accept}
use go_smb.Files.Create.Ends.{IsNotPending, Reads, Reads-next, Reads-lift, Reads-if}
use go_smb.Files.Calm.{refuse_if-false, Calm-weaken, Calm, Any, Calm-refuse, calm_rules}
use go_smb.Files.Create.{
  status_of_missing, status_delete_pending, Host, Existing, Decision, refused, planned,
  perms_if_posix, refuse_pending, decided, refuse_error, ok_or_refuse, make_dir, attach_ea,
  handle_create_ea, sizes, open_node, valid_or_fail, create_name, create_contexts, request_of,
  existing_of, ea_after_get, set_ea,
}
use go_smb.Files.Create.Contexts.Served.{posix_perms_in-Calm}

-- What is there is what was looked up.
abbrev pub Matches : Res Attributes → Existing → Type 0
Matches (err e) found = Unit
Matches (ok a) found = (t : FileType) × (found ≡ some (t, a))

-- What is there is not delete-pending.
abbrev pub MayOpen : Server → Existing → Type 0
MayOpen v none = Unit
MayOpen v (some (t, a)) = (node : ℕ) → a.inode_number ≡ some node → is_delete_pending node v ≡ false

pub may_open :
    (v : Server) (looked : Res Attributes) (found : Existing)
    → Matches looked found
    → MayOpen v found
    → IsNotPending v looked
may_open v (err e) found m k = tt
may_open v (ok a) found (t, m) k = subst (MayOpen v) m k

module _ {D : Type 0} where
  -- The steps that `create` is made of.
  pub accept-Reads : (c : ℕ) (pkt : Slice) (s : State D) → Reads s (accept c pkt s)
  accept-Reads c pkt s = search (Reads-next, Reads-lift, Reads-if) depth 30

  pub valid-Reads : (d : Option Slice) (s : State D) → Reads s (valid_or_fail d s)
  valid-Reads none s = refl
  valid-Reads (some r) s = search (Reads-next, Reads-lift, Reads-if) depth 30

  pub create_name-Reads :
      (of_utf16 : List ℕ → Text) (r : Slice) (s : State D) → Reads s (create_name of_utf16 r s)
  create_name-Reads of_utf16 r s = search (Reads-next, Reads-lift) depth 30

  pub request_of-Reads : (r : Slice) (s : State D) → Reads s (request_of r s)
  request_of-Reads r s = search (Reads-next, Reads-lift) depth 30

module _ {D : Type 0} {v : Server} where
  pub create_contexts-Calm :
      (r : Slice) (s : State D) → s.server ≡ v → Calm v Any (create_contexts r s)
  create_contexts-Calm r s e = search (calm_rules) depth 30

  pub existing-Calm :
      (a : Res Attributes) (s : State D) → s.server ≡ v → Calm v (Matches a) (existing_of a s)
  existing-Calm (err x) s e = (e, tt)
  existing-Calm (ok a) s e = of_type a.file_type
    where
      of_type :
          (t : Option FileType)
          → Calm v (Matches (ok a)) (next (λ t. pure (some (t, a))) (lift t s))
      of_type none = tt
      of_type (some t) = (e, (t, refl))

  module _ (fs : FileSystem D) (host : Host) where
    pub perms-Calm :
        (r : Slice) (s : State D) → s.server ≡ v → Calm v Any (perms_if_posix fs host r s)
    perms-Calm r s e = search (calm_rules, create_contexts-Calm, posix_perms_in-Calm) depth 30

    pub pending-Calm :
        (found : Existing) (pkt : Slice) (s : State D)
        → s.server ≡ v
        → Calm v (λ _. MayOpen v found) (refuse_pending fs host found pkt s)
    pending-Calm none pkt s e = (e, tt)
    pending-Calm (some (t, a)) pkt s e = pending_node a.inode_number
      where
        pending_node :
            (n : Option ℕ)
            → Calm v
                (λ _. (node : ℕ) → n ≡ some node → is_delete_pending node v ≡ false)
                (next
                  (λ node. get_server >>= λ server.
                    refuse_if (is_delete_pending node server) pkt status_delete_pending)
                  (lift n s))
        pending_node none = tt
        pending_node (some node) =
            Calm-weaken v (λ _. is_delete_pending node s.server ≡ false) _
              (refuse_if (is_delete_pending node s.server) pkt status_delete_pending s)
              (λ _ k node' same. cc (e, k, same))
              (refuse_if-false (is_delete_pending node s.server) pkt status_delete_pending s e)

    pub decided-Calm :
        (pkt : Slice) (d : Decision) (s : State D)
        → s.server ≡ v
        → Calm v Any (decided fs host pkt d s)
    decided-Calm pkt (refused status) s e = Calm-refuse Any pkt status s e
    decided-Calm pkt (planned p) s e = (e, tt)

    pub refuse_error-Calm :
        (pkt : Slice) (x : Option FsError) (s : State D)
        → s.server ≡ v
        → Calm v Any (refuse_error fs host pkt x s)
    refuse_error-Calm pkt none s e = (e, tt)
    refuse_error-Calm pkt (some x) s e = search (calm_rules) depth 30

    pub ok_or_refuse-Calm :
        {A : Type 0} (pkt : Slice) (x : Res A) (s : State D)
        → s.server ≡ v
        → Calm v Any (ok_or_refuse fs host pkt x s)
    ok_or_refuse-Calm pkt (ok a) s e = (e, tt)
    ok_or_refuse-Calm pkt (err x) s e = search (calm_rules) depth 30

    -- A call that goes on has succeeded.
    pub ok_or_refuse-ok :
        {A : Type 0} (pkt : Slice) (x : Res A) (s : State D)
        → s.server ≡ v
        → Calm v (λ a. x ≡ ok a) (ok_or_refuse fs host pkt x s)
    ok_or_refuse-ok pkt (ok a) s e = (e, refl)
    ok_or_refuse-ok {A = A} pkt (err x) s e =
        Calm-refuse (λ (a : A). err x ≡ ok a) pkt (status_of_missing x) s e

    pub make_dir-Calm :
        (b : Bool) (name : Text) (mode : ℕ) (pkt : Slice) (s : State D)
        → s.server ≡ v
        → Calm v Any (make_dir fs host b name mode pkt s)
    make_dir-Calm false name mode pkt s e = (e, tt)
    make_dir-Calm true name mode pkt s e = search (calm_rules, refuse_error-Calm) depth 30

    pub open_node-Calm :
        (b : Bool) (name : Text) (flags mode : ℕ) (s : State D)
        → s.server ≡ v
        → Calm v Any (open_node fs host b name flags mode s)
    open_node-Calm false name flags mode s e = search (calm_rules)
    open_node-Calm true name flags mode s e = search (calm_rules)

    pub set_ea-Calm :
        (h : ℕ) (key : Text) (s : State D) → s.server ≡ v → Calm v Any (set_ea fs host h key s)
    set_ea-Calm h key s e = search (calm_rules) depth 30

    pub after_get-Calm :
        (d h : ℕ) (key : Text) (got : Option FsError) (s : State D)
        → s.server ≡ v
        → Calm v Any (ea_after_get fs host d h key got s)
    after_get-Calm d h key none s e = search (calm_rules, set_ea-Calm) depth 30
    after_get-Calm d h key (some x) s e = search (calm_rules, set_ea-Calm) depth 30

    pub handle_create_ea-Calm :
        (d h : ℕ) (key : Text) (s : State D)
        → s.server ≡ v
        → Calm v Any (handle_create_ea fs host d h key s)
    handle_create_ea-Calm d h key s e = search (calm_rules, set_ea-Calm, after_get-Calm) depth 30

    pub attach_ea-Calm :
        (b : Bool) (d h : ℕ) (key : Text) (pkt : Slice) (s : State D)
        → s.server ≡ v
        → Calm v Any (attach_ea fs host b d h key pkt s)
    attach_ea-Calm false d h key pkt s e = (e, tt)
    attach_ea-Calm true d h key pkt s e = search (calm_rules, handle_create_ea-Calm) depth 30

    pub sizes-Calm :
        (b : Bool) (h : ℕ) (key : Text) (a : Attributes) (s : State D)
        → s.server ≡ v
        → Calm v Any (sizes fs host b h key a s)
    sizes-Calm false h key a s e = (e, tt)
    sizes-Calm true h key a s e = search (calm_rules) depth 30
