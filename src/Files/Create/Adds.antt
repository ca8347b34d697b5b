-- ===== src/Files/Create/Adds.antt =====
-- server/file_tree.go, `create`: what it does to the server's tables.
use go_smb.Common.{
  ℕ, suc, ◌≡◌, refl, sym, subst, ap, Bool, Option, none, some, [], if◌then◌else◌, ◌&&◌, ◌||◌,
  bit_or, not,
}
use go_smb.Common.Texts.{Text}
use go_smb.Bytes.{Slice}
use go_smb.Opens.Table.{Open, Server, add_open, OpLockState}
use go_smb.Vfs.{FileSystem, Res, Attributes, ok, directory}
use go_smb.Vfs.Convert.{permissions_from_vfs}
use go_smb.Files.{
  ◌>>=◌, refuse_if, State, lift, call, ◌>>◌, answer, CreateResponse, create_response,
}
use go_smb.Files.Calm.{Calm-refuse_if, Calm-lift, Calm-lift_is}
use go_smb.Files.Create.{
  oplock_of, mode_or, open_flags, Plan, smb2_create, path_of, is_ea, before_colon, after_colon,
  exists, is_of_type, has, file_directory_file, existing_status, status_no_such_file, Host, Request,
  Existing, create, finish_create, attach_ea, ok_or_refuse, open_found, perms_if_posix,
  refuse_pending, put_added, open_of, existing_of,
}
use go_smb.Files.Create.Contexts.Served.{each_context-Calm}
use go_smb.Files.Still.{prepare_response-Still}
use go_smb.Files.Create.Ends.{
  Ends, IsNotPending, IsNodeOf, Ends-Reads, adds, Ends-next, Ends-then, Ends-Still,
}
use go_smb.Files.Create.Steps.{
  Matches, MayOpen, may_open, accept-Reads, valid-Reads, create_name-Reads, request_of-Reads,
  create_contexts-Calm, existing-Calm, perms-Calm, pending-Calm, decided-Calm, ok_or_refuse-Calm,
  ok_or_refuse-ok, make_dir-Calm, open_node-Calm, attach_ea-Calm, sizes-Calm,
}

module _ {D : Type 0} {v : Server} (fs : FileSystem D) (host : Host) where
  -- The open is added, and answered.
  added-Ends :
      (pkt : Slice) (o : Open) (c : CreateResponse) (s : State D) (w : Option Server) (d : D)
      → s.server ≡ v
      → add_open o v ≡ w
      → c.handle_id ≡ o.file_id
      → c.node_id ≡ o.durable_file_id
      → IsNodeOf fs o
      → IsNotPending v (fs.lookup 0 o.path_name d).1
      → Ends fs v d ((put_added fs host w >> answer pkt 0 (create_response c)) s)
  added-Ends pkt o c s none d e x i j n k = tt
  added-Ends pkt o c s (some w) d e x i j n k =
      let s' = record s { server = w } in
      Ends-Still fs v d _ s' _ (prepare_response-Still pkt 0 s') λ h. adds o w h c x i j n k

  finish-Ends :
      (d d1 : D) (pkt r : Slice) (name : Text) (ea : Bool) (key : Text) (q : Request)
      (found : Existing) (action : ℕ) (lock : ℕ × ℕ × OpLockState) (h : ℕ) (a : Attributes)
      (s : State D)
      → s.server ≡ v
      → IsNotPending v (fs.lookup 0 name d).1
      → (fs.get_attr h d1).1 ≡ ok a
      → Ends fs v d (finish_create fs host pkt r name ea key q found action lock h a s)
  finish-Ends d d1 pkt r name ea key q found action lock h a s e k got =
      Ends-next fs d (λ node. a.inode_number ≡ some node) _ (lift a.inode_number s)
        (Calm-lift_is a.inode_number s e)
        λ node s1 e1 inode.
          Ends-then fs d _ _ (Calm-lift (permissions_from_vfs a (host.base name)) s1 e1)
            λ attributes s2 e2.
              Ends-then fs d _ _ (sizes-Calm fs host ea h key a s2 e2) λ size s3 e3.
                Ends-then fs d _ _ (create_contexts-Calm r s3 e3) λ l s4 e4.
                  Ends-next fs d _ _ _
                    (each_context-Calm fs (suc l.len) host.posix_extensions a l
                      (open_of fs host q name ea key found lock.0 lock.2 h node) s4 e4)
                    λ (cs, o) s5 e5 ids.
                      added-Ends pkt o _ s5 (add_open o s5.server) d e5
                        (ap (λ u. add_open o u) (sym e5)) refl refl
                        (
                          d1,
                          a,
                          subst (λ i. (fs.get_attr i d1).1 ≡ ok a) (sym ids.0) got,
                          subst (λ n. a.inode_number ≡ some n) (sym ids.1) inode,
                        )
                        (subst (λ n. IsNotPending v (fs.lookup 0 n d).1) (sym ids.2) k)

  -- After the file is open.
  opened-Ends :
      (d : D) (pkt r : Slice) (name : Text) (ea : Bool) (key : Text) (q : Request)
      (found : Existing) (action : ℕ) (lock : ℕ × ℕ × OpLockState) (h : ℕ) (s : State D)
      → s.server ≡ v
      → IsNotPending v (fs.lookup 0 name d).1
      → Ends fs v d (
          (do
            got ← call (fs.get_attr h)
            a ← ok_or_refuse fs host pkt got
            attach_ea fs host ea q.disposition h key pkt
            finish_create fs host pkt r name ea key q found action lock h a)
            s)
  opened-Ends d pkt r name ea key q found action lock h s e k =
      let got = (fs.get_attr h s.disk) in
      let s1 = record s { disk = got.0 } in
      Ends-next fs d (λ a. got.1 ≡ ok a) _ _ (ok_or_refuse-ok fs host pkt got.1 s1 e)
        λ a s2 e2 is_ok.
          Ends-then fs d _ _ (attach_ea-Calm fs host ea q.disposition h key pkt s2 e2)
            λ _ s3 e3. finish-Ends d s.disk pkt r name ea key q found action lock h a s3 e3 k is_ok

  open_found-Ends :
      (d : D) (pkt r : Slice) (name : Text) (ea : Bool) (key : Text) (q : Request)
      (found : Existing) (perms : Option ℕ) (s : State D)
      → s.server ≡ v
      → IsNotPending v (fs.lookup 0 name d).1
      → Ends fs v d (open_found fs host pkt r name ea key q found perms s)
  open_found-Ends d pkt r name ea key q found perms s e k =
      let lock = oplock_of q.oplock_level in
      Ends-then fs d _ _ (decided-Calm fs host pkt _ s e) λ (p : Plan) s1 e1.
        Ends-then fs d _ _
          (make_dir-Calm fs host p.makes_dir name (mode_or fs host 0o777 q.disposition perms) pkt s1
            e1)
          λ _ s2 e2.
            Ends-then fs d _ _
              (open_node-Calm fs host (is_of_type directory found || p.makes_dir) name
                (open_flags fs host (bit_or p.flags lock.1) q ea found)
                (mode_or fs host 0o644 q.disposition perms) s2 e2)
              λ opened s3 e3.
                Ends-then fs d _ _ (ok_or_refuse-Calm fs host pkt opened s3 e3)
                  λ h s4 e4. opened-Ends d pkt r name ea key q found p.action lock h s4 e4 k

  -- After the refusal of a file that is to be deleted.
  checked-Ends :
      (pkt r : Slice) (name : Text) (ea : Bool) (key : Text) (q : Request) (found : Existing)
      (perms : Option ℕ) (d : D) (s : State D)
      → s.server ≡ v
      → IsNotPending v (fs.lookup 0 name d).1
      → Ends fs v d (
          (do
            refuse_if
                (exists found
                  && not (is_of_type directory found)
                  && has q.options file_directory_file)
                pkt
                (existing_status q.disposition)
            refuse_if (ea && not (exists found)) pkt status_no_such_file
            open_found fs host pkt r name ea key q found perms)
            s)
  checked-Ends pkt r name ea key q found perms d s e k =
      search (Ends-then fs d, Calm-refuse_if, open_found-Ends d) depth 20

  -- After the lookup.
  looked_up-Ends :
      (pkt r : Slice) (name : Text) (ea : Bool) (key : Text) (q : Request) (looked : Res Attributes)
      (d : D) (s : State D)
      → s.server ≡ v
      → (fs.lookup 0 name d).1 ≡ looked
      → Ends fs v d (
          (do
            found ← existing_of looked
            perms ← perms_if_posix fs host r
            refuse_pending fs host found pkt
            refuse_if
                (exists found
                  && not (is_of_type directory found)
                  && has q.options file_directory_file)
                pkt
                (existing_status q.disposition)
            refuse_if (ea && not (exists found)) pkt status_no_such_file
            open_found fs host pkt r name ea key q found perms)
            s)
  looked_up-Ends pkt r name ea key q looked d s e l =
      Ends-next fs d (Matches looked) _ _ (existing-Calm looked s e) λ found s1 e1 m.
        Ends-then fs d _ _ (perms-Calm fs host r s1 e1) λ perms s2 e2.
          Ends-next fs d (λ _. MayOpen v found) _ _ (pending-Calm fs host found pkt s2 e2)
            λ _ s3 e3 k.
              checked-Ends pkt r name ea key q found perms d s3 e3
                (subst (IsNotPending v) (sym l) (may_open v looked found m k))

-- Unless it panics, `create` refuses, or fails, and leaves the server's tables as they were; or it answers, and the
-- tables are those of before with one open added, whose handle and node are the answer's; this node is the inode that
-- `GetAttr` gives for the handle; and what the name of the open was looked up as, on the disk that the request found and
-- maybe another node, was not delete-pending.
pub create_adds :
    {D : Type 0} (fs : FileSystem D) (host : Host) (pkt : Slice) (s : State D)
    → Ends fs s.server s.disk (create fs host pkt s)
unfolding create
create_adds fs host pkt s = Ends-Reads fs _ s _ (accept-Reads smb2_create pkt s) λ data_of.
    Ends-Reads fs _ s _ (valid-Reads data_of s) λ r.
      Ends-Reads fs _ s _ (create_name-Reads host.of_utf16 r s) λ given.
        Ends-Reads fs _ s _ (request_of-Reads r s) λ q.
          let path = path_of given in
          let name = if is_ea path then before_colon path else path in
          let got = fs.lookup 0 name s.disk in
          looked_up-Ends fs host pkt r name (is_ea path)
            (if is_ea path then after_colon path else []) q got.1 s.disk (record s { disk = got.0 })
            refl refl
