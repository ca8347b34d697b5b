-- ===== src/Files/SetInfo/Laws.antt =====
-- server/file_tree.go, `setInfo`: what it does to the server's tables.
use go_smb.Common.{
  ℕ, ◌≡◌, refl, sym, subst, Bool, true, false, not, Option, none, some, if◌then◌else◌, ◌==◌,
  bit_and,
}
use go_smb.Common.Texts.{Text}
use go_smb.Common.Assoc.{insert}
use go_smb.Bytes.{Slice}
use go_smb.Opens.Table.{Open, Server, get_open, set_delete_pending}
use go_smb.Vfs.Convert.{is_type}
use go_smb.Vfs.{directory, FileSystem, FsError, Res, ok, err, Attributes}
use go_smb.Files.{
  State, Progress, next, ◌>>◌, answer, refuse, error_response, Body, set_info_response,
  status_access_denied,
}
use go_smb.Files.Calm.{Calm, Any, Calm-lift, refuse_if-false, calm_rules}
use go_smb.Files.Still.{Leaves, Leaves-next, Leaves-then, Leaves-bind, Leaves-answer}
use go_smb.Files.Security.{changed, set_mode, set_sec_info}
use go_smb.Files.SetInfo.{
  Setting, info_buffer, disposition_delete_pending, time_at, mode_to_set, set_basic_info,
  set_end_of_file_info, set_end_of_file_info_ea, is_full, unlinked, delete_or_mark, disposition_of,
  dispose, answer_status, set_disposition_info, set_disposition_info_ea, rename_open, renamed,
  set_rename, set_class, delete_access,
}

-- What a request on the open `o` may do to the tables `v`: nothing; to take its node back from deletion, to mark it if the
-- open was granted to delete, or to give the open of the handle another name.
pub data Sets (v : Server) (h : ℕ) (o : Open) : Server → Type 0 where
  nothing : Sets v h o v
  unmarks : Sets v h o (set_delete_pending o.durable_file_id false v)
  marks :
      (bit_and o.granted_access delete_access == 0) ≡ false
      → Sets v h o (set_delete_pending o.durable_file_id true v)
  renames :
      (p : Open) (to : Text)
      → get_open h v ≡ some p
      → Sets v h o (record v { opens = insert p.file_id (record p { path_name = to }) v.opens })

module _ {D : Type 0} {v : Server} where
  info_buffer-Calm : (pkt : Slice) (s : State D) → s.server ≡ v → Calm v Any (info_buffer pkt s)
  info_buffer-Calm pkt s e = search (calm_rules) depth 20

  pending-Calm :
      (pkt : Slice) (s : State D) → s.server ≡ v → Calm v Any (disposition_delete_pending pkt s)
  pending-Calm pkt s e = search (calm_rules, info_buffer-Calm) depth 20

  time_at-Calm : (i : ℕ) (f : Slice) (s : State D) → s.server ≡ v → Calm v Any (time_at i f s)
  time_at-Calm i f s e = search (calm_rules) depth 20

module _ {D : Type 0} {v : Server} (h : ℕ) (o : Open) where
  -- `next` where the tables are `v` before the step.
  pub sets_then :
      {A B : Type 0} (f : A → State D → Option (State D × Progress B))
      (r : Option (State D × Progress A))
      → Calm v Any r
      → ((a : A) (s : State D) → s.server ≡ v → Leaves (Sets v h o) (f a s))
      → Leaves (Sets v h o) (next f r)
  sets_then f r k g = Leaves-then (Sets v h o) v f r k nothing g

  sets_answer :
      (pkt : Slice) (status : ℕ) (b : Body) (s : State D)
      → s.server ≡ v
      → Leaves (Sets v h o) (answer {A = Unit {0}} pkt status b s)
  sets_answer pkt status b s e =
      Leaves-answer (Sets v h o) pkt status b s (subst (Sets v h o) (sym e) nothing)

  pub sets_if :
      {A : Type 0} (b : Bool) (m n : State D → Option (State D × Progress A)) (s : State D)
      → s.server ≡ v
      → Leaves (Sets v h o) (m s)
      → Leaves (Sets v h o) (n s)
      → Leaves (Sets v h o) ((if b then m else n) s)
  sets_if true m n s e km kn = km
  sets_if false m n s e km kn = kn

  sets_changed :
      (pkt : Slice) (status : FsError → ℕ) (x : Option FsError) (s : State D)
      → s.server ≡ v
      → Leaves (Sets v h o) (changed pkt status x s)
  sets_changed pkt status none s e = sets_answer pkt 0 set_info_response s e
  sets_changed pkt status (some x) s e = sets_answer pkt (status x) error_response s e

  module _ (fs : FileSystem D) (setting : Setting) where
    mode-Calm :
        (attributes : ℕ) (s : State D)
        → s.server ≡ v
        → Calm v Any (mode_to_set fs setting h attributes s)
    mode-Calm attributes s e = search (calm_rules) depth 20

    set_basic_sets :
        (pkt : Slice) (s : State D)
        → s.server ≡ v
        → Leaves (Sets v h o) (set_basic_info fs setting h o pkt s)
    unfolding set_basic_info
    set_basic_sets pkt s e =
        search
          (
            sets_then, sets_if, sets_answer, sets_changed, calm_rules, info_buffer-Calm, mode-Calm,
            time_at-Calm,
          )
          depth 30

    set_end_sets :
        (pkt : Slice) (s : State D)
        → s.server ≡ v
        → Leaves (Sets v h o) (set_end_of_file_info fs setting h pkt s)
    unfolding set_end_of_file_info
    set_end_sets pkt s e = search (sets_then, sets_changed, calm_rules, info_buffer-Calm) depth 30

    set_end_ea_sets :
        (key : Text) (pkt : Slice) (s : State D)
        → s.server ≡ v
        → Leaves (Sets v h o) (set_end_of_file_info_ea fs setting h key pkt s)
    unfolding set_end_of_file_info_ea
    set_end_ea_sets key pkt s e =
        search (sets_then, sets_changed, calm_rules, info_buffer-Calm) depth 30

    set_disposition_ea_sets :
        (key : Text) (pkt : Slice) (s : State D)
        → s.server ≡ v
        → Leaves (Sets v h o) (set_disposition_info_ea fs setting h key pkt s)
    unfolding set_disposition_info_ea
    set_disposition_ea_sets key pkt s e =
        search (sets_then, sets_if, sets_answer, sets_changed, calm_rules, pending-Calm) depth 30

    set_mode_sets :
        (pkt : Slice) (mode : Option ℕ) (s : State D)
        → s.server ≡ v
        → Leaves (Sets v h o) (set_mode fs h pkt mode s)
    set_mode_sets pkt none s e = search (sets_answer)
    set_mode_sets pkt (some mode) s e = search (sets_changed, calm_rules)

    pub set_sec_sets :
        (pkt : Slice) (s : State D) → s.server ≡ v → Leaves (Sets v h o) (set_sec_info fs h pkt s)
    unfolding set_sec_info
    set_sec_sets pkt s e = search (sets_then, set_mode_sets, calm_rules) depth 20

    renamed_sets :
        (to : Text) (pkt : Slice) (x : Option FsError) (s : State D)
        → s.server ≡ v
        → Leaves (Sets v h o) (renamed fs setting h to pkt x s)
    renamed_sets to pkt (some x) s e = search (sets_answer)
    renamed_sets to pkt none s e = renamed_at (get_open h s.server) refl
      where
        renamed_at :
            (x : Option Open)
            → get_open h s.server ≡ x
            → Leaves {A = Unit {0}}
                (Sets v h o)
                ((rename_open fs setting to x >> answer pkt 0 set_info_response) s)
        renamed_at none same = sets_answer pkt 0 set_info_response s e
        renamed_at (some p) same =
            let w = record (s.server) {
              opens = insert p.file_id (record p { path_name = to }) s.server.opens;
            } in
            Leaves-answer (Sets v h o) pkt 0 set_info_response (record s { server = w })
              (subst (λ u. Sets u h o w) e (renames p to same))

    set_rename_sets :
        (pkt : Slice) (s : State D)
        → s.server ≡ v
        → Leaves (Sets v h o) (set_rename fs setting h pkt s)
    unfolding set_rename
    set_rename_sets pkt s e =
        search (sets_then, renamed_sets, calm_rules, info_buffer-Calm) depth 30

    -- A step that marks or unmarks a node, where it may.
    marked :
        (b : Bool) (s : State D)
        → s.server ≡ v
        → Sets v h o (set_delete_pending o.durable_file_id b v)
        → Sets v h o (set_delete_pending o.durable_file_id b s.server)
    marked b s e q = subst (λ u. Sets v h o (set_delete_pending o.durable_file_id b u)) (sym e) q

    is_full-Calm :
        (dir : Bool) (s : State D) → s.server ≡ v → Calm v Any (is_full fs setting h dir s)
    is_full-Calm false s e = (e, tt)
    is_full-Calm true s e = search (calm_rules)

    answer_status_sets :
        (pkt : Slice) (status : ℕ) (s : State D)
        → Sets v h o s.server
        → Leaves (Sets v h o) (answer_status fs setting pkt status s)
    answer_status_sets pkt status s q = of_success (status == 0)
      where
        of_success :
            (b : Bool)
            → Leaves {A = Unit {0}}
                (Sets v h o)
                ((if b then answer pkt 0 set_info_response else refuse pkt status) s)
        of_success true = Leaves-answer (Sets v h o) pkt 0 set_info_response s q
        of_success false = Leaves-answer (Sets v h o) pkt status error_response s q

    module _ (may : (bit_and o.granted_access delete_access == 0) ≡ false) where
      unlinked_sets :
          (x : Option FsError) (s : State D)
          → s.server ≡ v
          → Leaves (Sets v h o) (unlinked fs setting o.durable_file_id x s)
      unlinked_sets none s e = marked false s e unmarks
      unlinked_sets (some x) s e = subst (Sets v h o) (sym e) nothing

      delete_sets :
          (s : State D) → s.server ≡ v → Leaves (Sets v h o) (delete_or_mark fs setting h o s)
      delete_sets s e =
          let got = fs.unlink h s.disk in
          sets_if o.posix_semantics _ _ s e (unlinked_sets got.1 (record s { disk = got.0 }) e)
            (marked true s e (marks may))

      disposition_sets :
          (got : Res Attributes) (s : State D)
          → s.server ≡ v
          → Leaves (Sets v h o) (disposition_of fs setting h o got s)
      disposition_sets (err x) s e = subst (Sets v h o) (sym e) nothing
      disposition_sets (ok a) s e = sets_then _ _ (Calm-lift a.file_type s e) λ t s1 e1.
          sets_then _ _ (is_full-Calm (is_type directory t) s1 e1) λ full s2 e2.
            sets_if full _ _ s2 e2 (subst (Sets v h o) (sym e2) nothing) (delete_sets s2 e2)

    set_disposition_sets :
        (pkt : Slice) (s : State D)
        → s.server ≡ v
        → Leaves (Sets v h o) (set_disposition_info fs setting h o pkt s)
    unfolding set_disposition_info dispose
    set_disposition_sets pkt s e = sets_then _ _ (pending-Calm pkt s e) λ pending s1 e1.
        sets_if (not pending) _ _ s1 e1
          (Leaves-answer (Sets v h o) pkt 0 set_info_response
            (record s1 { server = set_delete_pending o.durable_file_id false s1.server })
            (marked false s1 e1 unmarks))
          (Leaves-next (Sets v h o) v (λ _. (bit_and o.granted_access delete_access == 0) ≡ false) _
            _
            (refuse_if-false (bit_and o.granted_access delete_access == 0) pkt status_access_denied
              s1 e1)
            nothing
            λ _ s2 e2 may.
              let got = fs.get_attr h s2.disk in
              Leaves-bind (Sets v h o) _
                (disposition_of fs setting h o got.1 (record s2 { disk = got.0 }))
                (disposition_sets may got.1 (record s2 { disk = got.0 }) e2)
                λ status s3 q. answer_status_sets pkt status s3 q)

    pub set_class_sets :
        (class : ℕ) (pkt : Slice) (s : State D)
        → s.server ≡ v
        → Leaves (Sets v h o) (set_class fs setting class h o pkt s)
    set_class_sets class pkt s e =
        search
          (
            sets_if, sets_answer, set_basic_sets, set_end_sets, set_end_ea_sets,
            set_disposition_sets, set_disposition_ea_sets, set_rename_sets,
          )
          depth 20
