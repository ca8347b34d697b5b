-- ===== src/Conn/Trees/Hold.antt =====
-- server/server.go: a tree connect and the contract.
use go_smb.Common.{
  ℕ, ◌+◌, ◌≡◌, ◌≢◌, refl, subst, ◌∙◌, ap, inl, inr, Option, none, some, [], map, ◌>>=◌, arith,
  Bool-cases, Option-cases, ==_refl,
}
use mathlib.Core.Path.{fun_ext}
use go_smb.Common.Assoc.{find, insert, find-insert}
use go_smb.Common.Texts.{Text, equal_bytes, equal_bytes_refl, equal_bytes-eq}
use go_smb.Common.Texts as Texts
use go_smb.Session.{Session}
use go_smb.Conn.Trees.{
  TreeConn, Trees, Server, hold_tree, tree_connect, has_suffix, ipc_name, last_part, answer,
  share_type_pipe, share_type_disk, pipe_access, disk_access, iops, ipc_tree, file_tree,
  split_parts, find_share, new_tree,
}
use go_smb.Conn.Trees.Laws.{
  IsLinked, view, set_tree-IsLinked, view-set_tree, view-found, view-missing,
}
use go_smb.Conn.Trees.Changes.{add_tree-IsLinked, view-add_tree, add_tree}
use go_smb.Conn.Trees.Spec.{connect, View, hold_name, tree_name, spec_step, step}

module _ {F : Type 0} where
  abbrev pub Refines : View → Option (Trees F) → Type 0
  Refines v done = (st' : Trees F) × (done ≡ some st') × IsLinked st' × (view st' ≡ v)

module _ {F : Type 0} (to_upper : Text → Text) (server : Server F) where
  unused_id :
      (st : Trees F) (id : ℕ)
      → IsLinked st
      → ((n : Text) (c : ℕ) → view st n ≢ some (id, c))
      → find id st.by_id ≡ none
  unused_id st id linked fresh = elim (Option-cases (find id st.by_id)) [
    | inl e ↦ e
    | inr (a, e) ↦
        let (t, here, its_id, by_name) = linked.numbered id a e in
        absurd (
          fresh t.path t.ref_count
            (view-found st t.path a t by_name here ∙ ap (λ i. some (i, t.ref_count)) its_id))
  ]

  hold_new :
      (t : TreeConn F) (st : Trees F) (linked : IsLinked st) (one : t.ref_count ≡ 1)
      (unnamed : Texts.find t.path st.by_name ≡ none) (unused : find t.tree_id st.by_id ≡ none)
      (m : Text)
      → view (add_tree st linked t unnamed unused) m ≡ hold_name t.path t.tree_id (view st) m
  hold_new t st linked one unnamed unused m = elim (Bool-cases (equal_bytes t.path m)) [
    | inl e ↦
        let missing : view st m ≡ none =
          view-missing st m
            (subst (λ n. Texts.find n st.by_name ≡ none) (equal_bytes-eq t.path m e) unnamed) in
        rw (view-add_tree st linked t unnamed unused m, e, missing, one) refl
    | inr e ↦ rw (view-add_tree st linked t unnamed unused m, e) refl
  ]

  hold_old :
      (name : Text) (id a : ℕ) (x : TreeConn F) (st : Trees F) (linked : IsLinked st)
      → find a st.heap ≡ some x
      → x.path ≡ name
      → Texts.find name st.by_name ≡ some a
      → (m : Text)
      → view (record st { heap = insert a (record x { ref_count = x.ref_count + 1 }) st.heap }) m
        ≡ hold_name name id (view st) m
  hold_old name id a x st linked here path by_name m =
      let more : TreeConn F = record x { ref_count = x.ref_count + 1 } in
      let seen = view-set_tree a x more st linked here refl refl m (rw path by_name) in
      elim (Bool-cases (equal_bytes name m)) [
        | inl e ↦
            let before : view st m ≡ some (x.tree_id, x.ref_count) =
              view-found st m a x
                (subst (λ n. Texts.find n st.by_name ≡ some a) (equal_bytes-eq name m e) by_name)
                here in
            rw (seen, path, e, before) refl
        | inr e ↦ rw (seen, path, e) refl
      ]

  hold_tree_lem :
      (t : TreeConn F) (st : Trees F)
      → IsLinked st
      → t.ref_count ≡ 1
      → find t.tree_id st.by_id ≡ none
      → (st' : Trees F) × (id : ℕ) × (a : ℕ) × (hold_tree t.path t st ≡ some (st', id, a))
        × ((x : TreeConn F) × (find a st'.heap ≡ some x))
        × IsLinked st'
        × (view st' ≡ hold_name t.path t.tree_id (view st))
  unfolding hold_tree
  hold_tree_lem t st linked one unused = elim (Option-cases (Texts.find t.path st.by_name)) [
    | inl e ↦ (
      add_tree st linked t e unused,
      0,
      st.next,
      rw (hold_tree, e) refl,
      (t, rw (find-insert st.next st.next t st.heap, ==_refl st.next) refl),
      add_tree-IsLinked st linked t e unused (omega (arith, one)),
      fun_ext (hold_new t st linked one e unused),
    )
    | inr (a, e) ↦
        let (x, here, path, by_id, refs) = linked.named t.path a e in
        let more : TreeConn F = record x { ref_count = x.ref_count + 1 } in
        (
          record st { heap = insert a more st.heap },
          x.tree_id,
          a,
          rw (hold_tree, e, here) refl,
          (more, rw (find-insert a a more st.heap, ==_refl a) refl),
          set_tree-IsLinked a x more st linked here refl refl (omega arith),
          fun_ext (hold_old t.path t.tree_id a x st linked here path e),
        )
  ]

  answer-Refines :
      (share_type access : ℕ) (t : TreeConn F) (st : Trees F)
      → IsLinked st
      → t.ref_count ≡ 1
      → find t.tree_id st.by_id ≡ none
      → Refines
          (hold_name t.path t.tree_id (view st))
          ((hold_tree t.path t st >>= answer share_type access) >>= (λ done. some done.0))
  answer-Refines share_type access t st linked one unused =
      let (st', id, a, held, (x, there), linked', seen) = hold_tree_lem t st linked one unused in
      (st', rw (held, there) refl, linked', seen)

  pub connect-Refines :
      (s : Option Session) (path : Text) (id : ℕ) (st : Trees F)
      → IsLinked st
      → ((n : Text) (c : ℕ) → view st n ≢ some (id, c))
      → Refines
          (spec_step to_upper server (connect s path id) (view st))
          (step to_upper server (connect s path id) st)
  unfolding tree_connect tree_name
  connect-Refines s path id st linked fresh =
      let unused = unused_id st id linked fresh in
      elim (Bool-cases (has_suffix path ipc_name)) [
        | inl e ↦
            let t = new_tree s id ipc_name (ipc_tree (map (λ s. s.0) server.orig_shares)) in
            rw (tree_connect, spec_step, tree_name, e)
              (answer-Refines share_type_pipe pipe_access t st linked refl unused)
        | inr e ↦ elim (Option-cases (last_part (split_parts [] path))) [
          | inl f ↦ (st, rw (tree_connect, e, f) refl, linked, rw (spec_step, tree_name, e, f) refl)
          | inr (name, f) ↦ elim (Option-cases (find_share to_upper server name)) [
            | inl g ↦ (
              st,
              rw (tree_connect, e, f, g) refl,
              linked,
              rw (spec_step, tree_name, e, f, g) refl,
            )
            | inr (fs, g) ↦
                let ops = file_tree fs (iops server.max_io_reads) (iops server.max_io_writes) in
                rw (tree_connect, spec_step, tree_name, e, f, g)
                  (answer-Refines share_type_disk disk_access (new_tree s id name ops) st linked
                    refl unused)
          ]
        ]
      ]
