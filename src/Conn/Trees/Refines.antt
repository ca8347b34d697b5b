-- ===== src/Conn/Trees/Refines.antt =====
-- server/server.go: a tree disconnect and the contract, and whole histories.
use go_smb.Common.{
  ℕ, suc, ◌-◌, ◌≤◌, ◌≡◌, ◌≢◌, refl, sym, subst, ◌∙◌, ap, inl, inr, true, false, Option, none, some,
  List, [], ◌∷◌, ◌==◌, if◌then◌else◌, arith, Bool-cases, Option-cases, ==_refl,
}
use mathlib.Core.Path.{fun_ext}
use go_smb.Common.Assoc.{find, insert}
use go_smb.Common.Texts.{Text, equal_bytes, equal_bytes_refl, equal_bytes-eq}
use go_smb.Common.Texts as Texts
use go_smb.Conn.Trees.{TreeConn, Trees, Server, tree_disconnect, no_trees}
use go_smb.Conn.Trees.Laws.{
  IsLinked, view, set_tree-IsLinked, view-set_tree, view-found, view-missing,
}
use go_smb.Conn.Trees.Changes.{drop_tree, drop_tree-IsLinked, view-drop_tree}
use go_smb.Conn.Trees.Spec.{Op, connect, disconnect, one_less, release_id, replay, step, run, Fresh}
use go_smb.Conn.Trees.Hold.{Refines, connect-Refines}

module _ {F : Type 0} (to_upper : Text → Text) (server : Server F) where
  one_less_other : (id : ℕ) (o : Option (ℕ × ℕ)) → ((c : ℕ) → o ≢ some (id, c)) → one_less id o ≡ o
  one_less_other id none h = refl
  one_less_other id (some (i, c)) h = elim (Bool-cases (i == id)) [
    | inl e ↦ let same : i ≡ id = ground arith in absurd (h c (ap (λ j. some (j, c)) same))
    | inr e ↦ rw e refl
  ]

  one_less_last : (id r c : ℕ) → r ≡ suc c → (c == 0) ≡ true → one_less id (some (id, r)) ≡ none
  one_less_last id r c refs e = rw (==_refl id) (ground arith)

  one_less_kept :
      (id r c : ℕ) → r ≡ suc c → (c == 0) ≡ false → one_less id (some (id, r)) ≡ some (id, c)
  one_less_kept id r c refs e = rw (==_refl id, refs) (ground arith)

  -- A name whose tree has the id is the name of the id's tree.
  name_of_id :
      (id a : ℕ) (t : TreeConn F) (st : Trees F) (m : Text) (c : ℕ)
      → IsLinked st
      → find id st.by_id ≡ some a
      → find a st.heap ≡ some t
      → view st m ≡ some (id, c)
      → equal_bytes t.path m ≡ true
  name_of_id id a t st m c linked by_id here seen = elim (Option-cases (Texts.find m st.by_name)) [
    | inl e ↦ let missing = view-missing st m e in cc
    | inr (b, e) ↦
        let (x, at_b, its_path, its_id, refs) = linked.named m b e in
        let found = view-found st m b x e at_b in
        let same_id : x.tree_id ≡ id = cc (found, seen) in
        let address : a ≡ b = cc in
        let one : t ≡ x = cc in
        subst (λ n. equal_bytes n m ≡ true) (sym (ap (λ y. y.path) one ∙ its_path))
          (equal_bytes_refl m)
  ]

  unseen :
      (id : ℕ) (st : Trees F) (m : Text) (c : ℕ)
      → IsLinked st
      → find id st.by_id ≡ none
      → view st m ≢ some (id, c)
  unseen id st m c linked unused seen = elim (Option-cases (Texts.find m st.by_name)) [
    | inl e ↦ let missing = view-missing st m e in cc
    | inr (b, e) ↦
        let (x, at_b, its_path, its_id, refs) = linked.named m b e in
        let found = view-found st m b x e at_b in
        let same_id : x.tree_id ≡ id = cc (found, seen) in cc
  ]

  module _ (a : ℕ) (t : TreeConn F) (st : Trees F) (linked : IsLinked st)
      (here : find a st.heap ≡ some t) (by_name : Texts.find t.path st.by_name ≡ some a)
      (by_id : find t.tree_id st.by_id ≡ some a) where
    -- What is left of a view when the tree has lost a reference.
    released :
        (left : Option (ℕ × ℕ)) (m : Text)
        → one_less t.tree_id (some (t.tree_id, t.ref_count)) ≡ left
        → (if equal_bytes t.path m then left else view st m) ≡ release_id t.tree_id (view st) m
    released left m e = elim (Bool-cases (equal_bytes t.path m)) [
      | inl f ↦
          let at_m : Texts.find m st.by_name ≡ some a =
            subst (λ n. Texts.find n st.by_name ≡ some a) (equal_bytes-eq t.path m f) by_name in
          rw (f, view-found st m a t at_m here) (sym e)
      | inr f ↦ rw f (
          sym (
            one_less_other t.tree_id (view st m)
              (λ c seen. let again = name_of_id t.tree_id a t st m c linked by_id here seen in cc)))
    ]

    release-Refines :
        (c : ℕ)
        → t.ref_count ≡ suc c
        → Refines (release_id t.tree_id (view st)) (step to_upper server (disconnect t.tree_id) st)
    unfolding tree_disconnect
    release-Refines c refs =
        let less : TreeConn F = record t { ref_count = c } in
        elim (Bool-cases (c == 0)) [
          | inl e ↦ (
            drop_tree a t st linked here by_name by_id less,
            rw (tree_disconnect, by_id, here, refs, e) refl,
            drop_tree-IsLinked a t st linked here by_name by_id less refl refl,
            fun_ext (λ m.
                view-drop_tree a t st linked here by_name by_id less m refl refl
                ∙ released none m (one_less_last t.tree_id t.ref_count c refs e)),
          )
          | inr e ↦ (
            record st { heap = insert a less st.heap },
            rw (tree_disconnect, by_id, here, refs, e) refl,
            set_tree-IsLinked a t less st linked here refl refl (ground arith),
            fun_ext (λ m.
                view-set_tree a t less st linked here refl refl m by_name
                ∙ released (some (t.tree_id, c)) m (one_less_kept t.tree_id t.ref_count c refs e)),
          )
        ]

  disconnect-Refines :
      (id : ℕ) (st : Trees F)
      → IsLinked st
      → Refines (release_id id (view st)) (step to_upper server (disconnect id) st)
  unfolding tree_disconnect
  disconnect-Refines id st linked = elim (Option-cases (find id st.by_id)) [
    | inl e ↦ (
      st,
      rw (tree_disconnect, e) refl,
      linked,
      fun_ext (λ m. sym (one_less_other id (view st m) (λ c seen. unseen id st m c linked e seen))),
    )
    | inr (a, e) ↦
        let (t, here, its_id, by_name) = linked.numbered id a e in
        let (x, there, its_path, by_id, refs) = linked.named t.path a by_name in
        let one : x ≡ t = cc in
        let held : 1 ≤ t.ref_count = subst (λ y. 1 ≤ y.ref_count) one refs in
        subst (λ i. Refines (release_id i (view st)) (step to_upper server (disconnect i) st))
          its_id
          (release-Refines a t st linked here by_name
            (subst (λ i. find i st.by_id ≡ some a) (sym its_id) e) (t.ref_count - 1)
            (omega (arith, held)))
  ]

  -- From trees whose two maps are in step, a history of tree connects and disconnects whose new ids
  -- are each the id of no tree at the time returns trees whose two maps are in step, and each name has
  -- the id and the number of references that the history gives it when it is replayed on names alone: a connect whose
  -- share exists adds a reference to the name, a disconnect takes one from the name of its id, and the last one taken frees the name.
  pub run_refines :
      (ops : List Op) (st : Trees F)
      → IsLinked st
      → Fresh to_upper server ops (view st)
      → (st' : Trees F) × (run to_upper server ops st ≡ some st')
        × IsLinked st'
        × (view st' ≡ replay to_upper server ops (view st))
  unfolding run
  run_refines [] st linked fresh = (st, refl, linked, refl)
  run_refines (connect s path id ∷ ops) st linked (unused, fresh) =
      let (st', done, linked', seen) = connect-Refines to_upper server s path id st linked unused in
      let rest = run_refines ops st' linked' (subst (Fresh to_upper server ops) (sym seen) fresh) in
      (rest.0, rw (step, done) rest.1, rest.2, rest.3 ∙ ap (replay to_upper server ops) seen)
  run_refines (disconnect id ∷ ops) st linked fresh =
      let (st', done, linked', seen) = disconnect-Refines id st linked in
      let rest = run_refines ops st' linked' (subst (Fresh to_upper server ops) (sym seen) fresh) in
      (rest.0, rw (step, done) rest.1, rest.2, rest.3 ∙ ap (replay to_upper server ops) seen)

pub no_trees-IsLinked : {F : Type 0} → IsLinked {F = F} no_trees
no_trees-IsLinked = record { named = λ n a h. cc; numbered = λ i a h. cc; bounded = λ a t h. cc }
