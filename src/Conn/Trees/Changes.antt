-- ===== src/Conn/Trees/Changes.antt =====
-- server/server.go: a tree taken out of, and a tree put into, the two maps of a connection.
use go_smb.Common.{
  ℕ, ◌+◌, ◌≤◌, ◌≡◌, ◌⊎◌, refl, sym, subst, ◌∙◌, ap, inl, inr, true, false, none, some, ◌==◌,
  if◌then◌else◌, arith, Bool-cases, Option-cases, ==_refl,
}
use go_smb.Common.Assoc.{
  find, insert, erase, find-insert, find-erase, find-erase-some, find-insert-some,
}
use go_smb.Common.Texts.{Text, equal_bytes, equal_bytes_refl, equal_bytes-eq}
use go_smb.Common.Texts as Texts
use go_smb.Conn.Trees.Laws.{
  IsLinked, view, view-found, view-missing, heap-bounded, find-set_tree_other,
}
use go_smb.Conn.Trees.{TreeConn, Trees}

module _ {F : Type 0} where
  module _ (a : ℕ) (t : TreeConn F) (st : Trees F) (linked : IsLinked st)
      (here : find a st.heap ≡ some t) (by_name : Texts.find t.path st.by_name ≡ some a)
      (by_id : find t.tree_id st.by_id ≡ some a) where
    abbrev pub drop_tree : TreeConn F → Trees F
    drop_tree t' = record st {
      heap = insert a t' st.heap;
      by_name = Texts.erase t.path st.by_name;
      by_id = erase t.tree_id st.by_id;
    }

    same_address :
        (b : ℕ) (x : TreeConn F)
        → find b st.heap ≡ some x
        → (a == b) ≡ true
        → (equal_bytes t.path x.path ≡ true) × ((t.tree_id == x.tree_id) ≡ true)
    same_address b x at_b e =
        let same : a ≡ b = ground arith in
        let one : t ≡ x = cc in
        (
          subst (λ y. equal_bytes t.path y.path ≡ true) one (equal_bytes_refl t.path),
          subst (λ y. (t.tree_id == y.tree_id) ≡ true) one (==_refl t.tree_id),
        )

    -- A tree with another name or another id has another address, another name and another id.
    apart :
        (b : ℕ) (x : TreeConn F)
        → Texts.find x.path st.by_name ≡ some b
        → find x.tree_id st.by_id ≡ some b
        → find b st.heap ≡ some x
        → (equal_bytes t.path x.path ≡ false) ⊎ ((t.tree_id == x.tree_id) ≡ false)
        → ((a == b) ≡ false)
          × (equal_bytes t.path x.path ≡ false)
          × ((t.tree_id == x.tree_id) ≡ false)
    apart b x name_b id_b at_b differ =
        let other : (a == b) ≡ false = elim (Bool-cases (a == b)) [
          | inr e ↦ e
          | inl e ↦ let (p, q) = same_address b x at_b e in elim differ [ inl d ↦ cc | inr d ↦ cc ]
        ] in
        let other_name : equal_bytes t.path x.path ≡ false =
          elim (Bool-cases (equal_bytes t.path x.path)) [
            | inr e ↦ e
            | inl e ↦
                let same : t.path ≡ x.path = equal_bytes-eq t.path x.path e in
                let address : a ≡ b = cc in absurd (ground arith)
          ] in
        let other_id : (t.tree_id == x.tree_id) ≡ false =
          elim (Bool-cases (t.tree_id == x.tree_id)) [
            | inr e ↦ e
            | inl e ↦
                let same : t.tree_id ≡ x.tree_id = ground arith in
                let address : a ≡ b = cc in absurd (ground arith)
          ] in
        (other, other_name, other_id)

    pub drop_tree-IsLinked :
        (t' : TreeConn F) → t'.path ≡ t.path → t'.tree_id ≡ t.tree_id → IsLinked (drop_tree t')
    drop_tree-IsLinked t' path id = record {
      named = λ n b h.
          let (off, f) = Texts.find-erase-some t.path n st.by_name h in
          let (x, at_b, its_path, by_id_x, refs) = linked.named n b f in
          let (g, p, q) = apart b x (rw its_path f) by_id_x at_b (inl (rw its_path off)) in
          (
            x,
            find-set_tree_other a t t' st linked here path id b g ∙ at_b,
            its_path,
            rw (find-erase t.tree_id x.tree_id st.by_id, q) by_id_x,
            refs,
          );
      numbered = λ i b h.
          let (off, f) = find-erase-some t.tree_id i st.by_id h in
          let (x, at_b, its_id, by_name_x) = linked.numbered i b f in
          let (g, p, q) = apart b x by_name_x (rw its_id f) at_b (inr (rw its_id off)) in
          (
            x,
            find-set_tree_other a t t' st linked here path id b g ∙ at_b,
            its_id,
            rw (Texts.find-erase t.path x.path st.by_name, p) by_name_x,
          );
      bounded = heap-bounded a t t' st linked here path id;
    }

    pub view-drop_tree :
        (t' : TreeConn F) (n : Text)
        → t'.path ≡ t.path
        → t'.tree_id ≡ t.tree_id
        → view (drop_tree t') n ≡ (if equal_bytes t.path n then none else view st n)
    view-drop_tree t' n path id = elim (Bool-cases (equal_bytes t.path n)) [
      | inl e ↦
          rw (e, view-missing (drop_tree t') n (rw (Texts.find-erase t.path n st.by_name, e) refl))
            refl
      | inr e ↦
          let kept : Texts.find n (Texts.erase t.path st.by_name) ≡ Texts.find n st.by_name =
            rw (Texts.find-erase t.path n st.by_name, e) refl in
          elim (Option-cases (Texts.find n st.by_name)) [
            | inl f ↦ rw (e, view-missing (drop_tree t') n (kept ∙ f), view-missing st n f) refl
            | inr (b, f) ↦
                let (x, at_b, its_path, by_id_x, refs) = linked.named n b f in
                let (g, p, q) = apart b x (rw its_path f) by_id_x at_b (inl (rw its_path e)) in
                rw
                  (
                    e,
                    view-found (drop_tree t') n b x (kept ∙ f)
                        (find-set_tree_other a t t' st linked here path id b g ∙ at_b),
                    view-found st n b x f at_b,
                  )
                  refl
          ]
    ]

  module _ (st : Trees F) (linked : IsLinked st) (t : TreeConn F)
      (unnamed : Texts.find t.path st.by_name ≡ none)
      (unused : find t.tree_id st.by_id ≡ none) where
    abbrev pub add_tree : Trees F
    add_tree = record {
      heap = insert st.next t st.heap;
      next = st.next + 1;
      by_name = Texts.insert t.path st.next st.by_name;
      by_id = insert t.tree_id st.next st.by_id;
    }

    new_address : (b : ℕ) (x : TreeConn F) → find b st.heap ≡ some x → (st.next == b) ≡ false
    new_address b x h = let below = linked.bounded b x h in ground arith

    old_tree :
        (b : ℕ) (x : TreeConn F)
        → find b st.heap ≡ some x
        → find b (insert st.next t st.heap) ≡ some x
    old_tree b x h = rw (find-insert st.next b t st.heap, new_address b x h) h

    new_tree_found : (b : ℕ) → st.next ≡ b → find b (insert st.next t st.heap) ≡ some t
    new_tree_found b e = rw (find-insert st.next b t st.heap, sym e, ==_refl st.next) refl

    other_id :
        (b : ℕ) (x : TreeConn F)
        → find x.tree_id st.by_id ≡ some b
        → (t.tree_id == x.tree_id) ≡ false
    other_id b x h = elim (Bool-cases (t.tree_id == x.tree_id)) [
      | inr e ↦ e
      | inl e ↦ let same : t.tree_id ≡ x.tree_id = ground arith in cc
    ]

    other_name :
        (b : ℕ) (x : TreeConn F)
        → Texts.find x.path st.by_name ≡ some b
        → equal_bytes t.path x.path ≡ false
    other_name b x h = elim (Bool-cases (equal_bytes t.path x.path)) [
      | inr e ↦ e
      | inl e ↦ let same : t.path ≡ x.path = equal_bytes-eq t.path x.path e in cc
    ]

    pub add_tree-IsLinked : 1 ≤ t.ref_count → IsLinked add_tree
    add_tree-IsLinked held = record {
      named = λ n b h. elim (Texts.find-insert-some t.path n st.next st.by_name h) [
        | inl (e, v) ↦ (
          t,
          new_tree_found b v,
          equal_bytes-eq t.path n e,
          rw (find-insert t.tree_id t.tree_id st.next st.by_id, ==_refl t.tree_id)
              (ap (λ c. some c) v),
          held,
        )
        | inr (e, f) ↦
            let (x, at_b, its_path, by_id, refs) = linked.named n b f in
            (
              x,
              old_tree b x at_b,
              its_path,
              rw (find-insert t.tree_id x.tree_id st.next st.by_id, other_id b x by_id) by_id,
              refs,
            )
      ];
      numbered = λ i b h. elim (find-insert-some t.tree_id i st.next st.by_id h) [
        | inl (e, v) ↦ (
          t,
          new_tree_found b v,
          ground arith,
          rw (Texts.find-insert t.path t.path st.next st.by_name, equal_bytes_refl t.path)
              (ap (λ c. some c) v),
        )
        | inr (e, f) ↦
            let (x, at_b, its_id, by_name) = linked.numbered i b f in
            (
              x,
              old_tree b x at_b,
              its_id,
              rw (Texts.find-insert t.path x.path st.next st.by_name, other_name b x by_name)
                  by_name,
            )
      ];
      bounded = λ b x h. elim (Bool-cases (st.next == b)) [
        | inl e ↦ ground arith
        | inr e ↦
            let below =
              linked.bounded b x (sym (rw (find-insert st.next b t st.heap, e) refl) ∙ h) in
            omega arith
      ];
    }

    pub view-add_tree :
        (n : Text)
        → view add_tree n
          ≡ (if equal_bytes t.path n then some (t.tree_id, t.ref_count) else view st n)
    view-add_tree n = elim (Bool-cases (equal_bytes t.path n)) [
      | inl e ↦
          rw
            (
              e,
              view-found add_tree n st.next t
                  (rw (Texts.find-insert t.path n st.next st.by_name, e) refl)
                  (new_tree_found st.next refl),
            )
            refl
      | inr e ↦
          let kept : Texts.find n (Texts.insert t.path st.next st.by_name)
              ≡ Texts.find n st.by_name =
            rw (Texts.find-insert t.path n st.next st.by_name, e) refl in
          elim (Option-cases (Texts.find n st.by_name)) [
            | inl f ↦ rw (e, view-missing add_tree n (kept ∙ f), view-missing st n f) refl
            | inr (b, f) ↦
                let (x, at_b, its_path, by_id, refs) = linked.named n b f in
                rw
                  (
                    e,
                    view-found add_tree n b x (kept ∙ f) (old_tree b x at_b),
                    view-found st n b x f at_b,
                  )
                  refl
          ]
    ]
