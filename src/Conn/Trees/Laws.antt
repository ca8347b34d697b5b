-- ===== src/Conn/Trees/Laws.antt =====
-- server/server.go: the two maps of a connection's trees stay in step.
use go_smb.Common.{
  ℕ, ◌≤◌, ◌<◌, ◌≡◌, refl, sym, subst, ◌∙◌, inl, inr, true, false, Option, none, some, ◌==◌,
  if◌then◌else◌, arith, Bool-cases, Option-cases, ==_refl,
}
use go_smb.Common.Assoc.{find, insert, find-insert}
use go_smb.Common.Texts.{Text, equal_bytes, equal_bytes_refl, equal_bytes-eq}
use go_smb.Common.Texts as Texts
use go_smb.Conn.Trees.{TreeConn, Trees}

module _ {F : Type 0} where
  -- A name's tree has that name, is found by its id and has a reference; an id's tree has that id and is
  -- found by its name; the heap has no address that is not given out.
  pub record IsLinked (st : Trees F) : Type 0 where
    pub named :
        (n : Text) (a : ℕ)
        → Texts.find n st.by_name ≡ some a
        → (t : TreeConn F) × (find a st.heap ≡ some t)
          × (t.path ≡ n)
          × (find t.tree_id st.by_id ≡ some a)
          × (1 ≤ t.ref_count)
    pub numbered :
        (i a : ℕ)
        → find i st.by_id ≡ some a
        → (t : TreeConn F) × (find a st.heap ≡ some t)
          × (t.tree_id ≡ i)
          × (Texts.find t.path st.by_name ≡ some a)
    pub bounded : (a : ℕ) (t : TreeConn F) → find a st.heap ≡ some t → a < st.next

  -- What a client sees of the trees: the id and the number of references of a name.
  abbrev pub view : Trees F → Text → Option (ℕ × ℕ)
  view st n = elim (Texts.find n st.by_name) [
    | none ↦ none
    | some a ↦ elim (find a st.heap) [ none ↦ none | some t ↦ some (t.tree_id, t.ref_count) ]
  ]

  pub view-found :
      (st : Trees F) (n : Text) (b : ℕ) (x : TreeConn F)
      → Texts.find n st.by_name ≡ some b
      → find b st.heap ≡ some x
      → view st n ≡ some (x.tree_id, x.ref_count)
  view-found st n b x e f = rw (view, e, f) refl

  pub view-missing : (st : Trees F) (n : Text) → Texts.find n st.by_name ≡ none → view st n ≡ none
  view-missing st n e = rw (view, e) refl

  abbrev set_tree : ℕ → TreeConn F → Trees F → Trees F
  set_tree a t st = record st { heap = insert a t st.heap }

  module _ (a : ℕ) (t t' : TreeConn F) (st : Trees F) (linked : IsLinked st)
      (here : find a st.heap ≡ some t) (path : t'.path ≡ t.path) (id : t'.tree_id ≡ t.tree_id) where
    same_tree : (b : ℕ) (x : TreeConn F) → (a == b) ≡ true → find b st.heap ≡ some x → t ≡ x
    same_tree b x e there = let same : a ≡ b = ground arith in cc

    pub find-set_tree : (b : ℕ) → (a == b) ≡ true → find b (insert a t' st.heap) ≡ some t'
    find-set_tree b e = rw (find-insert a b t' st.heap, e) refl

    pub find-set_tree_other :
        (b : ℕ) → (a == b) ≡ false → find b (insert a t' st.heap) ≡ find b st.heap
    find-set_tree_other b e = rw (find-insert a b t' st.heap, e) refl

    pub heap-bounded :
        (b : ℕ) (x : TreeConn F) → find b (insert a t' st.heap) ≡ some x → b < st.next
    heap-bounded b x h = elim (Bool-cases (a == b)) [
      | inl e ↦
          let same : a ≡ b = ground arith in subst (λ c. c < st.next) same (linked.bounded a t here)
      | inr e ↦ linked.bounded b x (sym (find-set_tree_other b e) ∙ h)
    ]

    pub set_tree-IsLinked : 1 ≤ t'.ref_count → IsLinked (set_tree a t' st)
    set_tree-IsLinked held = record {
      named = λ n b h.
          let (x, at_b, its_path, by_id, refs) = linked.named n b h in
          elim (Bool-cases (a == b)) [
            | inl e ↦
                let one = same_tree b x e at_b in
                let same_id : t'.tree_id ≡ x.tree_id = cc in
                (t', find-set_tree b e, cc, rw same_id by_id, held)
            | inr e ↦ (x, find-set_tree_other b e ∙ at_b, its_path, by_id, refs)
          ];
      numbered = λ i b h.
          let (x, at_b, its_id, by_name) = linked.numbered i b h in
          elim (Bool-cases (a == b)) [
            | inl e ↦
                let one = same_tree b x e at_b in
                let same_path : t'.path ≡ x.path = cc in
                (t', find-set_tree b e, cc, rw same_path by_name)
            | inr e ↦ (x, find-set_tree_other b e ∙ at_b, its_id, by_name)
          ];
      bounded = heap-bounded;
    }

    pub view-set_tree :
        (n : Text)
        → Texts.find t.path st.by_name ≡ some a
        → view (set_tree a t' st) n
          ≡ (if equal_bytes t.path n then some (t.tree_id, t'.ref_count) else view st n)
    view-set_tree n by_name = elim (Bool-cases (equal_bytes t.path n)) [
      | inl e ↦
          let at_n : Texts.find n st.by_name ≡ some a =
            subst (λ m. Texts.find m st.by_name ≡ some a) (equal_bytes-eq t.path n e) by_name in
          rw (e, view-found (set_tree a t' st) n a t' at_n (find-set_tree a (==_refl a)), id) refl
      | inr e ↦ elim (Option-cases (Texts.find n st.by_name)) [
        | inl f ↦ rw (e, view-missing (set_tree a t' st) n f, view-missing st n f) refl
        | inr (b, f) ↦
            let (x, at_b, its_path, by_id, refs) = linked.named n b f in
            elim (Bool-cases (a == b)) [
              | inl g ↦
                  let one = same_tree b x g at_b in
                  let same : t.path ≡ n = cc in
                  let again : equal_bytes t.path n ≡ true = rw same (equal_bytes_refl n) in cc
              | inr g ↦
                  rw
                    (
                      e,
                      view-found (set_tree a t' st) n b x f (find-set_tree_other b g ∙ at_b),
                      view-found st n b x f at_b,
                    )
                    refl
            ]
      ]
    ]
