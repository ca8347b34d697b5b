-- ===== src/Opens/Table/Deferred.antt =====
-- server/server.go, `closeOpen`: deferred deletion over the closes of all opens of a node.
use go_smb.Common.{
  ℕ, ◌≡◌, refl, Bool, true, false, none, some, List, [], ◌∷◌, ◌++◌, arith, ◌==◌, inl, inr,
  Bool-cases, ap, ap₂, ◌∙◌, replicate, length, not,
}
use go_smb.Common.Assoc.{find, erase}
use go_smb.Opens.Table.{
  Open, Server, close_open, is_delete_pending, opens_of, has_node, close_all, opens_for_node,
}
use go_smb.Opens.Table.Laws.{close_open-unlinks, close_open-leaves}
use go_smb.Opens.Table.Keyed.{IsKeyed, erase-IsKeyed, close_open-opens}

erase-missing : (k : ℕ) (m : List (ℕ × Open)) → find k m ≡ none → erase k m ≡ m
erase-missing k [] e = refl
erase-missing k ((j, o) ∷ m) e = elim (Bool-cases (j == k)) [
  | inl same ↦ ground arith
  | inr other ↦ rw other (ap (λ t. (j, o) ∷ t) (erase-missing k m (ground arith)))
]

-- Some open of the node is there exactly if its list of opens is not empty.
abbrev is_cons : List Open → Bool
is_cons [] = false
is_cons (o ∷ os) = true

has_node-opens_of : (n : ℕ) (m : List (ℕ × Open)) → has_node n m ≡ is_cons (opens_of n m)
has_node-opens_of n [] = refl
has_node-opens_of n ((j, o) ∷ m) = ground (arith, has_node-opens_of n m)

opens_of-node :
    (n : ℕ) (m : List (ℕ × Open)) (o : Open) (os : List Open)
    → opens_of n m ≡ o ∷ os
    → o.durable_file_id ≡ n
opens_of-node n [] o os e = cc
opens_of-node n ((j, p) ∷ m) o os e = elim (Bool-cases (p.durable_file_id == n)) [
  | inl same ↦ ground arith
  | inr other ↦ opens_of-node n m o os (ground arith)
]

find-opens_of :
    (n : ℕ) (m : List (ℕ × Open)) (o : Open) (os : List Open)
    → IsKeyed m
    → opens_of n m ≡ o ∷ os
    → find o.file_id m ≡ some o
find-opens_of n [] o os k e = cc
find-opens_of n ((j, p) ∷ m) o os (key, fresh, k) e = elim (Bool-cases (p.durable_file_id == n)) [
  | inl same ↦ ground arith
  | inr other ↦ let rest = find-opens_of n m o os k (ground arith) in ground arith
]

-- Taking out the first open of a node leaves the others.
opens_of-erase :
    (n : ℕ) (m : List (ℕ × Open)) (o : Open) (os : List Open)
    → IsKeyed m
    → opens_of n m ≡ o ∷ os
    → opens_of n (erase o.file_id m) ≡ os
opens_of-erase n [] o os k e = cc
opens_of-erase n ((j, p) ∷ m) o os (key, fresh, k) e = elim (Bool-cases (p.durable_file_id == n)) [
  | inl same ↦
      let first : p ≡ o = ground arith in
      let others : opens_of n m ≡ os = ground arith in
      let hit : (j == o.file_id) ≡ true = ground arith in
      let gone : find o.file_id m ≡ none = ground arith in
      rw (hit, erase-missing o.file_id m gone) others
  | inr other ↦
      let later : opens_of n m ≡ o ∷ os = ground arith in
      let here = find-opens_of n m o os k later in
      let miss : (j == o.file_id) ≡ false = ground arith in
      rw (miss, other) (opens_of-erase n m o os k later)
]

close_open_one :
    (n : ℕ) (s : Server) (o : Open) (os : List Open)
    → IsKeyed s.opens
    → is_delete_pending n s ≡ true
    → opens_of n s.opens ≡ o ∷ os
    → ((close_open o s).1 ≡ not (is_cons os))
      × (is_delete_pending n (close_open o s).0 ≡ is_cons os)
close_open_one n s o os k pending e =
    let node = opens_of-node n s.opens o os e in
    let others = ap is_cons (opens_of-erase n s.opens o os k e) in
    ground (
      arith,
      close_open-unlinks o s,
      close_open-leaves o s n n,
      has_node-opens_of n (erase o.file_id s.opens),
    )

-- Once a node is delete-pending, closing its opens one after the other, in the order of the table,
-- asks for the unlink at the last of them and at no other.
pub close_all-unlinks_last :
    (n : ℕ) (s : Server) (o : Open) (os : List Open)
    → IsKeyed s.opens
    → is_delete_pending n s ≡ true
    → opens_for_node n s ≡ o ∷ os
    → close_all (o ∷ os) s ≡ replicate (length os) false ++ true ∷ []
unfolding opens_for_node
close_all-unlinks_last n s o [] k pending e =
    ap (λ b. b ∷ []) (close_open_one n s o [] k pending e).0
close_all-unlinks_last n s o (p ∷ os) k pending e =
    let (now, still) = close_open_one n s o (p ∷ os) k pending e in
    let rest = ap (opens_of n) (close_open-opens o s) ∙ opens_of-erase n s.opens o (p ∷ os) k e in
    let keyed : IsKeyed (close_open o s).0.opens =
      rw (close_open-opens o s) (erase-IsKeyed o.file_id s.opens k) in
    ap₂ ◌∷◌ now (close_all-unlinks_last n (close_open o s).0 p os keyed still rest)
