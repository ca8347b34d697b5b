-- ===== src/Opens/Table/Keyed.antt =====
-- server/server.go: under which keys the opens stand.
use go_smb.Common.{
  ℕ, ◌≡◌, refl, Bool, none, some, List, [], ◌∷◌, arith, ◌==◌, inl, inr, Bool-cases, Option-cases,
  subst, >>=-eq-some,
}
use mathlib.Core.Option.{some-injective}
use go_smb.Common.Assoc.{find, insert, erase, find-insert, find-erase}
use go_smb.Opens.Table.{
  Open, Server, add_open, delete_open, delete_found, close_open, set_delete_pending, TableOp, adds,
  deletes, closes, disposes, apply_op, run_ops,
}

abbrev pub IsKeyed : List (ℕ × Open) → Type 0
IsKeyed [] = Unit {0}
IsKeyed ((k, o) ∷ m) = (k ≡ o.file_id) × (find k m ≡ none) × IsKeyed m

pub insert-IsKeyed : (o : Open) (m : List (ℕ × Open)) → IsKeyed m → IsKeyed (insert o.file_id o m)
insert-IsKeyed o [] h = (refl, refl, tt)
insert-IsKeyed o ((j, p) ∷ m) (e, fresh, h) = elim (Bool-cases (j == o.file_id)) [
  | inl same ↦ rw same (refl, ground arith, h)
  | inr other ↦ rw other (e, ground (arith, find-insert o.file_id j o m), insert-IsKeyed o m h)
]

pub erase-IsKeyed : (i : ℕ) (m : List (ℕ × Open)) → IsKeyed m → IsKeyed (erase i m)
erase-IsKeyed i [] h = tt
erase-IsKeyed i ((j, p) ∷ m) (e, fresh, h) = elim (Bool-cases (j == i)) [
  | inl same ↦ rw same (erase-IsKeyed i m h)
  | inr other ↦ rw other (e, ground (arith, find-erase i j m), erase-IsKeyed i m h)
]

-- The opens after an operation are those before it with one put in or taken out.
add_open-opens :
    (o : Open) (s t : Server) → add_open o s ≡ some t → t.opens ≡ insert o.file_id o s.opens
unfolding add_open
add_open-opens o s t e = elim (Bool-cases o.is_durable) [
  | inl d ↦ ground arith
  | inr d ↦ ground arith
]

pub close_open-opens : (o : Open) (s : Server) → (close_open o s).0.opens ≡ erase o.file_id s.opens
unfolding close_open
close_open-opens o s = ground arith

set_delete_pending-opens :
    (node : ℕ) (pending : Bool) (s : Server) → (set_delete_pending node pending s).opens ≡ s.opens
unfolding set_delete_pending
set_delete_pending-opens node pending s = ground arith

delete_open-IsKeyed : (i : ℕ) (s : Server) → IsKeyed s.opens → IsKeyed (delete_open i s).opens
unfolding delete_open
delete_open-IsKeyed i s h = elim (Option-cases (find i s.opens)) [
  | inl e ↦ rw (e, delete_found) h
  | inr (o, e) ↦
      rw (e, delete_found)
        (elim (Bool-cases o.is_durable) [
          | inl d ↦ rw d (erase-IsKeyed i s.opens h)
          | inr d ↦ rw d (erase-IsKeyed i s.opens h)
        ])
]

apply_op-IsKeyed :
    (op : TableOp) (s t : Server) → IsKeyed s.opens → apply_op op s ≡ some t → IsKeyed t.opens
unfolding apply_op
apply_op-IsKeyed (adds o) s t h e = rw (add_open-opens o s t e) (insert-IsKeyed o s.opens h)
apply_op-IsKeyed (deletes i) s t h e =
    subst (λ u. IsKeyed u.opens) (some-injective _ _ e) (delete_open-IsKeyed i s h)
apply_op-IsKeyed (closes o) s t h e =
    subst (λ u. IsKeyed u.opens) (some-injective _ _ e)
      (rw (close_open-opens o s) (erase-IsKeyed o.file_id s.opens h))
apply_op-IsKeyed (disposes node pending) s t h e =
    subst (λ u. IsKeyed u.opens) (some-injective _ _ e)
      (rw (set_delete_pending-opens node pending s) h)

-- After any history of adding, deleting and closing opens and of dispositions that ends without a
-- panic, every open of the table stands under its own file id, and no id stands there twice, if
-- that was so before.
pub run_ops-IsKeyed :
    (ops : List TableOp) (s t : Server) → IsKeyed s.opens → run_ops ops s ≡ some t → IsKeyed t.opens
run_ops-IsKeyed [] s t h e = subst (λ u. IsKeyed u.opens) (some-injective _ _ e) h
run_ops-IsKeyed (op ∷ ops) s t h e =
    let (u, first, rest) = >>=-eq-some (apply_op op s) (run_ops ops) e in
    run_ops-IsKeyed ops u t (apply_op-IsKeyed op s u h first) rest
