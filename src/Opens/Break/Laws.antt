-- ===== src/Opens/Break/Laws.antt =====
-- server/server.go and server/file_tree.go: repeated breaks, and acknowledgments.
use go_smb.Common.{
  ℕ, ◌≡◌, refl, true, false, Option, none, some, List, [], ◌∷◌, arith, ◌==◌, inl, inr, Bool-cases,
  if◌then◌else◌, ap, ◌!=◌, ==_refl, ◌∙◌,
}
use go_smb.Common.Assoc.{find, insert, find-insert}
use go_smb.Opens.Table.{Open, Lease, Server, get_open}
use go_smb.Opens.Break.{
  break_open, send_lease_break, send_lease_break_of, send_oplock_break, break_node, break_entries,
  oplock_ack, oplock_ack_open, acknowledged, invalid_device_state, oplock_level_none,
  oplock_level_lease, oplock_level_ii, is_breaking, settle,
}

-- What a lease break keeps of the open.
lease_break-keeps :
    (l : Option Lease) (o : Open)
    → ((send_lease_break_of l o).0.connected ≡ o.connected)
      × ((send_lease_break_of l o).0.oplock_level ≡ o.oplock_level)
      × ((send_lease_break_of l o).0.durable_file_id ≡ o.durable_file_id)
lease_break-keeps none o = (refl, refl, refl)
lease_break-keeps (some l) o = ground arith

lease_break_twice :
    (l : Option Lease) (o : Open)
    → o.lease ≡ l
    → let p = (send_lease_break_of l o).0 in send_lease_break_of p.lease p ≡ (p, none)
lease_break_twice none o e = rw e
lease_break_twice (some l) o e = elim (Bool-cases l.breaking) [
  | inl b ↦ rw (b, e) (rw b)
  | inr b ↦ rw b
]

oplock_break_twice :
    (o : Open)
    → o.connected ≡ true
    → (o.oplock_level == oplock_level_none) ≡ false
    → (o.oplock_level == oplock_level_lease) ≡ false
    → break_open (send_oplock_break o).0 ≡ ((send_oplock_break o).0, none)
unfolding break_open send_oplock_break
oplock_break_twice o c n l = elim (Bool-cases (is_breaking o.oplock_state)) [
  | inl b ↦ rw (b, c, n, l) (rw b)
  | inr b ↦ elim (Bool-cases (o.oplock_level == oplock_level_ii)) [
    | inl two ↦ rw (b, two, c)
    | inr other ↦ rw (b, other, c, n, l)
  ]
]

break_open-deaf : (o : Open) → o.connected ≡ false → break_open o ≡ (o, none)
unfolding break_open
break_open-deaf o c = rw c

break_open-none :
    (o : Open) → (o.oplock_level == oplock_level_none) ≡ true → break_open o ≡ (o, none)
unfolding break_open
break_open-none o n = elim (Bool-cases o.connected) [
  | inl c ↦ rw n (ground arith)
  | inr c ↦ break_open-deaf o c
]

break_open-lease :
    (o : Open)
    → o.connected ≡ true
    → (o.oplock_level == oplock_level_lease) ≡ true
    → break_open o ≡ send_lease_break_of o.lease o
unfolding break_open send_lease_break
break_open-lease o c l = ground arith

break_open-oplock :
    (o : Open)
    → o.connected ≡ true
    → (o.oplock_level == oplock_level_none) ≡ false
    → (o.oplock_level == oplock_level_lease) ≡ false
    → break_open o ≡ send_oplock_break o
unfolding break_open
break_open-oplock o c n l = ground arith

-- A second break of an open sends nothing and changes nothing: no notification is repeated while
-- the client's answer is outstanding, and none is sent to an open that has nothing left to break.
pub break_open-twice : (o : Open) → break_open (break_open o).0 ≡ ((break_open o).0, none)
break_open-twice o = elim (Bool-cases o.connected) [
  | inr c ↦ let e = break_open-deaf o c in rw (e, e)
  | inl c ↦ elim (Bool-cases (o.oplock_level == oplock_level_none)) [
    | inl n ↦ let e = break_open-none o n in rw (e, e)
    | inr n ↦ elim (Bool-cases (o.oplock_level == oplock_level_lease)) [
      | inr l ↦ rw (break_open-oplock o c n l) (oplock_break_twice o c n l)
      | inl l ↦
          let (c', l', _) = lease_break-keeps o.lease o in
          rw (break_open-lease o c l) (
            break_open-lease (send_lease_break_of o.lease o).0 (c' ∙ c)
              (ap (λ n. n == oplock_level_lease) l' ∙ l)
            ∙ lease_break_twice o.lease o refl)
    ]
  ]
]

break_open-node : (o : Open) → (break_open o).0.durable_file_id ≡ o.durable_file_id
unfolding break_open send_oplock_break send_lease_break
break_open-node o = ground (arith, lease_break-keeps o.lease o)

break_entries-twice :
    (node : ℕ) (m : List (ℕ × Open))
    → break_entries node (break_entries node m).0 ≡ ((break_entries node m).0, [])
break_entries-twice node [] = refl
break_entries-twice node ((k, o) ∷ m) = elim (Bool-cases (o.durable_file_id == node)) [
  | inl same ↦ rw (same, break_open-node o, same, break_open-twice o, break_entries-twice node m)
  | inr other ↦ rw (other, other, break_entries-twice node m)
]

-- Breaking a node twice sends nothing the second time.
break_node-twice :
    (node : ℕ) (s : Server) → break_node node (break_node node s).0 ≡ ((break_node node s).0, [])
unfolding break_node
break_node-twice node s = rw (break_entries-twice node s.opens)

-- An acknowledgment of a break of an open that stands in the table, for the right node, is taken
-- exactly if a break is in progress; then the open has the level of the answer and is no longer
-- breaking, so that a second acknowledgment is refused.
pub oplock_ack_lem :
    (file_id node level again : ℕ) (s : Server) (o : Open)
    → get_open file_id s ≡ some o
    → o.durable_file_id ≡ node
    → let (t, r) = oplock_ack file_id node level s in
      (r ≡ (if is_breaking o.oplock_state then acknowledged else invalid_device_state))
      × (get_open file_id t ≡ some (if is_breaking o.oplock_state then settle level o else o))
      × ((oplock_ack file_id node again t).1 ≡ invalid_device_state)
unfolding oplock_ack get_open
oplock_ack_lem file_id node level again s o found_open same =
    elim (Bool-cases (is_breaking o.oplock_state)) [
      | inl b ↦
          let right : (o.durable_file_id != node) ≡ false = ground arith in
          let stored : find file_id (insert file_id (settle level o) s.opens)
              ≡ some (settle level o) =
            find-insert file_id file_id (settle level o) s.opens ∙ rw (==_refl file_id) in
          rw (found_open, oplock_ack_open, right, b)
            (refl, stored, rw (stored, oplock_ack_open, right) (ground arith))
      | inr b ↦
          let right : (o.durable_file_id != node) ≡ false = ground arith in
          rw (found_open, oplock_ack_open, right, b)
            (refl, found_open, rw (found_open, oplock_ack_open, right, b))
    ]
