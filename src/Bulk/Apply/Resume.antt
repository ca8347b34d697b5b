-- ===== src/Bulk/Apply/Resume.antt =====
-- bulk/backend.go, `apply`: it ends, and it can be taken up at any checkpoint.
use go_smb.Common.{
  ℕ, zero, suc, ◌+◌, ◌≤◌, ◌<◌, ◌≡◌, refl, sym, subst, ◌⊎◌, ◌∙◌, inl, inr, Option, none, some, List,
  [], ◌∷◌, length, drop, if◌then◌else◌, Bool-cases, arith,
}
use go_smb.Common.Texts.{Text, equal_bytes}
use go_smb.Bulk.{Operation}
use go_smb.Bulk.WriteRun.{Paths, apply_write_run}
use go_smb.Bulk.Apply.{Fs, Error, write_type}
use go_smb.Bulk.Apply.Loop.{
  Turn, finished, failed, next, kept, turn, write_turn, take_writes, apply, applied, apply_failed,
  apply_op, and_then,
}

drop_all : {A : Type 0} (n : ℕ) (xs : List A) → length xs ≤ n → drop n xs ≡ []
drop_all zero [] h = refl
drop_all zero (x ∷ xs) h = absurd (omega (arith, h))
drop_all (suc n) [] h = refl
drop_all (suc n) (x ∷ xs) h = drop_all n xs (omega (arith, h))

drop-length :
    {A : Type 0} (n : ℕ) (xs : List A) (x : A) (rest : List A)
    → drop n xs ≡ x ∷ rest
    → length xs ≡ n + suc (length rest)
drop-length zero xs x rest e = rw e (omega arith)
drop-length (suc n) [] x rest e = cc e
drop-length (suc n) (y ∷ ys) x rest e =
    let later = drop-length n ys x rest e in omega (arith, later)

take_writes-length : (ops : List Operation) → length (take_writes ops) ≤ length ops
take_writes-length [] = omega arith
take_writes-length (op ∷ ops) = ground (arith, take_writes-length ops)

module _ {D : Type 0} (fs : Fs D) (paths : Paths) (root : Text) (ops : List Operation)
    (checkpoint : ℕ → D → D × Option Error) where
  abbrev Advances : ℕ → Turn D → Type 0
  Advances i finished = Unit
  Advances i (failed d) = Unit
  Advances i (next j d) = i < j

  kept-Advances : (i j : ℕ) (r : D × Option Error) → i < j → Advances i (kept fs paths root j r)
  kept-Advances i j (d, none) h = h
  kept-Advances i j (d, some e) h = tt

  write_turn-Advances :
      (run : List Operation) (i : ℕ) (d : D)
      → 0 < length run
      → Advances i (write_turn fs paths root run checkpoint i d)
  write_turn-Advances run i d h =
      let written = apply_write_run fs.disk paths root run d in
      elim (Bool-cases written.1) [
        | inl e ↦
            rw e (
              kept-Advances i (i + length run) (checkpoint (i + length run) written.0)
                (omega arith))
        | inr e ↦ rw e tt
      ]

  turn-Advances : (i : ℕ) (d : D) → Advances i (turn fs paths root ops checkpoint i d)
  unfolding turn
  turn-Advances i d =
      elim (drop i ops)
        as (λ l. Advances i (elim l [
          | [] ↦ finished
          | op ∷ later ↦
              if equal_bytes op.type write_type
              then write_turn fs paths root (op ∷ take_writes later) checkpoint i d
              else kept fs paths root (i + 1)
                  (and_then (apply_op fs paths root op later d) (checkpoint (i + 1)))
        ])) [
          | [] ↦ tt
          | op ∷ later ↦ elim (Bool-cases (equal_bytes op.type write_type)) [
            | inl e ↦ rw e (write_turn-Advances (op ∷ take_writes later) i d (omega arith))
            | inr e ↦ rw e (kept-Advances i (i + 1) _ (omega arith))
          ]
        ]

  next-later : (i j : ℕ) (d e : D) → turn fs paths root ops checkpoint i d ≡ next j e → i < j
  next-later i j d e h = subst (Advances i) h (turn-Advances i d)

  turn-end : (i : ℕ) (d : D) → length ops ≤ i → turn fs paths root ops checkpoint i d ≡ finished
  unfolding turn
  turn-end i d h = rw (turn, drop_all i ops h) refl

  Turn-cases :
      (t : Turn D)
      → (t ≡ finished) ⊎ (((d : D) × (t ≡ failed d)) ⊎ ((j : ℕ) × (d : D) × (t ≡ next j d)))
  Turn-cases finished = inl refl
  Turn-cases (failed d) = inr (inl (d, refl))
  Turn-cases (next j d) = inr (inr (j, d, refl))

  -- The loop ends, with or without an error, on fuel for one turn more than there are operations left.
  pub apply-ends :
      (fuel i : ℕ) (d : D)
      → length ops ≤ i + fuel
      → (d' : D) × ((apply fs paths root (suc fuel) ops checkpoint i d ≡ applied d')
          ⊎ (apply fs paths root (suc fuel) ops checkpoint i d ≡ apply_failed d'))
  unfolding apply
  apply-ends zero i d h = (d, inl (rw (apply, turn-end i d (omega (arith, h))) refl))
  apply-ends (suc fuel) i d h = elim (Turn-cases (turn fs paths root ops checkpoint i d)) [
    | inl e ↦ (d, inl (rw (apply, e) refl))
    | inr (inl (d', e)) ↦ (d', inr (rw (apply, e) refl))
    | inr (inr (j, d', e)) ↦
        let later = next-later i j d d' e in rw (apply, e) (apply-ends fuel j d' (omega arith))
  ]

  apply-fuel :
      (f g i : ℕ) (d : D)
      → length ops ≤ i + f
      → length ops ≤ i + g
      → apply fs paths root (suc f) ops checkpoint i d
        ≡ apply fs paths root (suc g) ops checkpoint i d
  unfolding apply
  apply-fuel zero g i d hf hg = rw (apply, turn-end i d (omega (arith, hf))) refl
  apply-fuel (suc f) zero i d hf hg = rw (apply, turn-end i d (omega (arith, hg))) refl
  apply-fuel (suc f) (suc g) i d hf hg = elim (Turn-cases (turn fs paths root ops checkpoint i d)) [
    | inl e ↦ rw (apply, e) refl
    | inr (inl (d', e)) ↦ rw (apply, e) refl
    | inr (inr (j, d', e)) ↦
        let later = next-later i j d d' e in
        rw (apply, e) (apply-fuel f g j d' (omega arith) (omega arith))
  ]

  apply-next :
      (fuel i k : ℕ) (d e : D)
      → turn fs paths root ops checkpoint i d ≡ next k e
      → apply fs paths root (suc fuel) ops checkpoint i d
        ≡ apply fs paths root fuel ops checkpoint k e
  unfolding apply
  apply-next fuel i k d e h = rw (apply, h) refl

  -- The turns of the loop from an index and a disk on, up to those that a checkpoint has.
  pub data Reaches : ℕ → D → ℕ → D → Type 0 where
    here : (i : ℕ) (d : D) → Reaches i d i d
    there :
        (i k j : ℕ) (d e d' : D)
        → turn fs paths root ops checkpoint i d ≡ next k e
        → Reaches k e j d'
        → Reaches i d j d'

  -- A turn that goes on has written the checkpoint of the index it goes on at.
  abbrev Checked : Turn D → Type 0
  Checked finished = Unit
  Checked (failed d) = Unit
  Checked (next j e) = (j ≤ length ops) × ((d : D) × (checkpoint j d ≡ (e, none)))

  kept-Checked :
      (j : ℕ) (d : D) (r : D × Option Error)
      → j ≤ length ops
      → checkpoint j d ≡ r
      → Checked (kept fs paths root j r)
  kept-Checked j d (e, none) small made = (small, (d, made))
  kept-Checked j d (e, some x) small made = tt

  write_turn-Checked :
      (run : List Operation) (i : ℕ) (d : D)
      → i + length run ≤ length ops
      → Checked (write_turn fs paths root run checkpoint i d)
  write_turn-Checked run i d small =
      let written = apply_write_run fs.disk paths root run d in
      elim (Bool-cases written.1) [
        | inl e ↦ rw e (kept-Checked (i + length run) written.0 _ small refl)
        | inr e ↦ rw e tt
      ]

  then-Checked :
      (j : ℕ) (r : D × Option Error)
      → j ≤ length ops
      → Checked (kept fs paths root j (and_then r (checkpoint j)))
  then-Checked j (d, none) small = kept-Checked j d _ small refl
  then-Checked j (d, some x) small = tt

  turn-Checked : (i : ℕ) (d : D) → Checked (turn fs paths root ops checkpoint i d)
  unfolding turn
  turn-Checked i d = on (drop i ops) refl
    where
      on :
          (l : List Operation)
          → drop i ops ≡ l
          → Checked (elim l [
            | [] ↦ finished
            | op ∷ later ↦
                if equal_bytes op.type write_type
                then write_turn fs paths root (op ∷ take_writes later) checkpoint i d
                else kept fs paths root
                    (i + 1)
                    (and_then (apply_op fs paths root op later d) (checkpoint (i + 1)))
          ])
      on [] e = tt
      on (op ∷ later) e =
          let all = drop-length i ops op later e in
          elim (Bool-cases (equal_bytes op.type write_type)) [
            | inl w ↦
                let run = take_writes-length later in
                rw w (write_turn-Checked (op ∷ take_writes later) i d (omega (arith, all, run)))
            | inr w ↦ rw w (then-Checked (i + 1) _ (omega (arith, all)))
          ]

  -- Behind the start, the disk that the loop reaches is one whose checkpoint was written.
  pub Reaches-Checked :
      (i j : ℕ) (d d' : D)
      → Reaches i d j d'
      → ((j ≡ i) × (d' ≡ d)) ⊎ ((j ≤ length ops) × ((e : D) × (checkpoint j e ≡ (d', none))))
  Reaches-Checked i _ d _ (here _ _) = inl (refl, refl)
  Reaches-Checked i j d d' (there _ k _ _ e _ step rest) = elim (Reaches-Checked k j e d' rest) [
    | inl (at, same) ↦
        let (small, (d1, made)) = subst Checked step (turn-Checked i d) in
        inr (rw at small, (d1, rw (at, same) made))
    | inr written ↦ inr written
  ]

  -- Taken up at any checkpoint that the loop reaches, with the disk as it was there, `apply` ends as it does
  -- without the interruption.
  pub apply-resumes :
      (fuel i j : ℕ) (d d' : D)
      → Reaches i d j d'
      → length ops ≤ i + fuel
      → apply fs paths root (suc fuel) ops checkpoint j d'
        ≡ apply fs paths root (suc fuel) ops checkpoint i d
  apply-resumes fuel i _ d _ (here _ _) h = refl
  apply-resumes zero i j d d' (there _ k _ _ e _ step rest) h =
      let over = turn-end i d (omega (arith, h)) in cc (over, step)
  apply-resumes (suc fuel) i j d d' (there _ k _ _ e _ step rest) h =
      let later = next-later i k d e step in
      apply-resumes (suc fuel) k j e d' rest (omega (arith, h, later))
      ∙ apply-fuel (suc fuel) fuel k e (omega (arith, h, later)) (omega (arith, h, later))
      ∙ sym (apply-next (suc fuel) i k d e step)
