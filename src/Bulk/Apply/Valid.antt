-- ===== src/Bulk/Apply/Valid.antt =====
-- bulk/backend.go, `validateBatch`: what the batches that pass it satisfy.
use go_smb.Common.{
  ℕ, ◌≤◌, ◌<◌, ◌≡◌, ◌↔◌, refl, inl, inr, Bool, true, false, Option, none, some, List, [], ◌∷◌,
  length, if◌then◌else◌, Bool-cases, arith, ltb, ◌==◌, ◌!=◌, ◌&&◌, ◌||◌,
}
use go_smb.Common.Texts.{equal_bytes}
use go_smb.Bulk.{Operation, Batch}
use go_smb.Bulk.Apply.{in_order, validate_batch, write_type}

-- An operation within the bounds of its batch and not before the one ahead of it; a write has as many bytes as it says.
abbrev pub IsWithin : ℕ → ℕ → ℕ → Operation → Type 0
IsWithin low first last op =
    (first ≤ op.seq)
    × (op.seq ≤ last)
    × (low ≤ op.seq)
    × ((equal_bytes op.type write_type ≡ true) → length op.content ≡ op.length)

abbrev pub IsOrdered : ℕ → ℕ → ℕ → List Operation → Type 0
IsOrdered low first last [] = Unit
IsOrdered low first last (op ∷ ops) = IsWithin low first last op × IsOrdered op.seq first last ops

abbrev bound : Option ℕ → ℕ
bound none = 0
bound (some n) = n

module _ (low first last s n m : ℕ) (w early rest : Bool) (e : early ≡ ltb s low) where
  abbrev passed : Bool
  passed =
      if ltb s first || (ltb last s || early) then false else if w && n != m then false else rest

  passed_sound :
      passed ≡ true → (first ≤ s) × (s ≤ last) × (low ≤ s) × (w ≡ true → n ≡ m) × (rest ≡ true)
  passed_sound h = (ground arith, ground arith, ground arith, λ f. ground arith, ground arith)

  passed_complete :
      first ≤ s → s ≤ last → low ≤ s → (w ≡ true → n ≡ m) → rest ≡ true → passed ≡ true
  passed_complete a b c d r = elim (Bool-cases w) [
    | inl f ↦ let same = d f in ground arith
    | inr f ↦ ground arith
  ]

in_order_iff :
    (batch : Batch) (previous : Option ℕ) (ops : List Operation)
    → (in_order batch previous ops ≡ true)
      ↔ IsOrdered (bound previous) batch.first_seq batch.last_seq ops
in_order_iff batch previous [] = (λ h. tt, λ h. refl)
in_order_iff batch none (op ∷ ops) =
    let (to, from) = in_order_iff batch (some op.seq) ops in
    let rest = in_order batch (some op.seq) ops in
    let w = equal_bytes op.type write_type in
    (
      λ h.
          let (a, b, c, d, r) =
            passed_sound 0 batch.first_seq batch.last_seq op.seq (length op.content) op.length w
              false rest (ground arith) h in
          ((a, b, c, d), to r),
      λ h.
          let ((a, b, c, d), r) = h in
          passed_complete 0 batch.first_seq batch.last_seq op.seq (length op.content) op.length w
            false rest (ground arith) a b c d (from r),
    )
in_order_iff batch (some n) (op ∷ ops) =
    let (to, from) = in_order_iff batch (some op.seq) ops in
    let rest = in_order batch (some op.seq) ops in
    let w = equal_bytes op.type write_type in
    (
      λ h.
          let (a, b, c, d, r) =
            passed_sound n batch.first_seq batch.last_seq op.seq (length op.content) op.length w
              (ltb op.seq n) rest refl h in
          ((a, b, c, d), to r),
      λ h.
          let ((a, b, c, d), r) = h in
          passed_complete n batch.first_seq batch.last_seq op.seq (length op.content) op.length w
            (ltb op.seq n) rest refl a b c d (from r),
    )

module _ (r b o f l : ℕ) (rest : Bool) where
  abbrev checks : Bool
  checks = if r == 0 || (b == 0 || o == 0) then false else if f == 0 || ltb l f then false else rest

  checks_sound : checks ≡ true → (0 < r) × (0 < b) × (0 < o) × (0 < f) × (f ≤ l) × (rest ≡ true)
  checks_sound h =
      (ground arith, ground arith, ground arith, ground arith, ground arith, ground arith)

  checks_complete : 0 < r → 0 < b → 0 < o → 0 < f → f ≤ l → rest ≡ true → checks ≡ true
  checks_complete hr hb ho hf hl h = ground arith

-- What `CommitReady` asks of a batch.
abbrev pub IsValid : Batch → Type 0
IsValid batch =
    (0 < length batch.relay_id)
    × (0 < length batch.batch_id)
    × (0 < length batch.operations)
    × (0 < batch.first_seq)
    × (batch.first_seq ≤ batch.last_seq)
    × IsOrdered 0 batch.first_seq batch.last_seq batch.operations

-- A batch passes the check just if its ids and its operations are not empty, its bounds are in order and do not begin at 0, and
-- the numbers of its operations are within the bounds and do not decrease, where each write has as many bytes as its length says.
pub validate_batch_iff : (batch : Batch) → (validate_batch batch ≡ true) ↔ IsValid batch
unfolding validate_batch
validate_batch_iff batch =
    let (to, from) = in_order_iff batch none batch.operations in
    let rest = in_order batch none batch.operations in
    let r = length batch.relay_id in
    let b = length batch.batch_id in
    let o = length batch.operations in
    (
      λ h.
          let (r', b', o', f', l', ordered) =
            checks_sound r b o batch.first_seq batch.last_seq rest h in
          (r', b', o', f', l', to ordered),
      λ h.
          let (r', b', o', f', l', ordered) = h in
          checks_complete r b o batch.first_seq batch.last_seq rest r' b' o' f' l' (from ordered),
    )
