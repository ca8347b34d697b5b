-- ===== src/Bulk/Commit/Laws.antt =====
-- bulk/backend.go, `CommitReady`: a package that comes again.
use go_smb.Common.{
  ℕ, ◌+◌, ◌%◌, ◌^◌, ◌≤◌, ◌≡◌, refl, subst, ap, ◌∙◌, inl, inr, Bool, true, false, not, ◌||◌, Option,
  none, some, List, ltb, leb, if◌then◌else◌, >>=-eq-some, Bool-cases, Option-cases, arith,
}
use go_smb.Common.Texts.{Text, equal_bytes, equal_bytes_refl, equal_bytes-eq}
use go_smb.Bytes.{of_list}
use go_smb.Bulk.{Formats, Batch, decode}
use go_smb.Bulk.WriteRun.{Paths}
use go_smb.Bulk.Apply.{Fs, Error, validate_batch}
use go_smb.Bulk.Apply.Loop.{Applied, applied, apply_failed, no_fuel}
use go_smb.Bulk.Commit.{
  Receipt, Journal, protocol_name, Committed, receipted, refused, too_long, hash_of, acknowledge,
  finish, apply_from, apply_from_progress, commit_batch, commit_decoded, commit_bytes, commit_ready,
}

module _ {D : Type 0} (fmt : Formats) (fs : Fs D) (journal : Journal D) (paths : Paths)
    (root : Text) where
  -- The receipt is one of the batch's relay, up to its end at least.
  abbrev Covers : Batch → Committed D → Type 0
  Covers batch (receipted d r) =
      (equal_bytes r.protocol protocol_name ≡ true)
      × (r.relay_id ≡ batch.relay_id)
      × (batch.last_seq ≤ r.last_seq)
  Covers batch (refused d) = Unit

  acknowledge-Covers :
      (batch : Batch) (hash : Text) (w : D × Option Error)
      → Covers batch (acknowledge fmt fs journal paths root batch hash w)
  acknowledge-Covers batch hash (d, none) = (equal_bytes_refl protocol_name, refl, omega arith)
  acknowledge-Covers batch hash (d, some e) = tt

  finish-Covers :
      (batch : Batch) (hash : Text) (d : D) (a : Applied D)
      → Covers batch (finish fmt fs journal paths root batch hash d a)
  finish-Covers batch hash d (applied d') = acknowledge-Covers batch hash _
  finish-Covers batch hash d (apply_failed d') = tt
  finish-Covers batch hash d no_fuel = tt

  apply_from-Covers :
      (batch : Batch) (hash : Text) (d : D) (start : Option ℕ)
      → Covers batch (apply_from fmt fs journal paths root batch hash d start)
  apply_from-Covers batch hash d none = tt
  apply_from-Covers batch hash d (some start) = finish-Covers batch hash d _

  apply_from_progress-Covers :
      (batch : Batch) (hash : Text) (d : D)
      → Covers batch (apply_from_progress fmt fs journal paths root batch hash d)
  unfolding apply_from_progress
  apply_from_progress-Covers batch hash d = elim (Option-cases (journal.progress d)) [
    | inl e ↦ rw (apply_from_progress, e) tt
    | inr (file, e) ↦ rw (apply_from_progress, e) (apply_from-Covers batch hash d _)
  ]

  Covers-if :
      (batch : Batch) (b : Bool) (x y : Committed D)
      → (b ≡ true → Covers batch x)
      → (b ≡ false → Covers batch y)
      → Covers batch (if b then x else y)
  Covers-if batch true x y l r = l refl
  Covers-if batch false x y l r = r refl

  both : (a b : Bool) → (not a || not b) ≡ false → (a ≡ true) × (b ≡ true)
  both true true h = (refl, refl)
  both true false h = cc h
  both false b h = cc h

  commit_batch-Covers :
      (batch : Batch) (hash : Text) (d : D)
      → Covers batch (commit_batch fmt fs journal paths root batch hash d)
  unfolding commit_batch
  commit_batch-Covers batch hash d = elim (Option-cases (journal.receipt batch.relay_id d)) [
    | inl e ↦ rw (commit_batch, e) (apply_from_progress-Covers batch hash d)
    | inr (r, e) ↦
        let other =
          not (equal_bytes r.protocol protocol_name)
          || not (equal_bytes r.relay_id batch.relay_id) in
        let late = leb batch.last_seq r.last_seq in
        let gap = ltb ((r.last_seq + 1) % 2 ^ 64) batch.first_seq in
        let fresh = apply_from_progress fmt fs journal paths root batch hash d in
        let again : Committed D = receipted (journal.remove_artifacts d) r in
        rw (commit_batch, e)
          (Covers-if batch other (refused d)
            (if late then again else if gap then refused d else fresh) (λ h. tt)
            (λ h.
              Covers-if batch late again (if gap then refused d else fresh)
                (λ done.
                  let (protocol, relay) = both _ _ h in
                  (protocol, equal_bytes-eq r.relay_id batch.relay_id relay, ground arith))
                (λ newer.
                  Covers-if batch gap (refused d) fresh (λ skipped. tt)
                    (λ next. apply_from_progress-Covers batch hash d))))
  ]

  -- What a receipt that covers the batch makes of it.
  commit_batch-again :
      (batch : Batch) (hash : Text) (d : D) (r : Receipt)
      → journal.receipt batch.relay_id d ≡ some r
      → equal_bytes r.protocol protocol_name ≡ true
      → r.relay_id ≡ batch.relay_id
      → batch.last_seq ≤ r.last_seq
      → commit_batch fmt fs journal paths root batch hash d
        ≡ receipted (journal.remove_artifacts d) r
  unfolding commit_batch
  commit_batch-again batch hash d r e protocol relay covered =
      let same : equal_bytes r.relay_id batch.relay_id ≡ true =
        rw relay (equal_bytes_refl batch.relay_id) in
      let late : leb batch.last_seq r.last_seq ≡ true = ground arith in
      rw (commit_batch, e, protocol, same, late) refl

  commit_decoded-once :
      (hash : Text) (d d' d2 : D) (r : Receipt) (decoded : Option Batch)
      → journal.receipt r.relay_id d2 ≡ some r
      → commit_decoded fmt fs journal paths root hash d decoded ≡ receipted d' r
      → commit_decoded fmt fs journal paths root hash d2 decoded
        ≡ receipted (journal.remove_artifacts d2) r
  commit_decoded-once hash d d' d2 r none read first = cc first
  commit_decoded-once hash d d' d2 r (some batch) read first =
      elim (Bool-cases (validate_batch batch)) [
        | inl e ↦
            let ran : commit_batch fmt fs journal paths root batch hash d ≡ receipted d' r =
              rw e at first in
            let (protocol, relay, covered) =
              subst (Covers batch) ran (commit_batch-Covers batch hash d) in
            rw e (
              commit_batch-again batch hash d2 r
                (subst (λ i. journal.receipt i d2 ≡ some r) relay read) protocol relay covered)
        | inr e ↦ let none_done : refused d ≡ receipted d' r = rw e at first in cc none_done
      ]

  commit_bytes-once :
      (max_bytes : ℕ) (bytes : List ℕ) (d d' d2 : D) (r : Receipt)
      → journal.receipt r.relay_id d2 ≡ some r
      → commit_bytes fmt fs journal paths root max_bytes bytes d ≡ some (receipted d' r)
      → commit_bytes fmt fs journal paths root max_bytes bytes d2
        ≡ some (receipted (journal.remove_artifacts d2) r)
  unfolding commit_bytes
  commit_bytes-once max_bytes bytes d d' d2 r read first =
      elim (Bool-cases (too_long max_bytes bytes)) [
        | inl e ↦
            let none_done : some (refused d) ≡ some (receipted d' r) =
              rw (commit_bytes, e) at first in
            cc none_done
        | inr e ↦
            let taken = rw (commit_bytes, e) at first in
            let (decoded, at_decoded, ran) = >>=-eq-some (decode fmt (of_list bytes)) _ taken in
            let ran' : commit_decoded fmt fs journal paths root
                  (hash_of fmt fs journal paths root bytes) d decoded
                ≡ receipted d' r =
              cc ran in
            rw (commit_bytes, e, at_decoded)
              (ap (λ x. some x)
                (commit_decoded-once (hash_of fmt fs journal paths root bytes) d d' d2 r decoded
                  read ran'))
      ]

  -- A package that was committed is never applied again: where the receipt that the first time returned is the one that is read, and the same package
  -- is uploaded anew, to whatever world, it is not applied. The receipt is returned again and the package is removed.
  pub commit_ready-once :
      (max_bytes : ℕ) (d d' d2 : D) (r : Receipt)
      → commit_ready fmt fs journal paths root max_bytes d ≡ some (receipted d' r)
      → journal.ready d2 ≡ journal.ready d
      → journal.receipt r.relay_id d2 ≡ some r
      → commit_ready fmt fs journal paths root max_bytes d2
        ≡ some (receipted (journal.remove_artifacts d2) r)
  unfolding commit_ready
  commit_ready-once max_bytes d d' d2 r first same read = elim (Option-cases (journal.ready d)) [
    | inl e ↦
        let none_done : some (refused d) ≡ some (receipted d' r) = rw (commit_ready, e) at first in
        cc none_done
    | inr (bytes, e) ↦
        rw (commit_ready, same ∙ e)
          (commit_bytes-once max_bytes bytes d d' d2 r read (rw (commit_ready, e) at first))
  ]
