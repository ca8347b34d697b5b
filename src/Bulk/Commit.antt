-- ===== src/Bulk/Commit.antt =====
-- bulk/backend.go, `CommitReady`: a package that was uploaded is checked against the last receipt and its own
-- progress, applied, and acknowledged. The files of the journal are read and written through parameters.
pub mod Laws
pub mod Resume
mod Runs
use go_smb.Common.{
  ℕ, suc, ◌+◌, ◌%◌, ◌^◌, Bool, true, false, not, ◌&&◌, ◌||◌, Option, none, some, List, [], ◌∷◌,
  length, drop, ltb, leb, if◌then◌else◌, ◌>>=◌,
}
use go_smb.Common.Texts.{Text, equal_bytes}
use go_smb.Bytes.{Slice, of_list}
use go_smb.Bulk.{Formats, Batch, decode}
use go_smb.Bulk.WriteRun.{Paths}
use go_smb.Bulk.Apply.{Fs, Error, ApplyProgress, validate_batch, read_apply_progress}
use go_smb.Bulk.Apply.Loop.{apply, Applied, applied, apply_failed, no_fuel}

pub record Receipt : Type 0 where
  pub protocol : Text
  pub relay_id : Text
  pub batch_id : Text
  pub last_seq : ℕ
  pub hash : Text

-- The journal's files in a world: the ready package (`none` where it is not read or its directory is not synced), the
-- progress (`none` outside where it is not read or decoded, inside where there is none; a negative index counts as not decoded), `readReceipt` for a relay, the atomic
-- writes, and `removeApplyArtifacts`. `hex` is the textual form of the hash that `Decode` returns.
pub record Journal (D : Type 0) : Type 0 where
  pub ready : D → Option (List ℕ)
  pub progress : D → Option (Option ApplyProgress)
  pub receipt : Text → D → Option Receipt
  pub write_progress : ApplyProgress → D → D × Option Error
  pub write_receipt : Text → Receipt → D → D × Option Error
  pub remove_artifacts : D → D
  pub hex : List ℕ → Text

-- "smbrelay-bulk-journal-v2".
abbrev pub protocol_name : Text
protocol_name =
    b's' ∷ b'm' ∷ b'b' ∷ b'r' ∷ b'e' ∷ b'l' ∷ b'a' ∷ b'y' ∷ b'-' ∷ b'b' ∷ b'u' ∷ b'l' ∷ b'k' ∷ b'-'
    ∷ b'j' ∷ b'o' ∷ b'u' ∷ b'r' ∷ b'n' ∷ b'a' ∷ b'l' ∷ b'-' ∷ b'v' ∷ b'2' ∷ []

-- The world that the call leaves, with the receipt or an error.
pub data Committed (D : Type 0) : Type 0 where
  receipted : D → Receipt → Committed D
  refused : D → Committed D

abbrev pub too_long : ℕ → List ℕ → Bool
too_long max_bytes bytes = ltb 0 max_bytes && ltb max_bytes (length bytes)

module _ {D : Type 0} (fmt : Formats) (fs : Fs D) (journal : Journal D) (paths : Paths)
    (root : Text) where
  abbrev pub hash_of : List ℕ → Text
  hash_of bytes = journal.hex (fmt.sha256 (drop 52 bytes))

  -- The closure `checkpoint`.
  abbrev pub checkpoint : Batch → Text → ℕ → D → D × Option Error
  checkpoint batch hash i = journal.write_progress (record {
    version = 1;
    relay_id = batch.relay_id;
    batch_id = batch.batch_id;
    hash = hash;
    next_operation = i;
  })

  abbrev pub receipt_of : Batch → Text → Receipt
  receipt_of batch hash = record {
    protocol = protocol_name;
    relay_id = batch.relay_id;
    batch_id = batch.batch_id;
    last_seq = batch.last_seq;
    hash = hash;
  }

  -- The receipt is written once everything is applied.
  abbrev pub acknowledge : Batch → Text → D × Option Error → Committed D
  acknowledge batch hash (d, none) = receipted (journal.remove_artifacts d) (receipt_of batch hash)
  acknowledge batch hash (d, some e) = refused d

  abbrev pub finish : Batch → Text → D → Applied D → Committed D
  finish batch hash d (applied d') =
      acknowledge batch hash (journal.write_receipt batch.relay_id (receipt_of batch hash) d')
  finish batch hash d (apply_failed d') = refused d'
  finish batch hash d no_fuel = refused d

  -- From the progress that was read, if it fits the package.
  abbrev pub apply_from : Batch → Text → D → Option ℕ → Committed D
  apply_from batch hash d none = refused d
  apply_from batch hash d (some start) =
      let fuel = suc (length batch.operations) in
      finish batch hash d
        (apply fs paths root fuel batch.operations (checkpoint batch hash) start d)

  unfoldable pub apply_from_progress : Batch → Text → D → Committed D
  apply_from_progress batch hash d = elim (journal.progress d) [
    | none ↦ refused d
    | some file ↦ apply_from batch hash d (read_apply_progress file batch hash)
  ]

  -- The checks against the last receipt of the relay.
  unfoldable pub commit_batch : Batch → Text → D → Committed D
  commit_batch batch hash d = elim (journal.receipt batch.relay_id d) [
    | none ↦ apply_from_progress batch hash d
    | some previous ↦
        if not (equal_bytes previous.protocol protocol_name)
          || not (equal_bytes previous.relay_id batch.relay_id)
        then refused d
        else if leb batch.last_seq previous.last_seq
        then receipted (journal.remove_artifacts d) previous
        else if ltb ((previous.last_seq + 1) % 2 ^ 64) batch.first_seq
        then refused d
        else apply_from_progress batch hash d
  ]

  -- What was decoded, if it was, is validated and committed.
  abbrev pub commit_decoded : Text → D → Option Batch → Committed D
  commit_decoded hash d none = refused d
  commit_decoded hash d (some batch) =
      if validate_batch batch then commit_batch batch hash d else refused d

  unfoldable pub commit_bytes : ℕ → List ℕ → D → Option (Committed D)
  commit_bytes max_bytes bytes d =
      if too_long max_bytes bytes
      then some (refused d)
      else do decoded ← decode fmt (of_list bytes); some (commit_decoded (hash_of bytes) d decoded)

  -- `CommitReady`, `none` for a panic of `Decode`.
  unfoldable pub commit_ready : ℕ → D → Option (Committed D)
  commit_ready max_bytes d = elim (journal.ready d) [
    | none ↦ some (refused d)
    | some bytes ↦ commit_bytes max_bytes bytes d
  ]
