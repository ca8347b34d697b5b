-- ===== src/Bulk.antt =====
-- bulk/protocol.go: the journal's batches as bytes. JSON and SHA-256 are not of the program: `marshal`,
-- `unmarshal` and `sha256` are parameters. A Go string is a list of its bytes.
pub mod Laws
pub mod RoundTrip
pub mod WriteRun
pub mod Apply
pub mod Commit
mod Runs
use go_smb.Common.{
  ℕ, zero, suc, ◌+◌, ◌-◌, ◌%◌, ◌/◌, ◌*◌, ◌^◌, ◌>>=◌, Bool, true, false, ◌||◌, ◌&&◌, not, Option,
  none, some, List, [], ◌∷◌, ◌++◌, length, take, drop, ltb, leb, ◌==◌, ◌!=◌, if◌then◌else◌,
}
use go_smb.Bytes.{encode_be, decode_be, Slice, elements, read, sub, from}
use go_smb.Common.Texts.{equal_bytes}

pub record Operation : Type 0 where
  pub seq : ℕ
  pub type : List ℕ
  pub path : List ℕ
  pub target : List ℕ
  pub name : List ℕ
  pub offset : ℕ
  pub length : ℕ
  pub mode : ℕ
  pub atime : ℕ
  pub mtime : ℕ
  pub content : List ℕ

pub record Batch : Type 0 where
  pub relay_id : List ℕ
  pub batch_id : List ℕ
  pub first_seq : ℕ
  pub last_seq : ℕ
  pub operations : List Operation

-- An operation in the manifest: its data is a range of the payload.
pub record WireOperation : Type 0 where
  pub operation : Operation
  pub data_offset : ℕ
  pub data_length : ℕ

pub record Manifest : Type 0 where
  pub relay_id : List ℕ
  pub batch_id : List ℕ
  pub first_seq : ℕ
  pub last_seq : ℕ
  pub operations : List WireOperation

-- The parameters: `json.Marshal` and `json.Unmarshal` of a manifest, `sha256.Sum256`.
pub record Formats : Type 0 where
  pub marshal : Manifest → Option (List ℕ)
  pub unmarshal : List ℕ → Option Manifest
  pub sha256 : List ℕ → List ℕ

abbrev pub magic : List ℕ
magic = b'S' ∷ b'M' ∷ b'B' ∷ b'R' ∷ b'B' ∷ b'L' ∷ b'K' ∷ b'2' ∷ []

-- The loop of `Encode`, with the length of the payload before: the manifest's operations and what
-- they add to the payload.
unfoldable pub lay_out : ℕ → List Operation → List WireOperation × List ℕ
lay_out start [] = ([], [])
lay_out start (op ∷ ops) =
    let rest = lay_out (start + length op.content) ops in
    let some_data = length op.content != 0 in
    (
      record {
        operation = record op { content = [] };
        data_offset = if some_data then start else 0;
        data_length = length op.content;
      }
          ∷ rest.0,
      op.content ++ rest.1,
    )

abbrev pub manifest_of : Batch → Manifest
unfolding lay_out
manifest_of batch = record {
  relay_id = batch.relay_id;
  batch_id = batch.batch_id;
  first_seq = batch.first_seq;
  last_seq = batch.last_seq;
  operations = (lay_out 0 batch.operations).0;
}

-- `Encode`: `none` for its errors.
unfoldable pub encode : Formats → Batch → Option (List ℕ)
encode f batch =
    let payload = (lay_out 0 batch.operations).1 in
    do
      manifest ← f.marshal (manifest_of batch)
      if ltb 0xffff_ffff (length manifest)
          then none
          else some (
              magic
              ++ encode_be 4 (length manifest)
              ++ encode_be 8 (length payload)
              ++ f.sha256 (manifest ++ payload)
              ++ (manifest ++ payload))

-- The loop of `Decode`: the data of each operation out of the payload; the end of its range is
-- computed on 64 bits.
unfoldable pub fill_in : List ℕ → List WireOperation → Option (List Operation)
fill_in payload [] = some []
fill_in payload (w ∷ ws) =
    let end_of = (w.data_offset + w.data_length) % 2 ^ 64 in
    do
      rest ← fill_in payload ws
      if w.data_length == 0
          then some (record w.operation { content = [] } ∷ rest)
          else if ltb end_of w.data_offset || ltb (length payload) end_of
          then none
          else some (
              record w.operation {
                content = take (end_of - w.data_offset) (drop w.data_offset payload);
              }
              ∷ rest)

abbrev pub batch_of : Manifest → List Operation → Batch
batch_of m ops = record {
  relay_id = m.relay_id;
  batch_id = m.batch_id;
  first_seq = m.first_seq;
  last_seq = m.last_seq;
  operations = ops;
}

-- `Decode`: `none` for a panic, `none` inside for its errors.
unfoldable pub decode : Formats → Slice → Option (Option Batch)
decode f bytes = if ltb bytes.len 52 then some none else do
  start ← read bytes 0 8
  if not (equal_bytes start magic) then some none else do
    manifest_length ← read bytes 8 4
    payload_length ← read bytes 12 8
    want ← read bytes 20 32
    body ← from bytes 52
    if body.len != (decode_be 0 manifest_length + decode_be 0 payload_length) % 2 ^ 64
          || not (equal_bytes (f.sha256 (elements body)) want)
        then some none
        else do
          manifest ← sub body 0 (decode_be 0 manifest_length)
          elim (f.unmarshal (elements manifest)) [
            | none ↦ some none
            | some m ↦ do
              payload ← from body (decode_be 0 manifest_length)
              elim (fill_in (elements payload) m.operations) [
                | none ↦ some none
                | some ops ↦ some (some (batch_of m ops))
              ]
          ]
