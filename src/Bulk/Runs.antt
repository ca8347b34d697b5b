-- ===== src/Bulk/Runs.antt =====
-- A journal with a forged length, and the data of two operations.
use go_smb.Common.{ℕ, List, ◌≡◌, refl, some, none, [], ◌∷◌, ◌++◌, replicate, arith}
use go_smb.Bytes.{Slice, of_list}
use go_smb.Bulk.RoundTrip.{decode-encode}
use go_smb.Bulk.{Batch, Manifest, encode, Formats, Operation, magic, lay_out, fill_in, decode}
use go_smb.Bulk.Laws.{decode_overflow}

abbrev formats : Formats
formats = record { marshal = λ m. none; unmarshal = λ bs. none; sha256 = λ bs. replicate 32 0 }

abbrev puts : List ℕ → Operation
puts bs = record {
  seq = 1;
  type = [];
  path = [];
  target = [];
  name = [];
  offset = 0;
  length = 0;
  mode = 0;
  atime = 0;
  mtime = 0;
  content = bs;
}

-- An empty body: the lengths are 1 and 2 ^ 64 - 1.
abbrev forged : Slice
forged = of_list (magic ++ (0 ∷ 0 ∷ 0 ∷ 1 ∷ replicate 8 255) ++ replicate 32 0)

decode_overflow_example : decode formats forged ≡ none
unfolding go_smb.Bytes.read
decode_overflow_example =
    decode_overflow formats forged (0 ∷ 0 ∷ 0 ∷ 1 ∷ []) (replicate 8 255) (omega arith)
      (omega arith) refl refl refl refl refl (omega arith)

-- JSON of one batch.
abbrev one_batch : Batch
one_batch = record {
  relay_id = 1 ∷ [];
  batch_id = 2 ∷ [];
  first_seq = 1;
  last_seq = 1;
  operations = puts (5 ∷ 6 ∷ []) ∷ [];
}

abbrev one_manifest : Manifest
one_manifest = record {
  relay_id = 1 ∷ [];
  batch_id = 2 ∷ [];
  first_seq = 1;
  last_seq = 1;
  operations = record { operation = puts []; data_offset = 0; data_length = 2 } ∷ [];
}

abbrev one_format : Formats
one_format = record {
  marshal = λ m. some (7 ∷ 7 ∷ []);
  unmarshal = λ bs. some one_manifest;
  sha256 = λ bs. replicate 32 0;
}

decode-encode_example :
    (bs : List ℕ) × (encode one_format one_batch ≡ some bs)
    × (decode one_format (of_list bs) ≡ some (some one_batch))
unfolding go_smb.Bulk.manifest_of
decode-encode_example =
    decode-encode one_format one_batch (7 ∷ 7 ∷ []) refl refl (λ bs. refl) (omega arith)
      (omega arith)
