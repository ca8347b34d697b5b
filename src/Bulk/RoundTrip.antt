-- ===== src/Bulk/RoundTrip.antt =====
-- bulk/protocol.go: `Encode` and then `Decode`.
use go_smb.Common.{
  ℕ, ◌+◌, ◌-◌, ◌%◌, ◌^◌, ◌<◌, ◌≡◌, refl, ap, subst, ◌∙◌, length-append, take-append_length,
  drop-append_length, take_all, false, none, some, List, [], ◌++◌, length, take, drop, ltb, ◌!=◌,
  arith, le→leb,
}
use go_smb.Bytes.{Slice, elements, of_list, encode_be, sub, from}
use go_smb.Bytes.Words.{decode-encode_be_4, decode-encode_be_8}
use go_smb.Common.Texts.{equal_bytes_refl}
use go_smb.Session.Laws.{read_whole}
use go_smb.Bulk.{
  Operation, Manifest, Batch, Formats, magic, lay_out, fill_in, encode, decode, manifest_of,
  batch_of,
}
use go_smb.Bulk.Laws.{fill_in-lay_out}

-- The bytes `Encode` puts together, their parts given.
abbrev journal : List ℕ → List ℕ → List ℕ → List ℕ
journal sum manifest payload =
    magic
    ++ encode_be 4 (length manifest)
    ++ encode_be 8 (length payload)
    ++ sum
    ++ (manifest ++ payload)

module _ (sum manifest payload : List ℕ) (wide : length sum ≡ 32) where
  abbrev bytes_of : List ℕ
  bytes_of = journal sum manifest payload

  body_there : drop 52 bytes_of ≡ manifest ++ payload
  body_there =
      subst (λ w. drop w (sum ++ (manifest ++ payload)) ≡ manifest ++ payload) wide
        (drop-append_length sum (manifest ++ payload))

  length-journal : length bytes_of ≡ 52 + length manifest + length payload
  length-journal =
      omega (arith, length-append sum (manifest ++ payload), length-append manifest payload)

  sum_there : take 32 (drop 20 bytes_of) ≡ sum
  sum_there =
      subst (λ w. take w (sum ++ (manifest ++ payload)) ≡ sum) wide
        (take-append_length sum (manifest ++ payload))

  body-step : from (of_list bytes_of) 52 ≡ some (of_list (manifest ++ payload))
  unfolding from
  body-step =
      rw (le→leb 52 (length bytes_of) (omega (arith, length-journal)), body_there)
        (ap (λ n. some (record { bytes = manifest ++ payload; len = n }))
          (omega (arith, length-journal, length-append manifest payload)))

  long : ltb (length bytes_of) 52 ≡ false
  long = ground (arith, length-journal)

elements_all : (bs : List ℕ) → elements (of_list bs) ≡ bs
elements_all bs = take_all bs (length bs) (omega arith)

module _ (manifest payload : List ℕ) where
  abbrev manifest_part : Slice
  manifest_part = record { bytes = manifest ++ payload; len = length manifest - 0 }

  manifest-step : sub (of_list (manifest ++ payload)) 0 (length manifest) ≡ some manifest_part
  unfolding sub
  manifest-step =
      rw
        (
          le→leb 0 (length manifest) (omega arith),
          le→leb (length manifest) (length (manifest ++ payload))
              (omega (arith, length-append manifest payload)),
        )
        refl

  manifest_elements : elements manifest_part ≡ manifest
  manifest_elements =
      ap (λ n. take n (manifest ++ payload)) {x = length manifest - 0} (omega arith)
      ∙ take-append_length manifest payload

  payload-step : from (of_list (manifest ++ payload)) (length manifest) ≡ some (of_list payload)
  unfolding from
  payload-step =
      rw
        (
          le→leb (length manifest) (length (manifest ++ payload))
              (omega (arith, length-append manifest payload)),
          drop-append_length manifest payload,
        )
        (ap (λ n. some (record { bytes = payload; len = n }))
          (omega (arith, length-append manifest payload)))

lengths_agree :
    (a b : List ℕ)
    → length a + length b < 2 ^ 64
    → (length (a ++ b) != (length a + length b) % 2 ^ 64) ≡ false
lengths_agree a b h = ground (arith, length-append a b)

filled-step :
    (payload : List ℕ) (m : Manifest) (ops : List Operation)
    → fill_in payload m.operations ≡ some ops
    → elim (fill_in (elements (of_list payload)) m.operations) [
      | none ↦ some none
      | some os ↦ some (some (batch_of m os))
    ]
      ≡ some (some (batch_of m ops))
filled-step payload m ops filled = rw (elements_all payload, filled) refl

decode-journal :
    (f : Formats) (manifest payload : List ℕ) (m : Manifest) (ops : List Operation)
    → length (f.sha256 (manifest ++ payload)) ≡ 32
    → length manifest < 2 ^ 32
    → length manifest + length payload < 2 ^ 64
    → f.unmarshal manifest ≡ some m
    → fill_in payload m.operations ≡ some ops
    → decode f (of_list (journal (f.sha256 (manifest ++ payload)) manifest payload))
      ≡ some (some (batch_of m ops))
unfolding decode
decode-journal f manifest payload m ops wide small fits parsed filled =
    let sum = f.sha256 (manifest ++ payload) in
    let p = of_list (journal sum manifest payload) in
    let l = length-journal sum manifest payload wide in
    rw
      (
        long sum manifest payload wide,
        read_whole p 0 8 (omega (arith, l)),
        read_whole p 8 4 (omega (arith, l)),
        read_whole p 12 8 (omega (arith, l)),
        read_whole p 20 32 (omega (arith, l)),
        body-step sum manifest payload wide,
        decode-encode_be_4 (length manifest) small,
        decode-encode_be_8 (length payload) (omega arith),
        lengths_agree manifest payload fits,
        elements_all (manifest ++ payload),
        sum_there sum manifest payload wide,
        equal_bytes_refl sum,
        manifest-step manifest payload,
        manifest_elements manifest payload,
        parsed,
        decode-encode_be_4 (length manifest) small,
        payload-step manifest payload,
      )
      (filled-step payload m ops filled)

-- If JSON reads back the manifest that it wrote, of less than 2^32 bytes, the hash has 32 bytes, and manifest and payload
-- together less than 2^64, a batch is encoded, and decoded as it was.
pub decode-encode :
    (f : Formats) (batch : Batch) (manifest : List ℕ)
    → f.marshal (manifest_of batch) ≡ some manifest
    → f.unmarshal manifest ≡ some (manifest_of batch)
    → ((bs : List ℕ) → length (f.sha256 bs) ≡ 32)
    → length manifest < 2 ^ 32
    → length manifest + length (lay_out 0 batch.operations).1 < 2 ^ 64
    → (bs : List ℕ) × (encode f batch ≡ some bs) × (decode f (of_list bs) ≡ some (some batch))
unfolding encode manifest_of lay_out
decode-encode f batch manifest written parsed wide small fits =
    let payload = (lay_out 0 batch.operations).1 in
    let short : ltb 0xffff_ffff (length manifest) ≡ false = ground arith in
    (
      journal (f.sha256 (manifest ++ payload)) manifest payload,
      rw (written, short) refl,
      decode-journal f manifest payload (manifest_of batch) batch.operations
          (wide (manifest ++ payload)) small fits parsed
          (fill_in-lay_out batch.operations [] 0 refl (omega arith)),
    )
