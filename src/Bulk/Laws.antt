-- ===== src/Bulk/Laws.antt =====
-- bulk/protocol.go: batches and their bytes.
use go_smb.Common.{
  ℕ, ◌+◌, ◌-◌, ◌%◌, ◌^◌, ◌≤◌, ◌<◌, ◌≡◌, refl, ap, sym, subst, append_assoc, length-append,
  take-append_length, drop-append_length, length-drop, true, false, ◌||◌, none, some, List, [], ◌∷◌,
  ◌++◌, length, take, drop, ltb, ◌==◌, ◌!=◌, if◌then◌else◌, arith, le→leb, Bool-cases, inl, inr,
}
use go_smb.Bytes.{Slice, IsSlice, decode_be, read, sub, from}
use go_smb.Common.Texts.{equal_bytes_refl}
use go_smb.Bulk.{Operation, Formats, magic, lay_out, fill_in, decode}

no_bytes : (bs : List ℕ) → (length bs == 0) ≡ true → bs ≡ []
no_bytes [] h = refl
no_bytes (b ∷ bs) h = absurd (ground arith)

within : (a n l : ℕ) → a + n ≤ l → (ltb (a + n) a || ltb l (a + n)) ≡ false
within a n l h = ground arith

-- The range of the data behind what stands before.
range :
    (before bs rest : List ℕ) (start : ℕ)
    → start ≡ length before
    → take (start + length bs - start) (drop start (before ++ (bs ++ rest))) ≡ bs
range before bs rest start e =
    let n : start + length bs - start ≡ length bs = omega arith in
    rw (n, e, drop-append_length before (bs ++ rest)) (take-append_length bs rest)

wire :
    (op : Operation) (before rest : List ℕ) (start : ℕ) (ops : List Operation)
    → start ≡ length before
    → start + length op.content < 2 ^ 64
    → (let end_of = ((if length op.content != 0 then start else 0) + length op.content) % 2 ^ 64 in
        if length op.content == 0
        then some (record op { content = [] } ∷ ops)
        else if ltb end_of (if length op.content != 0 then start else 0)
            || ltb (length (before ++ (op.content ++ rest))) end_of
        then none
        else some (
            record op {
              content = take (end_of - (if length op.content != 0 then start else 0)) (
                  drop
                    (if length op.content != 0 then start else 0)
                    (before ++ (op.content ++ rest)));
            }
            ∷ ops))
      ≡ some (op ∷ ops)
wire op before rest start ops e small = elim (Bool-cases (length op.content == 0)) [
  | inl no_data ↦
      rw no_data
        (ap (λ c. some (record op { content = c } ∷ ops)) (sym (no_bytes op.content no_data)))
  | inr data_there ↦
      let there : (length op.content != 0) ≡ true = ground arith in
      let no_wrap : (start + length op.content) % 2 ^ 64 ≡ start + length op.content =
        omega arith in
      let inside : (ltb (start + length op.content) start
            || ltb (length (before ++ (op.content ++ rest))) (start + length op.content))
          ≡ false =
        within start (length op.content) (length (before ++ (op.content ++ rest))) (
          omega
            (arith, length-append before (op.content ++ rest), length-append op.content rest)) in
      rw (data_there, there, no_wrap, inside)
        (ap (λ c. some (record op { content = c } ∷ ops)) (range before op.content rest start e))
]

-- The loop of `Decode` undoes the loop of `Encode`: operations laid out behind a payload of `start` bytes get their
-- data back from the whole payload, if its length is below 2^64.
pub fill_in-lay_out :
    (ops : List Operation) (before : List ℕ) (start : ℕ)
    → start ≡ length before
    → start + length (lay_out start ops).1 < 2 ^ 64
    → fill_in (before ++ (lay_out start ops).1) (lay_out start ops).0 ≡ some ops
unfolding fill_in lay_out
fill_in-lay_out [] before start e h = refl
fill_in-lay_out (op ∷ ops) before start e h =
    let X = (lay_out (start + length op.content) ops).1 in
    let l = length-append op.content X in
    let rest : fill_in ((before ++ op.content) ++ X) (lay_out (start + length op.content) ops).0
        ≡ some ops =
      fill_in-lay_out ops (before ++ op.content) (start + length op.content)
        (omega (arith, length-append before op.content)) (omega (arith, l)) in
    let rest' =
      subst (λ t. fill_in t (lay_out (start + length op.content) ops).0 ≡ some ops)
        (append_assoc before op.content X) rest in
    rw rest' (wire op before X start ops e (omega (arith, l)))

sub_beyond : (p : Slice) (n : ℕ) → length p.bytes < n → sub p 0 n ≡ none
unfolding sub
sub_beyond p n h = ground arith

-- A journal whose two lengths add up to the length of its body only modulo 2^64 passes the length check:
-- with the right checksum, and a manifest length beyond the journal's capacity, `Decode` panics.
pub decode_overflow :
    (f : Formats) (p : Slice) (manifest_length payload_length : List ℕ)
    → IsSlice p
    → 52 ≤ p.len
    → read p 0 8 ≡ some magic
    → read p 8 4 ≡ some manifest_length
    → read p 12 8 ≡ some payload_length
    → read p 20 32 ≡ some (f.sha256 (take (p.len - 52) (drop 52 p.bytes)))
    → (decode_be 0 manifest_length + decode_be 0 payload_length) % 2 ^ 64 ≡ p.len - 52
    → length p.bytes < 52 + decode_be 0 manifest_length
    → decode f p ≡ none
unfolding decode from
decode_overflow f p ml pl s room m l1 l2 sum lengths beyond =
    let long : ltb p.len 52 ≡ false = ground arith in
    let same : (p.len - 52 != (decode_be 0 ml + decode_be 0 pl) % 2 ^ 64) ≡ false = ground arith in
    let short : length (drop 52 p.bytes) < decode_be 0 ml = omega (arith, length-drop 52 p.bytes) in
    rw
      (
        long,
        m,
        l1,
        l2,
        sum,
        le→leb 52 p.len room,
        same,
        equal_bytes_refl (f.sha256 (take (p.len - 52) (drop 52 p.bytes))),
        sub_beyond (record { bytes = drop 52 p.bytes; len = p.len - 52 }) (decode_be 0 ml) short,
      )
      refl
