-- ===== src/Bytes/Writes/Laws.antt =====
-- Laws of writes: lengths, places that a write does not touch, and `found`.
use go_smb.Common.{
  ℕ, zero, suc, ◌+◌, ◌≤◌, ◌<◌, ◌≡◌, ◌++◌, refl, ap, inl, inr, Option, none, some, List, [], ◌∷◌,
  length, take, drop, arith, Bool-cases, leb, ◌==◌, ◌&&◌, true, le→leb, ◌∙◌, subst, ltb, lt→ltb,
  get_elem?,
}
use go_smb.Bytes.{Slice, IsSlice, read, index, get_le, decode_le}
use go_smb.Bytes.Writes.{Write, overwrite, write, writes, Fits, apart, after_write, found}

pub length-overwrite :
    (bs : List ℕ) (o : ℕ) (src : List ℕ) → length (overwrite bs o src) ≡ length bs
unfolding overwrite
length-overwrite [] o src = refl
length-overwrite (x ∷ xs) zero [] = refl
length-overwrite (x ∷ xs) zero (s ∷ src) = ap suc (length-overwrite xs zero src)
length-overwrite (x ∷ xs) (suc o) src = ap suc (length-overwrite xs o src)

pub take-drop-overwrite_self :
    (bs : List ℕ) (o : ℕ) (src : List ℕ)
    → o + length src ≤ length bs
    → take (length src) (drop o (overwrite bs o src)) ≡ src
unfolding overwrite
take-drop-overwrite_self [] zero [] h = refl
take-drop-overwrite_self [] zero (s ∷ src) h = absurd (omega arith)
take-drop-overwrite_self [] (suc o) src h = absurd (omega arith)
take-drop-overwrite_self (x ∷ xs) zero [] h = refl
take-drop-overwrite_self (x ∷ xs) zero (s ∷ src) h =
    ap (λ t. s ∷ t) (take-drop-overwrite_self xs zero src (omega arith))
take-drop-overwrite_self (x ∷ xs) (suc o) src h = take-drop-overwrite_self xs o src (omega arith)

-- Elements below the write.
pub take-drop-overwrite_below :
    (bs : List ℕ) (o w at : ℕ) (src : List ℕ)
    → o + w ≤ at
    → take w (drop o (overwrite bs at src)) ≡ take w (drop o bs)
unfolding overwrite
take-drop-overwrite_below [] o w at src h = refl
take-drop-overwrite_below (x ∷ xs) zero zero at src h = refl
take-drop-overwrite_below (x ∷ xs) zero (suc w) zero src h = absurd (omega arith)
take-drop-overwrite_below (x ∷ xs) zero (suc w) (suc at) src h =
    ap (λ t. x ∷ t) (take-drop-overwrite_below xs zero w at src (omega arith))
take-drop-overwrite_below (x ∷ xs) (suc o) w zero src h = absurd (omega arith)
take-drop-overwrite_below (x ∷ xs) (suc o) w (suc at) src h =
    take-drop-overwrite_below xs o w at src (omega arith)

drop-overwrite_above :
    (bs : List ℕ) (o at : ℕ) (src : List ℕ)
    → at + length src ≤ o
    → drop o (overwrite bs at src) ≡ drop o bs
unfolding overwrite
drop-overwrite_above [] o at src h = refl
drop-overwrite_above (x ∷ xs) zero zero [] h = refl
drop-overwrite_above (x ∷ xs) zero zero (s ∷ src) h = absurd (omega arith)
drop-overwrite_above (x ∷ xs) zero (suc at) src h = absurd (omega arith)
drop-overwrite_above (x ∷ xs) (suc o) zero [] h = refl
drop-overwrite_above (x ∷ xs) (suc o) zero (s ∷ src) h =
    drop-overwrite_above xs o zero src (omega arith)
drop-overwrite_above (x ∷ xs) (suc o) (suc at) src h =
    drop-overwrite_above xs o at src (omega arith)

-- Elements above it.
pub take-drop-overwrite_above :
    (bs : List ℕ) (o w at : ℕ) (src : List ℕ)
    → at + length src ≤ o
    → take w (drop o (overwrite bs at src)) ≡ take w (drop o bs)
take-drop-overwrite_above bs o w at src h = ap (take w) (drop-overwrite_above bs o at src h)

-- Writing twice at one place leaves the second; writing what stands there changes nothing.
pub overwrite-overwrite :
    (bs : List ℕ) (o : ℕ) (a b : List ℕ)
    → length a ≡ length b
    → overwrite (overwrite bs o a) o b ≡ overwrite bs o b
unfolding overwrite
overwrite-overwrite [] o a b e = refl
overwrite-overwrite (x ∷ xs) zero [] [] e = refl
overwrite-overwrite (x ∷ xs) zero [] (b ∷ bs) e = absurd (omega arith)
overwrite-overwrite (x ∷ xs) zero (a ∷ rest) [] e = absurd (omega arith)
overwrite-overwrite (x ∷ xs) zero (a ∷ rest) (b ∷ bs) e =
    ap (λ t. b ∷ t) (overwrite-overwrite xs zero rest bs (omega arith))
overwrite-overwrite (x ∷ xs) (suc o) a b e = ap (λ t. x ∷ t) (overwrite-overwrite xs o a b e)

pub overwrite_same : (bs : List ℕ) (o w : ℕ) → overwrite bs o (take w (drop o bs)) ≡ bs
unfolding overwrite
overwrite_same [] o w = refl
overwrite_same (x ∷ xs) zero zero = refl
overwrite_same (x ∷ xs) zero (suc w) = ap (λ t. x ∷ t) (overwrite_same xs zero w)
overwrite_same (x ∷ xs) (suc o) w = ap (λ t. x ∷ t) (overwrite_same xs o w)

-- A write within the capacity succeeds, and keeps length and capacity.
pub write_total :
    (x : Write) (p : Slice) (n : ℕ)
    → x.at + length x.bytes ≤ x.reach
    → x.reach ≤ n
    → n ≤ p.len
    → IsSlice p
    → write x p ≡ some (record p { bytes = overwrite p.bytes x.at x.bytes })
unfolding write
write_total x p n h k m s = ground arith

-- The `w` elements from `o` on.
abbrev pub window : Slice → ℕ → ℕ → List ℕ
window p o w = take w (drop o p.bytes)

apart_keeps :
    (bs : List ℕ) (o w : ℕ) (x : Write)
    → apart o w x ≡ true
    → take w (drop o (overwrite bs x.at x.bytes)) ≡ take w (drop o bs)
apart_keeps bs o w x h = elim (Bool-cases (leb (o + w) x.at)) [
  | inl below ↦ take-drop-overwrite_below bs o w x.at x.bytes (ground arith)
  | inr not_below ↦ take-drop-overwrite_above bs o w x.at x.bytes (ground arith)
]

-- What `before` says of a slice.
abbrev pub Says : Option (List ℕ) → List ℕ → Type 0
Says none bs = Unit {0}
Says (some src) bs = bs ≡ src

found_step :
    (x : Write) (bs : List ℕ) (o w : ℕ) (before : Option (List ℕ))
    → x.at + length x.bytes ≤ length bs
    → Says before (take w (drop o bs))
    → Says (after_write o w before x) (take w (drop o (overwrite bs x.at x.bytes)))
found_step x bs o w before fits says = elim (Bool-cases (apart o w x)) [
  | inl away ↦ rw (away, apart_keeps bs o w x away) says
  | inr meets ↦ rw meets (elim (Bool-cases (x.at == o && length x.bytes == w)) [
    | inl exact ↦ rw exact (
        let e : x.at ≡ o = ground arith in
        let e' : length x.bytes ≡ w = ground arith in
        rw (← e, ← e') (take-drop-overwrite_self bs x.at x.bytes fits))
    | inr partly ↦ rw partly tt
  ])
]

-- Writes that fit succeed, keep length and capacity, and leave what `found` says.
pub record Written (ws : List Write) (n : ℕ) (p q : Slice) : Type 0 where
  pub ran : writes ws p ≡ some q
  pub capacity : length q.bytes ≡ length p.bytes
  pub same_len : q.len ≡ p.len
  pub leaves :
      (o w : ℕ) (before : Option (List ℕ))
      → Says before (window p o w)
      → Says (found o w before ws) (window q o w)

pub writes-Written :
    (ws : List Write) (n : ℕ) (p : Slice)
    → Fits n ws
    → n ≤ p.len
    → IsSlice p
    → (q : Slice) × Written ws n p q
unfolding writes
writes-Written [] n p fits room s =
    (p, record { ran = refl; capacity = refl; same_len = refl; leaves = λ o w before says. says })
writes-Written (x ∷ xs) n p (fit, fits) room s =
    let p' : Slice = record p { bytes = overwrite p.bytes x.at x.bytes } in
    let cap : length (overwrite p.bytes x.at x.bytes) ≡ length p.bytes =
      length-overwrite p.bytes x.at x.bytes in
    let (q, r) = writes-Written xs n p' fits room (omega (arith, cap)) in
    (
      q,
      record {
        ran = rw (write_total x p n fit.0 fit.1 room s) r.ran;
        capacity = r.capacity ∙ cap;
        same_len = r.same_len;
        leaves =
            λ o w before says. r.leaves o w _ (found_step x p.bytes o w before (omega arith) says);
      },
    )

-- A field is read back where the places decide it.
pub read-Written :
    {ws : List Write} {n : ℕ} {p q : Slice}
    → Written ws n p q
    → (o w : ℕ) (src : List ℕ) → n ≤ length p.bytes
    → o + w ≤ n
    → found o w none ws ≡ some src
    → read q o w ≡ some src
unfolding read
read-Written {ws} {q = q} r o w src room small e =
    let fits : leb (o + w) (length q.bytes) ≡ true =
      le→leb (o + w) (length q.bytes) (omega (arith, r.capacity)) in
    let says : Says (some src) (window q o w) =
      subst (λ s. Says s (window q o w)) e (r.leaves o w none tt) in
    rw fits (ap some says)

pub get_le-Written :
    {ws : List Write} {n : ℕ} {p q : Slice}
    → Written ws n p q
    → (w o : ℕ) (src : List ℕ) → n ≤ length p.bytes
    → o + w ≤ n
    → found o w none ws ≡ some src
    → get_le w q o ≡ some (decode_le src)
unfolding get_le
get_le-Written r w o src room small e = rw (read-Written r o w src room small e)

get_elem?-of-take_one :
    (bs : List ℕ) (o b : ℕ) → take 1 (drop o bs) ≡ b ∷ [] → get_elem? bs o ≡ some b
get_elem?-of-take_one [] zero b e = cc
get_elem?-of-take_one [] (suc o) b e = cc
get_elem?-of-take_one (x ∷ xs) zero b e = cc
get_elem?-of-take_one (x ∷ xs) (suc o) b e = get_elem?-of-take_one xs o b e

-- A single element is read back by its index.
pub index-Written :
    {ws : List Write} {n : ℕ} {p q : Slice}
    → Written ws n p q
    → (o b : ℕ) → n ≤ p.len
    → o < n
    → found o 1 none ws ≡ some (b ∷ [])
    → index q o ≡ some b
unfolding index
index-Written {q = q} r o b room small e =
    let says : Says (some (b ∷ [])) (window q o 1) =
      subst (λ s. Says s (window q o 1)) e (r.leaves o 1 none tt) in
    let inside : ltb o q.len ≡ true = lt→ltb o q.len (omega (arith, r.same_len)) in
    rw inside (get_elem?-of-take_one q.bytes o b says)

pub found-append :
    (o w : ℕ) (before : Option (List ℕ)) (xs ys : List Write)
    → found o w before (xs ++ ys) ≡ found o w (found o w before xs) ys
found-append o w before [] ys = refl
found-append o w before (x ∷ xs) ys = found-append o w (after_write o w before x) xs ys

-- A write behind a place says nothing of it.
pub after_write_below :
    (o w : ℕ) (before : Option (List ℕ)) (x : Write)
    → o + w ≤ x.at
    → after_write o w before x ≡ before
after_write_below o w before x h = ground arith
