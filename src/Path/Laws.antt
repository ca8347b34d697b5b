-- ===== src/Path/Laws.antt =====
-- server/path.go: `base` and `split`.
use go_smb.Common.{
  ℕ, zero, suc, ◌+◌, ◌-◌, ◌≤◌, ◌<◌, ◌≡◌, refl, Bool, true, false, List, [], ◌∷◌, ◌++◌, length, take,
  drop, arith, ◌==◌, inl, inr, Bool-cases, All, take-append-drop, sym, ◌∙◌, subst, take_all,
  length-drop,
}
use go_smb.Path.{separator, is_sep_at, skip_seps, skip_name, slice, base, split}

-- No byte is a separator; every byte is one.
abbrev IsName : List ℕ → Type 0
IsName = All (λ c. (c == separator) ≡ false)

abbrev IsSeps : List ℕ → Type 0
IsSeps = All (λ c. (c == separator) ≡ true)

-- The list is empty or its last byte is a separator.
abbrev EndsInSep : List ℕ → Type 0
EndsInSep [] = Unit {0}
EndsInSep (c ∷ []) = (c == separator) ≡ true
EndsInSep (c ∷ d ∷ cs) = EndsInSep (d ∷ cs)

skip_name-le : (p : List ℕ) (i : ℕ) → skip_name p i ≤ i
skip_name-le p zero = omega arith
skip_name-le p (suc i) = ground (arith, skip_name-le p i)

skip_seps-le : (p : List ℕ) (j : ℕ) → skip_seps p j ≤ j
skip_seps-le p zero = omega arith
skip_seps-le p (suc j) = ground (arith, skip_seps-le p j)

-- What the loop over a name passes is no separator, and what it stops at is one.
skip_name-passes : (p : List ℕ) (i k : ℕ) → skip_name p i ≤ k → k < i → is_sep_at p k ≡ false
skip_name-passes p zero k lo hi = absurd (omega arith)
skip_name-passes p (suc i) k lo hi = elim (Bool-cases (is_sep_at p i)) [
  | inl stop ↦ absurd (let e : skip_name p (suc i) ≡ suc i = rw stop in omega (arith, e))
  | inr pass ↦
      let e : skip_name p (suc i) ≡ skip_name p i = rw pass in
      elim (Bool-cases (k == i)) [
        | inl same ↦ let s : k ≡ i = ground arith in rw s pass
        | inr other ↦ skip_name-passes p i k (omega (arith, e)) (ground arith)
      ]
]

skip_name-stops : (p : List ℕ) (i k : ℕ) → skip_name p i ≡ suc k → is_sep_at p k ≡ true
skip_name-stops p zero k e = absurd (omega arith)
skip_name-stops p (suc i) k e = elim (Bool-cases (is_sep_at p i)) [
  | inl stop ↦
      let s : skip_name p (suc i) ≡ suc i = rw stop in
      let same : k ≡ i = omega (arith, s, e) in rw same stop
  | inr pass ↦
      let s : skip_name p (suc i) ≡ skip_name p i = rw pass in skip_name-stops p i k (sym s ∙ e)
]

skip_seps-passes : (p : List ℕ) (j k : ℕ) → skip_seps p j ≤ k → k < j → is_sep_at p k ≡ true
skip_seps-passes p zero k lo hi = absurd (omega arith)
skip_seps-passes p (suc j) k lo hi = elim (Bool-cases (is_sep_at p j)) [
  | inr stop ↦ absurd (let e : skip_seps p (suc j) ≡ suc j = rw stop in omega (arith, e))
  | inl pass ↦
      let e : skip_seps p (suc j) ≡ skip_seps p j = rw pass in
      elim (Bool-cases (k == j)) [
        | inl same ↦ let s : k ≡ j = ground arith in rw s pass
        | inr other ↦ skip_seps-passes p j k (omega (arith, e)) (ground arith)
      ]
]

skip_seps-stops : (p : List ℕ) (j k : ℕ) → skip_seps p j ≡ suc k → is_sep_at p k ≡ false
skip_seps-stops p zero k e = absurd (omega arith)
skip_seps-stops p (suc j) k e = elim (Bool-cases (is_sep_at p j)) [
  | inr stop ↦
      let s : skip_seps p (suc j) ≡ suc j = rw stop in
      let same : k ≡ j = omega (arith, s, e) in rw same stop
  | inl pass ↦
      let s : skip_seps p (suc j) ≡ skip_seps p j = rw pass in skip_seps-stops p j k (sym s ∙ e)
]

-- A slice over positions that all give the same answer.
slice_All :
    (b : Bool) (p : List ℕ) (i n : ℕ)
    → ((k : ℕ) → i ≤ k → k < i + n → is_sep_at p k ≡ b)
    → i + n ≤ length p
    → All (λ c. (c == separator) ≡ b) (take n (drop i p))
slice_All b [] zero zero h l = tt
slice_All b [] zero (suc n) h l = absurd (omega arith)
slice_All b [] (suc i) zero h l = tt
slice_All b [] (suc i) (suc n) h l = absurd (omega arith)
slice_All b (x ∷ xs) zero zero h l = tt
slice_All b (x ∷ xs) zero (suc n) h l = (
  h 0 (omega arith) (omega arith),
  slice_All b xs zero n (λ k lo hi. h (suc k) (omega arith) (omega arith)) (omega arith),
)
slice_All b (x ∷ xs) (suc i) n h l =
    slice_All b xs i n (λ k lo hi. h (suc k) (omega arith) (omega arith)) (omega arith)

take-EndsInSep : (p : List ℕ) (k : ℕ) → is_sep_at p k ≡ true → EndsInSep (take (suc k) p)
take-EndsInSep [] k e = tt
take-EndsInSep (x ∷ xs) zero e = e
take-EndsInSep (x ∷ []) (suc k) e = cc
take-EndsInSep (x ∷ y ∷ xs) (suc k) e = take-EndsInSep (y ∷ xs) k e

front-EndsInSep : (p : List ℕ) (i n : ℕ) → skip_name p i ≡ n → EndsInSep (take n p)
front-EndsInSep p i zero e = tt
front-EndsInSep p i (suc n) e = take-EndsInSep p n (skip_name-stops p i n e)

-- `split` cuts the path into a directory that is empty or ends in a separator and a name without
-- separators, and loses nothing.
pub split_lem :
    (p : List ℕ) → ((split p).0 ++ (split p).1 ≡ p) × EndsInSep (split p).0 × IsName (split p).1
unfolding split
split_lem p =
    let i : ℕ = skip_name p (length p) in
    let le = skip_name-le p (length p) in
    (
      take-append-drop i p,
      front-EndsInSep p (length p) i refl,
      subst IsName (take_all (drop i p) (length p - i) (omega (arith, length-drop i p))) (
          slice_All false p i (length p - i)
            (λ k lo hi. skip_name-passes p (length p) k lo (omega arith)) (omega arith)),
    )

drop_nil : (n : ℕ) → drop {A = ℕ} n [] ≡ []
drop_nil zero = refl
drop_nil (suc n) = refl

drop-drop : (p : List ℕ) (i n j : ℕ) → i + n ≡ j → drop n (drop i p) ≡ drop j p
drop-drop p zero n j e = let same : n ≡ j = omega arith in rw same
drop-drop [] (suc i) n j e = drop_nil n ∙ sym (drop_nil j)
drop-drop (x ∷ xs) (suc i) n zero e = absurd (omega arith)
drop-drop (x ∷ xs) (suc i) n (suc j) e = drop-drop xs i n j (omega arith)

-- A path is what stands before a slice, the slice, and what stands behind it.
slice_parts : (p : List ℕ) (i j : ℕ) → i ≤ j → take i p ++ (slice p i j ++ drop j p) ≡ p
slice_parts p i j h =
    rw (sym (drop-drop p i (j - i) j (omega arith)))
      (rw (take-append-drop (j - i) (drop i p)) (take-append-drop i p))

-- Up to the end of the name there is no separator: the last byte is where the first loop stopped.
last_of_name :
    (p : List ℕ) (j k i : ℕ)
    → skip_seps p (length p) ≡ j
    → 0 < j
    → i ≤ k
    → k < j
    → skip_name p (j - 1) ≡ i
    → is_sep_at p k ≡ false
last_of_name p j k i e pos lo hi start = elim (Bool-cases (k == j - 1)) [
  | inl last ↦
      let s : skip_seps p (length p) ≡ suc k = ground arith in skip_seps-stops p (length p) k s
  | inr before ↦ skip_name-passes p (j - 1) k (omega arith) (ground arith)
]

-- The path is a front that is empty or ends in a separator, then its base, then separators; and the
-- base has none.
base_lem :
    (p : List ℕ)
    → (front : List ℕ) × (seps : List ℕ) × (p ≡ front ++ (base p ++ seps))
      × EndsInSep front
      × IsSeps seps
      × IsName (base p)
unfolding base
base_lem p = elim (Bool-cases (skip_seps p (length p) == 0)) [
  | inl none_left ↦
      let e : skip_seps p (length p) ≡ 0 = ground arith in
      let all_seps =
        slice_All true p 0 (length p)
          (λ k lo hi. skip_seps-passes p (length p) k (omega (arith, e)) (omega arith))
          (omega arith) in
      rw none_left
        ([], p, refl, tt, subst IsSeps (take_all p (length p) (omega arith)) all_seps, tt)
  | inr some_left ↦
      let j : ℕ = skip_seps p (length p) in
      let i : ℕ = skip_name p (j - 1) in
      let pos : 0 < j = ground arith in
      let i_le = skip_name-le p (j - 1) in
      let j_le = skip_seps-le p (length p) in
      let seps =
        slice_All true p j (length p - j)
          (λ k lo hi. skip_seps-passes p (length p) k lo (omega arith)) (omega arith) in
      let seps_whole = take_all (drop j p) (length p - j) (omega (arith, length-drop j p)) in
      rw some_left (
        take i p,
        drop j p,
        sym (slice_parts p i j (omega arith)),
        front-EndsInSep p (j - 1) i refl,
        subst IsSeps seps_whole seps,
        slice_All false p i (j - i) (λ k lo hi. last_of_name p j k i refl pos lo (omega arith) refl)
            (omega arith),
      )
]
