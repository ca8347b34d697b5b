-- ===== src/Send/Laws.antt =====
-- server/compound.go: where the responses of a compound stand in the frame.
use go_smb.Common.{
  ℕ, zero, suc, ◌+◌, ◌-◌, ◌≤◌, ◌<◌, ◌≡◌, refl, sym, ◌∙◌, ap, true, false, some, List, [], ◌∷◌, ◌++◌,
  append_assoc, append-nil, length, take, drop, replicate, leb, le→leb, ◌==◌, if◌then◌else◌, arith,
  length-append, length-replicate, take-append_length, drop-append_length, take_all, drop-drop,
}
use go_smb.Send.{align_8, compound_size, copy_from, compound_encode}

drop-replicate : (n k a : ℕ) → drop n (replicate k a) ≡ replicate (k - n) a
drop-replicate zero k a = let same : k - 0 ≡ k = omega arith in rw same refl
drop-replicate (suc n) zero a = let same : 0 - suc n ≡ 0 = omega arith in rw same refl
drop-replicate (suc n) (suc k) a =
    let same : suc k - suc n ≡ k - n = omega arith in rw same (drop-replicate n k a)

replicate_add : (a b x : ℕ) → replicate (a + b) x ≡ replicate a x ++ replicate b x
replicate_add zero b x = let same : 0 + b ≡ b = omega arith in rw same refl
replicate_add (suc a) b x =
    let same : suc a + b ≡ suc (a + b) = omega arith in
    rw same (ap (λ l. x ∷ l) (replicate_add a b x))

-- The padding up to the next response.
abbrev pub padded : List ℕ → List ℕ
padded p = p ++ replicate (align_8 (length p) - length p) 0

-- The responses one behind the other, all but the last padded.
abbrev pub joined : List (List ℕ) → List ℕ
joined [] = []
joined (p ∷ []) = p
joined (p ∷ q ∷ ps) = padded p ++ joined (q ∷ ps)

length-padded : (p : List ℕ) → length (padded p) ≡ align_8 (length p)
length-padded p =
    rw
      (
        length-append p (replicate (align_8 (length p) - length p) 0),
        length-replicate {A = ℕ} (align_8 (length p) - length p) 0,
      )
      (omega arith)

copy_from-zeros :
    (pre p : List ℕ) (k : ℕ)
    → length p ≤ k
    → copy_from (length pre) p (pre ++ replicate k 0)
      ≡ some (pre ++ (p ++ replicate (k - length p) 0))
unfolding copy_from
copy_from-zeros pre p k h =
    let buf = pre ++ replicate k 0 in
    let long : length buf ≡ length pre + k =
      rw (length-append pre (replicate k 0), length-replicate {A = ℕ} k 0) refl in
    let inside : leb (length pre) (length buf) ≡ true =
      le→leb (length pre) (length buf) (omega (arith, long)) in
    let room : length buf - length pre ≡ k = omega (arith, long) in
    let rest : drop (length pre + length p) buf ≡ replicate (k - length p) 0 =
      sym (drop-drop (length pre) (length p) buf)
      ∙ ap (λ l. drop (length p) l) (drop-append_length pre (replicate k 0))
      ∙ drop-replicate (length p) k 0 in
    rw (copy_from, inside, room, take-append_length pre (replicate k 0), take_all p k h, rest) refl

compound_encode-from :
    (pre : List ℕ) (ps : List (List ℕ))
    → compound_encode (length pre) ps (pre ++ replicate (compound_size ps) 0)
      ≡ some (pre ++ joined ps)
unfolding compound_encode
compound_encode-from pre [] = refl
compound_encode-from pre (p ∷ []) =
    let none_left : length p - length p ≡ 0 = omega arith in
    let copied = copy_from-zeros pre p (length p) (omega arith) in
    rw (compound_encode, copied, none_left, append-nil p) refl
compound_encode-from pre (p ∷ q ∷ ps) =
    let size = compound_size (q ∷ ps) in
    let gap = align_8 (length p) - length p in
    let copied = copy_from-zeros pre p (align_8 (length p) + size) (omega arith) in
    let left : align_8 (length p) + size - length p ≡ gap + size = omega arith in
    let laid : pre ++ (p ++ replicate (align_8 (length p) + size - length p) 0)
        ≡ (pre ++ padded p) ++ replicate size 0 =
      rw (left, replicate_add gap size 0)
        (sym (
          append_assoc pre (padded p) (replicate size 0)
          ∙ ap (λ l. pre ++ l) (append_assoc p (replicate gap 0) (replicate size 0)))) in
    let next : length pre + align_8 (length p) ≡ length (pre ++ padded p) =
      sym (length-append pre (padded p) ∙ ap (λ n. length pre + n) (length-padded p)) in
    rw (compound_encode, copied, laid, next)
      (compound_encode-from (pre ++ padded p) (q ∷ ps)
        ∙ ap (λ l. some l) (append_assoc pre (padded p) (joined (q ∷ ps))))

-- The parts that a reader finds who follows the distances that the parts give, 0 for the last.
abbrev pub walk : (List ℕ → ℕ) → ℕ → List ℕ → List (List ℕ)
walk next zero frame = []
walk next (suc fuel) frame =
    let rest = walk next fuel (drop (next frame) frame) in
    if next frame == 0 then frame ∷ [] else take (next frame) frame ∷ rest

-- The distance that a response gives, whatever follows it: its aligned length, and 0 for the last one.
abbrev pub IsChained : (List ℕ → ℕ) → List (List ℕ) → Type 0
IsChained next [] = Unit
IsChained next (p ∷ []) = next p ≡ 0
IsChained next (p ∷ q ∷ ps) =
    ((rest : List ℕ) → next (p ++ rest) ≡ align_8 (length p))
    × (0 < length p)
    × IsChained next (q ∷ ps)

-- The responses, all but the last padded.
abbrev pub parts : List (List ℕ) → List (List ℕ)
parts [] = []
parts (p ∷ []) = p ∷ []
parts (p ∷ q ∷ ps) = padded p ∷ parts (q ∷ ps)

walk-far :
    {n : ℕ} (next : List ℕ → ℕ) (fuel : ℕ) (frame : List ℕ)
    → next frame ≡ n
    → (n == 0) ≡ false
    → walk next (suc fuel) frame ≡ take n frame ∷ walk next fuel (drop n frame)
walk-far next fuel frame at more = rw (at, more) refl

walk-joined :
    (next : List ℕ → ℕ) (ps : List (List ℕ))
    → IsChained next ps
    → walk next (length ps) (joined ps) ≡ parts ps
walk-joined next [] h = refl
walk-joined next (p ∷ []) h = rw h refl
walk-joined next (p ∷ q ∷ ps) (far, long, h) =
    let tail = joined (q ∷ ps) in
    let at : next (padded p ++ tail) ≡ align_8 (length p) =
      ap next (append_assoc p (replicate (align_8 (length p) - length p) 0) tail) ∙ far _ in
    let more : (align_8 (length p) == 0) ≡ false = grind arith in
    let taken : take (align_8 (length p)) (padded p ++ tail) ≡ padded p =
      sym (ap (λ n. take n (padded p ++ tail)) (length-padded p))
      ∙ take-append_length (padded p) tail in
    let dropped : drop (align_8 (length p)) (padded p ++ tail) ≡ tail =
      sym (ap (λ n. drop n (padded p ++ tail)) (length-padded p))
      ∙ drop-append_length (padded p) tail in
    walk-far next (length (q ∷ ps)) (padded p ++ tail) at more
    ∙ ap (λ part. part ∷ walk next (length (q ∷ ps)) (drop (align_8 (length p)) (padded p ++ tail)))
        taken
    ∙ ap (λ rest. padded p ∷ walk next (length (q ∷ ps)) rest) dropped
    ∙ ap (λ rest. padded p ∷ rest) (walk-joined next (q ∷ ps) h)

-- If every response but the last is not empty and gives its aligned length as the distance to the next, and the last
-- gives 0, then Encode fills the buffer of Size zeros without a panic, and a reader who follows the distances finds each
-- response with its padding, in order and no more.
pub compound_encode-walk :
    (next : List ℕ → ℕ) (ps : List (List ℕ))
    → IsChained next ps
    → (frame : List ℕ) × (compound_encode 0 ps (replicate (compound_size ps) 0) ≡ some frame)
      × (walk next (length ps) frame ≡ parts ps)
compound_encode-walk next ps h = (joined ps, compound_encode-from [] ps, walk-joined next ps h)
