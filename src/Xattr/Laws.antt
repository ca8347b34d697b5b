-- ===== src/Xattr/Laws.antt =====
-- internal/xattrstore/xattrstore.go: logical and native names.
use go_smb.Common.{
  ℕ, ◌≡◌, refl, Bool, true, false, not, some, List, [], ◌∷◌, ◌++◌, length, ltb, arith, ◌==◌, ◌&&◌,
  inl, inr, Bool-cases, Option-cases, if◌then◌else◌, ap, ◌∙◌, ==_refl,
}
use go_smb.Xattr.{
  linux_prefix, linux_max_name_len, is_empty, native_name_for_os, trim_prefix, logical_name_for_os,
  ok, is_seen, same_name, names_loop,
}

trim_prefix-some : (p n s : List ℕ) → trim_prefix p n ≡ some s → n ≡ p ++ s
trim_prefix-some [] n s e = ground arith
trim_prefix-some (c ∷ cs) [] s e = cc
trim_prefix-some (c ∷ cs) (d ∷ ds) s e = elim (Bool-cases (c == d)) [
  | inl same ↦ let rest = trim_prefix-some cs ds s (ground arith) in ground arith
  | inr other ↦ ground arith
]

-- A name that has a native form is read back as visible; on Linux the native form has the private
-- prefix and at most 255 bytes.
pub logical-native_name :
    (linux : Bool) (name native : List ℕ)
    → native_name_for_os linux name ≡ ok native
    → (logical_name_for_os linux native ≡ (name, true))
      × (native ≡ (if linux then linux_prefix ++ name else name))
      × ((linux && ltb linux_max_name_len (length native)) ≡ false)
unfolding native_name_for_os logical_name_for_os
logical-native_name true name native e =
    let kept : is_empty name ≡ false = ground arith in
    let is : native ≡ linux_prefix ++ name = ground arith in
    let short : ltb linux_max_name_len (length native) ≡ false = ground arith in
    (rw (is, kept), is, short)
logical-native_name false name native e = let is : native ≡ name = ground arith in (rw is, is, refl)

-- Conversely, on Linux, whatever is visible is a non-empty name behind the private prefix.
pub logical_name-visible :
    (native : List ℕ) {name : List ℕ}
    → logical_name_for_os true native ≡ (name, true)
    → (native ≡ linux_prefix ++ name) × (is_empty name ≡ false)
unfolding logical_name_for_os
logical_name-visible native {name} e = elim (Option-cases (trim_prefix linux_prefix native)) [
  | inl hidden ↦ ground arith
  | inr (s, e') ↦
      let same : s ≡ name = ground arith in
      (trim_prefix-some linux_prefix native s e' ∙ ap (λ t. linux_prefix ++ t) same, ground arith)
]

same_name-eq : (a b : List ℕ) → same_name a b ≡ true → a ≡ b
same_name-eq [] [] e = refl
same_name-eq [] (d ∷ ds) e = cc
same_name-eq (c ∷ cs) [] e = cc
same_name-eq (c ∷ cs) (d ∷ ds) e = let rest = same_name-eq cs ds (ground arith) in ground arith

same_name_refl : (a : List ℕ) → same_name a a ≡ true
same_name_refl [] = refl
same_name_refl (c ∷ cs) = rw (==_refl c) (same_name_refl cs)

-- No name of the list is among `seen` or occurs again in it.
abbrev pub IsFresh : List (List ℕ) → List (List ℕ) → Type 0
IsFresh seen [] = Unit {0}
IsFresh seen (n ∷ ns) = (is_seen n seen ≡ false) × IsFresh (n ∷ seen) ns

-- The loop puts out no logical name twice.
names_loop-IsFresh :
    (linux : Bool) (seen natives : List (List ℕ)) → IsFresh seen (names_loop linux seen natives)
names_loop-IsFresh linux seen [] = tt
names_loop-IsFresh linux seen (native ∷ rest) =
    let name : List ℕ = (logical_name_for_os linux native).0 in
    elim (Bool-cases (not (logical_name_for_os linux native).1)) [
      | inl hidden ↦ rw hidden (names_loop-IsFresh linux seen rest)
      | inr shown ↦ elim (Bool-cases (is_seen name seen)) [
        | inl old ↦ rw (shown, old) (names_loop-IsFresh linux seen rest)
        | inr new ↦ rw (shown, new) (new, names_loop-IsFresh linux (name ∷ seen) rest)
      ]
    ]
