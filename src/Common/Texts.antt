-- ===== src/Common/Texts.antt =====
-- Go strings and byte slices as lists of bytes: their equality (`bytes.Equal`, `==`), and Go maps with strings for
-- keys, read and changed as the maps of Assoc.
use Prim.Native.Nat.{ℕ}
use mathlib.Core.Path.{◌≡◌, refl, sym}
use mathlib.Core.Logic.{◌≢◌, ◌⊎◌, inl, inr}
use mathlib.Core.Bool.{Bool, true, false, ◌&&◌}
use mathlib.Core.Option.{Option, none, some}
use mathlib.Core.List.{List, [], ◌∷◌}
use native.Mathlib.Omega.{arith}
use go_smb.Common.Tests.{◌==◌, if◌then◌else◌, Bool-cases}

abbrev pub Text : Type 0
Text = List ℕ

abbrev pub equal_bytes : List ℕ → List ℕ → Bool
equal_bytes [] [] = true
equal_bytes [] (b ∷ bs) = false
equal_bytes (a ∷ rest) [] = false
equal_bytes (a ∷ rest) (b ∷ bs) = a == b && equal_bytes rest bs

pub equal_bytes_refl : (a : List ℕ) → equal_bytes a a ≡ true
equal_bytes_refl [] = refl
equal_bytes_refl (c ∷ cs) = ground (arith, equal_bytes_refl cs)

pub equal_bytes-eq : (a b : List ℕ) → equal_bytes a b ≡ true → a ≡ b
equal_bytes-eq [] [] e = refl
equal_bytes-eq [] (b ∷ bs) e = cc
equal_bytes-eq (a ∷ rest) [] e = cc
equal_bytes-eq (a ∷ rest) (b ∷ bs) e =
    let tail = equal_bytes-eq rest bs (ground arith) in ground arith

pub equal_bytes_sym : (a b : List ℕ) → equal_bytes a b ≡ equal_bytes b a
equal_bytes_sym [] [] = refl
equal_bytes_sym [] (b ∷ bs) = refl
equal_bytes_sym (a ∷ rest) [] = refl
equal_bytes_sym (a ∷ rest) (b ∷ bs) = let tail = equal_bytes_sym rest bs in ground arith

pub equal_bytes_differ : (a b : List ℕ) → a ≢ b → equal_bytes a b ≡ false
equal_bytes_differ a b h = elim (Bool-cases (equal_bytes a b)) [
  | inl e ↦ absurd (h (equal_bytes-eq a b e))
  | inr e ↦ e
]

equal_bytes_other :
    (i j k : List ℕ) → equal_bytes i k ≡ false → equal_bytes i j ≡ true → equal_bytes k j ≡ false
equal_bytes_other i j k e f = rw (sym (equal_bytes-eq i j f), equal_bytes_sym k i) e

module _ {ℓ} {V : Type ℓ} where
  abbrev pub find : Text → List (Text × V) → Option V
  find k [] = none
  find k ((j, v) ∷ m) = if equal_bytes j k then some v else find k m

  abbrev pub insert : Text → V → List (Text × V) → List (Text × V)
  insert k v [] = (k, v) ∷ []
  insert k v ((j, w) ∷ m) = if equal_bytes j k then (k, v) ∷ m else (j, w) ∷ insert k v m

  abbrev pub erase : Text → List (Text × V) → List (Text × V)
  erase k [] = []
  erase k ((j, w) ∷ m) = if equal_bytes j k then erase k m else (j, w) ∷ erase k m

  pub find-insert :
      (k j : Text) (v : V) (m : List (Text × V))
      → find j (insert k v m) ≡ (if equal_bytes k j then some v else find j m)
  find-insert k j v [] = refl
  find-insert k j v ((i, w) ∷ m) = elim (Bool-cases (equal_bytes i k)) [
    | inl e ↦ rw (e, equal_bytes-eq i k e) (ground arith)
    | inr e ↦ elim (Bool-cases (equal_bytes i j)) [
      | inl f ↦ rw (e, f, equal_bytes_other i j k e f) refl
      | inr f ↦ rw (e, f) (find-insert k j v m)
    ]
  ]

  pub find-erase :
      (k j : Text) (m : List (Text × V))
      → find j (erase k m) ≡ (if equal_bytes k j then none else find j m)
  find-erase k j [] = ground arith
  find-erase k j ((i, w) ∷ m) = elim (Bool-cases (equal_bytes i k)) [
    | inl e ↦ rw (e, equal_bytes-eq i k e, find-erase k j m) (ground arith)
    | inr e ↦ elim (Bool-cases (equal_bytes i j)) [
      | inl f ↦ rw (e, f, equal_bytes_other i j k e f) refl
      | inr f ↦ rw (e, f) (find-erase k j m)
    ]
  ]

  pub find-erase-some :
      (k j : Text) (m : List (Text × V)) {v : V}
      → find j (erase k m) ≡ some v
      → (equal_bytes k j ≡ false) × (find j m ≡ some v)
  find-erase-some k j m h = elim (Bool-cases (equal_bytes k j)) [
    | inl e ↦ let none_left : find j (erase k m) ≡ none = rw (find-erase k j m, e) refl in cc
    | inr e ↦ (e, (let same : find j (erase k m) ≡ find j m = rw (find-erase k j m, e) refl in cc))
  ]

  pub find-insert-some :
      (k j : Text) (v : V) (m : List (Text × V)) {w : V}
      → find j (insert k v m) ≡ some w
      → (((equal_bytes k j) ≡ true) × (v ≡ w)) ⊎ (((equal_bytes k j) ≡ false) × (find j m ≡ some w))
  find-insert-some k j v m h = elim (Bool-cases (equal_bytes k j)) [
    | inl e ↦
        let new : find j (insert k v m) ≡ some v = rw (find-insert k j v m, e) refl in inl (e, cc)
    | inr e ↦
        let old : find j (insert k v m) ≡ find j m = rw (find-insert k j v m, e) refl in inr (e, cc)
  ]
