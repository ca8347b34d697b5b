-- ===== src/Common/Assoc.antt =====
-- Go maps with numbers for keys: association lists with one entry for a key. A read of a missing
-- key gives `none`, a delete of one changes nothing, and `insert` replaces.
use Prim.Native.Nat.{ℕ}
use mathlib.Core.Path.{◌≡◌, refl}
use mathlib.Core.Logic.{◌⊎◌, inl, inr}
use mathlib.Core.Bool.{true, false}
use mathlib.Core.Option.{Option, none, some}
use mathlib.Core.List.{List, [], ◌∷◌}
use native.Mathlib.Omega.{arith}
use go_smb.Common.Tests.{◌==◌, if◌then◌else◌, Bool-cases}

module _ {ℓ} {V : Type ℓ} where
  abbrev pub find : ℕ → List (ℕ × V) → Option V
  find k [] = none
  find k ((j, v) ∷ m) = if j == k then some v else find k m

  abbrev pub insert : ℕ → V → List (ℕ × V) → List (ℕ × V)
  insert k v [] = (k, v) ∷ []
  insert k v ((j, w) ∷ m) = if j == k then (k, v) ∷ m else (j, w) ∷ insert k v m

  abbrev pub erase : ℕ → List (ℕ × V) → List (ℕ × V)
  erase k [] = []
  erase k ((j, w) ∷ m) = if j == k then erase k m else (j, w) ∷ erase k m

  pub find-insert :
      (k j : ℕ) (v : V) (m : List (ℕ × V))
      → find j (insert k v m) ≡ (if k == j then some v else find j m)
  find-insert k j v [] = refl
  find-insert k j v ((i, w) ∷ m) = ground (arith, find-insert k j v m)

  pub find-erase :
      (k j : ℕ) (m : List (ℕ × V)) → find j (erase k m) ≡ (if k == j then none else find j m)
  find-erase k j [] = ground arith
  find-erase k j ((i, w) ∷ m) = ground (arith, find-erase k j m)

  pub find-erase-some :
      (k j : ℕ) (m : List (ℕ × V)) {v : V}
      → find j (erase k m) ≡ some v
      → ((k == j) ≡ false) × (find j m ≡ some v)
  find-erase-some k j m h = elim (Bool-cases (k == j)) [
    | inl e ↦ let none_left : find j (erase k m) ≡ none = rw (find-erase k j m, e) refl in cc
    | inr e ↦ (e, (let same : find j (erase k m) ≡ find j m = rw (find-erase k j m, e) refl in cc))
  ]

  pub find-insert-some :
      (k j : ℕ) (v : V) (m : List (ℕ × V)) {w : V}
      → find j (insert k v m) ≡ some w
      → (((k == j) ≡ true) × (v ≡ w)) ⊎ (((k == j) ≡ false) × (find j m ≡ some w))
  find-insert-some k j v m h = elim (Bool-cases (k == j)) [
    | inl e ↦
        let new : find j (insert k v m) ≡ some v = rw (find-insert k j v m, e) refl in inl (e, cc)
    | inr e ↦
        let old : find j (insert k v m) ≡ find j m = rw (find-insert k j v m, e) refl in inr (e, cc)
  ]
