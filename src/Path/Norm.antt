-- ===== src/Path/Norm.antt =====
-- server/path.go, `normPath`.
use go_smb.Common.{
  ℕ, ◌≡◌, refl, true, false, List, [], ◌∷◌, arith, ◌==◌, inl, inr, Bool-cases, ap, ◌∙◌, All,
}
use go_smb.Path.{to_separators, strip_dots, drop_dot, is_dot_sep, norm_path}

-- No byte is a slash.
abbrev HasNoSlash : List ℕ → Type 0
HasNoSlash = All (λ c. (c == b'/') ≡ false)

to_separators-HasNoSlash : (p : List ℕ) → HasNoSlash (to_separators p)
to_separators-HasNoSlash [] = tt
to_separators-HasNoSlash (c ∷ cs) = (ground arith, to_separators-HasNoSlash cs)

to_separators_same : (p : List ℕ) → HasNoSlash p → to_separators p ≡ p
to_separators_same [] h = refl
to_separators_same (c ∷ cs) (h, hs) = rw (h, to_separators_same cs hs)

strip_dots-HasNoSlash : (p : List ℕ) → HasNoSlash p → HasNoSlash (strip_dots p)
strip_dots-HasNoSlash [] h = h
strip_dots-HasNoSlash (c ∷ []) h = h
strip_dots-HasNoSlash (c ∷ d ∷ rest) (hc, (hd, h)) = elim (Bool-cases (is_dot_sep c d)) [
  | inl dots ↦ rw dots (strip_dots-HasNoSlash rest h)
  | inr other ↦ rw other (hc, (hd, h))
]

strip_dots-strip_dots : (p : List ℕ) → strip_dots (strip_dots p) ≡ strip_dots p
strip_dots-strip_dots [] = refl
strip_dots-strip_dots (c ∷ []) = refl
strip_dots-strip_dots (c ∷ d ∷ rest) = elim (Bool-cases (is_dot_sep c d)) [
  | inl dots ↦ rw dots (strip_dots-strip_dots rest)
  | inr other ↦ rw (other, other)
]

drop_dot-HasNoSlash : (p : List ℕ) → HasNoSlash p → HasNoSlash (drop_dot p)
drop_dot-HasNoSlash [] h = h
drop_dot-HasNoSlash (c ∷ []) h = ground arith
drop_dot-HasNoSlash (c ∷ d ∷ rest) h = h

-- A stripped path stays as it is after its dot is dropped.
strip-drop_dot : (p : List ℕ) → strip_dots p ≡ p → strip_dots (drop_dot p) ≡ drop_dot p
strip-drop_dot [] e = refl
strip-drop_dot (c ∷ []) e = elim (Bool-cases (c == b'.')) [
  | inl dot ↦ rw dot
  | inr other ↦ rw other
]
strip-drop_dot (c ∷ d ∷ rest) e = e

drop_dot-drop_dot : (p : List ℕ) → drop_dot (drop_dot p) ≡ drop_dot p
drop_dot-drop_dot [] = refl
drop_dot-drop_dot (c ∷ []) = elim (Bool-cases (c == b'.')) [
  | inl dot ↦ rw dot
  | inr other ↦ rw (other, other)
]
drop_dot-drop_dot (c ∷ d ∷ rest) = refl

-- A normalised path has no slash and is not changed by normalising it again.
norm_path-norm_path :
    (p : List ℕ)
    → HasNoSlash (norm_path true p) × (norm_path true (norm_path true p) ≡ norm_path true p)
unfolding norm_path
norm_path-norm_path p =
    let stripped : List ℕ = strip_dots (to_separators p) in
    let no_slash =
      drop_dot-HasNoSlash stripped (strip_dots-HasNoSlash _ (to_separators-HasNoSlash p)) in
    (
      no_slash,
      ap (λ q. drop_dot (strip_dots q)) (to_separators_same (drop_dot stripped) no_slash)
          ∙ ap drop_dot (strip-drop_dot stripped (strip_dots-strip_dots (to_separators p)))
          ∙ drop_dot-drop_dot stripped,
    )
