-- ===== src/Path.antt =====
-- server/path.go: path arguments, as lists of bytes. An index loop counts down on its index.
pub mod Laws
pub mod Norm
use go_smb.Common.{
  ℕ, zero, suc, ◌+◌, ◌-◌, Bool, true, false, Option, none, some, List, [], ◌∷◌, ◌++◌, map, length,
  get_elem?, take, drop, ◌==◌, ◌&&◌, not, if◌then◌else◌,
}

abbrev pub separator : ℕ
separator = 0x5c

-- `IsPathSeparator(path[i])`; the loops read no index out of range.
abbrev pub is_sep_at : List ℕ → ℕ → Bool
is_sep_at path i = elim (get_elem? path i) [ none ↦ false | some c ↦ c == separator ]

-- `for j > 0 && IsPathSeparator(path[j-1]) { j-- }`.
abbrev pub skip_seps : List ℕ → ℕ → ℕ
skip_seps path zero = 0
skip_seps path (suc j) = let rest = skip_seps path j in if is_sep_at path j then rest else suc j

-- `for i > 0 && !IsPathSeparator(path[i-1]) { i-- }`.
abbrev pub skip_name : List ℕ → ℕ → ℕ
skip_name path zero = 0
skip_name path (suc i) = let rest = skip_name path i in if is_sep_at path i then suc i else rest

-- `path[i:j]`.
abbrev pub slice : List ℕ → ℕ → ℕ → List ℕ
slice path i j = take (j - i) (drop i path)

unfoldable pub base : List ℕ → List ℕ
base path =
    let j = skip_seps path (length path) in
    if j == 0 then [] else slice path (skip_name path (j - 1)) j

unfoldable pub dir : List ℕ → List ℕ
dir [] = []
dir (c ∷ rest) =
    let path : List ℕ = c ∷ rest in
    let i = skip_seps path (length path) in
    if i == 0
    then separator ∷ []
    else let k = skip_name path (i - 1) in
      if k == 0
      then []
      else let m = skip_seps path (k - 1) in if m == 0 then separator ∷ [] else slice path 0 m

-- The index starts at `len(path) - 1` and may go below zero: it is one less than here.
unfoldable pub split : List ℕ → List ℕ × List ℕ
split path = let i = skip_name path (length path) in (take i path, drop i path)

pub data PathError : Type 0 where
  slash_used leading_separator : PathError

abbrev pub contains : ℕ → List ℕ → Bool
contains c [] = false
contains c (d ∷ ds) = if d == c then true else contains c ds

abbrev pub starts_with_sep : List ℕ → Bool
starts_with_sep [] = false
starts_with_sep (c ∷ cs) = c == separator

-- `NORMALIZE_PATH` is a variable of the package: `normalize`. `none` is no error.
abbrev pub validate_path : Bool → List ℕ → Bool → Option PathError
validate_path normalize [] allow_abs = none
validate_path normalize (c ∷ cs) allow_abs =
    if not normalize && contains b'/' (c ∷ cs)
    then some slash_used
    else if not allow_abs && starts_with_sep (c ∷ cs)
    then some leading_separator
    else none

-- `strings.Replace(path, "/", "\\", -1)`.
abbrev pub to_separators : List ℕ → List ℕ
to_separators = map (λ c. if c == b'/' then separator else c)

abbrev pub is_dot_sep : ℕ → ℕ → Bool
is_dot_sep c d = c == b'.' && d == separator

-- `for strings.HasPrefix(path, ".\\") { path = path[2:] }`.
abbrev pub strip_dots : List ℕ → List ℕ
strip_dots [] = []
strip_dots (c ∷ []) = c ∷ []
strip_dots (c ∷ d ∷ rest) =
    let more = strip_dots rest in if is_dot_sep c d then more else c ∷ d ∷ rest

-- `if path == "." { return "" }`.
abbrev pub drop_dot : List ℕ → List ℕ
drop_dot [] = []
drop_dot (c ∷ []) = if c == b'.' then [] else c ∷ []
drop_dot (c ∷ d ∷ rest) = c ∷ d ∷ rest

unfoldable pub norm_path : Bool → List ℕ → List ℕ
norm_path normalize path = if normalize then drop_dot (strip_dots (to_separators path)) else path

unfoldable pub norm_pattern : Bool → List ℕ → List ℕ
norm_pattern normalize pattern = if normalize then strip_dots (to_separators pattern) else pattern

-- `strings.Join(elem, "\\")`.
abbrev pub join_seps : List (List ℕ) → List ℕ
join_seps [] = []
join_seps (e ∷ []) = e
join_seps (e ∷ f ∷ es) = e ++ (separator ∷ join_seps (f ∷ es))

unfoldable pub join : Bool → List (List ℕ) → List ℕ
unfolding norm_path
join normalize parts = norm_path normalize (join_seps parts)
