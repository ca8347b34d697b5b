-- ===== src/Xattr.antt =====
-- internal/xattrstore/xattrstore.go: logical names of extended attributes and the names under which
-- the host's file system keeps them. `linux` is `goos == "linux"`. Names are lists of bytes. The
-- system's own calls (`Get`, `Set` and the others) only pass on what these functions return.
pub mod Laws
mod Runs
use go_smb.Common.{
  ℕ, Bool, true, false, not, Option, none, some, List, [], ◌∷◌, ◌++◌, length, ltb, ◌==◌, ◌&&◌,
  if◌then◌else◌,
}

-- "user.smbrelay."
abbrev pub linux_prefix : List ℕ
linux_prefix =
    b'u' ∷ b's' ∷ b'e' ∷ b'r' ∷ b'.' ∷ b's' ∷ b'm' ∷ b'b' ∷ b'r' ∷ b'e' ∷ b'l' ∷ b'a' ∷ b'y' ∷ b'.'
    ∷ []

abbrev pub linux_max_name_len : ℕ
linux_max_name_len = 255

abbrev pub has_nul : List ℕ → Bool
has_nul [] = false
has_nul (c ∷ cs) = if c == 0 then true else has_nul cs

abbrev pub is_empty : List ℕ → Bool
is_empty [] = true
is_empty (c ∷ cs) = false

pub data NameError : Type 0 where
  empty_name contains_nul too_long : NameError

pub data NameResult : Type 0 where
  ok : List ℕ → NameResult
  err : NameError → NameResult

unfoldable pub native_name_for_os : Bool → List ℕ → NameResult
native_name_for_os linux name =
    if is_empty name
    then err empty_name
    else if has_nul name
    then err contains_nul
    else if not linux
    then ok name
    else if ltb linux_max_name_len (length (linux_prefix ++ name))
    then err too_long
    else ok (linux_prefix ++ name)

-- `strings.HasPrefix` and `TrimPrefix` in one: the rest behind the prefix.
abbrev pub trim_prefix : List ℕ → List ℕ → Option (List ℕ)
trim_prefix [] s = some s
trim_prefix (p ∷ ps) [] = none
trim_prefix (p ∷ ps) (c ∷ cs) = if p == c then trim_prefix ps cs else none

-- The name and whether it is visible.
abbrev pub visible : Option (List ℕ) → List ℕ × Bool
visible none = ([], false)
visible (some logical) = (logical, not (is_empty logical))

unfoldable pub logical_name_for_os : Bool → List ℕ → List ℕ × Bool
logical_name_for_os linux native =
    if not linux then (native, true) else visible (trim_prefix linux_prefix native)

abbrev pub same_name : List ℕ → List ℕ → Bool
same_name [] [] = true
same_name [] (d ∷ ds) = false
same_name (c ∷ cs) [] = false
same_name (c ∷ cs) (d ∷ ds) = c == d && same_name cs ds

-- The map `seen`, as the names put into it.
abbrev pub is_seen : List ℕ → List (List ℕ) → Bool
is_seen name [] = false
is_seen name (s ∷ ss) = if same_name s name then true else is_seen name ss

-- The loop: `seen` holds the names put out so far.
abbrev pub names_loop : Bool → List (List ℕ) → List (List ℕ) → List (List ℕ)
names_loop linux seen [] = []
names_loop linux seen (native ∷ rest) =
    let named = logical_name_for_os linux native in
    let name : List ℕ = named.0 in
    let skip = names_loop linux seen rest in
    let keep = name ∷ names_loop linux (name ∷ seen) rest in
    if not named.1 then skip else if is_seen name seen then skip else keep

-- `sort.Strings` is a parameter.
unfoldable pub logical_names :
    (List (List ℕ) → List (List ℕ)) → Bool → List (List ℕ) → List (List ℕ)
logical_names sort linux native = sort (names_loop linux [] native)
