-- ===== src/Xattr/Runs.antt =====
-- Names on Linux.
use go_smb.Common.{ℕ, List, ◌≡◌, ◌++◌, refl, true, false, [], ◌∷◌, ◌&&◌, ltb, length}
use go_smb.Xattr.{native_name_for_os, logical_name_for_os, linux_prefix, linux_max_name_len}
use go_smb.Xattr.Laws.{logical-native_name}

-- "tag".
abbrev tag : List ℕ
tag = 116 ∷ 97 ∷ 103 ∷ []

logical-native_name_example :
    (logical_name_for_os true (linux_prefix ++ tag) ≡ (tag, true))
    × (linux_prefix ++ tag ≡ linux_prefix ++ tag)
    × ((true && ltb linux_max_name_len (length (linux_prefix ++ tag))) ≡ false)
unfolding native_name_for_os
logical-native_name_example = logical-native_name true tag (linux_prefix ++ tag) refl
