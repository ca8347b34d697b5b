-- ===== src/Files/Security/Laws.antt =====
-- server/acl.go and server/file_tree.go: the mode that a descriptor carries.
use go_smb.Common.{ℕ, Bool, true, false, ◌<◌, ◌≡◌, ◌^◌, refl, ap, some, replicate}
use go_smb.Bytes.{Slice, of_list}
use go_smb.Bytes.Words.{decode_le-encode_4}
use go_smb.Acl.{SecurityDescriptor, descriptor_size, encode_descriptor, nfs_mode}
use go_smb.Files.Security.{descriptor}

abbrev pub zeros : SecurityDescriptor → Slice
zeros d = of_list (replicate (descriptor_size d) 0)

-- The descriptor that `queryInfoSec` makes for a mode below 2 ^ 32, with the owner, the group, both or neither before the
-- list, fits into as many bytes as it says that it has, and `setSecInfo` reads the same mode from these bytes.
pub nfs_mode-encode_descriptor :
    (owner group : Bool) (uid gid mode : ℕ)
    → mode < 2 ^ 32
    → (q : Slice) × (encode_descriptor
          (descriptor owner group uid gid (some mode))
          (zeros (descriptor owner group uid gid (some mode)))
        ≡ some q)
      × (nfs_mode q ≡ some (some mode))
unfolding encode_descriptor nfs_mode go_smb.Bytes.get_le_from go_smb.Bytes.from go_smb.Bytes.index
    go_smb.Bytes.get_le go_smb.Bytes.Writes.writes
nfs_mode-encode_descriptor false false uid gid mode h =
    (_, refl, ap (λ m. some (some m)) (decode_le-encode_4 mode h))
nfs_mode-encode_descriptor false true uid gid mode h =
    (_, refl, ap (λ m. some (some m)) (decode_le-encode_4 mode h))
nfs_mode-encode_descriptor true false uid gid mode h =
    (_, refl, ap (λ m. some (some m)) (decode_le-encode_4 mode h))
nfs_mode-encode_descriptor true true uid gid mode h =
    (_, refl, ap (λ m. some (some m)) (decode_le-encode_4 mode h))
