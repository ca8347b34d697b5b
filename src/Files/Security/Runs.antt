-- ===== src/Files/Security/Runs.antt =====
-- The descriptor of a file of mode 0644, with its owner.
use go_smb.Common.{◌≡◌, true, false, some, arith}
use go_smb.Bytes.{Slice}
use go_smb.Acl.{encode_descriptor, nfs_mode}
use go_smb.Files.Security.{descriptor}
use go_smb.Files.Security.Laws.{zeros, nfs_mode-encode_descriptor}

nfs_mode-encode_descriptor_example :
    (q : Slice) × (encode_descriptor
        (descriptor true false 501 20 (some 0o100644))
        (zeros (descriptor true false 501 20 (some 0o100644)))
      ≡ some q)
    × (nfs_mode q ≡ some (some 0o100644))
nfs_mode-encode_descriptor_example =
    nfs_mode-encode_descriptor true false 501 20 0o100644 (omega arith)
