-- ===== src/Transport/Runs.antt =====
-- Two frames and a byte of the next.
use go_smb.Common.{ℕ, List, ◌≡◌, ◌++◌, some, [], ◌∷◌, arith}
use go_smb.Transport.{write_frames, read_frames}
use go_smb.Transport.Laws.{read-write_frames}

read-write_frames_example :
    (bs : List ℕ) × (write_frames ((1 ∷ 2 ∷ []) ∷ (3 ∷ []) ∷ []) ≡ some bs)
    × (read_frames 2 (bs ++ (0 ∷ [])) ≡ some ((1 ∷ 2 ∷ []) ∷ (3 ∷ []) ∷ [], 0 ∷ []))
read-write_frames_example =
    read-write_frames ((1 ∷ 2 ∷ []) ∷ (3 ∷ []) ∷ []) (0 ∷ [])
      ((omega arith, omega arith), ((omega arith, omega arith), tt))
