-- ===== src/Send/Runs.antt =====
-- The frame of a compound of two responses.
use go_smb.Common.{ℕ, ◌≡◌, ◌<◌, refl, some, List, [], ◌∷◌, length, replicate, arith}
use go_smb.Send.{compound_size, compound_encode, copy_from}
use go_smb.Send.Laws.{IsChained, walk, parts, compound_encode-walk}

-- The first byte of these responses is the distance to the next.
abbrev first_byte : List ℕ → ℕ
first_byte [] = 0
first_byte (a ∷ rest) = a

abbrev two_responses : List (List ℕ)
two_responses = (8 ∷ 1 ∷ 2 ∷ []) ∷ (0 ∷ 3 ∷ []) ∷ []

two_encoded :
    compound_encode 0 two_responses (replicate (compound_size two_responses) 0)
    ≡ some (8 ∷ 1 ∷ 2 ∷ 0 ∷ 0 ∷ 0 ∷ 0 ∷ 0 ∷ 0 ∷ 3 ∷ [])
unfolding compound_encode copy_from
two_encoded = refl

two_responses-IsChained : IsChained first_byte two_responses
two_responses-IsChained = (λ rest. refl, let long : 0 < 3 = omega arith in long, refl)

compound_encode-walk_example :
    (frame : List ℕ) × (compound_encode 0 two_responses (replicate (compound_size two_responses) 0)
      ≡ some frame)
    × (walk first_byte (length two_responses) frame ≡ parts two_responses)
compound_encode-walk_example = compound_encode-walk first_byte two_responses two_responses-IsChained
