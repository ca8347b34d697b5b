-- ===== src/Queue/Runs.antt =====
-- Two requests, 3 and 4, that are handed over with ids of their own, and with one id.
use go_smb.Common.{ℕ, false, some, List, [], ◌∷◌, ◌++◌, ◌≡◌, refl, none, ◌⊎◌}
use go_smb.Queue.{
  Outstanding, Event, ready, sending, received, waiting, sets, pops, hands, looks, cancels, step,
  run,
}
use go_smb.Queue.Laws.{
  Reachable, fresh, after, IsInOrder, drain, state, Reachable-IsInOrder, Reachable-drains,
  duplicate-stops,
}

-- The first request has been received, and the second is set.
abbrev two_requests : List (ℕ × ℕ)
two_requests = (7, 3) ∷ (8, 4) ∷ []

abbrev two_on_way : Outstanding ℕ
two_on_way = state two_requests false (sending 8) (received 7) (3 ∷ 4 ∷ []) []

two_on_way-Reachable : Reachable ℕ two_on_way
two_on_way-Reachable =
    after (sets 8 4) (state ((7, 3) ∷ []) false ready (received 7) (3 ∷ []) []) _
      (after hands (state ((7, 3) ∷ []) false (sending 7) waiting (3 ∷ []) []) _
        (after (sets 7 3) (state [] false ready waiting [] []) _ (after pops _ _ fresh tt refl) tt
          refl)
        tt refl)
      refl refl

two_on_way-IsInOrder : IsInOrder two_on_way
two_on_way-IsInOrder = Reachable-IsInOrder two_on_way two_on_way-Reachable

two_on_way_drained :
    (q : Outstanding ℕ) × (run (drain two_on_way.server two_on_way.receiver) two_on_way ≡ some q)
    × (q.popped ≡ two_on_way.sent)
two_on_way_drained = Reachable-drains two_on_way two_on_way-Reachable

same_id_stops :
    (q : Outstanding ℕ) × (run
        (sets 7 4 ∷ looks ∷ pops ∷ hands ∷ looks ∷ [])
        (state ((7, 3) ∷ []) false ready (received 7) (3 ∷ []) [])
      ≡ some q)
    × (q.popped ≡ [] ++ (4 ∷ []))
    × ((e : Event ℕ) → (e ≡ cancels) ⊎ (step e q ≡ none))
same_id_stops = duplicate-stops ((7, 3) ∷ []) (3 ∷ []) [] 7 4
