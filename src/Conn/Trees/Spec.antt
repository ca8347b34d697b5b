-- ===== src/Conn/Trees/Spec.antt =====
-- server/server.go: the contract of a connection's trees, on names alone, and histories of requests.
use go_smb.Common.{ℕ, ◌+◌, ◌-◌, ◌≢◌, Option, none, some, List, [], ◌∷◌, ◌==◌, if◌then◌else◌, ◌>>=◌}
use go_smb.Common.Texts.{Text, equal_bytes}
use go_smb.Session.{Session}
use go_smb.Conn.Trees.{
  Trees, Server, tree_connect, tree_disconnect, has_suffix, ipc_name, last_part, split_parts,
  find_share,
}

-- The requests, each with the number that `randint32` gives if it is called.
pub data Op : Type 0 where
  connect : Option Session → Text → ℕ → Op
  disconnect : ℕ → Op

-- The contract: names with the id and the count of their references.
abbrev pub View : Type 0
View = Text → Option (ℕ × ℕ)

abbrev pub one_more : ℕ → Option (ℕ × ℕ) → Option (ℕ × ℕ)
one_more id none = some (id, 1)
one_more id (some (i, c)) = some (i, c + 1)

abbrev pub one_less : ℕ → Option (ℕ × ℕ) → Option (ℕ × ℕ)
one_less id none = none
one_less id (some (i, c)) =
    if i == id then if c == 1 then none else some (i, c - 1) else some (i, c)

abbrev pub hold_name : Text → ℕ → View → View
hold_name n id v m = if equal_bytes n m then one_more id (v m) else v m

abbrev pub release_id : ℕ → View → View
release_id id v m = one_less id (v m)

module _ {F : Type 0} (to_upper : Text → Text) (server : Server F) where
  -- The name whose tree a path asks for.
  unfoldable pub tree_name : Text → Option Text
  tree_name path =
      if has_suffix path ipc_name then some ipc_name else elim (last_part (split_parts [] path)) [
        | none ↦ none
        | some name ↦ elim (find_share to_upper server name) [ none ↦ none | some fs ↦ some name ]
      ]

  abbrev pub spec_step : Op → View → View
  spec_step (connect s path id) v = elim (tree_name path) [ none ↦ v | some n ↦ hold_name n id v ]
  spec_step (disconnect id) v = release_id id v

  abbrev pub replay : List Op → View → View
  replay [] v = v
  replay (op ∷ ops) v = replay ops (spec_step op v)

  abbrev pub step : Op → Trees F → Option (Trees F)
  step (connect s path id) st = do done ← tree_connect to_upper server s path id st; some done.0
  step (disconnect id) st = do done ← tree_disconnect id st; some done.0

  unfoldable pub run : List Op → Trees F → Option (Trees F)
  run [] st = some st
  run (op ∷ ops) st = do st' ← step op st; run ops st'

  -- The numbers that `randint32` gives are ids of no tree at the time.
  abbrev pub Fresh : List Op → View → Type 0
  Fresh [] v = Unit
  Fresh (connect s path id ∷ ops) v =
      ((n : Text) (c : ℕ) → v n ≢ some (id, c)) × Fresh ops (spec_step (connect s path id) v)
  Fresh (disconnect id ∷ ops) v = Fresh ops (spec_step (disconnect id) v)
