-- ===== src/Conn/Trees/Runs.antt =====
-- A client that connects one share twice and disconnects it once.
use go_smb.Common.{
  ℕ, ◌-◌, ◌≡◌, ◌≢◌, refl, Bool, true, false, Option, none, some, List, [], ◌∷◌, map, leb, ◌&&◌,
  if◌then◌else◌, arith,
}
use go_smb.Common.Texts.{Text, equal_bytes}
use go_smb.Conn.Trees.{Server, Trees, no_trees, backslash}
use go_smb.Conn.Trees.Laws.{IsLinked, view}
use go_smb.Conn.Trees.Spec.{Op, connect, disconnect, run, replay, Fresh, hold_name}
use go_smb.Conn.Trees.Refines.{run_refines, no_trees-IsLinked}

abbrev upper_byte : ℕ → ℕ
upper_byte c = if leb 0x61 c && leb c 0x7a then c - 32 else c

abbrev ascii_upper : Text → Text
ascii_upper s = map upper_byte s

abbrev music : Text
music = 0x6d ∷ 0x75 ∷ 0x73 ∷ 0x69 ∷ 0x63 ∷ []

abbrev music_server : Server ℕ
music_server = record {
  shares = (ascii_upper music, 1) ∷ [];
  orig_shares = (music, 1) ∷ [];
  max_io_reads = 0;
  max_io_writes = 0;
}

abbrev music_path : Text
music_path = backslash ∷ backslash ∷ 0x73 ∷ backslash ∷ music

abbrev music_history : List Op
music_history = connect none music_path 7 ∷ connect none music_path 8 ∷ disconnect 7 ∷ []

other_id :
    (o : Option (ℕ × ℕ)) (b : Bool) (c : ℕ)
    → o ≡ some (7, 1)
    → (if b then o else none) ≢ some (8, c)
other_id o true c e h = let ids : ◌≡◌ {A = ℕ} 7 8 = cc (e, h) in omega (arith, ids)
other_id o false c e h = cc h

music_history-Fresh : Fresh ascii_upper music_server music_history (view {F = ℕ} no_trees)
unfolding go_smb.Conn.Trees.Spec.tree_name go_smb.Conn.Trees.find_share
music_history-Fresh =
    (λ n c h. cc h, (λ n c. other_id (some (7, 1)) (equal_bytes music n) c refl, tt))

music_history_counts :
    (st' : Trees ℕ) × (run ascii_upper music_server music_history no_trees ≡ some st')
    × IsLinked st'
    × (view st' ≡ replay ascii_upper music_server music_history (view {F = ℕ} no_trees))
music_history_counts =
    run_refines ascii_upper music_server music_history no_trees no_trees-IsLinked
      music_history-Fresh

music_has_one_reference :
    replay ascii_upper music_server music_history (view {F = ℕ} no_trees) music ≡ some (7, 1)
unfolding go_smb.Conn.Trees.Spec.tree_name go_smb.Conn.Trees.find_share
music_has_one_reference = refl
