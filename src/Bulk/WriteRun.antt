-- ===== src/Bulk/WriteRun.antt =====
-- bulk/backend.go: `resolve` and `applyWriteRun`, which applies a run of writes file by file. The file system and
-- package path/filepath are parameters. A result is the disk and whether there was no error.
pub mod Groups
pub mod Commute
pub mod Laws
mod Runs
use go_smb.Common.{
  ℕ, Bool, true, false, not, ◌&&◌, ◌||◌, Option, none, some, List, [], ◌∷◌, ◌++◌, map, length, take,
  ◌==◌, if◌then◌else◌, ◌>>=◌,
}
use go_smb.Common.Texts.{Text, equal_bytes}
use go_smb.Common.Texts as Texts
use go_smb.Bulk.{Operation}

-- `filepath.Clean(filepath.Join(root, name))` and `filepath.Rel`.
pub record Paths : Type 0 where
  pub clean_join : Text → Text → Text
  pub rel : Text → Text → Option Text

abbrev pub slashed : Text → Text
slashed name = map (λ c. if c == 0x5c then 0x2f else c) name

unfoldable pub resolve : Paths → Text → Text → Option Text
resolve paths root name =
    let clean = paths.clean_join root (slashed name) in
    elim (paths.rel root clean) [
      | none ↦ none
      | some rel ↦
          if equal_bytes rel (0x2e ∷ 0x2e ∷ [])
            || equal_bytes (take 3 rel) (0x2e ∷ 0x2e ∷ 0x2f ∷ [])
          then none
          else some clean
    ]

-- `os.OpenFile(p, os.O_RDWR, 0o600)`, `f.WriteAt` of a file at a path and `f.Sync` with `f.Close`: whether they
-- succeed, with all the bytes written, and what a write makes of the disk.
pub record Disk (D : Type 0) : Type 0 where
  pub opens : Text → D → Bool
  pub writes : Text → ℕ → List ℕ → D → Bool
  pub write_at : Text → ℕ → List ℕ → D → D
  pub syncs : Text → D → Bool

abbrev pub Groups : Type 0
Groups = List (Text × List Operation)

-- `byPath[p]`, empty for a missing key.
abbrev pub group_of : Text → Groups → List Operation
group_of p by_path = elim (Texts.find p by_path) [ none ↦ [] | some ops ↦ ops ]

-- The first loop: the paths in the order of their first write, and the writes of each.
unfoldable pub group_writes :
    Paths → Text → List Operation → List Text → Groups → Option (List Text × Groups)
group_writes paths root [] order by_path = some (order, by_path)
group_writes paths root (op ∷ ops) order by_path = elim (resolve paths root op.path) [
  | none ↦ none
  | some p ↦
      group_writes paths root ops
        (elim (Texts.find p by_path) [ none ↦ order ++ (p ∷ []) | some seen ↦ order ])
        (Texts.insert p (group_of p by_path ++ (op ∷ [])) by_path)
]

module _ {D : Type 0} (disk : Disk D) where
  -- The writes of one file, up to the first that fails.
  abbrev pub write_file : Text → List Operation → D → D × Bool
  write_file p [] d = (d, true)
  write_file p (op ∷ ops) d =
      let rest = write_file p ops (disk.write_at p op.offset op.content d) in
      if disk.writes p op.offset op.content d
      then rest
      else (disk.write_at p op.offset op.content d, false)

  -- The second loop.
  unfoldable pub write_groups : List Text → Groups → D → D × Bool
  write_groups [] by_path d = (d, true)
  write_groups (p ∷ order) by_path d =
      let done = write_file p (group_of p by_path) d in
      let rest = write_groups order by_path done.0 in
      if not (disk.opens p d)
      then (d, false)
      else if done.1 && disk.syncs p done.0
      then rest
      else (done.0, false)

  unfoldable pub apply_write_run : Paths → Text → List Operation → D → D × Bool
  apply_write_run paths root ops d = elim (group_writes paths root ops [] []) [
    | none ↦ (d, false)
    | some (order, by_path) ↦ write_groups order by_path d
  ]
