-- ===== src/Bulk/Apply/Loop.antt =====
-- bulk/backend.go, `apply`: the switch on the type of an operation, and the loop with its checkpoints.
use go_smb.Common.{
  ℕ, zero, suc, ◌+◌, Bool, true, false, ◌&&◌, ◌||◌, Option, none, some, List, [], ◌∷◌, length, drop,
  if◌then◌else◌,
}
use go_smb.Common.Texts.{Text, equal_bytes}
use go_smb.Bulk.{Operation}
use go_smb.Bulk.WriteRun.{Paths, resolve, apply_write_run}
use go_smb.Bulk.Apply.{
  Fs, Error, exist, not_exist, no_attr, other_error, later_symlink_replaces, is_symlink, is_regular,
  is_directory, is_known, write_type, create_type, mkdir_type, truncate_type, setattr_type,
  rename_type, remove_type, symlink_type, setxattr_type, removexattr_type,
}

abbrev pub is_exist : Error → Bool
is_exist exist = true
is_exist _ = false

abbrev pub is_not_exist : Error → Bool
is_not_exist not_exist = true
is_not_exist _ = false

abbrev pub is_no_attr : Error → Bool
is_no_attr no_attr = true
is_no_attr _ = false

-- The writes that a list begins with.
abbrev pub take_writes : List Operation → List Operation
take_writes [] = []
take_writes (op ∷ ops) =
    let rest = take_writes ops in if equal_bytes op.type write_type then op ∷ rest else []

-- One turn of the loop: the index was the end, or the operations up to an index are applied and it is kept as
-- the checkpoint, or an error.
pub data Turn (D : Type 0) : Type 0 where
  finished : Turn D
  failed : D → Turn D
  next : ℕ → D → Turn D

-- The end of `apply`, with or without an error; `no_fuel` is none of the code.
pub data Applied (D : Type 0) : Type 0 where
  applied : D → Applied D
  apply_failed : D → Applied D
  no_fuel : Applied D

module _ {D : Type 0} where
  -- `if err := …; err != nil { return err }`.
  abbrev pub and_then : D × Option Error → (D → D × Option Error) → D × Option Error
  and_then (d, none) go_on = go_on d
  and_then (d, some e) go_on = (d, some e)

  -- An error that is let pass.
  abbrev pub unless : (Error → D → Bool) → D × Option Error → D × Option Error
  unless passes (d, none) = (d, none)
  unless passes (d, some e) = if passes e d then (d, none) else (d, some e)

module _ {D : Type 0} (fs : Fs D) (paths : Paths) (root : Text) where
  abbrev pub apply_create : Operation → List Operation → Text → D → D × Option Error
  apply_create op later p d =
      let made = fs.create_exclusive p op.mode d in
      let checked : D × Option Error = elim made.1 [
        | none ↦ fs.sync_new p made.0
        | some e ↦
            unless
              (λ e d.
                is_exist e
                && (is_regular (fs.lstat p d)
                    || is_symlink (fs.lstat p d) && later_symlink_replaces later op.path))
              made
      ] in
      and_then checked (fs.sync_directory p)

  abbrev pub apply_mkdir : Operation → Text → D → D × Option Error
  apply_mkdir op p d =
      and_then (unless (λ e d. is_exist e && is_directory (fs.stat p d)) (fs.mkdir p op.mode d))
        (fs.sync_directory p)

  -- `setattr` and the two commands on extended attributes pass over a symbolic link.
  abbrev pub unless_symlink : Text → (D → D × Option Error) → D → D × Option Error
  unless_symlink p change d = elim (fs.lstat p d) [
    | none ↦ (d, some other_error)
    | some k ↦ if is_symlink (some k) then (d, none) else and_then (change d) (fs.sync_file p)
  ]

  abbrev pub apply_setattr : Operation → Text → D → D × Option Error
  apply_setattr op p d =
      unless_symlink p (λ d. and_then (fs.chmod p op.mode d) (fs.chtimes p op.atime op.mtime)) d

  abbrev pub apply_rename : Operation → Text → D → D × Option Error
  apply_rename op p d = elim (resolve paths root op.target) [
    | none ↦ (d, some other_error)
    | some target ↦
        and_then
          (and_then
            (unless (λ e d. fs.lstat_missing p d && is_known (fs.lstat target d))
              (fs.rename p target d))
            (fs.sync_directory p))
          (λ d. if fs.same_directory target p then (d, none) else fs.sync_directory target d)
  ]

  -- The switch, for an operation that is no write.
  unfoldable pub apply_op : Operation → List Operation → D → D × Option Error
  apply_op op later d = elim (resolve paths root op.path) [
    | none ↦ (d, some other_error)
    | some p ↦
        if equal_bytes op.type create_type
        then apply_create op later p d
        else if equal_bytes op.type mkdir_type
        then apply_mkdir op p d
        else if equal_bytes op.type truncate_type
        then and_then (fs.truncate p op.length d) (fs.sync_file p)
        else if equal_bytes op.type setattr_type
        then apply_setattr op p d
        else if equal_bytes op.type rename_type
        then apply_rename op p d
        else if equal_bytes op.type remove_type
        then and_then (unless (λ e d. is_not_exist e) (fs.remove p d)) (fs.sync_directory p)
        else if equal_bytes op.type symlink_type
        then and_then (fs.symlink op.target p (fs.remove p d).0) (fs.sync_directory p)
        else if equal_bytes op.type setxattr_type
        then unless_symlink p (fs.set_xattr p op.name op.content) d
        else if equal_bytes op.type removexattr_type
        then unless_symlink p (λ d. unless (λ e d. is_no_attr e) (fs.remove_xattr p op.name d)) d
        else (d, some other_error)
  ]

  abbrev pub kept : ℕ → D × Option Error → Turn D
  kept j (d, none) = next j d
  kept j (d, some e) = failed d

  -- A run of writes, and the checkpoint behind it.
  abbrev pub write_turn : List Operation → (ℕ → D → D × Option Error) → ℕ → D → Turn D
  write_turn run checkpoint i d =
      let written = apply_write_run fs.disk paths root run d in
      let end = i + length run in
      if written.1 then kept end (checkpoint end written.0) else failed written.0

  unfoldable pub turn : List Operation → (ℕ → D → D × Option Error) → ℕ → D → Turn D
  turn ops checkpoint i d = elim (drop i ops) [
    | [] ↦ finished
    | op ∷ later ↦
        if equal_bytes op.type write_type
        then write_turn (op ∷ take_writes later) checkpoint i d
        else kept (i + 1) (and_then (apply_op op later d) (checkpoint (i + 1)))
  ]

  unfoldable pub apply : ℕ → List Operation → (ℕ → D → D × Option Error) → ℕ → D → Applied D
  apply zero ops checkpoint i d = no_fuel
  apply (suc fuel) ops checkpoint i d = elim (turn ops checkpoint i d) [
    | finished ↦ applied d
    | failed d' ↦ apply_failed d'
    | next j d' ↦ apply fuel ops checkpoint j d'
  ]
