-- ===== src/Bulk/WriteRun/Commute.antt =====
-- bulk/backend.go: writes to one file taken out of a run, on a disk whose files are independent.
use go_smb.Common.{
  ℕ, ◌≡◌, refl, sym, ◌∙◌, ap, inl, inr, Bool, true, false, not, ◌&&◌, List, [], ◌∷◌, if◌then◌else◌,
  Bool-cases,
}
use go_smb.Common.Texts.{Text, equal_bytes, equal_bytes_refl, equal_bytes_sym, equal_bytes-eq}
use go_smb.Bulk.{Operation}
use go_smb.Bulk.WriteRun.{Disk, write_file, write_groups, Groups, group_of}

abbrev pub mem : Text → List Text → Bool
mem p [] = false
mem p (q ∷ qs) = if equal_bytes q p then true else mem p qs

abbrev pub IsDistinct : List Text → Type 0
IsDistinct [] = Unit
IsDistinct (p ∷ ps) = (mem p ps ≡ false) × IsDistinct ps

-- The writes of a path, and the writes of the others, in their order.
abbrev pub ops_of : Text → List (Text × Operation) → List Operation
ops_of p [] = []
ops_of p ((q, op) ∷ rest) = if equal_bytes q p then op ∷ ops_of p rest else ops_of p rest

abbrev pub others : Text → List (Text × Operation) → List (Text × Operation)
others p [] = []
others p ((q, op) ∷ rest) = if equal_bytes q p then others p rest else (q, op) ∷ others p rest

ops_of-others_same : (p : Text) (ws : List (Text × Operation)) → ops_of p (others p ws) ≡ []
ops_of-others_same p [] = refl
ops_of-others_same p ((q, op) ∷ ws) = elim (Bool-cases (equal_bytes q p)) [
  | inl e ↦ rw e (ops_of-others_same p ws)
  | inr e ↦ rw (e, e) (ops_of-others_same p ws)
]

ops_of-others :
    (p q : Text) (ws : List (Text × Operation))
    → equal_bytes p q ≡ false
    → ops_of q (others p ws) ≡ ops_of q ws
ops_of-others p q [] h = refl
ops_of-others p q ((r, op) ∷ ws) h = elim (Bool-cases (equal_bytes r p)) [
  | inl e ↦
      let same = equal_bytes-eq r p e in
      let off : equal_bytes r q ≡ false = rw same h in rw (e, off) (ops_of-others p q ws h)
  | inr e ↦ elim (Bool-cases (equal_bytes r q)) [
    | inl f ↦ rw (e, f) (ap (λ t. op ∷ t) (ops_of-others p q ws h))
    | inr f ↦ rw (e, f) (ops_of-others p q ws h)
  ]
]

module _ {D : Type 0} (disk : Disk D) where
  -- Journal order: each write in its turn.
  abbrev pub write_all : List (Text × Operation) → D → D
  write_all [] d = d
  write_all ((p, op) ∷ ws) d = write_all ws (disk.write_at p op.offset op.content d)

  abbrev write_ops : Text → List Operation → D → D
  write_ops p [] d = d
  write_ops p (op ∷ ops) d = write_ops p ops (disk.write_at p op.offset op.content d)

  -- Writes to files of different paths can be exchanged.
  abbrev pub IsIndependent : Type 0
  IsIndependent =
      (p q : Text) (o o' : ℕ) (bs bs' : List ℕ) (d : D)
      → equal_bytes p q ≡ false
      → disk.write_at p o bs (disk.write_at q o' bs' d)
        ≡ disk.write_at q o' bs' (disk.write_at p o bs d)

  write_file-done :
      (p : Text) (ops : List Operation) (d : D)
      → (write_file disk p ops d).1 ≡ true
      → (write_file disk p ops d).0 ≡ write_ops p ops d
  write_file-done p [] d h = refl
  write_file-done p (op ∷ ops) d h = elim (Bool-cases (disk.writes p op.offset op.content d)) [
    | inl e ↦ rw e (write_file-done p ops _ (rw e at h))
    | inr e ↦ let failed : (write_file disk p (op ∷ ops) d).1 ≡ false = rw e refl in cc
  ]

  -- A disk that reports no error.
  abbrev pub Works : Type 0
  Works =
      ((p : Text) (d : D) → disk.opens p d ≡ true)
      × ((p : Text) (o : ℕ) (bs : List ℕ) (d : D) → disk.writes p o bs d ≡ true)
      × ((p : Text) (d : D) → disk.syncs p d ≡ true)

  write_file-works :
      (p : Text) (ops : List Operation) (d : D) → Works → (write_file disk p ops d).1 ≡ true
  write_file-works p [] d works = refl
  write_file-works p (op ∷ ops) d (opens, writes, syncs) =
      rw (writes p op.offset op.content d)
        (write_file-works p ops (disk.write_at p op.offset op.content d) (opens, writes, syncs))

  pub write_groups-works :
      (order : List Text) (by_path : Groups) (d : D)
      → Works
      → (write_groups disk order by_path d).1 ≡ true
  unfolding write_groups
  write_groups-works [] by_path d works = refl
  write_groups-works (p ∷ order) by_path d works =
      let file = write_file disk p (group_of p by_path) d in
      rw
        (
          write_groups,
          works.0 p d,
          write_file-works p (group_of p by_path) d works,
          works.2 p file.0,
        )
        (write_groups-works order by_path file.0 works)

  -- The checks of one turn of the loop, passed.
  turn-done :
      (opened wrote synced : Bool) (d x : D) (rest : D × Bool)
      → (if not opened then (d, false) else if wrote && synced then rest else (x, false)).1 ≡ true
      → (wrote ≡ true)
        × (rest.1 ≡ true)
        × ((if not opened then (d, false) else if wrote && synced then rest else (x, false)).0
            ≡ rest.0)
  turn-done false wrote synced d x rest h = cc h
  turn-done true false synced d x rest h = cc h
  turn-done true true false d x rest h = cc h
  turn-done true true true d x rest h = (refl, h, refl)

  module _ (independent : IsIndependent) where
    write_ops-swap :
        (p q : Text) (o : ℕ) (bs : List ℕ) (ops : List Operation) (d : D)
        → equal_bytes p q ≡ false
        → write_ops p ops (disk.write_at q o bs d) ≡ disk.write_at q o bs (write_ops p ops d)
    write_ops-swap p q o bs [] d h = refl
    write_ops-swap p q o bs (op ∷ ops) d h =
        rw (independent p q op.offset o op.content bs d h)
          (write_ops-swap p q o bs ops (disk.write_at p op.offset op.content d) h)

    write_all-others :
        (p : Text) (ws : List (Text × Operation)) (d : D)
        → write_all ws d ≡ write_all (others p ws) (write_ops p (ops_of p ws) d)
    write_all-others p [] d = refl
    write_all-others p ((q, op) ∷ ws) d = elim (Bool-cases (equal_bytes q p)) [
      | inl e ↦
          let same = equal_bytes-eq q p e in
          rw (e, same) (write_all-others p ws (disk.write_at p op.offset op.content d))
      | inr e ↦
          let off : equal_bytes p q ≡ false = rw (equal_bytes_sym p q) e in
          rw
            (
              e,
              write_all-others p ws (disk.write_at q op.offset op.content d),
              write_ops-swap p q op.offset op.content (ops_of p ws) d off,
            )
            refl
    ]

    -- The groups of an order without repetition that has every path, one after the other.
    pub write_groups-done :
        (order : List Text) (by_path : Groups) (ws : List (Text × Operation)) (d : D)
        → IsDistinct order
        → ((p : Text) → mem p order ≡ false → ops_of p ws ≡ [])
        → ((p : Text) → mem p order ≡ true → group_of p by_path ≡ ops_of p ws)
        → (write_groups disk order by_path d).1 ≡ true
        → (write_groups disk order by_path d).0 ≡ write_all ws d
    unfolding write_groups
    write_groups-done [] by_path [] d distinct covers groups h = refl
    write_groups-done [] by_path ((q, op) ∷ ws) d distinct covers groups h =
        let none_left = covers q refl in
        let first : ops_of q ((q, op) ∷ ws) ≡ op ∷ ops_of q ws = rw (equal_bytes_refl q) refl in cc
    write_groups-done (p ∷ order) by_path ws d (new, distinct) covers groups h =
        let file = write_file disk p (group_of p by_path) d in
        let rest = write_groups disk order by_path file.0 in
        let (wrote, went_on, same) =
          turn-done (disk.opens p d) file.1 (disk.syncs p file.0) d file.0 rest h in
        let group : group_of p by_path ≡ ops_of p ws = groups p (rw (equal_bytes_refl p) refl) in
        let written : file.0 ≡ write_ops p (ops_of p ws) d =
          write_file-done p (group_of p by_path) d wrote ∙ ap (λ ops. write_ops p ops d) group in
        let covers' : (q : Text) → mem q order ≡ false → ops_of q (others p ws) ≡ [] = λ q out.
          elim (Bool-cases (equal_bytes p q)) [
            | inl e ↦ rw (sym (equal_bytes-eq p q e)) (ops_of-others_same p ws)
            | inr e ↦ ops_of-others p q ws e ∙ covers q (rw e out)
          ] in
        let groups' : (q : Text)
            → mem q order ≡ true
            → group_of q by_path ≡ ops_of q (others p ws) =
          λ q there. elim (Bool-cases (equal_bytes p q)) [
            | inl e ↦
                let again : mem p order ≡ true = rw (equal_bytes-eq p q e) there in
                absurd (cc (new, again))
            | inr e ↦ groups q (rw e there) ∙ sym (ops_of-others p q ws e)
          ] in
        let rest_done =
          write_groups-done order by_path (others p ws) file.0 distinct covers' groups' went_on in
        same ∙ rest_done ∙ ap (write_all (others p ws)) written ∙ sym (write_all-others p ws d)
