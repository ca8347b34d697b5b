-- ===== src/Files/Directory/Laws.antt =====
-- server/file_tree.go, `appendDirectoryEntries`: what it takes of a batch and what it leaves.
use go_smb.Common.{
  ◌+◌, ◌≤◌, ◌||◌, ◌≡◌, ◌≢◌, refl, sym, ◌∙◌, ap, Bool, true, false, Option, none, some, List, [],
  ◌∷◌, ◌++◌, append_assoc, append-nil, leb, if◌then◌else◌, Bool-cases, inl, inr, arith,
}
use go_smb.Vfs.{DirInfo}
use go_smb.Info.{Item, item_size, info_size, make_item}
use go_smb.Files.Directory.{Texts, Query, Page, fits, append_item, append_entries}

abbrev pub cons_made : Option (Option Item) → Option (List Item) → Option (List Item)
cons_made (some (some i)) (some items) = some (i ∷ items)
cons_made (some (some i)) none = none
cons_made (some none) made = none
cons_made none made = none

pub cons_made-some :
    (m : Option (Option Item)) (made : Option (List Item)) (all : List Item)
    → cons_made m made ≡ some all
    → (i : Item) × (items : List Item) × (m ≡ some (some i))
      × (made ≡ some items)
      × (all ≡ i ∷ items)
cons_made-some (some (some i)) (some items) all h = (i, items, refl, refl, cc h)
cons_made-some (some (some i)) none all h = cc h
cons_made-some (some none) made all h = cc h
cons_made-some none made all h = cc h

module _ (texts : Texts) (aapl : Bool) (q : Query) where
  -- The items of the entries that match the pattern, in order; `none` where one panics or is of no known class.
  abbrev pub made : List DirInfo → Option (List Item)
  made [] = some []
  made (d ∷ ds) =
      let rest = made ds in
      if texts.matches d.name q.pattern
      then cons_made (make_item texts.base aapl q.class d) rest
      else rest

  info_size-snoc :
      (items : List Item) (i : Item)
      → info_size texts.utf16 (items ++ (i ∷ []))
        ≡ info_size texts.utf16 items + item_size texts.utf16 i
  info_size-snoc [] i = omega arith
  info_size-snoc (j ∷ items) i = omega (arith, info_size-snoc items i)

  -- What a batch, of which all items are `all`, makes of a page.
  pub record Appended (items : List Item) (waiting : List DirInfo) (all : List Item) (p : Page)
      : Type 0 where
    pub taken : List Item
    pub left : List Item
    pub rest : List DirInfo
    pub items_lem : p.items ≡ items ++ taken
    pub pending_lem : p.pending ≡ waiting ++ rest
    pub rest_made : made rest ≡ some left
    pub all_lem : all ≡ taken ++ left
    pub through : p.stopped ≡ false → rest ≡ []
    pub not_full : p.stopped ≡ false → p.full ≡ false
    pub within :
        info_size texts.utf16 items ≤ q.max_size → info_size texts.utf16 p.items ≤ q.max_size
    pub full_next :
        p.full ≡ true
        → (i : Item) × (more : List Item) × (left ≡ i ∷ more)
          × (fits texts q.max_size p.items i ≡ false)
    pub stopped_full : p.stopped ≡ true → p.full ≡ false → taken ≢ []

  -- What holds of a page after an entry holds before it.
  Appended-cons :
      (items : List Item) (waiting : List DirInfo) (i : Item) (tail : List Item) (p : Page)
      → info_size texts.utf16 items + item_size texts.utf16 i ≤ q.max_size
      → Appended (items ++ (i ∷ [])) waiting tail p
      → Appended items waiting (i ∷ tail) p
  Appended-cons items waiting i tail p room a = record {
    taken = i ∷ a.taken;
    left = a.left;
    rest = a.rest;
    items_lem = a.items_lem ∙ append_assoc items (i ∷ []) a.taken;
    pending_lem = a.pending_lem;
    rest_made = a.rest_made;
    all_lem = ap (λ l. i ∷ l) a.all_lem;
    through = a.through;
    not_full = a.not_full;
    within = λ e. a.within (omega (arith, info_size-snoc items i));
    full_next = a.full_next;
    stopped_full = λ e e'. λ none_taken. cc none_taken;
  }

  fits-le :
      (items : List Item) (i : Item)
      → fits texts q.max_size items i ≡ true
      → info_size texts.utf16 items + item_size texts.utf16 i ≤ q.max_size
  fits-le items i h = ground arith

  append_item_lem :
      (items : List Item) (waiting : List DirInfo) (d : DirInfo) (ds : List DirInfo) (i : Item)
      (tail : List Item) (more : List Item → Option Page)
      → made ds ≡ some tail
      → made (d ∷ ds) ≡ some (i ∷ tail)
      → ((p : Page) × (more (items ++ (i ∷ [])) ≡ some p)
          × Appended (items ++ (i ∷ [])) waiting tail p)
      → (p : Page) × (append_item texts q items waiting d ds (some (some i)) more ≡ some p)
        × Appended items waiting (i ∷ tail) p
  append_item_lem items waiting d ds i tail more at_ds at_all (p, ran, a) =
      elim (Bool-cases (fits texts q.max_size items i)) [
        | inl room ↦
            elim (Bool-cases
              (q.single || leb q.max_size (info_size texts.utf16 (items ++ (i ∷ []))))) [
                | inl last ↦ (
                  record {
                    items = items ++ (i ∷ []);
                    pending = waiting ++ ds;
                    stopped = true;
                    full = false;
                  },
                  rw (room, last) refl,
                  record {
                    taken = i ∷ [];
                    left = tail;
                    rest = ds;
                    items_lem = refl;
                    pending_lem = refl;
                    rest_made = at_ds;
                    all_lem = refl;
                    through = λ e. cc e;
                    not_full = λ e. cc e;
                    within = λ e. omega (arith, info_size-snoc items i, fits-le items i room);
                    full_next = λ e. cc e;
                    stopped_full = λ e e'. λ none_taken. cc none_taken;
                  },
                )
                | inr go ↦ (
                  p,
                  rw (room, go) ran,
                  Appended-cons items waiting i tail p (fits-le items i room) a,
                )
              ]
        | inr tight ↦ (
          record { items = items; pending = waiting ++ (d ∷ ds); stopped = true; full = true },
          rw tight refl,
          record {
            taken = [];
            left = i ∷ tail;
            rest = d ∷ ds;
            items_lem = sym (append-nil items);
            pending_lem = refl;
            rest_made = at_all;
            all_lem = refl;
            through = λ e. cc e;
            not_full = λ e. cc e;
            within = λ e. e;
            full_next = λ e. (i, tail, refl, tight);
            stopped_full = λ e e'. cc e';
          },
        )
      ]

  pub append_entries_lem :
      (items : List Item) (waiting ds : List DirInfo) (all : List Item)
      → made ds ≡ some all
      → (p : Page) × (append_entries texts aapl q items waiting ds ≡ some p)
        × Appended items waiting all p
  append_entries_lem items waiting [] all h = (
    record { items = items; pending = waiting; stopped = false; full = false },
    refl,
    record {
      taken = [];
      left = [];
      rest = [];
      items_lem = sym (append-nil items);
      pending_lem = sym (append-nil waiting);
      rest_made = refl;
      all_lem = cc h;
      through = λ e. refl;
      not_full = λ e. refl;
      within = λ e. e;
      full_next = λ e. cc e;
      stopped_full = λ e. cc e;
    },
  )
  append_entries_lem items waiting (d ∷ ds) all h =
      elim (Bool-cases (texts.matches d.name q.pattern)) [
        | inl e ↦
            let (i, tail, at_d, at_ds, split) =
              cons_made-some (make_item texts.base aapl q.class d) (made ds) all (rw e at h) in
            let at_all : made (d ∷ ds) ≡ some (i ∷ tail) = h ∙ ap (λ l. some l) split in
            let ran =
              append_item_lem items waiting d ds i tail
                (λ items'. append_entries texts aapl q items' waiting ds) at_ds at_all
                (append_entries_lem (items ++ (i ∷ [])) waiting ds tail at_ds) in
            rw (e, at_d, split) ran
        | inr e ↦ rw e (append_entries_lem items waiting ds all (rw e at h))
      ]
