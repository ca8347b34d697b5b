-- ===== src/Files/Directory/Pages.antt =====
-- server/file_tree.go, `queryDirectoryWildcard`: the pages of a listing, one query after the other, are the listing.
use go_smb.Common.{
  ℕ, zero, suc, ◌≤◌, ◌<◌, ◌≡◌, ◌≢◌, ◌⊎◌, refl, sym, ◌∙◌, ap, Bool, true, false, Option, some, List,
  [], ◌∷◌, ◌++◌, append_assoc, length, length-append, Bool-cases, inl, inr, arith,
}
use go_smb.Vfs.{DirInfo, FileSystem, Res, ok, err, eof, read_dir_continue, read_dir_restart}
use go_smb.Info.{Item, info_size, make_item}
use go_smb.Files.{State, Progress, done, next, called}
use go_smb.Files.Directory.{
  Texts, Query, Listed, fits, status_of_items, after_batch, after_waiting, with_batch, listed,
  read_batches, query_wildcard, max_read_entries, status_no_more_files, status_buffer_too_small,
}
use go_smb.Files.Directory.Laws.{made, Appended, append_entries_lem, cons_made-some}

module _ (texts : Texts) (aapl : Bool) (q : Query) where
  made-append :
      (xs ys : List DirInfo) (a b : List Item)
      → made texts aapl q xs ≡ some a
      → made texts aapl q ys ≡ some b
      → made texts aapl q (xs ++ ys) ≡ some (a ++ b)
  made-append [] ys a b at_xs at_ys =
      let none_made : a ≡ [] = cc at_xs in rw (at_ys, none_made) refl
  made-append (x ∷ xs) ys a b at_xs at_ys = elim (Bool-cases (texts.matches x.name q.pattern)) [
    | inl e ↦
        let (i, tail, at_x, at_tail, split) =
          cons_made-some (make_item texts.base aapl q.class x) (made texts aapl q xs) a
            (rw e at at_xs) in
        rw (e, at_x, made-append xs ys tail b at_tail at_ys, split) refl
    | inr e ↦ rw e (made-append xs ys a b (rw e at at_xs) at_ys)
  ]

  made-split :
      (xs ys : List DirInfo) (all : List Item)
      → made texts aapl q (xs ++ ys) ≡ some all
      → (a b : List Item) × (made texts aapl q xs ≡ some a)
        × (made texts aapl q ys ≡ some b)
        × (all ≡ a ++ b)
  made-split [] ys all h = ([], all, refl, h, refl)
  made-split (x ∷ xs) ys all h = elim (Bool-cases (texts.matches x.name q.pattern)) [
    | inl e ↦
        let (i, tail, at_x, at_tail, split) =
          cons_made-some (make_item texts.base aapl q.class x) (made texts aapl q (xs ++ ys)) all
            (rw e at h) in
        let (a, b, at_xs, at_ys, parts) = made-split xs ys tail at_tail in
        (i ∷ a, b, rw (e, at_x, at_xs) refl, at_ys, split ∙ ap (λ l. i ∷ l) parts)
    | inr e ↦
        let (a, b, at_xs, at_ys, parts) = made-split xs ys all (rw e at h) in
        (a, b, rw e at_xs, at_ys, parts)
  ]

  -- A status with the items of the answer and the items that are left: success with items; the end of the listing; or
  -- a buffer that is too small for the next item.
  abbrev pub Tells : ℕ → List Item → List Item → Type 0
  Tells status items left =
      ((status ≡ 0) × (items ≢ []))
      ⊎ (((status ≡ status_no_more_files) × (items ≡ []) × (left ≡ []))
          ⊎ ((status ≡ status_buffer_too_small)
              × (items ≡ [])
              × ((i : Item) × (more : List Item) × (left ≡ i ∷ more)
                  × (fits texts q.max_size [] i ≡ false))))

  module _ {D : Type 0} (rest : D → List DirInfo) where
    -- What a call of `ReadDir` makes of the entries that are to come: a batch from the front, empty only at the end, or
    -- the end itself.
    abbrev pub Advances : D × Res (List DirInfo) → List DirInfo → Type 0
    Advances (d, ok batch) before = (before ≡ batch ++ rest d) × (batch ≡ [] → before ≡ [])
    Advances (d, err e) before = (e ≡ eof) × (before ≡ []) × (rest d ≡ [])

    -- The answer of a query where `all` are the items to come: its items are the first of them, within the size, and
    -- the entries that wait and those on the disk are the others.
    pub record Served (all : List Item) (d : D) (l : Listed) : Type 0 where
      pub left : List Item
      pub left_made : made texts aapl q (l.pending ++ rest d) ≡ some left
      pub all_lem : all ≡ l.items ++ left
      pub within : info_size texts.utf16 l.items ≤ q.max_size
      pub status_lem : Tells l.status l.items left

    -- The query returns, with such an answer, and leaves the server's tables alone.
    abbrev pub Serves : List Item → State D → Option (State D × Progress (Option Listed)) → Type 0
    Serves all s r =
        (s' : State D) × (l : Listed) × (r ≡ some (s', done (some l)))
        × (s'.server ≡ s.server)
        × Served all s'.disk l

    -- A stream of entries that a handle stands in: from where it stands, and from the beginning.
    pub record IsStream (fs : FileSystem D) (h : ℕ) (whole : List DirInfo) : Type 0 where
      pub goes_on :
          (n : ℕ) (d : D) → 0 < n → Advances (fs.read_dir h read_dir_continue n d) (rest d)
      pub starts : (n : ℕ) (d : D) → 0 < n → Advances (fs.read_dir h read_dir_restart n d) whole

    module _ (fs : FileSystem D) where
      listed-Serves :
          (status : ℕ) (items : List Item) (pending : List DirInfo) (stopped full : Bool)
          (s : State D) (a b : List Item)
          → (p : Appended texts aapl q [] [] a
              (record { items = items; pending = pending; stopped = stopped; full = full }))
          → made texts aapl q (rest s.disk) ≡ some b
          → Tells status items (p.left ++ b)
          → Serves (a ++ b) s (listed texts fs status items pending s)
      listed-Serves status items pending stopped full s a b p at_b tells = (
        s,
        record { status = status; items = items; pending = pending },
        refl,
        refl,
        record {
          left = p.left ++ b;
          left_made = rw p.pending_lem (made-append p.rest (rest s.disk) p.left b p.rest_made at_b);
          all_lem =
              ap (λ l. l ++ b) (p.all_lem ∙ ap (λ l. l ++ p.left) (sym p.items_lem))
              ∙ append_assoc items p.left b;
          within = p.within (omega arith);
          status_lem = tells;
        },
      )

      -- A page without items: full, or the batch is used up.
      page-Tells :
          (pending : List DirInfo) (stopped : Bool) (a b : List Item)
          → (p : Appended texts aapl q [] [] a
              (record { items = []; pending = pending; stopped = stopped; full = true }))
          → Tells status_buffer_too_small [] (p.left ++ b)
      page-Tells pending stopped a b p =
          let (i, more, at_left, tight) = p.full_next refl in
          inr (inr (refl, refl, (i, more ++ b, ap (λ l. l ++ b) at_left, tight)))

      page_through :
          (pending : List DirInfo) (stopped : Bool) (a : List Item)
          → (p : Appended texts aapl q [] [] a
              (record { items = []; pending = pending; stopped = stopped; full = false }))
          → (stopped ≡ false) × (pending ≡ []) × (a ≡ [])
      page_through pending true a p = absurd (p.stopped_full refl refl (sym p.items_lem))
      page_through pending false a p =
          let none_left : some p.left ≡ some [] =
            sym p.rest_made ∙ ap (made texts aapl q) (p.through refl) in
          let left : p.left ≡ [] = cc none_left in
          (
            refl,
            p.pending_lem ∙ p.through refl,
            p.all_lem ∙ ap (λ l. l ++ p.left) (sym p.items_lem) ∙ left,
          )

      after_batch_lem :
          (items : List Item) (pending : List DirInfo) (stopped full : Bool) (s : State D)
          (a b : List Item) (more : State D → Option (State D × Progress (Option Listed)))
          → Appended texts aapl q [] [] a
              (record { items = items; pending = pending; stopped = stopped; full = full })
          → made texts aapl q (rest s.disk) ≡ some b
          → (pending ≡ [] → items ≡ [] → Serves b s (more s))
          → Serves (a ++ b) s (
              after_batch texts fs
                (record { items = items; pending = pending; stopped = stopped; full = full })
                (status_of_items texts items full)
                more
                s)
      after_batch_lem (i ∷ items) pending stopped full s a b more p at_b go =
          listed-Serves 0 (i ∷ items) pending stopped full s a b p at_b (inl (refl, λ e. cc e))
      after_batch_lem [] pending stopped true s a b more p at_b go =
          listed-Serves status_buffer_too_small [] pending stopped true s a b p at_b
            (page-Tells pending stopped a b p)
      after_batch_lem [] pending stopped false s a b more p at_b go =
          let (goes, none_waiting, none_made) = page_through pending stopped a p in
          rw (goes, none_made) (go none_waiting refl)

      after_waiting_lem :
          (items : List Item) (pending : List DirInfo) (stopped full : Bool) (s : State D)
          (a b : List Item) (more : State D → Option (State D × Progress (Option Listed)))
          → Appended texts aapl q [] [] a
              (record { items = items; pending = pending; stopped = stopped; full = full })
          → made texts aapl q (rest s.disk) ≡ some b
          → (pending ≡ [] → items ≡ [] → Serves b s (more s))
          → Serves (a ++ b) s (
              after_waiting texts fs
                (record { items = items; pending = pending; stopped = stopped; full = full })
                (status_of_items texts items full)
                more
                s)
      after_waiting_lem (i ∷ items) pending stopped full s a b more p at_b go =
          listed-Serves 0 (i ∷ items) pending stopped full s a b p at_b (inl (refl, λ e. cc e))
      after_waiting_lem [] pending stopped true s a b more p at_b go =
          listed-Serves status_buffer_too_small [] pending stopped true s a b p at_b
            (page-Tells pending stopped a b p)
      after_waiting_lem [] pending stopped false s a b more p at_b go =
          let (goes, none_waiting, none_made) = page_through pending stopped a p in
          rw none_made (go none_waiting refl)

      -- The end of the stream.
      at_end :
          (s : State D) (d : D) (all : List Item)
          → made texts aapl q [] ≡ some all
          → rest d ≡ []
          → Serves all s (listed texts fs status_no_more_files [] [] (record s { disk = d }))
      at_end s d all h over =
          let none_left : all ≡ [] = cc h in
          (
            record s { disk = d },
            record { status = status_no_more_files; items = []; pending = [] },
            refl,
            refl,
            record {
              left = [];
              left_made = ap (made texts aapl q) over;
              all_lem = none_left;
              within = omega arith;
              status_lem = inr (inl (refl, refl, refl));
            },
          )

      -- One turn of the loop, if the rest of it serves what is left.
      with_batch_lem :
          (fuel h : ℕ) (before : List DirInfo) (all : List Item) (s : State D)
          (r : D × Res (List DirInfo))
          → Advances r before
          → made texts aapl q before ≡ some all
          → length before < suc fuel
          → ((b : List Item) (d : D)
              → made texts aapl q (rest d) ≡ some b
              → length (rest d) < fuel
              → Serves b
                  (record s { disk = d })
                  (read_batches texts fs fuel aapl q h read_dir_continue [] []
                    (record s { disk = d })))
          → Serves all s (
              next
                (λ batch.
                  with_batch texts fs aapl q [] [] batch
                    (λ p. read_batches texts fs fuel aapl q h read_dir_continue p.items p.pending))
                (called s r))
      with_batch_lem fuel h before all s (d, err e) (ends, none_before, over) at_all enough go =
          rw ends (at_end s d all (ap (made texts aapl q) (sym none_before) ∙ at_all) over)
      with_batch_lem fuel h before all s (d, ok []) (parts, over) at_all enough go =
          at_end s d all (ap (made texts aapl q) (sym (over refl)) ∙ at_all) (sym parts ∙ over refl)
      with_batch_lem fuel h before all s (d, ok (x ∷ xs)) (parts, nonempty) at_all enough go =
          let (a, b, at_a, at_b, split) =
            made-split (x ∷ xs) (rest d) all (ap (made texts aapl q) (sym parts) ∙ at_all) in
          let (p, ran, appended) = append_entries_lem texts aapl q [] [] (x ∷ xs) a at_a in
          let fewer : length (rest d) < fuel =
            omega (arith, enough, ap length parts, length-append (x ∷ xs) (rest d)) in
          rw (ran, split)
            (after_batch_lem p.items p.pending p.stopped p.full (record s { disk = d }) a b
              (read_batches texts fs fuel aapl q h read_dir_continue p.items p.pending) appended
              at_b (λ none_waiting none_found. rw (none_waiting, none_found) (go b d at_b fewer)))

      max_read_entries-pos : 0 < max_read_entries texts q
      max_read_entries-pos = ground arith

      module _ (h : ℕ) (whole : List DirInfo) (stream : IsStream fs h whole) where
        read_batches_lem :
            (fuel : ℕ) (scan : ℕ) (before : List DirInfo) (all : List Item) (s : State D)
            → Advances (fs.read_dir h scan (max_read_entries texts q) s.disk) before
            → made texts aapl q before ≡ some all
            → length before < fuel
            → Serves all s (read_batches texts fs fuel aapl q h scan [] [] s)
        read_batches_lem zero scan before all s on at_all enough = absurd (omega (arith, enough))
        read_batches_lem (suc fuel) scan before all s on at_all enough =
            with_batch_lem fuel h before all s
              (fs.read_dir h scan (max_read_entries texts q) s.disk) on at_all enough
              (λ b d at_b fewer.
                read_batches_lem fuel read_dir_continue (rest d) b (record s { disk = d })
                  (stream.goes_on (max_read_entries texts q) d max_read_entries-pos) at_b fewer)

        -- Where a query stands: it goes on with the entries that wait and those to come, or starts anew.
        abbrev pub StandsAt : ℕ → List DirInfo → List DirInfo → D → Type 0
        StandsAt scan waiting before d =
            ((scan ≡ read_dir_continue) × (before ≡ rest d))
            ⊎ ((scan ≡ read_dir_restart) × (waiting ≡ []) × (before ≡ whole))

        StandsAt-Advances :
            (n scan : ℕ) (waiting before : List DirInfo) (d : D)
            → 0 < n
            → StandsAt scan waiting before d
            → Advances (fs.read_dir h scan n d) before
        StandsAt-Advances n scan waiting before d pos (inl (goes, at)) =
            rw (goes, at) (stream.goes_on n d pos)
        StandsAt-Advances n scan waiting before d pos (inr (starts, none_waiting, at)) =
            rw (starts, at) (stream.starts n d pos)

        -- While `ReadDir` gives the entries of a directory in batches, and all items to come can be made, a query whose
        -- fuel is more than the entries to come returns without a panic. Its items are the first ones to come, within the
        -- size of its buffer; those that are left are what the entries that wait and the entries on the disk will make,
        -- so that none is lost, doubled or out of order. Success has items, the end of the listing has nothing left, and
        -- else the buffer is too small for the next item. The server's tables are as before.
        pub query_wildcard_lem :
            (fuel : ℕ) (scan : ℕ) (waiting before : List DirInfo) (all : List Item) (s : State D)
            → StandsAt scan waiting before s.disk
            → made texts aapl q (waiting ++ before) ≡ some all
            → length before < fuel
            → Serves all s (query_wildcard texts fs fuel aapl q h scan waiting s)
        query_wildcard_lem fuel scan [] before all s stands at_all enough =
            read_batches_lem fuel scan before all s
              (StandsAt-Advances (max_read_entries texts q) scan [] before s.disk
                max_read_entries-pos stands)
              at_all enough
        query_wildcard_lem fuel scan (x ∷ xs) before all s (inr (starts, none_waiting, at)) at_all
              enough =
            absurd (cc none_waiting)
        query_wildcard_lem fuel scan (x ∷ xs) before all s (inl (goes, at)) at_all enough =
            let (a, b, at_a, at_b, split) = made-split (x ∷ xs) before all at_all in
            let (p, ran, appended) = append_entries_lem texts aapl q [] [] (x ∷ xs) a at_a in
            let on =
              StandsAt-Advances (max_read_entries texts q) scan [] before s.disk
                max_read_entries-pos (inl (goes, at)) in
            rw (ran, split)
              (after_waiting_lem p.items p.pending p.stopped p.full s a b
                (read_batches texts fs fuel aapl q h scan p.items p.pending) appended
                (ap (made texts aapl q) (sym at) ∙ at_b)
                (λ none_waiting none_found.
                  rw (none_waiting, none_found)
                    (read_batches_lem fuel scan before b s on at_b enough)))
