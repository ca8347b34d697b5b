-- ===== src/Files/Directory.antt =====
-- server/file_tree.go: `queryDirectory` with `queryDirectoryWildcard` and what they call, and the decoder of the request
-- (internal/smb2/request.go). A listing goes on from query to query: entries that were read from the disk and did not fit
-- wait in the open. The loop over `ReadDir` runs on fuel.
pub mod Laws
pub mod Pages
mod Runs
use go_smb.Common.{
  ℕ, zero, suc, ◌+◌, ◌-◌, ◌%◌, ◌^◌, Bool, true, false, not, ◌&&◌, ◌||◌, Option, none, some, List,
  [], ◌∷◌, ◌++◌, leb, ltb, ◌==◌, ◌!=◌, if◌then◌else◌, bit_and, bit_or,
}
use go_smb.Common.Texts.{Text, equal_bytes}
use go_smb.Bytes.{Slice, index, get_le, sub, elements}
use go_smb.Opens.Table.{Open}
use go_smb.Vfs.{
  Attributes, DirInfo, FileSystem, FsError, eof, Res, ok, err, read_dir_continue, read_dir_restart,
}
use go_smb.Info.{
  Item, item_size, info_size, make_item, file_directory_information,
  file_full_directory_information, file_both_directory_information, file_names_information,
  file_id_both_directory_information, file_id_full_directory_information,
  file_id_all_extd_both_directory_information,
}
use go_smb.Files.{
  State, Progress, Handler, ◌>>=◌, ◌>>◌, pure, lift, call, get_aapl, query_directory_response,
  answer, refuse, refuse_if, accept_or_nil, CompoundContext, handle_id, target_id, open_at,
  put_open, status_access_denied,
}

abbrev pub smb2_query_directory : ℕ
smb2_query_directory = 14

abbrev pub restart_scans : ℕ
restart_scans = 1

abbrev pub return_single_entry : ℕ
return_single_entry = 2

abbrev pub reopen : ℕ
reopen = 16

abbrev pub status_no_more_files : ℕ
status_no_more_files = 0x8000_0006

abbrev pub status_no_such_file : ℕ
status_no_such_file = 0xc000_000f

abbrev pub status_buffer_too_small : ℕ
status_buffer_too_small = 0xc000_0023

abbrev pub status_invalid_parameter : ℕ
status_invalid_parameter = 0xc000_000d

abbrev pub read_batch_size : ℕ
read_batch_size = 128

-- What is not in this repository: UTF-16 both ways, `filepath.Base`, and a regular expression's match of a text, for the
-- pattern with wildcards (`MatchWildcard`).
pub record Texts : Type 0 where
  pub utf16 : Text → List ℕ
  pub of_utf16 : List ℕ → Text
  pub base : Text → Text
  pub matches : Text → Text → Bool

-- The request of a query that goes on: the class, whether it wants one entry, the size of the buffer, and the pattern.
pub record Query : Type 0 where
  pub class : ℕ
  pub single : Bool
  pub max_size : ℕ
  pub pattern : Text

-- `ContainsWildcard`.
abbrev pub contains_wildcard : Text → Bool
contains_wildcard [] = false
contains_wildcard (c ∷ rest) = c == b'*' || c == b'?' || contains_wildcard rest

-- The entries of a listing so far, the entries that wait, whether it stopped, and whether it is full.
pub record Page : Type 0 where
  pub items : List Item
  pub pending : List DirInfo
  pub stopped : Bool
  pub full : Bool

-- The status of a listing, its items, and the entries that wait.
pub record Listed : Type 0 where
  pub status : ℕ
  pub items : List Item
  pub pending : List DirInfo

module _ (texts : Texts) where
  -- `appendDirectoryInfo`, whether the entry fits.
  abbrev pub fits : ℕ → List Item → Item → Bool
  fits max_size items i = not (
      ltb max_size (item_size texts.utf16 i)
      || ltb max_size (info_size texts.utf16 items + item_size texts.utf16 i))

  -- `appendDirectoryEntries`, once the item of the first entry is made; a nil item panics at its size.
  abbrev pub append_item :
      Query
      → List Item
      → List DirInfo
      → DirInfo
      → List DirInfo
      → Option (Option Item)
      → (List Item → Option Page)
      → Option Page
  append_item q items waiting d rest none more = none
  append_item q items waiting d rest (some none) more = none
  append_item q items waiting d rest (some (some i)) more =
      if fits q.max_size items i
      then (if q.single || leb q.max_size (info_size texts.utf16 (items ++ (i ∷ [])))
          then some (record {
            items = items ++ (i ∷ []);
            pending = waiting ++ rest;
            stopped = true;
            full = false;
          })
          else more (items ++ (i ∷ [])))
      else some
          (record { items = items; pending = waiting ++ (d ∷ rest); stopped = true; full = true })

  -- `appendDirectoryEntries`, from the items and the entries that wait so far.
  abbrev pub append_entries : Bool → Query → List Item → List DirInfo → List DirInfo → Option Page
  append_entries aapl q items waiting [] =
      some (record { items = items; pending = waiting; stopped = false; full = false })
  append_entries aapl q items waiting (d ∷ rest) =
      let more : List Item → Option Page = λ items'. append_entries aapl q items' waiting rest in
      let skipped = more items in
      if texts.matches d.name q.pattern
      then append_item q items waiting d rest (make_item texts.base aapl q.class d) more
      else skipped

  -- `queryDirectoryAppendStatus`: the status, if the query is done.
  abbrev pub status_of_items : List Item → Bool → Option ℕ
  status_of_items [] full = if full then some status_buffer_too_small else none
  status_of_items (i ∷ items) full = some 0

  abbrev pub read_error : FsError → ℕ
  read_error eof = status_no_more_files
  read_error e = status_access_denied

  -- The status where nothing more is read.
  abbrev pub if_empty : ℕ → List Item → ℕ
  if_empty status [] = status
  if_empty status (i ∷ items) = 0

  abbrev pub max_read_entries : Query → ℕ
  max_read_entries q = if q.single then 1 else read_batch_size

  module _ {D : Type 0} (fs : FileSystem D) where
    abbrev pub listed : ℕ → List Item → List DirInfo → Handler D (Option Listed)
    listed status items pending =
        pure (some (record { status = status; items = items; pending = pending }))

    abbrev pub after_batch : Page → Option ℕ → Handler D (Option Listed) → Handler D (Option Listed)
    after_batch p (some status) more = listed status p.items p.pending
    after_batch p none more =
        if p.stopped then listed status_no_such_file p.items p.pending else more

    abbrev pub with_batch :
        Bool
        → Query
        → List Item
        → List DirInfo
        → Res (List DirInfo)
        → (Page → Handler D (Option Listed))
        → Handler D (Option Listed)
    with_batch aapl q items waiting (err e) more =
        listed (if_empty (read_error e) items) items waiting
    with_batch aapl q items waiting (ok []) more =
        listed (if_empty status_no_more_files items) items waiting
    with_batch aapl q items waiting (ok (d ∷ rest)) more = do
      p ← lift (append_entries aapl q items waiting (d ∷ rest))
      after_batch p (status_of_items p.items p.full) (more p)

    -- The loop over `ReadDir`.
    abbrev pub read_batches :
        ℕ → Bool → Query → ℕ → ℕ → List Item → List DirInfo → Handler D (Option Listed)
    read_batches zero aapl q h scan items waiting = pure none
    read_batches (suc fuel) aapl q h scan items waiting = do
      batch ← call (fs.read_dir h scan (max_read_entries q))
      with_batch aapl q items waiting batch
          (λ p. read_batches fuel aapl q h read_dir_continue p.items p.pending)

    abbrev pub after_waiting :
        Page → Option ℕ → Handler D (Option Listed) → Handler D (Option Listed)
    after_waiting p (some status) more = listed status p.items p.pending
    after_waiting p none more = more

    -- `queryDirectoryWildcard`, from the entries that wait.
    abbrev pub query_wildcard : ℕ → Bool → Query → ℕ → ℕ → List DirInfo → Handler D (Option Listed)
    query_wildcard fuel aapl q h scan [] = read_batches fuel aapl q h scan [] []
    query_wildcard fuel aapl q h scan (d ∷ rest) = do
      p ← lift (append_entries aapl q [] [] (d ∷ rest))
      after_waiting p (status_of_items p.items p.full)
          (read_batches fuel aapl q h scan p.items p.pending)

    -- A pattern without wildcards: one lookup, and nothing the next time.
    abbrev pub single_found :
        Query → Open → Res Attributes → Option (Option Item) → Handler D (ℕ × List Item × Open)
    single_found q o (err e) i = pure (status_no_such_file, [], o)
    single_found q o (ok a) none = lift none
    single_found q o (ok a) (some none) = lift none
    single_found q o (ok a) (some (some i)) =
        if fits q.max_size [] i
        then pure (0, i ∷ [], record o { single_name = q.pattern; single_done = true })
        else pure (status_buffer_too_small, [], o)

    abbrev pub item_of : Bool → Query → Res Attributes → Option (Option Item)
    item_of aapl q (err e) = some none
    item_of aapl q (ok a) =
        make_item texts.base aapl q.class (record { name = q.pattern; attributes = a })

    abbrev pub query_single : Bool → Query → ℕ → Open → Handler D (ℕ × List Item × Open)
    query_single aapl q h o =
        if o.single_done && equal_bytes o.single_name q.pattern
        then pure (status_no_more_files, [], o)
        else (do a ← call (fs.lookup h q.pattern); single_found q o a (item_of aapl q a))

    abbrev pub of_listed : Open → Option Listed → Handler D (Option (ℕ × List Item × Open))
    of_listed o none = pure none
    of_listed o (some l) = pure (some (l.status, l.items, record o { pending = l.pending }))

    -- The listing itself: status, items, and the open afterwards.
    abbrev pub query_listing :
        ℕ → Bool → Query → ℕ → ℕ → Open → Handler D (Option (ℕ × List Item × Open))
    query_listing fuel aapl q h scan o =
        if contains_wildcard q.pattern
        then (do l ← query_wildcard fuel aapl q h scan o.pending; of_listed o l)
        else (do l ← query_single aapl q h o; pure (some l))

    -- A restart forgets where the listing was.
    abbrev pub restarted : Bool → Open → Open
    restarted again o =
        if again then record o { pending = []; single_name = []; single_done = false } else o

    abbrev pub is_listing_class : ℕ → Bool
    is_listing_class c =
        c == file_id_both_directory_information
        || c == file_full_directory_information
        || c == file_names_information
        || c == file_directory_information
        || c == file_id_full_directory_information
        || c == file_both_directory_information
        || c == file_id_all_extd_both_directory_information

    abbrev pub last_status : Option CompoundContext → ℕ
    last_status none = 0
    last_status (some ctx) = ctx.last_status

    -- `r.FileName()`: the offset and the end are `uint16`s.
    abbrev pub pattern_of : Slice → Handler D Text
    pattern_of r = do
      off ← lift (get_le 2 r 24)
      n ← lift (get_le 2 r 26)
      let at = (off + 2 ^ 16 - 64) % 2 ^ 16
      bs ← lift (sub r at ((at + n) % 2 ^ 16))
      pure (texts.of_utf16 (elements bs))

    abbrev pub answer_listing : Slice → Option (ℕ × List Item × Open) → Handler D (Unit {0})
    answer_listing pkt none = lift none
    answer_listing pkt (some (status, items, o)) =
        put_open o
        >> (if status != 0
            then refuse pkt status
            else answer pkt 0 (query_directory_response items))

    -- The size and the status before decide whether the disk is asked at all.
    abbrev pub listed_or_not : ℕ → ℕ → Bool → Query → ℕ → ℕ → Open → Slice → Handler D (Unit {0})
    listed_or_not fuel before aapl q h scan o pkt =
        let status = if q.max_size == 0 then status_buffer_too_small else before in
        if status == 0
        then (do l ← query_listing fuel aapl q h scan o; answer_listing pkt l)
        else answer_listing pkt (some (status, [], o))

    -- `queryDirectory`, without the class of POSIX listings; `none` also where the fuel is used up.
    unfoldable pub query_directory : ℕ → Option CompoundContext → Slice → Handler D (Unit {0})
    query_directory fuel ctx pkt = do
      r ← accept_or_nil smb2_query_directory pkt
      class ← lift (index r 2)
      refuse_if (not (is_listing_class class)) pkt status_invalid_parameter
      pattern ← pattern_of r
      id ← target_id 8 ctx r pkt
      max_size ← lift (get_le 4 r 28)
      o ← open_at (handle_id id) pkt
      f ← lift (index r 3)
      let again = bit_and f (bit_or restart_scans reopen) != 0
      aapl ← get_aapl
      listed_or_not fuel (last_status ctx) aapl
          (record {
            class = class;
            single = bit_and f return_single_entry != 0;
            max_size = max_size;
            pattern = pattern;
          })
          (handle_id id) (if again then read_dir_restart else read_dir_continue) (restarted again o)
          pkt
