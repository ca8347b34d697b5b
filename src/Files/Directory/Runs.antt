-- ===== src/Files/Directory/Runs.antt =====
-- A directory of three entries, listed by one query after the other.
use go_smb.Common.{
  ℕ, zero, suc, ◌<◌, ◌≡◌, refl, sym, true, false, List, [], ◌∷◌, take, drop, take-append-drop,
  if◌then◌else◌, ◌==◌, inr, arith,
}
use go_smb.Common.Texts.{equal_bytes}
use go_smb.Vfs.{DirInfo, FileSystem, ok, no_attributes, read_dir_restart}
use go_smb.Fixtures.{broken_fs}
use go_smb.Opens.Table.{new_server}
use go_smb.Info.{Item, file_names}
use go_smb.Files.{State}
use go_smb.Files.Directory.{Texts, Query, query_wildcard}
use go_smb.Files.Directory.Pages.{IsStream, Serves, query_wildcard_lem}

abbrev plain_texts : Texts
plain_texts = record {
  utf16 = λ t. t;
  of_utf16 = λ t. t;
  base = λ t. t;
  matches =
      λ name pattern. if equal_bytes pattern (b'*' ∷ []) then true else equal_bytes name pattern;
}

abbrev entry : ℕ → DirInfo
entry c = record { name = c ∷ []; attributes = no_attributes }

abbrev three_entries : List DirInfo
three_entries = entry 97 ∷ entry 98 ∷ entry 99 ∷ []

-- The disk is what is left of the listing.
abbrev list_fs : FileSystem (List DirInfo)
list_fs = record broken_fs {
  read_dir = λ h scan n d.
      let from = if scan == read_dir_restart then three_entries else d in
      (drop n from, ok (take n from));
}

take-nonempty : (n : ℕ) (l : List DirInfo) → 0 < n → take n l ≡ [] → l ≡ []
take-nonempty zero l pos h = absurd (omega (arith, pos))
take-nonempty (suc n) [] pos h = refl
take-nonempty (suc n) (x ∷ xs) pos h = cc h

-- Names alone, in a buffer for two of them.
abbrev names_query : Query
names_query = record { class = 12; single = false; max_size = 40; pattern = b'*' ∷ [] }

list_fs-IsStream : IsStream plain_texts false names_query (λ d. d) list_fs 5 three_entries
list_fs-IsStream = record {
  goes_on = λ n d pos. (sym (take-append-drop n d), take-nonempty n d pos);
  starts = λ n d pos. (sym (take-append-drop n three_entries), take-nonempty n three_entries pos);
}

abbrev at_first : State (List DirInfo)
at_first = record { disk = []; server = new_server; aapl_extensions = false }

two_of_three :
    Serves plain_texts false names_query
      (λ d. d)
      (file_names (97 ∷ []) ∷ file_names (98 ∷ []) ∷ file_names (99 ∷ []) ∷ [])
      at_first
      (query_wildcard plain_texts list_fs 4 false names_query 5 read_dir_restart [] at_first)
unfolding go_smb.Info.make_item
two_of_three =
    query_wildcard_lem plain_texts false names_query (λ d. d) list_fs 5 three_entries
      list_fs-IsStream 4 read_dir_restart [] three_entries
      (file_names (97 ∷ []) ∷ file_names (98 ∷ []) ∷ file_names (99 ∷ []) ∷ []) at_first
      (inr (refl, refl, refl)) refl (omega arith)
