-- ===== src/Files/Create/Fields.antt =====
-- internal/smb2/request.go, `CreateRequestDecoder`, and server/file_tree.go: what `create` reads of its request, its
-- constants, and the names with colons (internal/smb2/util.go).
use go_smb.Common.{
  ℕ, ◌+◌, ◌-◌, ◌%◌, ◌^◌, Bool, true, false, ◌||◌, Option, none, some, List, [], ◌∷◌, map, ltb, ◌==◌,
  ◌!=◌, if◌then◌else◌, bit_and,
}
use go_smb.Common.Texts.{Text}
use go_smb.Bytes.{Slice, index, get_le, sub, elements}
use go_smb.Vfs.{Res, ok, err, Attributes, FileType}
use go_smb.Vfs.Convert.{is_type}
use go_smb.Files.{Handler, ◌>>=◌, pure, lift, fail}

abbrev pub smb2_create : ℕ
smb2_create = 5

abbrev pub file_supersede : ℕ
file_supersede = 0

abbrev pub file_open : ℕ
file_open = 1

abbrev pub file_create : ℕ
file_create = 2

abbrev pub file_open_if : ℕ
file_open_if = 3

abbrev pub file_overwrite : ℕ
file_overwrite = 4

abbrev pub file_overwrite_if : ℕ
file_overwrite_if = 5

abbrev pub file_directory_file : ℕ
file_directory_file = 0x1

abbrev pub file_delete_on_close : ℕ
file_delete_on_close = 0x1000

abbrev pub file_open_reparse_point : ℕ
file_open_reparse_point = 0x200000

-- `FILE_WRITE_DATA|FILE_APPEND_DATA|GENERIC_WRITE`.
abbrev pub any_write : ℕ
any_write = 0x4000_0006

abbrev pub status_delete_pending : ℕ
status_delete_pending = 0xc000_0056

abbrev pub status_not_a_directory : ℕ
status_not_a_directory = 0xc000_0103

abbrev pub status_no_such_file : ℕ
status_no_such_file = 0xc000_000f

abbrev pub status_object_path_not_found : ℕ
status_object_path_not_found = 0xc000_003a

abbrev pub status_object_name_not_found : ℕ
status_object_name_not_found = 0xc000_0034

abbrev pub status_open_failed : ℕ
status_open_failed = 0xc000_0136

abbrev pub status_object_name_exists : ℕ
status_object_name_exists = 0x4000_0000

-- The host's numbers, the conversions of texts, and whether the connection has the POSIX extensions.
pub record Host : Type 0 where
  pub o_create : ℕ
  pub o_excl : ℕ
  pub o_trunc : ℕ
  pub o_rdwr : ℕ
  pub of_utf16 : List ℕ → Text
  pub base : Text → Text
  pub posix_extensions : Bool

-- The fields of the request.
pub record Request : Type 0 where
  pub oplock_level : ℕ
  pub access : ℕ
  pub disposition : ℕ
  pub options : ℕ

-- `strings.ReplaceAll(name, "\\", "/")`.
abbrev pub slashed : Text → Text
slashed = map (λ c. if c == b'\\' then b'/' else c)

abbrev pub path_of : Text → Text
path_of [] = b'/' ∷ []
path_of (c ∷ rest) = slashed (c ∷ rest)

-- `IsEA`: the name has a colon; and `SplitEA`: what is before the first, and what is between it and the next.
abbrev pub is_ea : Text → Bool
is_ea [] = false
is_ea (c ∷ rest) = c == b':' || is_ea rest

abbrev pub before_colon : Text → Text
before_colon [] = []
before_colon (c ∷ rest) = let more = before_colon rest in if c == b':' then [] else c ∷ more

abbrev pub after_colon : Text → Text
after_colon [] = []
after_colon (c ∷ rest) =
    let more = after_colon rest in if c == b':' then before_colon rest else more

-- What there is under the name: its type and its attributes.
abbrev pub Existing : Type 0
Existing = Option (FileType × Attributes)

module _ {D : Type 0} where
  -- `CreateRequestDecoder.IsInvalid`: the ends are of the width of their parts, and 64 is taken off as an int.
  abbrev pub is_invalid_create : Slice → Handler D Bool
  is_invalid_create r = if ltb r.len 56 then pure true else (do
    size ← lift (get_le 2 r 0)
    noff ← lift (get_le 2 r 44)
    nlen ← lift (get_le 2 r 46)
    coff ← lift (get_le 4 r 48)
    clen ← lift (get_le 4 r 52)
    pure (
        size != 57
        || noff % 8 != 0
        || ltb (r.len + 64) ((noff + nlen) % 2 ^ 16)
        || coff % 8 != 0
        || ltb (r.len + 64) ((coff + clen) % 2 ^ 32)))

  -- The data of a valid request; an error ends the connection.
  abbrev pub valid_or_fail : Option Slice → Handler D Slice
  valid_or_fail none = fail
  valid_or_fail (some r) = do bad ← is_invalid_create r; if bad then fail else pure r

  abbrev pub create_name : (List ℕ → Text) → Slice → Handler D Text
  create_name of_utf16 r = do
    off ← lift (get_le 2 r 44)
    n ← lift (get_le 2 r 46)
    let at = (off + 2 ^ 16 - 64) % 2 ^ 16
    bs ← lift (sub r at ((at + n) % 2 ^ 16))
    pure (of_utf16 (elements bs))

  abbrev pub create_contexts : Slice → Handler D Slice
  create_contexts r = do
    n ← lift (get_le 4 r 52)
    if n == 0 then pure (record { bytes = []; len = 0 }) else (do
      off ← lift (get_le 4 r 48)
      let at = (off + 2 ^ 32 - 64) % 2 ^ 32
      lift (sub r at ((at + n) % 2 ^ 32)))

  abbrev pub request_of : Slice → Handler D Request
  request_of r = do
    level ← lift (index r 3)
    access ← lift (get_le 4 r 24)
    disposition ← lift (get_le 4 r 36)
    options ← lift (get_le 4 r 40)
    pure (record {
      oplock_level = level;
      access = access;
      disposition = disposition;
      options = options;
    })

  abbrev pub existing_of : Res Attributes → Handler D Existing
  existing_of (err e) = pure none
  existing_of (ok a) = do t ← lift a.file_type; pure (some (t, a))

abbrev pub exists : Option (FileType × Attributes) → Bool
exists none = false
exists (some x) = true

abbrev pub is_of_type : FileType → Option (FileType × Attributes) → Bool
is_of_type u none = false
is_of_type u (some (t, a)) = is_type u t

abbrev pub has : ℕ → ℕ → Bool
has options bit = bit_and options bit != 0
