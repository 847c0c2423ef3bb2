-- ===== src/Storage/Local.antt =====
-- LocalObjectStorage of backend/internal/storage/storage.go, on a file system that is a list of files by their paths.
pub mod Laws
pub mod Tests
use Prim.Native.Char.{Char, code}
use Prim.Native.String.{◌++◌}
use fluenthub.Prelude.{
  ℕ, String, Bool, true, false, ◌&&◌, ◌||◌, not, Option, none, some, List, [], ◌∷◌, ◌==◌, ltb, leb,
  eqb, if◌then◌else◌, length, find_where, exists_where, is_some,
}
use fluenthub.Prelude.Text.{len, starts_with}
use fluenthub.Prelude.Int.{ℤ, pos, ltb_ℤ}
use fluenthub.Prelude.Action.{
  Error, reason, remote, Result, ok, err, Faults, Action, lift, fail_if, require, exec, ◌>>=◌, ◌>>◌,
  pure, query_row, query, or_fail,
}
use fluenthub.Storage.{Bytes, Stream, Source, copy_limited, ObjectStorage}
use fluenthub.Storage.Secure.{limit_of, check_error}

pub record File : Type 0 where
  pub path : String
  pub bytes : Bytes

abbrev pub Files : Type 0
Files = List File

abbrev pub has_path : String → File → Bool
has_path path file = file.path == path

-- os.Rename of a new file: the one that had the path is replaced.
unfoldable pub place : String → Bytes → Files → Files
place path bytes [] = record { path = path; bytes = bytes } ∷ []
place path bytes (file ∷ files) =
    let rest = place path bytes files in
    if file.path == path then record { path = path; bytes = bytes } ∷ files else file ∷ rest

-- os.Remove
unfoldable pub remove : String → Files → Files
remove path [] = []
remove path (file ∷ files) =
    let rest = remove path files in if file.path == path then files else file ∷ rest

-- What path/filepath does: IsAbs, Clean of Join with FromSlash of the key, and Rel.
pub record Paths : Type 0 where
  pub is_abs : String → Bool
  pub resolve : String → String → String
  pub rel : String → String → Option String

pub record LocalObjectStorage : Type 0 where
  pub root : String
  pub max_bytes : ℤ

-- strings.Contains(key, "..")
unfoldable pub has_dots : String → Bool
has_dots String.[] = false
has_dots (String.◌∷◌ c s) = starts_with (String.◌∷◌ c s) ".." || has_dots s

unfoldable pub safe_path : Paths → LocalObjectStorage → String → Result String
safe_path paths storage key =
    if key == "" || paths.is_abs key || has_dots key
    then err (reason "unsafe storage key")
    else elim (paths.rel storage.root (paths.resolve storage.root key)) [
      | none ↦ err (reason "storage path escapes root")
      | some rel ↦
          if starts_with rel ".."
          then err (reason "storage path escapes root")
          else ok (paths.resolve storage.root key)
    ]

abbrev is_lower_or_dash : Char → Bool
is_lower_or_dash c = (leb 97 (code c) && leb (code c) 122) || eqb (code c) 45

unfoldable pub all_valid : String → Bool
all_valid String.[] = true
all_valid (String.◌∷◌ c s) = is_lower_or_dash c && all_valid s

unfoldable pub valid_namespace : String → Bool
valid_namespace v = not (v == "" || ltb 40 (len v)) && all_valid v

-- `fails` are the failing calls of the system, `name` the 24 random bytes in hexadecimal digits.
module _ (paths : Paths) (storage : LocalObjectStorage) (fails : Faults) (name : String) where
  abbrev failed : Bool → Result (Unit {0})
  failed fault = if fault then err remote else ok tt

  -- The temporary file, copied, synced and closed.
  unfoldable pub uploaded : Source → Result Bytes
  uploaded source =
      let written = copy_limited (limit_of storage.max_bytes) source in
      if ltb_ℤ storage.max_bytes (pos (length written.0))
      then err (reason "upload exceeds configured limit")
      else elim written.1 [
        | some e ↦ err e
        | none ↦ if fails 4 || fails 5 || fails 6 then err remote else ok written.0
      ]

  unfoldable pub put : String → Source → Action Files String
  put namespace source = do
    require (valid_namespace namespace) (reason "invalid storage namespace")
    lift (failed (fails 0))
    path ← lift (safe_path paths storage (namespace ++ "/" ++ name))
    lift (failed (fails 1 || fails 2 || fails 3))
    bytes ← lift (uploaded source)
    lift (failed (fails 7))
    exec false (place path bytes)
    pure (namespace ++ "/" ++ name)

  unfoldable pub open_object : String → Action Files Stream
  open_object key = do
    path ← lift (safe_path paths storage key)
    file ← or_fail (query_row (fails 8) (find_where (has_path path))) remote
    pure (file.bytes, none)

  unfoldable pub delete : String → Action Files (Unit {0})
  delete key = do
    path ← lift (safe_path paths storage key)
    file ← or_fail (query_row (fails 9) (find_where (has_path path))) remote
    exec false (remove path)

  unfoldable pub exists : String → Action Files Bool
  exists key = do
    path ← lift (safe_path paths storage key)
    or_fail (query (fails 10) (exists_where (has_path path))) remote

  unfoldable pub local : ObjectStorage Files
  unfolding put open_object delete exists
  local = record {
    put = put;
    open_object = open_object;
    delete = delete;
    exists = exists;
    close = pure tt;
  }
