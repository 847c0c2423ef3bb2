-- ===== src/Storage/Local/Tests.antt =====
-- A local storage on a small file system.
use Prim.Native.String.{◌++◌}
use fluenthub.Prelude.{
  ℕ, ◌+◌, ◌^◌, ◌<◌, ◌≡◌, refl, String, true, false, some, none, [], ◌∷◌, find_where, arith,
  if◌then◌else◌,
}
use fluenthub.Prelude.Text.{starts_with}
use fluenthub.Prelude.Int.{pos}
use fluenthub.Prelude.Action.{ok, is_ok, no_faults}
use fluenthub.Storage.{Source, end_of_file, content}
use fluenthub.Storage.Local.{
  File, Files, Paths, LocalObjectStorage, has_path, put, open_object, delete,
}
use fluenthub.Storage.Local.Laws.{is_outside, stored_is_opened, local_confined}

-- Paths that are clean already.
abbrev pub paths : Paths
paths = record {
  is_abs = λ key. starts_with key "/";
  resolve = λ root key. root ++ "/" ++ key;
  rel = λ root path. if starts_with path root then some path else some "../outside";
}

abbrev pub storage : LocalObjectStorage
storage = record { root = "/data"; max_bytes = pos 4 }

abbrev pub source : Source
source = record { bytes = 1 ∷ 2 ∷ 3 ∷ []; ending = end_of_file } ∷ []

abbrev passwords : File
passwords = record { path = "/etc/passwd"; bytes = 9 ∷ [] }

stored_test :
    (put paths storage no_faults "a1" "lessons" source (passwords ∷ [])).0 ≡ ok "lessons/a1"
unfolding put fluenthub.Storage.Local.valid_namespace fluenthub.Storage.Local.all_valid
    fluenthub.Storage.Local.safe_path fluenthub.Storage.Local.has_dots
    fluenthub.Storage.Local.uploaded fluenthub.Storage.copy_limited
    fluenthub.Storage.Secure.limit_of fluenthub.Prelude.Int.add64 fluenthub.Prelude.Int.wrap64
    fluenthub.Prelude.Int.◌+ℤ◌
stored_test = refl

too_long_test :
    is_ok (put paths (record storage { max_bytes = pos 2 }) no_faults "a1" "lessons" source []).0
    ≡ false
unfolding put fluenthub.Storage.Local.valid_namespace fluenthub.Storage.Local.all_valid
    fluenthub.Storage.Local.safe_path fluenthub.Storage.Local.has_dots
    fluenthub.Storage.Local.uploaded fluenthub.Storage.copy_limited
    fluenthub.Storage.Secure.limit_of fluenthub.Prelude.Int.add64 fluenthub.Prelude.Int.wrap64
    fluenthub.Prelude.Int.◌+ℤ◌
too_long_test = refl

traversal_test :
    is_ok (open_object paths storage no_faults "a1" "../etc/passwd" (passwords ∷ [])).0 ≡ false
unfolding open_object fluenthub.Storage.Local.safe_path fluenthub.Storage.Local.has_dots find_where
traversal_test = refl

content_test : (content source).1 ≡ none
unfolding content
content_test = refl

outside_test : is_outside paths "/data" "/etc/passwd" ≡ true
unfolding is_outside
outside_test = refl

stored_is_opened_example :
    (open_object paths storage no_faults "a1" "lessons/a1"
      (put paths storage no_faults "a1" "lessons" source (passwords ∷ [])).1).0
    ≡ ok (content source)
stored_is_opened_example =
    stored_is_opened paths storage no_faults "a1" 4 "lessons" "lessons/a1" source (passwords ∷ [])
      refl (omega arith) refl content_test stored_test

local_confined_example :
    (find_where
        (has_path "/etc/passwd")
        (put paths storage no_faults "a1" "lessons" source (passwords ∷ [])).1
      ≡ find_where (has_path "/etc/passwd") (passwords ∷ []))
    × (find_where
          (has_path "/etc/passwd")
          (delete paths storage no_faults "a1" "../etc/passwd" (passwords ∷ [])).1
        ≡ find_where (has_path "/etc/passwd") (passwords ∷ []))
local_confined_example =
    local_confined paths storage no_faults "a1" "lessons" "../etc/passwd" "/etc/passwd" source
      (passwords ∷ []) outside_test
