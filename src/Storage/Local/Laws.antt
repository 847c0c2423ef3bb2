-- ===== src/Storage/Local/Laws.antt =====
-- What is stored is read back, and nothing outside the root is touched.
use Prim.Native.String.{◌++◌}
use fluenthub.Prelude.{
  ℕ, ◌+◌, ◌^◌, ◌<◌, ◌≡◌, refl, sym, ap, ◌∙◌, String, Bool, true, false, none, some, [], ◌∷◌, ◌==◌,
  eq_iff, eq_refl, arith, length, find_where, Option-cases, Bool-cases, inl, inr,
}
use fluenthub.Prelude.Text.{starts_with}
use fluenthub.Prelude.Int.{pos, add64-pos}
use fluenthub.Prelude.Action.{Result-cases, ok, Faults}
use fluenthub.Storage.{Bytes, Source, content, copy_limited, IsStorage}
use fluenthub.Storage.Secure.{limit_of}
use fluenthub.Storage.Secure.Laws.{copy_limited-content}
use fluenthub.Storage.Local.{
  Files, Paths, LocalObjectStorage, has_path, place, remove, safe_path, uploaded, put, open_object,
  delete, local,
}

find_where-place :
    (path : String) (bytes : Bytes) (files : Files)
    → find_where (has_path path) (place path bytes files)
      ≡ some (record { path = path; bytes = bytes })
unfolding find_where place
find_where-place path bytes [] = ground (arith, eq_refl path)
find_where-place path bytes (file ∷ files) =
    ground (arith, eq_refl path, find_where-place path bytes files)

find_where-place_other :
    (path other : String) (bytes : Bytes) (files : Files)
    → path == other ≡ false
    → find_where (has_path other) (place path bytes files) ≡ find_where (has_path other) files
unfolding find_where place
find_where-place_other path other bytes [] apart = ground arith
find_where-place_other path other bytes (file ∷ files) apart =
    let step = find_where-place_other path other bytes files apart in
    elim (Bool-cases (file.path == path)) [
      | inl same ↦
          let equal : (file.path == other) ≡ (path == other) =
            ap (λ p. p == other) ((eq_iff file.path path).0 same) in
          ground (arith, equal)
      | inr miss ↦ ground (arith, step)
    ]

find_where-remove_other :
    (path other : String) (files : Files)
    → path == other ≡ false
    → find_where (has_path other) (remove path files) ≡ find_where (has_path other) files
unfolding find_where remove
find_where-remove_other path other [] apart = refl
find_where-remove_other path other (file ∷ files) apart =
    let step = find_where-remove_other path other files apart in
    elim (Bool-cases (file.path == path)) [
      | inl same ↦
          let equal : (file.path == other) ≡ (path == other) =
            ap (λ p. p == other) ((eq_iff file.path path).0 same) in
          ground (arith, equal)
      | inr miss ↦ ground (arith, step)
    ]

-- A path that filepath.Rel does not find below the root.
unfoldable pub is_outside : Paths → String → String → Bool
is_outside paths root path = elim (paths.rel root path) [
  | none ↦ true
  | some rel ↦ starts_with rel ".."
]

safe_path_inside :
    (paths : Paths) (storage : LocalObjectStorage) (key path outside : String)
    → safe_path paths storage key ≡ ok path
    → is_outside paths storage.root outside ≡ true
    → path == outside ≡ false
unfolding safe_path is_outside
safe_path_inside paths storage key path outside found away = elim (Bool-cases (path == outside)) [
  | inl same ↦
      let equal : is_outside paths storage.root path ≡ true =
        ap (is_outside paths storage.root) ((eq_iff path outside).0 same) ∙ away in
      elim (Option-cases (paths.rel storage.root (paths.resolve storage.root key))) [
        | inl missing ↦ ground (arith, missing)
        | inr (rel, relative) ↦ ground (arith, relative, equal)
      ]
  | inr apart ↦ apart
]

module _ (paths : Paths) (storage : LocalObjectStorage) (fails : Faults) (name : String) where
  uploaded-content :
      (source : Source) (bytes : Bytes) (m : ℕ)
      → storage.max_bytes ≡ pos m
      → m + 1 < 2 ^ 63
      → (content source).1 ≡ none
      → uploaded paths storage fails name source ≡ ok bytes
      → content source ≡ (bytes, none)
  unfolding uploaded limit_of
  uploaded-content source bytes m max small fine done =
      let limit : limit_of storage.max_bytes ≡ m + 1 = rw (max, add64-pos m 1 small) refl in
      let written = copy_limited (limit_of storage.max_bytes) source in
      let accepted : length written.0 < m + 1 = ground (arith, max) in
      let whole =
        copy_limited-content (limit_of storage.max_bytes) source fine
          (omega (arith, accepted, limit)) in
      let same : bytes ≡ written.0 = ground arith in ground (arith, whole, same)

  -- What Put has accepted under a limit below the greatest int64, Open gives back in full, if the system can open the file.
  pub stored_is_opened :
      (m : ℕ) (namespace key : String) (source : Source) (files : Files)
      → storage.max_bytes ≡ pos m
      → m + 1 < 2 ^ 63
      → fails 8 ≡ false
      → (content source).1 ≡ none
      → let (r, files') = put paths storage fails name namespace source files in
        r ≡ ok key → (open_object paths storage fails name key files').0 ≡ ok (content source)
  unfolding put open_object
  stored_is_opened m namespace key source files max small opens fine done =
      elim (Result-cases (safe_path paths storage (namespace ++ "/" ++ name))) [
        | inl (path, safe) ↦ elim (Result-cases (uploaded paths storage fails name source)) [
          | inl (bytes, copied) ↦
              let same : namespace ++ "/" ++ name ≡ key = ground (arith, safe, copied) in
              let again : safe_path paths storage key ≡ ok path =
                ap (safe_path paths storage) (sym same) ∙ safe in
              let found = find_where-place path bytes files in
              let whole = uploaded-content source bytes m max small fine copied in
              ground (arith, safe, copied, again, found, whole)
          | inr (e, failed) ↦ ground (arith, safe, failed)
        ]
        | inr (e, failed) ↦ ground (arith, failed)
      ]

  -- So it is a storage to wrap.
  pub local-IsStorage :
      (m : ℕ)
      → storage.max_bytes ≡ pos m
      → m + 1 < 2 ^ 63
      → fails 8 ≡ false
      → IsStorage (local paths storage fails name)
  unfolding local
  local-IsStorage m max small opens namespace key source files fine done =
      stored_is_opened m namespace key source files max small opens fine done

  -- Whatever the namespace and the key, neither Put nor Delete changes a file whose path lies outside the root.
  pub local_confined :
      (namespace key outside : String) (source : Source) (files : Files)
      → is_outside paths storage.root outside ≡ true
      → (find_where (has_path outside) (put paths storage fails name namespace source files).1
          ≡ find_where (has_path outside) files)
        × (find_where (has_path outside) (delete paths storage fails name key files).1
            ≡ find_where (has_path outside) files)
  unfolding put delete
  local_confined namespace key outside source files away = (stored, deleted)
    where
      stored :
          find_where (has_path outside) (put paths storage fails name namespace source files).1
          ≡ find_where (has_path outside) files
      stored = elim (Result-cases (safe_path paths storage (namespace ++ "/" ++ name))) [
        | inl (path, safe) ↦
            let apart =
              safe_path_inside paths storage (namespace ++ "/" ++ name) path outside safe away in
            elim (Result-cases (uploaded paths storage fails name source)) [
              | inl (bytes, copied) ↦
                  ground
                    (arith, safe, copied, find_where-place_other path outside bytes files apart)
              | inr (e, failed) ↦ ground (arith, safe, failed)
            ]
        | inr (e, failed) ↦ ground (arith, failed)
      ]

      deleted :
          find_where (has_path outside) (delete paths storage fails name key files).1
          ≡ find_where (has_path outside) files
      deleted = elim (Result-cases (safe_path paths storage key)) [
        | inl (path, safe) ↦
            let apart = safe_path_inside paths storage key path outside safe away in
            ground (arith, safe, find_where-remove_other path outside files apart)
        | inr (e, failed) ↦ ground (arith, failed)
      ]
