-- ===== src/Storage.antt =====
-- backend/internal/storage: what a reader gives, and the interface ObjectStorage of storage.go with what its
-- callers rely on.
pub mod Envelope
pub mod Secure
pub mod Local
use fluenthub.Prelude.{
  ℕ, zero, suc, ◌-◌, ◌≡◌, String, Bool, true, ◌&&◌, Option, none, some, List, [], ◌∷◌, ◌++◌, leb,
  if◌then◌else◌, length, take,
}
use fluenthub.Prelude.Action.{Error, Result, ok, Action}

abbrev pub Bytes : Type 0
Bytes = List ℕ

-- What a call of Read gives beside its bytes: nothing, io.EOF, or another error.
pub data Ending : Type 0 where
  going_on : Ending
  end_of_file : Ending
  failing : Error → Ending

pub record Read : Type 0 where
  pub bytes : Bytes
  pub ending : Ending

-- A source by what its calls of Read give; after the last it gives nothing but io.EOF.
abbrev pub Source : Type 0
Source = List Read

-- What reading everything gives: the bytes, and the error that ends them, if one does.
abbrev pub Stream : Type 0
Stream = Bytes × Option Error

unfoldable pub content : Source → Stream
content [] = ([], none)
content (read ∷ rest) =
    let later = content rest in
    elim read.ending [
      | going_on ↦ (read.bytes ++ later.0, later.1)
      | end_of_file ↦ (read.bytes, none)
      | failing e ↦ (read.bytes, some e)
    ]

-- io.Copy from io.LimitReader(source, limit).
unfoldable pub copy_limited : ℕ → Source → Stream
copy_limited limit [] = ([], none)
copy_limited zero (read ∷ rest) = ([], none)
copy_limited (suc n) (read ∷ rest) =
    let later = copy_limited (suc n - length read.bytes) rest in
    if leb (length read.bytes) (suc n)
    then elim read.ending [
      | going_on ↦ (read.bytes ++ later.0, later.1)
      | end_of_file ↦ (read.bytes, none)
      | failing e ↦ (read.bytes, some e)
    ]
    else (take (suc n) read.bytes, none)

pub record ObjectStorage (S : Type 0) : Type 0 where
  pub put : String → Source → Action S String
  pub open_object : String → Action S Stream
  pub delete : String → Action S (Unit {0})
  pub exists : String → Action S Bool
  pub close : Action S (Unit {0})

-- What the callers rely on: whatever was put, from a source without an error, is read back in full.
abbrev pub IsStorage : {S : Type 0} → ObjectStorage S → Type 0
IsStorage {S} storage =
    (namespace key : String) (source : Source) (s : S)
    → (content source).1 ≡ none
    → (storage.put namespace source s).0 ≡ ok key
    → (storage.open_object key (storage.put namespace source s).1).0 ≡ ok (content source)
