-- ===== src/Storage/Secure.antt =====
-- SecureObjectStorage of backend/internal/storage/secure.go: the quarantine, the scan and the envelope around
-- another storage.
pub mod Laws
pub mod Truncated
mod Tests
use fluenthub.Prelude.{
  ℕ, String, Bool, true, false, ◌&&◌, ◌||◌, not, Option, none, some, List, [], ◌∷◌, ltb, eqb, ◌==◌,
  if◌then◌else◌, length, is_some,
}
use fluenthub.Prelude.Int.{ℤ, pos, pos_part, add64, ltb_ℤ}
use fluenthub.Prelude.Action.{
  Error, reason, counted, database, remote, Result, ok, err, Faults, Action, branch, lift, fail_if,
  ◌>>=◌, ◌>>◌,
}
use fluenthub.Storage.{
  Bytes, Stream, Read, Source, end_of_file, content, copy_limited, ObjectStorage,
}
use fluenthub.Storage.Envelope.{
  Aead, encrypted_magic, read_full, same_bytes, encrypt_stream, decrypt_stream,
}

-- A scan of some bytes, by the error that it ends with.
abbrev pub MalwareScanner : Type 0
MalwareScanner = Bytes → Option Error

pub record SecureObjectStorage (S : Type 0) : Type 0 where
  pub inner : ObjectStorage S
  pub scanner : Option MalwareScanner
  pub key : Bytes
  pub max_bytes : ℤ
  pub allow_legacy_plaintext : Bool

unfoldable pub new_secure :
    {S : Type 0}
    → Option (ObjectStorage S)
    → Option MalwareScanner
    → Bytes
    → ℤ
    → Bool
    → Result (SecureObjectStorage S)
new_secure none scanner key max_bytes allow_legacy =
    err (reason "invalid secure storage configuration")
new_secure (some inner) scanner key max_bytes allow_legacy =
    if ltb_ℤ max_bytes (pos 1)
    then err (reason "invalid secure storage configuration")
    else if not (eqb (length key) 0) && not (eqb (length key) 32)
    then err (reason "storage encryption key must contain 32 bytes")
    else ok (record {
      inner = inner;
      scanner = scanner;
      key = key;
      max_bytes = max_bytes;
      allow_legacy_plaintext = allow_legacy;
    })

-- What the parts outside do during an operation: `fails` are the failing calls on temporary files,
-- `nonces`, `random_fails` and `write_fails` those of encryptStream, `read_file` the pieces in which a file is read.
pub record Environment : Type 0 where
  pub fails : Faults
  pub nonces : ℕ → Bytes
  pub random_fails : Faults
  pub write_fails : Faults
  pub read_file : Bytes → Source

abbrev pub failure : Bool → Result (Unit {0})
failure fault = if fault then err remote else ok tt

-- The error of a stream, as a result.
abbrev pub check_error : Option Error → Result (Unit {0})
check_error none = ok tt
check_error (some e) = err e

abbrev pub scan : Option MalwareScanner → Bytes → Option Error
scan none plain = none
scan (some scanner) plain = scanner plain

-- io.LimitReader's limit: a negative one reads nothing.
unfoldable pub limit_of : ℤ → ℕ
limit_of max_bytes = pos_part (add64 max_bytes (pos 1))

-- Peek of the magic; an object that does not have it, or cannot be read so far, is legacy.
abbrev has_magic : Bytes → Bool
has_magic bytes = elim (read_full 8 bytes) [
  | none ↦ false
  | some (header, rest) ↦ same_bytes header encrypted_magic
]

abbrev is_short : Error → Bool
is_short (reason text) = text == "unexpected EOF"
is_short (counted text n) = false
is_short database = false
is_short remote = false

abbrev is_eof : Error → Bool
is_eof (reason text) = text == "EOF"
is_eof (counted text n) = false
is_eof database = false
is_eof remote = false

-- How the reader of the pipe sees the end: CloseWithError of no error or of io.EOF is a plain end. The first argument
-- is the error of the storage's own reader, which io.ReadFull passes on.
abbrev pub pipe_error : Option Error → Option Error → Option Error
pipe_error raw none = none
pipe_error none (some e) = if is_eof e then none else some e
pipe_error (some f) (some e) = if is_eof e || is_short e then some f else some e

-- `new_gcm` is aes.NewCipher with cipher.NewGCM.
module _ {S : Type 0} (new_gcm : Bytes → Result Aead) (storage : SecureObjectStorage S)
    (env : Environment) where
  -- The quarantine file, after its copy and its scan.
  unfoldable pub quarantine : Source → Result Bytes
  quarantine source =
      let written = copy_limited (limit_of storage.max_bytes) source in
      if env.fails 0
      then err remote
      else if ltb_ℤ storage.max_bytes (pos (length written.0))
      then err (reason "upload exceeds configured limit")
      else if env.fails 1
      then err remote
      else elim written.1 [
        | some e ↦ err e
        | none ↦
            if is_some storage.scanner && env.fails 2
            then err remote
            else elim (scan storage.scanner written.0) [
              | some e ↦ err e
              | none ↦ if env.fails 3 then err remote else ok written.0
            ]
      ]

  -- The file that goes to the inner storage.
  unfoldable pub sealed_file : Bytes → Result Bytes
  sealed_file plain =
      if eqb (length storage.key) 0
      then ok plain
      else if env.fails 4
      then err remote
      else elim (new_gcm storage.key) [
        | err e ↦ err e
        | ok aead ↦
            elim (encrypt_stream aead env.nonces env.random_fails env.write_fails
              (env.read_file plain)) [
                | err e ↦ err e
                | ok sealed ↦ if env.fails 5 then err remote else ok sealed
              ]
      ]

  unfoldable pub put : String → Source → Action S String
  put namespace source = do
    plain ← lift (quarantine source)
    file ← lift (sealed_file plain)
    storage.inner.put namespace (env.read_file file)

  -- What the reader that Open returns gives.
  unfoldable pub opened : Stream → Result Stream
  opened raw =
      if eqb (length storage.key) 0
      then ok raw
      else if not (has_magic raw.0)
      then if storage.allow_legacy_plaintext
        then ok raw
        else err (reason "object is not encrypted with the FluentHub envelope")
      else elim (new_gcm storage.key) [
        | err e ↦ ok ([], some e)
        | ok aead ↦ elim (decrypt_stream aead raw.0) [
          | none ↦ ok ([], some remote)
          | some read ↦ ok (read.0, pipe_error raw.1 read.1)
        ]
      ]

  unfoldable pub open_object : String → Action S Stream
  open_object key = do raw ← storage.inner.open_object key; lift (opened raw)

  -- The storage as its callers see it; that Close also clears the key in memory is left out.
  abbrev pub secure : ObjectStorage S
  secure = record {
    put = put;
    open_object = open_object;
    delete = storage.inner.delete;
    exists = storage.inner.exists;
    close = storage.inner.close;
  }
