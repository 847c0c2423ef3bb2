-- ===== src/Storage/Envelope.antt =====
-- encryptStream and decryptStream of backend/internal/storage/secure.go: the envelope of an encrypted object.
pub mod Frames
pub mod RoundTrip
pub mod Endings
pub mod Tests
use fluenthub.Prelude.{
  ℕ, zero, suc, ◌+◌, ◌*◌, ◌/◌, ◌%◌, ◌^◌, String, Bool, true, false, ◌&&◌, ◌||◌, Option, none, some,
  List, [], ◌∷◌, ◌++◌, ltb, eqb, if◌then◌else◌, length,
}
use fluenthub.Prelude.Action.{Error, reason, remote, Result, ok, err, Faults}
use fluenthub.Storage.{Bytes, Ending, going_on, end_of_file, failing, Read, Source, Stream}

-- The AEAD that cipher.NewGCM makes of a key; `unseal`, its Open, gives nothing if the authentication fails.
pub record Aead : Type 0 where
  pub nonce_size : ℕ
  pub overhead : ℕ
  pub seal : Bytes → Bytes → Bytes → Bytes
  pub unseal : Bytes → Bytes → Bytes → Option Bytes

-- "FHENC01\n"
abbrev pub encrypted_magic : Bytes
encrypted_magic = 70 ∷ 72 ∷ 69 ∷ 78 ∷ 67 ∷ 48 ∷ 49 ∷ 10 ∷ []

abbrev pub encryption_chunk : ℕ
encryption_chunk = 1024 * 1024

-- binary.BigEndian.PutUint32 and Uint32
unfoldable pub put_uint32 : ℕ → Bytes
put_uint32 n = n / 2 ^ 24 % 256 ∷ n / 2 ^ 16 % 256 ∷ n / 2 ^ 8 % 256 ∷ n % 256 ∷ []

unfoldable pub uint32 : Bytes → ℕ
uint32 (a ∷ b ∷ c ∷ d ∷ rest) = a * 2 ^ 24 + b * 2 ^ 16 + c * 2 ^ 8 + d
uint32 _ = 0

-- The size, the nonce and the sealed bytes of a chunk.
unfoldable pub frame : Aead → Bytes → Bytes → Bytes
unfolding put_uint32
frame aead nonce plain =
    let size = put_uint32 (length plain % 2 ^ 32) in size ++ nonce ++ aead.seal nonce plain size

-- `nonces k` is what rand.Read gives for the k-th chunk, `random_fails k` whether it fails, and
-- `write_fails n` whether the n-th Write to the destination fails.
module _ (aead : Aead) (nonces : ℕ → Bytes) (random_fails write_fails : Faults) where
  unfoldable pub finish : ℕ → Result Bytes
  finish k = if write_fails (3 * k + 1) then err remote else ok (0 ∷ 0 ∷ 0 ∷ 0 ∷ [])

  abbrev prepend : Bytes → Result Bytes → Result Bytes
  prepend bytes (ok rest) = ok (bytes ++ rest)
  prepend bytes (err e) = err e

  abbrev chunk_fails : ℕ → Bool
  chunk_fails k =
      random_fails k
      || write_fails (3 * k + 1)
      || write_fails (3 * k + 2)
      || write_fails (3 * k + 3)

  -- What a round with some bytes writes, before the rest.
  abbrev write_chunk : ℕ → Bytes → Result Bytes → Result Bytes → Result Bytes
  write_chunk k [] same_count next_count = same_count
  write_chunk k (x ∷ xs) same_count next_count =
      if chunk_fails k then err remote else prepend (frame aead (nonces k) (x ∷ xs)) next_count

  -- What follows a round: the loop goes on, breaks or returns.
  abbrev after : Ending → Result Bytes → Result Bytes → Result Bytes
  after going_on loop done = loop
  after end_of_file loop done = done
  after (failing e) loop done = err e

  -- The loop, with `k` chunks written.
  unfoldable pub encrypt_loop : ℕ → Source → Result Bytes
  encrypt_loop k [] = finish k
  encrypt_loop k (read ∷ rest) =
      write_chunk k read.bytes (after read.ending (encrypt_loop k rest) (finish k))
        (after read.ending (encrypt_loop (suc k) rest) (finish (suc k)))

  unfoldable pub encrypt_stream : Source → Result Bytes
  encrypt_stream source =
      if write_fails 0 then err remote else prepend encrypted_magic (encrypt_loop 0 source)

-- io.ReadFull of n bytes, and what is left.
unfoldable pub read_full : ℕ → Bytes → Option (Bytes × Bytes)
read_full zero xs = some ([], xs)
read_full (suc n) [] = none
read_full (suc n) (x ∷ xs) = elim (read_full n xs) [
  | none ↦ none
  | some (first, rest) ↦ some (x ∷ first, rest)
]

abbrev pub write_before : Bytes → Option Stream → Option Stream
write_before plain none = none
write_before plain (some later) = some (plain ++ later.0, later.1)

abbrev pub eof : Error
eof = reason "EOF"

-- The error of io.ReadFull: io.EOF if nothing was left, io.ErrUnexpectedEOF if too little.
abbrev pub short_read : Bytes → Error
short_read [] = eof
short_read (x ∷ xs) = reason "unexpected EOF"

-- The rounds of decryptStream. No fuel is left after `none`; a round uses at least the four bytes of a size.
-- The destination is the writer of a pipe whose reader takes all that is written, so that its writes do not fail;
-- a reader that is closed before the end, after which nothing more is written, is left out.
unfoldable pub decrypt_loop : Aead → ℕ → Bytes → Option Stream
decrypt_loop aead zero source = none
decrypt_loop aead (suc fuel) source = elim (read_full 4 source) [
  | none ↦ some ([], some (short_read source))
  | some (size, after_size) ↦ elim (eqb (uint32 size) 0) [
    | true ↦ some ([], none)
    | false ↦ elim (ltb encryption_chunk (uint32 size)) [
      | true ↦ some ([], some (reason "invalid encrypted object chunk"))
      | false ↦ elim (read_full aead.nonce_size after_size) [
        | none ↦ some ([], some (short_read after_size))
        | some (nonce, after_nonce) ↦ elim (read_full (uint32 size + aead.overhead) after_nonce) [
          | none ↦ some ([], some (short_read after_nonce))
          | some (sealed, rest) ↦ elim (aead.unseal nonce sealed size) [
            | none ↦ some ([], some (reason "encrypted object authentication failed"))
            | some plain ↦ write_before plain (decrypt_loop aead fuel rest)
          ]
        ]
      ]
    ]
  ]
]

unfoldable pub same_bytes : Bytes → Bytes → Bool
same_bytes [] [] = true
same_bytes [] (y ∷ ys) = false
same_bytes (x ∷ xs) [] = false
same_bytes (x ∷ xs) (y ∷ ys) = eqb x y && same_bytes xs ys

abbrev is_magic : Option (Bytes × Bytes) → Option Bytes
is_magic none = none
is_magic (some (header, rest)) = if same_bytes header encrypted_magic then some rest else none

unfoldable pub decrypt_stream : Aead → Bytes → Option Stream
decrypt_stream aead source = elim (is_magic (read_full 8 source)) [
  | none ↦ some ([], some (reason "invalid encrypted object header"))
  | some rest ↦ decrypt_loop aead (suc (length rest)) rest
]
