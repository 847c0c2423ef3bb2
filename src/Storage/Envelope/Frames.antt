-- ===== src/Storage/Envelope/Frames.antt =====
-- Chunks of an envelope, read back.
use fluenthub.Prelude.{
  ℕ, zero, suc, ◌+◌, ◌%◌, ◌^◌, ◌≤◌, ◌<◌, ◌≡◌, refl, sym, ap, ◌∙◌, false, none, some, List, [], ◌∷◌,
  ◌++◌, ltb, eqb, arith, length, length-append, All, Option-cases, inl, inr,
}
use mathlib.Core.List.{append_assoc}
use fluenthub.Storage.{Bytes}
use fluenthub.Storage.Envelope.{
  Aead, encrypted_magic, encryption_chunk, put_uint32, uint32, frame, read_full, write_before,
  decrypt_loop, decrypt_stream, same_bytes,
}

-- What cipher.AEAD promises: Open undoes Seal under the same nonce and additional data, and Seal adds Overhead() bytes.
pub record IsAead (aead : Aead) : Type 0 where
  pub unseal-seal :
      (nonce plain extra : Bytes)
      → length nonce ≡ aead.nonce_size
      → aead.unseal nonce (aead.seal nonce plain extra) extra ≡ some plain
  pub length-seal :
      (nonce plain extra : Bytes)
      → length nonce ≡ aead.nonce_size
      → length (aead.seal nonce plain extra) ≡ length plain + aead.overhead

pub uint32-put_uint32 : (n : ℕ) → n < 2 ^ 32 → uint32 (put_uint32 n) ≡ n
unfolding uint32 put_uint32
uint32-put_uint32 n h = omega (arith, h)

pub read_full-append : (xs ys : Bytes) → read_full (length xs) (xs ++ ys) ≡ some (xs, ys)
unfolding read_full
read_full-append [] ys = refl
read_full-append (x ∷ xs) ys = ground (arith, read_full-append xs ys)

pub read_full_uses :
    (n : ℕ) (xs first rest : Bytes)
    → read_full n xs ≡ some (first, rest)
    → length xs ≡ n + length rest
unfolding read_full
read_full_uses zero xs first rest h = ground arith
read_full_uses (suc n) [] first rest h = cc
read_full_uses (suc n) (x ∷ xs) first rest h = elim (Option-cases (read_full n xs)) [
  | inl missing ↦ ground (arith, missing)
  | inr ((part, left), found) ↦
      let same : left ≡ rest = ground (arith, found) in
      let counted = read_full_uses n xs part left found in omega (arith, counted, ap length same)
]

-- A chunk that a round of encryptStream can have made: its nonce and its bytes.
abbrev pub IsChunk : Aead → Bytes × Bytes → Type 0
IsChunk aead (nonce, plain) =
    (length nonce ≡ aead.nonce_size) × (1 ≤ length plain) × (length plain ≤ encryption_chunk)

pub decrypt_loop-round :
    (aead : Aead) (fuel : ℕ) (source size after_size nonce after_nonce sealed rest plain : Bytes)
    → read_full 4 source ≡ some (size, after_size)
    → eqb (uint32 size) 0 ≡ false
    → ltb encryption_chunk (uint32 size) ≡ false
    → read_full aead.nonce_size after_size ≡ some (nonce, after_nonce)
    → read_full (uint32 size + aead.overhead) after_nonce ≡ some (sealed, rest)
    → aead.unseal nonce sealed size ≡ some plain
    → decrypt_loop aead (suc fuel) source ≡ write_before plain (decrypt_loop aead fuel rest)
unfolding decrypt_loop
decrypt_loop-round aead fuel source size after_size nonce after_nonce sealed rest plain read
      some_bytes small reads seals opens =
    ground arith

decrypt_loop_end :
    (aead : Aead) (fuel : ℕ) (rest : Bytes)
    → decrypt_loop aead (suc fuel) (0 ∷ 0 ∷ 0 ∷ 0 ∷ rest) ≡ some ([], none)
unfolding decrypt_loop read_full uint32
decrypt_loop_end aead fuel rest = refl

-- The bytes of some chunks.
unfoldable pub plains : List (Bytes × Bytes) → Bytes
plains [] = []
plains ((nonce, plain) ∷ chunks) = plain ++ plains chunks

-- Any chunks sealed under the key, one after the other, and the end mark.
unfoldable pub frames : Aead → List (Bytes × Bytes) → Bytes → Bytes
frames aead [] rest = 0 ∷ 0 ∷ 0 ∷ 0 ∷ rest
frames aead ((nonce, plain) ∷ chunks) rest = frame aead nonce plain ++ frames aead chunks rest

module _ (aead : Aead) (laws : IsAead aead) where
  pub decrypt_loop-frame :
      (fuel : ℕ) (nonce plain rest : Bytes)
      → IsChunk aead (nonce, plain)
      → decrypt_loop aead (suc fuel) (frame aead nonce plain ++ rest)
        ≡ write_before plain (decrypt_loop aead fuel rest)
  unfolding frame
  decrypt_loop-frame fuel nonce plain rest (sized, some_bytes, small) =
      let size = put_uint32 (length plain % 2 ^ 32) in
      let sealed = aead.seal nonce plain size in
      let counted : uint32 size ≡ length plain =
        uint32-put_uint32 (length plain % 2 ^ 32) (omega arith) ∙ omega (arith, small) in
      let sealed_length : uint32 size + aead.overhead ≡ length sealed =
        omega (arith, counted, laws.length-seal nonce plain size sized) in
      rw (append_assoc size (nonce ++ sealed) rest, append_assoc nonce sealed rest)
        (decrypt_loop-round aead fuel (size ++ (nonce ++ (sealed ++ rest))) size
          (nonce ++ (sealed ++ rest)) nonce (sealed ++ rest) sealed rest plain
          (read_full-append size (nonce ++ (sealed ++ rest))) (ground (arith, counted))
          (ground (arith, counted)) (rw (sym sized) (read_full-append nonce (sealed ++ rest)))
          (rw sealed_length (read_full-append sealed rest))
          (laws.unseal-seal nonce plain size sized))

  decrypt_loop-frames :
      (chunks : List (Bytes × Bytes)) (fuel : ℕ) (rest : Bytes)
      → All (IsChunk aead) chunks
      → length chunks < fuel
      → decrypt_loop aead fuel (frames aead chunks rest) ≡ some (plains chunks, none)
  unfolding frames plains
  decrypt_loop-frames chunks zero rest h lt = ground (arith, lt)
  decrypt_loop-frames [] (suc fuel) rest h lt = decrypt_loop_end aead fuel rest
  decrypt_loop-frames ((nonce, plain) ∷ chunks) (suc fuel) rest (chunk, more) lt =
      decrypt_loop-frame fuel nonce plain (frames aead chunks rest) chunk
      ∙ ap (write_before plain) (decrypt_loop-frames chunks fuel rest more (omega (arith, lt)))

  length-frames :
      (chunks : List (Bytes × Bytes)) (rest : Bytes)
      → length chunks ≤ length (frames aead chunks rest)
  unfolding frames frame
  length-frames [] rest = omega arith
  length-frames ((nonce, plain) ∷ chunks) rest =
      let size = put_uint32 (length plain % 2 ^ 32) in
      let later = length-frames chunks rest in
      let whole =
        length-append (size ++ (nonce ++ aead.seal nonce plain size)) (frames aead chunks rest) in
      let first = length-append size (nonce ++ aead.seal nonce plain size) in
      omega (arith, later, whole, first)

  -- Whatever chunks were sealed under the key, for this object or for others and in any order, an envelope made
  -- of them is decrypted without an error into their bytes, and what follows the end mark is ignored.
  pub decrypt_stream-frames :
      (chunks : List (Bytes × Bytes)) (rest : Bytes)
      → All (IsChunk aead) chunks
      → decrypt_stream aead (encrypted_magic ++ frames aead chunks rest)
        ≡ some (plains chunks, none)
  unfolding decrypt_stream read_full same_bytes
  decrypt_stream-frames chunks rest h =
      decrypt_loop-frames chunks (suc (length (frames aead chunks rest))) rest h
        (omega (arith, length-frames chunks rest))
